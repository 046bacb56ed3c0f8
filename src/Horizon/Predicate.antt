-- ===== src/Horizon/Predicate.antt =====
-- crates/horizon/src/predicate.rs: CAP-23 predicates and whether one holds.
pub mod Depth
pub mod Open
mod Examples
use reserve.Base.{
  ℕ, ◌+◌, Bool, true, false, not, ◌&&◌, ◌||◌, Option, none, some, ltb, if◌then◌else◌, ℤ, ltb_ℤ,
  saturating_add, Text, parse_i64,
}
use reserve.Horizon.Time.{parse_rfc3339_utc}

-- A node has the seven optional fields of the struct, in its order: `unconditional`, `and`, `or`,
-- `not`, `abs_before`, `abs_before_epoch` and `rel_before`.
mutual
  pub data Predicate : Type 0 where
    predicate :
        Option Bool
        → PartsField
        → PartsField
        → InnerField
        → Option Text
        → Option Text
        → Option Text
        → Predicate

  -- `Vec<Predicate>`
  pub data Parts : Type 0 where
    nil : Parts
    cons : Predicate → Parts → Parts

  -- `Option<Vec<Predicate>>`
  pub data PartsField : Type 0 where
    no_parts : PartsField
    parts : Parts → PartsField

  -- `Option<Box<Predicate>>`
  pub data InnerField : Type 0 where
    no_inner : InnerField
    inner : Predicate → InnerField

abbrev and_then {ℓ κ} : {A : Type ℓ} {B : Type κ} → Option A → (A → Option B) → Option B
and_then none f = none
and_then (some a) f = f a

-- `created.is_some_and(|c| now < c.saturating_add(rel))`
abbrev within : ℤ → Option ℤ → ℤ → Bool
within now none rel = false
within now (some c) rel = ltb_ℤ now (saturating_add c rel)

-- The tests on a node that names no other node, in the order of the source.
unfoldable pub leaf_holds :
    Option Bool → Option Text → Option Text → Option Text → ℤ → Option ℤ → Bool
leaf_holds (some flag) abs epoch rel now created = flag
leaf_holds none abs epoch rel now created = elim (and_then epoch parse_i64) [
  | some e ↦ ltb_ℤ now e
  | none ↦ elim (and_then abs parse_rfc3339_utc) [
    | some stamp ↦ ltb_ℤ now stamp
    | none ↦ elim (and_then rel parse_i64) [ some r ↦ within now created r | none ↦ true ]
  ]
]

-- The first field that is present decides.
abbrev first_of_three : Option Bool → Option Bool → Option Bool → Bool → Bool
first_of_three (some b) o n leaf = b
first_of_three none (some b) n leaf = b
first_of_three none none (some b) leaf = b
first_of_three none none none leaf = leaf

unfoldable mutual
  pub holds_at : Predicate → ℤ → Option ℤ → ℕ → Bool
  holds_at (predicate flag and or neg abs epoch rel) now created depth =
      let all = and_holds and now created (depth + 1) in
      let any = or_holds or now created (depth + 1) in
      let none_of = not_holds neg now created (depth + 1) in
      if ltb 4 depth
      then false
      else first_of_three all any none_of (leaf_holds flag abs epoch rel now created)

  and_holds : PartsField → ℤ → Option ℤ → ℕ → Option Bool
  and_holds no_parts now created depth = none
  and_holds (parts ps) now created depth = some (both ps now created depth)

  or_holds : PartsField → ℤ → Option ℤ → ℕ → Option Bool
  or_holds no_parts now created depth = none
  or_holds (parts ps) now created depth = some (either ps now created depth)

  not_holds : InnerField → ℤ → Option ℤ → ℕ → Option Bool
  not_holds no_inner now created depth = none
  not_holds (inner p) now created depth = some (not (holds_at p now created depth))

  -- `parts.len() != 2` is false on both.
  both : Parts → ℤ → Option ℤ → ℕ → Bool
  both nil now created depth = false
  both (cons p nil) now created depth = false
  both (cons p (cons q nil)) now created depth =
      holds_at p now created depth && holds_at q now created depth
  both (cons p (cons q (cons r rest))) now created depth = false

  either : Parts → ℤ → Option ℤ → ℕ → Bool
  either nil now created depth = false
  either (cons p nil) now created depth = false
  either (cons p (cons q nil)) now created depth =
      holds_at p now created depth || holds_at q now created depth
  either (cons p (cons q (cons r rest))) now created depth = false

unfoldable pub holds : Predicate → ℤ → Option ℤ → Bool
holds p now created = holds_at p now created 0
