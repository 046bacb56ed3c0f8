-- ===== src/Horizon/Predicate/Depth.antt =====
-- The bound on the depth does not change the value of a tree that the ledger can hold.
use reserve.Base.{
  ℕ, suc, ◌+◌, ◌≤◌, ◌≡◌, refl, ap, ap₂, Bool, false, not, ◌&&◌, ◌||◌, Option, none, some, max, ℤ,
  arith,
}
use reserve.Horizon.Predicate.{
  Predicate, Parts, PartsField, InnerField, predicate, nil, cons, no_parts, parts, no_inner, inner,
  leaf_holds, first_of_three, holds, holds_at, and_holds, or_holds, not_holds, both, either,
}

-- The predicate's meaning, with no bound on its depth.
unfoldable mutual
  pub meaning : Predicate → ℤ → Option ℤ → Bool
  meaning (predicate flag and or neg abs epoch rel) now created =
      first_of_three (meaning_and and now created) (meaning_or or now created)
        (meaning_not neg now created) (leaf_holds flag abs epoch rel now created)

  meaning_and : PartsField → ℤ → Option ℤ → Option Bool
  meaning_and no_parts now created = none
  meaning_and (parts ps) now created = some (conjunction ps now created)

  meaning_or : PartsField → ℤ → Option ℤ → Option Bool
  meaning_or no_parts now created = none
  meaning_or (parts ps) now created = some (disjunction ps now created)

  meaning_not : InnerField → ℤ → Option ℤ → Option Bool
  meaning_not no_inner now created = none
  meaning_not (inner p) now created = some (not (meaning p now created))

  conjunction : Parts → ℤ → Option ℤ → Bool
  conjunction nil now created = false
  conjunction (cons p nil) now created = false
  conjunction (cons p (cons q nil)) now created = meaning p now created && meaning q now created
  conjunction (cons p (cons q (cons r rest))) now created = false

  disjunction : Parts → ℤ → Option ℤ → Bool
  disjunction nil now created = false
  disjunction (cons p nil) now created = false
  disjunction (cons p (cons q nil)) now created = meaning p now created || meaning q now created
  disjunction (cons p (cons q (cons r rest))) now created = false

-- The levels below a node.
unfoldable mutual
  pub levels : Predicate → ℕ
  levels (predicate flag and or neg abs epoch rel) =
      max (field_levels and) (max (field_levels or) (inner_levels neg))

  field_levels : PartsField → ℕ
  field_levels no_parts = 0
  field_levels (parts ps) = suc (parts_levels ps)

  inner_levels : InnerField → ℕ
  inner_levels no_inner = 0
  inner_levels (inner p) = suc (levels p)

  parts_levels : Parts → ℕ
  parts_levels nil = 0
  parts_levels (cons p ps) = max (levels p) (parts_levels ps)

module _ (now : ℤ) (created : Option ℤ) where
  mutual
    unfolding meaning holds_at levels

    holds_at-meaning :
        (p : Predicate) (k : ℕ)
        → k + levels p ≤ 4
        → holds_at p now created k ≡ meaning p now created
    holds_at-meaning (predicate flag and or neg abs epoch rel) k h = ground (
      arith,
      and_holds-meaning and k (omega arith),
      or_holds-meaning or k (omega arith),
      not_holds-meaning neg k (omega arith),
    )

    and_holds-meaning :
        (f : PartsField) (k : ℕ)
        → k + field_levels f ≤ 4
        → and_holds f now created (k + 1) ≡ meaning_and f now created
    and_holds-meaning no_parts k h = refl
    and_holds-meaning (parts ps) k h = ap some (both-conjunction ps (k + 1) (omega arith))

    or_holds-meaning :
        (f : PartsField) (k : ℕ)
        → k + field_levels f ≤ 4
        → or_holds f now created (k + 1) ≡ meaning_or f now created
    or_holds-meaning no_parts k h = refl
    or_holds-meaning (parts ps) k h = ap some (either-disjunction ps (k + 1) (omega arith))

    not_holds-meaning :
        (f : InnerField) (k : ℕ)
        → k + inner_levels f ≤ 4
        → not_holds f now created (k + 1) ≡ meaning_not f now created
    not_holds-meaning no_inner k h = refl
    not_holds-meaning (inner p) k h =
        ap (λ b. some (not b)) (holds_at-meaning p (k + 1) (omega arith))

    both-conjunction :
        (ps : Parts) (k : ℕ)
        → k + parts_levels ps ≤ 4
        → both ps now created k ≡ conjunction ps now created
    both-conjunction nil k h = refl
    both-conjunction (cons p nil) k h = refl
    both-conjunction (cons p (cons q nil)) k h =
        ap₂ ◌&&◌ (holds_at-meaning p k (omega arith)) (holds_at-meaning q k (omega arith))
    both-conjunction (cons p (cons q (cons r rest))) k h = refl

    either-disjunction :
        (ps : Parts) (k : ℕ)
        → k + parts_levels ps ≤ 4
        → either ps now created k ≡ disjunction ps now created
    either-disjunction nil k h = refl
    either-disjunction (cons p nil) k h = refl
    either-disjunction (cons p (cons q nil)) k h =
        ap₂ ◌||◌ (holds_at-meaning p k (omega arith)) (holds_at-meaning q k (omega arith))
    either-disjunction (cons p (cons q (cons r rest))) k h = refl

-- A predicate with at most four levels below its root, the most that CAP-23 admits, has its
-- unbounded meaning.
pub holds-meaning :
    (p : Predicate) (now : ℤ) (created : Option ℤ)
    → levels p ≤ 4
    → holds p now created ≡ meaning p now created
unfolding holds
holds-meaning p now created h = holds_at-meaning now created p 0 (omega arith)
