-- ===== src/Core/Pricing/Cheapest.antt =====
-- `cheapest` picks a record of the least readable amount.
use reserve.Base.{
  ◌≡◌, ◌⊎◌, inl, inr, refl, sym, subst, ◌∙◌, List, [], ◌∷◌, Option, none, some, ℤ, ltb_ℤ, ◌≤ℤ◌,
  arith, Option-cases, Bool-cases,
}
use mathlib.Core.Option.{some-injective}
use mathlib.Core.List.{Mem, mem-cons_self, mem-cons_of_mem}
use reserve.Horizon.Records.{PathRecord, source_amount_stroops}
use reserve.Core.Pricing.{cheapest, cheapest_from}

-- No readable amount of the records is under `c`.
abbrev pub NoneBelow : ℤ → List PathRecord → Type 0
NoneBelow c [] = Unit
NoneBelow c (r ∷ rs) = ((b : ℤ) → source_amount_stroops r ≡ some b → c ≤ℤ b) × NoneBelow c rs

abbrev pub NoneReadable : List PathRecord → Type 0
NoneReadable [] = Unit
NoneReadable (r ∷ rs) = (source_amount_stroops r ≡ none) × NoneReadable rs

abbrev pub Least : List PathRecord → Option PathRecord → Type 0
Least records none = NoneReadable records
Least records (some r) =
    (c : ℤ) × (source_amount_stroops r ≡ some c) × NoneBelow c records × Mem r records

NoneBelow-mono : (a b : ℤ) (rs : List PathRecord) → a ≤ℤ b → NoneBelow b rs → NoneBelow a rs
NoneBelow-mono a b [] h n = tt
NoneBelow-mono a b (r ∷ rs) h n = (λ c e. omega (arith, n.0 c e), NoneBelow-mono a b rs h n.1)

-- A record that a search may return which has `b`, of the amount `cb`, and the records `rs` to go.
abbrev Picked : PathRecord → ℤ → List PathRecord → Option PathRecord → Type 0
Picked b cb rs o =
    (r : PathRecord) × (c : ℤ) × (o ≡ some r)
    × (source_amount_stroops r ≡ some c)
    × (c ≤ℤ cb)
    × NoneBelow c rs
    × ((r ≡ b) ⊎ Mem r rs)

-- A record that is not below the best is passed over.
pass_over :
    (b x : PathRecord) (cb : ℤ) (rs : List PathRecord) (o : Option PathRecord)
    → ((cx : ℤ) → source_amount_stroops x ≡ some cx → cb ≤ℤ cx)
    → Picked b cb rs o
    → Picked b cb (x ∷ rs) o
pass_over b x cb rs o above (r, c, q, f, le, below, m) =
    (r, c, q, f, le, (λ cx ex. omega (arith, above cx ex), below), widen m)
  where
    widen : (r ≡ b) ⊎ Mem r rs → (r ≡ b) ⊎ Mem r (x ∷ rs)
    widen (inl same) = inl same
    widen (inr later) = inr (mem-cons_of_mem x later)

-- A record below the best takes its place.
take_place :
    (b x : PathRecord) (cb cx : ℤ) (rs : List PathRecord) (o : Option PathRecord)
    → source_amount_stroops x ≡ some cx
    → cx ≤ℤ cb
    → Picked x cx rs o
    → Picked b cb (x ∷ rs) o
take_place b x cb cx rs o ex lower (r, c, q, f, le, below, m) = (
  r,
  c,
  q,
  f,
  omega (arith, le, lower),
  (λ c' e'. let same : cx ≡ c' = some-injective _ _ (sym ex ∙ e') in rw (← same) le, below),
  inr (found m),
)
  where
    found : (r ≡ x) ⊎ Mem r rs → Mem r (x ∷ rs)
    found (inl same) = rw same mem-cons_self
    found (inr later) = mem-cons_of_mem x later

from_best :
    (b : PathRecord) (cb : ℤ) (rs : List PathRecord)
    → source_amount_stroops b ≡ some cb
    → Picked b cb rs (cheapest_from (some b) rs)
unfolding cheapest_from
from_best b cb [] e = (b, cb, refl, e, omega arith, tt, inl refl)
from_best b cb (x ∷ rs) e = elim (Option-cases (source_amount_stroops x)) [
  | inl unread ↦
      subst (λ o. Picked b cb (x ∷ rs) (cheapest_from o rs)) (ground arith)
        (pass_over b x cb rs _ (λ cx ex. cc) (from_best b cb rs e))
  | inr (cx, ex) ↦ elim (Bool-cases (ltb_ℤ cx cb)) [
    | inl lower ↦
        subst (λ o. Picked b cb (x ∷ rs) (cheapest_from o rs)) (ground arith)
          (take_place b x cb cx rs _ ex (ground arith) (from_best x cx rs ex))
    | inr higher ↦
        subst (λ o. Picked b cb (x ∷ rs) (cheapest_from o rs)) (ground arith)
          (pass_over b x cb rs _
            (λ c' e'.
              let same : cx ≡ c' = some-injective _ _ (sym ex ∙ e') in rw (← same) (ground arith))
            (from_best b cb rs e))
  ]
]

skip :
    (x : PathRecord) (rs : List PathRecord) (o : Option PathRecord)
    → source_amount_stroops x ≡ none
    → Least rs o
    → Least (x ∷ rs) o
skip x rs none unread l = (unread, l)
skip x rs (some r) unread (c, f, below, m) = (c, f, ((λ b e. cc), below), mem-cons_of_mem x m)

picked :
    (x : PathRecord) (cx : ℤ) (rs : List PathRecord) (o : Option PathRecord)
    → source_amount_stroops x ≡ some cx
    → Picked x cx rs o
    → Least (x ∷ rs) o
picked x cx rs o ex (r, c, q, f, le, below, m) = rw q (
  c,
  f,
  ((λ b e. let same : cx ≡ b = some-injective _ _ (sym ex ∙ e) in rw (← same) le), below),
  found m,
)
  where
    found : (r ≡ x) ⊎ Mem r rs → Mem r (x ∷ rs)
    found (inl same) = rw same mem-cons_self
    found (inr later) = mem-cons_of_mem x later

-- `cheapest` returns one of the records, whose amount can be read and is the least of those that
-- can; it returns none exactly where no record's amount can be read.
pub cheapest-Least : (records : List PathRecord) → Least records (cheapest records)
unfolding cheapest cheapest_from
cheapest-Least [] = tt
cheapest-Least (x ∷ rs) = elim (Option-cases (source_amount_stroops x)) [
  | inl unread ↦
      subst (λ o. Least (x ∷ rs) (cheapest_from o rs)) (ground arith)
        (skip x rs _ unread (cheapest-Least rs))
  | inr (cx, ex) ↦
      subst (λ o. Least (x ∷ rs) (cheapest_from o rs)) (ground arith)
        (picked x cx rs _ ex (from_best x cx rs ex))
]
