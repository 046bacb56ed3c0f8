-- ===== src/Core/Pricing/Rate.antt =====
-- The amount of the fee token that `token_amount_for_xlm` asks for.
use package.native.Mathlib.Nat.{mul-le-mul_right, div-mul-le_self, lt-div-mul-add}
use reserve.Base.{
  ℕ, zero, suc, ◌+◌, ◌-◌, ◌*◌, ◌/◌, ◌≤◌, ◌<◌, ◌≡◌, ◌⊎◌, inl, inr, sym, subst, max, List, [], ◌∷◌,
  some, ℤ, pos, i64_max, arith, +ℤ-pos, *ℤ-pos, quot-pos, wrap_i64_self, ◌-ℤ◌, max_ℤ, max_ℤ-pos,
  leb_ℤ, leb, pos_part, Text, ok, ok_or, fail_if, >>=-eq-ok, ok_or-eq-ok, fail_if-eq-ok, Bool-cases,
}
use reserve.Horizon.Asset.{Asset, native}
use reserve.Horizon.Records.{HorizonApi, PathRecord, source_amount_stroops}
use reserve.Horizon.Amount.Read.{parse_amount-range}
use reserve.Core.Error.{from_horizon, from_horizon-eq-ok}
use reserve.Core.Pricing.{scale, token_amount_for_xlm, cheapest, route_of, reference_stroops}

-ℤ-one : (a : ℕ) → 1 ≤ a → pos a -ℤ pos 1 ≡ pos (a - 1)
unfolding ◌-ℤ◌
-ℤ-one a h = ground arith

-- The least whole amount that buys `xlm` at the rate, rounded up.
scaled : ℕ → ℕ → ℕ → ℕ
scaled xlm cost reference = max ((xlm * cost + reference - 1) / reference) 1

-- A quotient rounded up.
ceil_bounds :
    (a reference : ℕ)
    → 0 < reference
    → let q = (a + reference - 1) / reference in
      (a ≤ q * reference) × (q * reference < a + reference)
ceil_bounds a reference h = (
  omega (arith, lt-div-mul-add {a = a + reference - 1} h),
  omega (arith, div-mul-le_self (a + reference - 1) reference),
)

ceil-le :
    (xlm cost reference : ℕ)
    → 0 < reference
    → xlm ≤ reference
    → (xlm * cost + reference - 1) / reference ≤ cost
ceil-le xlm cost reference h le =
    let q = (xlm * cost + reference - 1) / reference in
    elim (Bool-cases (leb q cost)) [
      | inl small ↦ ground arith
      | inr big ↦
          let over : cost + 1 ≤ q = ground arith in
          absurd (
            omega (
              arith,
              mul-le-mul_right reference over,
              mul-le-mul_right cost le,
              (ceil_bounds (xlm * cost) reference h).1,
            ))
    ]

scaled_bounds :
    (xlm cost reference : ℕ)
    → 0 < cost
    → 0 < reference
    → xlm ≤ reference
    → (xlm * cost ≤ scaled xlm cost reference * reference)
      × (scaled xlm cost reference ≤ cost)
      × ((scaled xlm cost reference ≡ 1)
          ⊎ (scaled xlm cost reference * reference < xlm * cost + reference))
unfolding scaled
scaled_bounds xlm cost reference hc hr le =
    bounded _ (ceil_bounds (xlm * cost) reference hr) (ceil-le xlm cost reference hr le)
  where
    bounded :
        (q : ℕ)
        → (xlm * cost ≤ q * reference) × (q * reference < xlm * cost + reference)
        → q ≤ cost
        → (xlm * cost ≤ max q 1 * reference)
          × (max q 1 ≤ cost)
          × ((max q 1 ≡ 1) ⊎ (max q 1 * reference < xlm * cost + reference))
    bounded zero (lo, hi) small = (omega arith, omega arith, inl (omega arith))
    bounded (suc q) (lo, hi) small =
        let same : max (suc q) 1 ≡ suc q = omega arith in rw same (lo, small, inr hi)

scale-pos :
    (xlm cost reference : ℕ)
    → 0 < cost
    → cost ≤ i64_max
    → 0 < reference
    → xlm ≤ reference
    → scale (pos xlm) (pos cost) (pos reference) ≡ pos (scaled xlm cost reference)
unfolding scale scaled
scale-pos xlm cost reference hc fits hr le =
    let b = scaled_bounds xlm cost reference hc hr le in
    rw
      (
        *ℤ-pos xlm cost,
        +ℤ-pos (xlm * cost) reference,
        -ℤ-one (xlm * cost + reference) (omega arith),
        quot-pos (xlm * cost + reference - 1) reference,
        max_ℤ-pos ((xlm * cost + reference - 1) / reference) 1,
      )
      (wrap_i64_self _ (omega (arith, b.1), omega arith))

source_amount-range :
    (r : PathRecord) (c : ℤ)
    → source_amount_stroops r ≡ some c
    → (n : ℕ) × (c ≡ pos n) × (n ≤ i64_max)
unfolding source_amount_stroops
source_amount-range r c e = parse_amount-range r.source_amount c e

-- A successful answer for an amount of lumens that is not negative is the least whole amount, one at
-- least, that covers it at the rate of the cheapest record, which was asked for one lumen or for the
-- amount itself if that is more; the route is that record's.
pub token_amount_least :
    (h : HorizonApi) (token : Asset) (source : Text) (xlm : ℕ) (amount : ℤ) (path : List Asset)
    → token_amount_for_xlm h token source (pos xlm) ≡ ok (amount, path)
    → let reference = max xlm 10_000_000 in
      (records : List PathRecord) × (best : PathRecord) × (cost : ℤ) × (m : ℕ)
      × (h.strict_receive_paths source (token ∷ []) native (pos reference) ≡ ok records)
      × (cheapest records ≡ some best)
      × (source_amount_stroops best ≡ some cost)
      × (route_of best.path ≡ ok path)
      × (amount ≡ pos m)
      × (1 ≤ m)
      × (xlm * pos_part cost ≤ m * reference)
      × ((m ≡ 1) ⊎ (m * reference < xlm * pos_part cost + reference))
unfolding token_amount_for_xlm
token_amount_least h token source xlm amount path e =
    let reference = max_ℤ (pos xlm) reference_stroops in
    let answer = h.strict_receive_paths source (token ∷ []) native reference in
    let (records, e₁, r₁) = >>=-eq-ok (from_horizon answer) _ e in
    let (best, e₂, r₂) = >>=-eq-ok (ok_or (cheapest records) _) _ r₁ in
    let (cost, e₃, r₃) = >>=-eq-ok (ok_or (source_amount_stroops best) _) _ r₂ in
    let (_, e₄, r₄) = >>=-eq-ok (fail_if (leb_ℤ cost (pos 0)) _) _ r₃ in
    let (route, e₅, r₅) = >>=-eq-ok (route_of best.path) _ r₄ in
    let read = ok_or-eq-ok (source_amount_stroops best) _ e₃ in
    let (n, is_n, fits) = source_amount-range best cost read in
    let positive : 0 < n = ground (arith, fail_if-eq-ok (leb_ℤ cost (pos 0)) _ e₄) in
    let ref_eq = max_ℤ-pos xlm 10_000_000 in
    let b = scaled_bounds xlm n (max xlm 10_000_000) positive (omega arith) (omega arith) in
    let m = scaled xlm n (max xlm 10_000_000) in
    let is_scaled : amount ≡ pos m = ground (
      arith,
      ref_eq,
      scale-pos xlm n (max xlm 10_000_000) positive fits (omega arith) (omega arith),
    ) in
    (
      records,
      best,
      cost,
      m,
      rw (← ref_eq) (from_horizon-eq-ok answer e₁),
      ok_or-eq-ok (cheapest records) _ e₂,
      read,
      ground (arith, e₅),
      is_scaled,
      unfold scaled in omega arith,
      subst (λ c. xlm * pos_part c ≤ m * max xlm 10_000_000) (sym is_n) b.0,
      subst (λ c. (m ≡ 1) ⊎ (m * max xlm 10_000_000 < xlm * pos_part c + max xlm 10_000_000))
          (sym is_n) b.2,
    )
