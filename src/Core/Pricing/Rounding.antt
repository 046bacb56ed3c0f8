-- ===== src/Core/Pricing/Rounding.antt =====
-- Basis points are added rounded up, and never past the largest i64.
use reserve.Base.{
  ℕ, ◌+◌, ◌*◌, ◌/◌, ◌≤◌, ◌<◌, ◌≡◌, ◌≢◌, ap, ◌∙◌, min, pos, i64_max, arith, +ℤ-pos, *ℤ-pos, quot-pos,
  wrap_i64_self, saturating_add-pos, wrap_i64, saturating_add, ◌+ℤ◌, ◌<ℤ◌, ◌^◌,
}
use reserve.Core.Pricing.{apply_bps}

-- `bps` basis points of `n`, rounded up.
abbrev pub extra_of : ℕ → ℕ → ℕ
extra_of n bps = (n * bps + 9_999) / 10_000

apply_bps_lem :
    (n bps : ℕ) → apply_bps (pos n) bps ≡ saturating_add (pos n) (wrap_i64 (pos (extra_of n bps)))
unfolding apply_bps
apply_bps_lem n bps = rw (*ℤ-pos n bps, +ℤ-pos (n * bps) 9_999, quot-pos (n * bps + 9_999) 10_000)

pub apply_bps-pos :
    (n bps : ℕ)
    → extra_of n bps ≤ i64_max
    → apply_bps (pos n) bps ≡ pos (min (n + extra_of n bps) i64_max)
apply_bps-pos n bps h =
    apply_bps_lem n bps
    ∙ rw (wrap_i64_self (pos (extra_of n bps)) (h, omega arith))
        (saturating_add-pos n (extra_of n bps))

-- For a number that is not negative, and an addition that fits an i64, the result is the least
-- number that is the basis points above it, or the largest i64 if that is less; so it is the number
-- itself at zero basis points, and above it at any other if the number is neither zero nor the
-- largest i64.
pub apply_bps_least :
    (n bps : ℕ)
    → n ≤ i64_max
    → extra_of n bps ≤ i64_max
    → (m : ℕ) × (apply_bps (pos n) bps ≡ pos m)
      × (n ≤ m)
      × (m ≤ i64_max)
      × (m * 10_000 < n * (10_000 + bps) + 10_000)
      × (m ≢ i64_max → n * (10_000 + bps) ≤ m * 10_000)
      × (bps ≡ 0 → m ≡ n)
      × (0 < n → 0 < bps → n < i64_max → n < m)
apply_bps_least n bps fits h = (
  min (n + extra_of n bps) i64_max,
  apply_bps-pos n bps h,
  omega arith,
  omega arith,
  omega arith,
  omega arith,
  λ z. omega (arith, ap (λ (t : ℕ). n * t) z),
  λ some_n some_bps room. let product : 1 ≤ n * bps = grind arith in omega arith,
)

-- An addition past the range of an i64, and within 64 bits, is cut to its low bits before it is
-- added: the result is then below the number that it was to raise.
pub apply_bps_wraps :
    (n bps : ℕ)
    → n ≤ i64_max
    → i64_max < extra_of n bps
    → extra_of n bps < 2 ^ 64
    → apply_bps (pos n) bps <ℤ pos n
unfolding saturating_add wrap_i64 ◌+ℤ◌
apply_bps_wraps n bps fits low high =
    rw (apply_bps_lem n bps) (wrapped (extra_of n bps) n fits low high)
  where
    wrapped :
        (e n : ℕ)
        → n ≤ i64_max
        → i64_max < e
        → e < 2 ^ 64
        → saturating_add (pos n) (wrap_i64 (pos e)) <ℤ pos n
    wrapped e n fits low high = ground arith
