-- ===== src/Signer/Fee.antt =====
-- The fee of a fee bump.
use native.Mathlib.Nat.{mul-le-mul_right, lt-div-mul-add}
use reserve.Base.{
  ℕ, ◌+◌, ◌-◌, ◌*◌, ◌/◌, ◌≤◌, ◌<◌, ◌≡◌, ◌⊎◌, ap, ◌∙◌, some, max, pos, i64_max, ◌+ℤ◌, ◌-ℤ◌,
  max_ℤ-pos, quot, checked, +ℤ-pos, quot-pos, wrapping_mul-pos, ok, arith,
}
use reserve.Core.Xdr as Xdr
use reserve.Signer.{needed_fee, ops_of}

-- The inner fee for one operation, rounded up.
abbrev pub per_op_of : Xdr.Transaction → ℕ
per_op_of tx = (tx.fee + (ops_of tx - 1)) / ops_of tx

abbrev pub bump_fee : Xdr.Transaction → ℕ → ℕ
bump_fee tx base = max (tx.fee + max (per_op_of tx) base) (base * (ops_of tx + 1))

checked-pos : (n : ℕ) → n ≤ i64_max → checked (pos n) ≡ some (pos n)
unfolding checked
checked-pos n h = ground arith

sub-pos : (a b : ℕ) → 0 < b → pos a +ℤ pos b -ℤ pos 1 ≡ pos (a + (b - 1))
unfolding ◌+ℤ◌ ◌-ℤ◌
sub-pos a b h = ground arith

-- The products of a fee are at least those of its parts.
rate_le : (fee ops : ℕ) → 0 < ops → fee * (ops + 1) ≤ (fee + (fee + (ops - 1)) / ops) * ops
rate_le fee ops h =
    let q = (fee + (ops - 1)) / ops in
    let up : fee ≤ q * ops = omega (arith, lt-div-mul-add {a = fee + (ops - 1)} h) in omega arith

needed_fee-pos :
    (tx : Xdr.Transaction) (base : ℕ)
    → bump_fee tx base ≤ i64_max
    → needed_fee tx (pos base) ≡ ok (pos (bump_fee tx base))
unfolding needed_fee
needed_fee-pos tx base fits =
    let per : quot (pos tx.fee +ℤ pos (ops_of tx) -ℤ pos 1) (pos (ops_of tx)) ≡ pos (per_op_of tx) =
      ap (λ n. quot n (pos (ops_of tx))) (sub-pos tx.fee (ops_of tx) (omega arith))
      ∙ quot-pos (tx.fee + (ops_of tx - 1)) (ops_of tx) in
    rw
      (
        per,
        max_ℤ-pos (per_op_of tx) base,
        +ℤ-pos tx.fee (max (per_op_of tx) base),
        checked-pos (tx.fee + max (per_op_of tx) base) (omega (arith, fits)),
        wrapping_mul-pos base (ops_of tx + 1) (omega (arith, fits)),
      )
      (ap ok (max_ℤ-pos _ _))

-- If the base fee is not negative and the fee bump's fee fits an i64, then that fee is at least the
-- network's minimum for one operation more than the inner transaction's, at least the inner fee and
-- the minimum for one operation, and no lower for each operation than the inner fee is; it is
-- exactly one of the three.
pub needed_fee_lem :
    (tx : Xdr.Transaction) (base : ℕ)
    → bump_fee tx base ≤ i64_max
    → (fee : ℕ) × (needed_fee tx (pos base) ≡ ok (pos fee))
      × (base * (ops_of tx + 1) ≤ fee)
      × (tx.fee + base ≤ fee)
      × (tx.fee * (ops_of tx + 1) ≤ fee * ops_of tx)
      × ((fee ≡ tx.fee + per_op_of tx) ⊎ ((fee ≡ tx.fee + base) ⊎ (fee ≡ base * (ops_of tx + 1))))
needed_fee_lem tx base fits = (
  bump_fee tx base,
  needed_fee-pos tx base fits,
  omega arith,
  omega arith,
  rate tx.fee (ops_of tx) (omega arith),
  one_of (tx.fee) (per_op_of tx) base (base * (ops_of tx + 1)),
)
  where
    rate :
        (fee ops : ℕ)
        → 0 < ops
        → fee * (ops + 1) ≤ max (fee + max ((fee + (ops - 1)) / ops) base) (base * (ops + 1)) * ops
    rate fee ops h =
        let m = max (fee + max ((fee + (ops - 1)) / ops) base) (base * (ops + 1)) in
        let le : fee + (fee + (ops - 1)) / ops ≤ m = omega arith in
        omega (arith, rate_le fee ops h, mul-le-mul_right ops le)

    one_of :
        (f p b n : ℕ)
        → (max (f + max p b) n ≡ f + p)
          ⊎ ((max (f + max p b) n ≡ f + b) ⊎ (max (f + max p b) n ≡ n))
    one_of f p b n = ground arith
