-- ===== src/Base/Bits.antt =====
-- When `|` and `^` of two numbers are zero.
use Prim.Native.Nat.{
  ℕ, zero, suc, ◌/◌, ◌%◌, ◌≤◌, max, differ, digits, bit_or, bit_xor, bit_or-bitwise,
  bit_xor-bitwise,
}
use mathlib.Core.Path.{◌≡◌, refl, sym, ap, ◌∙◌}
use native.Mathlib.Nat.{le_refl}
use native.Mathlib.Omega.{arith}

differ→eq : (a b : ℕ) → differ a b ≡ 0 → a ≡ b
differ→eq zero b h = sym h
differ→eq (suc a) zero h = h
differ→eq (suc a) (suc b) h = ap suc (differ→eq a b h)

differ_refl : (a : ℕ) → differ a a ≡ 0
differ_refl zero = refl
differ_refl (suc a) = differ_refl a

or_zero : (n a b : ℕ) → a ≤ n → digits (λ b. b) max n a b ≡ 0 → (a ≡ 0) × (b ≡ 0)
or_zero zero a b le h = (omega arith, h)
or_zero (suc n) zero b le h = (refl, h)
or_zero (suc n) (suc a) b le h =
    let (p, q) = or_zero n (suc a / 2) (b / 2) (omega arith) (omega arith) in absurd (omega arith)

xor_zero : (n a b : ℕ) → a ≤ n → digits (λ b. b) differ n a b ≡ 0 → a ≡ b
xor_zero zero a b le h = omega arith
xor_zero (suc n) zero b le h = sym h
xor_zero (suc n) (suc a) b le h =
    let high = xor_zero n (suc a / 2) (b / 2) (omega arith) (omega arith) in
    let low = differ→eq (suc a % 2) (b % 2) (omega arith) in omega arith

xor_self : (n a : ℕ) → a ≤ n → digits (λ b. b) differ n a a ≡ 0
xor_self zero a le = omega arith
xor_self (suc n) zero le = refl
xor_self (suc n) (suc a) le =
    omega (arith, xor_self n (suc a / 2) (omega arith), differ_refl (suc a % 2))

pub bit_or-eq-zero : (a b : ℕ) → bit_or a b ≡ 0 → (a ≡ 0) × (b ≡ 0)
bit_or-eq-zero a b h = or_zero a a b (le_refl a) (sym (bit_or-bitwise a b) ∙ h)

pub bit_xor-eq-zero : (a b : ℕ) → bit_xor a b ≡ 0 → a ≡ b
bit_xor-eq-zero a b h = xor_zero a a b (le_refl a) (sym (bit_xor-bitwise a b) ∙ h)

pub bit_xor_self : (a : ℕ) → bit_xor a a ≡ 0
bit_xor_self a = bit_xor-bitwise a a ∙ xor_self a a (le_refl a)
