-- ===== src/Base/I64.antt =====
-- Rust's i64 as integers in a range, with its saturating, checked and wrapping operations.
use Prim.Native.Nat.{ℕ, suc, min, ◌+◌, ◌*◌, ◌-◌, ◌%◌, ◌^◌, ◌≤◌}
use mathlib.Core.Path.{◌≡◌}
use mathlib.Core.Bool.{Bool, ◌&&◌}
use mathlib.Core.Option.{Option, none, some}
use native.Mathlib.Omega.{arith}
use reserve.Base.Tests.{leb, if◌then◌else◌}
use reserve.Base.Int.{*ℤ-pos, +ℤ-pos, ℤ, pos, negsuc, pos_part, neg_part, ◌+ℤ◌, ◌*ℤ◌}

-- 2 ^ 63 - 1
abbrev pub i64_max : ℕ
i64_max = 0x7fff_ffff_ffff_ffff

abbrev pub IsI64 : ℤ → Type 0
IsI64 a = (pos_part a ≤ i64_max) × (neg_part a ≤ suc i64_max)

abbrev pub fits_i64 : ℤ → Bool
fits_i64 a = leb (pos_part a) i64_max && leb (neg_part a) (suc i64_max)

unfoldable pub saturate : ℤ → ℤ
saturate (pos n) = pos (if leb n i64_max then n else i64_max)
saturate (negsuc n) = negsuc (if leb n i64_max then n else i64_max)

unfoldable pub checked : ℤ → Option ℤ
checked a = if fits_i64 a then some a else none

-- `as i64` of a wider integer: the low 64 bits, read as a signed number.
abbrev pub signed64 : ℕ → ℤ
signed64 w = if leb w i64_max then pos w else negsuc (2 ^ 64 - w - 1)

unfoldable pub wrap_i64 : ℤ → ℤ
wrap_i64 (pos n) = signed64 (n % 2 ^ 64)
wrap_i64 (negsuc n) = signed64 (2 ^ 64 - 1 - n % 2 ^ 64)

unfoldable pub wrap_u32 : ℤ → ℕ
wrap_u32 (pos n) = n % 2 ^ 32
wrap_u32 (negsuc n) = 2 ^ 32 - 1 - n % 2 ^ 32

unfoldable pub saturating_add : ℤ → ℤ → ℤ
unfolding saturate
saturating_add a b = saturate (a +ℤ b)

unfoldable pub saturating_mul : ℤ → ℤ → ℤ
unfolding saturate
saturating_mul a b = saturate (a *ℤ b)

-- `+` and `*` in a release build, which keeps no overflow checks.
unfoldable pub wrapping_add : ℤ → ℤ → ℤ
unfolding wrap_i64
wrapping_add a b = wrap_i64 (a +ℤ b)

unfoldable pub wrapping_mul : ℤ → ℤ → ℤ
unfolding wrap_i64
wrapping_mul a b = wrap_i64 (a *ℤ b)

pub saturate-IsI64 : (a : ℤ) → IsI64 (saturate a)
unfolding saturate
saturate-IsI64 (pos n) = ground arith
saturate-IsI64 (negsuc n) = ground arith

pub saturate_self : (a : ℤ) → IsI64 a → saturate a ≡ a
unfolding saturate
saturate_self (pos n) h = ground arith
saturate_self (negsuc n) h = ground arith

pub wrap_i64-IsI64 : (a : ℤ) → IsI64 (wrap_i64 a)
unfolding wrap_i64
wrap_i64-IsI64 (pos n) = ground arith
wrap_i64-IsI64 (negsuc n) = ground arith

pub wrap_i64_self : (a : ℤ) → IsI64 a → wrap_i64 a ≡ a
unfolding wrap_i64
wrap_i64_self (pos n) h = ground arith
wrap_i64_self (negsuc n) h = ground arith

-- On numbers that are not negative.
pub wrapping_mul-pos : (a b : ℕ) → a * b ≤ i64_max → wrapping_mul (pos a) (pos b) ≡ pos (a * b)
unfolding wrapping_mul
wrapping_mul-pos a b h = rw (*ℤ-pos a b) (wrap_i64_self (pos (a * b)) (h, omega arith))

pub wrapping_add-pos : (a b : ℕ) → a + b ≤ i64_max → wrapping_add (pos a) (pos b) ≡ pos (a + b)
unfolding wrapping_add
wrapping_add-pos a b h = rw (+ℤ-pos a b) (wrap_i64_self (pos (a + b)) (h, omega arith))

pub saturating_mul-pos : (a b : ℕ) → saturating_mul (pos a) (pos b) ≡ pos (min (a * b) i64_max)
unfolding saturating_mul
saturating_mul-pos a b = rw (*ℤ-pos a b) (ground arith)

pub saturating_add-pos : (a b : ℕ) → saturating_add (pos a) (pos b) ≡ pos (min (a + b) i64_max)
unfolding saturating_add
saturating_add-pos a b = rw (+ℤ-pos a b) (ground arith)
