-- ===== src/Base/Bytes.antt =====
-- `to_be_bytes` and `from_be_bytes`.
use Prim.Native.Nat.{ℕ, zero, suc, ◌+◌, ◌*◌, ◌/◌, ◌%◌, ◌^◌, ◌<◌}
use mathlib.Core.Path.{◌≡◌, ap, ◌∙◌}
use mathlib.Core.List.{[], ◌∷◌}
use native.Mathlib.Omega.{arith}
use native.Mathlib.Nat.{pow-suc}
use reserve.Base.Lists.{length}
use reserve.Base.Strings.{Text}

-- The `k` low bytes of `n` in front of `out`, the highest first.
bytes : ℕ → ℕ → Text → Text
bytes zero n out = out
bytes (suc k) n out = bytes k (n / 256) (n % 256 ∷ out)

unfoldable pub to_be_bytes : ℕ → ℕ → Text
unfolding bytes
to_be_bytes k n = bytes k n []

-- The number of bytes behind those of `n`.
number : ℕ → Text → ℕ
number n [] = n
number n (c ∷ s) = number (n * 256 + c) s

unfoldable pub from_be_bytes : Text → ℕ
unfolding number
from_be_bytes s = number 0 s

number-bytes : (k n : ℕ) (out : Text) → n < 256 ^ k → number 0 (bytes k n out) ≡ number n out
unfolding bytes number
number-bytes zero n out h = ap (λ m. number m out) (omega arith)
number-bytes (suc k) n out h =
    number-bytes k (n / 256) (n % 256 ∷ out) (omega (arith, pow-suc 256 k))
    ∙ ap (λ m. number m out) (omega arith)

-- A number of `k` bytes is read back.
pub from_be_bytes-to_be_bytes : (k n : ℕ) → n < 256 ^ k → from_be_bytes (to_be_bytes k n) ≡ n
unfolding from_be_bytes to_be_bytes number
from_be_bytes-to_be_bytes k n h = number-bytes k n [] h

length-bytes : (k n : ℕ) (out : Text) → length (bytes k n out) ≡ k + length out
unfolding bytes
length-bytes zero n out = omega arith
length-bytes (suc k) n out = omega (arith, length-bytes k (n / 256) (n % 256 ∷ out))

pub length-to_be_bytes : (k n : ℕ) → length (to_be_bytes k n) ≡ k
unfolding to_be_bytes
length-to_be_bytes k n = omega (arith, length-bytes k n [])
