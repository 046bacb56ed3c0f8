-- ===== src/Base/Decimal.antt =====
-- Decimal numbers: what `str::parse` reads, and what `{}` and `{:07}` print.
use Prim.Native.Nat.{ℕ, zero, suc, ◌+◌, ◌-◌, ◌*◌, ◌/◌, ◌%◌, ◌^◌, ◌≤◌, ◌<◌}
use mathlib.Core.Path.{◌≡◌, refl, ap, ◌∙◌}
use mathlib.Core.Logic.{inl, inr}
use mathlib.Core.Option.{Option, none, some}
use mathlib.Core.List.{[], ◌∷◌, ◌++◌}
use native.Mathlib.Omega.{arith}
use native.Mathlib.Nat.{pow-suc, mul-le-mul_right}
use reserve.Base.Tests.{ltb, leb, ◌==◌, if◌then◌else◌, Bool-cases}
use reserve.Base.Lists.{length, replicate}
use reserve.Base.Int.{ℤ, pos, negsuc, neg_ℕ}
use reserve.Base.I64.{i64_max}
use reserve.Base.Strings.{Text, AllDigits, all_digits, AllDigits→all_digits}

-- The number that digits spell behind `n`.
unfoldable pub value : ℕ → Text → ℕ
value n [] = n
value n (c ∷ s) = value (n * 10 + (c - b'0')) s

-- One or more digits, with no bound.
unfoldable pub parse_nat : Text → Option ℕ
unfolding all_digits value
parse_nat [] = none
parse_nat (c ∷ s) = if all_digits (c ∷ s) then some (value 0 (c ∷ s)) else none

-- An optional number of at most `bound`.
abbrev pub at_most : ℕ → Option ℕ → Option ℕ
at_most bound none = none
at_most bound (some n) = if leb n bound then some n else none

abbrev pub positive : Option ℕ → Option ℤ
positive none = none
positive (some n) = some (pos n)

abbrev pub negative : Option ℕ → Option ℤ
negative none = none
negative (some n) = some (neg_ℕ n)

-- `str::parse::<i64>`: an optional sign, digits, and no overflow.
unfoldable pub parse_i64 : Text → Option ℤ
unfolding parse_nat
parse_i64 [] = none
parse_i64 (c ∷ s) =
    if c == b'+'
    then positive (at_most i64_max (parse_nat s))
    else if c == b'-'
    then negative (at_most (suc i64_max) (parse_nat s))
    else positive (at_most i64_max (parse_nat (c ∷ s)))

-- `str::parse::<u32>`: an optional `+`.
unfoldable pub parse_u32 : Text → Option ℕ
unfolding parse_nat
parse_u32 [] = none
parse_u32 (c ∷ s) = at_most (2 ^ 32 - 1) (parse_nat (if c == b'+' then s else c ∷ s))

-- `str::parse::<i32>`.
unfoldable pub parse_i32 : Text → Option ℤ
unfolding parse_nat
parse_i32 [] = none
parse_i32 (c ∷ s) =
    if c == b'+'
    then positive (at_most (2 ^ 31 - 1) (parse_nat s))
    else if c == b'-'
    then negative (at_most (2 ^ 31) (parse_nat s))
    else positive (at_most (2 ^ 31 - 1) (parse_nat (c ∷ s)))

-- The digits of `n` in front of `out`. The fuel is the number of digits left, at most.
emit : ℕ → ℕ → Text → Text
emit zero n out = out
emit (suc f) n out =
    let rest = emit f (n / 10) ((b'0' + n % 10) ∷ out) in
    if ltb n 10 then (b'0' + n) ∷ out else rest

-- `{}` of an unsigned number.
unfoldable pub print_nat : ℕ → Text
unfolding emit
print_nat n = emit (suc n) n []

-- `{}` of an i64.
unfoldable pub print_i64 : ℤ → Text
unfolding print_nat
print_i64 (pos n) = print_nat n
print_i64 (negsuc n) = b'-' ∷ print_nat (suc n)

-- `{:0w}` and `{:0<w}`: zeros on the left, and on the right.
unfoldable pub pad_left : ℕ → Text → Text
pad_left w s = replicate (w - length s) b'0' ++ s

unfoldable pub pad_right : ℕ → Text → Text
pad_right w s = s ++ replicate (w - length s) b'0'

pub value-append : (n : ℕ) (s t : Text) → value n (s ++ t) ≡ value (value n s) t
unfolding value
value-append n [] t = refl
value-append n (c ∷ s) t = value-append (n * 10 + (c - b'0')) s t

pub value-replicate : (n k : ℕ) → value n (replicate k b'0') ≡ n * 10 ^ k
unfolding value
value-replicate n zero = grind arith
value-replicate n (suc k) =
    omega (arith, value-replicate (n * 10 + (b'0' - b'0')) k, ap (λ (t : ℕ). n * t) (pow-suc 10 k))

pub value-lt : (s : Text) (n : ℕ) → AllDigits s → value n s < (n + 1) * 10 ^ length s
unfolding value
value-lt [] n h = grind arith
value-lt (c ∷ s) n h =
    let d = c - b'0' in
    let bound : (n * 10 + d + 1) * 10 ^ length s ≤ (n * 10 + 10) * 10 ^ length s =
      mul-le-mul_right (10 ^ length s) (omega arith) in
    omega (
      arith,
      value-lt s (n * 10 + d) h.1,
      bound,
      ap (λ (t : ℕ). (n + 1) * t) (pow-suc 10 (length s)),
    )

value-emit : (f n : ℕ) (out : Text) → n < f → value 0 (emit f n out) ≡ value n out
unfolding emit value
value-emit zero n out h = elim h [ ]
value-emit (suc f) n out h = elim (Bool-cases (ltb n 10)) [
  | inl e ↦ rw e (ap (λ m. value m out) (omega arith))
  | inr e ↦ rw e (value-emit f (n / 10) _ (ground arith) ∙ ap (λ m. value m out) (omega arith))
]

pub value-print_nat : (n : ℕ) → value 0 (print_nat n) ≡ n
unfolding print_nat value
value-print_nat n = value-emit (suc n) n [] (omega arith)

emit-AllDigits : (f n : ℕ) (out : Text) → AllDigits out → AllDigits (emit f n out)
unfolding emit
emit-AllDigits zero n out h = h
emit-AllDigits (suc f) n out h = elim (Bool-cases (ltb n 10)) [
  | inl e ↦ rw e ((ground arith, ground arith), h)
  | inr e ↦ rw e (emit-AllDigits f (n / 10) _ ((omega arith, omega arith), h))
]

pub print_nat-AllDigits : (n : ℕ) → AllDigits (print_nat n)
unfolding print_nat
print_nat-AllDigits n = emit-AllDigits (suc n) n [] tt

length-emit_pos : (f n : ℕ) (out : Text) → 0 < length out → 0 < length (emit f n out)
unfolding emit
length-emit_pos zero n out h = h
length-emit_pos (suc f) n out h =
    ground (arith, length-emit_pos f (n / 10) ((b'0' + n % 10) ∷ out) (omega arith))

pub length-print_nat_pos : (n : ℕ) → 0 < length (print_nat n)
unfolding print_nat emit
length-print_nat_pos n = ground (arith, length-emit_pos n (n / 10) ((b'0' + n % 10) ∷ []))

length-emit-le :
    (k f n : ℕ) (out : Text) → n < 10 ^ suc k → length (emit f n out) ≤ suc k + length out
unfolding emit
length-emit-le k zero n out h = omega arith
length-emit-le zero (suc f) n out h = ground arith
length-emit-le (suc k) (suc f) n out h =
    ground (arith, length-emit-le k f (n / 10) ((b'0' + n % 10) ∷ out), pow-suc 10 (suc k))

pub length-print_nat-le : (k n : ℕ) → n < 10 ^ suc k → length (print_nat n) ≤ suc k
unfolding print_nat
length-print_nat-le k n h = omega (arith, length-emit-le k (suc n) n [] h)

pub parse_nat-AllDigits : (s : Text) → AllDigits s → 0 < length s → parse_nat s ≡ some (value 0 s)
unfolding parse_nat
parse_nat-AllDigits [] h l = elim l [ ]
parse_nat-AllDigits (c ∷ s) h l = ground (arith, AllDigits→all_digits (c ∷ s) h)

-- Digits alone are read as the number that they spell, if it fits.
pub parse_i64-AllDigits :
    (s : Text)
    → AllDigits s
    → 0 < length s
    → parse_i64 s ≡ positive (at_most i64_max (some (value 0 s)))
unfolding parse_i64
parse_i64-AllDigits [] h l = elim l [ ]
parse_i64-AllDigits (c ∷ s) h l = ground (arith, parse_nat-AllDigits (c ∷ s) h l)
