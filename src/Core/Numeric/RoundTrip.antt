-- ===== src/Core/Numeric/RoundTrip.antt =====
-- What is written is read back, and a number is read as its text is.
use Prim.Native.Nat.{suc}
use reserve.Base.{
  ℕ, ◌≤◌, ◌≡◌, ap, ◌∙◌, Option, some, ℤ, pos, negsuc, neg_ℕ, IsI64, i64_max, parse_i64, parse_nat,
  print_nat, print_i64, positive, negative, at_most, parse_nat-AllDigits, parse_i64-AllDigits,
  print_nat-AllDigits, length-print_nat_pos, value-print_nat, arith,
}
use reserve.Core.Numeric.{from_number, serialize, deserialize}

parse_nat-print_nat : (n : ℕ) → parse_nat (print_nat n) ≡ some n
parse_nat-print_nat n =
    parse_nat-AllDigits (print_nat n) (print_nat-AllDigits n) (length-print_nat_pos n)
    ∙ ap some (value-print_nat n)

at_most_self : (b n : ℕ) → n ≤ b → at_most b (some n) ≡ some n
at_most_self b n h = ground arith

neg_ℕ-suc : (n : ℕ) → neg_ℕ (suc n) ≡ negsuc n
neg_ℕ-suc n = ground arith

pub parse_i64-print_i64 : (a : ℤ) → IsI64 a → parse_i64 (print_i64 a) ≡ some a
unfolding print_i64 parse_i64
parse_i64-print_i64 (pos n) h =
    parse_i64-AllDigits (print_nat n) (print_nat-AllDigits n) (length-print_nat_pos n)
    ∙ ap (λ (v : ℕ). positive (at_most i64_max (some v))) (value-print_nat n)
    ∙ ap positive (at_most_self i64_max n h.0)
parse_i64-print_i64 (negsuc n) h =
    ap (λ (o : Option ℕ). negative (at_most (suc i64_max) o)) (parse_nat-print_nat (suc n))
    ∙ ap negative (at_most_self (suc i64_max) (suc n) h.1)
    ∙ ap some (neg_ℕ-suc n)

-- Every number of 64 bits that is written is read back as itself, and a plain number is read as the same
-- number, so both forms of a value are one.
pub deserialize-serialize :
    (a : ℤ)
    → IsI64 a
    → (deserialize (serialize a) ≡ some a) × (deserialize (from_number a) ≡ some a)
unfolding deserialize serialize
deserialize-serialize a h = (parse_i64-print_i64 a h, parse_i64-print_i64 a h)
