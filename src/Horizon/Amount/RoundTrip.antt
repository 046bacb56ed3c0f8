-- ===== src/Horizon/Amount/RoundTrip.antt =====
-- `format_stroops` and `parse_amount_stroops` are inverse on the amounts that the ledger has.
use reserve.Base.{
  ℕ, ◌-◌, ◌/◌, ◌%◌, ◌≤◌, [], ◌∷◌, ◌++◌, some, length, replicate, pos, Text, AllDigits, value,
  i64_max, arith, ◌≡◌, sym, ap, ◌∙◌, Lacks, print_nat, pad_left, value-append, value-replicate,
  value-print_nat, print_nat-AllDigits, length-append, length-replicate, length-print_nat-le,
  length-print_nat_pos, split_once-append, subst,
}
use reserve.Horizon.Amount.{parse_amount_stroops, format_stroops, split_amount}
use reserve.Horizon.Amount.Read.{
  IsAmount, stroops, bounded, parse_amount-IsAmount, zeros-AllDigits, append-AllDigits,
}

AllDigits-Lacks : (s : Text) → AllDigits s → Lacks b'.' s
AllDigits-Lacks [] h = tt
AllDigits-Lacks (c ∷ s) h = (omega arith, AllDigits-Lacks s h.1)

pad_left-AllDigits : (w : ℕ) (s : Text) → AllDigits s → AllDigits (pad_left w s)
unfolding pad_left
pad_left-AllDigits w s h = append-AllDigits _ s (zeros-AllDigits (w - length s)) h

length-pad_left : (w : ℕ) (s : Text) → length s ≤ w → length (pad_left w s) ≡ w
unfolding pad_left
length-pad_left w s h = omega (
  arith,
  length-append (replicate (w - length s) b'0') s,
  length-replicate {A = ℕ} (w - length s) b'0',
)

value-pad_left : (w : ℕ) (s : Text) → value 0 (pad_left w s) ≡ value 0 s
unfolding pad_left
value-pad_left w s =
    value-append 0 (replicate (w - length s) b'0') s
    ∙ ap (λ n. value n s) (value-replicate 0 (w - length s) ∙ omega arith)

-- The two parts that `format_stroops` prints of a number that is not negative.
abbrev whole_part : ℕ → Text
whole_part n = print_nat (n / 10_000_000)

abbrev frac_part : ℕ → Text
frac_part n = pad_left 7 (print_nat (n % 10_000_000))

format-pos : (n : ℕ) → format_stroops (pos n) ≡ whole_part n ++ b'.' ∷ frac_part n
unfolding format_stroops
format-pos n = ground arith

-- Where a text is split: `u` has no point.
split_amount-append :
    (amount u v : Text) → amount ≡ u ++ b'.' ∷ v → Lacks b'.' u → split_amount amount ≡ (u, v)
split_amount-append amount u v e l = rw e (rw (split_once-append b'.' u v l, split_amount))

split-format : (n : ℕ) → split_amount (format_stroops (pos n)) ≡ (whole_part n, frac_part n)
split-format n =
    split_amount-append _ (whole_part n) (frac_part n) (format-pos n)
      (AllDigits-Lacks _ (print_nat-AllDigits (n / 10_000_000)))

length-frac_part : (n : ℕ) → length (frac_part n) ≡ 7
length-frac_part n = length-pad_left 7 _ (length-print_nat-le 6 (n % 10_000_000) (omega arith))

format-IsAmount : (n : ℕ) → IsAmount (whole_part n) (frac_part n)
format-IsAmount n = record {
  some_digit = length-print_nat_pos (n / 10_000_000);
  whole_digits = print_nat-AllDigits (n / 10_000_000);
  frac_digits = pad_left-AllDigits 7 _ (print_nat-AllDigits (n % 10_000_000));
  seven = omega (arith, length-frac_part n);
}

stroops-format : (n : ℕ) → stroops (whole_part n) (frac_part n) ≡ n
stroops-format n =
    rw
      (
        length-frac_part n,
        value-pad_left 7 (print_nat (n % 10_000_000)),
        value-print_nat (n / 10_000_000),
        value-print_nat (n % 10_000_000),
      )
      (omega arith)

-- Every amount of an i64 that is not negative is read back from its print.
pub parse-format :
    (n : ℕ) → n ≤ i64_max → parse_amount_stroops (format_stroops (pos n)) ≡ some (pos n)
parse-format n h =
    subst
      (λ p.
        (IsAmount p.0 p.1
          → parse_amount_stroops (format_stroops (pos n)) ≡ bounded (stroops p.0 p.1))
        → parse_amount_stroops (format_stroops (pos n)) ≡ some (pos n))
      (sym (split-format n))
      (λ f. f (format-IsAmount n) ∙ ap bounded (stroops-format n) ∙ ground arith)
      (parse_amount-IsAmount (format_stroops (pos n)))
