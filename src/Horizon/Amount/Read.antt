-- ===== src/Horizon/Amount/Read.antt =====
-- What `parse_amount_stroops` accepts, and the amount that it reads.
use reserve.Base.{
  ℕ, ◌+◌, ◌-◌, ◌*◌, ◌^◌, ◌≤◌, ◌<◌, false, [], ◌∷◌, ◌++◌, Option, none, some, ltb, if◌then◌else◌,
  length, replicate, ℤ, pos, checked, Text, AllDigits, value, i64_max, arith, ◌≡◌, refl, sym, ap,
  ◌∙◌, parse_i64, pad_right, parse_i64-AllDigits, value-append, value-replicate, +ℤ-pos, *ℤ-pos,
  all_digits→AllDigits, AllDigits→all_digits, length-append, length-replicate, value-lt,
}
use mathlib.Core.Option.{some-ne-none}
use reserve.Base.{◌≢◌, ◌↔◌, positive, at_most, ◌+ℤ◌, ◌*ℤ◌}
use reserve.Horizon.Amount.{parse_amount_stroops, split_amount, stroops_of, ◌>>=◌, is_empty}

-- The stroops that the two parts spell, with no bound.
abbrev pub stroops : Text → Text → ℕ
stroops whole frac = value 0 whole * 10_000_000 + value 0 frac * 10 ^ (7 - length frac)

-- A text of the form that is accepted: digits, and at most seven more behind a point.
pub record IsAmount (whole frac : Text) : Type 0 where
  pub some_digit : 0 < length whole
  pub whole_digits : AllDigits whole
  pub frac_digits : AllDigits frac
  pub seven : length frac ≤ 7

pub zeros-AllDigits : (k : ℕ) → AllDigits (replicate k b'0')
zeros-AllDigits ℕ.zero = tt
zeros-AllDigits (ℕ.suc k) = ((omega arith, omega arith), zeros-AllDigits k)

pub append-AllDigits : (s t : Text) → AllDigits s → AllDigits t → AllDigits (s ++ t)
append-AllDigits [] t h k = k
append-AllDigits (c ∷ s) t h k = (h.0, append-AllDigits s t h.1 k)

pad_right-AllDigits : (w : ℕ) (s : Text) → AllDigits s → AllDigits (pad_right w s)
unfolding pad_right
pad_right-AllDigits w s h = append-AllDigits s _ h (zeros-AllDigits (w - length s))

value-pad_right : (w : ℕ) (s : Text) → value 0 (pad_right w s) ≡ value 0 s * 10 ^ (w - length s)
unfolding pad_right
value-pad_right w s = value-append 0 s _ ∙ value-replicate (value 0 s) (w - length s)

length-pad_right : (w : ℕ) (s : Text) → length s ≤ w → length (pad_right w s) ≡ w
unfolding pad_right
length-pad_right w s h = omega (
  arith,
  length-append s (replicate (w - length s) b'0'),
  length-replicate {A = ℕ} (w - length s) b'0',
)

is_empty-pos : (s : Text) → 0 < length s → is_empty s ≡ false
is_empty-pos [] h = elim h [ ]
is_empty-pos (c ∷ s) h = refl

-- The amount, if it fits.
abbrev pub bounded : ℕ → Option ℤ
bounded n = if ltb i64_max n then none else some (pos n)

checked-pos : (n : ℕ) → checked (pos n) ≡ bounded n
unfolding checked
checked-pos n = ground arith

-- The checked sum, once both numbers are read.
sum_of : Option ℤ → Option ℤ → Option ℤ
sum_of whole frac = do
  w ← whole
  f ← frac
  scaled ← checked (w *ℤ pos 10_000_000)
  checked (scaled +ℤ f)

sum_of_lem :
    (w f : ℕ)
    → f < 10_000_000
    → sum_of (positive (at_most i64_max (some w))) (positive (at_most i64_max (some f)))
      ≡ bounded (w * 10_000_000 + f)
unfolding sum_of
sum_of_lem w f h = ground (
  arith,
  *ℤ-pos w 10_000_000,
  +ℤ-pos (w * 10_000_000) f,
  checked-pos (w * 10_000_000),
  checked-pos (w * 10_000_000 + f),
)

module _ {whole frac : Text} (h : IsAmount whole frac) where
  padded_length : length (pad_right 7 frac) ≡ 7
  padded_length = length-pad_right 7 frac h.seven

  padded_digits : AllDigits (pad_right 7 frac)
  padded_digits = pad_right-AllDigits 7 frac h.frac_digits

  padded_value : value 0 (pad_right 7 frac) < 10_000_000
  padded_value =
      omega
        (arith, value-lt (pad_right 7 frac) 0 padded_digits, ap (λ (n : ℕ). 10 ^ n) padded_length)

  stroops_of_lem : stroops_of whole frac ≡ bounded (stroops whole frac)
  unfolding stroops_of
  stroops_of_lem =
      rw
        (
          is_empty-pos (pad_right 7 frac) (omega (arith, padded_length)),
          parse_i64-AllDigits whole h.whole_digits h.some_digit,
          parse_i64-AllDigits (pad_right 7 frac) padded_digits (omega (arith, padded_length)),
          ← value-pad_right 7 frac,
        )
        (unfold sum_of in sum_of_lem (value 0 whole) (value 0 (pad_right 7 frac)) padded_value)

-- A text of the accepted form is read as the stroops that it spells, and refused if they do not fit.
pub parse_amount-IsAmount :
    (amount : Text)
    → IsAmount (split_amount amount).0 (split_amount amount).1
    → parse_amount_stroops amount
      ≡ bounded (stroops (split_amount amount).0 (split_amount amount).1)
unfolding parse_amount_stroops
parse_amount-IsAmount amount h =
    let (whole, frac) = split_amount amount in
    rw (AllDigits→all_digits whole h.whole_digits, AllDigits→all_digits frac h.frac_digits)
      (ground (arith, stroops_of_lem h))

whole_some_digit : (whole frac : Text) → stroops_of whole frac ≢ none → 0 < length whole
unfolding stroops_of parse_i64
whole_some_digit [] frac n = absurd (n refl)
whole_some_digit (c ∷ s) frac n = omega arith

-- Nothing else is accepted.
pub IsAmount-of_parse :
    (amount : Text)
    → parse_amount_stroops amount ≢ none
    → IsAmount (split_amount amount).0 (split_amount amount).1
unfolding parse_amount_stroops
IsAmount-of_parse amount n =
    let (whole, frac) = split_amount amount in
    ground
      (arith, all_digits→AllDigits whole, all_digits→AllDigits frac, whole_some_digit whole frac)

-- `parse_amount_stroops` returns an amount exactly when the text is digits, or digits, a point and at
-- most seven more digits, and the stroops that it spells fit an i64; it returns those stroops.
pub parse-IsAmount_iff :
    (amount : Text) (v : ℤ)
    → (parse_amount_stroops amount ≡ some v) ↔ (
        IsAmount (split_amount amount).0 (split_amount amount).1
        × (stroops (split_amount amount).0 (split_amount amount).1 ≤ i64_max)
        × (v ≡ pos (stroops (split_amount amount).0 (split_amount amount).1)))
parse-IsAmount_iff amount v = (
  λ e.
      let h = IsAmount-of_parse amount (λ n. some-ne-none v (sym e ∙ n)) in
      let b = sym (parse_amount-IsAmount amount h) ∙ e in (h, ground arith, ground arith),
  λ (h, fits, e). parse_amount-IsAmount amount h ∙ ground arith,
)

-- An amount is never negative, and fits an i64.
pub parse_amount-range :
    (amount : Text) (v : ℤ)
    → parse_amount_stroops amount ≡ some v
    → (n : ℕ) × (v ≡ pos n) × (n ≤ i64_max)
parse_amount-range amount v e =
    let (form, fits, same) = (parse-IsAmount_iff amount v).0 e in (_, same, fits)
