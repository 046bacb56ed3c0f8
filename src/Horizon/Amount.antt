-- ===== src/Horizon/Amount.antt =====
-- crates/horizon/src/types.rs: amounts as decimal text with seven places, and as stroops.
pub mod Read
pub mod RoundTrip
mod Examples
use reserve.Base.{
  ℕ, ◌+◌, ◌-◌, ◌*◌, ◌/◌, ◌%◌, Bool, not, ◌||◌, List, [], ◌∷◌, ◌++◌, Option, none, some, ltb,
  if◌then◌else◌, length, ℤ, pos, negsuc, ◌+ℤ◌, ◌*ℤ◌, ltb_ℤ, checked, Text, text, split_once,
  all_digits, parse_i64, print_nat, pad_left, pad_right, suc,
}

-- `match amount.split_once('.') { Some((w, f)) => (w, f), None => (amount, "") }`
abbrev pub split_amount : Text → Text × Text
split_amount amount = elim (split_once b'.' amount) [ none ↦ (amount, []) | some (w, f) ↦ (w, f) ]

infixl 5 ◌>>=◌
abbrev ◌>>=◌ {ℓ κ} : {A : Type ℓ} {B : Type κ} → Option A → (A → Option B) → Option B
none >>= f = none
some a >>= f = f a

abbrev is_empty : Text → Bool
is_empty [] = Bool.true
is_empty (c ∷ s) = Bool.false

-- The two numbers, and the checked sum of their stroops.
stroops_of : Text → Text → Option ℤ
stroops_of whole frac = do
  let padded = pad_right 7 frac
  w ← parse_i64 whole
  f ← if is_empty padded then some (pos 0) else parse_i64 padded
  scaled ← checked (w *ℤ pos 10_000_000)
  checked (scaled +ℤ f)

unfoldable pub parse_amount_stroops : Text → Option ℤ
unfolding stroops_of
parse_amount_stroops amount =
    let (whole, frac) = split_amount amount in
    if ltb 7 (length frac) || not (all_digits whole) || not (all_digits frac)
    then none
    else stroops_of whole frac

-- `unsigned_abs`
abbrev unsigned_abs : ℤ → ℕ
unsigned_abs (pos n) = n
unsigned_abs (negsuc n) = suc n

unfoldable pub format_stroops : ℤ → Text
format_stroops stroops =
    let sign : Text = if ltb_ℤ stroops (pos 0) then b'-' ∷ [] else [] in
    let v = unsigned_abs stroops in
    sign ++ print_nat (v / 10_000_000) ++ b'.' ∷ pad_left 7 (print_nat (v % 10_000_000))
