-- ===== src/Horizon/Time.antt =====
-- crates/horizon/src/predicate.rs: Horizon's timestamps as unix seconds.
pub mod Calendar
mod Examples
use reserve.Base.{
  ℕ, ◌+◌, ◌-◌, ◌*◌, ◌/◌, Bool, not, ◌&&◌, ◌||◌, List, [], ◌∷◌, Option, none, some, ltb, leb, ◌==◌,
  if◌then◌else◌, ℤ, pos, ◌+ℤ◌, ◌-ℤ◌, ◌*ℤ◌, div_euclid, rem_euclid, Text, text, split_once, split_on,
  strip_suffix, trim, parse_i32, parse_u32,
}

infixl 5 ◌>>=◌
abbrev ◌>>=◌ {ℓ κ} : {A : Type ℓ} {B : Type κ} → Option A → (A → Option B) → Option B
none >>= f = none
some a >>= f = f a

-- The days from 1970-01-01 to a date. March begins a year here, as in the source.
unfoldable pub days_of : ℤ → ℕ → ℕ → ℤ
days_of y m d =
    let y' = if leb m 2 then y -ℤ pos 1 else y in
    let m' = if leb m 2 then m + 9 else m - 3 in
    let era = div_euclid y' 400 in
    let yoe = rem_euclid y' 400 in
    let doy = (153 * m' + 2) / 5 + d - 1 in
    let doe = yoe * 365 + yoe / 4 - yoe / 100 + doy in era *ℤ pos 146_097 +ℤ pos doe -ℤ pos 719_468

unfoldable pub unix_from_civil : ℤ → ℕ → ℕ → ℕ → ℕ → ℕ → Option ℤ
unfolding days_of
unix_from_civil y m d h min s =
    if not (leb 1 m && leb m 12) || d == 0 || ltb 31 d || ltb 23 h || ltb 59 min || ltb 60 s
    then none
    else some (days_of y m d *ℤ pos 86_400 +ℤ pos (h * 3_600) +ℤ pos (min * 60) +ℤ pos s)

-- `or_else`, and the next item of an iterator.
abbrev or_else : Option Text → Option Text → Option Text
or_else (some s) t = some s
or_else none t = t

abbrev nth : ℕ → List Text → Option Text
nth n [] = none
nth ℕ.zero (p ∷ ps) = some p
nth (ℕ.suc n) (p ∷ ps) = nth n ps

-- The time without its fraction.
abbrev without_fraction : Text → Text
without_fraction time = elim (split_once b'.' time) [ none ↦ time | some (h, f) ↦ h ]

unfoldable pub parse_rfc3339_utc : Text → Option ℤ
unfolding unix_from_civil
parse_rfc3339_utc stamp = do
  let s = trim stamp
  s ← or_else (strip_suffix (text "Z") s) (strip_suffix (text "+00:00") s)
  parts ← split_once b'T' s
  let d = split_on b'-' parts.0
  year ← nth 0 d >>= parse_i32
  month ← nth 1 d >>= parse_u32
  day ← nth 2 d >>= parse_u32
  let t = split_on b':' (without_fraction parts.1)
  hour ← nth 0 t >>= parse_u32
  minute ← nth 1 t >>= parse_u32
  second ← nth 2 t >>= parse_u32
  unix_from_civil year month day hour minute second
