-- ===== src/Horizon/Time/Calendar.antt =====
-- `days_of` counts the days of the calendar.
use reserve.Base.{
  ℕ, ◌+◌, ◌-◌, ◌*◌, ◌/◌, ◌%◌, ◌≤◌, ◌<◌, ◌≡◌, ◌≢◌, ◌⊎◌, inl, inr, refl, Bool, not, ◌&&◌, ◌||◌, ltb,
  leb, ◌==◌, if◌then◌else◌, Bool-cases, ℤ, pos, negsuc, ◌+ℤ◌, ◌-ℤ◌, ◌*ℤ◌, int_laws, div_euclid,
  rem_euclid, arith,
}
use reserve.Horizon.Time.{days_of}

-- Leap years of the proleptic Gregorian calendar.
abbrev pub is_leap : ℤ → Bool
is_leap y = let n = rem_euclid y 400 in n % 4 == 0 && (not (n % 100 == 0) || n == 0)

unfoldable pub days_in_month : ℤ → ℕ → ℕ
unfolding rem_euclid
days_in_month y m =
    if m == 2
    then (if is_leap y then 29 else 28)
    else if m == 4 || m == 6 || m == 9 || m == 11
    then 30
    else 31

pub record Date : Type 0 where
  pub year : ℤ
  pub month : ℕ
  pub day : ℕ

pub record IsDate (t : Date) : Type 0 where
  pub month_low : 1 ≤ t.month
  pub month_high : t.month ≤ 12
  pub day_low : 1 ≤ t.day
  pub day_high : t.day ≤ days_in_month t.year t.month

-- The day after.
unfoldable pub tomorrow : Date → Date
tomorrow t =
    if ltb t.day (days_in_month t.year t.month)
    then record t { day = t.day + 1 }
    else if ltb t.month 12
    then record t { month = t.month + 1; day = 1 }
    else record { year = t.year +ℤ pos 1; month = 1; day = 1 }

abbrev pub days : Date → ℤ
days t = days_of t.year t.month t.day

-- One year on, within an era and from one era to the next.
next_year :
    (y : ℤ)
    → let p = y -ℤ pos 1 in
      ((rem_euclid p 400 + 1 ≡ rem_euclid y 400) × (div_euclid p 400 ≡ div_euclid y 400))
      ⊎ ((rem_euclid p 400 ≡ 399)
          × (rem_euclid y 400 ≡ 0)
          × (div_euclid p 400 +ℤ pos 1 ≡ div_euclid y 400))
unfolding rem_euclid div_euclid ◌-ℤ◌ ◌+ℤ◌
next_year (pos n) = ground arith
next_year (negsuc n) = ground arith

rem_euclid-lt : (y : ℤ) → rem_euclid y 400 < 400
unfolding rem_euclid
rem_euclid-lt (pos n) = omega arith
rem_euclid-lt (negsuc n) = omega arith

-- The day `doy` of the year `yoe` of an era, counted from 1970.
ordinal : ℤ → ℕ → ℕ → ℤ
ordinal era yoe doy =
    era *ℤ pos 146_097 +ℤ pos (yoe * 365 + yoe / 4 - yoe / 100 + doy) -ℤ pos 719_468

ordinal-suc :
    (era : ℤ) (yoe doy n : ℕ) → n ≡ doy + 1 → ordinal era yoe n ≡ ordinal era yoe doy +ℤ pos 1
unfolding ordinal
ordinal-suc era yoe doy n e = omega int_laws

-- From the last day of a year to the first of the next, in an era and between two.
ordinal_next_year :
    (era : ℤ) (r s doy : ℕ)
    → r + 1 ≡ s
    → s < 400
    → doy + 1 ≡ 365 + (if s % 4 == 0 && not (s % 100 == 0) then 1 else 0)
    → ordinal era s 0 ≡ ordinal era r doy +ℤ pos 1
unfolding ordinal
ordinal_next_year era r s doy e h k =
    let same : s * 365 + s / 4 - s / 100 + 0 ≡ r * 365 + r / 4 - r / 100 + doy + 1 = ground arith in
    omega (int_laws, same)

mul_next : (e : ℤ) → (e +ℤ pos 1) *ℤ pos 146_097 ≡ e *ℤ pos 146_097 +ℤ pos 146_097
unfolding ◌+ℤ◌ ◌*ℤ◌
mul_next (pos n) = ground arith
mul_next (negsuc n) = ground arith

ordinal_next_era :
    (era next : ℤ) → era +ℤ pos 1 ≡ next → ordinal next 0 0 ≡ ordinal era 399 365 +ℤ pos 1
unfolding ordinal
ordinal_next_era era next e = rw (← e, mul_next) (omega int_laws)

days_of_early :
    (y : ℤ) (m d : ℕ)
    → m ≤ 2
    → days_of y m d
      ≡ ordinal
          (div_euclid (y -ℤ pos 1) 400)
          (rem_euclid (y -ℤ pos 1) 400)
          ((153 * (m + 9) + 2) / 5 + d - 1)
unfolding days_of ordinal
days_of_early y m d h = ground arith

days_of_late :
    (y : ℤ) (m d : ℕ)
    → 2 < m
    → days_of y m d
      ≡ ordinal (div_euclid y 400) (rem_euclid y 400) ((153 * (m - 3) + 2) / 5 + d - 1)
unfolding days_of ordinal
days_of_late y m d h = ground arith

-- One more day of the same year, counted from March.
next_day_early :
    (y : ℤ) (m d n e : ℕ)
    → m ≤ 2
    → n ≤ 2
    → (153 * (n + 9) + 2) / 5 + e ≡ (153 * (m + 9) + 2) / 5 + d + 1
    → 1 ≤ d
    → 1 ≤ e
    → days_of y n e ≡ days_of y m d +ℤ pos 1
next_day_early y m d n e hm hn s pd pe =
    rw (days_of_early y n e hn, days_of_early y m d hm) (ordinal-suc _ _ _ _ (omega arith))

next_day_late :
    (y : ℤ) (m d n e : ℕ)
    → 2 < m
    → 2 < n
    → (153 * (n - 3) + 2) / 5 + e ≡ (153 * (m - 3) + 2) / 5 + d + 1
    → 1 ≤ d
    → 1 ≤ e
    → days_of y n e ≡ days_of y m d +ℤ pos 1
next_day_late y m d n e hm hn s pd pe =
    rw (days_of_late y n e hn, days_of_late y m d hm) (ordinal-suc _ _ _ _ (omega arith))

next_day : (y : ℤ) (m d : ℕ) → 1 ≤ d → days_of y m (d + 1) ≡ days_of y m d +ℤ pos 1
next_day y m d h = elim (Bool-cases (leb m 2)) [
  | inl e ↦
      next_day_early y m d m (d + 1) (ground arith) (ground arith) (omega arith) h (omega arith)
  | inr e ↦
      next_day_late y m d m (d + 1) (ground arith) (ground arith) (omega arith) h (omega arith)
]

-- From the last of February to the first of March.
next_march :
    (y : ℤ) (d : ℕ) → d ≡ (if is_leap y then 29 else 28) → days_of y 3 1 ≡ days_of y 2 d +ℤ pos 1
next_march y d e =
    rw (days_of_late y 3 1 (omega arith), days_of_early y 2 d (omega arith))
      (elim (next_year y) [
        | inl (r, q) ↦ rw q (
            ordinal_next_year (div_euclid y 400) (rem_euclid (y -ℤ pos 1) 400) (rem_euclid y 400) _
              r (rem_euclid-lt y) (ground arith))
        | inr (r, s, q) ↦
            let leap_day : d ≡ 29 = ground arith in
            rw (r, s, leap_day)
              (ordinal_next_era (div_euclid (y -ℤ pos 1) 400) (div_euclid y 400) q)
      ])

-- From December to January.
next_january : (y : ℤ) → days_of (y +ℤ pos 1) 1 1 ≡ days_of y 12 31 +ℤ pos 1
next_january y =
    rw (days_of_early (y +ℤ pos 1) 1 1 (omega arith), days_of_late y 12 31 (omega arith))
      (rw (let e : y +ℤ pos 1 -ℤ pos 1 ≡ y = omega int_laws in e)
        (ordinal-suc _ _ _ _ (omega arith)))

-- The last day of a month but February and December.
next_month :
    (y : ℤ) (m d : ℕ)
    → 1 ≤ m
    → m < 12
    → m ≢ 2
    → d ≡ days_in_month y m
    → days_of y (m + 1) 1 ≡ days_of y m d +ℤ pos 1
unfolding days_in_month
next_month y m d low high other e = elim (Bool-cases (leb m 2)) [
  | inl early ↦
      next_day_early y m d (m + 1) 1 (ground arith) (ground arith) (ground arith) (ground arith)
        (omega arith)
  | inr late ↦
      next_day_late y m d (m + 1) 1 (ground arith) (ground arith) (ground arith) (ground arith)
        (omega arith)
]

month_end :
    (y : ℤ) (m d : ℕ)
    → 1 ≤ m
    → m < 12
    → d ≡ days_in_month y m
    → days_of y (m + 1) 1 ≡ days_of y m d +ℤ pos 1
unfolding days_in_month
month_end y m d low high e = elim (Bool-cases (m == 2)) [
  | inl feb ↦ let two : m ≡ 2 = ground arith in rw two (next_march y d (ground arith))
  | inr other ↦ next_month y m d low high (ground arith) e
]

year_end :
    (y : ℤ) (m d : ℕ)
    → m ≡ 12
    → d ≡ days_in_month y m
    → days_of (y +ℤ pos 1) 1 1 ≡ days_of y m d +ℤ pos 1
unfolding days_in_month
year_end y m d december e = let last : d ≡ 31 = ground arith in rw (december, last) (next_january y)

-- The day after each date of the calendar is numbered one higher, leap days and negative years
-- included, and 1970-01-01 is day 0.
pub days-tomorrow :
    (t : Date) → IsDate t → (days (tomorrow t) ≡ days t +ℤ pos 1) × (days_of (pos 1970) 1 1 ≡ pos 0)
unfolding tomorrow
days-tomorrow t h = (step, epoch)
  where
    step : days (tomorrow t) ≡ days t +ℤ pos 1
    step = elim (Bool-cases (ltb t.day (days_in_month t.year t.month))) [
      | inl inside ↦ rw inside (next_day t.year t.month t.day h.day_low)
      | inr last ↦ rw last (elim (Bool-cases (ltb t.month 12)) [
        | inl before ↦
            rw before (month_end t.year t.month t.day h.month_low (ground arith) (ground arith))
        | inr december ↦ rw december (year_end t.year t.month t.day (ground arith) (ground arith))
      ])
    ]

    epoch : days_of (pos 1970) 1 1 ≡ pos 0
    epoch = unfold days_of div_euclid rem_euclid ◌+ℤ◌ ◌-ℤ◌ ◌*ℤ◌ in refl
