-- ===== src/Horizon/Time/Examples.antt =====
-- Timestamps: the unit tests' runs.
use reserve.Base.{
  ◌≡◌, refl, arith, none, some, pos, negsuc, codes, text, split_once, split_on, strip_suffix, trim,
  parse_i32, parse_u32, ◌+ℤ◌, ◌-ℤ◌, ◌*ℤ◌, div_euclid, rem_euclid,
}
use reserve.Horizon.Time.{parse_rfc3339_utc, days_of}
use reserve.Horizon.Time.Calendar.{Date, IsDate, days_in_month, tomorrow, days, days-tomorrow}

epoch_zero :
    (parse_rfc3339_utc (codes "1970-01-01T00:00:00Z") ≡ some (pos 0))
    × (parse_rfc3339_utc (codes "2020-02-26T19:29:16Z") ≡ some (pos 1_582_745_356))
    × (parse_rfc3339_utc (codes " 1969-12-31T23:59:59.5+00:00") ≡ some (negsuc 0))
    × (parse_rfc3339_utc (codes "2020-13-26T19:29:16Z") ≡ none)
unfolding parse_rfc3339_utc text split_once split_on strip_suffix trim parse_i32 parse_u32 ◌+ℤ◌ ◌-ℤ◌
    ◌*ℤ◌ div_euclid rem_euclid
epoch_zero = (refl, refl, refl, refl)

abbrev leap_day : Date
leap_day = record { year = pos 2000; month = 2; day = 29 }

leap_day-IsDate : IsDate leap_day
unfolding days_in_month rem_euclid
leap_day-IsDate = omega arith

days-tomorrow_example :
    (days (tomorrow leap_day) ≡ days leap_day +ℤ pos 1) × (days_of (pos 1970) 1 1 ≡ pos 0)
days-tomorrow_example = days-tomorrow leap_day leap_day-IsDate
