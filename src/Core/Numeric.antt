-- ===== src/Core/Numeric.antt =====
-- crates/core/src/numeric.rs: integers that travel as strings.
pub mod RoundTrip
mod Examples
use reserve.Base.{ℕ, Option, ℤ, Text, print_i64, parse_i64}

-- What a JSON value is read as: a string, or a number of 64 bits.
pub data Either : Type 0 where
  from_text : Text → Either
  from_number : ℤ → Either

-- At the type i64, which is the one that the service uses.
unfoldable pub serialize : ℤ → Either
serialize value = from_text (print_i64 value)

unfoldable pub deserialize : Either → Option ℤ
deserialize (from_text s) = parse_i64 s
deserialize (from_number n) = parse_i64 (print_i64 n)
