-- ===== src/Core/Numeric/Examples.antt =====
-- The bounds of a number of 64 bits.
use reserve.Base.{◌≡◌, refl, none, some, negsuc, codes, parse_i64, arith}
use reserve.Core.Numeric.{from_text, from_number, serialize, deserialize}
use reserve.Core.Numeric.RoundTrip.{deserialize-serialize}

deserialize-serialize_example :
    (deserialize (serialize (negsuc 0x7fff_ffff_ffff_ffff)) ≡ some (negsuc 0x7fff_ffff_ffff_ffff))
    × (deserialize (from_number (negsuc 0x7fff_ffff_ffff_ffff))
        ≡ some (negsuc 0x7fff_ffff_ffff_ffff))
deserialize-serialize_example =
    deserialize-serialize (negsuc 0x7fff_ffff_ffff_ffff) (omega arith, omega arith)

too_large : deserialize (from_text (codes "9223372036854775808")) ≡ none
unfolding deserialize parse_i64
too_large = refl
