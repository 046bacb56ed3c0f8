-- ===== src/Horizon/Amount/Examples.antt =====
-- Amounts: runs on the texts that the unit tests use, and the theorems at concrete amounts.
use reserve.Base.{
  ◌≤◌, ◌↔◌, ◌≡◌, refl, none, some, pos, negsuc, i64_max, arith, parse_i64, checked, split_once,
  all_digits, pad_left, pad_right, print_nat, codes, ◌+ℤ◌, ◌*ℤ◌,
}
use reserve.Horizon.Amount.{parse_amount_stroops, format_stroops, split_amount}
use reserve.Horizon.Amount.Read.{IsAmount, stroops, parse-IsAmount_iff}
use reserve.Horizon.Amount.RoundTrip.{parse-format}

amounts_round_trip :
    (parse_amount_stroops (codes "1.0000000") ≡ some (pos 10_000_000))
    × (parse_amount_stroops (codes "0.0000001") ≡ some (pos 1))
    × (parse_amount_stroops (codes "12") ≡ some (pos 120_000_000))
    × (parse_amount_stroops (codes "0.00000001") ≡ none)
    × (parse_amount_stroops (codes ".5") ≡ none)
    × (parse_amount_stroops (codes "922337203685.4775808") ≡ none)
    × (format_stroops (pos 10_000_001) ≡ codes "1.0000001")
    × (format_stroops (negsuc 0) ≡ codes "-0.0000001")
unfolding parse_amount_stroops format_stroops parse_i64 checked split_once all_digits pad_left
    pad_right print_nat ◌+ℤ◌ ◌*ℤ◌
amounts_round_trip = (refl, refl, refl, refl, refl, refl, refl, refl)

parse-format_example :
    parse_amount_stroops (format_stroops (pos 10_000_001)) ≡ some (pos 10_000_001)
parse-format_example = parse-format 10_000_001 (omega arith)

parse-IsAmount_iff_example : (parse_amount_stroops (codes "1.5") ≡ some (pos 15_000_000)) ↔ (
    IsAmount (split_amount (codes "1.5")).0 (split_amount (codes "1.5")).1
    × (stroops (split_amount (codes "1.5")).0 (split_amount (codes "1.5")).1 ≤ i64_max)
    × (pos 15_000_000
        ≡ pos (stroops (split_amount (codes "1.5")).0 (split_amount (codes "1.5")).1)))
parse-IsAmount_iff_example = parse-IsAmount_iff (codes "1.5") (pos 15_000_000)
