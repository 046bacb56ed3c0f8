-- ===== src/Core/Pricing/Examples.antt =====
-- Prices at a Horizon with two direct routes.
use reserve.Base.{
  ℕ, ◌+◌, ◌*◌, ◌≤◌, ◌<◌, ◌≡◌, ◌≢◌, ◌⊎◌, refl, max, List, [], ◌∷◌, some, ok, codes, text, text_eq,
  split_once, ℤ, pos, ◌<ℤ◌, i64_max, arith, pos_part, parse_i64, all_digits, pad_right, checked,
  ◌*ℤ◌, ◌+ℤ◌, ◌-ℤ◌, quot, wrap_i64, saturating_add, saturating_mul, wrapping_mul,
}
use reserve.Horizon.Amount.{parse_amount_stroops}
use reserve.Horizon.Asset.{Asset, native, credit, canonical}
use reserve.Horizon.Records.{PathRecord, source_amount_stroops}
use reserve.Core.Plan.{Plan, sponsored, payment, op_count, reserve_stroops}
use reserve.Core.Plan.Bounds.{reserves}
use reserve.Core.Tokens.{slippage_bps, find_token, find, known_tokens, token_canonical}
use reserve.Core.Samples.{horizon, routes, user, sponsor, usdc}
use reserve.Core.Pricing.{
  NetworkParams, default_config, Cost, price, cost_of, charge_of, network_fee, apply_bps, cheapest,
  cheapest_from, route_of, scale, token_amount_for_xlm,
}
use reserve.Core.Pricing.Cheapest.{Least, cheapest-Least}
use reserve.Core.Pricing.Rounding.{apply_bps_least, apply_bps_wraps}
use reserve.Core.Pricing.Rate.{token_amount_least}
use reserve.Core.Pricing.Cover.{IsPriced, fee_at, outlay, price_covers}

cheapest-Least_example : Least routes (cheapest routes)
cheapest-Least_example = cheapest-Least routes

apply_bps_least_example :
    (m : ℕ) × (apply_bps (pos 300) 2_000 ≡ pos m)
    × (300 ≤ m)
    × (m ≤ i64_max)
    × (m * 10_000 < 300 * (10_000 + 2_000) + 10_000)
    × (m ≢ i64_max → 300 * (10_000 + 2_000) ≤ m * 10_000)
    × (◌≡◌ {A = ℕ} 2_000 0 → m ≡ 300)
    × (0 < 300 → 0 < 2_000 → 300 < i64_max → 300 < m)
apply_bps_least_example = apply_bps_least 300 2_000 (omega arith) (omega arith)

apply_bps_wraps_example : apply_bps (pos 0x7fff_ffff_ffff_ffff) 10_001 <ℤ pos 0x7fff_ffff_ffff_ffff
apply_bps_wraps_example =
    apply_bps_wraps 0x7fff_ffff_ffff_ffff 10_001 (omega arith) (omega arith) (omega arith)

abbrev token : Asset
token = credit (codes "USDC") sponsor

rate_answered : token_amount_for_xlm horizon token user (pos 56_000) ≡ ok (pos 45, [])
unfolding token_amount_for_xlm cheapest cheapest_from route_of scale source_amount_stroops
    parse_amount_stroops text split_once all_digits parse_i64 pad_right checked ◌*ℤ◌ ◌+ℤ◌ ◌-ℤ◌ quot
    wrap_i64
rate_answered = refl

token_amount_least_example :
    (records : List PathRecord) × (best : PathRecord) × (cost : ℤ) × (m : ℕ)
    × (horizon.strict_receive_paths user (token ∷ []) native (pos (max 56_000 10_000_000))
        ≡ ok records)
    × (cheapest records ≡ some best)
    × (source_amount_stroops best ≡ some cost)
    × (route_of best.path ≡ ok [])
    × (pos 45 ≡ pos m)
    × (1 ≤ m)
    × (56_000 * pos_part cost ≤ m * max 56_000 10_000_000)
    × ((m ≡ 1) ⊎ (m * max 56_000 10_000_000 < 56_000 * pos_part cost + max 56_000 10_000_000))
token_amount_least_example = token_amount_least horizon token user 56_000 (pos 45) [] rate_answered

abbrev plan : Plan
plan = record {
  mode = sponsored;
  ops = payment sponsor usdc (codes "1.5") ∷ [];
  new_accounts = 0;
  new_subentries = 0;
  new_claimants = 0;
}

abbrev params : NetworkParams
params = record {
  base_fee_stroops = pos 100;
  base_reserve_stroops = pos 5_000_000;
  latest_ledger = 7;
}

two_operations : op_count plan ≡ 2
unfolding op_count
two_operations = refl

plan-IsPriced : IsPriced plan params default_config 100 5_000_000 56_000
plan-IsPriced = record {
  base_fee = refl;
  base_reserve = refl;
  min_charge = refl;
  outlay-fits = omega (arith, two_operations);
  min_charge-fits = omega arith;
}

abbrev cost : Cost
cost = record {
  network_fee_stroops = pos 300;
  reserve_stroops = pos 0;
  charge_stroops = pos 56_000;
  send_max_stroops = pos 46;
  slippage_bps = 100;
  path = [];
}

plan_cost : price horizon plan token user params default_config (text "net") ≡ ok cost
unfolding price cost_of charge_of network_fee apply_bps op_count reserve_stroops
    token_amount_for_xlm cheapest cheapest_from route_of scale source_amount_stroops
    parse_amount_stroops text split_once all_digits parse_i64 pad_right checked ◌*ℤ◌ ◌+ℤ◌ ◌-ℤ◌ quot
    wrap_i64 saturating_add saturating_mul wrapping_mul slippage_bps find find_token known_tokens
    text_eq token_canonical canonical
plan_cost = refl

price_covers_example :
    (charge : ℕ) × (cost.charge_stroops ≡ pos charge)
    × (cost.network_fee_stroops ≡ pos (fee_at plan 100))
    × (cost.reserve_stroops ≡ pos (reserves plan * 5_000_000))
    × (outlay plan 100 5_000_000 * (10_000 + default_config.margin_bps) ≤ charge * 10_000)
    × (56_000 + reserves plan * 5_000_000 ≤ charge)
    × (charge ≤ i64_max)
price_covers_example =
    price_covers horizon plan token user params default_config (text "net") cost 100 5_000_000
      56_000 plan-IsPriced plan_cost
