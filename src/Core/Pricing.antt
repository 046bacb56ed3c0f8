-- ===== src/Core/Pricing.antt =====
-- crates/core/src/pricing.rs: a plan's price in the user's own token.
pub mod Cheapest
pub mod Rounding
pub mod Rate
pub mod Cover
mod Examples
use reserve.Base.{
  ℕ, ◌+◌, Bool, true, false, List, [], ◌∷◌, Option, none, some, if◌then◌else◌, ℤ, pos, ◌+ℤ◌, ◌-ℤ◌,
  ◌*ℤ◌, ltb_ℤ, leb_ℤ, max_ℤ, quot, wrap_i64, saturating_add, saturating_mul, Text, text, Result, ok,
  err, ok_or, fail_if, ◌>>=◌, ◌>>◌,
}
use reserve.Horizon.Asset.{Asset, native, credit, canonical, PathHop, to_asset}
use reserve.Horizon.Records.{HorizonApi, PathRecord, source_amount_stroops}
use reserve.Core.Error.{Error, from_horizon}
use reserve.Core.Plan.{Plan, op_count, reserve_stroops}
use reserve.Core.Tokens.{slippage_bps}

pub record NetworkParams : Type 0 where
  pub base_fee_stroops : ℤ
  pub base_reserve_stroops : ℤ
  pub latest_ledger : ℕ

pub record PricingConfig : Type 0 where
  pub margin_bps : ℕ
  pub slippage_bps : ℕ
  pub validity_ledgers : ℕ
  pub min_charge_stroops : ℤ

-- `impl Default for PricingConfig`
abbrev pub default_config : PricingConfig
default_config = record {
  margin_bps = 2_000;
  slippage_bps = 100;
  validity_ledgers = 12;
  min_charge_stroops = pos 56_000;
}

pub record Cost : Type 0 where
  pub network_fee_stroops : ℤ
  pub reserve_stroops : ℤ
  pub charge_stroops : ℤ
  pub send_max_stroops : ℤ
  pub slippage_bps : ℕ
  pub path : List Asset

-- The products are in i128, where they cannot overflow.
unfoldable pub apply_bps : ℤ → ℕ → ℤ
apply_bps value bps =
    let extra = quot (value *ℤ pos bps +ℤ pos 9_999) (pos 10_000) in
    saturating_add value (wrap_i64 extra)

abbrev pub reference_stroops : ℤ
reference_stroops = pos 10_000_000

-- One step of `filter(is_some).min_by_key(…)`: the first of the least amounts stays.
abbrev pub amount_lt : Option ℤ → Option ℤ → Bool
amount_lt none b = false
amount_lt (some a) none = true
amount_lt (some a) (some b) = ltb_ℤ a b

abbrev better : Option PathRecord → PathRecord → Option PathRecord
better none r = elim (source_amount_stroops r) [ none ↦ none | some a ↦ some r ]
better (some b) r =
    if amount_lt (source_amount_stroops r) (source_amount_stroops b) then some r else some b

unfoldable pub cheapest_from : Option PathRecord → List PathRecord → Option PathRecord
cheapest_from best [] = best
cheapest_from best (r ∷ rs) = cheapest_from (better best r) rs

unfoldable pub cheapest : List PathRecord → Option PathRecord
unfolding cheapest_from
cheapest records = cheapest_from none records

-- `path.iter().map(…).collect::<Result<Vec<_>>>()`
unfoldable pub route_of : List PathHop → Result Error (List Asset)
route_of [] = ok []
route_of (hop ∷ hops) = do
  asset ← ok_or (to_asset hop) (Error.asset (text "path hop"))
  rest ← route_of hops
  ok (asset ∷ rest)

-- The amount that buys `xlm` at the rate of `cost` for `reference`, rounded up, and one at least.
unfoldable pub scale : ℤ → ℤ → ℤ → ℤ
scale xlm cost reference =
    wrap_i64 (max_ℤ (quot (xlm *ℤ cost +ℤ reference -ℤ pos 1) reference) (pos 1))

unfoldable pub token_amount_for_xlm : HorizonApi → Asset → Text → ℤ → Result Error (ℤ × List Asset)
token_amount_for_xlm horizon token source_account xlm_stroops = do
  let reference = max_ℤ xlm_stroops reference_stroops
  records ← from_horizon (horizon.strict_receive_paths source_account (token ∷ []) native reference)
  best ← ok_or (cheapest records) (Error.no_path (canonical token))
  reference_cost ← ok_or (source_amount_stroops best) (Error.amount best.source_amount)
  fail_if (leb_ℤ reference_cost (pos 0)) (Error.no_path (canonical token))
  path ← route_of best.path
  ok (scale xlm_stroops reference_cost reference, path)

abbrev pub is_native : Asset → Bool
is_native native = true
is_native (credit code issuer) = false

-- The network's fee for the plan and the fee bump, and what the user is charged for it.
unfoldable pub network_fee : Plan → NetworkParams → ℤ
network_fee plan params = saturating_mul params.base_fee_stroops (pos (op_count plan + 1))

unfoldable pub charge_of : Plan → NetworkParams → PricingConfig → ℤ
charge_of plan params cfg =
    let reserve = reserve_stroops plan params.base_reserve_stroops in
    max_ℤ (apply_bps (saturating_add (network_fee plan params) reserve) cfg.margin_bps)
      (saturating_add cfg.min_charge_stroops reserve)

-- The cost of a plan whose fee takes `amount` of the token by the route `path`.
unfoldable pub cost_of : Plan → NetworkParams → PricingConfig → ℕ → ℤ → List Asset → Cost
cost_of plan params cfg slippage amount path = record {
  network_fee_stroops = network_fee plan params;
  reserve_stroops = reserve_stroops plan params.base_reserve_stroops;
  charge_stroops = charge_of plan params cfg;
  send_max_stroops = apply_bps amount slippage;
  slippage_bps = slippage;
  path = path;
}

unfoldable pub price :
    HorizonApi → Plan → Asset → Text → NetworkParams → PricingConfig → Text → Result Error Cost
unfolding cost_of
price horizon plan fee_token source_account params cfg passphrase =
    let slippage = slippage_bps fee_token passphrase cfg.slippage_bps in
    let charge = charge_of plan params cfg in
    if is_native fee_token then ok (cost_of plan params cfg slippage charge []) else (do
      (amount, path) ← token_amount_for_xlm horizon fee_token source_account charge
      ok (cost_of plan params cfg slippage amount path))
