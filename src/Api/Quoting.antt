-- ===== src/Api/Quoting.antt =====
-- crates/api/src/routes.rs: the handlers `quote` and `build`.
pub mod Sound
pub mod Answer
pub mod Flow
mod Examples
use reserve.Base.{
  ℕ, ◌+◌, ◌*◌, ◌%◌, ◌^◌, Bool, true, false, not, List, [], ◌∷◌, ◌++◌, map, Option, none, some,
  if◌then◌else◌, ℤ, pos, wrap_i64, wrap_u32, wrapping_add, Text, text, text_eq, Result, ok, err,
  ok_or,
}
use reserve.Horizon.Asset.{Asset, canonical}
use reserve.Horizon.Records.{HorizonApi, Account, sequence_i64}
use reserve.Core.Asset.{parse_asset}
use reserve.Core.Tokens.{allows}
use reserve.Core.Plan.{UserOp, Mode, sponsored, bootstrap, Plan, plan_new, op_count, is_bootstrap}
use reserve.Core.Pricing.{NetworkParams, Cost, price}
use reserve.Core.Claim.{ensure_claims, need_for}
use reserve.Core.Quote.{Quote, seal, open_quote}
use reserve.Core.Build.{build_inner}
use reserve.Core.Xdr as Xdr
use reserve.Api.Limits.{IpAddr}
use reserve.Api.Channels.{ChannelError, Lane, lease}
use reserve.Api.Config.{Config}
use reserve.Api.Metrics.{quoted}
use reserve.Api.Error.{ApiError, api_error, bad_request, of_core, of_horizon, of_channel, or_fail}
use reserve.Api.Action.{Action, and_then, pure, lift, gets, modify, raise_if, ◌>>=◌, ◌>>◌}
use reserve.Api.State.{
  Crates, Moment, AppState, Service, network_params, sponsor_address, set_channels, count,
}
use reserve.Api.Caller.{Headers, admit}

abbrev pub tx_timeout_secs : ℕ
tx_timeout_secs = 180

pub record QuoteRequest : Type 0 where
  pub source : Text
  pub fee_token : Text
  pub ops : List UserOp

pub record QuoteResponse : Type 0 where
  pub quote : Text
  pub mode : Mode
  pub charge_stroops : ℤ
  pub send_max_stroops : ℤ
  pub reserve_stroops : ℤ
  pub slippage_bps : ℕ
  pub creates_account : Bool
  pub expires_at_ledger : ℕ

pub record BuildResponse : Type 0 where
  pub xdr : Text
  pub network_passphrase : Text
  pub signers : List Text

abbrev pub is_some : Option Account → Bool
is_some none = false
is_some (some a) = true

abbrev pub sequence_of : Option Account → Option ℤ
sequence_of none = none
sequence_of (some a) = sequence_i64 a

unfoldable pub check_token : Config → Asset → Result ApiError (Unit {0})
check_token config asset =
    if allows config.token_allowlist asset
    then ok tt
    else err (
        bad_request (text "token_not_allowed")
          (canonical asset ++ text " is not accepted as a fee token; see GET /v1/tokens"))

-- The quote of a plan at its cost, from a place in the ledger.
unfoldable pub quote_of :
    Config → Text → QuoteRequest → Asset → Plan → NetworkParams → Cost → Text × ℤ → ℕ → Quote
quote_of config sponsor req fee_token plan params cost place now = record {
  network = config.network_passphrase;
  mode = plan.mode;
  source = req.source;
  sponsor = sponsor;
  channel = place.0;
  ops = req.ops;
  fee_token = canonical fee_token;
  charge_stroops = cost.charge_stroops;
  send_max_stroops = cost.send_max_stroops;
  path = map canonical cost.path;
  reserve_stroops = cost.reserve_stroops;
  sequence = place.1;
  inner_fee_stroops = wrap_u32 params.base_fee_stroops * op_count plan % 2 ^ 32;
  min_time = 0;
  max_time = (now + tx_timeout_secs) % 2 ^ 64;
  expires_at_ledger = (params.latest_ledger + config.pricing.validity_ledgers) % 2 ^ 32;
}

abbrev pub response_of : Quote → Cost → Text → QuoteResponse
response_of q cost token = record {
  quote = token;
  mode = q.mode;
  charge_stroops = q.charge_stroops;
  send_max_stroops = q.send_max_stroops;
  reserve_stroops = q.reserve_stroops;
  slippage_bps = cost.slippage_bps;
  creates_account = is_bootstrap q.mode;
  expires_at_ledger = q.expires_at_ledger;
}

module _ (o : Crates) where
  -- The channel of a leased lane: none if the lane is the sponsor itself.
  abbrev pub as_channel : Config → Text × ℤ → Text × ℤ
  as_channel config (lane, sequence) =
      (if text_eq lane (sponsor_address o config) then [] else lane, sequence)

  unfoldable pub lease_lane : Moment → Action (Service o) (Text × ℤ)
  lease_lane m s =
      let leased = lease m.horizon (o.from_secs tx_timeout_secs) m.instant s.app.channels in
      and_then (or_fail of_channel leased.0, set_channels o leased.1 s)
        (λ at. pure (as_channel s.app.config at))

  -- The channel and the sequence number that source the transaction.
  unfoldable pub place : Mode → Option Account → Moment → Action (Service o) (Text × ℤ)
  place sponsored account m = do
    sequence ← lift (
        ok_or (sequence_of account)
          (api_error 502 (text "no_sequence") (text "cannot read sequence")))
    pure ([], wrapping_add sequence (pos 1))
  place bootstrap account m = lease_lane m

  -- What follows the checks: the place in the ledger, and the seal.
  unfoldable pub issue :
      Config
      → QuoteRequest
      → Asset
      → Option Account
      → Plan
      → NetworkParams
      → Cost
      → (ℕ → Moment)
      → Action (Service o) QuoteResponse
  issue config req fee_token account plan params cost m = do
    at ← place plan.mode account (m 5)
    modify (count o quoted)
    let q = quote_of config (sponsor_address o config) req fee_token plan params cost at (m 6).secs
    token ← lift (or_fail of_core (seal o.sealing q config.quote_key))
    pure (response_of q cost token)

  -- The price, and the claims that pay it.
  unfoldable pub cost_and_issue :
      Config
      → QuoteRequest
      → Asset
      → Option Account
      → Plan
      → NetworkParams
      → (ℕ → Moment)
      → Action (Service o) QuoteResponse
  cost_and_issue config req fee_token account plan params m = do
    cost ← lift (
        or_fail of_core (
          price (m 3).horizon plan fee_token req.source params config.pricing
            config.network_passphrase))
    lift (
        or_fail of_core (
          ensure_claims (m 4).horizon req.source plan.ops plan.mode (wrap_i64 (pos (m 4).secs))
            (need_for plan.mode (canonical fee_token) cost.send_max_stroops)))
    issue config req fee_token account plan params cost m

  -- `POST /v1/quote`. The moments are those of the calls, in their order.
  unfoldable pub quote :
      Headers → Option IpAddr → QuoteRequest → (ℕ → Moment) → Action (Service o) QuoteResponse
  quote headers peer req m = do
    admit o headers peer (m 0).secs
    config ← gets (λ s. s.app.config)
    fee_token ← lift (or_fail of_core (parse_asset req.fee_token))
    lift (check_token config fee_token)
    account ← lift (or_fail of_horizon ((m 1).horizon.account req.source))
    plan ← lift (or_fail of_core (plan_new o.decoders req.ops (is_some account)))
    params ← lift (or_fail of_horizon (network_params (m 2).horizon))
    cost_and_issue config req fee_token account plan params m

  -- `POST /v1/build`
  unfoldable pub build :
      Headers → Option IpAddr → Text → (ℕ → Moment) → Action (Service o) BuildResponse
  build headers peer token m = do
    admit o headers peer (m 0).secs
    config ← gets (λ s. s.app.config)
    q ← lift (or_fail of_core (open_quote o.sealing token config.quote_key))
    tx ← lift (or_fail of_core (build_inner o.decoders q))
    xdr ← lift (
        or_fail (api_error 500 (text "xdr"))
          (o.envelope_to_base64 (Xdr.tx (record { tx = tx; signatures = [] }))))
    pure (record { xdr = xdr; network_passphrase = q.network; signers = q.source ∷ [] })
