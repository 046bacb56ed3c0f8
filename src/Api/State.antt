-- ===== src/Api/State.antt =====
-- crates/api/src/state.rs: what a lane of the service keeps, and what it reads from the chain.
use reserve.Base.{
  ℕ, ◌+◌, List, [], ◌∷◌, Option, none, some, ℤ, pos, ◌-ℤ◌, wrap_i64, wrapping_mul, Text, Result, ok,
  ok_or, ◌>>=◌,
}
use reserve.Horizon.Error as Horizon
use reserve.Horizon.Records.{HorizonApi, native_balance_stroops}
use reserve.Core.Asset.{Decoders}
use reserve.Core.Quote.{Sealing}
use reserve.Core.Validate.{Codec}
use reserve.Core.Pricing.{NetworkParams}
use reserve.Core.Xdr as Xdr
use reserve.Signer.{Sponsor, Payloads}
use reserve.Signer.Keys.{KeyTools, address}
use reserve.Api.Apikey.{Tools}
use reserve.Api.Auth.{AuthTools}
use reserve.Api.Limits.{IpAddr, Governor, Limits, limits_new}
use reserve.Api.Channels as Channels
use reserve.Api.Channels.{pool_new}
use reserve.Api.Config.{Config}
use reserve.Api.Metrics.{Metrics, no_metrics}

-- The crates that a lane calls, `str::parse` of an address of the internet, and the ticks of a duration.
pub record Crates : Type 1 where
  pub governor : Governor
  pub decoders : Decoders
  pub sealing : Sealing
  pub codec : Codec
  pub envelope_to_base64 : Xdr.TransactionEnvelope → Result Text Text
  pub payloads : Payloads
  pub key_tools : KeyTools
  pub tools : Tools
  pub auth_tools : AuthTools
  pub parse_ip : Text → Option IpAddr
  pub from_secs : ℕ → ℕ

-- What the world shows at one point of a handler: the clock in seconds, the monotonic clock, and Horizon.
pub record Moment : Type 0 where
  pub secs : ℕ
  pub instant : ℕ
  pub horizon : HorizonApi

pub record SponsorFunds : Type 0 where
  pub balance_stroops : ℤ
  pub locked_stroops : ℤ
  pub spendable_stroops : ℤ
  pub sponsoring : ℕ

-- `unwrap_or(0)`
abbrev pub balance_or_zero : Option ℤ → ℤ
balance_or_zero none = pos 0
balance_or_zero (some n) = n

-- Horizon is asked twice, at one moment for the account and at another for the ledger.
unfoldable pub sponsor_funds_of : HorizonApi → HorizonApi → Text → Result Horizon.Error SponsorFunds
sponsor_funds_of h h' sponsor = do
  answer ← h.account sponsor
  account ← ok_or answer (Horizon.not_found sponsor)
  ledger ← h'.latest_ledger
  let balance = balance_or_zero (native_balance_stroops account)
  let locked = wrapping_mul (pos (2 + account.num_sponsoring)) ledger.base_reserve_in_stroops
  ok (record {
    balance_stroops = balance;
    locked_stroops = locked;
    spendable_stroops = wrap_i64 (balance -ℤ locked);
    sponsoring = account.num_sponsoring;
  })

unfoldable pub network_params : HorizonApi → Result Horizon.Error NetworkParams
network_params h = do
  ledger ← h.latest_ledger
  ok (record {
    base_fee_stroops = ledger.base_fee_in_stroops;
    base_reserve_stroops = ledger.base_reserve_in_stroops;
    latest_ledger = ledger.sequence;
  })

-- The keys of the bootstrap lanes: the sponsor's alone if no channel is configured.
abbrev pub lane_keys : Sponsor → List Sponsor → List Sponsor
lane_keys sponsor [] = sponsor ∷ []
lane_keys sponsor (key ∷ keys) = key ∷ keys

module _ (o : Crates) where
  pub record AppState : Type 0 where
    pub config : Config
    pub limits : Limits o.governor
    pub metrics : Metrics
    pub channels : List Channels.Lane

  -- `AppState::new`
  unfoldable pub app_state_new : Config → AppState
  app_state_new config = record {
    config = config;
    limits = limits_new o.governor config.limits;
    metrics = no_metrics;
    channels = pool_new (address o.key_tools) (lane_keys config.sponsor config.channel_secrets);
  }

  unfoldable pub sponsor_address : Config → Text
  sponsor_address config = address o.key_tools config.sponsor

  -- A lane and what it has posted to the network, the last first.
  pub record Service : Type 0 where
    pub app : AppState
    pub posted : List Text

  unfoldable pub set_limits : Limits o.governor → Service → Service
  set_limits limits s = record { app = record s.app { limits = limits }; posted = s.posted }

  unfoldable pub set_channels : List Channels.Lane → Service → Service
  set_channels lanes s = record { app = record s.app { channels = lanes }; posted = s.posted }

  unfoldable pub count : (Metrics → Metrics) → Service → Service
  count f s = record { app = record s.app { metrics = f s.app.metrics }; posted = s.posted }

  unfoldable pub post : Text → Service → Service
  post xdr s = record { app = s.app; posted = xdr ∷ s.posted }
