-- ===== src/Api/Config/Start.antt =====
-- crates/api/src/config.rs: `Boot::from_env`, one lane for each network that has a sponsor.
use reserve.Base.{
  Bool, false, List, [], ◌∷◌, ◌++◌, Option, none, some, ltb, if◌then◌else◌, length, pos, Text, text,
  text_eq, trim, Result, ok, err, ok_or, fail_if, ◌>>=◌, ◌>>◌,
}
use reserve.Core.Tokens.{public_network, testnet}
use reserve.Signer.{Sponsor}
use reserve.Signer.Keys.{KeyTools}
use reserve.Api.Apikey.{Tools, KeyIssuer, issuer_new, public_key_hex}
use reserve.Api.Config.{
  Config, Lane, Boot, ConfigError, missing, invalid, Shared, Environment, var_or, or_invalid,
  env_u32, env_i64, optional_secret, channel_text, split_lines, sponsors_of, build_lane,
}

-- The variables that a lane reads.
pub record LaneKeys : Type 0 where
  pub secret_key : Text
  pub secret_file : Text
  pub horizon_key : Text
  pub tokens_key : Text
  pub channels_key : Text
  pub channels_file : Text

abbrev pub testnet_keys : LaneKeys
testnet_keys = record {
  secret_key = text "RESERVE_TESTNET_SPONSOR_SECRET";
  secret_file = text "RESERVE_TESTNET_SPONSOR_SECRET_FILE";
  horizon_key = text "RESERVE_TESTNET_HORIZON_URL";
  tokens_key = text "RESERVE_TESTNET_TOKENS";
  channels_key = text "RESERVE_TESTNET_CHANNEL_SECRETS";
  channels_file = text "RESERVE_TESTNET_CHANNEL_SECRETS_FILE";
}

abbrev pub mainnet_keys : LaneKeys
mainnet_keys = record {
  secret_key = text "RESERVE_MAINNET_SPONSOR_SECRET";
  secret_file = text "RESERVE_MAINNET_SPONSOR_SECRET_FILE";
  horizon_key = text "RESERVE_MAINNET_HORIZON_URL";
  tokens_key = text "RESERVE_MAINNET_TOKENS";
  channels_key = text "RESERVE_MAINNET_CHANNEL_SECRETS";
  channels_file = text "RESERVE_MAINNET_CHANNEL_SECRETS_FILE";
}

abbrev pub legacy_keys : LaneKeys
legacy_keys = record {
  secret_key = text "RESERVE_SPONSOR_SECRET";
  secret_file = text "RESERVE_SPONSOR_SECRET_FILE";
  horizon_key = text "RESERVE_HORIZON_URL";
  tokens_key = text "RESERVE_TOKENS";
  channels_key = text "RESERVE_CHANNEL_SECRETS";
  channels_file = text "RESERVE_CHANNEL_SECRETS_FILE";
}

-- The slug, the passphrase and the default Horizon of a network's name.
unfoldable pub network_named : Text → Result ConfigError (Text × Text × Text)
network_named name =
    if text_eq name (text "mainnet")
    then ok (text "mainnet", public_network, text "https://horizon.stellar.org")
    else if text_eq name (text "testnet")
    then ok (text "testnet", testnet, text "https://horizon-testnet.stellar.org")
    else err (invalid (text "RESERVE_NETWORK") name)

abbrev pub lane_if : Text → Option Config → List Lane
lane_if slug none = []
lane_if slug (some config) = record { slug = slug; config = config } ∷ []

module _ (e : Environment) (t : Tools) (k : KeyTools) where
  unfoldable pub parse_channel_secrets : Text → Text → Result ConfigError (List Sponsor)
  parse_channel_secrets value_key file_key = do
    raw ← channel_text e value_key file_key
    sponsors_of k value_key (split_lines raw)

  -- The text of the quote key.
  unfoldable pub quote_key_text : Result ConfigError Text
  quote_key_text = elim (e.var (text "RESERVE_QUOTE_KEY_FILE")) [
    | none ↦ ok_or (e.var (text "RESERVE_QUOTE_KEY")) (missing (text "RESERVE_QUOTE_KEY"))
    | some path ↦ or_invalid (text "RESERVE_QUOTE_KEY_FILE") (e.read_to_string path)
  ]

  -- The secret of the issuer of keys.
  unfoldable pub issuer_text : Result ConfigError (Option Text)
  issuer_text = elim (e.var (text "RESERVE_KEY_ISSUER_SECRET_FILE")) [
    | none ↦ ok (e.var (text "RESERVE_KEY_ISSUER_SECRET"))
    | some path ↦ (do
      secret ← or_invalid (text "RESERVE_KEY_ISSUER_SECRET_FILE") (e.read_to_string path)
      ok (some secret))
  ]

  abbrev pub issuer_of : Option Text → Result ConfigError (Option KeyIssuer)
  issuer_of none = ok none
  issuer_of (some secret) = do
    issuer ← or_invalid (text "RESERVE_KEY_ISSUER_SECRET") (issuer_new t secret)
    ok (some issuer)

  abbrev pub public_of : Option Text → Option KeyIssuer → Option Text
  public_of (some hex) issuer = some hex
  public_of none (some issuer) = some (public_key_hex t issuer)
  public_of none none = none

  abbrev pub is_true : Option Text → Bool
  is_true none = false
  is_true (some v) = text_eq v (text "true")

  unfoldable pub shared_from_env : Result ConfigError Shared
  shared_from_env = do
    raw ← quote_key_text
    let quote_key = trim raw
    fail_if (ltb (length quote_key) 32)
        (invalid (text "RESERVE_QUOTE_KEY") (text "needs at least 32 bytes"))
    secret ← issuer_text
    key_issuer ← issuer_of secret
    margin_bps ← env_u32 e (text "RESERVE_MARGIN_BPS") 2_000
    slippage_bps ← env_u32 e (text "RESERVE_SLIPPAGE_BPS") 100
    validity_ledgers ← env_u32 e (text "RESERVE_QUOTE_LEDGERS") 12
    min_charge_stroops ← env_i64 e (text "RESERVE_MIN_CHARGE_STROOPS") (pos 56_000)
    anon_per_minute ← env_u32 e (text "RESERVE_RATE_ANON_PER_MIN") 30
    keyed_per_minute ← env_u32 e (text "RESERVE_RATE_KEYED_PER_MIN") 600
    global_per_minute ← env_u32 e (text "RESERVE_RATE_GLOBAL_PER_MIN") 3_000
    ok (record {
      bind = var_or (e.var (text "RESERVE_BIND")) (text "0.0.0.0:8080");
      quote_key = quote_key;
      pricing = record {
        margin_bps = margin_bps;
        slippage_bps = slippage_bps;
        validity_ledgers = validity_ledgers;
        min_charge_stroops = min_charge_stroops;
      };
      limits = record {
        anon_per_minute = anon_per_minute;
        keyed_per_minute = keyed_per_minute;
        global_per_minute = global_per_minute;
      };
      key_issuer = key_issuer;
      issuer_public = public_of (e.var (text "RESERVE_KEY_ISSUER_PUBKEY")) key_issuer;
      trust_proxy = is_true (e.var (text "RESERVE_TRUST_PROXY"));
    })

  -- A lane of a sponsor's secret.
  unfoldable pub lane_of : Shared → Text → Text → LaneKeys → Text → Result ConfigError Config
  lane_of shared passphrase default_horizon keys secret = do
    channels ← parse_channel_secrets keys.channels_key keys.channels_file
    build_lane t k shared passphrase secret (var_or (e.var keys.horizon_key) default_horizon)
        (var_or (e.var keys.tokens_key) (text "")) channels keys.secret_key keys.tokens_key

  unfoldable pub lane_from_prefix :
      Shared → Text → Text → LaneKeys → Result ConfigError (Option Config)
  lane_from_prefix shared passphrase default_horizon keys = do
    secret ← optional_secret e keys.secret_key keys.secret_file
    elim secret [
      | none ↦ ok none
      | some s ↦ (do config ← lane_of shared passphrase default_horizon keys s; ok (some config))
    ]

  unfoldable pub legacy_lane : Shared → Result ConfigError Lane
  legacy_lane shared = do
    network ← network_named (var_or (e.var (text "RESERVE_NETWORK")) (text "testnet"))
    answer ← optional_secret e legacy_keys.secret_key legacy_keys.secret_file
    secret ← ok_or answer (missing (text "RESERVE_SPONSOR_SECRET"))
    config ← lane_of shared network.1 network.2 legacy_keys secret
    ok (record { slug = network.0; config = config })

  -- `if lanes.is_empty()`
  abbrev pub or_legacy : Shared → List Lane → Result ConfigError (List Lane)
  or_legacy shared [] = do lane ← legacy_lane shared; ok (lane ∷ [])
  or_legacy shared (lane ∷ lanes) = ok (lane ∷ lanes)

  unfoldable pub boot_from_env : Result ConfigError Boot
  boot_from_env = do
    shared ← shared_from_env
    test ← lane_from_prefix shared testnet (text "https://horizon-testnet.stellar.org") testnet_keys
    main ← lane_from_prefix shared public_network (text "https://horizon.stellar.org") mainnet_keys
    lanes ← or_legacy shared (lane_if (text "testnet") test ++ lane_if (text "mainnet") main)
    ok (record { bind = shared.bind; lanes = lanes })
