-- ===== src/Api/Config/Examples.antt =====
-- An environment with a sponsor on both networks, and one that opens the public network.
use reserve.Base.{
  map, ◌≡◌, ◌≢◌, false, refl, List, [], ◌∷◌, Option, none, some, if◌then◌else◌, replicate, Text,
  text, text_eq, split_on, trim, Result, ok, err,
}
use reserve.Signer.Keys.{KeyTools, from_strkey}
use reserve.Core.Tokens.{
  Allowlist, only, allowlist_parse, pieces, known_tokens, token_canonical, any, testnet,
  public_network,
}
use reserve.Core.Pricing.{default_config}
use reserve.Api.Limits.{default_limits}
use reserve.Api.Apikey.{Tools, verifier_new}
use reserve.Api.Config.{
  Lane, Boot, ConfigError, invalid, Environment, env_u32, env_i64, optional_secret, channel_text,
  split_lines, sponsors_of, build_lane,
}
use reserve.Api.Config.Start.{
  boot_from_env, shared_from_env, quote_key_text, issuer_text, parse_channel_secrets, lane_of,
  lane_from_prefix, legacy_lane, network_named,
}
use reserve.Api.Config.Safe.{AllSafe, boot_from_env-AllSafe}

abbrev key_tools : KeyTools
key_tools = record {
  from_seed_bytes = λ seed. record { public_key_bytes = seed; sign = λ hash. hash };
  private_key = λ s. some s;
  public_key_text = λ s. s;
  hmac_sha512 = λ key message. message;
}

abbrev tools : Tools
tools = record {
  to_json = λ k. ok (text "json");
  from_json = λ s. none;
  encode = λ s. s;
  decode = λ s. some s;
  hex_encode = λ s. s;
  hex_decode = λ s. some s;
  verifying_key = λ s. s;
  public_key = λ s. ok s;
  sign = λ secret payload. payload;
  verify_strict = λ issuer payload signature. false;
}

-- The value of a variable in a list of them.
abbrev lookup : List (Text × Text) → Text → Option Text
lookup [] key = none
lookup (v ∷ vars) key = let rest = lookup vars key in if text_eq v.0 key then some v.1 else rest

abbrev environment : List (Text × Text) → Environment
environment vars = record {
  var = lookup vars;
  read_to_string = λ path. err (text "No such file or directory");
}

abbrev both : List (Text × Text)
both =
    (text "RESERVE_QUOTE_KEY", replicate 32 b'k')
    ∷ (text "RESERVE_TESTNET_SPONSOR_SECRET", text "SA")
    ∷ (text "RESERVE_TESTNET_TOKENS", text "*")
    ∷ (text "RESERVE_MAINNET_SPONSOR_SECRET", text "SB")
    ∷ []

-- The wildcard on the public network.
abbrev opened : List (Text × Text)
opened = (text "RESERVE_MAINNET_TOKENS", text " * ") ∷ both

abbrev slugs_of : List Lane → List Text
slugs_of [] = []
slugs_of (lane ∷ lanes) = lane.slug ∷ slugs_of lanes

abbrev slugs : Result ConfigError Boot → List Text
slugs (ok boot) = slugs_of boot.lanes
slugs (err e) = []

two_networks :
    slugs (boot_from_env (environment both) tools key_tools) ≡ text "testnet" ∷ text "mainnet" ∷ []
unfolding boot_from_env shared_from_env quote_key_text issuer_text parse_channel_secrets lane_of
    lane_from_prefix legacy_lane network_named env_u32 env_i64 optional_secret channel_text
    split_lines sponsors_of build_lane from_strkey verifier_new allowlist_parse pieces known_tokens
    trim split_on text text_eq
two_networks = refl

not_opened :
    boot_from_env (environment opened) tools key_tools
    ≡ err (
        invalid
          (text "RESERVE_MAINNET_TOKENS")
          (text "the wildcard is not accepted on mainnet: name the assets to accept"))
unfolding boot_from_env shared_from_env quote_key_text issuer_text parse_channel_secrets lane_of
    lane_from_prefix legacy_lane network_named env_u32 env_i64 optional_secret channel_text
    split_lines sponsors_of build_lane from_strkey verifier_new allowlist_parse pieces known_tokens
    trim split_on text text_eq
not_opened = refl

abbrev lane_on : Text → Text → Text → Text → Allowlist → Lane
lane_on slug passphrase horizon_url secret allowlist = record {
  slug = slug;
  config = record {
    network_passphrase = passphrase;
    horizon_url = horizon_url;
    sponsor = key_tools.from_seed_bytes secret;
    quote_key = replicate 32 b'k';
    pricing = default_config;
    token_allowlist = allowlist;
    limits = default_limits;
    keys = record { issuer = none; network = passphrase };
    key_issuer = none;
    trust_proxy = false;
    channel_secrets = [];
  };
}

abbrev both_boot : Boot
both_boot = record {
  bind = text "0.0.0.0:8080";
  lanes =
      lane_on (text "testnet") testnet (text "https://horizon-testnet.stellar.org") (text "SA") any
      ∷ lane_on (text "mainnet") public_network (text "https://horizon.stellar.org") (text "SB")
          (only (map token_canonical (known_tokens public_network)))
      ∷ [];
}

both_boots : boot_from_env (environment both) tools key_tools ≡ ok both_boot
unfolding boot_from_env shared_from_env quote_key_text issuer_text parse_channel_secrets lane_of
    lane_from_prefix legacy_lane network_named env_u32 env_i64 optional_secret channel_text
    split_lines sponsors_of build_lane from_strkey verifier_new allowlist_parse pieces known_tokens
    trim split_on text text_eq
both_boots = refl

boot_from_env-AllSafe_example : (both_boot.lanes ≢ []) × AllSafe tools both_boot.lanes
boot_from_env-AllSafe_example = boot_from_env-AllSafe (environment both) tools key_tools both_boots
