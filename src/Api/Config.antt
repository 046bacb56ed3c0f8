-- ===== src/Api/Config.antt =====
-- crates/api/src/config.rs: what the service is started with, read from its environment.
mod Examples
pub mod Start
pub mod Inherit
pub mod Safe
use reserve.Base.{
  ℕ, Bool, true, false, not, ◌&&◌, List, [], ◌∷◌, ◌++◌, Option, none, some, ltb, ◌==◌,
  if◌then◌else◌, length, ℤ, pos, Text, text, text_eq, trim, parse_u32, parse_i64, Result, ok, err,
  ok_or, fail_if, ◌>>=◌, ◌>>◌,
}
use reserve.Core.Tokens.{Allowlist, only, any, allowlist_parse, public_network, testnet, is_empty}
use reserve.Core.Pricing.{PricingConfig}
use reserve.Signer.{Sponsor}
use reserve.Signer.Keys.{KeyTools, from_strkey}
use reserve.Api.Apikey.{Tools, KeyIssuer, KeyVerifier, issuer_new, public_key_hex, verifier_new}
use reserve.Api.Limits.{LimitsConfig}

pub record Config : Type 0 where
  pub network_passphrase : Text
  pub horizon_url : Text
  pub sponsor : Sponsor
  pub quote_key : Text
  pub pricing : PricingConfig
  pub token_allowlist : Allowlist
  pub limits : LimitsConfig
  pub keys : KeyVerifier
  pub key_issuer : Option KeyIssuer
  pub trust_proxy : Bool
  pub channel_secrets : List Sponsor

pub record Lane : Type 0 where
  pub slug : Text
  pub config : Config

pub record Boot : Type 0 where
  pub bind : Text
  pub lanes : List Lane

pub data ConfigError : Type 0 where
  missing : Text → ConfigError
  invalid : Text → Text → ConfigError

pub record Shared : Type 0 where
  pub bind : Text
  pub quote_key : Text
  pub pricing : PricingConfig
  pub limits : LimitsConfig
  pub key_issuer : Option KeyIssuer
  pub issuer_public : Option Text
  pub trust_proxy : Bool

-- The process: its environment variables that are text, and its files (an error is its message).
pub record Environment : Type 0 where
  pub var : Text → Option Text
  pub read_to_string : Text → Result Text Text

-- `unwrap_or`
abbrev pub var_or : Option Text → Text → Text
var_or none default = default
var_or (some v) default = v

-- `map_err(|e| ConfigError::Invalid(key, e))`
abbrev pub or_invalid : {A : Type 0} → Text → Result Text A → Result ConfigError A
or_invalid key (ok a) = ok a
or_invalid key (err message) = err (invalid key message)

abbrev pub sponsor_of : {E : Type 0} → Text → Result E Sponsor → Result ConfigError Sponsor
sponsor_of key (ok s) = ok s
sponsor_of key (err e) = err (invalid key (text "invalid secret seed"))

-- `filter(|s| !s.trim().is_empty())`
abbrev pub filled : Option Text → Option Text
filled none = none
filled (some s) = if is_empty (trim s) then none else some s

-- `split(|c| c == ',' || c == '\n')`
abbrev push_piece : ℕ → List Text → List Text
push_piece c [] = (c ∷ []) ∷ []
push_piece c (s ∷ ss) = (c ∷ s) ∷ ss

unfoldable pub split_lines : Text → List Text
split_lines [] = [] ∷ []
split_lines (c ∷ s) =
    let rest = split_lines s in
    if c == b',' then [] ∷ rest else if c == 10 then [] ∷ rest else push_piece c rest

module _ (e : Environment) where
  unfoldable pub env_u32 : Text → ℕ → Result ConfigError ℕ
  env_u32 key default = elim (e.var key) [
    | none ↦ ok default
    | some v ↦ ok_or (parse_u32 v) (invalid key v)
  ]

  unfoldable pub env_i64 : Text → ℤ → Result ConfigError ℤ
  env_i64 key default = elim (e.var key) [
    | none ↦ ok default
    | some v ↦ ok_or (parse_i64 v) (invalid key v)
  ]

  unfoldable pub optional_secret : Text → Text → Result ConfigError (Option Text)
  optional_secret value_key file_key = elim (e.var file_key) [
    | none ↦ ok (filled (e.var value_key))
    | some path ↦ (do secret ← or_invalid file_key (e.read_to_string path); ok (some secret))
  ]

  -- The text of the channel secrets.
  unfoldable pub channel_text : Text → Text → Result ConfigError Text
  channel_text value_key file_key = elim (e.var file_key) [
    | none ↦ ok (var_or (e.var value_key) (text ""))
    | some path ↦ or_invalid file_key (e.read_to_string path)
  ]

-- `map(trim)`, `filter` and `map(from_strkey)`, collected.
unfoldable pub sponsors_of : KeyTools → Text → List Text → Result ConfigError (List Sponsor)
sponsors_of k key [] = ok []
sponsors_of k key (s ∷ ss) =
    let rest = sponsors_of k key ss in
    if is_empty (trim s) then rest else (do
      sponsor ← sponsor_of key (from_strkey k (trim s))
      others ← rest
      ok (sponsor ∷ others))

-- `token_allowlist == Allowlist::Any`
abbrev pub is_any : Allowlist → Bool
is_any any = true
is_any (only list) = false

module _ (t : Tools) (k : KeyTools) where
  -- `build_lane`.
  unfoldable pub build_lane :
      Shared → Text → Text → Text → Text → List Sponsor → Text → Text → Result ConfigError Config
  build_lane shared passphrase secret horizon_url configured_tokens channel_secrets secret_key
        tokens_key =
      do
        sponsor ← sponsor_of secret_key (from_strkey k (trim secret))
        let token_allowlist = allowlist_parse configured_tokens passphrase
        fail_if (is_any token_allowlist && text_eq passphrase public_network) (
            invalid tokens_key
              (text "the wildcard is not accepted on mainnet: name the assets to accept"))
        keys ←
            or_invalid (text "RESERVE_KEY_ISSUER_PUBKEY")
              (verifier_new t shared.issuer_public passphrase)
        ok (record {
          network_passphrase = passphrase;
          horizon_url = horizon_url;
          sponsor = sponsor;
          quote_key = shared.quote_key;
          pricing = shared.pricing;
          token_allowlist = token_allowlist;
          limits = shared.limits;
          keys = keys;
          key_issuer = shared.key_issuer;
          trust_proxy = shared.trust_proxy;
          channel_secrets = channel_secrets;
        })
