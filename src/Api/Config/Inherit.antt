-- ===== src/Api/Config/Inherit.antt =====
-- What the configuration of a lane takes from its network and from what the lanes share.
use reserve.Base.{
  ◌≡◌, ◌≢◌, refl, sym, ap, subst, false, ◌&&◌, List, Option, none, some, Text, text, text_eq,
  eq→text_eq, trim, Result, ok, err, ok_or, fail_if, ◌>>=◌, >>=-eq-ok, fail_if-eq-ok,
}
use reserve.Core.Tokens.{Allowlist, only, any, allowlist_parse, public_network}
use reserve.Signer.{Sponsor}
use reserve.Signer.Keys.{KeyTools, from_strkey}
use reserve.Api.Apikey.{Tools, KeyVerifier, verifier_new, sized}
use reserve.Api.Config.{
  Config, ConfigError, invalid, Shared, Environment, or_invalid, sponsor_of, is_any, build_lane,
  var_or, optional_secret,
}
use reserve.Api.Config.Start.{LaneKeys, parse_channel_secrets, lane_of, lane_from_prefix}

or_invalid-eq-ok :
    {A : Type 0} (key : Text) (r : Result Text A) {a : A} → or_invalid key r ≡ ok a → r ≡ ok a
or_invalid-eq-ok key (ok b) h = cc
or_invalid-eq-ok key (err e) h = cc

pub ok-injective : {E A : Type 0} {a b : A} → ◌≡◌ {A = Result E A} (ok a) (ok b) → a ≡ b
ok-injective h = cc

verifier_new-network :
    (t : Tools) (o : Option Text) (network : Text) {v : KeyVerifier}
    → verifier_new t o network ≡ ok v
    → v.network ≡ network
unfolding verifier_new
verifier_new-network t none network h = sym (ap (λ (v : KeyVerifier). v.network) (ok-injective h))
verifier_new-network t (some hex) network h =
    let (bytes, e₁, h₁) =
      >>=-eq-ok (ok_or (t.hex_decode (trim hex)) (text "issuer public key is not hex")) _ h in
    let (array, e₂, h₂) =
      >>=-eq-ok (ok_or (sized 32 bytes) (text "issuer public key must be 32 bytes")) _ h₁ in
    let (key, e₃, h₃) = >>=-eq-ok (t.public_key array) _ h₂ in
    sym (ap (λ (v : KeyVerifier). v.network) (ok-injective h₃))

-- A list that passes the test of `build_lane`.
names_tokens_of :
    (a : Allowlist) (passphrase : Text)
    → is_any a && text_eq passphrase public_network ≡ false
    → passphrase ≡ public_network
    → a ≢ any
names_tokens_of any passphrase h same e = let t = eq→text_eq passphrase public_network same in cc
names_tokens_of (only list) passphrase h same e = cc

-- What a lane's configuration takes from its network and the shared part.
pub record IsLaneOf (shared : Shared) (passphrase : Text) (c : Config) : Type 0 where
  pub quote_key : c.quote_key ≡ shared.quote_key
  pub network : c.network_passphrase ≡ passphrase
  pub names_tokens : passphrase ≡ public_network → c.token_allowlist ≢ any
  pub own_keys : c.keys.network ≡ passphrase

module _ (e : Environment) (t : Tools) (k : KeyTools) where
  build_lane-IsLaneOf :
      (shared : Shared) (passphrase secret url tokens : Text) (channels : List Sponsor)
      (secret_key tokens_key : Text) {c : Config}
      → build_lane t k shared passphrase secret url tokens channels secret_key tokens_key ≡ ok c
      → IsLaneOf shared passphrase c
  unfolding build_lane
  build_lane-IsLaneOf shared passphrase secret url tokens channels secret_key tokens_key {c} h =
      let (sponsor, e₁, h₁) = >>=-eq-ok (sponsor_of secret_key (from_strkey k (trim secret))) _ h in
      let (u, e₂, h₂) =
        >>=-eq-ok
          (fail_if (is_any (allowlist_parse tokens passphrase) && text_eq passphrase public_network)
            (invalid tokens_key
              (text "the wildcard is not accepted on mainnet: name the assets to accept")))
          _ h₁ in
      let (keys, e₃, h₃) =
        >>=-eq-ok
          (or_invalid (text "RESERVE_KEY_ISSUER_PUBKEY")
            (verifier_new t shared.issuer_public passphrase))
          _ h₂ in
      subst (IsLaneOf shared passphrase) (ok-injective h₃) (record {
        quote_key = refl;
        network = refl;
        names_tokens =
            names_tokens_of (allowlist_parse tokens passphrase) passphrase (fail_if-eq-ok _ _ e₂);
        own_keys = verifier_new-network t shared.issuer_public passphrase (or_invalid-eq-ok _ _ e₃);
      })

  pub lane_of-IsLaneOf :
      (shared : Shared) (passphrase url : Text) (keys : LaneKeys) (secret : Text) {c : Config}
      → lane_of e t k shared passphrase url keys secret ≡ ok c
      → IsLaneOf shared passphrase c
  unfolding lane_of
  lane_of-IsLaneOf shared passphrase url keys secret h =
      let (channels, e₁, h₁) =
        >>=-eq-ok (parse_channel_secrets e t k keys.channels_key keys.channels_file) _ h in
      build_lane-IsLaneOf shared passphrase secret (var_or (e.var keys.horizon_key) url)
        (var_or (e.var keys.tokens_key) (text "")) channels keys.secret_key keys.tokens_key h₁

  pub lane_from_prefix-IsLaneOf :
      (shared : Shared) (passphrase url : Text) (keys : LaneKeys) {c : Config}
      → lane_from_prefix e t k shared passphrase url keys ≡ ok (some c)
      → IsLaneOf shared passphrase c
  unfolding lane_from_prefix
  lane_from_prefix-IsLaneOf shared passphrase url keys {c} h =
      let (secret, e₁, h₁) = >>=-eq-ok (optional_secret e keys.secret_key keys.secret_file) _ h in
      of_secret secret h₁
    where
      of_secret :
          (secret : Option Text)
          → ◌≡◌ {A = Result ConfigError (Option Config)}
              (elim secret [
                | none ↦ ok none
                | some s ↦ (do
                  config ← lane_of e t k shared passphrase url keys s
                  ok (some config))
              ])
              (ok (some c))
          → IsLaneOf shared passphrase c
      of_secret none g = cc
      of_secret (some s) g =
          let (config, e₂, h₂) = >>=-eq-ok (lane_of e t k shared passphrase url keys s) _ g in
          let same : config ≡ c = cc in
          subst (IsLaneOf shared passphrase) same (lane_of-IsLaneOf shared passphrase url keys s e₂)
