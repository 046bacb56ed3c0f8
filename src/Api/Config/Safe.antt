-- ===== src/Api/Config/Safe.antt =====
-- What every lane that the service starts with keeps.
use reserve.Base.{
  ℕ, ◌≤◌, ◌≡◌, ◌≢◌, ◌⊎◌, inl, inr, refl, sym, ap, subst, ◌∙◌, false, List, [], ◌∷◌, ◌++◌, Option,
  none, some, ltb, length, pos, Text, text, text_eq, trim, ok, ok_or, fail_if, >>=-eq-ok,
  fail_if-eq-ok, if-cases, append-nil, arith,
}
use reserve.Core.Tokens.{any, public_network, testnet}
use reserve.Signer.Keys.{KeyTools}
use reserve.Api.Apikey.{Tools, IssuedKey, verify}
use reserve.Api.Apikey.Verify.{IsFor, verify_iff}
use reserve.Api.Config.{
  Config, Lane, Boot, missing, invalid, Shared, Environment, env_u32, env_i64, var_or,
  optional_secret,
}
use reserve.Api.Config.Start.{
  testnet_keys, mainnet_keys, legacy_keys, network_named, lane_if, quote_key_text, issuer_text,
  issuer_of, shared_from_env, lane_of, lane_from_prefix, legacy_lane, or_legacy, boot_from_env,
}
use reserve.Api.Config.Inherit.{ok-injective, IsLaneOf, lane_of-IsLaneOf, lane_from_prefix-IsLaneOf}

-- The quote key has 32 bytes, the public network names its tokens, and no key that callers show is for
-- another network than the lane's.
pub record IsSafe (t : Tools) (lane : Lane) : Type 0 where
  pub long_key : 32 ≤ length lane.config.quote_key
  pub names_tokens :
      lane.config.network_passphrase ≡ public_network → lane.config.token_allowlist ≢ any
  pub own_network : lane.config.keys.network ≡ lane.config.network_passphrase
  pub own_keys :
      (token : Text) (now : ℕ) (key : IssuedKey)
      → verify t lane.config.keys token now ≡ ok key
      → IsFor key.network lane.config.network_passphrase
  pub own_name :
      (lane.slug ≡ text "testnet") × (lane.config.network_passphrase ≡ testnet)
      ⊎ (lane.slug ≡ text "mainnet") × (lane.config.network_passphrase ≡ public_network)

abbrev pub AllSafe : Tools → List Lane → Type 0
AllSafe t [] = Unit
AllSafe t (lane ∷ lanes) = IsSafe t lane × AllSafe t lanes

module _ (e : Environment) (t : Tools) (k : KeyTools) where
  shared_from_env-long_key :
      {shared : Shared} → shared_from_env e t k ≡ ok shared → 32 ≤ length shared.quote_key
  unfolding shared_from_env
  shared_from_env-long_key h =
      let (raw, e₁, h₁) = >>=-eq-ok (quote_key_text e t k) _ h in
      let (u, e₂, h₂) =
        >>=-eq-ok
          (fail_if (ltb (length (trim raw)) 32)
            (invalid (text "RESERVE_QUOTE_KEY") (text "needs at least 32 bytes")))
          _ h₁ in
      let (secret, e₃, h₃) = >>=-eq-ok (issuer_text e t k) _ h₂ in
      let (issuer, e₄, h₄) = >>=-eq-ok (issuer_of e t k secret) _ h₃ in
      let (a, e₅, h₅) = >>=-eq-ok (env_u32 e (text "RESERVE_MARGIN_BPS") 2_000) _ h₄ in
      let (b, e₆, h₆) = >>=-eq-ok (env_u32 e (text "RESERVE_SLIPPAGE_BPS") 100) _ h₅ in
      let (c, e₇, h₇) = >>=-eq-ok (env_u32 e (text "RESERVE_QUOTE_LEDGERS") 12) _ h₆ in
      let (d, e₈, h₈) =
        >>=-eq-ok (env_i64 e (text "RESERVE_MIN_CHARGE_STROOPS") (pos 56_000)) _ h₇ in
      let (f, e₉, h₉) = >>=-eq-ok (env_u32 e (text "RESERVE_RATE_ANON_PER_MIN") 30) _ h₈ in
      let (g, e₁₀, h₁₀) = >>=-eq-ok (env_u32 e (text "RESERVE_RATE_KEYED_PER_MIN") 600) _ h₉ in
      let (i, e₁₁, h₁₁) = >>=-eq-ok (env_u32 e (text "RESERVE_RATE_GLOBAL_PER_MIN") 3_000) _ h₁₀ in
      let long : ltb (length (trim raw)) 32 ≡ false = fail_if-eq-ok _ _ e₂ in
      subst (λ (s : Shared). 32 ≤ length s.quote_key) (ok-injective h₁₁) (long_enough _ long)
    where
      long_enough : (n : ℕ) → ltb n 32 ≡ false → 32 ≤ n
      long_enough n h = ground arith

  -- A lane of a network, under the network's name.
  IsSafe-of_name :
      (shared : Shared) (slug passphrase : Text) (c : Config)
      → 32 ≤ length shared.quote_key
      → (slug ≡ text "testnet") × (passphrase ≡ testnet)
        ⊎ (slug ≡ text "mainnet") × (passphrase ≡ public_network)
      → IsLaneOf shared passphrase c
      → IsSafe t (record { slug = slug; config = c })
  IsSafe-of_name shared slug passphrase c long name h = record {
    long_key = subst (λ (s : Text). 32 ≤ length s) (sym h.quote_key) long;
    names_tokens = λ same. h.names_tokens (sym h.network ∙ same);
    own_network = h.own_keys ∙ sym h.network;
    own_keys = λ token now key accepted.
        subst (IsFor key.network) (h.own_keys ∙ sym h.network)
          ((verify_iff t c.keys token now key).0 accepted).network;
    own_name =
        subst
          (λ p.
            (slug ≡ text "testnet") × (p ≡ testnet)
            ⊎ (slug ≡ text "mainnet") × (p ≡ public_network))
          (sym h.network) name;
  }

  network_named_sound :
      (name : Text) {n : Text × Text × Text}
      → network_named name ≡ ok n
      → (n.0 ≡ text "testnet") × (n.1 ≡ testnet) ⊎ (n.0 ≡ text "mainnet") × (n.1 ≡ public_network)
  unfolding network_named
  network_named_sound name h = elim (if-cases (text_eq name (text "mainnet")) h) [
    | inl main ↦
        (let same = ok-injective main.1 in inr (sym (ap (λ n. n.0) same), sym (ap (λ n. n.1) same)))
    | inr others ↦ elim (if-cases (text_eq name (text "testnet")) others.1) [
      | inl test ↦
          (let same = ok-injective test.1 in
            inl (sym (ap (λ n. n.0) same), sym (ap (λ n. n.1) same)))
      | inr neither ↦ cc
    ]
  ]

  legacy_lane-IsSafe :
      (shared : Shared) {lane : Lane}
      → 32 ≤ length shared.quote_key
      → legacy_lane e t k shared ≡ ok lane
      → IsSafe t lane
  unfolding legacy_lane
  legacy_lane-IsSafe shared {lane} long h =
      let (network, e₁, h₁) =
        >>=-eq-ok (network_named (var_or (e.var (text "RESERVE_NETWORK")) (text "testnet"))) _ h in
      let (answer, e₂, h₂) =
        >>=-eq-ok (optional_secret e legacy_keys.secret_key legacy_keys.secret_file) _ h₁ in
      let (secret, e₃, h₃) =
        >>=-eq-ok (ok_or answer (missing (text "RESERVE_SPONSOR_SECRET"))) _ h₂ in
      let (config, e₄, h₄) =
        >>=-eq-ok (lane_of e t k shared network.1 network.2 legacy_keys secret) _ h₃ in
      subst (IsSafe t) (ok-injective h₄) (
        IsSafe-of_name shared network.0 network.1 config long
          (network_named_sound (var_or (e.var (text "RESERVE_NETWORK")) (text "testnet")) e₁)
          (lane_of-IsLaneOf e t k shared network.1 network.2 legacy_keys secret e₄))

  lane_if-AllSafe :
      (slug : Text) (o : Option Config) (lanes : List Lane)
      → ((c : Config) → o ≡ some c → IsSafe t (record { slug = slug; config = c }))
      → AllSafe t lanes
      → AllSafe t (lane_if slug o ++ lanes)
  lane_if-AllSafe slug none lanes h all = all
  lane_if-AllSafe slug (some c) lanes h all = (h c refl, all)

  or_legacy-AllSafe :
      (shared : Shared) (lanes : List Lane) {started : List Lane}
      → 32 ≤ length shared.quote_key
      → AllSafe t lanes
      → or_legacy e t k shared lanes ≡ ok started
      → (started ≢ []) × AllSafe t started
  or_legacy-AllSafe shared [] long all h =
      let (lane, e₁, h₁) = >>=-eq-ok (legacy_lane e t k shared) _ h in
      subst (λ (ls : List Lane). (ls ≢ []) × AllSafe t ls) (ok-injective h₁)
        (λ e. cc, (legacy_lane-IsSafe shared long e₁, tt))
  or_legacy-AllSafe shared (lane ∷ lanes) long all h =
      subst (λ (ls : List Lane). (ls ≢ []) × AllSafe t ls) (ok-injective h) (λ e. cc, all)

  -- Whatever the environment holds, a service that starts has a lane, and each of its lanes has a quote
  -- key of 32 bytes at least, takes only named tokens if it is on the public network, accepts no
  -- caller's key that names another network than its own, and is called `testnet` or `mainnet` after that
  -- network.
  pub boot_from_env-AllSafe :
      {boot : Boot} → boot_from_env e t k ≡ ok boot → (boot.lanes ≢ []) × AllSafe t boot.lanes
  unfolding boot_from_env
  boot_from_env-AllSafe h =
      let (shared, e₁, h₁) = >>=-eq-ok (shared_from_env e t k) _ h in
      let long = shared_from_env-long_key e₁ in
      let (test, e₂, h₂) =
        >>=-eq-ok
          (lane_from_prefix e t k shared testnet (text "https://horizon-testnet.stellar.org")
            testnet_keys)
          _ h₁ in
      let (main, e₃, h₃) =
        >>=-eq-ok
          (lane_from_prefix e t k shared public_network (text "https://horizon.stellar.org")
            mainnet_keys)
          _ h₂ in
      let (lanes, e₄, h₄) =
        >>=-eq-ok
          (or_legacy e t k shared (lane_if (text "testnet") test ++ lane_if (text "mainnet") main))
          _ h₃ in
      subst (λ (b : Boot). (b.lanes ≢ []) × AllSafe t b.lanes) (ok-injective h₄)
        (or_legacy-AllSafe shared _ long
          (lane_if-AllSafe (text "testnet") test (lane_if (text "mainnet") main)
            (λ c same.
              IsSafe-of_name shared (text "testnet") testnet c long (inl (refl, refl))
                (lane_from_prefix-IsLaneOf e t k shared testnet _ testnet_keys (e₂ ∙ ap ok same)))
            (subst (AllSafe t) (append-nil _) (
              lane_if-AllSafe (text "mainnet") main []
                (λ c same.
                  IsSafe-of_name shared (text "mainnet") public_network c long (inr (refl, refl)) (
                    lane_from_prefix-IsLaneOf e t k shared public_network _ mainnet_keys
                      (e₃ ∙ ap ok same)))
                tt)))
          e₄)
