-- ===== src/Api/Issue/Works.antt =====
-- A key that is handed out is believed until it expires.
use reserve.Base.{
  ℕ, ◌+◌, ◌*◌, ◌/◌, ◌≤◌, ◌<◌, ◌≡◌, refl, sym, ap, subst, ◌∙◌, true, ◌∷◌, ◌++◌, Option, some, length,
  Text, text, codes, strip_prefix, Lacks, split_once-append, Result, ok, err, ok_or, >>=-eq-ok,
  ok_or-eq-ok, arith,
}
use reserve.Core.Asset.{account_id}
use reserve.Api.Limits.{IpAddr, key}
use reserve.Api.Apikey.{IssuedKey, Tools, KeyIssuer, KeyVerifier, mint, verify}
use reserve.Api.Apikey.Verify.{verify_iff}
use reserve.Api.Auth as Auth
use reserve.Api.Error.{ApiError, api_error, of_core, or_fail, or_fail-eq-ok}
use reserve.Api.Action.{and_then-elim, lift}
use reserve.Api.State.{Crates, Moment, Service, set_limits}
use reserve.Api.Caller.{
  Headers, caller_of, caller_by, caller_with, or_else, bearer, anonymous_caller,
}
use reserve.Api.Caller.Admit.{admit-elim}
use reserve.Api.Issue.{IssueKeyResponse, issue_key, proof_error, next_year_end}

-- What keys ask of their crates: base64 decodes what it encodes and writes no dot, and a signature has 64
-- bytes and verifies under the public half of its secret.
pub record IsSound (t : Tools) : Type 0 where
  pub decode-encode : (bytes : Text) → t.decode (t.encode bytes) ≡ some bytes
  pub encode-Lacks : (bytes : Text) → Lacks b'.' (t.encode bytes)
  pub size : (secret payload : Text) → length (t.sign secret payload) ≡ 64
  pub signed :
      (secret payload : Text)
      → t.verify_strict (t.verifying_key secret) payload (t.sign secret payload) ≡ true

strip_cav : (s : Text) → strip_prefix (codes "cav_") (codes "cav_" ++ s) ≡ some s
unfolding strip_prefix
strip_cav s = refl

-- A minted key verifies for its network until it expires.
mint_verifies :
    (t : Tools) (issuer : KeyIssuer) (v : KeyVerifier) (id token : Text) (expires_at now : ℕ)
    → IsSound t
    → v.issuer ≡ some (t.verifying_key issuer.signing)
    → ((payload : Text)
        → t.to_json (record { id = id; network = some v.network; expires_at = some expires_at })
          ≡ ok payload
        → t.from_json payload
          ≡ some (record { id = id; network = some v.network; expires_at = some expires_at }))
    → mint t issuer (record { id = id; network = some v.network; expires_at = some expires_at })
      ≡ ok token
    → now < expires_at
    → verify t v token now
      ≡ ok (record { id = id; network = some v.network; expires_at = some expires_at })
unfolding mint
mint_verifies t issuer v id token expires_at now sound half reads h current =
    let k : IssuedKey = record {
      id = id;
      network = some v.network;
      expires_at = some expires_at;
    } in
    let (payload, e₁, h₁) = >>=-eq-ok (t.to_json k) _ h in
    let signature = t.sign issuer.signing payload in
    let body = t.encode payload ++ b'.' ∷ t.encode signature in
    let e : codes "cav_" ++ body ≡ token = token_of h₁ in
    (verify_iff t v token now k).1 (record {
      issuer = t.verifying_key issuer.signing;
      body = body;
      payload_b64 = t.encode payload;
      sig_b64 = t.encode signature;
      payload = payload;
      signature = signature;
      has_issuer = half;
      prefixed = ap (strip_prefix (codes "cav_")) (sym e) ∙ strip_cav body;
      parts =
          split_once-append b'.' (t.encode payload) (t.encode signature)
            (sound.encode-Lacks payload);
      payload_decoded = sound.decode-encode payload;
      signature_decoded = sound.decode-encode signature;
      size = sound.size issuer.signing payload;
      verified = sound.signed issuer.signing payload;
      key_read = reads payload e₁;
      current = current;
      network = refl;
    })
  where
    token_of : {a b : Text} → ◌≡◌ {A = Result Text Text} (ok a) (ok b) → a ≡ b
    token_of h = cc

module _ (o : Crates) where
  -- What stands behind a key that is handed out.
  record IsIssued (s : Service o) (signed_xdr : Text) (m : ℕ → Moment) (issuer : KeyIssuer)
      (response : IssueKeyResponse) : Type 0 where
    proved :
        Auth.verify o.auth_tools signed_xdr s.app.config.quote_key s.app.config.network_passphrase
          (m 1).secs
        ≡ ok response.id
    expiry : response.expires_at ≡ next_year_end (m 2).secs
    minted :
        mint o.tools issuer (record {
          id = response.id;
          network = some s.app.config.network_passphrase;
          expires_at = some response.expires_at;
        })
        ≡ ok response.key

  issue_key_sound :
      (headers : Headers) (peer : Option IpAddr) (signed_xdr : Text) (m : ℕ → Moment)
      (s : Service o) (issuer : KeyIssuer) (response : IssueKeyResponse)
      → s.app.config.key_issuer ≡ some issuer
      → (issue_key o headers peer signed_xdr m s).0 ≡ ok response
      → IsIssued s signed_xdr m issuer response
  unfolding issue_key set_limits
  issue_key_sound headers peer signed_xdr m s issuer response known =
      admit-elim o headers peer (m 0).secs s _ P (λ e s' same. stop e s')
        (λ l.
          and_then-elim
            (lift
              (ok_or s.app.config.key_issuer (
                api_error 503 (text "issuing_disabled")
                  (text "this deployment does not hand out keys")))
              (set_limits o l s))
            _ P (λ e f. stop e (set_limits o l s))
            (λ i e₁.
              and_then-elim
                (lift
                  (or_fail proof_error (
                    Auth.verify o.auth_tools signed_xdr s.app.config.quote_key
                      s.app.config.network_passphrase (m 1).secs))
                  (set_limits o l s))
                _ P (λ e f. stop e (set_limits o l s))
                (λ id proved.
                  and_then-elim
                    (lift (or_fail of_core (account_id o.decoders id)) (set_limits o l s)) _ P
                    (λ e f. stop e (set_limits o l s))
                    (λ account e₂.
                      and_then-elim
                        (lift
                          (or_fail (api_error 500 (text "issuing")) (
                            mint o.tools i (record {
                              id = id;
                              network = some s.app.config.network_passphrase;
                              expires_at = some (next_year_end (m 2).secs);
                            })))
                          (set_limits o l s))
                        _ P (λ e f. stop e (set_limits o l s))
                        (λ token minted same.
                          subst (IsIssued s signed_xdr m issuer) (response-injective same) (record {
                            proved = or_fail-eq-ok _ _ proved;
                            expiry = refl;
                            minted =
                                subst
                                  (λ j.
                                    mint o.tools j (record {
                                      id = id;
                                      network = some s.app.config.network_passphrase;
                                      expires_at = some (next_year_end (m 2).secs);
                                    })
                                    ≡ ok token)
                                  (issuer_of (ok_or-eq-ok _ _ e₁) known) (or_fail-eq-ok _ _ minted);
                          }))))))
    where
      P : Result ApiError IssueKeyResponse × Service o → Type 0
      P x = x.0 ≡ ok response → IsIssued s signed_xdr m issuer response

      stop : (e : ApiError) (s' : Service o) → P (err e, s')
      stop e s' h = cc

      issuer_of : {i : Option KeyIssuer} {a b : KeyIssuer} → i ≡ some a → i ≡ some b → a ≡ b
      issuer_of h g = cc

      response-injective :
          {r r' : IssueKeyResponse}
          → ◌≡◌ {A = Result ApiError IssueKeyResponse} (ok r) (ok r')
          → r ≡ r'
      response-injective h = cc

  -- A key that the service hands out is the key of the address that the signed challenge proved. It runs
  -- until a year after it was issued at most, and until it expires whoever shows it as `x-api-key` is
  -- that address to the service. This asks that the service verifies with the public half of the
  -- issuer's secret and for its own network, that the JSON of the key reads back as the key, and that base64
  -- and signatures do what they promise.
  pub issued_key_works :
      (headers shown : Headers) (peer peer' : Option IpAddr) (signed_xdr : Text) (m : ℕ → Moment)
      (s : Service o) (issuer : KeyIssuer) (response : IssueKeyResponse) (later : ℕ)
      → s.app.config.key_issuer ≡ some issuer
      → s.app.config.keys.issuer ≡ some (o.tools.verifying_key issuer.signing)
      → s.app.config.network_passphrase ≡ s.app.config.keys.network
      → IsSound o.tools
      → ((payload : Text)
          → o.tools.to_json (record {
            id = response.id;
            network = some s.app.config.keys.network;
            expires_at = some response.expires_at;
          })
            ≡ ok payload
          → o.tools.from_json payload
            ≡ some (record {
              id = response.id;
              network = some s.app.config.keys.network;
              expires_at = some response.expires_at;
            }))
      → (issue_key o headers peer signed_xdr m s).0 ≡ ok response
      → shown (text "x-api-key") ≡ some response.key
      → later < response.expires_at
      → (Auth.verify o.auth_tools signed_xdr s.app.config.quote_key s.app.config.network_passphrase
            (m 1).secs
          ≡ ok response.id)
        × ((m 2).secs < response.expires_at)
        × (response.expires_at ≤ (m 2).secs + 31_536_000)
        × (caller_of o s.app.config shown peer' later ≡ key response.id)
  unfolding caller_of next_year_end
  issued_key_works headers shown peer peer' signed_xdr m s issuer response later known half here
        sound reads h presented current =
      let i = issue_key_sound headers peer signed_xdr m s issuer response known h in
      let expiry : response.expires_at ≡ ((m 2).secs / 31_536_000 + 1) * 31_536_000 = i.expiry in
      let minted =
        subst
          (λ n.
            mint o.tools issuer
              (record { id = response.id; network = some n; expires_at = some response.expires_at })
            ≡ ok response.key)
          here i.minted in
      let v =
        mint_verifies o.tools issuer s.app.config.keys response.id response.key response.expires_at
          later sound half reads minted current in
      let other = anonymous_caller o s.app.config shown peer' in
      let shows =
        ap
          (λ header.
            caller_by o s.app.config later other
              (or_else header (bearer (shown (text "authorization")))))
          presented
        ∙ ap (λ answer. caller_with o answer other) v in
      (i.proved, omega arith, omega arith, shows)
