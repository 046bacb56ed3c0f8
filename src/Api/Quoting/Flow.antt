-- ===== src/Api/Quoting/Flow.antt =====
-- From a quote to a transaction that passes the gate.
use reserve.Base.{
  ℕ, ◌≤◌, ◌≡◌, ◌≢◌, sym, ap, ◌∙◌, List, [], Option, Text, text, Result, ok, ok_or, err,
}
use reserve.Core.Quote.{Quote, open_quote}
use reserve.Core.Quote.Seal.{IsCodec, open-seal_read}
use reserve.Core.Error.{Error}
use reserve.Core.Build.{build_inner}
use reserve.Core.Validate.{check_signed_inner}
use reserve.Core.Validate.Accept.{check_signed_inner_iff}
use reserve.Core.Xdr as Xdr
use reserve.Api.Limits.{IpAddr}
use reserve.Api.Error.{ApiError, api_error, of_core, or_fail, or_fail-eq-ok}
use reserve.Api.Action.{and_then-elim, lift}
use reserve.Api.State.{Crates, Moment, Service, set_limits, sponsor_address}
use reserve.Api.Caller.{Headers}
use reserve.Api.Caller.Admit.{admit-elim}
use reserve.Api.Quoting.{QuoteRequest, QuoteResponse, BuildResponse, quote_of, quote, build}
use reserve.Api.Quoting.Sound.{IsQuoted, Leases}
use reserve.Api.Quoting.Answer.{quote-Ends}

module _ (o : Crates) where
  -- The quote behind an answer.
  abbrev pub quoted_of :
      (s : Service o) (req : QuoteRequest) (m : ℕ → Moment) (response : QuoteResponse)
      → IsQuoted o s req m response
      → Quote
  quoted_of s req m response q =
      quote_of s.app.config (sponsor_address o s.app.config) req q.fee_token q.plan q.params q.cost
        q.at (m 6).secs

  -- If base64 decodes what it encodes and writes no dot, then a quote that is answered stands on a fee token
  -- of the request that is read and accepted, in bootstrap too, a plan of the request, a price, claims that
  -- held and a place in the ledger; and its text opens, under the service's key, as what the JSON of the
  -- quote of just these reads back as.
  -- Quoting posts nothing, keeps the configuration, and leases one lane at most.
  pub quote_opens :
      (headers : Headers) (peer : Option IpAddr) (req : QuoteRequest) (m : ℕ → Moment)
      (s : Service o) (response : QuoteResponse)
      → IsCodec o.sealing
      → (quote o headers peer req m s).0 ≡ ok response
      → Leases o s (quote o headers peer req m s).1
        × ((q : IsQuoted o s req m response) × (payload : Text) × (o.sealing.to_json
                (quoted_of s req m response q)
              ≡ ok payload)
            × (open_quote o.sealing response.quote s.app.config.quote_key
                ≡ ok_or (o.sealing.from_json payload) Error.quote_signature))
  quote_opens headers peer req m s response laws h =
      let ends = quote-Ends o headers peer req m s in
      let q = ends.1 response h in
      let (payload, written, opens) =
        open-seal_read o.sealing (quoted_of s req m response q) s.app.config.quote_key
          response.quote laws q.sealed in
      (ends.0, (q, payload, written, opens))

  -- What stands behind an answer to `build`.
  record IsBuilt (s : Service o) (token : Text) (response : BuildResponse) : Type 0 where
    quote : Quote
    tx : Xdr.Transaction
    opened : open_quote o.sealing token s.app.config.quote_key ≡ ok quote
    built : build_inner o.decoders quote ≡ ok tx
    encoded : o.envelope_to_base64 (Xdr.tx (record { tx = tx; signatures = [] })) ≡ ok response.xdr

  build_sound :
      (headers : Headers) (peer : Option IpAddr) (token : Text) (m : ℕ → Moment) (s : Service o)
      (response : BuildResponse)
      → (build o headers peer token m s).0 ≡ ok response
      → IsBuilt s token response
  unfolding build set_limits
  build_sound headers peer token m s response =
      admit-elim o headers peer (m 0).secs s _ P (λ e s' same. stop e s')
        (λ l.
          and_then-elim
            (lift (or_fail of_core (open_quote o.sealing token s.app.config.quote_key))
              (set_limits o l s))
            _ P (λ e f. stop e (set_limits o l s))
            (λ q opened.
              and_then-elim (lift (or_fail of_core (build_inner o.decoders q)) (set_limits o l s)) _
                P (λ e f. stop e (set_limits o l s))
                (λ tx built.
                  and_then-elim
                    (lift
                      (or_fail (api_error 500 (text "xdr"))
                        (o.envelope_to_base64 (Xdr.tx (record { tx = tx; signatures = [] }))))
                      (set_limits o l s))
                    _ P (λ e f. stop e (set_limits o l s))
                    (λ xdr encoded same.
                      let shown : xdr ≡ response.xdr =
                        ap (λ (r : BuildResponse). r.xdr) (ok-injective same) in
                      record {
                        quote = q;
                        tx = tx;
                        opened = or_fail-eq-ok of_core _ opened;
                        built = or_fail-eq-ok of_core _ built;
                        encoded = or_fail-eq-ok _ _ encoded ∙ ap ok shown;
                      }))))
    where
      P : Result ApiError BuildResponse × Service o → Type 0
      P x = x.0 ≡ ok response → IsBuilt s token response

      stop : (e : ApiError) (s' : Service o) → P (err e, s')
      stop e s' h = cc

      ok-injective :
          {r r' : BuildResponse} → ◌≡◌ {A = Result ApiError BuildResponse} (ok r) (ok r') → r ≡ r'
      ok-injective h = cc

  -- What `build` answers for a token passes the gate of `submit` for that token's quote, once it is signed:
  -- this holds of any text that reads as the answered transaction with a signature, until the quote's last
  -- ledger, if the codec encodes the transaction and reads the built one back as it was written.
  pub built_passes :
      (headers : Headers) (peer : Option IpAddr) (token : Text) (m : ℕ → Moment) (s : Service o)
      (response : BuildResponse) (q : Quote) (unsigned : Xdr.TransactionV1Envelope)
      (signatures : List Xdr.DecoratedSignature) (signed encoded : Text) (ledger : ℕ)
      → (build o headers peer token m s).0 ≡ ok response
      → open_quote o.sealing token s.app.config.quote_key ≡ ok q
      → ((tx : Xdr.Transaction)
          → build_inner o.decoders q ≡ ok tx
          → o.envelope_to_base64 (Xdr.tx (record { tx = tx; signatures = [] })) ≡ ok response.xdr
          → o.codec.from_base64 response.xdr ≡ ok (Xdr.tx (record { tx = tx; signatures = [] })))
      → o.codec.from_base64 response.xdr ≡ ok (Xdr.tx unsigned)
      → o.codec.from_base64 signed ≡ ok (Xdr.tx (record unsigned { signatures = signatures }))
      → signatures ≢ []
      → o.codec.to_base64 unsigned.tx ≡ ok encoded
      → ledger ≤ q.expires_at_ledger
      → check_signed_inner o.decoders o.codec signed q ledger
        ≡ ok (record unsigned { signatures = signatures })
  built_passes headers peer token m s response q unsigned signatures signed encoded ledger h opened
        agree answered returned some_signature encodes fresh =
      let b = build_sound headers peer token m s response h in
      let quote : b.quote ≡ q = ok-injective (sym b.opened ∙ opened) in
      let built = ap (build_inner o.decoders) (sym quote) ∙ b.built in
      let tx : b.tx ≡ unsigned.tx = tx_of (sym (agree b.tx built b.encoded) ∙ answered) in
      (check_signed_inner_iff o.decoders o.codec signed q ledger
          (record unsigned { signatures = signatures })).1
        (record {
          expected = unsigned.tx;
          encoded = encoded;
          fresh = fresh;
          read = returned;
          some_signature = some_signature;
          built = built ∙ ap ok tx;
          got = encodes;
          wanted = encodes;
        })
    where
      ok-injective : {E : Type 0} {a c : Quote} → ◌≡◌ {A = Result E Quote} (ok a) (ok c) → a ≡ c
      ok-injective h = cc

      tx_of :
          {t : Xdr.Transaction} {u : Xdr.TransactionV1Envelope}
          → ◌≡◌ {A = Result Text Xdr.TransactionEnvelope}
              (ok (Xdr.tx (record { tx = t; signatures = [] })))
              (ok (Xdr.tx u))
          → t ≡ u.tx
      tx_of {t} {u} h =
          let same : record { tx = t; signatures = [] } ≡ u = cc in
          ap (λ (e : Xdr.TransactionV1Envelope). e.tx) same
