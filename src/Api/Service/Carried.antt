-- ===== src/Api/Service/Carried.antt =====
-- crates/api/src/routes.rs: the transactions inside what a service posts.
use reserve.Base.{
  ℕ, ◌≡◌, refl, ap, sym, ◌∙◌, List, [], ◌∷◌, Option, none, some, ℤ, Text, text, text_eq, Result, ok,
  err, inl, inr, Bool-cases, Option-cases, Result-cases, subst,
}
use reserve.Core.Build.{build_inner}
use reserve.Core.Build.Inner.{IsInner, build_inner-IsInner}
use reserve.Core.Plan.{Mode, sponsored, bootstrap}
use reserve.Core.Quote.{Quote, open_quote, tx_source}
use reserve.Core.Validate.Accept.{check_signed_inner_iff}
use reserve.Core.Xdr as Xdr
use reserve.Signer.{Sponsor, co_sign, wrap_fee_bump}
use reserve.Signer.Envelope.{wrap_fee_bump-IsBump, co_sign_appends}
use reserve.Api.Channels.{Lane, signer}
use reserve.Api.Config.{Config}
use reserve.Api.Error.{ApiError, bad_request, of_signer, or_fail, or_fail-eq-ok}
use reserve.Api.State.{Crates, Moment, Service}
use reserve.Api.Service.{Reaches}
use reserve.Api.Service.Invariant.{
  Submission, Posts, none_yet, withheld, one_more, Reaches-IsServing,
}
use reserve.Api.Submit.{
  SubmitRequest, signed_v1, sign_channel, bump_signed, and_bump, and_sponsor, sign_bootstrap,
  envelope_of,
}
use reserve.Api.Submit.Posts.{IsChecked}

-- The transaction that an envelope asks the network to apply.
abbrev pub carried : Xdr.TransactionEnvelope → Option Xdr.Transaction
carried (Xdr.tx_v0 bytes) = none
carried (Xdr.tx v) = some v.tx
carried (Xdr.tx_fee_bump bump) = some bump.tx.inner_tx.tx

module _ (o : Crates) (config : Config) (q : Quote) where
  bumped-carried :
      (v : Xdr.TransactionV1Envelope) (base : ℤ) (e : Xdr.TransactionEnvelope)
      → or_fail of_signer (wrap_fee_bump o.payloads config.sponsor v base q.network) ≡ ok e
      → carried e ≡ some v.tx
  bumped-carried v base e h =
      let b =
        wrap_fee_bump-IsBump o.payloads config.sponsor v base q.network e (or_fail-eq-ok _ _ h) in
      ap carried b.envelope

  co_signed-carried :
      (s : Sponsor) (v : Xdr.TransactionV1Envelope) (e : Xdr.TransactionEnvelope)
      → or_fail of_signer (co_sign o.payloads s v q.network) ≡ ok e
      → carried e ≡ some v.tx
  co_signed-carried s v e h =
      let (bytes, payload, envelope, bound) =
        co_sign_appends o.payloads s v q.network e (or_fail-eq-ok _ _ h) in
      ap carried envelope

  -- A signature on a version-one envelope leaves a version-one envelope.
  signed_v1-carried :
      (e : Xdr.TransactionEnvelope) (v : Xdr.TransactionV1Envelope)
      → signed_v1 e ≡ ok v
      → carried e ≡ some v.tx
  signed_v1-carried (Xdr.tx_v0 bytes) v h = cc
  signed_v1-carried (Xdr.tx w) v h = cc
  signed_v1-carried (Xdr.tx_fee_bump bump) v h = cc

  sponsored-carried :
      (r : Result ApiError Xdr.TransactionV1Envelope) (tx : Xdr.Transaction)
      (e : Xdr.TransactionEnvelope)
      → ((v : Xdr.TransactionV1Envelope) → r ≡ ok v → v.tx ≡ tx)
      → and_sponsor o config q r ≡ ok e
      → (v : Xdr.TransactionV1Envelope) × (e ≡ Xdr.tx v) × (v.tx ≡ tx)
  sponsored-carried (ok v) tx e kept h =
      let (bytes, payload, envelope, bound) =
        co_sign_appends o.payloads config.sponsor v q.network e (or_fail-eq-ok _ _ h) in
      (_, envelope, kept v refl)
  sponsored-carried (err f) tx e kept h = cc

  and_bump-carried :
      (r : Result ApiError Xdr.TransactionEnvelope) (base : ℤ) (tx : Xdr.Transaction)
      (e : Xdr.TransactionEnvelope)
      → ((f : Xdr.TransactionEnvelope)
          → r ≡ ok f
          → (v : Xdr.TransactionV1Envelope) × (f ≡ Xdr.tx v) × (v.tx ≡ tx))
      → and_bump o config q base r ≡ ok e
      → carried e ≡ some tx
  and_bump-carried (ok f) base tx e kept h =
      let (v, is_v1, same) = kept f refl in
      bumped-carried v base e (subst (λ f. bump_signed o config q base f ≡ ok e) is_v1 h)
      ∙ ap some same
  and_bump-carried (err f) base tx e kept h = cc

  sign_channel-tx :
      (lanes : List Lane) (inner v : Xdr.TransactionV1Envelope)
      → sign_channel o lanes q inner ≡ ok v
      → v.tx ≡ inner.tx
  unfolding sign_channel
  sign_channel-tx lanes inner v h = elim (Option-cases (signer lanes (tx_source q))) [
    | inl e₁ ↦
        let refused : sign_channel o lanes q inner
            ≡ err (
                bad_request (text "unknown_channel")
                  (text "this quote's channel is not configured here")) =
          rw (sign_channel, e₁) refl in
        cc
    | inr (channel, e₁) ↦
        elim (Result-cases (or_fail of_signer (co_sign o.payloads channel inner q.network))) [
          | inl (signed, e₂) ↦
              let out : sign_channel o lanes q inner ≡ signed_v1 signed =
                rw (sign_channel, e₁, e₂) refl in
              let same : some v.tx ≡ some inner.tx =
                sym (signed_v1-carried signed v (sym out ∙ h))
                ∙ co_signed-carried channel inner signed e₂ in
              cc
          | inr (f, e₂) ↦
              let refused : sign_channel o lanes q inner ≡ err f = rw (sign_channel, e₁, e₂) refl in
              cc
        ]
  ]

  envelope_of-carried :
      (mode : Mode) (lanes : List Lane) (inner : Xdr.TransactionV1Envelope) (base : ℤ)
      (e : Xdr.TransactionEnvelope)
      → envelope_of o mode config lanes q inner base ≡ ok e
      → carried e ≡ some inner.tx
  unfolding sign_bootstrap
  envelope_of-carried sponsored lanes inner base e h = bumped-carried inner base e h
  envelope_of-carried bootstrap lanes inner base e h =
      elim (Bool-cases (text_eq (tx_source q) q.sponsor)) [
        | inl own ↦
            let out : sign_bootstrap o config lanes q inner base
                ≡ and_sponsor o config q (ok inner) =
              rw own refl in
            let (v, is_v1, same) =
              sponsored-carried (ok inner) inner.tx e (λ v k. cc) (sym out ∙ h) in
            ap carried is_v1 ∙ ap some same
        | inr other ↦
            let signed = and_sponsor o config q (sign_channel o lanes q inner) in
            let out : sign_bootstrap o config lanes q inner base ≡ and_bump o config q base signed =
              rw other refl in
            and_bump-carried signed base inner.tx e
              (λ f.
                sponsored-carried (sign_channel o lanes q inner) inner.tx f
                  (sign_channel-tx lanes inner))
              (sym out ∙ h)
      ]

module _ (o : Crates) where
  -- A text that is an envelope around what a sealed quote builds: what it carries encodes as the
  -- transaction that is built for the quote.
  pub record IsBuilt (config : Config) (xdr : Text) : Type 0 where
    pub token : Text
    pub quote : Quote
    pub sealed : open_quote o.sealing token config.quote_key ≡ ok quote
    pub envelope : Xdr.TransactionEnvelope
    pub encoded : o.envelope_to_base64 envelope ≡ ok xdr
    pub tx : Xdr.Transaction
    pub carries : carried envelope ≡ some tx
    pub expected : Xdr.Transaction
    pub built : build_inner o.decoders quote ≡ ok expected
    pub shape : IsInner o.decoders quote expected
    pub bytes : Text
    pub got : o.codec.to_base64 tx ≡ ok bytes
    pub wanted : o.codec.to_base64 expected ≡ ok bytes

  abbrev pub AllBuilt : Config → List Text → Type 0
  AllBuilt config [] = Unit
  AllBuilt config (xdr ∷ posted) = IsBuilt config xdr × AllBuilt config posted

  checked-IsBuilt :
      (config : Config) (lanes : List Lane) (req : SubmitRequest) (m : ℕ → Moment) (xdr : Text)
      → IsChecked o config lanes req m xdr
      → IsBuilt config xdr
  checked-IsBuilt config lanes req m xdr c =
      let g =
        (check_signed_inner_iff o.decoders o.codec req.signed_xdr c.quote c.params.latest_ledger
            c.inner).0
          c.gated in
      record {
        token = req.quote;
        quote = c.quote;
        sealed = c.opened;
        envelope = c.envelope;
        encoded = c.encoded;
        tx = c.inner.tx;
        carries =
            envelope_of-carried o config c.quote c.quote.mode lanes c.inner
              c.params.base_fee_stroops c.envelope c.signed;
        expected = g.expected;
        built = g.built;
        shape = build_inner-IsInner o.decoders c.quote g.expected g.built;
        bytes = g.encoded;
        got = g.got;
        wanted = g.wanted;
      }

  Posts-AllBuilt :
      {config : Config} {xs : List (Submission o)} {posted : List Text}
      → Posts o config xs posted
      → AllBuilt config posted
  Posts-AllBuilt none_yet = tt
  Posts-AllBuilt (withheld x h) = Posts-AllBuilt h
  Posts-AllBuilt {config} (one_more {xdr} x c h) =
      (checked-IsBuilt config x.lanes x.request x.moments xdr c, Posts-AllBuilt h)

  -- Whatever requests come, in whatever order, and whatever Horizon and the clock show: each text that a
  -- service has posted is the encoding of an envelope, and the transaction inside that envelope encodes
  -- as the one that `build_inner` builds for some quote that opens under the service's key.
  pub Reaches-AllBuilt :
      {config : Config} {s : Service o} → Reaches o config s → AllBuilt config s.posted
  Reaches-AllBuilt r = Posts-AllBuilt (Reaches-IsServing o r).all_checked
