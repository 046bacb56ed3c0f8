-- ===== src/Api/Submit/Posts.antt =====
-- What a submission posts to the network, and what it leaves behind.
use reserve.Base.{
  ℕ, ◌≡◌, ◌⊎◌, inl, inr, refl, false, List, ◌∷◌, if◌then◌else◌, ltb_ℤ, pos, wrap_i64, Text, Result,
  ok, Bool-cases,
}
use reserve.Core.Plan.{is_bootstrap}
use reserve.Core.Claim.{ensure_claims, need_for}
use reserve.Core.Path.{ensure_quoted_path}
use reserve.Core.Pricing.{NetworkParams}
use reserve.Core.Quote.{Quote, open_quote, tx_source}
use reserve.Core.Validate.{check_signed_inner}
use reserve.Core.Xdr as Xdr
use reserve.Api.Channels.{Lane, release}
use reserve.Api.Config.{Config}
use reserve.Api.Error.{ApiError}
use reserve.Api.State.{
  Crates, Moment, Service, SponsorFunds, sponsor_funds_of, network_params, sponsor_address,
  set_channels,
}
use reserve.Api.Submit.{SubmitRequest, needed_funds, release_bootstrap, envelope_of}

-- The lanes once a quote's lane is freed.
unfoldable pub freed_by : Quote → List Lane → List Lane
freed_by q lanes = if is_bootstrap q.mode then release (tx_source q) q.sequence lanes else lanes

module _ (o : Crates) where
  -- What a request that posts a text has passed, in a lane of the service.
  pub record IsChecked (config : Config) (lanes : List Lane) (req : SubmitRequest) (m : ℕ → Moment)
      (xdr : Text) : Type 0 where
    pub quote : Quote
    pub params : NetworkParams
    pub inner : Xdr.TransactionV1Envelope
    pub funds : SponsorFunds
    pub envelope : Xdr.TransactionEnvelope
    pub opened : open_quote o.sealing req.quote config.quote_key ≡ ok quote
    pub params_read : network_params (m 1).horizon ≡ ok params
    pub claimable :
        ensure_claims
          (m 2).horizon
          quote.source
          quote.ops
          quote.mode
          (wrap_i64 (pos (m 2).secs))
          (need_for quote.mode quote.fee_token quote.send_max_stroops)
        ≡ ok tt
    pub affordable :
        ensure_quoted_path
          (m 3).horizon
          quote.source
          quote.fee_token
          quote.charge_stroops
          quote.send_max_stroops
          quote.path
        ≡ ok tt
    pub gated :
        check_signed_inner o.decoders o.codec req.signed_xdr quote params.latest_ledger ≡ ok inner
    pub funds_read :
        sponsor_funds_of (m 4).horizon (m 5).horizon (sponsor_address o config) ≡ ok funds
    pub covered :
        ltb_ℤ funds.spendable_stroops (needed_funds quote params.base_fee_stroops inner) ≡ false
    pub signed :
        envelope_of o quote.mode config lanes quote inner params.base_fee_stroops ≡ ok envelope
    pub encoded : o.envelope_to_base64 envelope ≡ ok xdr

  -- Nothing is posted, and no lane but the quote's is freed.
  pub record Kept (s s' : Service o) (token : Text) : Type 0 where
    pub config : s'.app.config ≡ s.app.config
    pub posted : s'.posted ≡ s.posted
    pub channels :
        (s'.app.channels ≡ s.app.channels)
        ⊎ ((q : Quote) × (open_quote o.sealing token s.app.config.quote_key ≡ ok q)
            × (s'.app.channels ≡ freed_by q s.app.channels))

  -- One text is posted, after every check, and the quote's lane is free.
  pub record Posted (s s' : Service o) (req : SubmitRequest) (m : ℕ → Moment) : Type 0 where
    pub xdr : Text
    pub checked : IsChecked s.app.config s.app.channels req m xdr
    pub config : s'.app.config ≡ s.app.config
    pub posted : s'.posted ≡ xdr ∷ s.posted
    pub channels : s'.app.channels ≡ freed_by checked.quote s.app.channels

  pub release_bootstrap-channels :
      (q : Quote) (s : Service o)
      → ((release_bootstrap o q s).app.channels ≡ freed_by q s.app.channels)
        × ((release_bootstrap o q s).app.config ≡ s.app.config)
        × ((release_bootstrap o q s).posted ≡ s.posted)
  unfolding release_bootstrap freed_by set_channels
  release_bootstrap-channels q s = elim (Bool-cases (is_bootstrap q.mode)) [
    | inl e ↦ rw e (refl, refl, refl)
    | inr e ↦ rw e (refl, refl, refl)
  ]

  -- An outcome that is one of the two.
  abbrev pub Ends :
      {A : Type 0}
      → Service o
      → SubmitRequest
      → (ℕ → Moment)
      → Result ApiError A × Service o
      → Type 0
  Ends s req m x = Kept s x.1 req.quote ⊎ Posted s x.1 req m
