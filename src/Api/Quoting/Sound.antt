-- ===== src/Api/Quoting/Sound.antt =====
-- What a quote that is answered promises, and what quoting leaves behind.
use reserve.Base.{
  ℕ, ◌≡◌, ◌⊎◌, inl, inr, refl, true, Option, ℤ, pos, wrap_i64, Text, text, Result, ok, err, ok_or,
  if-cases,
}
use reserve.Horizon.Asset.{Asset, canonical}
use reserve.Horizon.Records.{HorizonApi, Account}
use reserve.Core.Asset.{parse_asset}
use reserve.Core.Tokens.{allows}
use reserve.Core.Plan.{Mode, sponsored, bootstrap, Plan, plan_new}
use reserve.Core.Pricing.{NetworkParams, Cost, price}
use reserve.Core.Claim.{ensure_claims, need_for}
use reserve.Core.Quote.{seal}
use reserve.Api.Limits.{Limits}
use reserve.Api.Channels.{lease}
use reserve.Api.Config.{Config}
use reserve.Api.Error.{ApiError, api_error, of_channel, or_fail}
use reserve.Api.Action.{and_then-elim, lift}
use reserve.Api.State.{
  Crates, Moment, Service, network_params, sponsor_address, set_limits, set_channels,
}
use reserve.Api.Quoting.{
  QuoteRequest, QuoteResponse, is_some, sequence_of, check_token, quote_of, response_of, lease_lane,
  place, tx_timeout_secs,
}

module _ (o : Crates) where
  -- At most a lane is leased, and nothing is posted.
  pub record Leases (s s' : Service o) : Type 0 where
    pub config : s'.app.config ≡ s.app.config
    pub posted : s'.posted ≡ s.posted
    pub channels :
        (s'.app.channels ≡ s.app.channels)
        ⊎ ((h : HorizonApi) × (ttl : ℕ) × (now : ℕ) × (s'.app.channels
              ≡ (lease h ttl now s.app.channels).1))

  -- What stands behind an answered quote.
  pub record IsQuoted (s : Service o) (req : QuoteRequest) (m : ℕ → Moment)
      (response : QuoteResponse) : Type 0 where
    pub fee_token : Asset
    pub account : Option Account
    pub plan : Plan
    pub params : NetworkParams
    pub cost : Cost
    pub limits : Limits o.governor
    pub at : Text × ℤ
    pub token_read : parse_asset req.fee_token ≡ ok fee_token
    pub accepted : allows s.app.config.token_allowlist fee_token ≡ true
    pub account_read : (m 1).horizon.account req.source ≡ ok account
    pub planned : plan_new o.decoders req.ops (is_some account) ≡ ok plan
    pub params_read : network_params (m 2).horizon ≡ ok params
    pub priced :
        price
          (m 3).horizon
          plan
          fee_token
          req.source
          params
          s.app.config.pricing
          s.app.config.network_passphrase
        ≡ ok cost
    pub claimable :
        ensure_claims
          (m 4).horizon
          req.source
          plan.ops
          plan.mode
          (wrap_i64 (pos (m 4).secs))
          (need_for plan.mode (canonical fee_token) cost.send_max_stroops)
        ≡ ok tt
    pub placed : (place o plan.mode account (m 5) (set_limits o limits s)).0 ≡ ok at
    pub sealed :
        seal o.sealing
          (quote_of s.app.config
            (sponsor_address o s.app.config)
            req
            fee_token
            plan
            params
            cost
            at
            (m 6).secs)
          s.app.config.quote_key
        ≡ ok response.quote
    pub shown :
        response
        ≡ response_of
            (quote_of s.app.config
              (sponsor_address o s.app.config)
              req
              fee_token
              plan
              params
              cost
              at
              (m 6).secs)
            cost
            response.quote

  -- Both parts of what an answer means.
  abbrev pub Ends :
      Service o → QuoteRequest → (ℕ → Moment) → Result ApiError QuoteResponse × Service o → Type 0
  Ends s req m x =
      Leases s x.1 × ((response : QuoteResponse) → x.0 ≡ ok response → IsQuoted s req m response)

  pub limited-Leases : (s : Service o) (l : Limits o.governor) → Leases s (set_limits o l s)
  unfolding set_limits
  limited-Leases s l = record { config = refl; posted = refl; channels = inl refl }

  pub place-Leases :
      (s : Service o) (l : Limits o.governor) (mode : Mode) (account : Option Account) (m : Moment)
      → Leases s (place o mode account m (set_limits o l s)).1
  unfolding place lease_lane set_limits set_channels
  place-Leases s l sponsored account m =
      and_then-elim
        (lift
          (ok_or (sequence_of account)
            (api_error 502 (text "no_sequence") (text "cannot read sequence")))
          (set_limits o l s))
        _ (λ x. Leases s x.1) (λ e f. record { config = refl; posted = refl; channels = inl refl })
        (λ n f. record { config = refl; posted = refl; channels = inl refl })
  place-Leases s l bootstrap account m =
      let lanes = lease m.horizon (o.from_secs tx_timeout_secs) m.instant s.app.channels in
      and_then-elim (or_fail of_channel lanes.0, set_channels o lanes.1 (set_limits o l s)) _
        (λ x. Leases s x.1)
        (λ e f. record { config = refl; posted = refl; channels = inr (_, _, _, refl) })
        (λ at f. record { config = refl; posted = refl; channels = inr (_, _, _, refl) })

  pub failed :
      (s : Service o) (req : QuoteRequest) (m : ℕ → Moment) (e : ApiError) (s' : Service o)
      → Leases s s'
      → Ends s req m (err e, s')
  failed s req m e s' h = (h, λ response same. cc)

  pub check_token_sound :
      (config : Config) (asset : Asset) {u : Unit {0}}
      → check_token config asset ≡ ok u
      → allows config.token_allowlist asset ≡ true
  unfolding check_token
  check_token_sound config asset h = elim (if-cases (allows config.token_allowlist asset) h) [
    | inl yes_it ↦ yes_it.0
    | inr refused ↦ let e = refused.1 in cc
  ]
