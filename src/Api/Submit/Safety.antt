-- ===== src/Api/Submit/Safety.antt =====
-- Nothing is posted that was not checked.
use reserve.Base.{
  ℕ, ◌≡◌, inl, inr, refl, ap, ◌∙◌, false, ◌∷◌, Option, if◌then◌else◌, ltb_ℤ, ℤ, pos, wrap_i64, Text,
  text, Result, ok, err, Bool-cases,
}
use reserve.Core.Error as Core
use reserve.Core.Claim.{ensure_claims, need_for}
use reserve.Core.Path.{ensure_quoted_path}
use reserve.Core.Pricing.{NetworkParams}
use reserve.Core.Quote.{Quote, open_quote}
use reserve.Core.Validate.{check_signed_inner}
use reserve.Core.Xdr as Xdr
use reserve.Horizon.Records.{HorizonApi}
use reserve.Horizon.Records as Records
use reserve.Api.Limits.{IpAddr, Limits}
use reserve.Api.Metrics.{failed}
use reserve.Api.Error.{ApiError, api_error, of_core, of_horizon, or_fail, or_fail-eq-ok}
use reserve.Api.Action.{Action, and_then, and_then-elim, lift}
use reserve.Api.State.{
  Crates, Moment, Service, SponsorFunds, sponsor_funds_of, network_params, sponsor_address,
  set_limits, count, post,
}
use reserve.Api.Caller.{Headers}
use reserve.Api.Caller.Admit.{admit-elim}
use reserve.Api.Submit.{
  SubmitRequest, bootstrap_lane_spent, needed_funds, release_bootstrap, guard_lane, guard_float,
  float_error, envelope_of, settle, send, pay, submit,
}
use reserve.Api.Submit.Posts.{freed_by, IsChecked, Kept, Posted, release_bootstrap-channels, Ends}

module _ (o : Crates) where
  guard_lane-elim :
      {A B : Type 0} (q : Quote) (r : Result Core.Error A) (s : Service o)
      (next : A → Action (Service o) B) (P : Result ApiError B × Service o → Type 0)
      → ((e : Core.Error)
          → P (err (of_core e), if bootstrap_lane_spent e then release_bootstrap o q s else s))
      → ((a : A) → r ≡ ok a → P (next a s))
      → P (and_then (guard_lane o q r s) next)
  unfolding guard_lane
  guard_lane-elim q (ok a) s next P failed went = went a refl
  guard_lane-elim q (err e) s next P failed went = failed e

  guard_float-elim :
      {B : Type 0} (q : Quote) (funds : SponsorFunds) (needed : ℤ) (s : Service o)
      (next : Unit {0} → Action (Service o) B) (P : Result ApiError B × Service o → Type 0)
      → P (err (float_error funds needed), release_bootstrap o q s)
      → (ltb_ℤ funds.spendable_stroops needed ≡ false → P (next tt s))
      → P (and_then (guard_float o q funds needed s) next)
  unfolding guard_float
  guard_float-elim q funds needed s next P short went =
      elim (Bool-cases (ltb_ℤ funds.spendable_stroops needed)) [
        | inl e ↦ rw e short
        | inr e ↦ rw e (went e)
      ]

  -- A service whose lane is given up by its quote, or is not.
  released-Kept :
      (s : Service o) (l : Limits o.governor) (token : Text) (q : Quote)
      → open_quote o.sealing token s.app.config.quote_key ≡ ok q
      → Kept o s (release_bootstrap o q (set_limits o l s)) token
  unfolding set_limits
  released-Kept s l token q opened =
      let (channels, config, posted) = release_bootstrap-channels o q (set_limits o l s) in
      record { config = config; posted = posted; channels = inr (q, opened, channels) }

  limited-Kept :
      (s : Service o) (l : Limits o.governor) (token : Text) → Kept o s (set_limits o l s) token
  unfolding set_limits
  limited-Kept s l token = record { config = refl; posted = refl; channels = inl refl }

  spent-Kept :
      (s : Service o) (l : Limits o.governor) (token : Text) (q : Quote) (e : Core.Error)
      → open_quote o.sealing token s.app.config.quote_key ≡ ok q
      → Kept o s
          (if bootstrap_lane_spent e
            then release_bootstrap o q (set_limits o l s)
            else set_limits o l s)
          token
  spent-Kept s l token q e opened = elim (Bool-cases (bootstrap_lane_spent e)) [
    | inl spent ↦ rw spent (released-Kept s l token q opened)
    | inr not_spent ↦ rw not_spent (limited-Kept s l token)
  ]

  send-Posted :
      (req : SubmitRequest) (m : ℕ → Moment) (s : Service o) (l : Limits o.governor) (xdr : Text)
      (h : HorizonApi) (checked : IsChecked o s.app.config s.app.channels req m xdr)
      → Posted o s (send o checked.quote xdr h (set_limits o l s)).1 req m
  unfolding send set_limits count post
  send-Posted req m s l xdr h checked = answered (or_fail of_horizon (h.submit xdr))
    where
      posted_by :
          (t : Service o)
          → t.app.config ≡ s.app.config
          → t.posted ≡ xdr ∷ s.posted
          → t.app.channels ≡ s.app.channels
          → Posted o s (release_bootstrap o checked.quote t) req m
      posted_by t config posted channels =
          let (c, f, p) = release_bootstrap-channels o checked.quote t in
          record {
            xdr = xdr;
            checked = checked;
            config = f ∙ config;
            posted = p ∙ posted;
            channels = c ∙ ap (freed_by checked.quote) channels;
          }

      answered :
          (r : Result ApiError Records.SubmitResponse)
          → Posted o s (settle o checked.quote (post o xdr (set_limits o l s)) r).1 req m
      answered (ok res) = posted_by _ refl refl refl
      answered (err e) = posted_by _ refl refl refl

  -- What a request has passed at the gate.
  record IsGated (s : Service o) (req : SubmitRequest) (m : ℕ → Moment) : Type 0 where
    quote : Quote
    params : NetworkParams
    inner : Xdr.TransactionV1Envelope
    opened : open_quote o.sealing req.quote s.app.config.quote_key ≡ ok quote
    params_read : network_params (m 1).horizon ≡ ok params
    claimable :
        ensure_claims
          (m 2).horizon
          quote.source
          quote.ops
          quote.mode
          (wrap_i64 (pos (m 2).secs))
          (need_for quote.mode quote.fee_token quote.send_max_stroops)
        ≡ ok tt
    affordable :
        ensure_quoted_path
          (m 3).horizon
          quote.source
          quote.fee_token
          quote.charge_stroops
          quote.send_max_stroops
          quote.path
        ≡ ok tt
    gated :
        check_signed_inner o.decoders o.codec req.signed_xdr quote params.latest_ledger ≡ ok inner

  pay-Ends :
      (req : SubmitRequest) (m : ℕ → Moment) (s : Service o) (l : Limits o.governor)
      (g : IsGated s req m)
      → Ends o s req m
          (pay o s.app.config s.app.channels g.quote g.params g.inner m (set_limits o l s))
  unfolding pay
  pay-Ends req m s l g =
      let limited = limited-Kept s l req.quote in
      and_then-elim
        (lift
          (or_fail of_horizon
            (sponsor_funds_of (m 4).horizon (m 5).horizon (sponsor_address o s.app.config)))
          (set_limits o l s))
        _ (Ends o s req m) (λ e f. inl limited)
        (λ funds e₁.
          guard_float-elim g.quote funds (needed_funds g.quote g.params.base_fee_stroops g.inner)
            (set_limits o l s) _ (Ends o s req m)
            (inl (released-Kept s l req.quote g.quote g.opened))
            (λ covered.
              and_then-elim
                (lift
                  (envelope_of o g.quote.mode s.app.config s.app.channels g.quote g.inner
                    g.params.base_fee_stroops)
                  (set_limits o l s))
                _ (Ends o s req m) (λ e f. inl limited)
                (λ envelope signed.
                  and_then-elim
                    (lift (or_fail (api_error 500 (text "xdr")) (o.envelope_to_base64 envelope))
                      (set_limits o l s))
                    _ (Ends o s req m) (λ e f. inl limited)
                    (λ xdr encoded. inr (
                      send-Posted req m s l xdr (m 6).horizon (record {
                        quote = g.quote;
                        params = g.params;
                        inner = g.inner;
                        funds = funds;
                        envelope = envelope;
                        opened = g.opened;
                        params_read = g.params_read;
                        claimable = g.claimable;
                        affordable = g.affordable;
                        gated = g.gated;
                        funds_read = or_fail-eq-ok of_horizon _ e₁;
                        covered = covered;
                        signed = signed;
                        encoded = or_fail-eq-ok _ _ encoded;
                      }))))))

  -- Whatever a caller sends and Horizon answers, a submission that does not post anything changes neither
  -- the configuration nor what was posted, and frees no lane but that of a quote that opens under the
  -- service's key. A submission that posts, posts one text: the encoding of the envelope that the service
  -- signs around a transaction that passed the gate for such a quote, whose claims and route still held
  -- and whose cost the sponsor's funds covered. It gives up the quote's lane.
  pub submit-Ends :
      (headers : Headers) (peer : Option IpAddr) (req : SubmitRequest) (m : ℕ → Moment)
      (s : Service o)
      → Ends o s req m (submit o headers peer req m s)
  unfolding submit set_limits
  submit-Ends headers peer req m s =
      admit-elim o headers peer (m 0).secs s _ (Ends o s req m)
        (λ e s' same.
          inl (record { config = same.config; posted = same.posted; channels = inl same.channels }))
        (λ l.
          let limited = limited-Kept s l req.quote in
          and_then-elim
            (lift (or_fail of_core (open_quote o.sealing req.quote s.app.config.quote_key))
              (set_limits o l s))
            _ (Ends o s req m) (λ e f. inl limited)
            (λ q e₁.
              let opened = or_fail-eq-ok of_core _ e₁ in
              let spent = λ (e : Core.Error). inl (spent-Kept s l req.quote q e opened) in
              and_then-elim
                (lift (or_fail of_horizon (network_params (m 1).horizon)) (set_limits o l s)) _
                (Ends o s req m) (λ e f. inl limited)
                (λ params e₂.
                  guard_lane-elim q _ (set_limits o l s) _ (Ends o s req m) spent (λ u claimable.
                    guard_lane-elim q _ (set_limits o l s) _ (Ends o s req m) spent (λ v affordable.
                      guard_lane-elim q _ (set_limits o l s) _ (Ends o s req m) spent
                        (λ inner gated. pay-Ends req m s l (record {
                          quote = q;
                          params = params;
                          inner = inner;
                          opened = opened;
                          params_read = or_fail-eq-ok of_horizon _ e₂;
                          claimable = claimable;
                          affordable = affordable;
                          gated = gated;
                        })))))))
