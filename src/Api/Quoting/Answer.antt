-- ===== src/Api/Quoting/Answer.antt =====
-- The handler of quotes ends as promised.
use reserve.Base.{ℕ, ◌≡◌, inl, refl, subst, true, Option, pos, wrap_i64, Result, ok}
use reserve.Horizon.Asset.{Asset, canonical}
use reserve.Horizon.Records.{Account}
use reserve.Core.Asset.{parse_asset}
use reserve.Core.Tokens.{allows}
use reserve.Core.Plan.{Plan, plan_new}
use reserve.Core.Pricing.{NetworkParams, Cost, price}
use reserve.Core.Claim.{ensure_claims, need_for}
use reserve.Core.Quote.{seal}
use reserve.Api.Limits.{IpAddr, Limits}
use reserve.Api.Metrics.{quoted}
use reserve.Api.Error.{ApiError, of_core, of_horizon, or_fail, or_fail-eq-ok}
use reserve.Api.Action.{and_then-elim, lift}
use reserve.Api.State.{Crates, Moment, Service, network_params, sponsor_address, set_limits, count}
use reserve.Api.Caller.{Headers}
use reserve.Api.Caller.Admit.{admit-elim}
use reserve.Api.Quoting.{
  QuoteRequest, QuoteResponse, is_some, check_token, quote_of, place, issue, cost_and_issue, quote,
}
use reserve.Api.Quoting.Sound.{
  Leases, IsQuoted, Ends, limited-Leases, place-Leases, failed, check_token_sound,
}

module _ (o : Crates) where
  -- What a request has passed before it is placed.
  record IsPriced (s : Service o) (req : QuoteRequest) (m : ℕ → Moment) : Type 0 where
    fee_token : Asset
    account : Option Account
    plan : Plan
    params : NetworkParams
    cost : Cost
    token_read : parse_asset req.fee_token ≡ ok fee_token
    accepted : allows s.app.config.token_allowlist fee_token ≡ true
    account_read : (m 1).horizon.account req.source ≡ ok account
    planned : plan_new o.decoders req.ops (is_some account) ≡ ok plan
    params_read : network_params (m 2).horizon ≡ ok params
    priced :
        price
          (m 3).horizon
          plan
          fee_token
          req.source
          params
          s.app.config.pricing
          s.app.config.network_passphrase
        ≡ ok cost
    claimable :
        ensure_claims
          (m 4).horizon
          req.source
          plan.ops
          plan.mode
          (wrap_i64 (pos (m 4).secs))
          (need_for plan.mode (canonical fee_token) cost.send_max_stroops)
        ≡ ok tt

  counted-Leases : (s s' : Service o) → Leases o s s' → Leases o s (count o quoted s')
  unfolding count
  counted-Leases s s' h = record { config = h.config; posted = h.posted; channels = h.channels }

  response-injective :
      {r r' : QuoteResponse} → ◌≡◌ {A = Result ApiError QuoteResponse} (ok r) (ok r') → r ≡ r'
  response-injective h = cc

  issue-Ends :
      (req : QuoteRequest) (m : ℕ → Moment) (s : Service o) (l : Limits o.governor)
      (p : IsPriced s req m)
      → Ends o s req m (
          issue o s.app.config req p.fee_token p.account p.plan p.params p.cost m
            (set_limits o l s))
  unfolding issue
  issue-Ends req m s l p =
      let leases = place-Leases o s l p.plan.mode p.account (m 5) in
      let here = (place o p.plan.mode p.account (m 5) (set_limits o l s)).1 in
      and_then-elim (place o p.plan.mode p.account (m 5) (set_limits o l s)) _ (Ends o s req m)
        (λ e f. failed o s req m e here leases)
        (λ at placed.
          and_then-elim
            (lift
              (or_fail of_core (
                seal o.sealing
                  (quote_of s.app.config (sponsor_address o s.app.config) req p.fee_token p.plan
                    p.params p.cost at (m 6).secs)
                  s.app.config.quote_key))
              (count o quoted here))
            _ (Ends o s req m)
            (λ e f. failed o s req m e (count o quoted here) (counted-Leases s here leases))
            (λ token sealed. (
              counted-Leases s here leases,
              λ response same. subst (IsQuoted o s req m) (response-injective same) (record {
                fee_token = p.fee_token;
                account = p.account;
                plan = p.plan;
                params = p.params;
                cost = p.cost;
                limits = l;
                at = at;
                token_read = p.token_read;
                accepted = p.accepted;
                account_read = p.account_read;
                planned = p.planned;
                params_read = p.params_read;
                priced = p.priced;
                claimable = p.claimable;
                placed = placed;
                sealed = or_fail-eq-ok of_core _ sealed;
                shown = refl;
              }),
            )))

  cost-Ends :
      (req : QuoteRequest) (m : ℕ → Moment) (s : Service o) (l : Limits o.governor) (token : Asset)
      (account : Option Account) (plan : Plan) (params : NetworkParams)
      → parse_asset req.fee_token ≡ ok token
      → allows s.app.config.token_allowlist token ≡ true
      → (m 1).horizon.account req.source ≡ ok account
      → plan_new o.decoders req.ops (is_some account) ≡ ok plan
      → network_params (m 2).horizon ≡ ok params
      → Ends o s req m
          (cost_and_issue o s.app.config req token account plan params m (set_limits o l s))
  unfolding cost_and_issue
  cost-Ends req m s l token account plan params read accepted account_read planned params_read =
      let stop = λ (e : ApiError). failed o s req m e (set_limits o l s) (limited-Leases o s l) in
      and_then-elim
        (lift
          (or_fail of_core (
            price (m 3).horizon plan token req.source params s.app.config.pricing
              s.app.config.network_passphrase))
          (set_limits o l s))
        _ (Ends o s req m) (λ e f. stop e)
        (λ cost priced.
          and_then-elim
            (lift
              (or_fail of_core (
                ensure_claims (m 4).horizon req.source plan.ops plan.mode
                  (wrap_i64 (pos (m 4).secs))
                  (need_for plan.mode (canonical token) cost.send_max_stroops)))
              (set_limits o l s))
            _ (Ends o s req m) (λ e f. stop e)
            (λ u claimable. issue-Ends req m s l (record {
              fee_token = token;
              account = account;
              plan = plan;
              params = params;
              cost = cost;
              token_read = read;
              accepted = accepted;
              account_read = account_read;
              planned = planned;
              params_read = params_read;
              priced = or_fail-eq-ok of_core _ priced;
              claimable = or_fail-eq-ok of_core _ claimable;
            })))

  pub quote-Ends :
      (headers : Headers) (peer : Option IpAddr) (req : QuoteRequest) (m : ℕ → Moment)
      (s : Service o)
      → Ends o s req m (quote o headers peer req m s)
  unfolding quote set_limits
  quote-Ends headers peer req m s =
      admit-elim o headers peer (m 0).secs s _ (Ends o s req m)
        (λ e s' same.
          failed o s req m e s'
            (record { config = same.config; posted = same.posted; channels = inl same.channels }))
        (λ l.
          let limited = limited-Leases o s l in
          let stop = λ (e : ApiError). failed o s req m e (set_limits o l s) limited in
          and_then-elim (lift (or_fail of_core (parse_asset req.fee_token)) (set_limits o l s)) _
            (Ends o s req m) (λ e f. stop e)
            (λ token e₁.
              and_then-elim (lift (check_token s.app.config token) (set_limits o l s)) _
                (Ends o s req m) (λ e f. stop e)
                (λ u e₂.
                  and_then-elim
                    (lift (or_fail of_horizon ((m 1).horizon.account req.source))
                      (set_limits o l s))
                    _ (Ends o s req m) (λ e f. stop e)
                    (λ account e₃.
                      and_then-elim
                        (lift (or_fail of_core (plan_new o.decoders req.ops (is_some account)))
                          (set_limits o l s))
                        _ (Ends o s req m) (λ e f. stop e)
                        (λ plan e₄.
                          and_then-elim
                            (lift (or_fail of_horizon (network_params (m 2).horizon))
                              (set_limits o l s))
                            _ (Ends o s req m) (λ e f. stop e)
                            (λ params e₅.
                              cost-Ends req m s l token account plan params (or_fail-eq-ok _ _ e₁)
                                (check_token_sound o s.app.config token e₂) (or_fail-eq-ok _ _ e₃)
                                (or_fail-eq-ok _ _ e₄) (or_fail-eq-ok _ _ e₅)))))))
