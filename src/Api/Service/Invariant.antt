-- ===== src/Api/Service/Invariant.antt =====
-- What every service that a configuration reaches keeps.
use reserve.Base.{
  ℕ, ◌≡◌, inl, inr, refl, sym, ap, subst, ◌∙◌, List, [], ◌∷◌, Option, some, ℤ, Text, text, text_eq,
  Result, ok, err, ok_or, Bool-cases, Result-cases,
}
use reserve.Horizon.Records.{HorizonApi}
use reserve.Core.Asset.{account_id}
use reserve.Core.Plan.{is_bootstrap}
use reserve.Core.Quote.{Quote, open_quote, tx_source}
use reserve.Core.Build.{build_inner}
use reserve.Core.Xdr as Xdr
use reserve.Api.Apikey.{mint}
use reserve.Api.Auth as Auth
use reserve.Api.Limits.{IpAddr, Limits, prune}
use reserve.Api.Channels.{Lane, is_leased, next_sequence, lease, release, holds_sequence}
use reserve.Api.Config.{Config}
use reserve.Api.Error.{ApiError, api_error, bad_request, of_core, or_fail}
use reserve.Api.Action.{Action, and_then, lift}
use reserve.Api.State.{Crates, Moment, Service, app_state_new, set_limits}
use reserve.Api.Caller.{Headers}
use reserve.Api.Caller.Admit.{Same, admit-elim}
use reserve.Api.Quoting.{build}
use reserve.Api.Quoting.Sound.{Leases}
use reserve.Api.Quoting.Answer.{quote-Ends}
use reserve.Api.Submit.{SubmitRequest}
use reserve.Api.Submit.Posts.{freed_by, IsChecked, Kept, Posted}
use reserve.Api.Submit.Safety.{submit-Ends}
use reserve.Api.Issue.{challenge, issue_key, proof_error, next_year_end}
use reserve.Api.Service.{
  start, Reaches, starts, quotes, builds, submits, challenges, issues, prunes,
}

abbrev pub addresses : List Lane → List Text
addresses [] = []
addresses (lane ∷ lanes) = lane.address ∷ addresses lanes

lease-addresses :
    (h : HorizonApi) (ttl now : ℕ) (lanes : List Lane)
    → addresses (lease h ttl now lanes).1 ≡ addresses lanes
unfolding lease
lease-addresses h ttl now [] = refl
lease-addresses h ttl now (lane ∷ lanes) =
    let rest = ap (λ (ls : List Text). lane.address ∷ ls) (lease-addresses h ttl now lanes) in
    elim (Bool-cases (is_leased lane.slot now)) [
      | inl t ↦ rw t rest
      | inr f ↦ elim (Result-cases (next_sequence h lane.address)) [
        | inl (sequence, e) ↦ rw (f, e) refl
        | inr (x, e) ↦ rw (f, e) refl
      ]
    ]

release-addresses :
    (a : Text) (s : ℤ) (lanes : List Lane) → addresses (release a s lanes) ≡ addresses lanes
unfolding release
release-addresses a s [] = refl
release-addresses a s (lane ∷ lanes) =
    let rest = ap (λ (ls : List Text). lane.address ∷ ls) (release-addresses a s lanes) in
    elim (Bool-cases (text_eq lane.address a)) [
      | inr f ↦ rw f rest
      | inl t ↦ elim (Bool-cases (holds_sequence lane.slot s)) [
        | inl e ↦ rw (t, e) refl
        | inr e ↦ rw (t, e) refl
      ]
    ]

freed_by-addresses :
    (q : Quote) (lanes : List Lane) → addresses (freed_by q lanes) ≡ addresses lanes
unfolding freed_by
freed_by-addresses q lanes = elim (Bool-cases (is_bootstrap q.mode)) [
  | inl e ↦ rw e (release-addresses (tx_source q) q.sequence lanes)
  | inr e ↦ rw e refl
]

module _ (o : Crates) where
  -- A submission of a run: the lanes when it comes, what it asks, and its moments.
  pub record Submission : Type 0 where
    pub lanes : List Lane
    pub request : SubmitRequest
    pub moments : ℕ → Moment

  -- The submissions of a run, the last one first.
  abbrev pub submissions : {config : Config} {s : Service o} → Reaches o config s → List Submission
  submissions starts = []
  submissions (quotes headers peer req m r) = submissions r
  submissions (builds headers peer token m r) = submissions r
  submissions (submits {s} headers peer req m r) =
      record { lanes = s.app.channels; request = req; moments = m } ∷ submissions r
  submissions (challenges headers peer account m r) = submissions r
  submissions (issues headers peer signed_xdr m r) = submissions r
  submissions (prunes r) = submissions r

  -- The texts that submissions post, the last one first: each posts none, or one that has passed the
  -- checks in its own lanes, for its own request, at its own moments.
  pub data Posts (config : Config) : List Submission → List Text → Type 0 where
    none_yet : Posts config [] []
    withheld :
        {xs : List Submission} {posted : List Text} (x : Submission)
        → Posts config xs posted
        → Posts config (x ∷ xs) posted
    one_more :
        {xs : List Submission} {posted : List Text} {xdr : Text} (x : Submission)
        → IsChecked o config x.lanes x.request x.moments xdr
        → Posts config xs posted
        → Posts config (x ∷ xs) (xdr ∷ posted)

  -- A service behind some submissions.
  pub record IsServing (config : Config) (xs : List Submission) (s : Service o) : Type 0 where
    pub config_kept : s.app.config ≡ config
    pub lanes_kept : addresses s.app.channels ≡ addresses (start o config).app.channels
    pub all_checked : Posts config xs s.posted

  Same-IsServing :
      (config : Config) (xs : List Submission) (s s' : Service o)
      → Same o s s'
      → IsServing config xs s
      → IsServing config xs s'
  Same-IsServing config xs s s' same h = record {
    config_kept = same.config ∙ h.config_kept;
    lanes_kept = ap addresses same.channels ∙ h.lanes_kept;
    all_checked = subst (Posts config xs) (sym same.posted) h.all_checked;
  }

  Leases-IsServing :
      (config : Config) (xs : List Submission) (s s' : Service o)
      → Leases o s s'
      → IsServing config xs s
      → IsServing config xs s'
  Leases-IsServing config xs s s' l h = record {
    config_kept = l.config ∙ h.config_kept;
    lanes_kept = elim l.channels [
      | inl same ↦ ap addresses same ∙ h.lanes_kept
      | inr (k, ttl, now, e) ↦
          ap addresses e ∙ lease-addresses k ttl now s.app.channels ∙ h.lanes_kept
    ];
    all_checked = subst (Posts config xs) (sym l.posted) h.all_checked;
  }

  Kept-IsServing :
      (config : Config) (xs : List Submission) (s s' : Service o) (token : Text) (x : Submission)
      → Kept o s s' token
      → IsServing config xs s
      → IsServing config (x ∷ xs) s'
  Kept-IsServing config xs s s' token x k h = record {
    config_kept = k.config ∙ h.config_kept;
    lanes_kept = elim k.channels [
      | inl same ↦ ap addresses same ∙ h.lanes_kept
      | inr (q, opened, e) ↦ ap addresses e ∙ freed_by-addresses q s.app.channels ∙ h.lanes_kept
    ];
    all_checked = subst (Posts config (x ∷ xs)) (sym k.posted) (withheld x h.all_checked);
  }

  Posted-IsServing :
      (config : Config) (xs : List Submission) (s s' : Service o) (req : SubmitRequest)
      (m : ℕ → Moment)
      → Posted o s s' req m
      → IsServing config xs s
      → IsServing config (record { lanes = s.app.channels; request = req; moments = m } ∷ xs) s'
  Posted-IsServing config xs s s' req m p h = record {
    config_kept = p.config ∙ h.config_kept;
    lanes_kept =
        ap addresses p.channels ∙ freed_by-addresses p.checked.quote s.app.channels ∙ h.lanes_kept;
    all_checked = subst (Posts config (_ ∷ xs)) (sym p.posted) (
        one_more (record { lanes = s.app.channels; request = req; moments = m })
          (subst (λ c. IsChecked o c s.app.channels req m p.xdr) h.config_kept p.checked)
          h.all_checked);
  }

  limited_Same : (s : Service o) (l : Limits o.governor) → Same o s (set_limits o l s)
  unfolding set_limits
  limited_Same s l = record { config = refl; channels = refl; posted = refl }

  -- An answer that follows from reads alone.
  lift-Same :
      {A B : Type 0} (s : Service o) (l : Limits o.governor) (r : Result ApiError A)
      (next : A → Action (Service o) B)
      → ((a : A) → Same o s (next a (set_limits o l s)).1)
      → Same o s (and_then (lift r (set_limits o l s)) next).1
  lift-Same s l (ok a) next h = h a
  lift-Same s l (err e) next h = limited_Same s l

  build-Same :
      (headers : Headers) (peer : Option IpAddr) (token : Text) (m : ℕ → Moment) (s : Service o)
      → Same o s (build o headers peer token m s).1
  unfolding build set_limits
  build-Same headers peer token m s =
      admit-elim o headers peer (m 0).secs s _ (λ x. Same o s x.1) (λ e s' same. same)
        (λ l.
          lift-Same s l (or_fail of_core (open_quote o.sealing token s.app.config.quote_key)) _
            (λ q. lift-Same s l (or_fail of_core (build_inner o.decoders q)) _ (λ tx.
              lift-Same s l
                (or_fail (api_error 500 (text "xdr"))
                  (o.envelope_to_base64 (Xdr.tx (record { tx = tx; signatures = [] }))))
                _ (λ xdr. limited_Same s l))))

  challenge-Same :
      (headers : Headers) (peer : Option IpAddr) (account : Text) (m : ℕ → Moment) (s : Service o)
      → Same o s (challenge o headers peer account m s).1
  unfolding challenge set_limits
  challenge-Same headers peer account m s =
      admit-elim o headers peer (m 0).secs s _ (λ x. Same o s x.1) (λ e s' same. same)
        (λ l.
          lift-Same s l
            (or_fail
              (λ (e : Auth.Invalid).
                bad_request (text "invalid_address") (text "not a Stellar address"))
              (Auth.challenge o.auth_tools o.decoders account s.app.config.quote_key (m 1).secs))
            _ (λ xdr. limited_Same s l))

  issue_key-Same :
      (headers : Headers) (peer : Option IpAddr) (signed_xdr : Text) (m : ℕ → Moment)
      (s : Service o)
      → Same o s (issue_key o headers peer signed_xdr m s).1
  unfolding issue_key set_limits
  issue_key-Same headers peer signed_xdr m s =
      admit-elim o headers peer (m 0).secs s _ (λ x. Same o s x.1) (λ e s' same. same)
        (λ l.
          lift-Same s l
            (ok_or s.app.config.key_issuer (
              api_error 503 (text "issuing_disabled")
                (text "this deployment does not hand out keys")))
            _
            (λ issuer.
              lift-Same s l
                (or_fail proof_error (
                  Auth.verify o.auth_tools signed_xdr s.app.config.quote_key
                    s.app.config.network_passphrase (m 1).secs))
                _
                (λ id. lift-Same s l (or_fail of_core (account_id o.decoders id)) _ (λ account.
                  lift-Same s l
                    (or_fail (api_error 500 (text "issuing")) (
                      mint o.tools issuer (record {
                        id = id;
                        network = some s.app.config.network_passphrase;
                        expires_at = some (next_year_end (m 2).secs);
                      })))
                    _ (λ key. limited_Same s l)))))

  -- Whatever requests come, in whatever order, and whatever Horizon and the clock show: a service keeps
  -- its configuration and the addresses of its lanes, and the texts that it has posted to the network come
  -- from the submissions of its run, in their order and one from each at most. Each text passed every check
  -- of `submit` for that submission's request, in the lanes that the service had then, with what Horizon
  -- and the clock showed at that submission's moments.
  pub Reaches-IsServing :
      {config : Config} {s : Service o} (r : Reaches o config s)
      → IsServing config (submissions r) s
  unfolding start app_state_new
  Reaches-IsServing starts = record {
    config_kept = refl;
    lanes_kept = refl;
    all_checked = none_yet;
  }
  Reaches-IsServing {config} (quotes {s} headers peer req m r) =
      Leases-IsServing config _ s _ (quote-Ends o headers peer req m s).0 (Reaches-IsServing r)
  Reaches-IsServing {config} (builds {s} headers peer token m r) =
      Same-IsServing config _ s _ (build-Same headers peer token m s) (Reaches-IsServing r)
  Reaches-IsServing {config} (submits {s} headers peer req m r) =
      elim (submit-Ends o headers peer req m s) [
        | inl kept ↦ Kept-IsServing config _ s _ req.quote _ kept (Reaches-IsServing r)
        | inr posted ↦ Posted-IsServing config _ s _ req m posted (Reaches-IsServing r)
      ]
  Reaches-IsServing {config} (challenges {s} headers peer account m r) =
      Same-IsServing config _ s _ (challenge-Same headers peer account m s) (Reaches-IsServing r)
  Reaches-IsServing {config} (issues {s} headers peer signed_xdr m r) =
      Same-IsServing config _ s _ (issue_key-Same headers peer signed_xdr m s) (Reaches-IsServing r)
  Reaches-IsServing {config} (prunes {s} r) =
      Same-IsServing config _ s _ (limited_Same s (prune o.governor s.app.limits))
        (Reaches-IsServing r)
