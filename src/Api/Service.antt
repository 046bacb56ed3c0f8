-- ===== src/Api/Service.antt =====
-- crates/api: a lane of the service from its start on, as the steps that its requests and its pruner take.
pub mod Invariant
pub mod Carried
mod Examples
use reserve.Base.{ℕ, ◌≡◌, refl, List, [], ◌∷◌, Option, Text}
use reserve.Api.Limits.{IpAddr, prune}
use reserve.Api.Config.{Config}
use reserve.Api.State.{Crates, Moment, Service, app_state_new, set_limits}
use reserve.Api.Caller.{Headers}
use reserve.Api.Quoting.{QuoteRequest, quote, build}
use reserve.Api.Submit.{SubmitRequest, submit}
use reserve.Api.Issue.{challenge, issue_key}

module _ (o : Crates) where
  unfoldable pub start : Config → Service o
  start config = record { app = app_state_new o config; posted = [] }

  -- The services that a configuration reaches. The reads change nothing and are no steps.
  pub data Reaches (config : Config) : Service o → Type 0 where
    starts : Reaches config (start config)
    quotes :
        {s : Service o} (headers : Headers) (peer : Option IpAddr) (req : QuoteRequest)
        (m : ℕ → Moment)
        → Reaches config s
        → Reaches config (quote o headers peer req m s).1
    builds :
        {s : Service o} (headers : Headers) (peer : Option IpAddr) (token : Text) (m : ℕ → Moment)
        → Reaches config s
        → Reaches config (build o headers peer token m s).1
    submits :
        {s : Service o} (headers : Headers) (peer : Option IpAddr) (req : SubmitRequest)
        (m : ℕ → Moment)
        → Reaches config s
        → Reaches config (submit o headers peer req m s).1
    challenges :
        {s : Service o} (headers : Headers) (peer : Option IpAddr) (address : Text) (m : ℕ → Moment)
        → Reaches config s
        → Reaches config (challenge o headers peer address m s).1
    issues :
        {s : Service o} (headers : Headers) (peer : Option IpAddr) (signed_xdr : Text)
        (m : ℕ → Moment)
        → Reaches config s
        → Reaches config (issue_key o headers peer signed_xdr m s).1
    prunes :
        {s : Service o}
        → Reaches config s
        → Reaches config (set_limits o (prune o.governor s.app.limits) s)
