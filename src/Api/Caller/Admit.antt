-- ===== src/Api/Caller/Admit.antt =====
-- What letting a request in changes.
use reserve.Base.{ℕ, ◌≡◌, refl, Option, Result, err}
use reserve.Api.Limits.{IpAddr, Limits, check, Decision, allow, deny}
use reserve.Api.Error.{ApiError}
use reserve.Api.Action.{Action, and_then}
use reserve.Api.State.{Crates, Service, set_limits, count}
use reserve.Api.Caller.{Headers, admit, enforce, caller_of}

module _ (o : Crates) where
  -- Two services of one configuration and one history.
  pub record Same (s s' : Service o) : Type 0 where
    pub config : s'.app.config ≡ s.app.config
    pub channels : s'.app.channels ≡ s.app.channels
    pub posted : s'.posted ≡ s.posted

  -- A handler that lets a request in first: if it is refused only budgets and a counter change.
  pub admit-elim :
      {B : Type 0} (headers : Headers) (peer : Option IpAddr) (now : ℕ) (s : Service o)
      (next : Unit {0} → Action (Service o) B) (P : Result ApiError B × Service o → Type 0)
      → ((e : ApiError) (s' : Service o) → Same s s' → P (err e, s'))
      → ((l : Limits o.governor) → P (next tt (set_limits o l s)))
      → P (and_then (admit o headers peer now s) next)
  unfolding admit enforce count set_limits
  admit-elim headers peer now s next P refused went =
      decided (check o.governor s.app.limits (caller_of o s.app.config headers peer now)).0
        (check o.governor s.app.limits (caller_of o s.app.config headers peer now)).1
    where
      decided :
          (d : Decision) (l : Limits o.governor)
          → P (and_then (enforce o d (set_limits o l s)) next)
      decided allow l = went l
      decided (deny after reason) l =
          refused _ _ (record { config = refl; channels = refl; posted = refl })
