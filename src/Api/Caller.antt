-- ===== src/Api/Caller.antt =====
-- crates/api/src/routes.rs: who is calling, and may they.
pub mod Admit
use reserve.Base.{
  ℕ, Bool, true, false, List, [], ◌∷◌, Option, none, some, if◌then◌else◌, Text, text, codes,
  replicate, strip_prefix, split_on, trim, Result, ok, err,
}
use reserve.Core.Tokens.{allows}
use reserve.Horizon.Asset.{Asset, canonical}
use reserve.Api.Apikey.{KeyVerifier, IssuedKey, verify}
use reserve.Api.Apikey as Apikey
use reserve.Api.Limits.{IpAddr, v4, Caller, key, anonymous, Decision, allow, deny, bucket_ip, check}
use reserve.Api.Config.{Config}
use reserve.Api.Metrics.{rate_limited}
use reserve.Api.Error.{ApiError, too_many, bad_request}
use reserve.Api.Action.{Action, pure, raise, modify, ◌>>=◌, ◌>>◌}
use reserve.Api.State.{Crates, AppState, Service, set_limits, count}

-- The headers of a request whose values are text, by their names.
abbrev pub Headers : Type 0
Headers = Text → Option Text

-- `and_then(|v| v.strip_prefix("Bearer "))`
abbrev pub bearer : Option Text → Option Text
bearer none = none
bearer (some v) = strip_prefix (codes "Bearer ") v

abbrev pub or_else {ℓ} : {A : Type ℓ} → Option A → Option A → Option A
or_else none other = other
or_else (some a) other = some a

abbrev pub first_of : List Text → Option Text
first_of [] = none
first_of (s ∷ ss) = some s

abbrev pub peer_or_zero : Option IpAddr → IpAddr
peer_or_zero none = v4 (0 ∷ 0 ∷ 0 ∷ 0 ∷ [])
peer_or_zero (some ip) = ip

module _ (o : Crates) where
  -- The address that a proxy says it forwards for.
  unfoldable pub forwarded_for : Bool → Option Text → Option IpAddr
  forwarded_for false header = none
  forwarded_for true none = none
  forwarded_for true (some v) = elim (first_of (split_on b',' v)) [
    | none ↦ none
    | some s ↦ o.parse_ip (trim s)
  ]

  unfoldable pub anonymous_caller : Config → Headers → Option IpAddr → Caller
  anonymous_caller config headers peer = anonymous (
      bucket_ip (
        peer_or_zero
          (or_else (forwarded_for config.trust_proxy (headers (text "x-forwarded-for"))) peer)))

  abbrev pub caller_with : Result Apikey.Invalid IssuedKey → Caller → Caller
  caller_with (ok k) other = key k.id
  caller_with (err reason) other = other

  -- The caller of a presented token: an unusable one is ignored.
  abbrev pub caller_by : Config → ℕ → Caller → Option Text → Caller
  caller_by config now other none = other
  caller_by config now other (some token) = caller_with (verify o.tools config.keys token now) other

  unfoldable pub caller_of : Config → Headers → Option IpAddr → ℕ → Caller
  caller_of config headers peer now =
      caller_by config now (anonymous_caller config headers peer)
        (or_else (headers (text "x-api-key")) (bearer (headers (text "authorization"))))

  unfoldable pub enforce : Decision → Action (Service o) (Unit {0})
  enforce allow = pure tt
  enforce (deny retry_after reason) = do
    modify (count o rate_limited)
    raise (too_many reason retry_after)

  -- `enforce(&state, state.limits.check(&caller_of(…)))?`, with which handlers begin.
  unfoldable pub admit : Headers → Option IpAddr → ℕ → Action (Service o) (Unit {0})
  admit headers peer now s =
      let checked = check o.governor s.app.limits (caller_of s.app.config headers peer now) in
      enforce checked.0 (set_limits o checked.1 s)
