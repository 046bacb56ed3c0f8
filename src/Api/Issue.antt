-- ===== src/Api/Issue.antt =====
-- crates/api/src/routes.rs: the handlers `challenge` and `issue_key`.
pub mod Works
mod Examples
use reserve.Base.{ℕ, ◌+◌, ◌*◌, ◌/◌, Option, some, Text, text, ok_or}
use reserve.Core.Asset.{account_id}
use reserve.Api.Limits.{IpAddr}
use reserve.Api.Apikey.{mint}
use reserve.Api.Auth.{Invalid, malformed, expired, bad_signature, verify}
use reserve.Api.Auth as Auth
use reserve.Api.Error.{ApiError, api_error, bad_request, of_core, or_fail}
use reserve.Api.Action.{Action, pure, lift, gets, ◌>>=◌, ◌>>◌}
use reserve.Api.State.{Crates, Moment, Service}
use reserve.Api.Caller.{Headers, admit}

pub record ChallengeResponse : Type 0 where
  pub xdr : Text
  pub network_passphrase : Text
  pub expires_in : ℕ

pub record IssueKeyResponse : Type 0 where
  pub key : Text
  pub id : Text
  pub expires_at : ℕ
  pub requests_per_minute : ℕ

unfoldable pub proof_error : Invalid → ApiError
proof_error expired = bad_request (text "challenge_expired") (text "ask for a new challenge")
proof_error bad_signature =
    bad_request (text "bad_signature") (text "that account did not sign this")
proof_error (malformed why) = bad_request (text "invalid_challenge") why

-- The end of the year of 365 days after the one that the clock is in.
unfoldable pub next_year_end : ℕ → ℕ
next_year_end now = (now / 31_536_000 + 1) * 31_536_000

module _ (o : Crates) where
  -- `POST /v1/challenge`
  unfoldable pub challenge :
      Headers → Option IpAddr → Text → (ℕ → Moment) → Action (Service o) ChallengeResponse
  challenge headers peer address m = do
    admit o headers peer (m 0).secs
    config ← gets (λ s. s.app.config)
    xdr ← lift (
        or_fail (λ e. bad_request (text "invalid_address") (text "not a Stellar address"))
          (Auth.challenge o.auth_tools o.decoders address config.quote_key (m 1).secs))
    pure (record { xdr = xdr; network_passphrase = config.network_passphrase; expires_in = 300 })

  -- `POST /v1/keys`
  unfoldable pub issue_key :
      Headers → Option IpAddr → Text → (ℕ → Moment) → Action (Service o) IssueKeyResponse
  issue_key headers peer signed_xdr m = do
    admit o headers peer (m 0).secs
    config ← gets (λ s. s.app.config)
    issuer ← lift (
        ok_or config.key_issuer
          (api_error 503 (text "issuing_disabled") (text "this deployment does not hand out keys")))
    address ← lift (
        or_fail proof_error
          (verify o.auth_tools signed_xdr config.quote_key config.network_passphrase (m 1).secs))
    let expires_at = next_year_end (m 2).secs
    account ← lift (or_fail of_core (account_id o.decoders address))
    key ← lift (
        or_fail (api_error 500 (text "issuing")) (
          mint o.tools issuer (record {
            id = address;
            network = some config.network_passphrase;
            expires_at = some expires_at;
          })))
    pure (record {
      key = key;
      id = address;
      expires_at = expires_at;
      requests_per_minute = config.limits.keyed_per_minute;
    })
