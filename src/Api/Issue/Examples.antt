-- ===== src/Api/Issue/Examples.antt =====
-- A key for the account of the signed challenge.
use reserve.Base.{
  ℕ, ◌≡◌, ◌≤◌, ◌<◌, ◌+◌, refl, true, none, some, if◌then◌else◌, replicate, text, codes, text_eq,
  ◌++◌, ◌∷◌, ok, arith, to_be_bytes, from_be_bytes,
}
use reserve.Core.Samples.{sealing, sealing-IsCodec, user}
use reserve.Core.Tokens.{testnet}
use reserve.Core.Quote.{difference}
use reserve.Core.Asset.{account_id}
use reserve.Api.Apikey.{Tools, KeyIssuer, mint}
use reserve.Api.Limits.{key, limits_new, check, check_caller}
use reserve.Api.Auth as Auth
use reserve.Api.Auth.Samples as Signed
use reserve.Api.Config.{Config}
use reserve.Api.Samples as Api
use reserve.Api.State.{Crates, Moment, Service, app_state_new, set_limits}
use reserve.Api.Service.{start}
use reserve.Api.Caller.{Headers, admit, enforce, caller_of, anonymous_caller}
use reserve.Api.Issue.{IssueKeyResponse, issue_key, next_year_end}
use reserve.Api.Issue.Works.{IsSound, issued_key_works}

-- Base64 as of the quotes, and signatures that are always right.
abbrev tools : Tools
tools = record {
  to_json = λ k. ok (codes "json");
  from_json =
      λ s. some (record { id = user; network = some testnet; expires_at = some 31_536_000 });
  encode = sealing.encode;
  decode = sealing.decode;
  hex_encode = λ s. s;
  hex_decode = λ s. some s;
  verifying_key = λ s. s;
  public_key = λ s. ok s;
  sign = λ secret payload. replicate 64 b's';
  verify_strict = λ issuer payload signature. true;
}

tools-IsSound : IsSound tools
tools-IsSound = record {
  decode-encode = sealing-IsCodec.decode-encode;
  encode-Lacks = sealing-IsCodec.encode-Lacks;
  size = λ secret payload. refl;
  signed = λ secret payload. refl;
}

abbrev crates : Crates
crates = record Api.crates { tools = tools; auth_tools = Signed.tools }

abbrev issuer : KeyIssuer
issuer = record { signing = replicate 32 7 }

abbrev config : Config
config = record Api.config {
  key_issuer = some issuer;
  keys = record { issuer = some (replicate 32 7); network = testnet };
}

abbrev service : Service crates
service = start crates config

abbrev moments : ℕ → Moment
moments n = record (Api.moments n) { secs = 1_200 }

abbrev response : IssueKeyResponse
response = record {
  key =
      codes "cav_" ++ (sealing.encode (codes "json") ++ b'.' ∷ sealing.encode (replicate 64 b's'));
  id = user;
  expires_at = 31_536_000;
  requests_per_minute = 600;
}

abbrev no_headers : Headers
no_headers name = none

abbrev shown : Headers
shown name = if text_eq name (text "x-api-key") then some response.key else none

issued : (issue_key crates no_headers none Signed.signed moments service).0 ≡ ok response
unfolding issue_key admit enforce check check_caller caller_of anonymous_caller set_limits start
    app_state_new limits_new text text_eq Auth.verify Auth.mac Auth.challenge_tx Auth.any_signed
    difference to_be_bytes from_be_bytes next_year_end mint account_id
issued = refl

header_shown : shown (text "x-api-key") ≡ some response.key
unfolding text text_eq
header_shown = refl

issued_key_works_example :
    (Auth.verify Signed.tools Signed.signed (codes "secret") testnet 1_200 ≡ ok user)
    × (1_200 < response.expires_at)
    × (response.expires_at ≤ 1_200 + 31_536_000)
    × (caller_of crates config shown none 31_535_999 ≡ key user)
unfolding start app_state_new
issued_key_works_example =
    issued_key_works crates no_headers shown none none Signed.signed moments service issuer response
      31_535_999 refl refl refl tools-IsSound (λ payload e. refl) issued header_shown (omega arith)

-- A key that is issued in the last second of a period.
last_second : next_year_end 31_535_999 ≡ 31_536_000
unfolding next_year_end
last_second = refl
