-- ===== src/Api/Error.antt =====
-- crates/api/src/routes.rs: the errors that a caller is answered with. An error's message is the text
-- that the source's `Display` writes.
use reserve.Base.{
  ℕ, ◌≡◌, ◌++◌, Option, none, some, Text, text, print_nat, print_i64, Result, ok, err,
}
use reserve.Horizon.Error as Horizon
use reserve.Core.Error as Core
use reserve.Signer as Signer
use reserve.Api.Channels.{ChannelError, busy, missing}

pub record ApiError : Type 0 where
  pub status : ℕ
  pub code : Text
  pub message : Text
  pub retry_after : Option ℕ

-- `ApiError::new`
unfoldable pub api_error : ℕ → Text → Text → ApiError
api_error status code message = record {
  status = status;
  code = code;
  message = message;
  retry_after = none;
}

unfoldable pub too_many : Text → ℕ → ApiError
too_many message retry_after = record {
  status = 429;
  code = text "rate_limited";
  message = message;
  retry_after = some retry_after;
}

unfoldable pub bad_request : Text → Text → ApiError
unfolding api_error
bad_request code message = api_error 400 code message

unfoldable pub bootstrap_busy : ApiError
bootstrap_busy = record {
  status = 503;
  code = text "bootstrap_busy";
  message = text "another bootstrap is using this lane; retry shortly";
  retry_after = some 2;
}

-- `#[error(…)]` of the three crates.
unfoldable pub horizon_message : Horizon.Error → Text
horizon_message (Horizon.http e) = text "http: " ++ e
horizon_message (Horizon.api status body) = text "horizon " ++ print_nat status ++ text ": " ++ body
horizon_message (Horizon.not_found what) = text "not found: " ++ what
horizon_message (Horizon.decode what) = text "unexpected response: " ++ what

unfoldable pub core_message : Core.Error → Text
unfolding horizon_message
core_message (Core.asset s) = text "invalid asset: " ++ s
core_message (Core.account s) = text "invalid account: " ++ s
core_message (Core.amount s) = text "invalid amount: " ++ s
core_message (Core.no_path token) =
    text "no path from " ++ token ++ text " to XLM with enough liquidity"
core_message (Core.quote_expired at) = text "quote expired at ledger " ++ print_nat at
core_message Core.quote_signature = text "quote signature mismatch"
core_message (Core.mismatch s) = text "submitted transaction does not match the quote: " ++ s
core_message (Core.unclaimable s) = text "unclaimable: " ++ s
core_message (Core.path_moved s) = text "path moved: " ++ s
core_message (Core.unsupported s) = text "unsupported: " ++ s
core_message (Core.xdr s) = text "xdr: " ++ s
core_message (Core.horizon e) = horizon_message e

unfoldable pub signer_message : Signer.Error → Text
signer_message Signer.invalid_secret = text "invalid secret seed"
signer_message (Signer.xdr s) = text "xdr: " ++ s
signer_message (Signer.fee_too_low needed) =
    text "fee too low: need at least " ++ print_i64 needed ++ text " stroops"

-- The `From` conversions, which `?` calls.
unfoldable pub core_status : Core.Error → ℕ × Text
core_status (Core.quote_expired at) = (409, text "quote_expired")
core_status Core.quote_signature = (401, text "quote_signature")
core_status (Core.mismatch s) = (400, text "quote_mismatch")
core_status (Core.no_path token) = (422, text "no_path")
core_status (Core.unclaimable s) = (422, text "unclaimable")
core_status (Core.path_moved s) = (409, text "path_moved")
core_status (Core.horizon e) = (502, text "horizon")
core_status (Core.asset s) = (400, text "invalid_request")
core_status (Core.account s) = (400, text "invalid_request")
core_status (Core.amount s) = (400, text "invalid_request")
core_status (Core.unsupported s) = (400, text "invalid_request")
core_status (Core.xdr s) = (400, text "invalid_request")

unfoldable pub of_core : Core.Error → ApiError
unfolding api_error core_status core_message
of_core e = api_error (core_status e).0 (core_status e).1 (core_message e)

unfoldable pub of_horizon : Horizon.Error → ApiError
unfolding api_error horizon_message
of_horizon e = api_error 502 (text "horizon") (horizon_message e)

unfoldable pub of_signer : Signer.Error → ApiError
unfolding api_error signer_message
of_signer e = api_error 500 (text "signer") (signer_message e)

unfoldable pub of_channel : ChannelError → ApiError
unfolding api_error of_horizon bootstrap_busy
of_channel busy = bootstrap_busy
of_channel (missing address) =
    api_error 502 (text "channel_missing")
      (text "channel account " ++ address ++ text " does not exist")
of_channel (ChannelError.horizon e) = of_horizon e

-- `map_err`
abbrev pub or_fail : {E A : Type 0} → (E → ApiError) → Result E A → Result ApiError A
or_fail convert (ok a) = ok a
or_fail convert (err e) = err (convert e)

pub or_fail-eq-ok :
    {E A : Type 0} (convert : E → ApiError) (r : Result E A) {a : A}
    → or_fail convert r ≡ ok a
    → r ≡ ok a
or_fail-eq-ok convert (ok b) h = cc
or_fail-eq-ok convert (err e) h = cc
