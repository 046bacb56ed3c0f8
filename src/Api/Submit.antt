-- ===== src/Api/Submit.antt =====
-- crates/api/src/routes.rs: the handler `submit`.
pub mod Posts
pub mod Safety
mod Examples
use reserve.Base.{
  ℕ, ◌+◌, Bool, true, false, not, List, [], ◌∷◌, ◌++◌, Option, none, some, if◌then◌else◌, length,
  ltb_ℤ, ℤ, pos, wrap_i64, saturating_add, saturating_mul, print_i64, Text, text, text_eq, Result,
  ok, err, ok_or,
}
use reserve.Horizon.Records as Records
use reserve.Core.Error as Core
use reserve.Core.Plan.{Mode, sponsored, bootstrap, is_bootstrap}
use reserve.Core.Claim.{ensure_claims, need_for}
use reserve.Core.Path.{ensure_quoted_path}
use reserve.Core.Pricing.{NetworkParams}
use reserve.Core.Quote.{Quote, open_quote, tx_source}
use reserve.Core.Validate.{check_signed_inner}
use reserve.Core.Xdr as Xdr
use reserve.Signer.{Sponsor, wrap_fee_bump, co_sign}
use reserve.Api.Limits.{IpAddr}
use reserve.Api.Channels.{Lane, signer, release}
use reserve.Api.Config.{Config}
use reserve.Api.Metrics.{submitted, failed}
use reserve.Api.Error.{ApiError, api_error, bad_request, of_core, of_horizon, of_signer, or_fail}
use reserve.Api.Action.{Action, and_then, pure, lift, raise, gets, modify, ◌>>=◌, ◌>>◌}
use reserve.Api.State.{
  Crates, Moment, AppState, Service, SponsorFunds, sponsor_funds_of, network_params,
  sponsor_address, set_channels, count, post,
}
use reserve.Api.Caller.{Headers, admit}

pub record SubmitRequest : Type 0 where
  pub quote : Text
  pub signed_xdr : Text

pub record SubmitResponse : Type 0 where
  pub hash : Text
  pub ledger : Option ℕ

unfoldable pub bootstrap_lane_spent : Core.Error → Bool
bootstrap_lane_spent (Core.unclaimable s) = true
bootstrap_lane_spent (Core.quote_expired at) = true
bootstrap_lane_spent (Core.path_moved s) = true
bootstrap_lane_spent (Core.asset s) = false
bootstrap_lane_spent (Core.account s) = false
bootstrap_lane_spent (Core.amount s) = false
bootstrap_lane_spent (Core.no_path token) = false
bootstrap_lane_spent Core.quote_signature = false
bootstrap_lane_spent (Core.mismatch s) = false
bootstrap_lane_spent (Core.unsupported s) = false
bootstrap_lane_spent (Core.xdr s) = false
bootstrap_lane_spent (Core.horizon e) = false

-- What the sponsor has to be able to spend.
unfoldable pub needed_funds : Quote → ℤ → Xdr.TransactionV1Envelope → ℤ
needed_funds q base_fee_stroops inner =
    saturating_add q.reserve_stroops
      (saturating_mul base_fee_stroops (saturating_add (pos (length inner.tx.operations)) (pos 1)))

unfoldable pub float_error : SponsorFunds → ℤ → ApiError
float_error funds needed = api_error 503 (text "sponsor_float") (
    text "sponsor has "
    ++ print_i64 funds.spendable_stroops
    ++ text " spendable stroops, need "
    ++ print_i64 needed
    ++ text " before this fee-bump")

-- The co-signed envelope of a channel.
abbrev pub signed_v1 : Xdr.TransactionEnvelope → Result ApiError Xdr.TransactionV1Envelope
signed_v1 (Xdr.tx v1) = ok v1
signed_v1 (Xdr.tx_v0 bytes) =
    err (api_error 500 (text "signer") (text "channel co-sign produced a fee bump"))
signed_v1 (Xdr.tx_fee_bump bump) =
    err (api_error 500 (text "signer") (text "channel co-sign produced a fee bump"))

module _ (o : Crates) where
  unfoldable pub release_bootstrap : Quote → Service o → Service o
  release_bootstrap q s =
      if is_bootstrap q.mode
      then set_channels o (release (tx_source q) q.sequence s.app.channels) s
      else s

  -- `if let Err(e) = … { if bootstrap_lane_spent(&e) { release_bootstrap(…) }; return Err(e.into()) }`
  unfoldable pub guard_lane : {A : Type 0} → Quote → Result Core.Error A → Action (Service o) A
  guard_lane q (ok a) s = (ok a, s)
  guard_lane q (err e) s =
      (err (of_core e), if bootstrap_lane_spent e then release_bootstrap q s else s)

  -- `if funds.spendable_stroops < needed`
  unfoldable pub guard_float : Quote → SponsorFunds → ℤ → Action (Service o) (Unit {0})
  guard_float q funds needed s =
      if ltb_ℤ funds.spendable_stroops needed
      then (err (float_error funds needed), release_bootstrap q s)
      else (ok tt, s)

  -- The signature of the quote's channel, where the lane is not the sponsor.
  unfoldable pub sign_channel :
      List Lane → Quote → Xdr.TransactionV1Envelope → Result ApiError Xdr.TransactionV1Envelope
  sign_channel lanes q inner = elim (signer lanes (tx_source q)) [
    | none ↦
        err (
          bad_request (text "unknown_channel") (text "this quote's channel is not configured here"))
    | some channel ↦ elim (or_fail of_signer (co_sign o.payloads channel inner q.network)) [
      | ok envelope ↦ signed_v1 envelope
      | err e ↦ err e
    ]
  ]

  -- The fee bump around what the sponsor has signed too.
  abbrev pub bump_signed :
      Config → Quote → ℤ → Xdr.TransactionEnvelope → Result ApiError Xdr.TransactionEnvelope
  bump_signed config q base_fee (Xdr.tx inner) =
      or_fail of_signer (wrap_fee_bump o.payloads config.sponsor inner base_fee q.network)
  bump_signed config q base_fee (Xdr.tx_v0 bytes) = ok (Xdr.tx_v0 bytes)
  bump_signed config q base_fee (Xdr.tx_fee_bump bump) = ok (Xdr.tx_fee_bump bump)

  abbrev pub and_bump :
      Config
      → Quote
      → ℤ
      → Result ApiError Xdr.TransactionEnvelope
      → Result ApiError Xdr.TransactionEnvelope
  and_bump config q base_fee (ok envelope) = bump_signed config q base_fee envelope
  and_bump config q base_fee (err e) = err e

  abbrev pub and_sponsor :
      Config
      → Quote
      → Result ApiError Xdr.TransactionV1Envelope
      → Result ApiError Xdr.TransactionEnvelope
  and_sponsor config q (ok v1) = or_fail of_signer (co_sign o.payloads config.sponsor v1 q.network)
  and_sponsor config q (err e) = err e

  unfoldable pub sign_bootstrap :
      Config
      → List Lane
      → Quote
      → Xdr.TransactionV1Envelope
      → ℤ
      → Result ApiError Xdr.TransactionEnvelope
  sign_bootstrap config lanes q inner base_fee =
      if text_eq (tx_source q) q.sponsor
      then and_sponsor config q (ok inner)
      else and_bump config q base_fee (and_sponsor config q (sign_channel lanes q inner))

  -- The envelope that pays for a transaction, by the quote's mode.
  abbrev pub envelope_of :
      Mode
      → Config
      → List Lane
      → Quote
      → Xdr.TransactionV1Envelope
      → ℤ
      → Result ApiError Xdr.TransactionEnvelope
  envelope_of sponsored config lanes q inner base_fee =
      or_fail of_signer (wrap_fee_bump o.payloads config.sponsor inner base_fee q.network)
  envelope_of bootstrap config lanes q inner base_fee = sign_bootstrap config lanes q inner base_fee

  -- The network's answer to what was posted. The lane is freed either way.
  abbrev pub settle :
      Quote
      → Service o
      → Result ApiError Records.SubmitResponse
      → Result ApiError SubmitResponse × Service o
  settle q s (ok res) = (
    ok (record { hash = res.hash; ledger = res.ledger }),
    release_bootstrap q (count o submitted s),
  )
  settle q s (err e) = (err e, release_bootstrap q (count o failed s))

  unfoldable pub send : Quote → Text → Records.HorizonApi → Action (Service o) SubmitResponse
  send q xdr h s = settle q (post o xdr s) (or_fail of_horizon (h.submit xdr))

  -- What follows the checks: the sponsor's funds, the envelope, and the network.
  unfoldable pub pay :
      Config
      → List Lane
      → Quote
      → NetworkParams
      → Xdr.TransactionV1Envelope
      → (ℕ → Moment)
      → Action (Service o) SubmitResponse
  pay config lanes q params inner m = do
    funds ← lift (
        or_fail of_horizon
          (sponsor_funds_of (m 4).horizon (m 5).horizon (sponsor_address o config)))
    guard_float q funds (needed_funds q params.base_fee_stroops inner)
    envelope ← lift (envelope_of q.mode config lanes q inner params.base_fee_stroops)
    xdr ← lift (or_fail (api_error 500 (text "xdr")) (o.envelope_to_base64 envelope))
    send q xdr (m 6).horizon

  -- `POST /v1/submit`. The moments are those of the calls, in their order.
  unfoldable pub submit :
      Headers → Option IpAddr → SubmitRequest → (ℕ → Moment) → Action (Service o) SubmitResponse
  submit headers peer req m = do
    admit o headers peer (m 0).secs
    app ← gets (λ s. s.app)
    q ← lift (or_fail of_core (open_quote o.sealing req.quote app.config.quote_key))
    params ← lift (or_fail of_horizon (network_params (m 1).horizon))
    guard_lane q (
        ensure_claims (m 2).horizon q.source q.ops q.mode (wrap_i64 (pos (m 2).secs))
          (need_for q.mode q.fee_token q.send_max_stroops))
    guard_lane q (
        ensure_quoted_path (m 3).horizon q.source q.fee_token q.charge_stroops q.send_max_stroops
          q.path)
    inner ←
        guard_lane q (check_signed_inner o.decoders o.codec req.signed_xdr q params.latest_ledger)
    pay app.config app.channels q params inner m
