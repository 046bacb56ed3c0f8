-- ===== src/Api/Submit/Examples.antt =====
-- The sample quote, signed and submitted.
use reserve.Base.{
  ◌+ℤ◌, ◌-ℤ◌, ◌*ℤ◌, quot, checked, wrapping_mul, wrap_i64, saturating_add, saturating_mul,
  parse_i64, all_digits, pad_right, ◌≡◌, refl, [], ◌∷◌, ◌++◌, none, some, text, codes, text_eq,
  split_once, ok,
}
use reserve.Core.Samples.{sealing}
use reserve.Horizon.Asset.{parse}
use reserve.Horizon.Amount.{parse_amount_stroops}
use reserve.Horizon.Predicate.{holds, holds_at, leaf_holds}
use reserve.Horizon.Records.{
  claimable_by, any_claims, amount_stroops, source_amount_stroops, native_balance_stroops,
  native_balance,
}
use reserve.Core.Asset.{account_id, muxed_account, parse_asset, to_xdr_asset, to_change_trust_asset}
use reserve.Core.Balance.{parse_balance_id}
use reserve.Core.Claim.{
  ensure_claims, check_claims, check_claim, count_funds, check_found, need_for,
}
use reserve.Core.Path.{
  ensure_quoted_path, check_route, find_quoted, record_matches_quoted_path, hops_of, all_same,
}
use reserve.Core.Quote.{open_quote, differs, difference, tx_source, check_fresh}
use reserve.Core.Build.{
  build_inner, build_op, build_ops, asset_of, assets_of, opening_ops, closing_ops,
  sponsorship_source, fee_payment_op, user_source_of, user_source_in,
}
use reserve.Core.Validate.{check_signed_inner, tx_to_xdr}
use reserve.Signer.{co_sign, wrap_fee_bump, needed_fee, network_id}
use reserve.Signer.Keys.{address}
use reserve.Api.Limits.{limits_new, check, check_caller}
use reserve.Api.Channels.{pool_new, signer}
use reserve.Api.State.{
  app_state_new, set_limits, network_params, sponsor_funds_of, sponsor_address, post, count,
  set_channels,
}
use reserve.Api.Service.{start}
use reserve.Api.Caller.{Headers, admit, enforce, caller_of, anonymous_caller}
use reserve.Api.Samples.{crates, service, moments}
use reserve.Api.Submit.{
  SubmitRequest, submit, pay, send, guard_lane, guard_float, needed_funds, sign_bootstrap,
  release_bootstrap, sign_channel,
}
use reserve.Api.Submit.Posts.{Ends}
use reserve.Api.Submit.Safety.{submit-Ends}

abbrev no_headers : Headers
no_headers name = none

abbrev request : SubmitRequest
request = record {
  quote = sealing.encode (codes "quote") ++ b'.' ∷ sealing.encode (codes "secret" ++ codes "quote");
  signed_xdr = codes "signed";
}

submit-Ends_example :
    Ends crates service request moments (submit crates no_headers none request moments service)
submit-Ends_example = submit-Ends crates no_headers none request moments service

-- It is posted, once.
answered :
    ((submit crates no_headers none request moments service).0
      ≡ ok (record { hash = codes "hash"; ledger = some 109 }))
    × ((submit crates no_headers none request moments service).1.posted ≡ [] ∷ [])
unfolding submit pay send admit enforce check check_caller caller_of anonymous_caller set_limits
    start app_state_new limits_new text text_eq open_quote split_once differs difference build_inner
    build_op build_ops asset_of assets_of opening_ops closing_ops sponsorship_source fee_payment_op
    user_source_of user_source_in account_id muxed_account parse_asset to_xdr_asset
    to_change_trust_asset parse parse_balance_id tx_source network_params guard_lane ensure_claims
    check_claims check_claim count_funds check_found claimable_by any_claims holds need_for
    amount_stroops parse_amount_stroops ensure_quoted_path check_route find_quoted
    record_matches_quoted_path hops_of all_same source_amount_stroops check_signed_inner tx_to_xdr
    check_fresh sponsor_funds_of native_balance_stroops native_balance guard_float needed_funds
    sign_bootstrap sign_channel signer co_sign wrap_fee_bump needed_fee network_id sponsor_address
    address pool_new ◌+ℤ◌ ◌-ℤ◌ ◌*ℤ◌ quot checked wrapping_mul wrap_i64 saturating_add saturating_mul
    parse_i64 all_digits pad_right holds_at leaf_holds post count release_bootstrap set_channels
answered = (refl, refl)
