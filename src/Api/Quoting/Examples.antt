-- ===== src/Api/Quoting/Examples.antt =====
-- A sponsored payment that is quoted, and a bootstrap quote that is built and signed.
use reserve.Base.{
  ℕ, err, ◌≡◌, refl, sym, ap, ◌∙◌, false, [], ◌∷◌, none, pos, Text, text, codes, text_eq, Result,
  ok, ok_or, split_once, arith, ◌++◌, wrapping_mul, wrapping_add, ◌*ℤ◌, ◌+ℤ◌, ◌-ℤ◌, saturating_mul,
  saturating_add, wrap_i64, quot, parse_i64, all_digits, checked, wrap_u32,
}
use reserve.Core.Samples.{decoders, user, sponsor, sealing, sealing-IsCodec, opening_quote}
use reserve.Core.Plan.{sponsored, payment, create_account}
use reserve.Core.Error.{Error}
use reserve.Core.Quote.{open_quote}
use reserve.Core.Build.{
  build_inner, build_op, build_ops, asset_of, assets_of, opening_ops, closing_ops,
  sponsorship_source, fee_payment_op, user_source_of, user_source_in,
}
use reserve.Core.Balance.{parse_balance_id}
use reserve.Core.Validate.{check_signed_inner}
use reserve.Core.Xdr as Xdr
use reserve.Horizon.Asset.{parse, canonical}
use reserve.Horizon.Records.{sequence_i64}
use reserve.Core.Asset.{parse_asset, account_id, muxed_account, to_xdr_asset, to_change_trust_asset}
use reserve.Core.Tokens.{
  allows, slippage_bps, find, find_token, known_tokens, token_canonical, testnet,
}
use reserve.Core.Plan.{plan_new, check_op, op_count, reserve_stroops}
use reserve.Core.Pricing.{price, cost_of, charge_of, network_fee, apply_bps}
use reserve.Core.Claim.{ensure_claims, check_claims, check_found, need_for}
use reserve.Core.Quote.{seal, differs, difference, tx_source}
use reserve.Signer.Keys.{address}
use reserve.Api.Limits.{limits_new, check, check_caller}
use reserve.Api.Metrics.{quoted}
use reserve.Api.Error.{of_core}
use reserve.Api.State.{app_state_new, Moment, set_limits, count, network_params, sponsor_address}
use reserve.Api.Service.{start}
use reserve.Api.Caller.{Headers, admit, enforce, caller_of, anonymous_caller}
use reserve.Api.Samples.{crates, service, open_horizon, moments, unsigned, signatures}
use reserve.Api.Quoting.{
  QuoteRequest, QuoteResponse, BuildResponse, quote, build, cost_and_issue, issue, place, quote_of,
  check_token,
}
use reserve.Api.Quoting.Sound.{IsQuoted, Leases}
use reserve.Api.Quoting.Flow.{quoted_of, quote_opens, built_passes}

abbrev no_headers : Headers
no_headers name = none

abbrev request : QuoteRequest
request = record {
  source = user;
  fee_token = codes "native";
  ops = payment sponsor (codes "native") (codes "1") ∷ [];
}

abbrev response : QuoteResponse
response = record {
  quote = sealing.encode (codes "quote") ++ b'.' ∷ sealing.encode (codes "secret" ++ codes "quote");
  mode = sponsored;
  charge_stroops = pos 56_000;
  send_max_stroops = pos 56_000;
  reserve_stroops = pos 0;
  slippage_bps = 0;
  creates_account = false;
  expires_at_ledger = 120;
}

answered : (quote crates no_headers none request moments service).0 ≡ ok response
unfolding quote cost_and_issue issue place quote_of admit enforce check check_caller caller_of
    anonymous_caller parse_asset parse text_eq text check_token allows set_limits count start
    app_state_new limits_new plan_new check_op account_id network_params price cost_of charge_of
    network_fee op_count reserve_stroops wrapping_mul wrapping_add ◌*ℤ◌ ◌+ℤ◌ ◌-ℤ◌ saturating_mul
    saturating_add apply_bps slippage_bps find find_token known_tokens token_canonical wrap_i64 quot
    ensure_claims check_found need_for seal sequence_i64 parse_i64 all_digits checked wrap_u32
    split_once sponsor_address address quoted check_claims canonical
answered = refl

-- A token that cannot be read, for an account that does not exist.
abbrev nobody_yet : ℕ → Moment
nobody_yet n = record (moments n) { horizon = record open_horizon { account = λ id. ok none } }

abbrev opening_request : QuoteRequest
opening_request = record {
  source = user;
  fee_token = codes "ignored";
  ops = create_account user ∷ [];
}

token_refused :
    (quote crates no_headers none opening_request nobody_yet service).0
    ≡ err (of_core (Error.asset (codes "ignored")))
unfolding quote admit enforce check check_caller caller_of anonymous_caller parse_asset parse
    text_eq text set_limits start app_state_new limits_new split_once
token_refused = refl

quote_opens_example :
    Leases crates service (quote crates no_headers none request moments service).1
    × ((q : IsQuoted crates service request moments response) × (payload : Text) × (sealing.to_json
            (quoted_of crates service request moments response q)
          ≡ ok payload)
        × (open_quote sealing response.quote service.app.config.quote_key
            ≡ ok_or (sealing.from_json payload) Error.quote_signature))
quote_opens_example =
    quote_opens crates no_headers none request moments service response sealing-IsCodec answered

-- Whatever the token, the sealing reads it as the sample quote, if its code is right.
abbrev token : Text
token = response.quote

abbrev built_response : BuildResponse
built_response = record { xdr = []; network_passphrase = testnet; signers = user ∷ [] }

sample_builds : build_inner decoders opening_quote ≡ ok unsigned.tx
unfolding build_inner build_op build_ops asset_of assets_of opening_ops closing_ops
    sponsorship_source fee_payment_op user_source_of user_source_in account_id muxed_account
    parse_asset to_xdr_asset to_change_trust_asset parse text text_eq split_once parse_balance_id
    tx_source
sample_builds = refl

token_opens : open_quote sealing token (codes "secret") ≡ ok opening_quote
unfolding open_quote split_once differs difference
token_opens = refl

built : (build crates no_headers none token moments service).0 ≡ ok built_response
unfolding build admit enforce check check_caller caller_of anonymous_caller set_limits start
    app_state_new limits_new text text_eq open_quote split_once differs difference build_inner
    build_op build_ops asset_of assets_of opening_ops closing_ops sponsorship_source fee_payment_op
    user_source_of user_source_in account_id muxed_account parse_asset to_xdr_asset
    to_change_trust_asset parse parse_balance_id tx_source
built = refl

tx-injective :
    {s t : Xdr.Transaction} → ◌≡◌ {A = Result Error Xdr.Transaction} (ok s) (ok t) → s ≡ t
tx-injective h = cc

unsigned_as :
    (tx : Xdr.Transaction)
    → unsigned.tx ≡ tx
    → crates.codec.from_base64 [] ≡ ok (Xdr.tx (record { tx = tx; signatures = [] }))
unsigned_as tx e = ap (λ (t : Xdr.Transaction). as_read t) e
  where
    as_read : Xdr.Transaction → Result Text Xdr.TransactionEnvelope
    as_read t = ok (Xdr.tx (record { tx = t; signatures = [] }))

built_passes_example :
    check_signed_inner decoders crates.codec (codes "signed") opening_quote 120
    ≡ ok (record unsigned { signatures = signatures })
unfolding start app_state_new
built_passes_example =
    built_passes crates no_headers none token moments service built_response opening_quote unsigned
      signatures (codes "signed") (unsigned.tx.fee ∷ []) 120 built token_opens
      (λ tx b e. unsigned_as tx (tx-injective (sym sample_builds ∙ b))) refl refl (λ e. cc) refl
      (omega arith)
