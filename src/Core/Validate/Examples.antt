-- ===== src/Core/Validate/Examples.antt =====
-- A signed envelope of a bootstrap quote.
use reserve.Base.{◌≡◌, ◌↔◌, refl, [], ◌∷◌, ok, err, text, text_eq, pos, split_once}
use reserve.Horizon.Asset.{parse}
use reserve.Core.Samples.{decoders, opening_quote, user}
use reserve.Core.Xdr as Xdr
use reserve.Core.Error.{Error}
use reserve.Core.Asset.{account_id, muxed_account, parse_asset, to_xdr_asset, to_change_trust_asset}
use reserve.Core.Balance.{parse_balance_id}
use reserve.Core.Quote.{check_fresh, tx_source}
use reserve.Core.Build.{
  build_inner, build_op, build_ops, asset_of, assets_of, opening_ops, closing_ops,
  sponsorship_source, fee_payment_op, user_source_of, user_source_in,
}
use reserve.Core.Validate.{Codec, check_signed_inner, tx_to_xdr}
use reserve.Core.Validate.Accept.{IsSigned, check_signed_inner_iff}

-- A codec that writes the fee alone and reads one envelope.
abbrev bare : Xdr.Transaction
bare = record {
  source_account = Xdr.ed25519 user;
  fee = 600;
  seq_num = pos 0;
  cond = Xdr.Preconditions.time 0 0;
  memo = Xdr.Memo.none;
  operations = [];
  ext = Xdr.TransactionExt.v0;
}

abbrev signed : Xdr.TransactionV1Envelope
signed = record { tx = bare; signatures = record { hint = []; signature = [] } ∷ [] }

abbrev codec : Codec
codec = record { to_base64 = λ tx. ok (tx.fee ∷ []); from_base64 = λ s. ok (Xdr.tx signed) }

check_signed_inner_iff_example :
    (check_signed_inner decoders codec [] opening_quote 100 ≡ ok signed)
    ↔ IsSigned decoders codec [] opening_quote 100 signed
check_signed_inner_iff_example = check_signed_inner_iff decoders codec [] opening_quote 100 signed

accepted : check_signed_inner decoders codec [] opening_quote 100 ≡ ok signed
unfolding check_signed_inner tx_to_xdr check_fresh build_inner build_op build_ops asset_of assets_of
    opening_ops closing_ops sponsorship_source fee_payment_op user_source_of user_source_in
    account_id muxed_account parse_asset to_xdr_asset to_change_trust_asset parse text text_eq
    split_once parse_balance_id tx_source
accepted = refl

expired : check_signed_inner decoders codec [] opening_quote 121 ≡ err (Error.quote_expired 120)
unfolding check_signed_inner check_fresh
expired = refl
