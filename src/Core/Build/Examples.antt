-- ===== src/Core/Build/Examples.antt =====
-- The inner transaction of a bootstrap quote, and the theorems at it.
use reserve.Base.{
  ℕ, ◌≡◌, refl, none, List, [], ◌∷◌, Option, some, ok, err, pos, codes, text, text_eq, split_once,
}
use reserve.Horizon.Asset.{parse}
use reserve.Core.Asset.{account_id, muxed_account, parse_asset, to_xdr_asset, to_change_trust_asset}
use reserve.Core.Balance.{parse_balance_id}
use reserve.Core.Quote.{tx_source}
use reserve.Core.Error.{Error}
use reserve.Core.Samples.{decoders, user, sponsor, channel, opening_quote}
use reserve.Core.Xdr as Xdr
use reserve.Core.Build.{
  build_inner, build_op, build_ops, asset_of, assets_of, opening_ops, closing_ops,
  sponsorship_source, fee_payment_op, user_source_of, user_source_in, op, claimable_claimants,
  sort_pair, text_lt, reclaim_predicate,
}
use reserve.Core.Build.Inner.{IsInner, build_inner-IsInner, transaction_of}
use reserve.Core.Build.Claimants.{IsPair, claimable_claimants-IsPair}

abbrev user_account : Option Xdr.MuxedAccount
user_account = some (Xdr.ed25519 user)

abbrev usdc_bytes : List ℕ
usdc_bytes = codes "USDC"

abbrev opening_operations : List Xdr.Operation
opening_operations =
    op (some (Xdr.ed25519 sponsor)) (Xdr.begin_sponsoring_future_reserves user)
    ∷ op none (Xdr.create_account user (pos 0))
    ∷ op user_account (
        Xdr.change_trust (Xdr.ChangeTrustAsset.alphanum4 usdc_bytes sponsor)
          (pos 0x7fff_ffff_ffff_ffff))
    ∷ op user_account (
        Xdr.claim_claimable_balance (
          0 ∷ 0 ∷ 0 ∷ 0 ∷ 0 ∷ 0 ∷ 0 ∷ 0 ∷ 0 ∷ 0 ∷ 0 ∷ 0 ∷ 0 ∷ 0 ∷ 0 ∷ 0 ∷ 0 ∷ 0 ∷ 0 ∷ 0 ∷ 0 ∷ 0 ∷ 0
          ∷ 0 ∷ 0 ∷ 0 ∷ 0 ∷ 0 ∷ 0 ∷ 0 ∷ 0 ∷ 0 ∷ []))
    ∷ op user_account Xdr.end_sponsoring_future_reserves
    ∷ op user_account (
        Xdr.path_payment_strict_receive (Xdr.Asset.alphanum4 usdc_bytes sponsor) (pos 303)
          (Xdr.ed25519 sponsor) Xdr.Asset.native (pos 360) [])
    ∷ []

abbrev opening_transaction : Xdr.Transaction
opening_transaction = transaction_of opening_quote (Xdr.ed25519 channel) opening_operations

opening_built : build_inner decoders opening_quote ≡ ok opening_transaction
unfolding build_inner build_op build_ops asset_of assets_of opening_ops closing_ops
    sponsorship_source fee_payment_op user_source_of user_source_in account_id muxed_account
    parse_asset to_xdr_asset to_change_trust_asset parse text text_eq split_once parse_balance_id
    tx_source
opening_built = refl

build_inner-IsInner_example : IsInner decoders opening_quote opening_transaction
build_inner-IsInner_example =
    build_inner-IsInner decoders opening_quote opening_transaction opening_built

abbrev left_pair : List Xdr.Claimant
left_pair =
    record { destination = sponsor; predicate = Xdr.unconditional }
    ∷ record { destination = user; predicate = reclaim_predicate }
    ∷ []

pair_made : claimable_claimants decoders user sponsor ≡ ok left_pair
unfolding claimable_claimants account_id text text_eq sort_pair text_lt
pair_made = refl

self_refused :
    claimable_claimants decoders user user
    ≡ err (Error.unsupported (codes "cannot leave a claimable balance for yourself"))
unfolding claimable_claimants account_id text text_eq sort_pair text_lt
self_refused = refl

claimable_claimants-IsPair_example : IsPair decoders user sponsor left_pair
claimable_claimants-IsPair_example =
    claimable_claimants-IsPair decoders user sponsor left_pair pair_made
