-- ===== src/Core/Build.antt =====
-- crates/core/src/build.rs: the inner transaction of a quote.
pub mod Assets
pub mod Shape
pub mod Operations
pub mod Inner
pub mod Claimants
mod Examples
use reserve.Base.{
  ℕ, ◌+◌, Bool, true, false, List, [], ◌∷◌, ◌++◌, Option, none, some, ltb, leb, ◌==◌, if◌then◌else◌,
  length, ℤ, pos, ltb_ℤ, i64_max, Text, text, text_eq, Result, ok, err, ok_or, fail_if, ◌>>=◌, ◌>>◌,
}
use reserve.Horizon.Amount.{parse_amount_stroops}
use reserve.Core.Error.{Error}
use reserve.Core.Asset.{
  Decoders, account_id, muxed_account, parse_asset, to_xdr_asset, to_change_trust_asset,
}
use reserve.Core.Balance.{parse_balance_id}
use reserve.Core.Plan.{
  UserOp, create_account, payment, path_payment_strict_send, change_trust, claim_balance,
  create_claimable_balance, Mode, sponsored, bootstrap, reclaim_after_seconds,
}
use reserve.Core.Quote.{Quote, tx_source}
use reserve.Core.Xdr as Xdr

unfoldable pub parse_amount : Text → Result Error ℤ
parse_amount amount = ok_or (parse_amount_stroops amount) (Error.amount amount)

abbrev pub op : Option Xdr.MuxedAccount → Xdr.OperationBody → Xdr.Operation
op source body = record { source_account = source; body = body }

abbrev pub reclaim_predicate : Xdr.ClaimPredicate
reclaim_predicate = Xdr.not_before_relative_time (pos reclaim_after_seconds)

-- The order of keys, byte by byte.
unfoldable pub text_lt : Text → Text → Bool
text_lt s [] = false
text_lt [] (b ∷ t) = true
text_lt (a ∷ s) (b ∷ t) = let rest = text_lt s t in if a == b then rest else ltb a b

-- `sort_by` of a pair is stable.
unfoldable pub sort_pair : Xdr.Claimant → Xdr.Claimant → List Xdr.Claimant
sort_pair a b = if text_lt b.destination a.destination then b ∷ a ∷ [] else a ∷ b ∷ []

-- A `VecM<_, n>` of the elements, which holds at most `n`.
abbrev pub bounded : {A : Type 0} → ℕ → List A → Text → Result Error (List A)
bounded n xs message = if leb (length xs) n then ok xs else err (Error.unsupported message)

module _ (d : Decoders) where
  unfoldable pub asset_of : Text → Result Error Xdr.Asset
  asset_of a = do parsed ← parse_asset a; to_xdr_asset d parsed

  unfoldable pub assets_of : List Text → Result Error (List Xdr.Asset)
  assets_of [] = ok []
  assets_of (a ∷ path) = do first ← asset_of a; rest ← assets_of path; ok (first ∷ rest)

  unfoldable pub path_assets : List Text → Result Error (List Xdr.Asset)
  path_assets path = do assets ← assets_of path; bounded 5 assets (text "path too long")

  unfoldable pub claimable_claimants : Text → Text → Result Error (List Xdr.Claimant)
  claimable_claimants source destination = do
    fail_if (text_eq source destination)
        (Error.unsupported (text "cannot leave a claimable balance for yourself"))
    receiver ← account_id d destination
    sender ← account_id d source
    bounded 10
        (sort_pair (record { destination = receiver; predicate = Xdr.unconditional })
          (record { destination = sender; predicate = reclaim_predicate }))
        (text "claimants")

  -- The trust line's limit, the largest i64 where the caller gives none.
  abbrev pub limit_of : Option Text → Result Error ℤ
  limit_of none = ok (pos i64_max)
  limit_of (some l) = parse_amount l

  -- One round of the loop over the quote's operations.
  unfoldable pub build_op : Text → Option Xdr.MuxedAccount → UserOp → Result Error Xdr.Operation
  build_op user user_source (create_account destination) = do
    key ← account_id d destination
    ok (op none (Xdr.create_account key (pos 0)))
  build_op user user_source (payment destination asset amount) = do
    to ← muxed_account d destination
    a ← asset_of asset
    n ← parse_amount amount
    ok (op user_source (Xdr.payment to a n))
  build_op user user_source
        (path_payment_strict_send destination send_asset send_amount dest_asset dest_min path) =
      do
        sent ← asset_of send_asset
        amount ← parse_amount send_amount
        to ← muxed_account d destination
        received ← asset_of dest_asset
        least ← parse_amount dest_min
        hops ← path_assets path
        ok (op user_source (Xdr.path_payment_strict_send sent amount to received least hops))
  build_op user user_source (claim_balance balance_id) = do
    hash ← parse_balance_id d balance_id
    ok (op user_source (Xdr.claim_claimable_balance hash))
  build_op user user_source (change_trust asset limit) = do
    parsed ← parse_asset asset
    line ← to_change_trust_asset d parsed
    n ← limit_of limit
    ok (op user_source (Xdr.change_trust line n))
  build_op user user_source (create_claimable_balance destination asset amount) = do
    a ← asset_of asset
    n ← parse_amount amount
    claimants ← claimable_claimants user destination
    ok (op user_source (Xdr.create_claimable_balance a n claimants))

  unfoldable pub build_ops :
      Text → Option Xdr.MuxedAccount → List UserOp → Result Error (List Xdr.Operation)
  build_ops user user_source [] = ok []
  build_ops user user_source (o ∷ ops) = do
    first ← build_op user user_source o
    rest ← build_ops user user_source ops
    ok (first ∷ rest)

  -- The user's account, where the transaction's source is another: only in bootstrap.
  unfoldable pub user_source_in : Mode → Text → Result Error (Option Xdr.MuxedAccount)
  user_source_in sponsored user = ok none
  user_source_in bootstrap user = do account ← muxed_account d user; ok (some account)

  unfoldable pub user_source_of : Quote → Result Error (Option Xdr.MuxedAccount)
  unfolding user_source_in
  user_source_of q = user_source_in q.mode q.source

  unfoldable pub sponsorship_source : Quote → Result Error (Option Xdr.MuxedAccount)
  sponsorship_source q =
      if text_eq (tx_source q) q.sponsor
      then ok none
      else (do account ← muxed_account d q.sponsor; ok (some account))

  unfoldable pub fee_payment_op : Quote → Result Error Xdr.Operation
  fee_payment_op q = do
    token ← parse_asset q.fee_token
    path ← assets_of q.path
    payer ← user_source_of q
    send_asset ← to_xdr_asset d token
    sponsor ← muxed_account d q.sponsor
    hops ← bounded 5 path (text "path too long")
    ok (
        op payer (
          Xdr.path_payment_strict_receive send_asset q.send_max_stroops sponsor Xdr.Asset.native
            q.charge_stroops hops))

  abbrev pub needs_sponsorship : Quote → Bool
  needs_sponsorship q = ltb_ℤ (pos 0) q.reserve_stroops

  abbrev pub begin_ops : Quote → Result Error (List Xdr.Operation)
  begin_ops q = do
    source ← sponsorship_source q
    user ← account_id d q.source
    ok (op source (Xdr.begin_sponsoring_future_reserves user) ∷ [])

  abbrev pub end_ops : Quote → Result Error (List Xdr.Operation)
  end_ops q = do
    user ← muxed_account d q.source
    ok (op (some user) Xdr.end_sponsoring_future_reserves ∷ [])

  -- The operations that open and close the sponsorship, none where nothing is reserved.
  unfoldable pub opening_ops : Quote → Result Error (List Xdr.Operation)
  opening_ops q = if needs_sponsorship q then begin_ops q else ok []

  unfoldable pub closing_ops : Quote → Result Error (List Xdr.Operation)
  closing_ops q = if needs_sponsorship q then end_ops q else ok []

  unfoldable pub build_inner : Quote → Result Error Xdr.Transaction
  build_inner q = do
    source ← muxed_account d (tx_source q)
    opening ← opening_ops q
    user_source ← user_source_of q
    user_ops ← build_ops q.source user_source q.ops
    closing ← closing_ops q
    fee_payment ← fee_payment_op q
    operations ←
        bounded 100 (opening ++ user_ops ++ closing ++ fee_payment ∷ [])
          (text "too many operations")
    ok (record {
      source_account = source;
      fee = q.inner_fee_stroops;
      seq_num = q.sequence;
      cond = Xdr.Preconditions.time q.min_time q.max_time;
      memo = Xdr.Memo.none;
      operations = operations;
      ext = Xdr.TransactionExt.v0;
    })
