-- ===== src/Core/Claim.antt =====
-- crates/core/src/claim.rs: whether the claims of a request will succeed.
pub mod Funds
pub mod Cover
mod Examples
use reserve.Base.{
  ℕ, Bool, true, false, not, ◌&&◌, ◌||◌, List, [], ◌∷◌, ◌++◌, Option, none, some, if◌then◌else◌, ℤ,
  pos, ltb_ℤ, saturating_add, print_i64, Text, text, text_eq, Result, ok, err, ok_or, fail_if,
  ◌>>=◌, ◌>>◌,
}
use reserve.Horizon.Records.{HorizonApi, ClaimableBalance, claimable_by, amount_stroops}
use reserve.Core.Error.{Error, from_horizon}
use reserve.Core.Plan.{
  UserOp, create_account, payment, path_payment_strict_send, change_trust, claim_balance,
  create_claimable_balance, Mode, is_bootstrap,
}

pub record ClaimNeed : Type 0 where
  pub asset : Text
  pub min_stroops : ℤ

-- The variables of the loop.
pub record Found : Type 0 where
  pub payable : ℤ
  pub saw_fee_asset : Bool
  pub saw_claim : Bool

abbrev pub nothing_found : Found
nothing_found = record { payable = pos 0; saw_fee_asset = false; saw_claim = false }

abbrev pub add_funds : ClaimableBalance → Found → Result Error Found
add_funds balance f = do
  amount ←
      ok_or (amount_stroops balance)
        (Error.unclaimable (text "claimable balance amount is unreadable"))
  ok (record f { payable = saturating_add f.payable amount; saw_fee_asset = true })

-- `if let Some(need) = need { … }` in the loop.
unfoldable pub count_funds : Option ClaimNeed → ClaimableBalance → Found → Result Error Found
count_funds none balance f = ok f
count_funds (some need) balance f =
    if text_eq balance.asset need.asset then add_funds balance f else ok f

module _ (horizon : HorizonApi) (source : Text) (now : ℤ) (need : Option ClaimNeed) where
  unfoldable pub check_claim : Text → Found → Result Error Found
  check_claim balance_id f = do
    answer ← from_horizon (horizon.claimable_balance balance_id)
    balance ←
        ok_or answer
          (Error.unclaimable (text "claimable balance " ++ balance_id ++ text " does not exist"))
    fail_if (not (claimable_by balance source now))
        (Error.unclaimable (source ++ text " cannot claim " ++ balance_id ++ text " yet"))
    count_funds need balance (record f { saw_claim = true })

  -- `let UserOp::ClaimBalance { balance_id } = op else { continue }`
  unfoldable pub check_claims : List UserOp → Found → Result Error Found
  check_claims [] f = ok f
  check_claims (claim_balance balance_id ∷ ops) f = do
    f' ← check_claim balance_id f
    check_claims ops f'
  check_claims (create_account destination ∷ ops) f = check_claims ops f
  check_claims (payment destination asset amount ∷ ops) f = check_claims ops f
  check_claims (path_payment_strict_send a b c d e path ∷ ops) f = check_claims ops f
  check_claims (change_trust asset limit ∷ ops) f = check_claims ops f
  check_claims (create_claimable_balance destination asset amount ∷ ops) f = check_claims ops f

-- The tests behind the loop.
unfoldable pub check_found : Mode → Option ClaimNeed → Found → Result Error (Unit {0})
check_found mode none f = ok tt
check_found mode (some need) f = do
  fail_if (is_bootstrap mode && f.saw_claim && not f.saw_fee_asset) (
      Error.unclaimable (
        text "the arriving funds are not in "
        ++ need.asset
        ++ text ", so the new account cannot pay the fee"))
  fail_if (f.saw_fee_asset && ltb_ℤ f.payable need.min_stroops) (
      Error.unclaimable (
        text "claimable funds are "
        ++ print_i64 f.payable
        ++ text " stroops, the fee may take "
        ++ print_i64 need.min_stroops))

unfoldable pub ensure_claims :
    HorizonApi → Text → List UserOp → Mode → ℤ → Option ClaimNeed → Result Error (Unit {0})
ensure_claims horizon source ops mode now need = do
  f ← check_claims horizon source now need ops nothing_found
  check_found mode need f

unfoldable pub need_for : Mode → Text → ℤ → Option ClaimNeed
need_for mode fee_token send_max_stroops =
    if is_bootstrap mode
    then some (record { asset = fee_token; min_stroops = send_max_stroops })
    else none
