-- ===== src/Core/Claim/Examples.antt =====
-- Claims at a Horizon of which every balance is 25 of the token.
use reserve.Base.{
  ◌≡◌, ◌↔◌, refl, List, [], ◌∷◌, Option, some, ok, pos, ℤ, text, text_eq, split_once, all_digits,
  pad_right, checked, ◌*ℤ◌, parse_i64, saturating_add, ◌+ℤ◌,
}
use reserve.Horizon.Amount.{parse_amount_stroops}
use reserve.Horizon.Predicate.{holds, holds_at, leaf_holds}
use reserve.Horizon.Records.{claimable_by, amount_stroops}
use reserve.Core.Plan.{UserOp, create_account, claim_balance, bootstrap}
use reserve.Core.Samples.{horizon, user, usdc, balance_id}
use reserve.Core.Claim.{
  ClaimNeed, ensure_claims, check_claims, check_claim, count_funds, check_found,
}
use reserve.Core.Claim.Funds.{claims_of}
use reserve.Core.Claim.Cover.{AllClaimable, Covers, ensure_claims_iff}

abbrev need : ℤ → Option ClaimNeed
need n = some (record { asset = usdc; min_stroops = n })

abbrev request : List UserOp
request = create_account user ∷ claim_balance balance_id ∷ []

request_accepted :
    ensure_claims horizon user request bootstrap (pos 1) (need (pos 250_000_000)) ≡ ok tt
unfolding ensure_claims check_claims check_claim count_funds check_found claimable_by amount_stroops
    holds holds_at leaf_holds text text_eq parse_amount_stroops split_once all_digits parse_i64
    pad_right checked ◌*ℤ◌ ◌+ℤ◌ saturating_add
request_accepted = refl

ensure_claims_iff_example :
    (ensure_claims horizon user request bootstrap (pos 1) (need (pos 250_000_000)) ≡ ok tt) ↔ (
      (amounts : List ℤ) × AllClaimable horizon user
        (pos 1)
        (need (pos 250_000_000))
        (claims_of request)
        amounts
      × Covers (need (pos 250_000_000)) bootstrap (claims_of request) amounts)
ensure_claims_iff_example =
    ensure_claims_iff horizon user request bootstrap (pos 1) (need (pos 250_000_000))

-- One balance, named twice, counts twice against what is needed.
twice_accepted :
    ensure_claims horizon user
      (create_account user ∷ claim_balance balance_id ∷ claim_balance balance_id ∷ [])
      bootstrap
      (pos 1)
      (need (pos 500_000_000))
    ≡ ok tt
unfolding ensure_claims check_claims check_claim count_funds check_found claimable_by amount_stroops
    holds holds_at leaf_holds text text_eq parse_amount_stroops split_once all_digits parse_i64
    pad_right checked ◌*ℤ◌ ◌+ℤ◌ saturating_add
twice_accepted = refl
