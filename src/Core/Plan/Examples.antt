-- ===== src/Core/Plan/Examples.antt =====
-- Plans: the unit tests' runs, and the theorems at a request that opens an account.
use reserve.Base.{
  ◌≡◌, ◌≢◌, ◌↔◌, ◌≤◌, ◌<◌, ◌*◌, refl, true, false, List, [], ◌∷◌, none, ok, text, text_eq, pos,
  arith, split_once, wrapping_mul, ◌*ℤ◌,
}
use reserve.Horizon.Asset.{parse}
use reserve.Core.Asset.{account_id, parse_asset}
use reserve.Core.Balance.{parse_balance_id}
use reserve.Core.Samples.{decoders, user, usdc, balance_id}
use reserve.Core.Plan.{
  UserOp, create_account, change_trust, claim_balance, plan_new, reserve_stroops, needs_sponsorship,
  op_count, check_op,
}
use reserve.Core.Plan.Accept.{IsRequest, plan_of, plan_new_iff}
use reserve.Core.Plan.Bounds.{reserves, plan_new_bounds}

abbrev opening : List UserOp
opening = create_account user ∷ change_trust usdc none ∷ claim_balance balance_id ∷ []

opening_accepted : plan_new decoders opening false ≡ ok (plan_of opening false)
unfolding plan_new check_op account_id parse_asset parse text text_eq split_once parse_balance_id
opening_accepted = refl

opening_size :
    (reserve_stroops (plan_of opening false) (pos 5_000_000) ≡ pos 15_000_000)
    × (op_count (plan_of opening false) ≡ 6)
unfolding reserve_stroops op_count wrapping_mul ◌*ℤ◌
opening_size = (refl, refl)

empty_account_refused :
    plan_new decoders (create_account user ∷ []) false
    ≢ ok (plan_of (create_account user ∷ []) false)
unfolding plan_new check_op account_id
empty_account_refused e = cc

plan_new_iff_example :
    (plan_new decoders opening false ≡ ok (plan_of opening false))
    ↔ (IsRequest decoders opening false × (plan_of opening false ≡ plan_of opening false))
plan_new_iff_example = plan_new_iff decoders opening false (plan_of opening false)

plan_new_bounds_example :
    (reserves (plan_of opening false) ≤ 40)
    × (2 ≤ op_count (plan_of opening false))
    × (op_count (plan_of opening false) ≤ 23)
    × (reserve_stroops (plan_of opening false) (pos 5_000_000)
        ≡ pos (reserves (plan_of opening false) * 5_000_000))
    × ((needs_sponsorship (plan_of opening false) ≡ true) ↔ (0 < reserves (plan_of opening false)))
plan_new_bounds_example =
    plan_new_bounds decoders opening false (plan_of opening false) 5_000_000 opening_accepted
      (omega arith)
