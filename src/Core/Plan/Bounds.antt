-- ===== src/Core/Plan/Bounds.antt =====
-- The size of an accepted plan: no counter and no reserve overflows.
use native.Mathlib.Nat.{le_trans, mul-le-mul_right}
use reserve.Base.{
  ℕ, ◌+◌, ◌*◌, ◌≤◌, ◌<◌, ◌≡◌, ◌↔◌, Bool, true, List, [], ◌∷◌, length, pos, i64_max,
  wrapping_mul-pos, ok, arith,
}
use reserve.Core.Asset.{Decoders}
use reserve.Core.Plan.{
  UserOp, create_account, payment, path_payment_strict_send, change_trust, claim_balance,
  create_claimable_balance, Plan, plan_new, needs_sponsorship, reserve_stroops, op_count,
}
use reserve.Core.Plan.Accept.{
  sum_of, creates_accounts, creates_subentries, creates_claimants, plan_new_iff, plan_of,
}

-- The base reserves that a plan locks.
abbrev pub reserves : Plan → ℕ
reserves p = p.new_accounts * 2 + p.new_subentries + p.new_claimants

op-le : (op : UserOp) → creates_accounts op * 2 + creates_subentries op + creates_claimants op ≤ 2
op-le (create_account destination) = omega arith
op-le (payment destination asset amount) = omega arith
op-le (path_payment_strict_send a b c d e f) = omega arith
op-le (change_trust asset limit) = omega arith
op-le (claim_balance id) = omega arith
op-le (create_claimable_balance destination asset amount) = omega arith

ops-le :
    (ops : List UserOp)
    → sum_of creates_accounts ops * 2 + sum_of creates_subentries ops + sum_of creates_claimants ops
      ≤ 2 * length ops
ops-le [] = omega arith
ops-le (op ∷ ops) = omega (arith, ops-le ops, op-le op)

plan_of-le : (ops : List UserOp) (exists : Bool) → reserves (plan_of ops exists) ≤ 2 * length ops
plan_of-le ops exists = ops-le ops

-- At most 40 base reserves and 23 operations, and exactly as much reserved as the entries cost, if
-- 40 base reserves fit an i64.
pub plan_new_bounds :
    (d : Decoders) (ops : List UserOp) (exists : Bool) (p : Plan) (base : ℕ)
    → plan_new d ops exists ≡ ok p
    → 40 * base ≤ i64_max
    → (reserves p ≤ 40)
      × (2 ≤ op_count p)
      × (op_count p ≤ 23)
      × (reserve_stroops p (pos base) ≡ pos (reserves p * base))
      × ((needs_sponsorship p ≡ true) ↔ (0 < reserves p))
unfolding op_count reserve_stroops
plan_new_bounds d ops exists p base h fits =
    let (req, e) = (plan_new_iff d ops exists p).0 h in
    let few : reserves p ≤ 2 * length p.ops = rw e (plan_of-le ops exists) in
    let size : (0 < length p.ops) × (length p.ops ≤ 20) = rw e (req.some_op, req.at_most) in
    let total : reserves p * base ≤ i64_max =
      le_trans (mul-le-mul_right base (let e : reserves p ≤ 40 = omega arith in e)) fits in
    (
      omega arith,
      ground arith,
      ground arith,
      wrapping_mul-pos (reserves p) base total,
      (λ t. ground arith, λ t. ground arith),
    )
