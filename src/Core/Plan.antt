-- ===== src/Core/Plan.antt =====
-- crates/core/src/plan.rs: what the caller asked for, and what that costs in reserves.
pub mod Accept
pub mod Bounds
mod Examples
use reserve.Base.{
  ℕ, ◌+◌, ◌*◌, Bool, true, false, ◌&&◌, ◌||◌, List, [], ◌∷◌, Option, ltb, ◌==◌, if◌then◌else◌,
  length, ℤ, pos, wrapping_mul, Text, text, Result, ok, err, fail_if, ◌>>=◌, ◌>>◌,
}
use reserve.Horizon.Asset.{Asset, native, credit}
use reserve.Core.Error.{Error}
use reserve.Core.Asset.{Decoders, account_id, parse_asset}
use reserve.Core.Balance.{parse_balance_id}

abbrev pub reclaim_after_seconds : ℕ
reclaim_after_seconds = 7 * 24 * 60 * 60

abbrev pub claimable_claimants : ℕ
claimable_claimants = 2

-- The fields stand in the order of the source: a payment is its destination, asset and amount, and a
-- swap its destination, the asset and amount sent, the asset and least amount received, and its path.
pub data UserOp : Type 0 where
  create_account : Text → UserOp
  payment : Text → Text → Text → UserOp
  path_payment_strict_send : Text → Text → Text → Text → Text → List Text → UserOp
  change_trust : Text → Option Text → UserOp
  claim_balance : Text → UserOp
  create_claimable_balance : Text → Text → Text → UserOp

pub data Mode : Type 0 where
  sponsored bootstrap : Mode

pub record Plan : Type 0 where
  pub mode : Mode
  pub ops : List UserOp
  pub new_accounts : ℕ
  pub new_subentries : ℕ
  pub new_claimants : ℕ

-- The counters of the loop. They are at most twice the number of operations, so no u32 overflows.
pub record Counters : Type 0 where
  pub accounts : ℕ
  pub subentries : ℕ
  pub claimants : ℕ
  pub claims : ℕ

abbrev pub no_counts : Counters
no_counts = record { accounts = 0; subentries = 0; claimants = 0; claims = 0 }

abbrev is_empty : List UserOp → Bool
is_empty [] = true
is_empty (op ∷ ops) = false

abbrev pub is_bootstrap : Mode → Bool
is_bootstrap sponsored = false
is_bootstrap bootstrap = true

-- `for hop in path { parse_asset(hop)?; }`
unfoldable pub check_hops : List Text → Result Error (Unit {0})
unfolding parse_asset
check_hops [] = ok tt
check_hops (hop ∷ hops) = do asset ← parse_asset hop; check_hops hops

abbrev check_line : Asset → Result Error (Unit {0})
check_line native = err (Error.asset (text "cannot trust the native asset"))
check_line (credit code issuer) = ok tt

module _ (d : Decoders) where
  -- One round of the loop over the operations.
  unfoldable pub check_op : UserOp → Counters → Result Error Counters
  unfolding check_hops
  check_op (create_account destination) c = do
    key ← account_id d destination
    ok (record c { accounts = c.accounts + 1 })
  check_op (change_trust asset limit) c = do
    a ← parse_asset asset
    check_line a
    ok (record c { subentries = c.subentries + 1 })
  check_op (payment destination asset amount) c = do
    key ← account_id d destination
    a ← parse_asset asset
    ok c
  check_op (path_payment_strict_send destination send_asset send_amount dest_asset dest_min path)
        c =
      do
        key ← account_id d destination
        a ← parse_asset send_asset
        b ← parse_asset dest_asset
        fail_if (ltb 5 (length path)) (Error.unsupported (text "path too long"))
        check_hops path
        ok c
  check_op (claim_balance balance_id) c = do
    hash ← parse_balance_id d balance_id
    ok (record c { claims = c.claims + 1 })
  check_op (create_claimable_balance destination asset amount) c = do
    key ← account_id d destination
    a ← parse_asset asset
    ok (record c { claimants = c.claimants + claimable_claimants })

  unfoldable pub check_ops : List UserOp → Counters → Result Error Counters
  check_ops [] c = ok c
  check_ops (op ∷ ops) c = do c' ← check_op op c; check_ops ops c'

  unfoldable pub plan_new : List UserOp → Bool → Result Error Plan
  unfolding check_ops
  plan_new ops account_exists = do
    fail_if (is_empty ops) (Error.unsupported (text "no operations"))
    fail_if (ltb 20 (length ops)) (Error.unsupported (text "too many operations"))
    c ← check_ops ops no_counts
    let mode = if account_exists then sponsored else bootstrap
    fail_if (is_bootstrap mode && ltb 0 c.claimants) (
        Error.unsupported
          (text "an account that does not exist yet cannot send; it can only claim"))
    fail_if (is_bootstrap mode && c.claims == 0) (
        Error.unsupported (
          text
            "a new account has to be funded in the same transaction: include a claim_balance operation for money left to this address"))
    ok (record {
      mode = mode;
      ops = ops;
      new_accounts = c.accounts;
      new_subentries = c.subentries;
      new_claimants = c.claimants;
    })

unfoldable pub needs_sponsorship : Plan → Bool
needs_sponsorship p = ltb 0 p.new_accounts || ltb 0 p.new_subentries || ltb 0 p.new_claimants

unfoldable pub reserve_stroops : Plan → ℤ → ℤ
reserve_stroops p base_reserve_stroops =
    wrapping_mul (pos (p.new_accounts * 2 + p.new_subentries + p.new_claimants))
      base_reserve_stroops

-- The sponsorship sandwich, the user's operations and the fee payment.
unfoldable pub op_count : Plan → ℕ
unfolding needs_sponsorship
op_count p = length p.ops + (if needs_sponsorship p then 2 else 0) + 1
