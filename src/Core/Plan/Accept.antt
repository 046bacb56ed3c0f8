-- ===== src/Core/Plan/Accept.antt =====
-- The requests that `plan_new` accepts, and the plan that it makes of them.
use reserve.Base.{
  ℕ, ◌+◌, ◌≤◌, ◌<◌, ◌≡◌, ◌↔◌, ◌⊎◌, refl, ap, ◌∙◌, Bool, true, false, List, [], ◌∷◌, ltb,
  if◌then◌else◌, length, Text, Result, ok, fail_if, ◌>>◌, arith, >>=-eq-ok,
}
use reserve.Horizon.Asset.{Asset, native, credit}
use reserve.Core.Error.{Error}
use reserve.Core.Asset.{Decoders, account_id, parse_asset}
use reserve.Core.Balance.{parse_balance_id}
use reserve.Core.Plan.{
  UserOp, create_account, payment, path_payment_strict_send, change_trust, claim_balance,
  create_claimable_balance, sponsored, bootstrap, Plan, Counters, no_counts, check_hops, check_op,
  check_ops, plan_new, check_line, is_empty,
}

abbrev pub IsOk : {A : Type 0} → Result Error A → Type 0
IsOk {A} r = (a : A) × (r ≡ ok a)

abbrev pub AllAssets : List Text → Type 0
AllAssets [] = Unit
AllAssets (hop ∷ hops) = IsOk (parse_asset hop) × AllAssets hops

abbrev pub IsLine : Text → Type 0
IsLine asset = (code : Text) × (issuer : Text) × (parse_asset asset ≡ ok (credit code issuer))

-- The entries that an operation creates, by its kind.
abbrev pub creates_accounts : UserOp → ℕ
creates_accounts (create_account destination) = 1
creates_accounts _ = 0

abbrev pub creates_subentries : UserOp → ℕ
creates_subentries (change_trust asset limit) = 1
creates_subentries _ = 0

abbrev pub creates_claimants : UserOp → ℕ
creates_claimants (create_claimable_balance destination asset amount) = 2
creates_claimants _ = 0

abbrev pub makes_claims : UserOp → ℕ
makes_claims (claim_balance balance_id) = 1
makes_claims _ = 0

abbrev pub sum_of : (UserOp → ℕ) → List UserOp → ℕ
sum_of f [] = 0
sum_of f (op ∷ ops) = f op + sum_of f ops

-- The counters behind one operation.
abbrev counted : UserOp → Counters → Counters
counted op c = record {
  accounts = c.accounts + creates_accounts op;
  subentries = c.subentries + creates_subentries op;
  claimants = c.claimants + creates_claimants op;
  claims = c.claims + makes_claims op;
}

abbrev counted_all : List UserOp → Counters → Counters
counted_all ops c = record {
  accounts = c.accounts + sum_of creates_accounts ops;
  subentries = c.subentries + sum_of creates_subentries ops;
  claimants = c.claimants + sum_of creates_claimants ops;
  claims = c.claims + sum_of makes_claims ops;
}

check_hops_complete : (path : List Text) → AllAssets path → check_hops path ≡ ok tt
unfolding check_hops
check_hops_complete [] h = refl
check_hops_complete (hop ∷ hops) h = rw h.0.1 (check_hops_complete hops h.1)

check_hops_sound : (path : List Text) → check_hops path ≡ ok tt → AllAssets path
unfolding check_hops
check_hops_sound [] h = tt
check_hops_sound (hop ∷ hops) h =
    let (a, e, rest) = >>=-eq-ok (parse_asset hop) (λ _. check_hops hops) h in
    ((a, e), check_hops_sound hops rest)

check_line_sound :
    (a : Asset) (n c' : Counters)
    → (check_line a >> ok n) ≡ ok c'
    → (code : Text) × (issuer : Text) × (a ≡ credit code issuer) × (c' ≡ n)
check_line_sound native n c' h = cc
check_line_sound (credit code issuer) n c' h = (code, issuer, refl, ground arith)

module _ (d : Decoders) where
  -- What each kind of operation must name.
  abbrev pub IsOp : UserOp → Type 0
  IsOp (create_account destination) = IsOk (account_id d destination)
  IsOp (payment destination asset amount) =
      IsOk (account_id d destination) × IsOk (parse_asset asset)
  IsOp (path_payment_strict_send destination send_asset send_amount dest_asset dest_min path) =
      IsOk (account_id d destination)
      × IsOk (parse_asset send_asset)
      × IsOk (parse_asset dest_asset)
      × (length path ≤ 5)
      × AllAssets path
  IsOp (change_trust asset limit) = IsLine asset
  IsOp (claim_balance balance_id) = IsOk (parse_balance_id d balance_id)
  IsOp (create_claimable_balance destination asset amount) =
      IsOk (account_id d destination) × IsOk (parse_asset asset)

  abbrev pub AllOps : List UserOp → Type 0
  AllOps [] = Unit
  AllOps (op ∷ ops) = IsOp op × AllOps ops

  check_op_complete : (op : UserOp) (c : Counters) → IsOp op → check_op d op c ≡ ok (counted op c)
  unfolding check_op
  check_op_complete (create_account destination) c h = rw h.1 (ground arith)
  check_op_complete (payment destination asset amount) c h = rw (h.0.1, h.1.1) (ground arith)
  check_op_complete (path_payment_strict_send destination sa sm da dm path) c h =
      rw (h.0.1, h.1.1, h.2.1, check_hops_complete path h.4) (ground arith)
  check_op_complete (change_trust asset limit) c h = rw h.2 (ground arith)
  check_op_complete (claim_balance balance_id) c h = rw h.1 (ground arith)
  check_op_complete (create_claimable_balance destination asset amount) c h =
      rw (h.0.1, h.1.1) (ground arith)

  check_op_sound :
      (op : UserOp) (c c' : Counters) → check_op d op c ≡ ok c' → IsOp op × (c' ≡ counted op c)
  unfolding check_op
  check_op_sound (create_account destination) c c' h =
      let (key, e, r) = >>=-eq-ok (account_id d destination) _ h in ((key, e), ground arith)
  check_op_sound (payment destination asset amount) c c' h =
      let (key, e, r) = >>=-eq-ok (account_id d destination) _ h in
      let (a, f, s) = >>=-eq-ok (parse_asset asset) _ r in (((key, e), (a, f)), ground arith)
  check_op_sound (path_payment_strict_send destination sa sm da dm path) c c' h =
      let (key, e, r) = >>=-eq-ok (account_id d destination) _ h in
      let (a, f, s) = >>=-eq-ok (parse_asset sa) _ r in
      let (b, g, t) = >>=-eq-ok (parse_asset da) _ s in
      let (_, short, u) = >>=-eq-ok (fail_if (ltb 5 (length path)) _) _ t in
      let (_, all, v) = >>=-eq-ok (check_hops path) _ u in
      (((key, e), (a, f), (b, g), ground arith, check_hops_sound path all), ground arith)
  check_op_sound (change_trust asset limit) c c' h =
      let (a, e, r) = >>=-eq-ok (parse_asset asset) _ h in
      let (code, issuer, line, s) = check_line_sound a _ c' r in
      ((code, issuer, e ∙ ap ok line), ground arith)
  check_op_sound (claim_balance balance_id) c c' h =
      let (hash, e, r) = >>=-eq-ok (parse_balance_id d balance_id) _ h in ((hash, e), ground arith)
  check_op_sound (create_claimable_balance destination asset amount) c c' h =
      let (key, e, r) = >>=-eq-ok (account_id d destination) _ h in
      let (a, f, s) = >>=-eq-ok (parse_asset asset) _ r in (((key, e), (a, f)), ground arith)

  check_ops_complete :
      (ops : List UserOp) (c : Counters) → AllOps ops → check_ops d ops c ≡ ok (counted_all ops c)
  unfolding check_ops
  check_ops_complete [] c h = ground arith
  check_ops_complete (op ∷ ops) c h =
      rw (check_op_complete op c h.0, check_ops_complete ops (counted op c) h.1) (ground arith)

  check_ops_sound :
      (ops : List UserOp) (c c' : Counters)
      → check_ops d ops c ≡ ok c'
      → AllOps ops × (c' ≡ counted_all ops c)
  unfolding check_ops
  check_ops_sound [] c c' h = (tt, ground arith)
  check_ops_sound (op ∷ ops) c c' h =
      let (next, e, r) = >>=-eq-ok (check_op d op c) _ h in
      let (valid, next_eq) = check_op_sound op c next e in
      let (all, total) = check_ops_sound ops next c' r in ((valid, all), ground arith)

-- The requests that a plan is made of: one operation to twenty, each naming what its kind must, and
-- for an account that does not exist a claim and no claimable balance sent.
pub record IsRequest (d : Decoders) (ops : List UserOp) (exists : Bool) : Type 0 where
  pub some_op : 0 < length ops
  pub at_most : length ops ≤ 20
  pub valid : AllOps d ops
  pub funded : (exists ≡ true) ⊎ (sum_of creates_claimants ops ≡ 0) × (0 < sum_of makes_claims ops)

abbrev pub plan_of : List UserOp → Bool → Plan
plan_of ops exists = record {
  mode = if exists then sponsored else bootstrap;
  ops = ops;
  new_accounts = sum_of creates_accounts ops;
  new_subentries = sum_of creates_subentries ops;
  new_claimants = sum_of creates_claimants ops;
}

is_empty-pos : (ops : List UserOp) → (is_empty ops ≡ false) ↔ (0 < length ops)
is_empty-pos [] = (λ e. cc, λ h. elim h [ ])
is_empty-pos (op ∷ ops) = (λ e. omega arith, λ h. refl)

-- `Plan::new` succeeds exactly on the requests of 1 to 20 operations whose addresses, assets, ids
-- and paths are those that each kind of operation demands, and that, for an account that does not
-- exist, claim something and leave nothing for others; the plan's mode is by whether the account
-- exists, and its counters are the entries that the operations create, by kind.
pub plan_new_iff :
    (d : Decoders) (ops : List UserOp) (exists : Bool) (p : Plan)
    → (plan_new d ops exists ≡ ok p) ↔ (IsRequest d ops exists × (p ≡ plan_of ops exists))
unfolding plan_new
plan_new_iff d ops exists p = (sound, complete)
  where
    sound : plan_new d ops exists ≡ ok p → IsRequest d ops exists × (p ≡ plan_of ops exists)
    sound h =
        let (_, nonempty, h₁) = >>=-eq-ok (fail_if (is_empty ops) _) _ h in
        let (_, few, h₂) = >>=-eq-ok (fail_if (ltb 20 (length ops)) _) _ h₁ in
        let (c, counts, h₃) = >>=-eq-ok (check_ops d ops no_counts) _ h₂ in
        let (all, total) = check_ops_sound d ops no_counts c counts in
        (
          record {
            some_op = (is_empty-pos ops).0 (ground arith);
            at_most = ground arith;
            valid = all;
            funded = ground arith;
          },
          ground arith,
        )

    complete : IsRequest d ops exists × (p ≡ plan_of ops exists) → plan_new d ops exists ≡ ok p
    complete (h, e) =
        rw (e, (is_empty-pos ops).1 h.some_op, check_ops_complete d ops no_counts h.valid)
          (ground (arith, h.at_most, h.funded))
