-- ===== src/Core/Claim/Funds.antt =====
-- What the claimed balances add up to.
use reserve.Base.{
  ◌≡◌, ◌≢◌, ◌⊎◌, inl, inr, refl, sym, ap, subst, ◌∙◌, Bool, true, false, ◌||◌, List, [], ◌∷◌,
  Option, none, some, if◌then◌else◌, ℤ, saturating_add, Text, text, text_eq, text_eq→eq, eq→text_eq,
  ok, ok_or, >>=-eq-ok, ok_or-eq-ok, Bool-cases, arith,
}
use reserve.Horizon.Records.{ClaimableBalance, amount_stroops}
use reserve.Core.Error.{Error}
use reserve.Core.Plan.{
  UserOp, create_account, payment, path_payment_strict_send, change_trust, claim_balance,
  create_claimable_balance,
}
use reserve.Core.Claim.{ClaimNeed, Found, add_funds, count_funds}

-- The ids that a request claims, in order.
unfoldable pub claims_of : List UserOp → List Text
claims_of [] = []
claims_of (claim_balance balance_id ∷ ops) = balance_id ∷ claims_of ops
claims_of (create_account destination ∷ ops) = claims_of ops
claims_of (payment destination asset amount ∷ ops) = claims_of ops
claims_of (path_payment_strict_send a b c d e path ∷ ops) = claims_of ops
claims_of (change_trust asset limit ∷ ops) = claims_of ops
claims_of (create_claimable_balance destination asset amount ∷ ops) = claims_of ops

-- The amount that a balance adds to what can pay: none where it is not in the asset that is needed.
abbrev pub Adds : Option ClaimNeed → ClaimableBalance → List ℤ → List ℤ → Type 0
Adds none b amounts rest = amounts ≡ rest
Adds (some need) b amounts rest =
    ((b.asset ≢ need.asset) × (amounts ≡ rest))
    ⊎ ((b.asset ≡ need.asset) × ((n : ℤ) × (amount_stroops b ≡ some n) × (amounts ≡ n ∷ rest)))

abbrev pub total_from : ℤ → List ℤ → ℤ
total_from payable [] = payable
total_from payable (n ∷ amounts) = total_from (saturating_add payable n) amounts

abbrev pub is_some : {A : Type 0} → List A → Bool
is_some [] = false
is_some (x ∷ xs) = true

abbrev pub found_of : Found → List Text → List ℤ → Found
found_of f ids amounts = record {
  payable = total_from f.payable amounts;
  saw_fee_asset = f.saw_fee_asset || is_some amounts;
  saw_claim = f.saw_claim || is_some ids;
}

pub or_true : (b : Bool) → (b || true) ≡ true
or_true true = refl
or_true false = refl

-- The variables behind a claim, by what it adds.
unfoldable pub CountedOf : (need : Option ClaimNeed) (b : ClaimableBalance) (f f' : Found) → Type 0
CountedOf need b f f' =
    (id : Text) (ids : List Text) (rest : List ℤ)
    → (amounts : List ℤ) × Adds need b amounts rest
      × (found_of f' ids rest ≡ found_of f (id ∷ ids) amounts)

pub count_funds-Adds :
    (need : Option ClaimNeed) (b : ClaimableBalance) (f f' : Found)
    → count_funds need b (record f { saw_claim = true }) ≡ ok f'
    → CountedOf need b f f'
unfolding count_funds CountedOf
count_funds-Adds none b f f' h id ids rest =
    let e : record f { saw_claim = true } ≡ f' = cc in
    (
      rest,
      refl,
      subst (λ g. found_of g ids rest ≡ found_of f (id ∷ ids) rest) e
          (rw (or_true f.saw_claim) refl),
    )
count_funds-Adds (some need) b f f' h id ids rest = elim (Bool-cases (text_eq b.asset need.asset)) [
  | inl same ↦
      let h' : add_funds b (record f { saw_claim = true }) ≡ ok f' =
        sym (
          ap
            (λ t.
              if t
              then add_funds b (record f { saw_claim = true })
              else ok (record f { saw_claim = true }))
            same)
        ∙ h in
      let (n, e₁, h₁) =
        >>=-eq-ok
          (ok_or (amount_stroops b)
            (Error.unclaimable (text "claimable balance amount is unreadable")))
          _ h' in
      let e : record f {
        payable = saturating_add f.payable n;
        saw_fee_asset = true;
        saw_claim = true;
      }
          ≡ f' =
        cc in
      (
        n ∷ rest,
        inr (
          text_eq→eq b.asset need.asset same,
          (
            n,
            ok_or-eq-ok _ (Error.unclaimable (text "claimable balance amount is unreadable")) e₁,
            refl,
          ),
        ),
        subst (λ g. found_of g ids rest ≡ found_of f (id ∷ ids) (n ∷ rest)) e
            (rw (or_true f.saw_claim, or_true f.saw_fee_asset) refl),
      )
  | inr other ↦
      let e : record f { saw_claim = true } ≡ f' = ground arith in
      (
        rest,
        inl (λ same. let t = eq→text_eq b.asset need.asset same in cc, refl),
        subst (λ g. found_of g ids rest ≡ found_of f (id ∷ ids) rest) e
            (rw (or_true f.saw_claim) refl),
      )
]

pub Adds-count_funds :
    (need : Option ClaimNeed) (b : ClaimableBalance) (f : Found) (id : Text) (ids : List Text)
    (amounts rest : List ℤ)
    → Adds need b amounts rest
    → (f' : Found) × (count_funds need b (record f { saw_claim = true }) ≡ ok f')
      × (found_of f' ids rest ≡ found_of f (id ∷ ids) amounts)
unfolding count_funds
Adds-count_funds none b f id ids amounts rest h =
    (record f { saw_claim = true }, refl, rw (h, or_true f.saw_claim) refl)
Adds-count_funds (some need) b f id ids amounts rest (inl (other, e)) =
    let t : text_eq b.asset need.asset ≡ false = elim (Bool-cases (text_eq b.asset need.asset)) [
      | inl same ↦ absurd (other (text_eq→eq b.asset need.asset same))
      | inr t ↦ t
    ] in
    (record f { saw_claim = true }, rw t refl, rw (e, or_true f.saw_claim) refl)
Adds-count_funds (some need) b f id ids amounts rest (inr (same, (n, a, e))) = (
  record f { payable = saturating_add f.payable n; saw_fee_asset = true; saw_claim = true },
  rw (eq→text_eq b.asset need.asset same, a) refl,
  rw (e, or_true f.saw_claim, or_true f.saw_fee_asset) refl,
)
