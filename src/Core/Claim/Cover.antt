-- ===== src/Core/Claim/Cover.antt =====
-- The requests whose claims will succeed.
use reserve.Base.{
  ◌≡◌, ◌≢◌, ◌↔◌, refl, sym, ap, ◌∙◌, true, false, not, ◌&&◌, List, [], ◌∷◌, Option, none, some, ℤ,
  pos, ltb_ℤ, Text, ok, ok_or, fail_if, >>=-eq-ok, ok_or-eq-ok, fail_if-eq-ok, arith,
}
use reserve.Horizon.Records.{HorizonApi, ClaimableBalance, claimable_by}
use reserve.Core.Error.{from_horizon, from_horizon-eq-ok}
use reserve.Core.Plan.{
  UserOp, create_account, payment, path_payment_strict_send, change_trust, claim_balance,
  create_claimable_balance, Mode, sponsored, bootstrap, is_bootstrap,
}
use reserve.Core.Claim.{
  ClaimNeed, Found, nothing_found, check_claim, check_claims, check_found, ensure_claims,
}
use reserve.Core.Claim.Funds.{
  claims_of, Adds, total_from, is_some, found_of, CountedOf, count_funds-Adds, Adds-count_funds,
}

module _ (horizon : HorizonApi) (source : Text) (now : ℤ) (need : Option ClaimNeed) where
  -- Every id names a balance that the account can claim now; the amounts are those of the balances in
  -- the asset that is needed.
  abbrev pub AllClaimable : List Text → List ℤ → Type 0
  AllClaimable [] amounts = amounts ≡ []
  AllClaimable (id ∷ ids) amounts =
      (b : ClaimableBalance) × (rest : List ℤ) × (horizon.claimable_balance id ≡ ok (some b))
      × (claimable_by b source now ≡ true)
      × Adds need b amounts rest
      × AllClaimable ids rest

  check_claim_sound :
      (id : Text) (f f' : Found)
      → check_claim horizon source now need id f ≡ ok f'
      → (b : ClaimableBalance) × (horizon.claimable_balance id ≡ ok (some b))
        × (claimable_by b source now ≡ true)
        × CountedOf need b f f'
  unfolding check_claim
  check_claim_sound id f f' h =
      let (answer, e₁, h₁) = >>=-eq-ok (from_horizon (horizon.claimable_balance id)) _ h in
      let (b, e₂, h₂) = >>=-eq-ok (ok_or answer _) _ h₁ in
      let (u, e₃, h₃) = >>=-eq-ok (fail_if (not (claimable_by b source now)) _) _ h₂ in
      let none_false = fail_if-eq-ok _ _ e₃ in
      (
        b,
        from_horizon-eq-ok _ e₁ ∙ ap ok (ok_or-eq-ok answer _ e₂),
        ground arith,
        count_funds-Adds need b f f' h₃,
      )

  check_claim_complete :
      (id : Text) (f : Found) (b : ClaimableBalance) (ids : List Text) (amounts rest : List ℤ)
      → horizon.claimable_balance id ≡ ok (some b)
      → claimable_by b source now ≡ true
      → Adds need b amounts rest
      → (f' : Found) × (check_claim horizon source now need id f ≡ ok f')
        × (found_of f' ids rest ≡ found_of f (id ∷ ids) amounts)
  unfolding check_claim
  check_claim_complete id f b ids amounts rest there can adds =
      let (f', e, found) = Adds-count_funds need b f id ids amounts rest adds in
      (f', rw (there, can) e, found)

  -- The variables behind the loop.
  Counted : List UserOp → Found → Found → Type 0
  Counted ops f f' =
      (amounts : List ℤ) × AllClaimable (claims_of ops) amounts
      × (f' ≡ found_of f (claims_of ops) amounts)

  found_of-nil : (f : Found) → found_of f [] [] ≡ f
  found_of-nil f = ground arith

  check_claims-Counted :
      (ops : List UserOp) (f f' : Found)
      → check_claims horizon source now need ops f ≡ ok f'
      → Counted ops f f'
  unfolding check_claims claims_of Counted CountedOf
  check_claims-Counted [] f f' h = ([], refl, let e : f ≡ f' = cc in sym e ∙ sym (found_of-nil f))
  check_claims-Counted (claim_balance id ∷ ops) f f' h =
      let (g, e₁, h₁) = >>=-eq-ok (check_claim horizon source now need id f) _ h in
      let (rest, all, e₂) = check_claims-Counted ops g f' h₁ in
      let (b, there, can, counts) = check_claim_sound id f g e₁ in
      let (amounts, adds, found) = counts id (claims_of ops) rest in
      (amounts, (b, rest, there, can, adds, all), e₂ ∙ found)
  check_claims-Counted (create_account destination ∷ ops) f f' h = check_claims-Counted ops f f' h
  check_claims-Counted (payment destination asset amount ∷ ops) f f' h =
      check_claims-Counted ops f f' h
  check_claims-Counted (path_payment_strict_send a b c d e path ∷ ops) f f' h =
      check_claims-Counted ops f f' h
  check_claims-Counted (change_trust asset limit ∷ ops) f f' h = check_claims-Counted ops f f' h
  check_claims-Counted (create_claimable_balance destination asset amount ∷ ops) f f' h =
      check_claims-Counted ops f f' h

  Counted-check_claims :
      (ops : List UserOp) (f : Found) (amounts : List ℤ)
      → AllClaimable (claims_of ops) amounts
      → check_claims horizon source now need ops f ≡ ok (found_of f (claims_of ops) amounts)
  unfolding check_claims claims_of
  Counted-check_claims [] f amounts h = rw h (ap ok (sym (found_of-nil f)))
  Counted-check_claims (claim_balance id ∷ ops) f amounts (b, rest, there, can, adds, all) =
      let (g, e, found) = check_claim_complete id f b (claims_of ops) amounts rest there can adds in
      rw e (Counted-check_claims ops g rest all ∙ ap ok found)
  Counted-check_claims (create_account destination ∷ ops) f amounts h =
      Counted-check_claims ops f amounts h
  Counted-check_claims (payment destination asset amount ∷ ops) f amounts h =
      Counted-check_claims ops f amounts h
  Counted-check_claims (path_payment_strict_send a b c d e path ∷ ops) f amounts h =
      Counted-check_claims ops f amounts h
  Counted-check_claims (change_trust asset limit ∷ ops) f amounts h =
      Counted-check_claims ops f amounts h
  Counted-check_claims (create_claimable_balance destination asset amount ∷ ops) f amounts h =
      Counted-check_claims ops f amounts h

-- The funds that arrive are in the asset that is needed, in bootstrap, and cover it.
abbrev pub Covers : Option ClaimNeed → Mode → List Text → List ℤ → Type 0
Covers none mode ids amounts = Unit
Covers (some need) mode ids amounts =
    (mode ≡ bootstrap → ids ≢ [] → amounts ≢ [])
    × (amounts ≢ [] → ltb_ℤ (total_from (pos 0) amounts) need.min_stroops ≡ false)

is_some_sound : {A : Type 0} (xs : List A) → is_some xs ≡ true → xs ≢ []
is_some_sound [] h e = cc
is_some_sound (x ∷ xs) h e = cc

is_some_complete : {A : Type 0} (xs : List A) → xs ≢ [] → is_some xs ≡ true
is_some_complete [] h = absurd (h refl)
is_some_complete (x ∷ xs) h = refl

check_found-Covers :
    (need : Option ClaimNeed) (mode : Mode) (ids : List Text) (amounts : List ℤ)
    → check_found mode need (found_of nothing_found ids amounts) ≡ ok tt
    → Covers need mode ids amounts
unfolding check_found
check_found-Covers none mode ids amounts h = tt
check_found-Covers (some need) mode ids amounts h =
    let (u, e₁, h₁) =
      >>=-eq-ok (fail_if (is_bootstrap mode && is_some ids && not (is_some amounts)) _) _ h in
    let first = fail_if-eq-ok _ _ e₁ in
    let second = fail_if-eq-ok _ _ h₁ in
    (
      λ boot some_id none_amount.
          let i = is_some_complete ids some_id in
          let m : is_bootstrap mode ≡ true = rw boot refl in
          let a : is_some amounts ≡ false = rw none_amount refl in ground arith,
      λ some_amount. let a = is_some_complete amounts some_amount in ground arith,
    )

Covers-check_found :
    (need : Option ClaimNeed) (mode : Mode) (ids : List Text) (amounts : List ℤ)
    → Covers need mode ids amounts
    → check_found mode need (found_of nothing_found ids amounts) ≡ ok tt
unfolding check_found
Covers-check_found none mode ids amounts h = refl
Covers-check_found (some need) sponsored ids [] h = refl
Covers-check_found (some need) bootstrap [] [] h = refl
Covers-check_found (some need) bootstrap (id ∷ ids) [] h = absurd (h.0 refl (λ e. cc) refl)
Covers-check_found (some need) mode ids (n ∷ amounts) h = let f = h.1 (λ e. cc) in ground arith

-- The claims of a request are accepted exactly if Horizon knows each of them as claimable by the source
-- now, each that is in the asset of the fee has a readable amount, and, where something is needed, the
-- amounts in that asset cover it if there are any, as there must be in bootstrap if anything is claimed.
pub ensure_claims_iff :
    (horizon : HorizonApi) (source : Text) (ops : List UserOp) (mode : Mode) (now : ℤ)
    (need : Option ClaimNeed)
    → (ensure_claims horizon source ops mode now need ≡ ok tt) ↔ (
        (amounts : List ℤ) × AllClaimable horizon source now need (claims_of ops) amounts
        × Covers need mode (claims_of ops) amounts)
unfolding ensure_claims Counted
ensure_claims_iff horizon source ops mode now need = (
  λ h.
      let (f, e₁, h₁) = >>=-eq-ok (check_claims horizon source now need ops nothing_found) _ h in
      let (amounts, all, e₂) =
        check_claims-Counted horizon source now need ops nothing_found f e₁ in
      (
        amounts,
        all,
        check_found-Covers need mode (claims_of ops) amounts
            (ap (check_found mode need) (sym e₂) ∙ h₁),
      ),
  λ (amounts, all, covers).
      rw (Counted-check_claims horizon source now need ops nothing_found amounts all)
        (Covers-check_found need mode (claims_of ops) amounts covers),
)
