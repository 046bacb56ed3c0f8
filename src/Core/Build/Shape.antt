-- ===== src/Core/Build/Shape.antt =====
-- The shape of every inner transaction that is built.
use reserve.Base.{
  zero, suc, ◌≢◌, ◌⊎◌, inl, inr, refl, ℤ, pos, negsuc, ltb_ℤ, if-cases, Bool-cases, text_eq,
  text_eq→eq, eq→text_eq, ℕ, ◌≤◌, ◌≡◌, sym, ap, ◌∙◌, true, List, [], ◌∷◌, Option, none, some,
  if◌then◌else◌, length, Text, text, ok, ok_or, >>=-eq-ok, ok_or-eq-ok, arith,
}
use reserve.Core.Error.{Error}
use reserve.Core.Asset.{Decoders, account_id, muxed_account, parse_asset, to_xdr_asset}
use reserve.Core.Plan.{Mode, sponsored, bootstrap}
use reserve.Core.Quote.{Quote, tx_source}
use reserve.Core.Build.Assets.{
  IsAsset, AreAssets, bounded-eq-ok, account_id-eq-ok, parsed-IsAsset, assets_of-AreAssets,
}
use reserve.Core.Xdr as Xdr
use reserve.Core.Build.{
  op, bounded, user_source_of, user_source_in, sponsorship_source, fee_payment_op,
  needs_sponsorship, opening_ops, begin_ops, end_ops, closing_ops, assets_of,
}

-- The account of a mode's user, where the transaction's source is another.
abbrev pub payer_in : Mode → Text → Option Xdr.MuxedAccount
payer_in sponsored user = none
payer_in bootstrap user = some (Xdr.ed25519 user)

abbrev pub IsPositive : ℤ → Type 0
IsPositive z = (n : ℕ) × (z ≡ pos (suc n))

IsPositive-of_ltb : (z : ℤ) → ltb_ℤ (pos 0) z ≡ true → IsPositive z
IsPositive-of_ltb (pos zero) h = absurd (ground arith)
IsPositive-of_ltb (pos (suc n)) h = (n, refl)
IsPositive-of_ltb (negsuc n) h = absurd (ground arith)

ltb_of_IsPositive : (z : ℤ) → IsPositive z → ltb_ℤ (pos 0) z ≡ true
ltb_of_IsPositive z (n, e) = rw e (ground arith)

module _ (d : Decoders) where
  pub muxed_account-eq-ok :
      (g : Text) {m : Xdr.MuxedAccount}
      → muxed_account d g ≡ ok m
      → (key : Text) × (d.public_key g ≡ some key) × (m ≡ Xdr.ed25519 key)
  unfolding muxed_account
  muxed_account-eq-ok g h =
      let (key, e, r) = >>=-eq-ok (ok_or (d.public_key g) (Error.account g)) _ h in
      (key, ok_or-eq-ok _ (Error.account g) e, cc)

  -- The sponsor's account, where the transaction's source is another.
  abbrev pub IsSponsorSource : Text → Text → Option Xdr.MuxedAccount → Type 0
  IsSponsorSource source sponsor account =
      (source ≡ sponsor) × (account ≡ none)
      ⊎ (source ≢ sponsor)
        × ((key : Text) × (d.public_key sponsor ≡ some key) × (account ≡ some (Xdr.ed25519 key)))

  -- The operations around the user's own, in a transaction of a source: two where the quote reserves
  -- anything, and none where it does not.
  pub record IsSandwich (q : Quote) (source user : Text) (opening closing : List Xdr.Operation)
      : Type 0 where
    pub opens :
        IsPositive q.reserve_stroops
        → (account : Option Xdr.MuxedAccount) × IsSponsorSource source q.sponsor account
          × (opening ≡ op account (Xdr.begin_sponsoring_future_reserves user) ∷ [])
    pub closes :
        IsPositive q.reserve_stroops
        → closing ≡ op (some (Xdr.ed25519 user)) Xdr.end_sponsoring_future_reserves ∷ []
    pub plain : ¬ IsPositive q.reserve_stroops → (opening ≡ []) × (closing ≡ [])

  -- The user pays: at most `send_max` of the fee token for exactly the charge, in lumens, to the sponsor.
  pub record IsFeePayment (q : Quote) (user : Text) (payment : Xdr.Operation) : Type 0 where
    pub sponsor : Text
    pub send_asset : Xdr.Asset
    pub hops : List Xdr.Asset
    pub sponsor_key : d.public_key q.sponsor ≡ some sponsor
    pub token : IsAsset d q.fee_token send_asset
    pub route : AreAssets d q.path hops
    pub few_hops : length hops ≤ 5
    pub pays :
        payment
        ≡ op (payer_in q.mode user) (
            Xdr.path_payment_strict_receive send_asset q.send_max_stroops
              (Xdr.ed25519 sponsor)
              Xdr.Asset.native
              q.charge_stroops
              hops)

  user_source_in-eq-ok :
      (mode : Mode) (g user : Text) {source : Option Xdr.MuxedAccount}
      → d.public_key g ≡ some user
      → user_source_in d mode g ≡ ok source
      → source ≡ payer_in mode user
  unfolding user_source_in muxed_account
  user_source_in-eq-ok sponsored g user key h = cc
  user_source_in-eq-ok bootstrap g user key h = ground arith

  pub user_source_of-eq-ok :
      (q : Quote) (user : Text) {source : Option Xdr.MuxedAccount}
      → d.public_key q.source ≡ some user
      → user_source_of d q ≡ ok source
      → source ≡ payer_in q.mode user
  unfolding user_source_of
  user_source_of-eq-ok q user key h = user_source_in-eq-ok q.mode q.source user key h

  pub fee_payment_op-IsFeePayment :
      (q : Quote) (user : Text) (payment : Xdr.Operation)
      → d.public_key q.source ≡ some user
      → fee_payment_op d q ≡ ok payment
      → IsFeePayment q user payment
  unfolding fee_payment_op
  fee_payment_op-IsFeePayment q user payment key h =
      let (token, e₁, h₁) = >>=-eq-ok (parse_asset q.fee_token) _ h in
      let (path, e₂, h₂) = >>=-eq-ok (assets_of d q.path) _ h₁ in
      let (payer, e₃, h₃) = >>=-eq-ok (user_source_of d q) _ h₂ in
      let (send_asset, e₄, h₄) = >>=-eq-ok (to_xdr_asset d token) _ h₃ in
      let (sponsor, e₅, h₅) = >>=-eq-ok (muxed_account d q.sponsor) _ h₄ in
      let (hops, e₆, h₆) = >>=-eq-ok (bounded 5 path (text "path too long")) _ h₅ in
      let (sponsor_key, e₇, e₈) = muxed_account-eq-ok q.sponsor e₅ in
      let (same, few) = bounded-eq-ok 5 path (text "path too long") e₆ in
      let from_user = user_source_of-eq-ok q user key e₃ in
      record {
        sponsor = sponsor_key;
        send_asset = send_asset;
        hops = path;
        sponsor_key = e₇;
        token = parsed-IsAsset d q.fee_token token send_asset e₁ e₄;
        route = assets_of-AreAssets d q.path path e₂;
        few_hops = few;
        pays = cc;
      }

  sponsorship_source-IsSponsorSource :
      (q : Quote) (account : Option Xdr.MuxedAccount)
      → sponsorship_source d q ≡ ok account
      → IsSponsorSource (tx_source q) q.sponsor account
  unfolding sponsorship_source
  sponsorship_source-IsSponsorSource q account h =
      elim (if-cases (text_eq (tx_source q) q.sponsor) h) [
        | inl own ↦ inl (text_eq→eq (tx_source q) q.sponsor own.0, let e = own.1 in cc)
        | inr other ↦
            let (a, e₁, h₁) = >>=-eq-ok (muxed_account d q.sponsor) _ other.1 in
            let (key, e₂, e₃) = muxed_account-eq-ok q.sponsor e₁ in
            inr (
              λ same. let e = eq→text_eq (tx_source q) q.sponsor same in let f = other.0 in cc,
              (key, e₂, cc),
            )
      ]

  pub sponsorship-IsSandwich :
      (q : Quote) (user : Text) (opening closing : List Xdr.Operation)
      → d.public_key q.source ≡ some user
      → opening_ops d q ≡ ok opening
      → closing_ops d q ≡ ok closing
      → IsSandwich q (tx_source q) user opening closing
  unfolding opening_ops closing_ops
  sponsorship-IsSandwich q user opening closing key o c = record {
    opens = λ reserved.
        let needs = ltb_of_IsPositive q.reserve_stroops reserved in
        let o' : begin_ops d q ≡ ok opening =
          sym (ap (λ b. if b then begin_ops d q else ok []) needs) ∙ o in
        let (source, e₁, h₁) = >>=-eq-ok (sponsorship_source d q) _ o' in
        let (named, e₂, h₂) = >>=-eq-ok (account_id d q.source) _ h₁ in
        let e = account_id-eq-ok d q.source e₂ in
        (source, sponsorship_source-IsSponsorSource q source e₁, cc);
    closes = λ reserved.
        let needs = ltb_of_IsPositive q.reserve_stroops reserved in
        let c' : end_ops d q ≡ ok closing =
          sym (ap (λ b. if b then end_ops d q else ok []) needs) ∙ c in
        let (named, e₁, h₁) = >>=-eq-ok (muxed_account d q.source) _ c' in
        let (k, e₂, e₃) = muxed_account-eq-ok q.source e₁ in cc;
    plain = λ unreserved. elim (Bool-cases (needs_sponsorship d q)) [
      | inl needs ↦ absurd (unreserved (IsPositive-of_ltb q.reserve_stroops needs))
      | inr free ↦ (ground arith, ground arith)
    ];
  }
