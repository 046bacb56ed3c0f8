-- ===== src/Core/Build/Inner.antt =====
-- What is in an inner transaction that is built.
use reserve.Base.{
  ◌≢◌, ◌⊎◌, ◌+◌, ◌≤◌, ◌≡◌, inl, inr, refl, sym, ap, ap₂, subst, ◌∙◌, List, [], ◌∷◌, ◌++◌, Option,
  some, length, length-append, Text, text, Result, ok, >>=-eq-ok, arith,
}
use reserve.Core.Error.{Error}
use reserve.Core.Asset.{Decoders, muxed_account}
use reserve.Core.Plan.{Mode, sponsored, bootstrap}
use reserve.Core.Quote.{Quote, tx_source, tx_source_in}
use reserve.Core.Xdr as Xdr
use reserve.Core.Build.{
  bounded, build_ops, build_inner, user_source_of, user_source_in, fee_payment_op, opening_ops,
  closing_ops,
}
use reserve.Core.Build.Assets.{bounded-eq-ok}
use reserve.Core.Build.Shape.{
  IsPositive, IsSandwich, IsFeePayment, payer_in, muxed_account-eq-ok, user_source_of-eq-ok,
  fee_payment_op-IsFeePayment, sponsorship-IsSandwich,
}
use reserve.Core.Build.Operations.{AllBuilt, build_ops-AllBuilt, length-AllBuilt}

-- The transaction of a quote's header with some operations.
abbrev pub transaction_of : Quote → Xdr.MuxedAccount → List Xdr.Operation → Xdr.Transaction
transaction_of q source operations = record {
  source_account = source;
  fee = q.inner_fee_stroops;
  seq_num = q.sequence;
  cond = Xdr.Preconditions.time q.min_time q.max_time;
  memo = Xdr.Memo.none;
  operations = operations;
  ext = Xdr.TransactionExt.v0;
}

-- The account that a transaction acts for: the user's own, or in bootstrap a lane's, or the sponsor's where
-- there is no lane.
abbrev pub IsSource : Quote → Text → Type 0
IsSource q g =
    (q.mode ≡ sponsored) × (g ≡ q.source)
    ⊎ (q.mode ≡ bootstrap) × (q.channel ≡ []) × (g ≡ q.sponsor)
    ⊎ (q.mode ≡ bootstrap) × (q.channel ≢ []) × (g ≡ q.channel)

tx_source_in-cases :
    (mode : Mode) (source sponsor channel : Text)
    → (mode ≡ sponsored) × (tx_source_in mode source sponsor channel ≡ source)
      ⊎ (mode ≡ bootstrap) × (channel ≡ []) × (tx_source_in mode source sponsor channel ≡ sponsor)
      ⊎ (mode ≡ bootstrap) × (channel ≢ []) × (tx_source_in mode source sponsor channel ≡ channel)
tx_source_in-cases sponsored source sponsor channel = inl (refl, refl)
tx_source_in-cases bootstrap source sponsor [] = inr (inl (refl, refl, refl))
tx_source_in-cases bootstrap source sponsor (c ∷ channel) = inr (inr (refl, λ e. cc, refl))

tx_source-IsSource : (q : Quote) → IsSource q (tx_source q)
unfolding tx_source
tx_source-IsSource q = tx_source_in-cases q.mode q.source q.sponsor q.channel

-- A transaction that is a quote's: its header is the quote's, and its operations are the user's between
-- those of the sponsorship, with the fee payment last.
pub record IsInner (d : Decoders) (q : Quote) (tx : Xdr.Transaction) : Type 0 where
  pub user : Text
  pub name : Text
  pub source : Text
  pub user_ops : List Xdr.Operation
  pub opening : List Xdr.Operation
  pub closing : List Xdr.Operation
  pub payment : Xdr.Operation
  pub user_key : d.public_key q.source ≡ some user
  pub named : IsSource q name
  pub source_key : d.public_key name ≡ some source
  pub header :
      tx ≡ transaction_of q (Xdr.ed25519 source) (opening ++ user_ops ++ closing ++ payment ∷ [])
  pub sandwich : IsSandwich d q name user opening closing
  pub built : AllBuilt d q.source (payer_in q.mode user) q.ops user_ops
  pub fee_payment : IsFeePayment d q user payment
  pub count : IsPositive q.reserve_stroops → length tx.operations ≡ length q.ops + 3
  pub count_plain : ¬ IsPositive q.reserve_stroops → length tx.operations ≡ length q.ops + 1
  pub at_most : length tx.operations ≤ 100

module _ (d : Decoders) (q : Quote) where
  key_in :
      (mode : Mode) (source sponsor channel : Text) {m : Xdr.MuxedAccount}
      {payer : Option Xdr.MuxedAccount}
      → muxed_account d (tx_source_in mode source sponsor channel) ≡ ok m
      → user_source_in d mode source ≡ ok payer
      → (user : Text) × (d.public_key source ≡ some user)
  unfolding user_source_in
  key_in sponsored source sponsor channel h p =
      let (k, e, r) = muxed_account-eq-ok d source h in (k, e)
  key_in bootstrap source sponsor channel h p =
      let (account, e, r) = >>=-eq-ok (muxed_account d source) _ p in
      let (k, e', r') = muxed_account-eq-ok d source e in (k, e')

  operations_length :
      (opening user_ops closing : List Xdr.Operation) (payment : Xdr.Operation)
      → length (opening ++ user_ops ++ closing ++ payment ∷ [])
        ≡ length opening + length user_ops + length closing + 1
  operations_length opening user_ops closing payment = omega (
    arith,
    length-append (opening ++ user_ops ++ closing) (payment ∷ []),
    length-append (opening ++ user_ops) closing,
    length-append opening user_ops,
  )

  user_key_of :
      {m : Xdr.MuxedAccount} {payer : Option Xdr.MuxedAccount}
      → muxed_account d (tx_source q) ≡ ok m
      → user_source_of d q ≡ ok payer
      → (user : Text) × (d.public_key q.source ≡ some user)
  unfolding tx_source user_source_of
  user_key_of h p = key_in q.mode q.source q.sponsor q.channel h p

  -- What the steps of `build_inner` make.
  IsInner-of :
      {source : Xdr.MuxedAccount} {opening user_ops closing operations : List Xdr.Operation}
      {payer : Option Xdr.MuxedAccount} {payment : Xdr.Operation} {tx : Xdr.Transaction}
      → muxed_account d (tx_source q) ≡ ok source
      → opening_ops d q ≡ ok opening
      → user_source_of d q ≡ ok payer
      → build_ops d q.source payer q.ops ≡ ok user_ops
      → closing_ops d q ≡ ok closing
      → fee_payment_op d q ≡ ok payment
      → bounded 100 (opening ++ user_ops ++ closing ++ payment ∷ []) (text "too many operations")
        ≡ ok operations
      → ◌≡◌ {A = Result Error Xdr.Transaction} (ok (transaction_of q source operations)) (ok tx)
      → IsInner d q tx
  IsInner-of {source} {opening} {user_ops} {closing} {operations} {payer} {payment} {tx} e₁ e₂ e₃ e₄
        e₅ e₆ e₇ e₈ =
      let (source_key, k₁, s₁) = muxed_account-eq-ok d (tx_source q) e₁ in
      let (user, key) = user_key_of e₁ e₃ in
      let (same, few) =
        bounded-eq-ok 100 (opening ++ user_ops ++ closing ++ payment ∷ [])
          (text "too many operations") e₇ in
      let from_user = user_source_of-eq-ok d q user key e₃ in
      let around = sponsorship-IsSandwich d q user opening closing key e₂ e₅ in
      let own = build_ops-AllBuilt d q.source payer q.ops user_ops e₄ in
      let made : tx
          ≡ transaction_of q (Xdr.ed25519 source_key)
              (opening ++ user_ops ++ closing ++ payment ∷ []) =
        let e : transaction_of q source operations ≡ tx = cc in
        sym e ∙ ap₂ (transaction_of q) s₁ same in
      let size = ap (λ (t : Xdr.Transaction). length t.operations) made in
      let total : length tx.operations ≡ length opening + length q.ops + length closing + 1 =
        omega (
          arith,
          size,
          operations_length opening user_ops closing payment,
          length-AllBuilt d q.source payer q.ops user_ops own,
        ) in
      record {
        user = user;
        name = tx_source q;
        source = source_key;
        user_ops = user_ops;
        opening = opening;
        closing = closing;
        payment = payment;
        user_key = key;
        named = tx_source-IsSource q;
        source_key = k₁;
        header = made;
        sandwich = around;
        built = subst (λ p. AllBuilt d q.source p q.ops user_ops) from_user own;
        fee_payment = fee_payment_op-IsFeePayment d q user payment key e₆;
        count = λ reserved.
            let (account, e, o) = around.opens reserved in
            omega (arith, total, ap length o, ap length (around.closes reserved));
        count_plain = λ unreserved.
            let (o, c) = around.plain unreserved in omega (arith, total, ap length o, ap length c);
        at_most = omega (arith, size, few);
      }

  -- Every transaction that is built has the quote's source, fee, sequence number and times. Its
  -- operations are the quote's own in their order, and each is the one that is asked for: it pays,
  -- trusts, claims or leaves the accounts, assets and amounts that the request names. In bootstrap
  -- each has the user as its source and otherwise none, but for the opening of an account, which
  -- never names one. The sponsorship is opened before them, by the sponsor, and closed after them, by the
  -- user, exactly where the quote reserves more than nothing. The last operation pays at most the
  -- quote's limit of its token, over its route, for exactly its charge in lumens to the sponsor. There are
  -- as many operations as that makes, and at most 100.
  pub build_inner-IsInner : (tx : Xdr.Transaction) → build_inner d q ≡ ok tx → IsInner d q tx
  unfolding build_inner
  build_inner-IsInner tx h =
      let (source, e₁, h₁) = >>=-eq-ok (muxed_account d (tx_source q)) _ h in
      let (opening, e₂, h₂) = >>=-eq-ok (opening_ops d q) _ h₁ in
      let (payer, e₃, h₃) = >>=-eq-ok (user_source_of d q) _ h₂ in
      let (user_ops, e₄, h₄) = >>=-eq-ok (build_ops d q.source payer q.ops) _ h₃ in
      let (closing, e₅, h₅) = >>=-eq-ok (closing_ops d q) _ h₄ in
      let (payment, e₆, h₆) = >>=-eq-ok (fee_payment_op d q) _ h₅ in
      let (operations, e₇, h₇) =
        >>=-eq-ok
          (bounded 100 (opening ++ user_ops ++ closing ++ payment ∷ [])
            (text "too many operations"))
          _ h₆ in
      IsInner-of e₁ e₂ e₃ e₄ e₅ e₆ e₇ h₇
