-- ===== src/Core/Build/Operations.antt =====
-- The user's own operations in a transaction that is built.
use reserve.Base.{
  suc, ◌≤◌, ◌≡◌, inl, inr, sym, ap, ◌∙◌, not, ◌||◌, ◌==◌, List, [], ◌∷◌, ◌++◌, Option, none, some,
  length, take, drop, take-append-drop, ℤ, pos, i64_max, Text, text_eq, text_eq→eq, Result, ok,
  ok_or, fail_if, ◌>>=◌, >>=-eq-ok, ok_or-eq-ok, fail_if-eq-ok, arith,
}
use reserve.Horizon.Amount.{parse_amount_stroops}
use reserve.Horizon.Asset.{Asset}
use reserve.Core.Error.{Error}
use reserve.Core.Asset.{
  Decoders, account_id, muxed_account, parse_asset, to_xdr_asset, to_change_trust_asset,
  as_change_trust,
}
use reserve.Core.Balance.{parse_balance_id, bad_id}
use reserve.Core.Plan.{
  UserOp, create_account, payment, path_payment_strict_send, change_trust, claim_balance,
  create_claimable_balance,
}
use reserve.Core.Xdr as Xdr
use reserve.Core.Build.{
  op, build_op, build_ops, asset_of, parse_amount, path_assets, claimable_claimants, limit_of,
}
use reserve.Core.Build.Assets.{
  IsAsset, IsLine, AreAssets, account_id-eq-ok, parsed-IsAsset, asset_of-IsAsset,
  path_assets-AreAssets,
}
use reserve.Core.Build.Shape.{muxed_account-eq-ok}
use reserve.Core.Build.Claimants.{IsPair, claimable_claimants-IsPair}

-- A step of a chain that ends well was taken.
step {ℓ} :
    {A B : Type 0} {P : Type ℓ} {b : B} (m : Result Error A) (f : A → Result Error B)
    → (m >>= f) ≡ ok b
    → ((a : A) → m ≡ ok a → f a ≡ ok b → P)
    → P
step m f h k = let (a, e, r) = >>=-eq-ok m f h in k a e r

-- What a chain of parses ends in.
made : {o x : Xdr.Operation} → ◌≡◌ {A = Result Error Xdr.Operation} (ok o) (ok x) → x ≡ o
made h = cc

parse_amount-eq-ok : (s : Text) {n : ℤ} → parse_amount s ≡ ok n → parse_amount_stroops s ≡ some n
unfolding parse_amount
parse_amount-eq-ok s h = ok_or-eq-ok _ (Error.amount s) h

-- The limit of a trust line: the largest i64 where none is asked for.
abbrev pub IsLimit : Option Text → ℤ → Type 0
IsLimit none n = n ≡ pos i64_max
IsLimit (some s) n = parse_amount_stroops s ≡ some n

limit_of-IsLimit :
    (d : Decoders) (limit : Option Text) {n : ℤ} → limit_of d limit ≡ ok n → IsLimit limit n
limit_of-IsLimit d none h = cc
limit_of-IsLimit d (some s) h = parse_amount-eq-ok s h

-- The id of a claimable balance: four zeros, as hexadecimal bytes, before a hash of 32.
abbrev pub IsBalance : Decoders → Text → Text → Type 0
IsBalance d id hash = (d.hex_decode id ≡ some (0 ∷ 0 ∷ 0 ∷ 0 ∷ hash)) × (length hash ≡ 32)

balance_bytes :
    (bytes : Text)
    → length bytes ≡ 36
    → take 4 bytes ≡ 0 ∷ 0 ∷ 0 ∷ 0 ∷ []
    → (bytes ≡ 0 ∷ 0 ∷ 0 ∷ 0 ∷ drop 4 bytes) × (length (drop 4 bytes) ≡ 32)
balance_bytes bytes h e =
    let split : bytes ≡ 0 ∷ 0 ∷ 0 ∷ 0 ∷ drop 4 bytes =
      sym (take-append-drop 4 bytes) ∙ ap (λ (t : Text). t ++ drop 4 bytes) e in
    (split, omega (arith, ap length split, h))

parse_balance_id-IsBalance :
    (d : Decoders) (id hash : Text) → parse_balance_id d id ≡ ok hash → IsBalance d id hash
unfolding parse_balance_id
parse_balance_id-IsBalance d id hash h =
    let (bytes, e₁, h₁) = >>=-eq-ok (ok_or (d.hex_decode id) (bad_id id)) _ h in
    let (u, e₂, h₂) =
      >>=-eq-ok
        (fail_if (not (length bytes == 36) || not (text_eq (take 4 bytes) (0 ∷ 0 ∷ 0 ∷ 0 ∷ [])))
          (bad_id id))
        _ h₁ in
    let f = fail_if-eq-ok _ (bad_id id) e₂ in
    let same = text_eq→eq (take 4 bytes) (0 ∷ 0 ∷ 0 ∷ 0 ∷ []) (ground arith) in
    let (split, size) = balance_bytes bytes (ground arith) same in
    let hash_is : hash ≡ drop 4 bytes = cc in
    rw hash_is (ok_or-eq-ok _ (bad_id id) e₁ ∙ ap some split, size)

IsAsset-IsLine :
    (d : Decoders) (s : Text) (a : Xdr.Asset) → IsAsset d s a → IsLine d s (as_change_trust d a)
IsAsset-IsLine d s a (inl (e, x)) = inl (e, ap (as_change_trust d) x)
IsAsset-IsLine d s a (inr (code, issuer, key, e, k, inl (short, x))) =
    inr (code, issuer, key, e, k, inl (short, ap (as_change_trust d) x))
IsAsset-IsLine d s a (inr (code, issuer, key, e, k, inr (long, fits, x))) =
    inr (code, issuer, key, e, k, inr (long, fits, ap (as_change_trust d) x))

to_change_trust_asset-IsLine :
    (d : Decoders) (s : Text) (a : Asset) (line : Xdr.ChangeTrustAsset)
    → parse_asset s ≡ ok a
    → to_change_trust_asset d a ≡ ok line
    → IsLine d s line
unfolding to_change_trust_asset
to_change_trust_asset-IsLine d s a line e h =
    let (x, e₁, h₁) = >>=-eq-ok (to_xdr_asset d a) _ h in
    let line_is : line ≡ as_change_trust d x = cc in
    rw line_is (IsAsset-IsLine d s x (parsed-IsAsset d s a x e e₁))

module _ (d : Decoders) (user : Text) (payer : Option Xdr.MuxedAccount) where
  -- The operation that a user asks for: the accounts, assets and amounts are those of the request, and an
  -- account is opened by the transaction's source.
  abbrev pub IsOperation : UserOp → Xdr.Operation → Type 0
  IsOperation (create_account destination) x =
      (key : Text) × (d.public_key destination ≡ some key)
      × (x ≡ op none (Xdr.create_account key (pos 0)))
  IsOperation (payment destination asset amount) x =
      (key : Text) × (a : Xdr.Asset) × (n : ℤ) × (d.public_key destination ≡ some key)
      × IsAsset d asset a
      × (parse_amount_stroops amount ≡ some n)
      × (x ≡ op payer (Xdr.payment (Xdr.ed25519 key) a n))
  IsOperation (path_payment_strict_send destination send_asset send_amount dest_asset dest_min path)
        x =
      (key : Text) × (sent : Xdr.Asset) × (amount : ℤ) × (received : Xdr.Asset) × (least : ℤ)
      × (hops : List Xdr.Asset) × (d.public_key destination ≡ some key)
      × IsAsset d send_asset sent
      × (parse_amount_stroops send_amount ≡ some amount)
      × IsAsset d dest_asset received
      × (parse_amount_stroops dest_min ≡ some least)
      × AreAssets d path hops
      × (length hops ≤ 5)
      × (x
          ≡ op payer
              (Xdr.path_payment_strict_send sent amount (Xdr.ed25519 key) received least hops))
  IsOperation (claim_balance balance_id) x =
      (hash : Text) × IsBalance d balance_id hash
      × (x ≡ op payer (Xdr.claim_claimable_balance hash))
  IsOperation (change_trust asset limit) x =
      (line : Xdr.ChangeTrustAsset) × (n : ℤ) × IsLine d asset line
      × IsLimit limit n
      × (x ≡ op payer (Xdr.change_trust line n))
  IsOperation (create_claimable_balance destination asset amount) x =
      (a : Xdr.Asset) × (n : ℤ) × (claimants : List Xdr.Claimant) × IsAsset d asset a
      × (parse_amount_stroops amount ≡ some n)
      × IsPair d user destination claimants
      × (x ≡ op payer (Xdr.create_claimable_balance a n claimants))

  build_op-IsOperation :
      (o : UserOp) (x : Xdr.Operation) → build_op d user payer o ≡ ok x → IsOperation o x
  unfolding build_op
  build_op-IsOperation (create_account destination) x h =
      step (account_id d destination) _ h (λ k e r. (k, account_id-eq-ok d destination e, made r))
  build_op-IsOperation (payment destination asset amount) x h =
      step (muxed_account d destination) _ h (λ to e₁ r.
        let (key, k, to_is) = muxed_account-eq-ok d destination e₁ in
        step (asset_of d asset) _ r (λ a e₂ r. step (parse_amount amount) _ r (λ n e₃ r. (
          key,
          a,
          n,
          k,
          asset_of-IsAsset d asset a e₂,
          parse_amount-eq-ok amount e₃,
          made r ∙ ap (λ m. op payer (Xdr.payment m a n)) to_is,
        ))))
  build_op-IsOperation
        (path_payment_strict_send destination send_asset send_amount dest_asset dest_min path) x h =
      step (asset_of d send_asset) _ h (λ a e₁ r. step (parse_amount send_amount) _ r (λ n e₂ r.
        step (muxed_account d destination) _ r (λ to e₃ r.
          let (key, k, to_is) = muxed_account-eq-ok d destination e₃ in
          step (asset_of d dest_asset) _ r (λ b e₄ r. step (parse_amount dest_min) _ r (λ m e₅ r.
            step (path_assets d path) _ r (λ hops e₆ r.
              let (route, few) = path_assets-AreAssets d path hops e₆ in
              (
                key,
                a,
                n,
                b,
                m,
                hops,
                k,
                asset_of-IsAsset d send_asset a e₁,
                parse_amount-eq-ok send_amount e₂,
                asset_of-IsAsset d dest_asset b e₄,
                parse_amount-eq-ok dest_min e₅,
                route,
                few,
                made r ∙ ap (λ t. op payer (Xdr.path_payment_strict_send a n t b m hops)) to_is,
              )))))))
  build_op-IsOperation (claim_balance balance_id) x h =
      step (parse_balance_id d balance_id) _ h
        (λ hash e r. (hash, parse_balance_id-IsBalance d balance_id hash e, made r))
  build_op-IsOperation (change_trust asset limit) x h = step (parse_asset asset) _ h (λ a e₁ r.
      step (to_change_trust_asset d a) _ r (λ line e₂ r. step (limit_of d limit) _ r (λ n e₃ r. (
        line,
        n,
        to_change_trust_asset-IsLine d asset a line e₁ e₂,
        limit_of-IsLimit d limit e₃,
        made r,
      ))))
  build_op-IsOperation (create_claimable_balance destination asset amount) x h =
      step (asset_of d asset) _ h (λ a e₁ r. step (parse_amount amount) _ r (λ n e₂ r.
        step (claimable_claimants d user destination) _ r (λ cs e₃ r. (
          a,
          n,
          cs,
          asset_of-IsAsset d asset a e₁,
          parse_amount-eq-ok amount e₂,
          claimable_claimants-IsPair d user destination cs e₃,
          made r,
        ))))

  -- Each operation of the user, in order.
  abbrev pub AllBuilt : List UserOp → List Xdr.Operation → Type 0
  AllBuilt [] xs = xs ≡ []
  AllBuilt (o ∷ ops) xs =
      (x : Xdr.Operation) × (rest : List Xdr.Operation) × (xs ≡ x ∷ rest)
      × IsOperation o x
      × AllBuilt ops rest

  pub build_ops-AllBuilt :
      (ops : List UserOp) (xs : List Xdr.Operation)
      → build_ops d user payer ops ≡ ok xs
      → AllBuilt ops xs
  unfolding build_ops
  build_ops-AllBuilt [] xs h = cc
  build_ops-AllBuilt (o ∷ ops) xs h =
      let (x, e₁, h₁) = >>=-eq-ok (build_op d user payer o) _ h in
      let (rest, e₂, h₂) = >>=-eq-ok (build_ops d user payer ops) _ h₁ in
      (x, rest, cc, build_op-IsOperation o x e₁, build_ops-AllBuilt ops rest e₂)

  pub length-AllBuilt :
      (ops : List UserOp) (xs : List Xdr.Operation) → AllBuilt ops xs → length xs ≡ length ops
  length-AllBuilt [] xs h = ap length h
  length-AllBuilt (o ∷ ops) xs (x, rest, e, b, more) =
      ap length e ∙ ap suc (length-AllBuilt ops rest more)
