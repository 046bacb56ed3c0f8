-- ===== src/Core/Build/Assets.antt =====
-- The assets and routes in an inner transaction that is built.
use reserve.Base.{
  ℕ, ◌-◌, ◌≤◌, ◌<◌, ◌≡◌, ◌⊎◌, inl, inr, sym, List, [], ◌∷◌, ◌++◌, some, leb, if◌then◌else◌, length,
  replicate, Text, text, Result, ok, >>=-eq-ok, ok_or-eq-ok, arith,
}
use reserve.Horizon.Asset.{Asset, native, credit, canonical}
use reserve.Horizon.Asset.RoundTrip.{canonical-parse}
use reserve.Core.Error.{Error}
use reserve.Core.Asset.{Decoders, account_id, parse_asset, to_xdr_asset}
use reserve.Core.Xdr as Xdr
use reserve.Core.Build.{bounded, asset_of, assets_of, path_assets}

-- A code in a field of `w` bytes, filled with zeros.
abbrev pub field : ℕ → Text → Text
field w code = code ++ replicate (w - length code) 0

-- The asset of a canonical text, in a type with a form for lumens, one for codes of up to 4 bytes and one for
-- codes of up to 12: the text is `native`, or a code and an issuer around a colon.
abbrev pub IsAssetIn :
    {X : Type 0} → X → (Text → Text → X) → (Text → Text → X) → Decoders → Text → X → Type 0
IsAssetIn lumens short long d s x =
    (s ≡ text "native") × (x ≡ lumens)
    ⊎ ((code : Text) × (issuer : Text) × (key : Text) × (s ≡ code ++ b':' ∷ issuer)
        × (d.public_key issuer ≡ some key)
        × ((length code ≤ 4) × (x ≡ short (field 4 code) key)
            ⊎ (4 < length code) × (length code ≤ 12) × (x ≡ long (field 12 code) key)))

abbrev pub IsAsset : Decoders → Text → Xdr.Asset → Type 0
IsAsset = IsAssetIn Xdr.Asset.native Xdr.Asset.alphanum4 Xdr.Asset.alphanum12

abbrev pub IsLine : Decoders → Text → Xdr.ChangeTrustAsset → Type 0
IsLine =
    IsAssetIn Xdr.ChangeTrustAsset.native Xdr.ChangeTrustAsset.alphanum4
      Xdr.ChangeTrustAsset.alphanum12

-- The assets of a route, one by one.
abbrev pub AreAssets : Decoders → List Text → List Xdr.Asset → Type 0
AreAssets d [] xs = xs ≡ []
AreAssets d (s ∷ ss) xs =
    (x : Xdr.Asset) × (rest : List Xdr.Asset) × (xs ≡ x ∷ rest)
    × IsAsset d s x
    × AreAssets d ss rest

-- A bounded list is the list.
pub bounded-eq-ok :
    {A : Type 0} (n : ℕ) (xs : List A) (message : Text) {ys : List A}
    → bounded n xs message ≡ ok ys
    → (ys ≡ xs) × (length xs ≤ n)
bounded-eq-ok n xs message h = ground arith

pub account_id-eq-ok :
    (d : Decoders) (g : Text) {k : Xdr.AccountId} → account_id d g ≡ ok k → d.public_key g ≡ some k
unfolding account_id
account_id-eq-ok d g h = ok_or-eq-ok _ (Error.account g) h

-- The form of an asset with a code, by the length of the code.
sized_asset :
    (code key : Text) (x : Xdr.Asset)
    → (if leb (length code) 4
        then ok (Xdr.Asset.alphanum4 (field 4 code) key)
        else if leb (length code) 12
        then ok (Xdr.Asset.alphanum12 (field 12 code) key)
        else Result.err (Error.asset code))
      ≡ ok x
    → (length code ≤ 4) × (x ≡ Xdr.Asset.alphanum4 (field 4 code) key)
      ⊎ (4 < length code) × (length code ≤ 12) × (x ≡ Xdr.Asset.alphanum12 (field 12 code) key)
sized_asset code key x h = ground arith

module _ (d : Decoders) where
  to_xdr_asset-IsAsset :
      (s : Text) (a : Asset) (x : Xdr.Asset)
      → canonical a ≡ s
      → to_xdr_asset d a ≡ ok x
      → IsAsset d s x
  unfolding to_xdr_asset canonical
  to_xdr_asset-IsAsset s native x e h = inl (sym e, cc)
  to_xdr_asset-IsAsset s (credit code issuer) x e h =
      let (key, e₁, h₁) = >>=-eq-ok (account_id d issuer) _ h in
      inr (code, issuer, key, sym e, account_id-eq-ok d issuer e₁, sized_asset code key x h₁)

  parse_asset-canonical : (s : Text) (a : Asset) → parse_asset s ≡ ok a → canonical a ≡ s
  unfolding parse_asset
  parse_asset-canonical s a h = (canonical-parse s a (ok_or-eq-ok _ (Error.asset s) h)).1

  pub parsed-IsAsset :
      (s : Text) (a : Asset) (x : Xdr.Asset)
      → parse_asset s ≡ ok a
      → to_xdr_asset d a ≡ ok x
      → IsAsset d s x
  parsed-IsAsset s a x e h = to_xdr_asset-IsAsset s a x (parse_asset-canonical s a e) h

  pub asset_of-IsAsset : (s : Text) (x : Xdr.Asset) → asset_of d s ≡ ok x → IsAsset d s x
  unfolding asset_of
  asset_of-IsAsset s x h = let (a, e, r) = >>=-eq-ok (parse_asset s) _ h in parsed-IsAsset s a x e r

  pub assets_of-AreAssets :
      (ss : List Text) (xs : List Xdr.Asset) → assets_of d ss ≡ ok xs → AreAssets d ss xs
  unfolding assets_of
  assets_of-AreAssets [] xs h = cc
  assets_of-AreAssets (s ∷ ss) xs h =
      let (x, e₁, h₁) = >>=-eq-ok (asset_of d s) _ h in
      let (rest, e₂, h₂) = >>=-eq-ok (assets_of d ss) _ h₁ in
      (x, rest, cc, asset_of-IsAsset s x e₁, assets_of-AreAssets ss rest e₂)

  pub path_assets-AreAssets :
      (ss : List Text) (xs : List Xdr.Asset)
      → path_assets d ss ≡ ok xs
      → AreAssets d ss xs × (length xs ≤ 5)
  unfolding path_assets
  path_assets-AreAssets ss xs h =
      let (ys, e₁, h₁) = >>=-eq-ok (assets_of d ss) _ h in
      let (same, few) = bounded-eq-ok 5 ys (text "path too long") h₁ in
      rw same (assets_of-AreAssets ss ys e₁, few)
