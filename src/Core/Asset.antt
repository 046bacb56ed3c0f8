-- ===== src/Core/Asset.antt =====
-- crates/core/src/asset.rs: assets and accounts as XDR.
use reserve.Base.{
  ℕ, ◌-◌, ◌++◌, Option, leb, if◌then◌else◌, length, replicate, Text, Result, ok, err, ok_or, ◌>>=◌,
}
use reserve.Horizon.Asset.{Asset, native, credit, parse}
use reserve.Core.Error.{Error}
use reserve.Core.Xdr as Xdr

-- What the service asks of the crates `stellar_strkey` and `hex`: the key of a `G…` address, and the
-- bytes of a hexadecimal text.
pub record Decoders : Type 0 where
  pub public_key : Text → Option Text
  pub hex_decode : Text → Option Text

unfoldable pub parse_asset : Text → Result Error Asset
parse_asset s = ok_or (parse s) (Error.asset s)

module _ (d : Decoders) where
  unfoldable pub account_id : Text → Result Error Xdr.AccountId
  account_id g = ok_or (d.public_key g) (Error.account g)

  unfoldable pub muxed_account : Text → Result Error Xdr.MuxedAccount
  muxed_account g = do key ← ok_or (d.public_key g) (Error.account g); ok (Xdr.ed25519 key)

  -- `buf[..code.len()].copy_from_slice(code)` into a zeroed buffer of `w` bytes.
  abbrev padded_code : ℕ → Text → Text
  padded_code w code = code ++ replicate (w - length code) 0

  unfoldable pub to_xdr_asset : Asset → Result Error Xdr.Asset
  to_xdr_asset native = ok Xdr.Asset.native
  to_xdr_asset (credit code issuer) = do
    key ← account_id issuer
    if leb (length code) 4
        then ok (Xdr.Asset.alphanum4 (padded_code 4 code) key)
        else if leb (length code) 12
        then ok (Xdr.Asset.alphanum12 (padded_code 12 code) key)
        else err (Error.asset code)

  abbrev pub as_change_trust : Xdr.Asset → Xdr.ChangeTrustAsset
  as_change_trust Xdr.Asset.native = Xdr.ChangeTrustAsset.native
  as_change_trust (Xdr.Asset.alphanum4 code issuer) = Xdr.ChangeTrustAsset.alphanum4 code issuer
  as_change_trust (Xdr.Asset.alphanum12 code issuer) = Xdr.ChangeTrustAsset.alphanum12 code issuer

  unfoldable pub to_change_trust_asset : Asset → Result Error Xdr.ChangeTrustAsset
  to_change_trust_asset asset = do a ← to_xdr_asset asset; ok (as_change_trust a)
