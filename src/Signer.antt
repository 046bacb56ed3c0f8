-- ===== src/Signer.antt =====
-- crates/signer/src/lib.rs: the sponsor's keys and signatures.
pub mod Fee
pub mod Envelope
pub mod Keys
mod Examples
use reserve.Base.{
  ℕ, ◌+◌, ◌-◌, List, [], ◌∷◌, ◌++◌, Option, none, some, leb, if◌then◌else◌, length, take, drop, max,
  ℤ, pos, ◌+ℤ◌, ◌-ℤ◌, max_ℤ, quot, checked, wrapping_mul, i64_max, Text, text, Result, ok, err,
  ok_or, ◌>>=◌,
}
use reserve.Core.Xdr as Xdr

pub data Error : Type 0 where
  invalid_secret : Error
  xdr : Text → Error
  fee_too_low : ℤ → Error

-- A key of the crate `ed25519_dalek`: its public half and its signatures.
pub record Sponsor : Type 0 where
  pub public_key_bytes : Text
  pub sign : Text → Text

-- What is signed, as the crates `sha2` and `stellar_xdr` give it: the digest of bytes, and the payload of
-- a network's id with a transaction or a fee bump. An error is its message.
pub record Payloads : Type 0 where
  pub sha256 : Text → Text
  pub tx_payload : Text → Xdr.Transaction → Result Text Text
  pub fee_bump_payload : Text → Xdr.FeeBumpTransaction → Result Text Text

abbrev pub xdr_error : {A : Type 0} → Result Text A → Result Error A
xdr_error (ok a) = ok a
xdr_error (err message) = err (xdr message)

unfoldable pub network_id : Payloads → Text → Text
network_id p passphrase = p.sha256 passphrase

unfoldable pub muxed_account : Sponsor → Xdr.MuxedAccount
muxed_account s = Xdr.ed25519 s.public_key_bytes

-- The hint is the last four bytes of the key.
unfoldable pub sign_hash : Sponsor → Text → Xdr.DecoratedSignature
sign_hash s hash = record { hint = take 4 (drop 28 s.public_key_bytes); signature = s.sign hash }

-- The operations that a fee is for, one at least.
abbrev pub ops_of : Xdr.Transaction → ℕ
ops_of tx = max (length tx.operations) 1

-- The fee of the fee bump. The sums before the checked one are of a u32 and a length, and do not overflow.
unfoldable pub needed_fee : Xdr.Transaction → ℤ → Result Error ℤ
needed_fee tx base_fee_stroops =
    let ops = ops_of tx in
    let per_op = quot (pos tx.fee +ℤ pos ops -ℤ pos 1) (pos ops) in
    (do
      sum ←
          ok_or (checked (pos tx.fee +ℤ max_ℤ per_op base_fee_stroops)) (fee_too_low (pos i64_max))
      ok (max_ℤ sum (wrapping_mul base_fee_stroops (pos (ops + 1)))))

module _ (p : Payloads) (s : Sponsor) where
  unfoldable pub wrap_fee_bump :
      Xdr.TransactionV1Envelope → ℤ → Text → Result Error Xdr.TransactionEnvelope
  wrap_fee_bump inner base_fee_stroops passphrase = do
    needed ← needed_fee inner.tx base_fee_stroops
    let fee_bump : Xdr.FeeBumpTransaction = record {
      fee_source = muxed_account s;
      fee = needed;
      inner_tx = inner;
      ext = Xdr.TransactionExt.v0;
    }
    bytes ← xdr_error (p.fee_bump_payload (network_id p passphrase) fee_bump)
    ok (Xdr.tx_fee_bump (record { tx = fee_bump; signatures = sign_hash s (p.sha256 bytes) ∷ [] }))

  -- An envelope holds at most 20 signatures.
  unfoldable pub co_sign : Xdr.TransactionV1Envelope → Text → Result Error Xdr.TransactionEnvelope
  co_sign envelope passphrase = do
    bytes ← xdr_error (p.tx_payload (network_id p passphrase) envelope.tx)
    let signatures = envelope.signatures ++ sign_hash s (p.sha256 bytes) ∷ []
    if leb (length signatures) 20
        then ok (Xdr.tx (record envelope { signatures = signatures }))
        else err (xdr (text "too many signatures"))

  unfoldable pub sign_transaction : Xdr.Transaction → Text → Result Error Xdr.TransactionEnvelope
  sign_transaction tx passphrase = do
    bytes ← xdr_error (p.tx_payload (network_id p passphrase) tx)
    ok (Xdr.tx (record { tx = tx; signatures = sign_hash s (p.sha256 bytes) ∷ [] }))
