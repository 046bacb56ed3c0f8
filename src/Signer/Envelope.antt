-- ===== src/Signer/Envelope.antt =====
-- What the sponsor signs.
use reserve.Base.{◌≤◌, ◌≡◌, [], ◌∷◌, ◌++◌, length, ℤ, Text, Result, ok, err, >>=-eq-ok, arith}
use reserve.Core.Xdr as Xdr
use reserve.Signer.{
  Sponsor, Payloads, xdr_error, network_id, muxed_account, sign_hash, needed_fee, wrap_fee_bump,
  co_sign,
}

pub xdr_error-eq-ok : {A : Type 0} (r : Result Text A) {a : A} → xdr_error r ≡ ok a → r ≡ ok a
xdr_error-eq-ok (ok b) h = cc
xdr_error-eq-ok (err e) h = cc

abbrev pub bump_of : Sponsor → Xdr.TransactionV1Envelope → ℤ → Xdr.FeeBumpTransaction
bump_of s inner fee = record {
  fee_source = muxed_account s;
  fee = fee;
  inner_tx = inner;
  ext = Xdr.TransactionExt.v0;
}

-- A fee bump that the sponsor pays for and signs, around an inner envelope.
pub record IsBump (p : Payloads) (s : Sponsor) (inner : Xdr.TransactionV1Envelope) (base : ℤ)
    (passphrase : Text) (e : Xdr.TransactionEnvelope) : Type 0 where
  pub fee : ℤ
  pub bytes : Text
  pub priced : needed_fee inner.tx base ≡ ok fee
  pub payload : p.fee_bump_payload (p.sha256 passphrase) (bump_of s inner fee) ≡ ok bytes
  pub envelope :
      e
      ≡ Xdr.tx_fee_bump
          (record { tx = bump_of s inner fee; signatures = sign_hash s (p.sha256 bytes) ∷ [] })

module _ (p : Payloads) (s : Sponsor) where
  -- A fee bump holds the inner envelope as it was given, with its signatures; the sponsor is the source of
  -- the fee, which is the needed one, and its only signature is the sponsor's on the digest of the bump.
  pub wrap_fee_bump-IsBump :
      (inner : Xdr.TransactionV1Envelope) (base : ℤ) (passphrase : Text)
      (e : Xdr.TransactionEnvelope)
      → wrap_fee_bump p s inner base passphrase ≡ ok e
      → IsBump p s inner base passphrase e
  unfolding wrap_fee_bump network_id
  wrap_fee_bump-IsBump inner base passphrase e h =
      let (fee, e₁, h₁) = >>=-eq-ok (needed_fee inner.tx base) _ h in
      let (bytes, e₂, h₂) =
        >>=-eq-ok (xdr_error (p.fee_bump_payload (p.sha256 passphrase) (bump_of s inner fee))) _
          h₁ in
      record {
        fee = fee;
        bytes = bytes;
        priced = e₁;
        payload = xdr_error-eq-ok _ e₂;
        envelope = cc;
      }

  -- A co-signed envelope holds the same transaction, and the same signatures with the sponsor's
  -- behind them, on the digest of the transaction's payload for the network; these are 20 at most.
  pub co_sign_appends :
      (v : Xdr.TransactionV1Envelope) (passphrase : Text) (e : Xdr.TransactionEnvelope)
      → co_sign p s v passphrase ≡ ok e
      → (bytes : Text) × (p.tx_payload (p.sha256 passphrase) v.tx ≡ ok bytes)
        × (e ≡ Xdr.tx (record v { signatures = v.signatures ++ sign_hash s (p.sha256 bytes) ∷ [] }))
        × (length (v.signatures ++ sign_hash s (p.sha256 bytes) ∷ []) ≤ 20)
  unfolding co_sign network_id
  co_sign_appends v passphrase e h =
      let (bytes, e₁, h₁) = >>=-eq-ok (xdr_error (p.tx_payload (p.sha256 passphrase) v.tx)) _ h in
      (bytes, xdr_error-eq-ok _ e₁, ground arith, ground arith)
