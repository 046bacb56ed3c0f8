-- ===== src/Signer/Examples.antt =====
-- Fee bumps of small transactions, with signatures that only carry what is signed.
use reserve.Base.{
  ℕ, ◌+◌, ◌*◌, ◌≤◌, ◌≡◌, ◌⊎◌, refl, [], ◌∷◌, none, ok, pos, replicate, arith, ◌+ℤ◌, ◌-ℤ◌, quot,
  checked, wrapping_mul, ◌*ℤ◌,
}
use reserve.Core.Xdr as Xdr
use reserve.Signer.{
  Sponsor, Payloads, needed_fee, ops_of, sign_hash, wrap_fee_bump, co_sign, network_id,
}
use reserve.Signer.Fee.{per_op_of, needed_fee_lem}
use reserve.Signer.Envelope.{bump_of}

abbrev key : Sponsor
key = record { public_key_bytes = replicate 32 7; sign = λ hash. hash }

abbrev payloads : Payloads
payloads = record {
  sha256 = λ bytes. bytes;
  tx_payload = λ network tx. ok network;
  fee_bump_payload = λ network bump. ok network;
}

abbrev ended : Xdr.Operation
ended = record { source_account = none; body = Xdr.end_sponsoring_future_reserves }

abbrev inner_tx : Xdr.Transaction
inner_tx = record {
  source_account = Xdr.ed25519 [];
  fee = 301;
  seq_num = pos 1;
  cond = Xdr.Preconditions.time 0 0;
  memo = Xdr.Memo.none;
  operations = ended ∷ ended ∷ [];
  ext = Xdr.TransactionExt.v0;
}

abbrev inner : Xdr.TransactionV1Envelope
inner = record { tx = inner_tx; signatures = [] }

fee_of_two : needed_fee inner_tx (pos 100) ≡ ok (pos 452)
unfolding needed_fee ◌+ℤ◌ ◌-ℤ◌ quot checked wrapping_mul ◌*ℤ◌
fee_of_two = refl

needed_fee_lem_example :
    (fee : ℕ) × (needed_fee inner_tx (pos 100) ≡ ok (pos fee))
    × (100 * (ops_of inner_tx + 1) ≤ fee)
    × (inner_tx.fee + 100 ≤ fee)
    × (inner_tx.fee * (ops_of inner_tx + 1) ≤ fee * ops_of inner_tx)
    × ((fee ≡ inner_tx.fee + per_op_of inner_tx)
        ⊎ ((fee ≡ inner_tx.fee + 100) ⊎ (fee ≡ 100 * (ops_of inner_tx + 1))))
needed_fee_lem_example = needed_fee_lem inner_tx 100 (omega arith)

abbrev bumped : Xdr.TransactionEnvelope
bumped =
    Xdr.tx_fee_bump
      (record { tx = bump_of key inner (pos 452); signatures = sign_hash key [] ∷ [] })

inner-bumped : wrap_fee_bump payloads key inner (pos 100) [] ≡ ok bumped
unfolding wrap_fee_bump network_id needed_fee ◌+ℤ◌ ◌-ℤ◌ quot checked wrapping_mul ◌*ℤ◌
inner-bumped = refl

abbrev co_signed : Xdr.TransactionEnvelope
co_signed = Xdr.tx (record inner { signatures = sign_hash key [] ∷ [] })

inner-co_signed : co_sign payloads key inner [] ≡ ok co_signed
unfolding co_sign network_id
inner-co_signed = refl
