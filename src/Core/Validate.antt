-- ===== src/Core/Validate.antt =====
-- crates/core/src/validate.rs and `tx_to_xdr` of build.rs: the gate that a signed transaction passes.
pub mod Accept
mod Examples
use reserve.Base.{
  ℕ, Bool, true, false, not, List, [], ◌∷◌, Text, text, text_eq, Result, ok, err, fail_if, ◌>>=◌,
  ◌>>◌,
}
use reserve.Core.Error.{Error}
use reserve.Core.Asset.{Decoders}
use reserve.Core.Quote.{Quote, check_fresh, xdr_error}
use reserve.Core.Build.{build_inner}
use reserve.Core.Xdr as Xdr

-- What the service asks of the crate `stellar_xdr`: the base64 of a transaction, and the envelope that
-- a base64 text is. An error is its message.
pub record Codec : Type 0 where
  pub to_base64 : Xdr.Transaction → Result Text Text
  pub from_base64 : Text → Result Text Xdr.TransactionEnvelope

abbrev pub v1_of : Xdr.TransactionEnvelope → Result Error Xdr.TransactionV1Envelope
v1_of (Xdr.tx_v0 bytes) = err (Error.mismatch (text "expected a v1 transaction envelope"))
v1_of (Xdr.tx v1) = ok v1
v1_of (Xdr.tx_fee_bump bump) = err (Error.mismatch (text "expected a v1 transaction envelope"))

abbrev pub is_unsigned : List Xdr.DecoratedSignature → Bool
is_unsigned [] = true
is_unsigned (s ∷ signatures) = false

unfoldable pub tx_to_xdr : Codec → Xdr.Transaction → Result Error Text
tx_to_xdr x tx = xdr_error (x.to_base64 tx)

unfoldable pub check_signed_inner :
    Decoders → Codec → Text → Quote → ℕ → Result Error Xdr.TransactionV1Envelope
check_signed_inner d x signed_xdr_base64 quote current_ledger = do
  check_fresh quote current_ledger
  any_envelope ← xdr_error (x.from_base64 signed_xdr_base64)
  envelope ← v1_of any_envelope
  fail_if (is_unsigned envelope.signatures) (Error.mismatch (text "transaction is unsigned"))
  expected ← build_inner d quote
  got ← tx_to_xdr x envelope.tx
  wanted ← tx_to_xdr x expected
  fail_if (not (text_eq got wanted))
      (Error.mismatch (text "transaction body differs from the quoted one"))
  ok envelope
