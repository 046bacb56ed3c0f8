-- ===== src/Api/Auth/Samples.antt =====
-- Data for the examples: a challenge of one account at the time 1,000, and its signed form.
use reserve.Base.{true, List, [], ◌∷◌, Option, some, replicate, Text, text_eq, codes}
use reserve.Core.Samples.{user}
use reserve.Core.Xdr as Xdr
use reserve.Api.Auth.{AuthTools, challenge_tx}

-- The empty text is the base64 of the challenge, and any other that of the challenge signed.
abbrev pub code_of : Text → Text → Text
code_of key message = replicate 32 7

abbrev pub without : Xdr.TransactionEnvelope → AuthTools
without e = record {
  hmac_sha256 = code_of;
  sha256 = λ bytes. bytes;
  public_key_text = λ key. key;
  to_base64 = λ e. some [];
  from_base64 = λ s. some e;
  tx_payload = λ network tx. some (codes "payload");
  is_key = λ key. true;
  verify_strict = λ key hash signature. text_eq hash (codes "payload");
}

abbrev pub unsigned : Xdr.TransactionV1Envelope
unsigned = record {
  tx = challenge_tx (without (Xdr.tx_v0 [])) user user (codes "key") 1_000;
  signatures = [];
}

abbrev pub signatures : List Xdr.DecoratedSignature
signatures = record { hint = []; signature = replicate 64 b's' } ∷ []

abbrev pub answers : Text → Option Xdr.TransactionEnvelope
answers [] = some (Xdr.tx unsigned)
answers (c ∷ s) = some (Xdr.tx (record unsigned { signatures = signatures }))

abbrev pub tools : AuthTools
tools = record (without (Xdr.tx_v0 [])) { from_base64 = answers }

abbrev pub signed : Text
signed = codes "signed"
