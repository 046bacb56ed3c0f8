-- ===== src/Core/Quote.antt =====
-- crates/core/src/quote.rs: quotes, which travel as a payload with its message authentication code.
pub mod Seal
mod Examples
use Prim.Native.Nat.{bit_or, bit_xor}
use reserve.Base.{
  ℕ, Bool, true, false, not, ◌||◌, List, [], ◌∷◌, ◌++◌, Option, none, some, ltb, ◌==◌,
  if◌then◌else◌, length, ℤ, Text, text, split_once, Result, ok, err, ok_or, fail_if, ◌>>=◌, ◌>>◌,
}
use reserve.Core.Error.{Error}
use reserve.Core.Plan.{UserOp, Mode, sponsored, bootstrap}

pub record Quote : Type 0 where
  pub network : Text
  pub mode : Mode
  pub source : Text
  pub sponsor : Text
  pub channel : Text
  pub ops : List UserOp
  pub fee_token : Text
  pub charge_stroops : ℤ
  pub send_max_stroops : ℤ
  pub path : List Text
  pub reserve_stroops : ℤ
  pub sequence : ℤ
  pub inner_fee_stroops : ℕ
  pub min_time : ℕ
  pub max_time : ℕ
  pub expires_at_ledger : ℕ

-- What a seal asks of the crates `serde_json`, `base64` and `hmac`: the JSON of a quote (an error is
-- its message), base64url without padding, and the authentication code under a key.
pub record Sealing : Type 0 where
  pub to_json : Quote → Result Text Text
  pub from_json : Text → Option Quote
  pub encode : Text → Text
  pub decode : Text → Option Text
  pub mac : Text → Text → Text

abbrev pub xdr_error : {A : Type 0} → Result Text A → Result Error A
xdr_error (ok a) = ok a
xdr_error (err message) = err (Error.xdr message)

-- `fold(0u8, |acc, (a, b)| acc | (a ^ b))` over the pairs of bytes.
unfoldable pub difference : ℕ → Text → Text → ℕ
difference acc [] t = acc
difference acc (a ∷ s) [] = acc
difference acc (a ∷ s) (b ∷ t) = difference (bit_or acc (bit_xor a b)) s t

unfoldable pub differs : Text → Text → Bool
differs given expected =
    not (length given == length expected) || not (difference 0 given expected == 0)

module _ (s : Sealing) where
  unfoldable pub seal : Quote → Text → Result Error Text
  seal q key = do
    payload ← xdr_error (s.to_json q)
    ok (s.encode payload ++ b'.' ∷ s.encode (s.mac key payload))

  unfoldable pub open_quote : Text → Text → Result Error Quote
  open_quote token key = do
    (payload_b64, mac_b64) ← ok_or (split_once b'.' token) Error.quote_signature
    payload ← ok_or (s.decode payload_b64) Error.quote_signature
    given ← ok_or (s.decode mac_b64) Error.quote_signature
    fail_if (differs given (s.mac key payload)) Error.quote_signature
    ok_or (s.from_json payload) Error.quote_signature

abbrev pub tx_source_in : Mode → Text → Text → Text → Text
tx_source_in sponsored source sponsor channel = source
tx_source_in bootstrap source sponsor [] = sponsor
tx_source_in bootstrap source sponsor (c ∷ channel) = c ∷ channel

unfoldable pub tx_source : Quote → Text
tx_source q = tx_source_in q.mode q.source q.sponsor q.channel

unfoldable pub check_fresh : Quote → ℕ → Result Error (Unit {0})
check_fresh q current_ledger =
    fail_if (ltb q.expires_at_ledger current_ledger) (Error.quote_expired q.expires_at_ledger)
