-- ===== src/Api/Auth.antt =====
-- crates/api/src/auth.rs: proof of control of an account, by a signed transaction that no network takes.
pub mod Proof
pub mod RoundTrip
pub mod Samples
mod Examples
use reserve.Base.{
  ℕ, ◌+◌, ◌%◌, ◌^◌, Bool, true, false, not, ◌&&◌, ◌||◌, List, [], ◌∷◌, ◌++◌, Option, none, some,
  leb, ◌==◌, length, take, drop, ℤ, pos, eqb_ℤ, Text, text, text_eq, to_be_bytes, from_be_bytes,
  Result, ok, err, ok_or, fail_if, ◌>>=◌, ◌>>◌,
}
use reserve.Core.Asset.{Decoders, account_id}
use reserve.Core.Error as Core
use reserve.Core.Quote.{difference}
use reserve.Core.Xdr as Xdr

abbrev pub valid_for : ℕ
valid_for = 300

abbrev pub data_name : Text
data_name = text "reserve auth"

pub data Invalid : Type 0 where
  malformed : Text → Invalid
  expired bad_signature : Invalid

-- The crates `hmac`, `sha2`, `stellar_strkey`, `stellar_xdr` and `ed25519_dalek`: HMAC-SHA256, the `G…`
-- text of a key, the base64 of envelopes, the bytes that a signature of a transaction signs on a network, and
-- whether bytes are a key and a signature is a key's.
pub record AuthTools : Type 0 where
  pub hmac_sha256 : Text → Text → Text
  pub sha256 : Text → Text
  pub public_key_text : Text → Text
  pub to_base64 : Xdr.TransactionEnvelope → Option Text
  pub from_base64 : Text → Option Xdr.TransactionEnvelope
  pub tx_payload : Text → Xdr.Transaction → Option Text
  pub is_key : Text → Bool
  pub verify_strict : Text → Text → Text → Bool

abbrev pub as_account : Result Core.Error Text → Result Invalid Text
as_account (ok key) = ok key
as_account (err e) = err (malformed (text "not a Stellar address"))

abbrev pub v1_of : Xdr.TransactionEnvelope → Result Invalid Xdr.TransactionV1Envelope
v1_of (Xdr.tx_v0 bytes) = err (malformed (text "expected a v1 envelope"))
v1_of (Xdr.tx v1) = ok v1
v1_of (Xdr.tx_fee_bump bump) = err (malformed (text "expected a v1 envelope"))

abbrev pub only_operation : List Xdr.Operation → Result Invalid Xdr.Operation
only_operation [] = err (malformed (text "a challenge has one operation"))
only_operation (op ∷ []) = ok op
only_operation (op ∷ next ∷ ops) = err (malformed (text "a challenge has one operation"))

-- The value of a `ManageData` under our name.
abbrev pub our_value : Text → Option Text → Result Invalid Text
our_value name value = do
  fail_if (not (text_eq name data_name)) (malformed (text "not our challenge"))
  ok_or value (malformed (text "no value"))

abbrev pub value_of : Xdr.OperationBody → Result Invalid Text
value_of (Xdr.manage_data name value) = our_value name value
value_of (Xdr.begin_sponsoring_future_reserves id) =
    err (malformed (text "a challenge manages data"))
value_of Xdr.end_sponsoring_future_reserves = err (malformed (text "a challenge manages data"))
value_of (Xdr.create_account id amount) = err (malformed (text "a challenge manages data"))
value_of (Xdr.payment to asset amount) = err (malformed (text "a challenge manages data"))
value_of (Xdr.path_payment_strict_send a b c d e path) =
    err (malformed (text "a challenge manages data"))
value_of (Xdr.path_payment_strict_receive a b c d e path) =
    err (malformed (text "a challenge manages data"))
value_of (Xdr.claim_claimable_balance id) = err (malformed (text "a challenge manages data"))
value_of (Xdr.change_trust asset limit) = err (malformed (text "a challenge manages data"))
value_of (Xdr.create_claimable_balance asset amount claimants) =
    err (malformed (text "a challenge manages data"))
value_of (Xdr.other bytes) = err (malformed (text "a challenge manages data"))

abbrev pub key_of : Xdr.MuxedAccount → Result Invalid Text
key_of (Xdr.ed25519 key) = ok key
key_of (Xdr.med25519 id key) = err (malformed (text "muxed accounts cannot be proved"))

module _ (a : AuthTools) where
  unfoldable pub mac : Text → Text → ℕ → Text
  mac key address expires_at = a.hmac_sha256 key (address ++ to_be_bytes 8 expires_at)

  -- The transaction of a challenge.
  unfoldable pub challenge_tx : Text → Text → Text → ℕ → Xdr.Transaction
  challenge_tx account address key now =
      let expires_at = (now + valid_for) % 2 ^ 64 in
      record {
        source_account = Xdr.ed25519 account;
        fee = 0;
        seq_num = pos 0;
        cond = Xdr.Preconditions.time now expires_at;
        memo = Xdr.Memo.none;
        operations =
            record {
              source_account = none;
              body =
                  Xdr.manage_data data_name
                    (some (to_be_bytes 8 expires_at ++ mac key address expires_at));
            }
            ∷ [];
        ext = Xdr.TransactionExt.v0;
      }

  unfoldable pub challenge : Decoders → Text → Text → ℕ → Result Invalid Text
  challenge d address key now = do
    account ← as_account (account_id d address)
    ok_or
        (a.to_base64
          (Xdr.tx (record { tx = challenge_tx account address key now; signatures = [] })))
        (malformed (text "xdr"))

  -- `signatures.iter().any(…)`
  unfoldable pub any_signed : Text → Text → List Xdr.DecoratedSignature → Bool
  any_signed key hash [] = false
  any_signed key hash (s ∷ signatures) =
      length s.signature == 64 && a.verify_strict key hash s.signature
      || any_signed key hash signatures

  unfoldable pub verify : Text → Text → Text → ℕ → Result Invalid Text
  verify signed_xdr key network_passphrase now = do
    any_envelope ← ok_or (a.from_base64 signed_xdr) (malformed (text "not a transaction envelope"))
    envelope ← v1_of any_envelope
    fail_if (not (eqb_ℤ envelope.tx.seq_num (pos 0)))
        (malformed (text "a challenge has sequence zero"))
    operation ← only_operation envelope.tx.operations
    raw ← value_of operation.body
    fail_if (not (length raw == 40)) (malformed (text "value"))
    let expires_at = from_be_bytes (take 8 raw)
    public_key ← key_of envelope.tx.source_account
    let address = a.public_key_text public_key
    fail_if (not (difference 0 (drop 8 raw) (mac key address expires_at) == 0))
        (malformed (text "not our challenge"))
    fail_if (leb expires_at now) expired
    bytes ← ok_or (a.tx_payload (a.sha256 network_passphrase) envelope.tx) (malformed (text "xdr"))
    fail_if (not (a.is_key public_key)) bad_signature
    fail_if (not (any_signed public_key (a.sha256 bytes) envelope.signatures)) bad_signature
    ok address
