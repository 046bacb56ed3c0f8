-- ===== src/Api/Apikey.antt =====
-- crates/api/src/apikey.rs: integrator keys, signed by an issuer and verified offline.
pub mod Verify
mod Examples
use reserve.Base.{
  ℕ, Bool, true, false, not, List, [], ◌∷◌, ◌++◌, Option, none, some, leb, ◌==◌, length,
  if◌then◌else◌, Text, text, codes, text_eq, trim, strip_prefix, split_once, Result, ok, err, ok_or,
  fail_if, ◌>>=◌, ◌>>◌,
}

pub record IssuedKey : Type 0 where
  pub id : Text
  pub network : Option Text
  pub expires_at : Option ℕ

pub data Invalid : Type 0 where
  malformed bad_signature expired wrong_network : Invalid

-- What a key asks of the crates `serde_json`, `base64`, `hex` and `ed25519_dalek`. Keys of the signature
-- are their bytes; `public_key` refuses bytes that are no key, with a message.
pub record Tools : Type 0 where
  pub to_json : IssuedKey → Result Text Text
  pub from_json : Text → Option IssuedKey
  pub encode : Text → Text
  pub decode : Text → Option Text
  pub hex_encode : Text → Text
  pub hex_decode : Text → Option Text
  pub verifying_key : Text → Text
  pub public_key : Text → Result Text Text
  pub sign : Text → Text → Text
  pub verify_strict : Text → Text → Text → Bool

-- `try_into` of an array of `n` bytes.
abbrev pub sized : ℕ → Text → Option Text
sized n bytes = if length bytes == n then some bytes else none

-- The secret of the issuer.
pub record KeyIssuer : Type 0 where
  pub signing : Text

pub record KeyVerifier : Type 0 where
  pub issuer : Option Text
  pub network : Text

module _ (t : Tools) where
  unfoldable pub issuer_new : Text → Result Text KeyIssuer
  issuer_new secret = do
    bytes ← ok_or (t.hex_decode (trim secret)) (text "issuer secret is not hex")
    array ← ok_or (sized 32 bytes) (text "issuer secret must be 32 bytes")
    ok (record { signing = array })

  unfoldable pub public_key_hex : KeyIssuer → Text
  public_key_hex i = t.hex_encode (t.verifying_key i.signing)

  unfoldable pub mint : KeyIssuer → IssuedKey → Result Text Text
  mint i key = do
    payload ← t.to_json key
    ok (codes "cav_" ++ (t.encode payload ++ b'.' ∷ t.encode (t.sign i.signing payload)))

  unfoldable pub verifier_new : Option Text → Text → Result Text KeyVerifier
  verifier_new none network = ok (record { issuer = none; network = network })
  verifier_new (some hex_key) network = do
    bytes ← ok_or (t.hex_decode (trim hex_key)) (text "issuer public key is not hex")
    array ← ok_or (sized 32 bytes) (text "issuer public key must be 32 bytes")
    key ← t.public_key array
    ok (record { issuer = some key; network = network })

  abbrev pub is_expired : Option ℕ → ℕ → Bool
  is_expired none now = false
  is_expired (some at) now = leb at now

  abbrev pub is_elsewhere : Option Text → Text → Bool
  is_elsewhere none network = false
  is_elsewhere (some n) network = not (text_eq n network)

  unfoldable pub verify : KeyVerifier → Text → ℕ → Result Invalid IssuedKey
  verify v token now = do
    issuer ← ok_or v.issuer bad_signature
    body ← ok_or (strip_prefix (codes "cav_") token) malformed
    (payload_b64, sig_b64) ← ok_or (split_once b'.' body) malformed
    payload ← ok_or (t.decode payload_b64) malformed
    bytes ← ok_or (t.decode sig_b64) malformed
    signature ← ok_or (sized 64 bytes) malformed
    fail_if (not (t.verify_strict issuer payload signature)) bad_signature
    key ← ok_or (t.from_json payload) malformed
    fail_if (is_expired key.expires_at now) expired
    fail_if (is_elsewhere key.network v.network) wrong_network
    ok key
