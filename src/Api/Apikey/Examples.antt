-- ===== src/Api/Apikey/Examples.antt =====
-- A key whose signature is 64 copies of one byte.
use reserve.Base.{
  ◌≡◌, ◌↔◌, refl, ◌++◌, some, ok, err, codes, Text, text_eq, replicate, strip_prefix, split_once,
}
use reserve.Api.Apikey.{IssuedKey, expired, Tools, KeyVerifier, mint, verify}
use reserve.Api.Apikey.Verify.{IsValid, verify_iff}

abbrev partner : IssuedKey
partner = record { id = codes "partner"; network = some (codes "net"); expires_at = some 1_000 }

abbrev tools : Tools
tools = record {
  to_json = λ k. ok (codes "json");
  from_json = λ s. some partner;
  encode = λ s. s;
  decode = λ s. some s;
  hex_encode = λ s. s;
  hex_decode = λ s. some s;
  verifying_key = λ s. s;
  public_key = λ s. ok s;
  sign = λ secret payload. replicate 64 b's';
  verify_strict = λ issuer payload signature. text_eq signature (replicate 64 b's');
}

abbrev verifier : KeyVerifier
verifier = record { issuer = some (replicate 32 7); network = codes "net" }

abbrev token : Text
token = codes "cav_json." ++ replicate 64 b's'

minted : mint tools (record { signing = replicate 32 7 }) partner ≡ ok token
unfolding mint
minted = refl

accepted_until :
    (verify tools verifier token 999 ≡ ok partner)
    × (verify tools verifier token 1_000 ≡ err expired)
unfolding verify strip_prefix split_once text_eq
accepted_until = (refl, refl)

verify_iff_example :
    (verify tools verifier token 999 ≡ ok partner) ↔ IsValid tools verifier token 999 partner
verify_iff_example = verify_iff tools verifier token 999 partner
