-- ===== src/Api/Apikey/Verify.antt =====
-- The keys that are accepted.
use reserve.Base.{
  ℕ, ◌<◌, ◌≡◌, ◌↔◌, refl, subst, true, false, not, Option, none, some, length, Text, codes,
  text_eq→eq, eq→text_eq, strip_prefix, split_once, Result, ok, ok_or, fail_if, >>=-eq-ok,
  ok_or-eq-ok, fail_if-eq-ok, arith,
}
use reserve.Api.Apikey.{
  IssuedKey, Invalid, malformed, bad_signature, expired, wrong_network, Tools, KeyVerifier, sized,
  is_expired, is_elsewhere, verify,
}

-- A time that a key is good at, and a network.
abbrev pub IsCurrent : Option ℕ → ℕ → Type 0
IsCurrent none now = Unit
IsCurrent (some at) now = now < at

abbrev pub IsFor : Option Text → Text → Type 0
IsFor none network = Unit
IsFor (some n) network = n ≡ network

-- A token that carries a key, signed by the issuer, current and for the network.
pub record IsValid (t : Tools) (v : KeyVerifier) (token : Text) (now : ℕ) (key : IssuedKey)
    : Type 0 where
  pub issuer : Text
  pub body : Text
  pub payload_b64 : Text
  pub sig_b64 : Text
  pub payload : Text
  pub signature : Text
  pub has_issuer : v.issuer ≡ some issuer
  pub prefixed : strip_prefix (codes "cav_") token ≡ some body
  pub parts : split_once b'.' body ≡ some (payload_b64, sig_b64)
  pub payload_decoded : t.decode payload_b64 ≡ some payload
  pub signature_decoded : t.decode sig_b64 ≡ some signature
  pub size : length signature ≡ 64
  pub verified : t.verify_strict issuer payload signature ≡ true
  pub key_read : t.from_json payload ≡ some key
  pub current : IsCurrent key.expires_at now
  pub network : IsFor key.network v.network

sized-eq-some :
    (n : ℕ) (bytes : Text) {array : Text}
    → sized n bytes ≡ some array
    → (array ≡ bytes) × (length bytes ≡ n)
sized-eq-some n bytes h = ground arith

sized_self : (n : ℕ) (bytes : Text) → length bytes ≡ n → sized n bytes ≡ some bytes
sized_self n bytes h = ground arith

IsCurrent-iff :
    (t : Tools) (at : Option ℕ) (now : ℕ) → (is_expired t at now ≡ false) ↔ IsCurrent at now
IsCurrent-iff t none now = (λ h. tt, λ h. refl)
IsCurrent-iff t (some at) now = (λ h. ground arith, λ h. ground arith)

network_iff :
    (t : Tools) (n : Option Text) (network : Text)
    → (is_elsewhere t n network ≡ false) ↔ IsFor n network
network_iff t none network = (λ h. tt, λ h. refl)
network_iff t (some n) network =
    (λ h. text_eq→eq n network (ground arith), λ h. let e = eq→text_eq n network h in ground arith)

ok-injective : (a b : IssuedKey) → ◌≡◌ {A = Result Invalid IssuedKey} (ok a) (ok b) → a ≡ b
ok-injective a b h = cc

module _ (t : Tools) (v : KeyVerifier) (token : Text) (now : ℕ) where
  IsValid-of_verify : (key : IssuedKey) → verify t v token now ≡ ok key → IsValid t v token now key
  unfolding verify
  IsValid-of_verify key h =
      let (issuer, e₁, h₁) = >>=-eq-ok (ok_or v.issuer bad_signature) _ h in
      let (body, e₂, h₂) = >>=-eq-ok (ok_or (strip_prefix (codes "cav_") token) malformed) _ h₁ in
      let (parts, e₃, h₃) = >>=-eq-ok (ok_or (split_once b'.' body) malformed) _ h₂ in
      let (payload, e₄, h₄) = >>=-eq-ok (ok_or (t.decode parts.0) malformed) _ h₃ in
      let (bytes, e₅, h₅) = >>=-eq-ok (ok_or (t.decode parts.1) malformed) _ h₄ in
      let (signature, e₆, h₆) = >>=-eq-ok (ok_or (sized 64 bytes) malformed) _ h₅ in
      let (u, e₇, h₇) =
        >>=-eq-ok (fail_if (not (t.verify_strict issuer payload signature)) bad_signature) _ h₆ in
      let (found, e₈, h₈) = >>=-eq-ok (ok_or (t.from_json payload) malformed) _ h₇ in
      let (w, e₉, h₉) = >>=-eq-ok (fail_if (is_expired t found.expires_at now) expired) _ h₈ in
      let (x, e₁₀, h₁₀) =
        >>=-eq-ok (fail_if (is_elsewhere t found.network v.network) wrong_network) _ h₉ in
      let (same, size) = sized-eq-some 64 bytes (ok_or-eq-ok _ malformed e₆) in
      let passed = fail_if-eq-ok _ bad_signature e₇ in
      subst (IsValid t v token now) (ok-injective found key h₁₀) (record {
        issuer = issuer;
        body = body;
        payload_b64 = parts.0;
        sig_b64 = parts.1;
        payload = payload;
        signature = bytes;
        has_issuer = ok_or-eq-ok _ bad_signature e₁;
        prefixed = ok_or-eq-ok _ malformed e₂;
        parts = ok_or-eq-ok _ malformed e₃;
        payload_decoded = ok_or-eq-ok _ malformed e₄;
        signature_decoded = ok_or-eq-ok _ malformed e₅;
        size = size;
        verified = subst (λ s. t.verify_strict issuer payload s ≡ true) same (ground arith);
        key_read = ok_or-eq-ok _ malformed e₈;
        current = (IsCurrent-iff t found.expires_at now).0 (fail_if-eq-ok _ expired e₉);
        network = (network_iff t found.network v.network).0 (fail_if-eq-ok _ wrong_network e₁₀);
      })

  verify_of_IsValid : (key : IssuedKey) → IsValid t v token now key → verify t v token now ≡ ok key
  unfolding verify
  verify_of_IsValid key h =
      rw
        (
          h.has_issuer,
          h.prefixed,
          h.parts,
          h.payload_decoded,
          h.signature_decoded,
          sized_self 64 h.signature h.size,
          h.verified,
          h.key_read,
          (IsCurrent-iff t key.expires_at now).1 h.current,
          (network_iff t key.network v.network).1 h.network,
        )
        refl

  -- A token is accepted as a key exactly if the service has an issuer, the token is the prefix and two
  -- base64 parts around a dot, of which the second is a signature of 64 bytes by the issuer of the first,
  -- the first is the key's JSON, and the key has not expired and is for this network or for any.
  pub verify_iff : (key : IssuedKey) → (verify t v token now ≡ ok key) ↔ IsValid t v token now key
  verify_iff key = (IsValid-of_verify key, verify_of_IsValid key)
