-- ===== src/Core/Quote/Seal.antt =====
-- A sealed quote opens as itself under its key, and nothing else opens.
use Prim.Native.Nat.{bit_or, bit_xor}
use reserve.Base.{
  ℕ, ◌≡◌, ◌↔◌, refl, sym, ap, ap₂, subst, ◌∙◌, false, [], ◌∷◌, ◌++◌, some, length, Text, split_once,
  Lacks, split_once-append, Result, ok, err, ok_or, fail_if, >>=-eq-ok, ok_or-eq-ok, fail_if-eq-ok,
  arith, bit_or-eq-zero, bit_xor-eq-zero, bit_xor_self,
}
use reserve.Core.Error.{Error}
use reserve.Core.Quote.{Quote, Sealing, seal, open_quote, differs, difference, xdr_error}

pub difference_sound :
    (s t : Text) (acc : ℕ) → length s ≡ length t → difference acc s t ≡ 0 → (acc ≡ 0) × (s ≡ t)
unfolding difference
difference_sound [] [] acc n h = (h, refl)
difference_sound [] (b ∷ t) acc n h = absurd (omega arith)
difference_sound (a ∷ s) [] acc n h = absurd (omega arith)
difference_sound (a ∷ s) (b ∷ t) acc n h =
    let (z, rest) = difference_sound s t (bit_or acc (bit_xor a b)) (omega arith) h in
    let (first, same) = bit_or-eq-zero acc (bit_xor a b) z in
    (first, ap₂ (λ x (y : Text). x ∷ y) (bit_xor-eq-zero a b same) rest)

pub difference_self : (s : Text) → difference 0 s s ≡ 0
unfolding difference
difference_self [] = refl
difference_self (a ∷ s) = rw (bit_xor_self a) (difference_self s)

pub differs_iff : (s t : Text) → (differs s t ≡ false) ↔ (s ≡ t)
unfolding differs
differs_iff s t = (
  λ h. (difference_sound s t 0 (ground arith) (ground arith)).1,
  λ e.
      let h : difference 0 s t ≡ 0 = subst (λ u. difference 0 s u ≡ 0) e (difference_self s) in
      let n = ap (λ (u : Text). length u) e in ground arith,
)

-- The two parts of a token that opens as a quote under a key.
pub record IsSealed (s : Sealing) (token key : Text) (q : Quote) : Type 0 where
  pub payload_b64 : Text
  pub mac_b64 : Text
  pub payload : Text
  pub parts : split_once b'.' token ≡ some (payload_b64, mac_b64)
  pub payload_decoded : s.decode payload_b64 ≡ some payload
  pub mac_decoded : s.decode mac_b64 ≡ some (s.mac key payload)
  pub quote_read : s.from_json payload ≡ some q

IsSealed-of_open :
    (s : Sealing) (token key : Text) (q : Quote)
    → open_quote s token key ≡ ok q
    → IsSealed s token key q
unfolding open_quote
IsSealed-of_open s token key q h =
    let (parts, e₁, h₁) = >>=-eq-ok (ok_or (split_once b'.' token) Error.quote_signature) _ h in
    let (payload, e₂, h₂) = >>=-eq-ok (ok_or (s.decode parts.0) Error.quote_signature) _ h₁ in
    let (given, e₃, h₃) = >>=-eq-ok (ok_or (s.decode parts.1) Error.quote_signature) _ h₂ in
    let (u, e₄, h₄) =
      >>=-eq-ok (fail_if (differs given (s.mac key payload)) Error.quote_signature) _ h₃ in
    let same =
      (differs_iff given (s.mac key payload)).0 (fail_if-eq-ok _ Error.quote_signature e₄) in
    record {
      payload_b64 = parts.0;
      mac_b64 = parts.1;
      payload = payload;
      parts = ok_or-eq-ok _ Error.quote_signature e₁;
      payload_decoded = ok_or-eq-ok _ Error.quote_signature e₂;
      mac_decoded = ok_or-eq-ok _ Error.quote_signature e₃ ∙ ap some same;
      quote_read = ok_or-eq-ok _ Error.quote_signature h₄;
    }

open_of_IsSealed :
    (s : Sealing) (token key : Text) (q : Quote)
    → IsSealed s token key q
    → open_quote s token key ≡ ok q
unfolding open_quote
open_of_IsSealed s token key q h =
    let e = (differs_iff (s.mac key h.payload) (s.mac key h.payload)).1 refl in
    rw (h.parts, h.payload_decoded, h.mac_decoded, e, h.quote_read)

-- A token opens as a quote exactly if it is two base64 parts around its first dot, the second of
-- which is the key's authentication code of the first, and the first is the quote's JSON.
pub open_iff :
    (s : Sealing) (token key : Text) (q : Quote)
    → (open_quote s token key ≡ ok q) ↔ IsSealed s token key q
open_iff s token key q = (IsSealed-of_open s token key q, open_of_IsSealed s token key q)

-- What `base64` promises: encoded bytes decode to themselves, and no encoded text has a dot.
pub record IsCodec (s : Sealing) : Type 0 where
  pub decode-encode : (bytes : Text) → s.decode (s.encode bytes) ≡ some bytes
  pub encode-Lacks : (bytes : Text) → Lacks b'.' (s.encode bytes)

pub xdr_error-eq-ok : {A : Type 0} (r : Result Text A) {a : A} → xdr_error r ≡ ok a → r ≡ ok a
xdr_error-eq-ok (ok b) h = cc
xdr_error-eq-ok (err e) h = cc

token_parts :
    (s : Sealing) (payload code key : Text) (q : Quote)
    → IsCodec s
    → IsSealed s (s.encode payload ++ b'.' ∷ s.encode code) key q
    → (code ≡ s.mac key payload) × (s.from_json payload ≡ some q)
token_parts s payload code key q laws h =
    let e =
      sym (split_once-append b'.' (s.encode payload) (s.encode code) (laws.encode-Lacks payload))
      ∙ h.parts in
    let first : some payload ≡ some h.payload =
      sym (laws.decode-encode payload)
      ∙ ap s.decode (let e : s.encode payload ≡ h.payload_b64 = cc in e)
      ∙ h.payload_decoded in
    let second : some code ≡ some (s.mac key h.payload) =
      sym (laws.decode-encode code)
      ∙ ap s.decode (let e : s.encode code ≡ h.mac_b64 = cc in e)
      ∙ h.mac_decoded in
    let read = h.quote_read in (cc, cc)

-- If base64 decodes what it encodes and writes no dot, then a quote that is sealed, and whose JSON
-- reads back as itself, opens as itself under the same key; under another key it opens only as
-- itself, and only if that key gives the payload the same authentication code.
pub open-seal :
    (s : Sealing) (q : Quote) (key token : Text)
    → IsCodec s
    → ((payload : Text) → s.to_json q ≡ ok payload → s.from_json payload ≡ some q)
    → seal s q key ≡ ok token
    → (open_quote s token key ≡ ok q)
      × ((other : Text) (r : Quote)
          → open_quote s token other ≡ ok r
          → (r ≡ q)
            × ((payload : Text) × (s.to_json q ≡ ok payload)
                × (s.mac other payload ≡ s.mac key payload)))
unfolding seal
open-seal s q key token laws reads h =
    let (payload, e₁, h₁) = >>=-eq-ok (xdr_error (s.to_json q)) _ h in
    let e : s.encode payload ++ b'.' ∷ s.encode (s.mac key payload) ≡ token = cc in
    let written = xdr_error-eq-ok (s.to_json q) e₁ in
    let read = reads payload written in
    (
      open_of_IsSealed s token key q (record {
        payload_b64 = s.encode payload;
        mac_b64 = s.encode (s.mac key payload);
        payload = payload;
        parts =
            ap (split_once b'.') (sym e)
            ∙ split_once-append b'.' (s.encode payload) (s.encode (s.mac key payload))
                (laws.encode-Lacks payload);
        payload_decoded = laws.decode-encode payload;
        mac_decoded = laws.decode-encode (s.mac key payload);
        quote_read = read;
      }),
      λ other r h.
          let (same, got) =
            token_parts s payload (s.mac key payload) other r laws
              (subst (λ t. IsSealed s t other r) (sym e) (IsSealed-of_open s token other r h)) in
          (cc, (payload, written, sym same)),
    )

-- What is sealed opens as what its JSON reads back as.
pub open-seal_read :
    (s : Sealing) (q : Quote) (key token : Text)
    → IsCodec s
    → seal s q key ≡ ok token
    → (payload : Text) × (s.to_json q ≡ ok payload)
      × (open_quote s token key ≡ ok_or (s.from_json payload) Error.quote_signature)
unfolding seal open_quote
open-seal_read s q key token laws h =
    let (payload, e₁, h₁) = >>=-eq-ok (xdr_error (s.to_json q)) _ h in
    let e : s.encode payload ++ b'.' ∷ s.encode (s.mac key payload) ≡ token = cc in
    let parts =
      ap (split_once b'.') (sym e)
      ∙ split_once-append b'.' (s.encode payload) (s.encode (s.mac key payload))
          (laws.encode-Lacks payload) in
    let same = (differs_iff (s.mac key payload) (s.mac key payload)).1 refl in
    (
      payload,
      xdr_error-eq-ok (s.to_json q) e₁,
      rw (parts, laws.decode-encode payload, laws.decode-encode (s.mac key payload), same) refl,
    )
