-- ===== src/Api/Auth/Proof.antt =====
-- The signed challenges that are accepted.
use reserve.Base.{
  ℕ, ◌<◌, ◌≡◌, ◌↔◌, ◌⊎◌, refl, ap, subst, ◌∙◌, Bool, true, false, not, List, [], ◌∷◌, Option, some,
  leb, ◌==◌, length, take, drop, length-drop, ℤ, pos, negsuc, eqb_ℤ, Text, text, text_eq,
  text_eq→eq, text_eq_refl, from_be_bytes, Result, ok, ok_or, fail_if, >>=-eq-ok, ok_or-eq-ok,
  fail_if-eq-ok, arith,
}
use reserve.Core.Quote.{difference}
use reserve.Core.Quote.Seal.{difference_sound, difference_self}
use reserve.Core.Xdr as Xdr
use reserve.Api.Auth.{
  Invalid, malformed, expired, bad_signature, AuthTools, data_name, v1_of, only_operation,
  our_value, value_of, key_of, mac, any_signed, verify,
}

-- One of the signatures is a key's.
abbrev pub HasSignature : AuthTools → Text → Text → List Xdr.DecoratedSignature → Type 0
HasSignature a key hash [] = ⊥
HasSignature a key hash (s ∷ signatures) =
    (length s.signature ≡ 64) × (a.verify_strict key hash s.signature ≡ true)
    ⊎ HasSignature a key hash signatures

-- A text that proves an address: a transaction of sequence zero whose one operation carries a time and
-- the service's code for the address and that time, signed by the account in time.
pub record IsProof (a : AuthTools) (signed key passphrase : Text) (now : ℕ) (address : Text)
    : Type 0 where
  pub envelope : Xdr.TransactionV1Envelope
  pub operation : Xdr.Operation
  pub raw : Text
  pub public_key : Text
  pub payload : Text
  pub read : a.from_base64 signed ≡ some (Xdr.tx envelope)
  pub no_sequence : envelope.tx.seq_num ≡ pos 0
  pub one_operation : envelope.tx.operations ≡ operation ∷ []
  pub manages : operation.body ≡ Xdr.manage_data data_name (some raw)
  pub size : length raw ≡ 40
  pub sourced : envelope.tx.source_account ≡ Xdr.ed25519 public_key
  pub address_of : a.public_key_text public_key ≡ address
  pub coded : drop 8 raw ≡ mac a key address (from_be_bytes (take 8 raw))
  pub in_time : now < from_be_bytes (take 8 raw)
  pub paid : a.tx_payload (a.sha256 passphrase) envelope.tx ≡ some payload
  pub is_key : a.is_key public_key ≡ true
  pub has_signature : HasSignature a public_key (a.sha256 payload) envelope.signatures

any_signed_sound :
    (a : AuthTools) (key hash : Text) (s : List Xdr.DecoratedSignature)
    → any_signed a key hash s ≡ true
    → HasSignature a key hash s
unfolding any_signed
any_signed_sound a key hash [] h = cc
any_signed_sound a key hash (s ∷ ss) h = ground (arith, any_signed_sound a key hash ss)

any_signed_complete :
    (a : AuthTools) (key hash : Text) (s : List Xdr.DecoratedSignature)
    → HasSignature a key hash s
    → any_signed a key hash s ≡ true
unfolding any_signed
any_signed_complete a key hash [] h = absurd h
any_signed_complete a key hash (s ∷ ss) h = ground (arith, any_signed_complete a key hash ss)

v1_of-eq-ok :
    (e : Xdr.TransactionEnvelope) {v1 : Xdr.TransactionV1Envelope} → v1_of e ≡ ok v1 → e ≡ Xdr.tx v1
v1_of-eq-ok (Xdr.tx_v0 bytes) h = cc
v1_of-eq-ok (Xdr.tx v) h = cc
v1_of-eq-ok (Xdr.tx_fee_bump bump) h = cc

only_operation-eq-ok :
    (ops : List Xdr.Operation) {op : Xdr.Operation} → only_operation ops ≡ ok op → ops ≡ op ∷ []
only_operation-eq-ok [] h = cc
only_operation-eq-ok (a ∷ []) h = cc
only_operation-eq-ok (a ∷ b ∷ ops) h = cc

our_value-eq-ok :
    (name : Text) (value : Option Text) {raw : Text}
    → our_value name value ≡ ok raw
    → Xdr.manage_data name value ≡ Xdr.manage_data data_name (some raw)
our_value-eq-ok name value h =
    let (u, e₁, h₁) =
      >>=-eq-ok (fail_if (not (text_eq name data_name)) (malformed (text "not our challenge"))) _
        h in
    let n = fail_if-eq-ok _ _ e₁ in
    let same = text_eq→eq name data_name (ground arith) in
    let v = ok_or-eq-ok value (malformed (text "no value")) h₁ in
    ap (λ n. Xdr.manage_data n value) same ∙ ap (Xdr.manage_data data_name) v

value_of-eq-ok :
    (body : Xdr.OperationBody) {raw : Text}
    → value_of body ≡ ok raw
    → body ≡ Xdr.manage_data data_name (some raw)
value_of-eq-ok (Xdr.manage_data name value) h = our_value-eq-ok name value h
value_of-eq-ok (Xdr.begin_sponsoring_future_reserves id) h = cc
value_of-eq-ok Xdr.end_sponsoring_future_reserves h = cc
value_of-eq-ok (Xdr.create_account id amount) h = cc
value_of-eq-ok (Xdr.payment to asset amount) h = cc
value_of-eq-ok (Xdr.path_payment_strict_send a b c d e path) h = cc
value_of-eq-ok (Xdr.path_payment_strict_receive a b c d e path) h = cc
value_of-eq-ok (Xdr.claim_claimable_balance id) h = cc
value_of-eq-ok (Xdr.change_trust asset limit) h = cc
value_of-eq-ok (Xdr.create_claimable_balance asset amount claimants) h = cc
value_of-eq-ok (Xdr.other bytes) h = cc

key_of-eq-ok : (m : Xdr.MuxedAccount) {key : Text} → key_of m ≡ ok key → m ≡ Xdr.ed25519 key
key_of-eq-ok (Xdr.ed25519 k) h = cc
key_of-eq-ok (Xdr.med25519 id k) h = cc

not-false : (b : Bool) → not b ≡ false → b ≡ true
not-false true h = refl
not-false false h = cc

eqb_ℤ-zero : (n : ℤ) → eqb_ℤ n (pos 0) ≡ true → n ≡ pos 0
eqb_ℤ-zero (pos n) h = ground arith
eqb_ℤ-zero (negsuc n) h = ground arith

module _ (a : AuthTools) (signed key passphrase : Text) (now : ℕ) (address : Text)
    (long : (k m : Text) → length (a.hmac_sha256 k m) ≡ 32) where
  IsProof-of_verify :
      verify a signed key passphrase now ≡ ok address → IsProof a signed key passphrase now address
  unfolding verify mac
  IsProof-of_verify h =
      let (any, e₁, h₁) =
        >>=-eq-ok (ok_or (a.from_base64 signed) (malformed (text "not a transaction envelope"))) _
          h in
      let (v1, e₂, h₂) = >>=-eq-ok (v1_of any) _ h₁ in
      let (u₃, e₃, h₃) =
        >>=-eq-ok
          (fail_if (not (eqb_ℤ v1.tx.seq_num (pos 0)))
            (malformed (text "a challenge has sequence zero")))
          _ h₂ in
      let (op, e₄, h₄) = >>=-eq-ok (only_operation v1.tx.operations) _ h₃ in
      let (raw, e₅, h₅) = >>=-eq-ok (value_of op.body) _ h₄ in
      let (u₆, e₆, h₆) =
        >>=-eq-ok (fail_if (not (length raw == 40)) (malformed (text "value"))) _ h₅ in
      let (pk, e₇, h₇) = >>=-eq-ok (key_of v1.tx.source_account) _ h₆ in
      let (u₈, e₈, h₈) =
        >>=-eq-ok
          (fail_if
            (not (
              difference 0 (drop 8 raw)
                (mac a key (a.public_key_text pk) (from_be_bytes (take 8 raw)))
              == 0))
            (malformed (text "not our challenge")))
          _ h₇ in
      let (u₉, e₉, h₉) = >>=-eq-ok (fail_if (leb (from_be_bytes (take 8 raw)) now) expired) _ h₈ in
      let (bytes, e₁₀, h₁₀) =
        >>=-eq-ok (ok_or (a.tx_payload (a.sha256 passphrase) v1.tx) (malformed (text "xdr"))) _
          h₉ in
      let (u₁₁, e₁₁, h₁₁) = >>=-eq-ok (fail_if (not (a.is_key pk)) bad_signature) _ h₁₀ in
      let (u₁₂, e₁₂, h₁₂) =
        >>=-eq-ok (fail_if (not (any_signed a pk (a.sha256 bytes) v1.signatures)) bad_signature) _
          h₁₁ in
      let same : a.public_key_text pk ≡ address = ok-injective h₁₂ in
      let size = is_40 raw (not-false _ (fail_if-eq-ok _ _ e₆)) in
      record {
        envelope = v1;
        operation = op;
        raw = raw;
        public_key = pk;
        payload = bytes;
        read = ok_or-eq-ok _ _ e₁ ∙ ap some (v1_of-eq-ok any e₂);
        no_sequence = eqb_ℤ-zero _ (not-false _ (fail_if-eq-ok _ _ e₃));
        one_operation = only_operation-eq-ok v1.tx.operations e₄;
        manages = value_of-eq-ok op.body e₅;
        size = size;
        sourced = key_of-eq-ok v1.tx.source_account e₇;
        address_of = same;
        coded =
            subst (λ s. drop 8 raw ≡ mac a key s (from_be_bytes (take 8 raw))) same
              (coded_of raw _ size (long key _) (not-false _ (fail_if-eq-ok _ _ e₈)));
        in_time = in_time_of _ (fail_if-eq-ok _ _ e₉);
        paid = ok_or-eq-ok _ _ e₁₀;
        is_key = not-false _ (fail_if-eq-ok _ _ e₁₁);
        has_signature =
            any_signed_sound a pk (a.sha256 bytes) v1.signatures
              (not-false _ (fail_if-eq-ok _ _ e₁₂));
      }
    where
      ok-injective : {s t : Text} → ◌≡◌ {A = Result Invalid Text} (ok s) (ok t) → s ≡ t
      ok-injective h = cc

      is_40 : (raw : Text) → (length raw == 40) ≡ true → length raw ≡ 40
      is_40 raw h = ground arith

      in_time_of : (n : ℕ) → leb n now ≡ false → now < n
      in_time_of n h = ground arith

      coded_of :
          (raw code : Text)
          → length raw ≡ 40
          → length code ≡ 32
          → (difference 0 (drop 8 raw) code == 0) ≡ true
          → drop 8 raw ≡ code
      coded_of raw code size long h =
          (difference_sound (drop 8 raw) code 0 (omega (arith, length-drop 8 raw)) (ground arith)).1

  verify_of_IsProof :
      IsProof a signed key passphrase now address → verify a signed key passphrase now ≡ ok address
  unfolding verify
  verify_of_IsProof h =
      rw
        (
          h.read,
          h.paid,
          h.no_sequence,
          h.one_operation,
          h.manages,
          text_eq_refl data_name,
          h.size,
          h.sourced,
          h.address_of,
          h.coded,
          difference_self (mac a key address (from_be_bytes (take 8 h.raw))),
          late h.in_time,
          h.is_key,
          any_signed_complete a h.public_key (a.sha256 h.payload) h.envelope.signatures
              h.has_signature,
        )
        refl
    where
      late : {n : ℕ} → now < n → leb n now ≡ false
      late h = ground arith

  -- If authentication codes have 32 bytes, a signed text proves an address exactly if it is an envelope
  -- of a transaction with sequence number zero and one operation, that manages the service's data,
  -- whose value is a time that has not come and the service's code for the address and that time, and
  -- one of whose signatures is that of the account with that address.
  pub verify-IsProof_iff :
      (verify a signed key passphrase now ≡ ok address)
      ↔ IsProof a signed key passphrase now address
  verify-IsProof_iff = (IsProof-of_verify, verify_of_IsProof)
