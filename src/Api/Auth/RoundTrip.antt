-- ===== src/Api/Auth/RoundTrip.antt =====
-- A challenge that its account signs in time proves the account's address.
use reserve.Base.{
  ℕ, ◌+◌, ◌<◌, ◌^◌, ◌%◌, ◌≡◌, ◌↔◌, refl, sym, ap, subst, ◌∙◌, true, List, [], ◌∷◌, ◌++◌, Option,
  none, some, length, take, drop, take-append, drop-append, length-append, Text, text, to_be_bytes,
  from_be_bytes, from_be_bytes-to_be_bytes, length-to_be_bytes, Result, ok, err, >>=-eq-ok,
  ok_or-eq-ok, arith,
}
use reserve.Core.Error.{Error}
use reserve.Core.Asset.{Decoders, account_id}
use reserve.Core.Xdr as Xdr
use reserve.Api.Auth.{
  malformed, AuthTools, data_name, valid_for, as_account, mac, challenge_tx, challenge, verify,
}
use reserve.Api.Auth.Proof.{HasSignature, IsProof, verify-IsProof_iff}

as_account-eq-ok : (r : Result Error Text) {key : Text} → as_account r ≡ ok key → r ≡ ok key
as_account-eq-ok (ok k) h = cc
as_account-eq-ok (err e) h = cc

-- What the challenge of an address is.
challenge_sound :
    (a : AuthTools) (d : Decoders) (address key account : Text) (now : ℕ) {xdr : Text}
    → d.public_key address ≡ some account
    → challenge a d address key now ≡ ok xdr
    → a.to_base64 (Xdr.tx (record { tx = challenge_tx a account address key now; signatures = [] }))
      ≡ some xdr
unfolding challenge account_id
challenge_sound a d address key account now {xdr} known h =
    let (k, e₁, h₁) = >>=-eq-ok (as_account (account_id d address)) _ h in
    let g = ok_or-eq-ok (d.public_key address) (Error.account address) (as_account-eq-ok _ e₁) in
    let same : k ≡ account = cc in
    subst
      (λ k.
        a.to_base64 (Xdr.tx (record { tx = challenge_tx a k address key now; signatures = [] }))
        ≡ some xdr)
      same (ok_or-eq-ok _ (malformed (text "xdr")) h₁)

-- The value of a challenge until a time.
value : AuthTools → Text → Text → ℕ → Text
value a address key until = to_be_bytes 8 until ++ mac a key address until

value-take :
    (a : AuthTools) (address key : Text) (until : ℕ)
    → until < 2 ^ 64
    → from_be_bytes (take 8 (value a address key until)) ≡ until
unfolding value
value-take a address key until h =
    ap from_be_bytes
      (take-append 8 (to_be_bytes 8 until) (mac a key address until) (length-to_be_bytes 8 until))
    ∙ from_be_bytes-to_be_bytes 8 until (omega arith)

value-drop :
    (a : AuthTools) (address key : Text) (until : ℕ)
    → until < 2 ^ 64
    → drop 8 (value a address key until)
      ≡ mac a key address (from_be_bytes (take 8 (value a address key until)))
unfolding value
value-drop a address key until h =
    drop-append 8 (to_be_bytes 8 until) (mac a key address until) (length-to_be_bytes 8 until)
    ∙ sym (ap (mac a key address) (value-take a address key until h))

length-value :
    (a : AuthTools) (address key : Text) (until : ℕ)
    → ((k m : Text) → length (a.hmac_sha256 k m) ≡ 32)
    → length (value a address key until) ≡ 40
unfolding value mac
length-value a address key until long = omega (
  arith,
  length-append (to_be_bytes 8 until) (mac a key address until),
  length-to_be_bytes 8 until,
  long key (address ++ to_be_bytes 8 until),
)

-- The operation of a challenge until a time.
abbrev operation : AuthTools → Text → Text → ℕ → Xdr.Operation
unfolding value
operation a address key until = record {
  source_account = none;
  body = Xdr.manage_data data_name (some (value a address key until));
}

tx-injective :
    {s t : Xdr.TransactionV1Envelope}
    → ◌≡◌ {A = Option Xdr.TransactionEnvelope} (some (Xdr.tx s)) (some (Xdr.tx t))
    → s ≡ t
tx-injective h = cc

module _ (a : AuthTools) (d : Decoders) (address key account passphrase : Text) (now later : ℕ)
    (xdr signed payload : Text) (v1 : Xdr.TransactionV1Envelope)
    (signatures : List Xdr.DecoratedSignature)
    (long : (k m : Text) → length (a.hmac_sha256 k m) ≡ 32)
    (reads : a.to_base64
          (Xdr.tx (record { tx = challenge_tx a account address key now; signatures = [] }))
        ≡ some xdr
      → a.from_base64 xdr
        ≡ some (Xdr.tx (record { tx = challenge_tx a account address key now; signatures = [] })))
    (known : d.public_key address ≡ some account) (shown : a.public_key_text account ≡ address)
    (room : now + 300 < 2 ^ 64) (given : challenge a d address key now ≡ ok xdr)
    (opened : a.from_base64 xdr ≡ some (Xdr.tx v1))
    (returned : a.from_base64 signed ≡ some (Xdr.tx (record v1 { signatures = signatures })))
    (paid : a.tx_payload (a.sha256 passphrase) v1.tx ≡ some payload)
    (is_key : a.is_key account ≡ true)
    (has : HasSignature a account (a.sha256 payload) signatures) where
  tx_of : v1.tx ≡ challenge_tx a account address key now
  tx_of =
      let e = reads (challenge_sound a d address key account now known given) in
      let same : some (Xdr.tx v1)
          ≡ some
              (Xdr.tx (record { tx = challenge_tx a account address key now; signatures = [] })) =
        sym opened ∙ e in
      ap (λ (t : Xdr.TransactionV1Envelope). t.tx) (tx-injective same)

  is_proof : later < now + 300 → IsProof a signed key passphrase later address
  unfolding challenge_tx value
  is_proof h =
      let e : (now + valid_for) % 2 ^ 64 ≡ now + 300 = omega arith in
      record {
        envelope = record v1 { signatures = signatures };
        operation = operation a address key (now + 300);
        raw = value a address key (now + 300);
        public_key = account;
        payload = payload;
        read = returned;
        no_sequence = ap (λ (t : Xdr.Transaction). t.seq_num) tx_of;
        one_operation =
            ap (λ (t : Xdr.Transaction). t.operations) tx_of
            ∙ ap (λ (n : ℕ). operation a address key n ∷ []) e;
        manages = refl;
        size = length-value a address key (now + 300) long;
        sourced = ap (λ (t : Xdr.Transaction). t.source_account) tx_of;
        address_of = shown;
        coded = value-drop a address key (now + 300) room;
        in_time = subst (λ n. later < n) (sym (value-take a address key (now + 300) room)) h;
        paid = paid;
        is_key = is_key;
        has_signature = has;
      }

  in_time : IsProof a signed key passphrase later address → later < now + 300
  unfolding challenge_tx value
  in_time h =
      let e : (now + valid_for) % 2 ^ 64 ≡ now + 300 = omega arith in
      let same : h.envelope.tx ≡ v1.tx =
        ap (λ (t : Xdr.TransactionV1Envelope). t.tx) (tx-injective (sym h.read ∙ returned)) in
      let ops : h.operation ∷ [] ≡ operation a address key ((now + valid_for) % 2 ^ 64) ∷ [] =
        sym h.one_operation ∙ ap (λ (t : Xdr.Transaction). t.operations) (same ∙ tx_of) in
      let raw = raw_of (sym h.manages ∙ body_of ops) in
      subst (λ n. later < n)
        (ap (λ s. from_be_bytes (take 8 s)) raw
          ∙ ap (λ n. from_be_bytes (take 8 (value a address key n))) e
          ∙ value-take a address key (now + 300) room)
        h.in_time
    where
      body_of :
          {s t : Xdr.Operation} → ◌≡◌ {A = List Xdr.Operation} (s ∷ []) (t ∷ []) → s.body ≡ t.body
      body_of {s} {t} h = let same : s ≡ t = cc in ap (λ (o : Xdr.Operation). o.body) same

      raw_of :
          {s t : Text}
          → Xdr.manage_data data_name (some s) ≡ Xdr.manage_data data_name (some t)
          → s ≡ t
      raw_of h = cc

  -- A challenge for an address, signed by the address's account and sent back, proves the address for
  -- 300 seconds, and proves it no longer from then on. This asks that authentication codes have 32
  -- bytes, that the challenge's envelope is read back from its base64, that the address is the text of its key, that
  -- the clock is 300 seconds from its end at least, and that what is sent back has the challenge's
  -- transaction with a signature that verifies.
  pub verify-challenge : (verify a signed key passphrase later ≡ ok address) ↔ (later < now + 300)
  verify-challenge = (
    λ h. in_time ((verify-IsProof_iff a signed key passphrase later address long).0 h),
    λ h. (verify-IsProof_iff a signed key passphrase later address long).1 (is_proof h),
  )
