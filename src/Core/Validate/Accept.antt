-- ===== src/Core/Validate/Accept.antt =====
-- The signed transactions that pass the gate.
use reserve.Base.{
  ℕ, ◌≤◌, ◌≡◌, ◌≢◌, ◌↔◌, refl, ap, subst, ◌∙◌, false, not, List, [], ◌∷◌, Text, text, text_eq,
  text_eq→eq, text_eq_refl, Result, ok, fail_if, >>=-eq-ok, fail_if-eq-ok, arith,
}
use reserve.Core.Error.{Error}
use reserve.Core.Asset.{Decoders}
use reserve.Core.Quote.{Quote, check_fresh, xdr_error}
use reserve.Core.Quote.Seal.{xdr_error-eq-ok}
use reserve.Core.Build.{build_inner}
use reserve.Core.Build.Inner.{IsInner, build_inner-IsInner}
use reserve.Core.Xdr as Xdr
use reserve.Core.Validate.{Codec, check_signed_inner, tx_to_xdr, v1_of, is_unsigned}

-- A text that is a signed envelope of the transaction that the quote builds, in time.
pub record IsSigned (d : Decoders) (x : Codec) (signed : Text) (q : Quote) (ledger : ℕ)
    (e : Xdr.TransactionV1Envelope) : Type 0 where
  pub expected : Xdr.Transaction
  pub encoded : Text
  pub fresh : ledger ≤ q.expires_at_ledger
  pub read : x.from_base64 signed ≡ ok (Xdr.tx e)
  pub some_signature : e.signatures ≢ []
  pub built : build_inner d q ≡ ok expected
  pub got : x.to_base64 e.tx ≡ ok encoded
  pub wanted : x.to_base64 expected ≡ ok encoded

v1_of-eq-ok :
    (any : Xdr.TransactionEnvelope) {e : Xdr.TransactionV1Envelope}
    → v1_of any ≡ ok e
    → any ≡ Xdr.tx e
v1_of-eq-ok (Xdr.tx_v0 bytes) h = cc
v1_of-eq-ok (Xdr.tx v1) h = cc
v1_of-eq-ok (Xdr.tx_fee_bump bump) h = cc

is_unsigned_sound : (s : List Xdr.DecoratedSignature) → is_unsigned s ≡ false → s ≢ []
is_unsigned_sound [] h e = cc
is_unsigned_sound (a ∷ s) h e = cc

is_unsigned_complete : (s : List Xdr.DecoratedSignature) → s ≢ [] → is_unsigned s ≡ false
is_unsigned_complete [] h = absurd (h refl)
is_unsigned_complete (a ∷ s) h = refl

check_fresh_sound :
    (q : Quote) (ledger : ℕ) {u : Unit {0}}
    → check_fresh q ledger ≡ ok u
    → ledger ≤ q.expires_at_ledger
unfolding check_fresh
check_fresh_sound q ledger h =
    let e = fail_if-eq-ok _ (Error.quote_expired q.expires_at_ledger) h in ground arith

check_fresh_complete :
    (q : Quote) (ledger : ℕ) → ledger ≤ q.expires_at_ledger → check_fresh q ledger ≡ ok tt
unfolding check_fresh
check_fresh_complete q ledger h = ground arith

module _ (d : Decoders) (x : Codec) (signed : Text) (q : Quote) (ledger : ℕ) where
  IsSigned-of_check :
      (e : Xdr.TransactionV1Envelope)
      → check_signed_inner d x signed q ledger ≡ ok e
      → IsSigned d x signed q ledger e
  unfolding check_signed_inner tx_to_xdr
  IsSigned-of_check e h =
      let (u, e₁, h₁) = >>=-eq-ok (check_fresh q ledger) _ h in
      let (any, e₂, h₂) = >>=-eq-ok (xdr_error (x.from_base64 signed)) _ h₁ in
      let (v1, e₃, h₃) = >>=-eq-ok (v1_of any) _ h₂ in
      let (v, e₄, h₄) =
        >>=-eq-ok
          (fail_if (is_unsigned v1.signatures) (Error.mismatch (text "transaction is unsigned"))) _
          h₃ in
      let (expected, e₅, h₅) = >>=-eq-ok (build_inner d q) _ h₄ in
      let (got, e₆, h₆) = >>=-eq-ok (tx_to_xdr x v1.tx) _ h₅ in
      let (wanted, e₇, h₇) = >>=-eq-ok (tx_to_xdr x expected) _ h₆ in
      let (w, e₈, h₈) =
        >>=-eq-ok
          (fail_if (not (text_eq got wanted))
            (Error.mismatch (text "transaction body differs from the quoted one")))
          _ h₇ in
      signed_of e₁ (xdr_error-eq-ok _ e₂) (v1_of-eq-ok any e₃) (fail_if-eq-ok _ _ e₄) e₅
        (xdr_error-eq-ok _ e₆) (xdr_error-eq-ok _ e₇) (fail_if-eq-ok _ _ e₈) h₈
    where
      signed_of :
          {any : Xdr.TransactionEnvelope} {v1 e : Xdr.TransactionV1Envelope}
          {expected : Xdr.Transaction} {got wanted : Text} {u : Unit {0}}
          → check_fresh q ledger ≡ ok u
          → x.from_base64 signed ≡ ok any
          → any ≡ Xdr.tx v1
          → is_unsigned v1.signatures ≡ false
          → build_inner d q ≡ ok expected
          → x.to_base64 v1.tx ≡ ok got
          → x.to_base64 expected ≡ ok wanted
          → not (text_eq got wanted) ≡ false
          → ◌≡◌ {A = Result Error Xdr.TransactionV1Envelope} (ok v1) (ok e)
          → IsSigned d x signed q ledger e
      signed_of {v1} {e} {expected} {got} {wanted} f r a s b g w n h =
          let same : got ≡ wanted = text_eq→eq got wanted (ground arith) in
          let v : v1 ≡ e = cc in
          subst (λ e. IsSigned d x signed q ledger e) v
            (record {
              expected = expected;
              encoded = wanted;
              fresh = check_fresh_sound q ledger f;
              read = r ∙ ap ok a;
              some_signature = is_unsigned_sound v1.signatures s;
              built = b;
              got = g ∙ ap ok same;
              wanted = w;
            })

  check_of_IsSigned :
      (e : Xdr.TransactionV1Envelope)
      → IsSigned d x signed q ledger e
      → check_signed_inner d x signed q ledger ≡ ok e
  unfolding check_signed_inner tx_to_xdr
  check_of_IsSigned e h =
      rw
        (
          check_fresh_complete q ledger h.fresh,
          h.read,
          is_unsigned_complete e.signatures h.some_signature,
          h.built,
          h.got,
          h.wanted,
          text_eq_refl h.encoded,
        )
        refl

  -- A text passes the gate as an envelope exactly if the quote has not expired, the text reads as that
  -- envelope, in the v1 form and with a signature, and its transaction encodes as the one that the
  -- quote builds.
  pub check_signed_inner_iff :
      (e : Xdr.TransactionV1Envelope)
      → (check_signed_inner d x signed q ledger ≡ ok e) ↔ IsSigned d x signed q ledger e
  check_signed_inner_iff e = (IsSigned-of_check e, check_of_IsSigned e)

-- Where no two transactions have one encoding, an envelope that passes the gate holds the quote's own
-- transaction: nothing in it is the client's choice.
pub check_signed_inner-IsInner :
    (d : Decoders) (x : Codec) (signed : Text) (q : Quote) (ledger : ℕ)
    (e : Xdr.TransactionV1Envelope)
    → ((s t : Xdr.Transaction) (b : Text) → x.to_base64 s ≡ ok b → x.to_base64 t ≡ ok b → s ≡ t)
    → check_signed_inner d x signed q ledger ≡ ok e
    → (build_inner d q ≡ ok e.tx) × IsInner d q e.tx
check_signed_inner-IsInner d x signed q ledger e injective h =
    let s = (check_signed_inner_iff d x signed q ledger e).0 h in
    let same : s.expected ≡ e.tx = injective s.expected e.tx s.encoded s.wanted s.got in
    let built : build_inner d q ≡ ok e.tx = s.built ∙ ap ok same in
    (built, build_inner-IsInner d q e.tx built)
