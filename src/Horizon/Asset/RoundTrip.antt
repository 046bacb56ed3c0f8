-- ===== src/Horizon/Asset/RoundTrip.antt =====
-- The canonical text of an asset identifies it.
use reserve.Base.{
  ℕ, ◌≤◌, ◌<◌, ◌≡◌, ◌↔◌, refl, sym, subst, inl, inr, Bool, [], ◌∷◌, ◌++◌, Option, none, some,
  length, Text, text, text_eq, split_once, Lacks, arith, text_eq→eq, text_eq_refl, SplitOf,
  split_once-SplitOf, split_once-append, Bool-cases,
}
use reserve.Horizon.Asset.{Asset, native, credit, canonical, parse, parse_credit, starts_with}

-- The assets that `parse` returns.
abbrev pub IsAsset : Asset → Type 0
IsAsset native = Unit
IsAsset (credit code issuer) =
    Lacks b':' code × (0 < length code) × (length code ≤ 12) × (starts_with b'G' issuer ≡ Bool.true)

native-Lacks : Lacks b':' (text "native")
unfolding text
native-Lacks = omega arith

Lacks-append : (c : ℕ) (u v : Text) → Lacks c (u ++ c ∷ v) → ⊥
Lacks-append c [] v h = h.0 refl
Lacks-append c (a ∷ u) v h = Lacks-append c u v h.1

credit-ne-native :
    (code issuer : Text) → text_eq (code ++ b':' ∷ issuer) (text "native") ≡ Bool.false
credit-ne-native code issuer = elim (Bool-cases (text_eq (code ++ b':' ∷ issuer) (text "native"))) [
  | inl e ↦ absurd (
      Lacks-append b':' code issuer (
        subst (Lacks b':') (sym (text_eq→eq (code ++ b':' ∷ issuer) (text "native") e))
          native-Lacks))
  | inr e ↦ e
]

pub parse-canonical : (a : Asset) → IsAsset a → parse (canonical a) ≡ some a
unfolding parse canonical
parse-canonical native h = rw (text_eq_refl (text "native"))
parse-canonical (credit code issuer) h =
    rw (credit-ne-native code issuer, split_once-append b':' code issuer h.0) (ground arith)

parse_credit_inv :
    (code issuer : Text) (a : Asset)
    → parse_credit (some (code, issuer)) ≡ some a
    → (a ≡ credit code issuer)
      × (0 < length code)
      × (length code ≤ 12)
      × (starts_with b'G' issuer ≡ Bool.true)
parse_credit_inv [] issuer a e = cc
parse_credit_inv (c ∷ code) issuer a e = (ground arith, omega arith, ground arith, ground arith)

parse_credit_sound :
    (s : Text) (r : Option (Text × Text)) (a : Asset)
    → SplitOf b':' s r
    → parse_credit r ≡ some a
    → IsAsset a × (canonical a ≡ s)
unfolding canonical
parse_credit_sound s none a h e = cc
parse_credit_sound s (some (code, issuer)) a h e =
    let (is_credit, some_code, short, g) = parse_credit_inv code issuer a e in
    rw is_credit ((h.1, some_code, short, g), sym h.0)

-- `parse` accepts the canonical texts alone.
pub canonical-parse : (s : Text) (a : Asset) → parse s ≡ some a → IsAsset a × (canonical a ≡ s)
unfolding parse
canonical-parse s a e = elim (Bool-cases (text_eq s (text "native"))) [
  | inl is_native ↦
      let a_native : native ≡ a = ground arith in
      rw (← a_native) (tt, unfold canonical in sym (text_eq→eq s (text "native") is_native))
  | inr other ↦
      parse_credit_sound s (split_once b':' s) a (split_once-SplitOf b':' s) (ground arith)
]

-- A text is read as an asset exactly if that asset is lumens or has a code and an issuer of the
-- accepted form, and its canonical text is the one that was read.
pub parse_iff : (s : Text) (a : Asset) → (parse s ≡ some a) ↔ (IsAsset a × (canonical a ≡ s))
parse_iff s a =
    (canonical-parse s a, λ (h, e). subst (λ t. parse t ≡ some a) e (parse-canonical a h))
