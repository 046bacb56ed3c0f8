-- ===== src/Core/Path/Cover.antt =====
-- The quoted routes that can still pay.
use reserve.Base.{
  suc, ◌≡◌, ◌↔◌, ◌⊎◌, inl, inr, refl, sym, ap, ap₂, subst, ◌∙◌, true, false, List, [], ◌∷◌, ◌++◌,
  Option, none, some, length, ℤ, pos, leb_ℤ, ltb_ℤ, Text, text_eq→eq, eq→text_eq, ok, ok_or,
  >>=-eq-ok, ok_or-eq-ok, fail_if-eq-ok, Bool-cases, arith,
}
use reserve.Horizon.Asset.{Asset, native, credit, parse}
use reserve.Horizon.Records.{HorizonApi, PathRecord, source_amount_stroops}
use reserve.Core.Error.{Error, from_horizon, from_horizon-eq-ok}
use reserve.Core.Pricing.{is_native}
use reserve.Core.Path.{
  hops_of, asset_eq, same_parsed, same_canonical, all_same, record_matches_quoted_path, find_quoted,
  check_route, pay_check, ensure_quoted_path,
}

-- Two texts of one asset, or one text.
abbrev pub Same : Text → Text → Type 0
Same a b = (a ≡ b) ⊎ ((x : Asset) × (parse a ≡ some x) × (parse b ≡ some x))

abbrev pub AllSame : List Text → List Text → Type 0
AllSame [] [] = Unit
AllSame (a ∷ s) (b ∷ t) = Same a b × AllSame s t
AllSame [] (b ∷ t) = ⊥
AllSame (a ∷ s) [] = ⊥

asset_eq_sound : (a b : Asset) → asset_eq a b ≡ true → a ≡ b
unfolding asset_eq
asset_eq_sound native native h = refl
asset_eq_sound native (credit code issuer) h = cc
asset_eq_sound (credit code issuer) native h = cc
asset_eq_sound (credit code issuer) (credit code' issuer') h =
    ap₂ credit (text_eq→eq code code' (ground arith)) (text_eq→eq issuer issuer' (ground arith))

asset_eq_refl : (a : Asset) → asset_eq a a ≡ true
unfolding asset_eq
asset_eq_refl native = refl
asset_eq_refl (credit code issuer) =
    rw (eq→text_eq code code refl, eq→text_eq issuer issuer refl) refl

same_parsed_sound :
    (p q : Option Asset) (a b : Text)
    → same_parsed p q a b ≡ true
    → (a ≡ b) ⊎ ((x : Asset) × (p ≡ some x) × (q ≡ some x))
same_parsed_sound (some x) (some y) a b h = inr (x, refl, ap some (sym (asset_eq_sound x y h)))
same_parsed_sound none q a b h = inl (text_eq→eq a b h)
same_parsed_sound (some x) none a b h = inl (text_eq→eq a b h)

same_parsed_self : (p : Option Asset) (a : Text) → same_parsed p p a a ≡ true
same_parsed_self none a = eq→text_eq a a refl
same_parsed_self (some x) a = asset_eq_refl x

same_canonical_sound : (a b : Text) → same_canonical a b ≡ true → Same a b
unfolding same_canonical
same_canonical_sound a b h = same_parsed_sound (parse a) (parse b) a b h

same_canonical_complete : (a b : Text) → Same a b → same_canonical a b ≡ true
unfolding same_canonical
same_canonical_complete a b (inl e) =
    subst (λ t. same_parsed (parse a) (parse t) a t ≡ true) e (same_parsed_self (parse a) a)
same_canonical_complete a b (inr (x, e, f)) = rw (e, f) (asset_eq_refl x)

Matches_of_Bool : (s t : List Text) → length s ≡ length t → all_same s t ≡ true → AllSame s t
unfolding all_same
Matches_of_Bool [] [] n h = tt
Matches_of_Bool [] (b ∷ t) n h = absurd (omega arith)
Matches_of_Bool (a ∷ s) [] n h = absurd (omega arith)
Matches_of_Bool (a ∷ s) (b ∷ t) n h =
    (same_canonical_sound a b (ground arith), Matches_of_Bool s t (omega arith) (ground arith))

Bool_of_Matches : (s t : List Text) → AllSame s t → (length s ≡ length t) × (all_same s t ≡ true)
unfolding all_same
Bool_of_Matches [] [] h = (refl, refl)
Bool_of_Matches [] (b ∷ t) h = absurd h
Bool_of_Matches (a ∷ s) [] h = absurd h
Bool_of_Matches (a ∷ s) (b ∷ t) h =
    let (n, e) = Bool_of_Matches s t h.1 in (ap suc n, rw (same_canonical_complete a b h.0) e)

-- A record has the quoted route exactly if those of its hops that can be read are the quoted ones,
-- one by one: the same text, or texts of one asset.
pub record_matches_iff :
    (r : PathRecord) (quoted : List Text)
    → (record_matches_quoted_path r quoted ≡ true) ↔ AllSame (hops_of r.path) quoted
unfolding record_matches_quoted_path
record_matches_iff r quoted = (
  λ h. Matches_of_Bool (hops_of r.path) quoted (ground arith) (ground arith),
  λ h. let (n, e) = Bool_of_Matches (hops_of r.path) quoted h in rw e (ground arith),
)

pub NoneQuoted : List PathRecord → List Text → Type 0
NoneQuoted [] quoted = Unit
NoneQuoted (r ∷ records) quoted = ¬ AllSame (hops_of r.path) quoted × NoneQuoted records quoted

-- The first record of the quoted route.
pub record IsQuoted (records : List PathRecord) (quoted : List Text) (r : PathRecord) : Type 0 where
  pub before : List PathRecord
  pub after : List PathRecord
  pub place : records ≡ before ++ r ∷ after
  pub route : AllSame (hops_of r.path) quoted
  pub first : NoneQuoted before quoted

find_quoted_sound :
    (records : List PathRecord) (quoted : List Text) (r : PathRecord)
    → find_quoted records quoted ≡ some r
    → IsQuoted records quoted r
unfolding find_quoted NoneQuoted
find_quoted_sound [] quoted r h = cc
find_quoted_sound (s ∷ records) quoted r h =
    elim (Bool-cases (record_matches_quoted_path s quoted)) [
      | inl e ↦
          let same : s ≡ r = ground arith in
          subst (IsQuoted (s ∷ records) quoted) same (record {
            before = [];
            after = records;
            place = refl;
            route = (record_matches_iff s quoted).0 e;
            first = tt;
          })
      | inr e ↦
          let q = find_quoted_sound records quoted r (ground arith) in
          record {
            before = s ∷ q.before;
            after = q.after;
            place = ap (λ (rs : List PathRecord). s ∷ rs) q.place;
            route = q.route;
            first = (λ m. let t = (record_matches_iff s quoted).1 m in cc, q.first);
          }
    ]

find_quoted_first :
    (before after : List PathRecord) (quoted : List Text) (r : PathRecord)
    → NoneQuoted before quoted
    → AllSame (hops_of r.path) quoted
    → find_quoted (before ++ r ∷ after) quoted ≡ some r
unfolding find_quoted NoneQuoted
find_quoted_first [] after quoted r h m = rw ((record_matches_iff r quoted).1 m) refl
find_quoted_first (s ∷ before) after quoted r h m =
    elim (Bool-cases (record_matches_quoted_path s quoted)) [
      | inl e ↦ absurd (h.0 ((record_matches_iff s quoted).0 e))
      | inr e ↦ rw e (find_quoted_first before after quoted r h.1 m)
    ]

find_quoted_iff :
    (records : List PathRecord) (quoted : List Text) (r : PathRecord)
    → (find_quoted records quoted ≡ some r) ↔ IsQuoted records quoted r
find_quoted_iff records quoted r = (
  find_quoted_sound records quoted r,
  λ q.
      ap (λ rs. find_quoted rs quoted) q.place
      ∙ find_quoted_first q.before q.after quoted r q.first q.route,
)

-- Horizon's first record of the quoted route costs no more than the quote allows.
pub record IsLive (horizon : HorizonApi) (source : Text) (token : Asset) (charge send_max : ℤ)
    (quoted : List Text) : Type 0 where
  pub records : List PathRecord
  pub matched : PathRecord
  pub cost : ℤ
  pub answer : horizon.strict_receive_paths source (token ∷ []) native charge ≡ ok records
  pub route : IsQuoted records quoted matched
  pub cost_read : source_amount_stroops matched ≡ some cost
  pub affordable : ltb_ℤ send_max cost ≡ false

-- The fee token is lumens, or nothing is charged, or the quoted route is live.
abbrev pub CanPay : HorizonApi → Text → Asset → ℤ → ℤ → List Text → Type 0
CanPay horizon source token charge send_max quoted =
    (is_native token ≡ true)
    ⊎ ((leb_ℤ charge (pos 0) ≡ true) ⊎ IsLive horizon source token charge send_max quoted)

module _ (horizon : HorizonApi) (source : Text) (token : Asset) (charge send_max : ℤ)
    (quoted : List Text) where
  IsLive-of_check :
      check_route horizon source token charge send_max quoted ≡ ok tt
      → IsLive horizon source token charge send_max quoted
  unfolding check_route
  IsLive-of_check h =
      let (records, e₁, h₁) =
        >>=-eq-ok (from_horizon (horizon.strict_receive_paths source (token ∷ []) native charge)) _
          h in
      let (matched, e₂, h₂) = >>=-eq-ok (ok_or (find_quoted records quoted) _) _ h₁ in
      let (need, e₃, h₃) = >>=-eq-ok (ok_or (source_amount_stroops matched) _) _ h₂ in
      record {
        records = records;
        matched = matched;
        cost = need;
        answer = from_horizon-eq-ok _ e₁;
        route = find_quoted_sound records quoted matched (ok_or-eq-ok _ _ e₂);
        cost_read = ok_or-eq-ok _ _ e₃;
        affordable = fail_if-eq-ok _ _ h₃;
      }

  check_of_IsLive :
      IsLive horizon source token charge send_max quoted
      → check_route horizon source token charge send_max quoted ≡ ok tt
  unfolding check_route
  check_of_IsLive h =
      rw
        (
          h.answer,
          (find_quoted_iff h.records quoted h.matched).1 h.route,
          h.cost_read,
          h.affordable,
        )
        refl

  pay_iff :
      (pay_check horizon source token charge send_max quoted ≡ ok tt)
      ↔ CanPay horizon source token charge send_max quoted
  pay_iff = (
    λ h. elim (Bool-cases (is_native token)) [
      | inl e ↦ inl e
      | inr e ↦ elim (Bool-cases (leb_ℤ charge (pos 0))) [
        | inl f ↦ inr (inl f)
        | inr f ↦ inr (inr (IsLive-of_check (ground arith)))
      ]
    ],
    λ c. elim c [
      | inl e ↦ rw e refl
      | inr d ↦ elim d [
        | inl f ↦ ground arith
        | inr live ↦ let l = check_of_IsLive live in ground arith
      ]
    ],
  )

-- A quoted fee is let through exactly if its token can be read and it is lumens, or nothing is charged,
-- or the first of Horizon's routes with the quoted hops can be read and costs at most the quote's limit.
pub ensure_quoted_path_iff :
    (horizon : HorizonApi) (source fee_token : Text) (charge send_max : ℤ) (quoted : List Text)
    → (ensure_quoted_path horizon source fee_token charge send_max quoted ≡ ok tt) ↔ (
        (token : Asset) × (parse fee_token ≡ some token)
        × CanPay horizon source token charge send_max quoted)
unfolding ensure_quoted_path
ensure_quoted_path_iff horizon source fee_token charge send_max quoted = (
  λ h.
      let (token, e, h₁) = >>=-eq-ok (ok_or (parse fee_token) (Error.asset fee_token)) _ h in
      (
        token,
        ok_or-eq-ok _ (Error.asset fee_token) e,
        (pay_iff horizon source token charge send_max quoted).0 h₁,
      ),
  λ (token, e, c). rw e ((pay_iff horizon source token charge send_max quoted).1 c),
)
