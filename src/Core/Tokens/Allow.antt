-- ===== src/Core/Tokens/Allow.antt =====
-- The tokens that a configuration accepts.
use reserve.Base.{
  refl, false, map, ◌++◌, ◌≡◌, ◌≢◌, ◌↔◌, ◌⊎◌, inl, inr, refl, sym, subst, ◌∙◌, Bool, true, ◌&&◌,
  ◌||◌, List, [], ◌∷◌, Text, text, text_eq, text_eq→eq, eq→text_eq, trim, split_on, Bool-cases,
  arith,
}
use reserve.Horizon.Asset.{Asset, canonical}
use reserve.Core.Tokens.{
  pieces, or_known, allowlist_parse, entry_allows, any_allows, allows, KnownToken, is_empty,
  token_canonical, known_tokens,
}

-- An entry that names an asset: by its canonical text, or lumens as `XLM`.
abbrev pub Names : Text → Text → Type 0
Names entry name = (entry ≡ name) ⊎ ((name ≡ text "native") × (entry ≡ text "XLM"))

abbrev pub Named : List Text → Text → Type 0
Named [] name = ⊥
Named (entry ∷ list) name = Names entry name ⊎ Named list name

or_cases : (a b : Bool) → (a || b) ≡ true → (a ≡ true) ⊎ (b ≡ true)
or_cases a b h = ground arith

and_cases : (a b : Bool) → (a && b) ≡ true → (a ≡ true) × (b ≡ true)
and_cases a b h = ground arith

or_left : (a b : Bool) → a ≡ true → (a || b) ≡ true
or_left a b h = ground arith

or_right : (a b : Bool) → b ≡ true → (a || b) ≡ true
or_right a b h = ground arith

entry_allows-Names : (entry name : Text) → entry_allows entry name ≡ true → Names entry name
unfolding entry_allows
entry_allows-Names entry name h = elim (or_cases (text_eq entry name) _ h) [
  | inl e ↦ inl (text_eq→eq entry name e)
  | inr r ↦
      let (n, alias) = and_cases (text_eq name (text "native")) _ r in
      let is_native = text_eq→eq name (text "native") n in
      elim (or_cases (text_eq entry (text "XLM")) _ alias) [
        | inl x ↦ inr (is_native, text_eq→eq entry (text "XLM") x)
        | inr x ↦ inl (text_eq→eq entry (text "native") x ∙ sym is_native)
      ]
]

Names-entry_allows : (entry name : Text) → Names entry name → entry_allows entry name ≡ true
unfolding entry_allows
Names-entry_allows entry name (inl e) = or_left _ _ (eq→text_eq entry name e)
Names-entry_allows entry name (inr (n, x)) =
    let a = eq→text_eq name (text "native") n in
    let b = eq→text_eq entry (text "XLM") x in or_right (text_eq entry name) _ (ground arith)

any_allows-Named : (list : List Text) (name : Text) → any_allows list name ≡ true → Named list name
unfolding any_allows
any_allows-Named [] name h = cc
any_allows-Named (entry ∷ list) name h = elim (or_cases (entry_allows entry name) _ h) [
  | inl e ↦ inl (entry_allows-Names entry name e)
  | inr r ↦ inr (any_allows-Named list name r)
]

Named-any_allows : (list : List Text) (name : Text) → Named list name → any_allows list name ≡ true
unfolding any_allows
Named-any_allows [] name h = absurd h
Named-any_allows (entry ∷ list) name (inl e) = or_left _ _ (Names-entry_allows entry name e)
Named-any_allows (entry ∷ list) name (inr r) =
    or_right (entry_allows entry name) _ (Named-any_allows list name r)

-- A token that is named by the entries that are written down: the parts between the commas that are more
-- than white space.
abbrev pub Written : List Text → Text → Type 0
Written [] name = ⊥
Written (part ∷ parts) name = (trim part ≢ []) × Names (trim part) name ⊎ Written parts name

-- No entry is written down.
abbrev pub Blank : List Text → Type 0
Blank [] = Unit
Blank (part ∷ parts) = (trim part ≡ []) × Blank parts

-- A token of a list of curated ones: the list has its canonical text, which is `native` where the list
-- names no issuer.
abbrev pub Curated : List KnownToken → Text → Type 0
Curated [] name = ⊥
Curated (t ∷ tokens) name =
    ((t.issuer ≡ []) × (name ≡ text "native")
      ⊎ (t.issuer ≢ []) × Names (t.code ++ b':' ∷ t.issuer) name)
    ⊎ Curated tokens name

is_empty_cases : (s : Text) → (is_empty s ≡ true) × (s ≡ []) ⊎ (is_empty s ≡ false) × (s ≢ [])
is_empty_cases [] = inl (refl, refl)
is_empty_cases (c ∷ s) = inr (refl, λ e. cc)

pieces-Written : (parts : List Text) (name : Text) → Named (pieces parts) name ↔ Written parts name
unfolding pieces
pieces-Written [] name = (λ h. h, λ h. h)
pieces-Written (part ∷ parts) name =
    let (there, back) = pieces-Written parts name in
    elim (is_empty_cases (trim part)) [
      | inl (e, blank) ↦ rw e (
        λ h. inr (there h),
        λ h. elim h [ inl (some_text, n) ↦ absurd (some_text blank) | inr w ↦ back w ],
      )
      | inr (e, full) ↦ rw e (
        λ h. elim h [ inl n ↦ inl (full, n) | inr m ↦ inr (there m) ],
        λ h. elim h [ inl (some_text, n) ↦ inl n | inr w ↦ inr (back w) ],
      )
    ]

pieces-Blank : (parts : List Text) → (pieces parts ≡ []) ↔ Blank parts
unfolding pieces
pieces-Blank [] = (λ h. tt, λ h. refl)
pieces-Blank (part ∷ parts) =
    let (there, back) = pieces-Blank parts in
    elim (is_empty_cases (trim part)) [
      | inl (e, blank) ↦ rw e (λ h. (blank, there h), λ h. back h.1)
      | inr (e, full) ↦ rw e (λ h. cc, λ h. absurd (full h.0))
    ]

native_Names : (name : Text) → Names (text "native") name ↔ (name ≡ text "native")
unfolding text
native_Names name = (λ h. elim h [ inl e ↦ sym e | inr (n, x) ↦ n ], λ h. inl (sym h))

known-Curated :
    (tokens : List KnownToken) (name : Text)
    → Named (map token_canonical tokens) name ↔ Curated tokens name
unfolding token_canonical
known-Curated [] name = (λ h. h, λ h. h)
known-Curated (t ∷ tokens) name =
    let (there, back) = known-Curated tokens name in
    let (named, names) = native_Names name in
    elim (is_empty_cases t.issuer) [
      | inl (e, none) ↦ rw e (
        λ h. elim h [ inl n ↦ inl (inl (none, named n)) | inr m ↦ inr (there m) ],
        λ h. elim h [
          | inl (inl (i, n)) ↦ inl (names n)
          | inl (inr (i, n)) ↦ absurd (i none)
          | inr c ↦ inr (back c)
        ],
      )
      | inr (e, full) ↦ rw e (
        λ h. elim h [ inl n ↦ inl (inr (full, n)) | inr m ↦ inr (there m) ],
        λ h. elim h [
          | inl (inl (i, n)) ↦ absurd (full i)
          | inl (inr (i, n)) ↦ inl n
          | inr c ↦ inr (back c)
        ],
      )
    ]

-- What a list of parts names, or the curated tokens where it is blank.
abbrev pub Accepted : List Text → List KnownToken → Text → Type 0
Accepted parts tokens name = Written parts name ⊎ Blank parts × Curated tokens name

Blank-not_Written : (parts : List Text) (name : Text) → Blank parts → ¬ Written parts name
Blank-not_Written [] name b w = w
Blank-not_Written (part ∷ parts) name b (inl (full, n)) = full b.0
Blank-not_Written (part ∷ parts) name b (inr w) = Blank-not_Written parts name b.1 w

or_known-Accepted :
    (parts : List Text) (net : Text) (a : Asset)
    → (allows (or_known (pieces parts) net) a ≡ true)
      ↔ Accepted parts (known_tokens net) (canonical a)
unfolding allows
or_known-Accepted parts net a = by_pieces (pieces parts) refl
  where
    by_pieces :
        (found : List Text)
        → pieces parts ≡ found
        → (allows (or_known found net) a ≡ true) ↔ Accepted parts (known_tokens net) (canonical a)
    by_pieces [] e =
        let blank = (pieces-Blank parts).0 e in
        let (there, back) = known-Curated (known_tokens net) (canonical a) in
        (
          λ h. inr (blank, there (any_allows-Named _ (canonical a) h)),
          λ h. elim h [
            | inl w ↦ absurd (Blank-not_Written parts (canonical a) blank w)
            | inr (b, c) ↦ Named-any_allows _ (canonical a) (back c)
          ],
        )
    by_pieces (s ∷ ss) e =
        let (there, back) = pieces-Written parts (canonical a) in
        (
          λ h. inl (
              there (
                subst (λ (l : List Text). Named l (canonical a)) (sym e)
                  (any_allows-Named (s ∷ ss) (canonical a) h))),
          λ h. elim h [
            | inl w ↦
                Named-any_allows (s ∷ ss) (canonical a)
                  (subst (λ (l : List Text). Named l (canonical a)) e (back w))
            | inr (b, c) ↦ absurd (let none = (pieces-Blank parts).1 b in cc)
          ],
        )

-- A configuration that is a lone asterisk accepts every token. Any other accepts exactly the tokens whose
-- canonical text is one of its entries between commas, white space around them aside, or `XLM` for lumens;
-- and where it has no entry, the curated tokens of the network.
pub allows_iff :
    (configured net : Text) (a : Asset)
    → (allows (allowlist_parse configured net) a ≡ true) ↔ (
        (trim configured ≡ text "*")
        ⊎ ((trim configured ≢ text "*")
            × Accepted (split_on b',' (trim configured)) (known_tokens net) (canonical a)))
unfolding allows allowlist_parse
allows_iff configured net a =
    let (there, back) = or_known-Accepted (split_on b',' (trim configured)) net a in
    elim (Bool-cases (text_eq (trim configured) (text "*"))) [
      | inl e ↦
          let star = text_eq→eq (trim configured) (text "*") e in rw e (λ h. inl star, λ h. refl)
      | inr e ↦
          let other : trim configured ≢ text "*" =
            λ same. let t = eq→text_eq (trim configured) (text "*") same in cc in
          rw e (
            λ h. inr (other, there h),
            λ h. elim h [ inl star ↦ absurd (other star) | inr (_, accepted) ↦ back accepted ],
          )
    ]
