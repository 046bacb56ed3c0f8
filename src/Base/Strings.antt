-- ===== src/Base/Strings.antt =====
-- Text as a list of bytes (numbers), with the operations of `str` that the program uses.
use Prim.Native.Nat.{ℕ, ◌≤◌}
use Prim.Native.Char.{code}
use Prim.Native.String.{String}
use mathlib.Core.Path.{◌≡◌, refl, sym, ap, subst, ◌∙◌}
use mathlib.Core.Logic.{◌≢◌, ◌↔◌, inl, inr}
use mathlib.Core.Bool.{Bool, true, false, ◌&&◌}
use mathlib.Core.Option.{Option, none, some}
use mathlib.Core.List.{List, [], ◌∷◌, ◌++◌}
use native.Mathlib.Omega.{arith}
use reserve.Base.Tests.{leb, ◌==◌, if◌then◌else◌, ==_iff, Bool-cases}

abbrev pub Text : Type 0
Text = List ℕ

-- The code points of a literal: its bytes, as every literal here is ASCII but for an arrow in one
-- message.
abbrev pub codes : String → Text
codes String.[] = []
codes (String.◌∷◌ c s) = code c ∷ codes s

-- A literal, kept shut so that proofs do not spell it.
unfoldable pub text : String → Text
text s = codes s

unfoldable pub text_eq : Text → Text → Bool
text_eq [] [] = true
text_eq [] (b ∷ t) = false
text_eq (a ∷ s) [] = false
text_eq (a ∷ s) (b ∷ t) = a == b && text_eq s t

pub text_eq→eq : (s t : Text) → text_eq s t ≡ true → s ≡ t
unfolding text_eq
text_eq→eq [] [] h = refl
text_eq→eq [] (b ∷ t) h = cc
text_eq→eq (a ∷ s) [] h = cc
text_eq→eq (a ∷ s) (b ∷ t) h = ground (arith, text_eq→eq s t)

pub text_eq_refl : (s : Text) → text_eq s s ≡ true
unfolding text_eq
text_eq_refl [] = refl
text_eq_refl (a ∷ s) = ground (arith, text_eq_refl s)

pub eq→text_eq : (s t : Text) → s ≡ t → text_eq s t ≡ true
eq→text_eq s t e = ap (text_eq s) (sym e) ∙ text_eq_refl s

pub text_eq_iff : (s t : Text) → (text_eq s t ≡ true) ↔ (s ≡ t)
text_eq_iff s t = (text_eq→eq s t, eq→text_eq s t)

-- `str::split_once` at one byte.
unfoldable pub split_once : ℕ → Text → Option (Text × Text)
split_once c [] = none
split_once c (a ∷ s) =
    let rest = split_once c s in
    if a == c then some ([], s) else elim rest [ none ↦ none | some (u, v) ↦ some (a ∷ u, v) ]

abbrev pub Lacks : ℕ → Text → Type 0
Lacks c [] = Unit
Lacks c (a ∷ s) = (a ≢ c) × Lacks c s

-- What a split says of the text.
abbrev pub SplitOf : ℕ → Text → Option (Text × Text) → Type 0
SplitOf c s none = Lacks c s
SplitOf c s (some (u, v)) = (s ≡ u ++ c ∷ v) × Lacks c u

SplitOf-cons :
    (c a : ℕ) (s : Text) (rest : Option (Text × Text))
    → a ≢ c
    → SplitOf c s rest
    → SplitOf c (a ∷ s) (elim rest [ none ↦ none | some (u, v) ↦ some (a ∷ u, v) ])
SplitOf-cons c a s none n h = (n, h)
SplitOf-cons c a s (some (u, v)) n h = (ap (λ t. a ∷ t) h.0, (n, h.1))

pub split_once-SplitOf : (c : ℕ) (s : Text) → SplitOf c s (split_once c s)
unfolding split_once
split_once-SplitOf c [] = tt
split_once-SplitOf c (a ∷ s) = elim (Bool-cases (a == c)) [
  | inl e ↦ rw e (ap (λ t. t ∷ s) ((==_iff a c).0 e), tt)
  | inr e ↦ rw e (SplitOf-cons c a s (split_once c s) (ground arith) (split_once-SplitOf c s))
]

pub split_once_sound :
    (c : ℕ) (s u v : Text) → split_once c s ≡ some (u, v) → (s ≡ u ++ c ∷ v) × Lacks c u
split_once_sound c s u v h = subst (SplitOf c s) h (split_once-SplitOf c s)

pub split_once-append : (c : ℕ) (u v : Text) → Lacks c u → split_once c (u ++ c ∷ v) ≡ some (u, v)
unfolding split_once
split_once-append c [] v h = ground arith
split_once-append c (a ∷ u) v h = ground (arith, split_once-append c u v h.1)

pub split_once-eq-none : (c : ℕ) (s : Text) → Lacks c s → split_once c s ≡ none
unfolding split_once
split_once-eq-none c [] h = refl
split_once-eq-none c (a ∷ s) h = ground (arith, split_once-eq-none c s h.1)

abbrev pub is_digit : ℕ → Bool
is_digit c = leb b'0' c && leb c b'9'

abbrev pub IsDigit : ℕ → Type 0
IsDigit byte = (b'0' ≤ byte) × (byte ≤ b'9')

abbrev pub AllDigits : Text → Type 0
AllDigits [] = Unit
AllDigits (c ∷ s) = IsDigit c × AllDigits s

unfoldable pub all_digits : Text → Bool
all_digits [] = true
all_digits (c ∷ s) = is_digit c && all_digits s

pub all_digits→AllDigits : (s : Text) → all_digits s ≡ true → AllDigits s
unfolding all_digits
all_digits→AllDigits [] h = tt
all_digits→AllDigits (c ∷ s) h = ground (arith, all_digits→AllDigits s)

pub AllDigits→all_digits : (s : Text) → AllDigits s → all_digits s ≡ true
unfolding all_digits
AllDigits→all_digits [] h = refl
AllDigits→all_digits (c ∷ s) h = ground (arith, AllDigits→all_digits s h.1)
