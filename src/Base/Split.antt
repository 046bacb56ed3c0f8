-- ===== src/Base/Split.antt =====
-- `str::split`, `trim` and `strip_suffix`, over bytes.
use Prim.Native.Nat.{ℕ, zero, suc}
use mathlib.Core.Option.{Option, none, some}
use mathlib.Core.List.{List, [], ◌∷◌, reverse, map}
use reserve.Base.Tests.{◌==◌, if◌then◌else◌}
use reserve.Base.Lists.{length}
use reserve.Base.Strings.{Text}

-- The first piece grows by one byte.
abbrev grow : ℕ → List Text → List Text
grow a [] = (a ∷ []) ∷ []
grow a (p ∷ ps) = (a ∷ p) ∷ ps

-- `str::split` at one byte: always at least one piece.
unfoldable pub split_on : ℕ → Text → List Text
split_on c [] = [] ∷ []
split_on c (a ∷ s) = let rest = split_on c s in if a == c then [] ∷ rest else grow a rest

unfoldable pub strip_prefix : Text → Text → Option Text
strip_prefix [] s = some s
strip_prefix (p ∷ ps) [] = none
strip_prefix (p ∷ ps) (a ∷ s) = let rest = strip_prefix ps s in if a == p then rest else none

abbrev reversed : Option Text → Option Text
reversed none = none
reversed (some s) = some (reverse s)

unfoldable pub strip_suffix : Text → Text → Option Text
unfolding strip_prefix
strip_suffix p s = reversed (strip_prefix (reverse p) (reverse s))

-- UTF-8 of the characters with the property White_Space.
abbrev whitespace : List Text
whitespace =
    (0x09 ∷ [])
    ∷ (0x0a ∷ [])
    ∷ (0x0b ∷ [])
    ∷ (0x0c ∷ [])
    ∷ (0x0d ∷ [])
    ∷ (0x20 ∷ [])
    ∷ (0xc2 ∷ 0x85 ∷ [])
    ∷ (0xc2 ∷ 0xa0 ∷ [])
    ∷ (0xe1 ∷ 0x9a ∷ 0x80 ∷ [])
    ∷ (0xe2 ∷ 0x80 ∷ 0x80 ∷ [])
    ∷ (0xe2 ∷ 0x80 ∷ 0x81 ∷ [])
    ∷ (0xe2 ∷ 0x80 ∷ 0x82 ∷ [])
    ∷ (0xe2 ∷ 0x80 ∷ 0x83 ∷ [])
    ∷ (0xe2 ∷ 0x80 ∷ 0x84 ∷ [])
    ∷ (0xe2 ∷ 0x80 ∷ 0x85 ∷ [])
    ∷ (0xe2 ∷ 0x80 ∷ 0x86 ∷ [])
    ∷ (0xe2 ∷ 0x80 ∷ 0x87 ∷ [])
    ∷ (0xe2 ∷ 0x80 ∷ 0x88 ∷ [])
    ∷ (0xe2 ∷ 0x80 ∷ 0x89 ∷ [])
    ∷ (0xe2 ∷ 0x80 ∷ 0x8a ∷ [])
    ∷ (0xe2 ∷ 0x80 ∷ 0xa8 ∷ [])
    ∷ (0xe2 ∷ 0x80 ∷ 0xa9 ∷ [])
    ∷ (0xe2 ∷ 0x80 ∷ 0xaf ∷ [])
    ∷ (0xe2 ∷ 0x81 ∷ 0x9f ∷ [])
    ∷ (0xe3 ∷ 0x80 ∷ 0x80 ∷ [])
    ∷ []

-- The text behind the first of the prefixes that it has.
strip_any : List Text → Text → Option Text
unfolding strip_prefix
strip_any [] s = none
strip_any (p ∷ ps) s =
    let rest = strip_any ps s in elim (strip_prefix p s) [ some t ↦ some t | none ↦ rest ]

-- Each round takes a byte at least, so a text's length is fuel enough.
trim_by : List Text → ℕ → Text → Text
unfolding strip_any
trim_by ps zero s = s
trim_by ps (suc f) s = elim (strip_any ps s) [ none ↦ s | some t ↦ trim_by ps f t ]

unfoldable pub trim : Text → Text
unfolding trim_by
trim s =
    let front = trim_by whitespace (length s) s in
    reverse (trim_by (map reverse whitespace) (length front) (reverse front))
