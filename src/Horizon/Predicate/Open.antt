-- ===== src/Horizon/Predicate/Open.antt =====
-- What `not` makes of a predicate that cannot be evaluated.
use reserve.Base.{◌≡◌, refl, true, false, Option, none, some, ℤ, Text, arith, parse_i64}
use reserve.Horizon.Predicate.{
  Predicate, predicate, no_parts, no_inner, inner, holds, holds_at, leaf_holds,
}

abbrev pub not_of : Predicate → Predicate
not_of p = predicate none no_parts no_parts (inner p) none none none

abbrev pub rel_before : Text → Predicate
rel_before rel = predicate none no_parts no_parts no_inner none none (some rel)

-- A relative deadline refuses when the creation time is unknown, and its negation then accepts; so
-- does any predicate that is nested in five negations, whatever it says.
pub undecided_open :
    (rel : Text) (r now : ℤ) (created : Option ℤ) (p : Predicate)
    → parse_i64 rel ≡ some r
    → (holds (rel_before rel) now none ≡ false)
      × (holds (not_of (rel_before rel)) now none ≡ true)
      × (holds (not_of (not_of (not_of (not_of (not_of p))))) now created ≡ true)
unfolding holds holds_at leaf_holds
undecided_open rel r now created (predicate a b c d e f g) h = (ground arith, ground arith, refl)
