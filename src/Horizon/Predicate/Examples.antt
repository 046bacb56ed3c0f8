-- ===== src/Horizon/Predicate/Examples.antt =====
-- Predicates: the unit tests' runs, and the theorems at concrete trees.
use reserve.Base.{
  ◌≡◌, refl, true, false, none, some, pos, codes, parse_i64, saturating_add, arith, ◌+ℤ◌,
}
use reserve.Horizon.Predicate.{
  Predicate, Parts, predicate, no_parts, parts, no_inner, nil, cons, holds, holds_at, leaf_holds,
}
use reserve.Horizon.Predicate.Depth.{meaning, levels, holds-meaning}
use reserve.Horizon.Predicate.Open.{not_of, rel_before, undecided_open}

abbrev always : Predicate
always = predicate (some true) no_parts no_parts no_inner none none none

abbrev all_of : Parts → Predicate
all_of ps = predicate none (parts ps) no_parts no_inner none none none

abbrev vesting : Predicate
vesting = not_of (rel_before (codes "7200"))

vesting_opens :
    (holds vesting (pos 7_299) (some (pos 100)) ≡ false)
    × (holds vesting (pos 7_300) (some (pos 100)) ≡ true)
unfolding holds holds_at leaf_holds parse_i64 saturating_add ◌+ℤ◌
vesting_opens = (refl, refl)

pairs_only :
    (holds (all_of (cons always nil)) (pos 0) none ≡ false)
    × (holds (all_of (cons always (cons always nil))) (pos 0) none ≡ true)
unfolding holds holds_at leaf_holds
pairs_only = (refl, refl)

holds-meaning_example :
    holds vesting (pos 7_300) (some (pos 100)) ≡ meaning vesting (pos 7_300) (some (pos 100))
unfolding levels
holds-meaning_example = holds-meaning vesting (pos 7_300) (some (pos 100)) (omega arith)

undecided_open_example :
    (holds (rel_before (codes "7200")) (pos 0) none ≡ false)
    × (holds (not_of (rel_before (codes "7200"))) (pos 0) none ≡ true)
    × (holds (not_of (not_of (not_of (not_of (not_of vesting))))) (pos 0) none ≡ true)
unfolding parse_i64
undecided_open_example = undecided_open (codes "7200") (pos 7200) (pos 0) none vesting refl
