-- ===== src/Api/Channels/Examples.antt =====
-- A pool of two lanes.
use reserve.Base.{
  ◌≡◌, ◌≢◌, ◌⊎◌, refl, ap, List, [], ◌∷◌, none, some, ℤ, ok, err, pos, Text, text_eq, eq→text_eq,
  arith, parse_i64, all_digits, checked, wrapping_add, ◌+ℤ◌, ◌*ℤ◌,
}
use reserve.Horizon.Records.{sequence_i64}
use reserve.Signer.{Sponsor}
use reserve.Core.Samples.{horizon, user, sponsor}
use reserve.Api.Channels.{busy, Lane, lease, release, next_sequence}
use reserve.Api.Channels.Take.{AllLeased, FirstFree, Takes, lease_lem}
use reserve.Api.Channels.Spec.{
  Call, asks, returns, took, gave, event, events, step, run, holding, replay, IsTrace,
}
use reserve.Api.Channels.Refine.{run_refines}
use reserve.Api.Channels.Progress.{Answers, run_frees}
use reserve.Api.Channels.Exclusive.{IsDistinct, Run, done, waits, releases, lease_exclusive}

abbrev key : Sponsor
key = record { public_key_bytes = []; sign = λ hash. hash }

abbrev lane_at : Text → Lane
lane_at address = record { key = key; address = address; slot = none }

abbrev two_lanes : List Lane
two_lanes = lane_at sponsor ∷ lane_at user ∷ []

abbrev after_first : List Lane
after_first =
    record (lane_at sponsor) { slot = some (record { sequence = pos 42; expires_at = 280 }) }
    ∷ lane_at user
    ∷ []

first_lease : lease horizon 180 100 two_lanes ≡ (ok (sponsor, pos 42), after_first)
unfolding lease next_sequence sequence_i64 parse_i64 all_digits checked wrapping_add ◌+ℤ◌ ◌*ℤ◌
first_lease = refl

second_lease : (lease horizon 180 150 after_first).0 ≡ ok (user, pos 42)
unfolding lease next_sequence sequence_i64 parse_i64 all_digits checked wrapping_add ◌+ℤ◌ ◌*ℤ◌
second_lease = refl

lease_lem_example :
    (AllLeased 100 two_lanes × (lease horizon 180 100 two_lanes ≡ (err busy, two_lanes)))
    ⊎ ((f : FirstFree 100 two_lanes) × Takes horizon 180 100 two_lanes f
          (lease horizon 180 100 two_lanes))
lease_lem_example = lease_lem horizon 180 100 two_lanes

lanes-IsDistinct : IsDistinct two_lanes
unfolding text_eq
lanes-IsDistinct = ((λ e. let same = eq→text_eq user sponsor e in cc, tt), (tt, tt))

-- Fifty ticks, and the release of another number.
a-Run :
    Run sponsor
      (pos 42)
      100
      (lease horizon 180 100 two_lanes).1
      150
      (release sponsor (pos 7) (lease horizon 180 100 two_lanes).1)
a-Run =
    releases sponsor (pos 7) (λ same e. cc)
      (waits 50 (done 100 (lease horizon 180 100 two_lanes).1))

second_after :
    (lease horizon 180 150 (release sponsor (pos 7) (lease horizon 180 100 two_lanes).1)).0
    ≡ ok (user, pos 42)
unfolding lease next_sequence sequence_i64 parse_i64 all_digits checked wrapping_add ◌+ℤ◌ ◌*ℤ◌
    release text_eq
second_after = refl

first_answer : (lease horizon 180 100 two_lanes).0 ≡ ok (sponsor, pos 42)
first_answer = ap (λ r. r.0) first_lease

lease_exclusive_example : user ≢ sponsor
lease_exclusive_example =
    lease_exclusive horizon horizon 180 180 100 150 two_lanes
      (release sponsor (pos 7) (lease horizon 180 100 two_lanes).1) sponsor user (pos 42) (pos 42)
      lanes-IsDistinct first_answer a-Run (omega arith) second_after

-- A lease that is never released, a second one, and the release of the first by its number.
abbrev calls : List Call
calls = asks horizon 180 100 ∷ asks horizon 180 150 ∷ returns sponsor (pos 42) ∷ []

run_refines_example :
    IsTrace (events calls two_lanes) (holding two_lanes)
    × (holding (run calls two_lanes) ≡ replay (events calls two_lanes) (holding two_lanes))
run_refines_example = run_refines calls two_lanes lanes-IsDistinct

what_happened :
    events calls two_lanes
    ≡ took 100 sponsor (record { sequence = pos 42; expires_at = 280 })
      ∷ took 150 user (record { sequence = pos 42; expires_at = 330 })
      ∷ gave sponsor (pos 42)
      ∷ []
unfolding events event step lease release next_sequence sequence_i64 parse_i64 all_digits checked
    wrapping_add ◌+ℤ◌ ◌*ℤ◌ text_eq
what_happened = refl

number_told : (a : Text) → Answers horizon a
unfolding next_sequence sequence_i64 parse_i64 all_digits checked wrapping_add ◌+ℤ◌ ◌*ℤ◌
number_told a = (pos 42, refl)

run_frees_example :
    (a : Text) × (s : ℤ) × ((lease horizon 180 330 (run calls two_lanes)).0 ≡ ok (a, s))
run_frees_example =
    run_frees 330 calls two_lanes horizon 180 330 (λ e. cc) (tt, (tt, tt))
      (omega arith, (omega arith, tt)) (number_told sponsor, (number_told user, tt)) (omega arith)

-- Two lanes of one account are not distinct, and are given out with one number.
abbrev twin_lanes : List Lane
twin_lanes = lane_at sponsor ∷ lane_at sponsor ∷ []

twins_collide :
    ((lease horizon 180 100 twin_lanes).0 ≡ ok (sponsor, pos 42))
    × ((lease horizon 180 101 (lease horizon 180 100 twin_lanes).1).0 ≡ ok (sponsor, pos 42))
unfolding lease next_sequence sequence_i64 parse_i64 all_digits checked wrapping_add ◌+ℤ◌ ◌*ℤ◌
twins_collide = (refl, refl)
