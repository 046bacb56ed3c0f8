-- ===== src/Api/Channels/Progress.antt =====
-- No lane stays taken for good.
use reserve.Base.{
  ℕ, ◌+◌, ◌≤◌, ◌≡◌, ◌≢◌, inl, inr, refl, false, List, [], ◌∷◌, Option, none, some, ℤ, Text, text_eq,
  ok, Bool-cases, Result-cases, arith,
}
use reserve.Horizon.Records.{HorizonApi}
use reserve.Api.Channels.{Lane, Lease, is_leased, holds_sequence, next_sequence, lease, release}
use reserve.Api.Channels.Exclusive.{AllAt}
use reserve.Api.Channels.Spec.{Call, asks, returns, step, run, lease-AllAt, release-AllAt}

-- A lease that runs out by a time.
abbrev pub EndsBy : ℕ → Option Lease → Type 0
EndsBy t none = Unit
EndsBy t (some l) = l.expires_at ≤ t

abbrev pub AllEndBy : ℕ → List Lane → Type 0
AllEndBy t [] = Unit
AllEndBy t (lane ∷ lanes) = EndsBy t lane.slot × AllEndBy t lanes

-- Calls whose leases run out by a time.
abbrev pub AllCallsEndBy : ℕ → List Call → Type 0
AllCallsEndBy t [] = Unit
AllCallsEndBy t (asks h ttl now ∷ calls) = (now + ttl ≤ t) × AllCallsEndBy t calls
AllCallsEndBy t (returns a s ∷ calls) = AllCallsEndBy t calls

-- Horizon tells the next number of an account.
abbrev pub Answers : HorizonApi → Text → Type 0
Answers h a = (s : ℤ) × (next_sequence h a ≡ ok s)

lease-AllEndBy :
    (t : ℕ) (h : HorizonApi) (ttl now : ℕ) (lanes : List Lane)
    → now + ttl ≤ t
    → AllEndBy t lanes
    → AllEndBy t (lease h ttl now lanes).1
unfolding lease
lease-AllEndBy t h ttl now [] room all = tt
lease-AllEndBy t h ttl now (lane ∷ lanes) room all = elim (Bool-cases (is_leased lane.slot now)) [
  | inl e ↦ rw e (all.0, lease-AllEndBy t h ttl now lanes room all.1)
  | inr f ↦ elim (Result-cases (next_sequence h lane.address)) [
    | inl (s, e) ↦ rw (f, e) (room, all.1)
    | inr (x, e) ↦ rw (f, e) all
  ]
]

release-AllEndBy :
    (t : ℕ) (a : Text) (s : ℤ) (lanes : List Lane)
    → AllEndBy t lanes
    → AllEndBy t (release a s lanes)
unfolding release
release-AllEndBy t a s [] all = tt
release-AllEndBy t a s (lane ∷ lanes) all = elim (Bool-cases (text_eq lane.address a)) [
  | inr f ↦ rw f (all.0, release-AllEndBy t a s lanes all.1)
  | inl e ↦ elim (Bool-cases (holds_sequence lane.slot s)) [
    | inl g ↦ rw (e, g) (tt, all.1)
    | inr g ↦ rw (e, g) all
  ]
]

run-AllEndBy :
    (t : ℕ) (calls : List Call) (lanes : List Lane)
    → AllCallsEndBy t calls
    → AllEndBy t lanes
    → AllEndBy t (run calls lanes)
unfolding run step
run-AllEndBy t [] lanes c all = all
run-AllEndBy t (asks h ttl now ∷ calls) lanes c all =
    run-AllEndBy t calls (lease h ttl now lanes).1 c.1 (lease-AllEndBy t h ttl now lanes c.0 all)
run-AllEndBy t (returns a s ∷ calls) lanes c all =
    run-AllEndBy t calls (release a s lanes) c (release-AllEndBy t a s lanes all)

run-AllAt :
    (P : Text → Type 0) (calls : List Call) (lanes : List Lane)
    → AllAt P lanes
    → AllAt P (run calls lanes)
unfolding run step
run-AllAt P [] lanes all = all
run-AllAt P (asks h ttl now ∷ calls) lanes all =
    run-AllAt P calls (lease h ttl now lanes).1 (lease-AllAt h ttl now P lanes all)
run-AllAt P (returns a s ∷ calls) lanes all =
    run-AllAt P calls (release a s lanes) (release-AllAt a s P lanes all)

lease-nonempty :
    (h : HorizonApi) (ttl now : ℕ) (lanes : List Lane) → lanes ≢ [] → (lease h ttl now lanes).1 ≢ []
unfolding lease
lease-nonempty h ttl now [] n = absurd (n refl)
lease-nonempty h ttl now (lane ∷ lanes) n = elim (Bool-cases (is_leased lane.slot now)) [
  | inl e ↦ rw e (λ c. cc)
  | inr f ↦ elim (Result-cases (next_sequence h lane.address)) [
    | inl (s, e) ↦ rw (f, e) (λ c. cc)
    | inr (x, e) ↦ rw (f, e) (λ c. cc)
  ]
]

release-nonempty : (a : Text) (s : ℤ) (lanes : List Lane) → lanes ≢ [] → release a s lanes ≢ []
unfolding release
release-nonempty a s [] n = absurd (n refl)
release-nonempty a s (lane ∷ lanes) n = elim (Bool-cases (text_eq lane.address a)) [
  | inl e ↦ rw e (λ c. cc)
  | inr f ↦ rw f (λ c. cc)
]

run-nonempty : (calls : List Call) (lanes : List Lane) → lanes ≢ [] → run calls lanes ≢ []
unfolding run step
run-nonempty [] lanes n = n
run-nonempty (asks h ttl now ∷ calls) lanes n =
    run-nonempty calls (lease h ttl now lanes).1 (lease-nonempty h ttl now lanes n)
run-nonempty (returns a s ∷ calls) lanes n =
    run-nonempty calls (release a s lanes) (release-nonempty a s lanes n)

ended_free : (t now : ℕ) (o : Option Lease) → t ≤ now → EndsBy t o → is_leased o now ≡ false
ended_free t now none h e = refl
ended_free t now (some l) h e = ground arith

free-Answers :
    (t : ℕ) (h : HorizonApi) (ttl now : ℕ) (lanes : List Lane)
    → lanes ≢ []
    → t ≤ now
    → AllEndBy t lanes
    → AllAt (Answers h) lanes
    → (a : Text) × (s : ℤ) × ((lease h ttl now lanes).0 ≡ ok (a, s))
unfolding lease
free-Answers t h ttl now [] n late all answers = absurd (n refl)
free-Answers t h ttl now (lane ∷ lanes) n late all answers =
    let f = ended_free t now lane.slot late all.0 in
    (lane.address, answers.0.0, rw (f, answers.0.1) refl)

-- Whatever leases and releases come, and though no lane is ever released: once the leases have run out
-- that stood at first and that the calls could take, a pool that has a lane gives one out, if Horizon
-- tells the next number of each lane's account.
pub run_frees :
    (t : ℕ) (calls : List Call) (lanes : List Lane) (h : HorizonApi) (ttl now : ℕ)
    → lanes ≢ []
    → AllEndBy t lanes
    → AllCallsEndBy t calls
    → AllAt (Answers h) lanes
    → t ≤ now
    → (a : Text) × (s : ℤ) × ((lease h ttl now (run calls lanes)).0 ≡ ok (a, s))
run_frees t calls lanes h ttl now n all ends answers late =
    free-Answers t h ttl now (run calls lanes) (run-nonempty calls lanes n) late
      (run-AllEndBy t calls lanes ends all) (run-AllAt (Answers h) calls lanes answers)
