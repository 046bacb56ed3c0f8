-- ===== src/Api/Channels/Spec.antt =====
-- The pool as a function from addresses to leases.
use reserve.Base.{
  ℕ, ◌+◌, ◌≡◌, ◌≢◌, inl, inr, refl, sym, ap, ◌∙◌, false, ◌&&◌, List, [], ◌∷◌, Option, none, some,
  if◌then◌else◌, ℤ, Text, text_eq, text_eq→eq, eq→text_eq, Result, ok, err, Bool-cases,
  Result-cases,
}
use reserve.Horizon.Records.{HorizonApi}
use reserve.Api.Channels.{
  ChannelError, Lane, Lease, is_leased, holds_sequence, next_sequence, lease, release,
}
use reserve.Api.Channels.Exclusive.{AllAt, NotIn, IsDistinct}

-- The calls on a pool, and what each shows.
pub data Call : Type 0 where
  asks : HorizonApi → ℕ → ℕ → Call
  returns : Text → ℤ → Call

pub data Event : Type 0 where
  took : ℕ → Text → Lease → Event
  refused : Event
  gave : Text → ℤ → Event

unfoldable pub step : Call → List Lane → List Lane
step (asks h ttl now) lanes = (lease h ttl now lanes).1
step (returns a s) lanes = release a s lanes

abbrev pub event_of : ℕ → ℕ → Result ChannelError (Text × ℤ) → Event
event_of ttl now (err e) = refused
event_of ttl now (ok (a, s)) = took now a (record { sequence = s; expires_at = now + ttl })

unfoldable pub event : Call → List Lane → Event
event (asks h ttl now) lanes = event_of ttl now (lease h ttl now lanes).0
event (returns a s) lanes = gave a s

unfoldable pub run : List Call → List Lane → List Lane
run [] lanes = lanes
run (c ∷ calls) lanes = run calls (step c lanes)

unfoldable pub events : List Call → List Lane → List Event
events [] lanes = []
events (c ∷ calls) lanes = event c lanes ∷ events calls (step c lanes)

-- The specification: a pool is the lease of each address.
abbrev pub Pool : Type 0
Pool = Text → Option Lease

abbrev pub apply : Event → Pool → Pool
apply (took now a l) p b = if text_eq a b then some l else p b
apply refused p b = p b
apply (gave a s) p b = if text_eq a b && holds_sequence (p b) s then none else p b

abbrev pub replay : List Event → Pool → Pool
replay [] p = p
replay (e ∷ es) p = replay es (apply e p)

-- A lease is taken only where none runs.
abbrev pub Allowed : Event → Pool → Type 0
Allowed (took now a l) p = is_leased (p a) now ≡ false
Allowed refused p = Unit
Allowed (gave a s) p = Unit

abbrev pub IsTrace : List Event → Pool → Type 0
IsTrace [] p = Unit
IsTrace (e ∷ es) p = Allowed e p × IsTrace es (apply e p)

-- What the lanes hold for an address.
unfoldable pub holding : List Lane → Pool
holding [] a = none
holding (lane ∷ lanes) a =
    let rest = holding lanes a in if text_eq lane.address a then lane.slot else rest

pub text_eq_ne : (s t : Text) → s ≢ t → text_eq s t ≡ false
text_eq_ne s t h = elim (Bool-cases (text_eq s t)) [
  | inl e ↦ absurd (h (text_eq→eq s t e))
  | inr e ↦ e
]

-- A call changes no address.
pub lease-AllAt :
    (h : HorizonApi) (ttl now : ℕ) (P : Text → Type 0) (lanes : List Lane)
    → AllAt P lanes
    → AllAt P (lease h ttl now lanes).1
unfolding lease
lease-AllAt h ttl now P [] n = tt
lease-AllAt h ttl now P (lane ∷ lanes) n = elim (Bool-cases (is_leased lane.slot now)) [
  | inl t ↦ rw t (n.0, lease-AllAt h ttl now P lanes n.1)
  | inr f ↦ elim (Result-cases (next_sequence h lane.address)) [
    | inl (s, e) ↦ rw (f, e) n
    | inr (x, e) ↦ rw (f, e) n
  ]
]

pub release-AllAt :
    (b : Text) (s : ℤ) (P : Text → Type 0) (lanes : List Lane)
    → AllAt P lanes
    → AllAt P (release b s lanes)
unfolding release
release-AllAt b s P [] n = tt
release-AllAt b s P (lane ∷ lanes) n = elim (Bool-cases (text_eq lane.address b)) [
  | inr f ↦ rw f (n.0, release-AllAt b s P lanes n.1)
  | inl t ↦ elim (Bool-cases (holds_sequence lane.slot s)) [
    | inl e ↦ rw (t, e) n
    | inr e ↦ rw (t, e) n
  ]
]

pub lease-IsDistinct :
    (h : HorizonApi) (ttl now : ℕ) (lanes : List Lane)
    → IsDistinct lanes
    → IsDistinct (lease h ttl now lanes).1
unfolding lease
lease-IsDistinct h ttl now [] d = tt
lease-IsDistinct h ttl now (lane ∷ lanes) d = elim (Bool-cases (is_leased lane.slot now)) [
  | inl t ↦ rw t (
    lease-AllAt h ttl now (λ b. b ≢ lane.address) lanes d.0,
    lease-IsDistinct h ttl now lanes d.1,
  )
  | inr f ↦ elim (Result-cases (next_sequence h lane.address)) [
    | inl (s, e) ↦ rw (f, e) d
    | inr (x, e) ↦ rw (f, e) d
  ]
]

pub release-IsDistinct :
    (b : Text) (s : ℤ) (lanes : List Lane) → IsDistinct lanes → IsDistinct (release b s lanes)
unfolding release
release-IsDistinct b s [] d = tt
release-IsDistinct b s (lane ∷ lanes) d = elim (Bool-cases (text_eq lane.address b)) [
  | inr f ↦
      rw f (release-AllAt b s (λ b. b ≢ lane.address) lanes d.0, release-IsDistinct b s lanes d.1)
  | inl t ↦ elim (Bool-cases (holds_sequence lane.slot s)) [
    | inl e ↦ rw (t, e) d
    | inr e ↦ rw (t, e) d
  ]
]

-- A lane that is given out is one of the lanes.
pub lease_In :
    (h : HorizonApi) (ttl now : ℕ) (lanes : List Lane) {a : Text} {s : ℤ}
    → (lease h ttl now lanes).0 ≡ ok (a, s)
    → NotIn a lanes
    → ⊥
unfolding lease
lease_In h ttl now [] e n = cc
lease_In h ttl now (lane ∷ lanes) {a} {s} e n = elim (Bool-cases (is_leased lane.slot now)) [
  | inl t ↦ lease_In h ttl now lanes (let e' = rw t at e in e') n.1
  | inr f ↦ elim (Result-cases (next_sequence h lane.address)) [
    | inl (s', q) ↦
        (let e' : ◌≡◌ {A = Result ChannelError (Text × ℤ)} (ok (lane.address, s')) (ok (a, s)) =
            rw (f, q) at e in
          n.0 (address_of e'))
    | inr (x, q) ↦
        (let e' : ◌≡◌ {A = Result ChannelError (Text × ℤ)} (err x) (ok (a, s)) = rw (f, q) at e in
          cc)
  ]
]
  where
    address_of :
        {a b : Text} {s t : ℤ}
        → ◌≡◌ {A = Result ChannelError (Text × ℤ)} (ok (a, s)) (ok (b, t))
        → a ≡ b
    address_of h = cc

-- What a release and a lease do to what is held.
pub release-holding :
    (a : Text) (s : ℤ) (lanes : List Lane) (b : Text)
    → holding (release a s lanes) b ≡ apply (gave a s) (holding lanes) b
unfolding release holding
release-holding a s [] b = elim (Bool-cases (text_eq a b)) [ inl t ↦ rw t refl | inr f ↦ rw f refl ]
release-holding a s (lane ∷ lanes) b = elim (Bool-cases (text_eq lane.address a)) [
  | inl t ↦
      (let same = text_eq→eq lane.address a t in
        let test : text_eq a b ≡ text_eq lane.address b = ap (λ x. text_eq x b) (sym same) in
        elim (Bool-cases (text_eq lane.address b)) [
          | inl here ↦ elim (Bool-cases (holds_sequence lane.slot s)) [
            | inl e ↦ rw (t, test, e, here, e) refl
            | inr e ↦ rw (t, test, e, here, e) refl
          ]
          | inr there ↦ elim (Bool-cases (holds_sequence lane.slot s)) [
            | inl e ↦ rw (t, test, e, there) refl
            | inr e ↦ rw (t, test, e, there) refl
          ]
        ])
  | inr f ↦ elim (Bool-cases (text_eq lane.address b)) [
    | inl here ↦
        (let n : text_eq a b ≡ false =
            text_eq_ne a b
              (λ e. let x = eq→text_eq lane.address a (text_eq→eq _ _ here ∙ sym e) in cc) in
          rw (f, here, n) refl)
    | inr there ↦ rw (f, there) (release-holding a s lanes b)
  ]
]
