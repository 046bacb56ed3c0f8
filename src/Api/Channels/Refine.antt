-- ===== src/Api/Channels/Refine.antt =====
-- Any run of calls on a pool is a run of the specification.
use mathlib.Core.Path.{fun_ext}
use reserve.Base.{
  ℕ, ◌+◌, ◌≡◌, ◌≢◌, inl, inr, refl, sym, ap, subst, ◌∙◌, false, List, [], ◌∷◌, ℤ, Text, text_eq,
  text_eq→eq, text_eq_refl, Result, ok, err, Bool-cases, Result-cases,
}
use reserve.Horizon.Records.{HorizonApi}
use reserve.Api.Channels.{ChannelError, Lane, is_leased, next_sequence, leased, lease}
use reserve.Api.Channels.Exclusive.{NotIn, IsDistinct}
use reserve.Api.Channels.Spec.{
  Call, asks, returns, step, event, event_of, run, events, apply, replay, Allowed, IsTrace, holding,
  text_eq_ne, lease-IsDistinct, release-IsDistinct, lease_In, release-holding,
}

-- One lease, as the specification has it.
record IsLease (ttl now : ℕ) (answer : Result ChannelError (Text × ℤ)) (before after : List Lane)
    : Type 0 where
  allowed : Allowed (event_of ttl now answer) (holding before)
  held : (b : Text) → holding after b ≡ apply (event_of ttl now answer) (holding before) b

-- Behind a lane that has another address.
pass-IsLease :
    (ttl now : ℕ) (lane : Lane) (lanes after : List Lane) (answer : Result ChannelError (Text × ℤ))
    → ((a : Text) (s : ℤ) → answer ≡ ok (a, s) → lane.address ≢ a)
    → IsLease ttl now answer lanes after
    → IsLease ttl now answer (lane ∷ lanes) (lane ∷ after)
unfolding holding
pass-IsLease ttl now lane lanes after (err e) other h = record {
  allowed = tt;
  held = λ b. elim (Bool-cases (text_eq lane.address b)) [
    | inl here ↦ rw here refl
    | inr there ↦ rw there (h.held b)
  ];
}
pass-IsLease ttl now lane lanes after (ok (a, s)) other h =
    let ne = other a s refl in
    record {
      allowed = rw (text_eq_ne lane.address a ne) h.allowed;
      held = λ b. elim (Bool-cases (text_eq lane.address b)) [
        | inl here ↦
            (let n = text_eq_ne a b (λ e. ne (text_eq→eq lane.address b here ∙ sym e)) in
              rw (here, n) refl)
        | inr there ↦ rw there (h.held b)
      ];
    }

lease-IsLease :
    (h : HorizonApi) (ttl now : ℕ) (lanes : List Lane)
    → IsDistinct lanes
    → IsLease ttl now (lease h ttl now lanes).0 lanes (lease h ttl now lanes).1
unfolding lease holding
lease-IsLease h ttl now [] d = record { allowed = tt; held = λ b. refl }
lease-IsLease h ttl now (lane ∷ lanes) d = elim (Bool-cases (is_leased lane.slot now)) [
  | inl t ↦ rw t (
      pass-IsLease ttl now lane lanes (lease h ttl now lanes).1 (lease h ttl now lanes).0
        (λ a s e same. lease_In h ttl now lanes e (subst (λ x. NotIn x lanes) same d.0))
        (lease-IsLease h ttl now lanes d.1))
  | inr f ↦ elim (Result-cases (next_sequence h lane.address)) [
    | inl (s, e) ↦ rw (f, e) (taken s f)
    | inr (x, e) ↦ rw (f, e) (record { allowed = tt; held = λ b. refl })
  ]
]
  where
    taken :
        (s : ℤ)
        → is_leased lane.slot now ≡ false
        → IsLease ttl now (ok (lane.address, s)) (lane ∷ lanes) (leased lane s (now + ttl) ∷ lanes)
    taken s f = record {
      allowed = rw (text_eq_refl lane.address) f;
      held = λ b. elim (Bool-cases (text_eq lane.address b)) [
        | inl here ↦ rw here refl
        | inr there ↦ rw there refl
      ];
    }

step-IsDistinct : (c : Call) (lanes : List Lane) → IsDistinct lanes → IsDistinct (step c lanes)
unfolding step
step-IsDistinct (asks h ttl now) lanes d = lease-IsDistinct h ttl now lanes d
step-IsDistinct (returns a s) lanes d = release-IsDistinct a s lanes d

step_refines :
    (c : Call) (lanes : List Lane)
    → IsDistinct lanes
    → Allowed (event c lanes) (holding lanes)
      × (holding (step c lanes) ≡ apply (event c lanes) (holding lanes))
unfolding step event
step_refines (asks h ttl now) lanes d =
    let l = lease-IsLease h ttl now lanes d in (l.allowed, fun_ext l.held)
step_refines (returns a s) lanes d = (tt, fun_ext (release-holding a s lanes))

-- On a pool of distinct addresses, any run of leases and releases shows events of the specification, a
-- function from addresses to leases: a lease is only ever taken at an address where none runs, and a
-- release takes away the lease that has its number. The lanes end as the function that replays the events.
pub run_refines :
    (calls : List Call) (lanes : List Lane)
    → IsDistinct lanes
    → IsTrace (events calls lanes) (holding lanes)
      × (holding (run calls lanes) ≡ replay (events calls lanes) (holding lanes))
unfolding run events
run_refines [] lanes d = (tt, refl)
run_refines (c ∷ calls) lanes d =
    let (allowed, held) = step_refines c lanes d in
    let (trace, same) = run_refines calls (step c lanes) (step-IsDistinct c lanes d) in
    (
      (allowed, subst (IsTrace (events calls (step c lanes))) held trace),
      same ∙ ap (replay (events calls (step c lanes))) held,
    )
