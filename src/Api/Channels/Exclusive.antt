-- ===== src/Api/Channels/Exclusive.antt =====
-- No lane is given out twice before its lease is released or runs out.
use reserve.Base.{
  ℕ, ◌+◌, ◌<◌, ◌≡◌, ◌≢◌, inl, inr, refl, sym, ap, subst, ◌∙◌, true, false, List, [], ◌∷◌, none,
  some, negsuc, pos, if◌then◌else◌, ℤ, eqb_ℤ, Text, text_eq, text_eq→eq, Result, ok, err,
  Bool-cases, Result-cases, arith,
}
use reserve.Horizon.Records.{HorizonApi}
use reserve.Api.Channels.{
  ChannelError, Lane, Lease, is_leased, holds_sequence, freed, next_sequence, leased, lease,
  release,
}

-- Every lane of an address holds one lease.
abbrev pub AllHeld : Text → Lease → List Lane → Type 0
AllHeld a l [] = Unit
AllHeld a l (lane ∷ lanes) = (lane.address ≡ a → lane.slot ≡ some l) × AllHeld a l lanes

-- What holds of every address of a pool.
abbrev pub AllAt : (Text → Type 0) → List Lane → Type 0
AllAt P [] = Unit
AllAt P (lane ∷ lanes) = P lane.address × AllAt P lanes

abbrev pub NotIn : Text → List Lane → Type 0
NotIn a lanes = AllAt (λ b. b ≢ a) lanes

abbrev pub IsDistinct : List Lane → Type 0
IsDistinct [] = Unit
IsDistinct (lane ∷ lanes) = NotIn lane.address lanes × IsDistinct lanes

NotIn-AllHeld : (a : Text) (l : Lease) (lanes : List Lane) → NotIn a lanes → AllHeld a l lanes
NotIn-AllHeld a l [] h = tt
NotIn-AllHeld a l (lane ∷ lanes) h = (λ e. absurd (h.0 e), NotIn-AllHeld a l lanes h.1)

-- A lane that is free holds no lease that still runs.
free-other :
    (a : Text) (l : Lease) (now : ℕ) (lane : Lane)
    → now < l.expires_at
    → (lane.address ≡ a → lane.slot ≡ some l)
    → is_leased lane.slot now ≡ false
    → lane.address ≢ a
free-other a l now lane runs held free e =
    let t : is_leased lane.slot now ≡ true = rw (held e) (ground arith) in cc

-- What a lease does at the first lane.
data AtHead (h : HorizonApi) (ttl now : ℕ) (lane : Lane) (lanes : List Lane) : Type 0 where
  passed :
      is_leased lane.slot now ≡ true
      → lease h ttl now (lane ∷ lanes)
        ≡ ((lease h ttl now lanes).0, lane ∷ (lease h ttl now lanes).1)
      → AtHead h ttl now lane lanes
  taken :
      (s : ℤ)
      → is_leased lane.slot now ≡ false
      → lease h ttl now (lane ∷ lanes) ≡ (ok (lane.address, s), leased lane s (now + ttl) ∷ lanes)
      → AtHead h ttl now lane lanes
  failed :
      (e : ChannelError)
      → is_leased lane.slot now ≡ false
      → lease h ttl now (lane ∷ lanes) ≡ (err e, lane ∷ lanes)
      → AtHead h ttl now lane lanes

at_head :
    (h : HorizonApi) (ttl now : ℕ) (lane : Lane) (lanes : List Lane) → AtHead h ttl now lane lanes
unfolding lease
at_head h ttl now lane lanes = elim (Bool-cases (is_leased lane.slot now)) [
  | inl t ↦ passed t (rw t refl)
  | inr f ↦ elim (Result-cases (next_sequence h lane.address)) [
    | inl (s, e) ↦ taken s f (rw (f, e) refl)
    | inr (x, e) ↦ failed x f (rw (f, e) refl)
  ]
]

module _ (h : HorizonApi) (ttl now : ℕ) where
  lease-NotIn :
      (c b : Text) (s : ℤ) (lanes : List Lane)
      → NotIn c lanes
      → (lease h ttl now lanes).0 ≡ ok (b, s)
      → b ≢ c
  unfolding lease
  lease-NotIn c b s [] n e = cc
  lease-NotIn c b s (lane ∷ lanes) n e = elim (at_head h ttl now lane lanes) [
    | passed t q ↦ lease-NotIn c b s lanes n.1 (sym (ap (λ r. r.0) q) ∙ e)
    | taken s' f q ↦
        let same : ◌≡◌ {A = Result ChannelError (Text × ℤ)} (ok (lane.address, s')) (ok (b, s)) =
          sym (ap (λ r. r.0) q) ∙ e in
        λ at. n.0 (let e : lane.address ≡ b = cc in e ∙ at)
    | failed x f q ↦
        let same : ◌≡◌ {A = Result ChannelError (Text × ℤ)} (err x) (ok (b, s)) =
          sym (ap (λ r. r.0) q) ∙ e in
        cc
  ]

  -- The lease that is given is held by every lane of its address.
  lease-AllHeld :
      (b : Text) (s : ℤ) (lanes : List Lane)
      → IsDistinct lanes
      → (lease h ttl now lanes).0 ≡ ok (b, s)
      → AllHeld b (record { sequence = s; expires_at = now + ttl }) (lease h ttl now lanes).1
  unfolding lease
  lease-AllHeld b s [] d e = tt
  lease-AllHeld b s (lane ∷ lanes) d e = elim (at_head h ttl now lane lanes) [
    | passed t q ↦
        let e' = sym (ap (λ r. r.0) q) ∙ e in
        let other = lease-NotIn lane.address b s lanes d.0 e' in
        subst (AllHeld b (record { sequence = s; expires_at = now + ttl })) (sym (ap (λ r. r.1) q))
          (λ at. absurd (other (sym at)), lease-AllHeld b s lanes d.1 e')
    | taken s' f q ↦
        let same : ◌≡◌ {A = Result ChannelError (Text × ℤ)} (ok (lane.address, s')) (ok (b, s)) =
          sym (ap (λ r. r.0) q) ∙ e in
        let at : lane.address ≡ b = cc in
        let number : s' ≡ s = cc in
        subst (AllHeld b (record { sequence = s; expires_at = now + ttl })) (sym (ap (λ r. r.1) q))
          (
            λ a. ap (λ (n : ℤ). some (record { sequence = n; expires_at = now + ttl })) number,
            NotIn-AllHeld b _ lanes (subst (λ c. NotIn c lanes) at d.0),
          )
    | failed x f q ↦
        let same : ◌≡◌ {A = Result ChannelError (Text × ℤ)} (err x) (ok (b, s)) =
          sym (ap (λ r. r.0) q) ∙ e in
        cc
  ]

  -- A lease that runs stays, and its lane is not given out.
  lease-keeps :
      (a : Text) (l : Lease) (lanes : List Lane)
      → now < l.expires_at
      → AllHeld a l lanes
      → AllHeld a l (lease h ttl now lanes).1
  unfolding lease
  lease-keeps a l [] runs held = tt
  lease-keeps a l (lane ∷ lanes) runs held = elim (at_head h ttl now lane lanes) [
    | passed t q ↦
        subst (AllHeld a l) (sym (ap (λ r. r.1) q)) (held.0, lease-keeps a l lanes runs held.1)
    | taken s f q ↦
        subst (AllHeld a l) (sym (ap (λ r. r.1) q))
          (λ at. absurd (free-other a l now lane runs held.0 f at), held.1)
    | failed x f q ↦ subst (AllHeld a l) (sym (ap (λ r. r.1) q)) held
  ]

  lease-other :
      (a b : Text) (s : ℤ) (l : Lease) (lanes : List Lane)
      → now < l.expires_at
      → AllHeld a l lanes
      → (lease h ttl now lanes).0 ≡ ok (b, s)
      → b ≢ a
  unfolding lease
  lease-other a b s l [] runs held e = cc
  lease-other a b s l (lane ∷ lanes) runs held e = elim (at_head h ttl now lane lanes) [
    | passed t q ↦ lease-other a b s l lanes runs held.1 (sym (ap (λ r. r.0) q) ∙ e)
    | taken s' f q ↦
        let same : ◌≡◌ {A = Result ChannelError (Text × ℤ)} (ok (lane.address, s')) (ok (b, s)) =
          sym (ap (λ r. r.0) q) ∙ e in
        λ at. free-other a l now lane runs held.0 f (let e : lane.address ≡ b = cc in e ∙ at)
    | failed x f q ↦
        let same : ◌≡◌ {A = Result ChannelError (Text × ℤ)} (err x) (ok (b, s)) =
          sym (ap (λ r. r.0) q) ∙ e in
        cc
  ]

eqb_ℤ-sound : (a b : ℤ) → eqb_ℤ a b ≡ true → a ≡ b
eqb_ℤ-sound (pos a) (pos b) h = ground arith
eqb_ℤ-sound (pos a) (negsuc b) h = ground arith
eqb_ℤ-sound (negsuc a) (pos b) h = ground arith
eqb_ℤ-sound (negsuc a) (negsuc b) h = ground arith

-- A lane gives up its lease only by the lease's own number.
freed-keeps :
    (lane : Lane) (l : Lease) (s : ℤ) → lane.slot ≡ some l → s ≢ l.sequence → freed lane s ≡ lane
freed-keeps lane l s at other = elim (Bool-cases (eqb_ℤ l.sequence s)) [
  | inl same ↦ absurd (other (sym (eqb_ℤ-sound l.sequence s same)))
  | inr no_match ↦
      let e : holds_sequence lane.slot s ≡ false = ap (λ o. holds_sequence o s) at ∙ no_match in
      ap (λ t. if t then record lane { slot = none } else lane) e
]

freed-AllHeld :
    (a b : Text) (s : ℤ) (l : Lease) (lane : Lane)
    → (b ≡ a → s ≢ l.sequence)
    → lane.address ≡ b
    → (lane.address ≡ a → lane.slot ≡ some l)
    → (freed lane s).address ≡ a
    → (freed lane s).slot ≡ some l
freed-AllHeld a b s l lane other here held at =
    let same : lane.address ≡ a = sym (freed_address lane s) ∙ at in
    ap (λ (x : Lane). x.slot) (freed-keeps lane l s (held same) (other (sym here ∙ same)))
    ∙ held same
  where
    freed_address : (lane : Lane) (s : ℤ) → (freed lane s).address ≡ lane.address
    freed_address lane s = elim (Bool-cases (holds_sequence lane.slot s)) [
      | inl e ↦ rw e refl
      | inr e ↦ rw e refl
    ]

release-keeps :
    (a b : Text) (s : ℤ) (l : Lease) (lanes : List Lane)
    → (b ≡ a → s ≢ l.sequence)
    → AllHeld a l lanes
    → AllHeld a l (release b s lanes)
unfolding release
release-keeps a b s l [] other held = tt
release-keeps a b s l (lane ∷ lanes) other held = elim (Bool-cases (text_eq lane.address b)) [
  | inr f ↦
      subst (AllHeld a l)
        (sym (ap (λ t. if t then freed lane s ∷ lanes else lane ∷ release b s lanes) f))
        (held.0, release-keeps a b s l lanes other held.1)
  | inl t ↦
      subst (AllHeld a l)
        (sym (ap (λ t. if t then freed lane s ∷ lanes else lane ∷ release b s lanes) t))
        (freed-AllHeld a b s l lane other (text_eq→eq lane.address b t) held.0, held.1)
]

-- The calls on a pool while the lease `s` of the address `a` is not released, and the passing of time.
pub data Run (a : Text) (s : ℤ) : ℕ → List Lane → ℕ → List Lane → Type 0 where
  done : (now : ℕ) (lanes : List Lane) → Run a s now lanes now lanes
  waits :
      {t t' : ℕ} {before after : List Lane} (n : ℕ)
      → Run a s t before t' after
      → Run a s t before (t' + n) after
  leases :
      {t t' : ℕ} {before after : List Lane} (h : HorizonApi) (ttl : ℕ)
      → Run a s t before t' after
      → Run a s t before t' (lease h ttl t' after).1
  releases :
      {t t' : ℕ} {before after : List Lane} (b : Text) (s' : ℤ)
      → (b ≡ a → s' ≢ s)
      → Run a s t before t' after
      → Run a s t before t' (release b s' after)

Run-AllHeld :
    (a : Text) (l : Lease) {t t' : ℕ} {before after : List Lane}
    → Run a l.sequence t before t' after
    → t' < l.expires_at
    → AllHeld a l before
    → AllHeld a l after
Run-AllHeld a l (done now lanes) runs held = held
Run-AllHeld a l (waits n r) runs held = Run-AllHeld a l r (omega arith) held
Run-AllHeld a l (leases {t' = t'} {after = after} h ttl r) runs held =
    lease-keeps h ttl t' a l after runs (Run-AllHeld a l r runs held)
Run-AllHeld a l (releases {after = after} b s' other r) runs held =
    release-keeps a b s' l after other (Run-AllHeld a l r runs held)

-- In a pool of distinct addresses, a lane that is leased is not leased again before the lease runs out,
-- whatever leases and releases come between, so long as none releases this lease.
pub lease_exclusive :
    (h h' : HorizonApi) (ttl ttl' now now' : ℕ) (lanes lanes' : List Lane) (a b : Text) (s s' : ℤ)
    → IsDistinct lanes
    → (lease h ttl now lanes).0 ≡ ok (a, s)
    → Run a s now (lease h ttl now lanes).1 now' lanes'
    → now' < now + ttl
    → (lease h' ttl' now' lanes').0 ≡ ok (b, s')
    → b ≢ a
lease_exclusive h h' ttl ttl' now now' lanes lanes' a b s s' distinct first run runs second =
    let l : Lease = record { sequence = s; expires_at = now + ttl } in
    lease-other h' ttl' now' a b s' l lanes' runs
      (Run-AllHeld a l run runs (lease-AllHeld h ttl now a s lanes distinct first)) second
