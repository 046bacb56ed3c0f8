-- ===== src/Api/Channels/Take.antt =====
-- What a lease takes.
use reserve.Base.{
  none, some, Option-cases, pos, wrap_i64, wrapping_add, ◌+ℤ◌, parse_i64, sym, ℕ, ◌+◌, ◌≡◌, ◌⊎◌,
  inl, inr, refl, ap, ◌∙◌, true, false, List, [], ◌∷◌, ◌++◌, ℤ, Text, Result, ok, err, Bool-cases,
  Result-cases,
}
use reserve.Horizon.Error as Horizon
use reserve.Horizon.Records.{HorizonApi, Account, sequence_i64}
use reserve.Api.Channels.{
  ChannelError, busy, missing, Lane, is_leased, next_sequence, leased, lease,
}

-- Every lane has a quote in flight.
abbrev pub AllLeased : ℕ → List Lane → Type 0
AllLeased now [] = Unit
AllLeased now (lane ∷ lanes) = (is_leased lane.slot now ≡ true) × AllLeased now lanes

-- The first lane that is free.
pub record FirstFree (now : ℕ) (lanes : List Lane) : Type 0 where
  pub before : List Lane
  pub lane : Lane
  pub after : List Lane
  pub place : lanes ≡ before ++ lane ∷ after
  pub taken : AllLeased now before
  pub free : is_leased lane.slot now ≡ false

pub first_free : (now : ℕ) (lanes : List Lane) → AllLeased now lanes ⊎ FirstFree now lanes
first_free now [] = inl tt
first_free now (lane ∷ lanes) = elim (Bool-cases (is_leased lane.slot now)) [
  | inl t ↦ elim (first_free now lanes) [
    | inl all ↦ inl (t, all)
    | inr f ↦ inr (record {
      before = lane ∷ f.before;
      lane = f.lane;
      after = f.after;
      place = ap (λ (ls : List Lane). lane ∷ ls) f.place;
      taken = (t, f.taken);
      free = f.free;
    })
  ]
  | inr e ↦
      inr (record { before = []; lane = lane; after = lanes; place = refl; taken = tt; free = e })
]

module _ (h : HorizonApi) (ttl now : ℕ) where
  lease-all : (lanes : List Lane) → AllLeased now lanes → lease h ttl now lanes ≡ (err busy, lanes)
  unfolding lease
  lease-all [] all = refl
  lease-all (lane ∷ lanes) all = rw (all.0, lease-all lanes all.1) refl

  -- The answer of the first free lane.
  abbrev pub taken_by :
      List Lane
      → Lane
      → List Lane
      → Result ChannelError ℤ
      → Result ChannelError (Text × ℤ) × List Lane
  taken_by before lane after (ok sequence) =
      (ok (lane.address, sequence), before ++ leased lane sequence (now + ttl) ∷ after)
  taken_by before lane after (err e) = (err e, before ++ lane ∷ after)

  lease-free :
      (before after : List Lane) (lane : Lane)
      → AllLeased now before
      → is_leased lane.slot now ≡ false
      → lease h ttl now (before ++ lane ∷ after)
        ≡ taken_by before lane after (next_sequence h lane.address)
  unfolding lease
  lease-free [] after lane all free = elim (Result-cases (next_sequence h lane.address)) [
    | inl (sequence, e) ↦ rw (free, e) refl
    | inr (e, f) ↦ rw (free, f) refl
  ]
  lease-free (b ∷ before) after lane all free = elim (Result-cases (next_sequence h lane.address)) [
    | inl (sequence, e) ↦ rw (all.0, lease-free before after lane all.1 free, e) refl
    | inr (e, f) ↦ rw (all.0, lease-free before after lane all.1 free, f) refl
  ]

  -- What a lane's next number comes from: the sequence number of its account, or why there is none.
  abbrev pub IsNumber : Text → ℤ → Type 0
  IsNumber address n =
      (account : Account) × (h.account address ≡ ok (some account))
      × (parse_i64 account.sequence ≡ some n)

  abbrev pub IsFailure : Text → ChannelError → Type 0
  IsFailure address error =
      ((e : Horizon.Error) × (h.account address ≡ err e) × (error ≡ ChannelError.horizon e))
      ⊎ (h.account address ≡ ok none) × (error ≡ missing address)
      ⊎ ((account : Account) × (h.account address ≡ ok (some account))
          × (parse_i64 account.sequence ≡ none)
          × (error ≡ missing address))

  next_sequence-cases :
      (address : Text)
      → ((n : ℤ) × IsNumber address n × (next_sequence h address ≡ ok (wrap_i64 (n +ℤ pos 1))))
        ⊎ ((error : ChannelError) × IsFailure address error × (next_sequence h address ≡ err error))
  unfolding next_sequence sequence_i64 wrapping_add
  next_sequence-cases address = elim (Result-cases (h.account address)) [
    | inr (e, read) ↦ inr (_, inl (e, read, refl), rw read refl)
    | inl (none, read) ↦ inr (_, inr (inl (read, refl)), rw read refl)
    | inl (some account, read) ↦ elim (Option-cases (parse_i64 account.sequence)) [
      | inl e ↦ inr (_, inr (inr (account, read, e, refl)), rw (read, e) refl)
      | inr (n, e) ↦ inl (n, (account, read, e), rw (read, e) refl)
    ]
  ]

  -- The first free lane, leased for the number after its account's, in 64 bits; or an error, and the lanes
  -- as they were.
  abbrev pub Takes :
      (lanes : List Lane)
      → FirstFree now lanes
      → Result ChannelError (Text × ℤ) × List Lane
      → Type 0
  Takes lanes f x =
      ((n : ℤ) × IsNumber f.lane.address n
        × (x ≡ (
          ok (f.lane.address, wrap_i64 (n +ℤ pos 1)),
          f.before
              ++ record f.lane {
                slot = some (record { sequence = wrap_i64 (n +ℤ pos 1); expires_at = now + ttl });
              }
                ∷ f.after,
        )))
      ⊎ ((error : ChannelError) × IsFailure f.lane.address error × (x ≡ (err error, lanes)))

  lease-Takes :
      (lanes : List Lane) (f : FirstFree now lanes) → Takes lanes f (lease h ttl now lanes)
  lease-Takes lanes f =
      let out = ap (lease h ttl now) f.place ∙ lease-free f.before f.after f.lane f.taken f.free in
      elim (next_sequence-cases f.lane.address) [
        | inl (n, number, e) ↦ inl (n, number, out ∙ ap (taken_by f.before f.lane f.after) e)
        | inr (error, failure, e) ↦ inr (
          error,
          failure,
          out
              ∙ ap (taken_by f.before f.lane f.after) e
              ∙ ap (λ (ls : List Lane). (err error, ls)) (sym f.place),
        )
      ]

  -- A lease is refused as busy, with no lane changed, if every lane has a quote in flight. Else it takes
  -- the first free lane, and nothing of the others, until the time to live is over, with the number after
  -- the one that Horizon shows for the account, which wraps in 64 bits; or it reports Horizon's error, or that the account is
  -- missing where Horizon has none or shows no number for it, and changes no lane.
  pub lease_lem :
      (lanes : List Lane)
      → (AllLeased now lanes × (lease h ttl now lanes ≡ (err busy, lanes)))
        ⊎ ((f : FirstFree now lanes) × Takes lanes f (lease h ttl now lanes))
  lease_lem lanes = elim (first_free now lanes) [
    | inl all ↦ inl (all, lease-all lanes all)
    | inr f ↦ inr (f, lease-Takes lanes f)
  ]
