-- ===== src/Api/Channels.antt =====
-- crates/api/src/channels.rs: the lanes that source bootstrap transactions, one quote in flight on each.
-- An `Instant` is a number of ticks of the monotonic clock.
pub mod Take
pub mod Exclusive
pub mod Spec
pub mod Refine
pub mod Progress
mod Examples
use reserve.Base.{
  ℕ, ◌+◌, Bool, true, false, List, [], ◌∷◌, map, Option, none, some, ltb, if◌then◌else◌, length, ℤ,
  pos, eqb_ℤ, wrapping_add, Text, text_eq, Result, ok, err, ok_or, ◌>>=◌,
}
use reserve.Horizon.Error as Horizon
use reserve.Horizon.Records.{HorizonApi, Account, sequence_i64}
use reserve.Signer.{Sponsor}

pub data ChannelError : Type 0 where
  busy : ChannelError
  missing : Text → ChannelError
  horizon : Horizon.Error → ChannelError

pub record Lease : Type 0 where
  pub sequence : ℤ
  pub expires_at : ℕ

pub record Lane : Type 0 where
  pub key : Sponsor
  pub address : Text
  pub slot : Option Lease

-- `ChannelPool::new`, by the addresses of the keys.
unfoldable pub pool_new : (Sponsor → Text) → List Sponsor → List Lane
pool_new address_of keys =
    map (λ key. record { key = key; address = address_of key; slot = none }) keys

unfoldable pub signer : List Lane → Text → Option Sponsor
signer [] address = none
signer (lane ∷ lanes) address =
    let rest = signer lanes address in if text_eq lane.address address then some lane.key else rest

-- `slot.as_ref().is_some_and(|l| l.expires_at > now)`
abbrev pub is_leased : Option Lease → ℕ → Bool
is_leased none now = false
is_leased (some l) now = ltb now l.expires_at

abbrev pub from_horizon : {A : Type 0} → Result Horizon.Error A → Result ChannelError A
from_horizon (ok a) = ok a
from_horizon (err e) = err (horizon e)

-- The next sequence number of a lane.
unfoldable pub next_sequence : HorizonApi → Text → Result ChannelError ℤ
next_sequence h address = do
  answer ← from_horizon (h.account address)
  account ← ok_or answer (missing address)
  sequence ← ok_or (sequence_i64 account) (missing address)
  ok (wrapping_add sequence (pos 1))

abbrev pub leased : Lane → ℤ → ℕ → Lane
leased lane sequence expires_at = record lane {
  slot = some (record { sequence = sequence; expires_at = expires_at });
}

-- `lease`: the answer and the lanes behind it. The loop returns at the first lane that is free, with its
-- number or with an error, and an error changes no lane.
unfoldable pub lease : HorizonApi → ℕ → ℕ → List Lane → Result ChannelError (Text × ℤ) × List Lane
lease h ttl now [] = (err busy, [])
lease h ttl now (lane ∷ lanes) =
    let rest = lease h ttl now lanes in
    if is_leased lane.slot now
    then (rest.0, lane ∷ rest.1)
    else elim (next_sequence h lane.address) [
      | err e ↦ (err e, lane ∷ lanes)
      | ok sequence ↦ (ok (lane.address, sequence), leased lane sequence (now + ttl) ∷ lanes)
    ]

-- `slot.as_ref().is_some_and(|l| l.sequence == sequence)`
abbrev pub holds_sequence : Option Lease → ℤ → Bool
holds_sequence none sequence = false
holds_sequence (some l) sequence = eqb_ℤ l.sequence sequence

abbrev pub freed : Lane → ℤ → Lane
freed lane sequence =
    if holds_sequence lane.slot sequence then record lane { slot = none } else lane

unfoldable pub release : Text → ℤ → List Lane → List Lane
release address sequence [] = []
release address sequence (lane ∷ lanes) =
    let rest = release address sequence lanes in
    if text_eq lane.address address then freed lane sequence ∷ lanes else lane ∷ rest
