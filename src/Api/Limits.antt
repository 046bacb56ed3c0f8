-- ===== src/Api/Limits.antt =====
-- crates/api/src/limits.rs: budgets of requests, by caller and in all.
pub mod Order
mod Examples
use reserve.Base.{
  ℕ, ◌-◌, Bool, true, false, List, [], ◌∷◌, ◌++◌, take, drop, replicate, text_eq, max,
  if◌then◌else◌, Text, text,
}

-- `std::net::IpAddr`, by its octets: 4 of a version 4 address, 16 of a version 6 one.
pub data IpAddr : Type 0 where
  v4 : List ℕ → IpAddr
  v6 : List ℕ → IpAddr

pub data Caller : Type 0 where
  key : Text → Caller
  anonymous : IpAddr → Caller

abbrev pub octets : IpAddr → List ℕ
octets (v4 o) = o
octets (v6 o) = o

-- `to_ipv4_mapped` tests for ten octets of zero and two of ones.
abbrev pub mapped_prefix : List ℕ
mapped_prefix = 0 ∷ 0 ∷ 0 ∷ 0 ∷ 0 ∷ 0 ∷ 0 ∷ 0 ∷ 0 ∷ 0 ∷ 255 ∷ 255 ∷ []

unfoldable pub bucket_ip : IpAddr → IpAddr
bucket_ip (v4 o) = v4 o
bucket_ip (v6 o) =
    if text_eq (take 12 o) mapped_prefix then v4 (drop 12 o) else v6 (take 8 o ++ replicate 8 0)

pub record LimitsConfig : Type 0 where
  pub anon_per_minute : ℕ
  pub keyed_per_minute : ℕ
  pub global_per_minute : ℕ

-- `impl Default for LimitsConfig`
abbrev pub default_limits : LimitsConfig
default_limits = record { anon_per_minute = 30; keyed_per_minute = 600; global_per_minute = 3_000 }

pub data Decision : Type 0 where
  allow : Decision
  deny : ℕ → Text → Decision

-- The limiters of the crate `governor`: a limiter for `n` requests a minute with a burst of as many, a
-- check of a key's budget (an address by its octets), which takes from it when it allows, and the removal of quiet keys.
pub record Governor : Type 1 where
  pub Store : Type 0
  pub limiter : ℕ → Store
  pub check_key : Store → Text → Bool × Store
  pub retain_recent : Store → Store

-- `per_minute.max(1)`
abbrev pub quota : ℕ → ℕ
quota per_minute = max per_minute 1

module _ (g : Governor) where
  pub record Limits : Type 0 where
    pub keyed : g.Store
    pub anonymous_store : g.Store
    pub global : g.Store
    pub config : LimitsConfig

  unfoldable pub limits_new : LimitsConfig → Limits
  limits_new config = record {
    keyed = g.limiter (quota config.keyed_per_minute);
    anonymous_store = g.limiter (quota config.anon_per_minute);
    global = g.limiter (quota config.global_per_minute);
    config = config;
  }

  -- The check of a caller's own budget.
  unfoldable pub check_caller : Limits → Caller → Bool × Limits
  check_caller l (key k) =
      let (allowed, store) = g.check_key l.keyed k in (allowed, record l { keyed = store })
  check_caller l (anonymous ip) =
      let (allowed, store) = g.check_key l.anonymous_store (octets ip) in
      (allowed, record l { anonymous_store = store })

  -- The global limiter has one budget, at the empty key.
  unfoldable pub check : Limits → Caller → Decision × Limits
  check l caller =
      let (allowed, l') = check_caller l caller in
      let (room, store) = g.check_key l'.global (text "") in
      if allowed
      then (
        if room then allow else deny 5 (text "the service is at capacity"),
        record l' { global = store },
      )
      else (deny 60 (text "too many requests"), l')

  unfoldable pub prune : Limits → Limits
  prune l = record l {
    keyed = g.retain_recent l.keyed;
    anonymous_store = g.retain_recent l.anonymous_store;
  }
