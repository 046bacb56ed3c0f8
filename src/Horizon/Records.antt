-- ===== src/Horizon/Records.antt =====
-- crates/horizon/src/types.rs and client.rs: the records that Horizon answers with, and the calls
-- that the service makes.
use reserve.Base.{
  ℕ, Bool, ◌&&◌, ◌||◌, List, [], ◌∷◌, Option, none, some, if◌then◌else◌, ℤ, Text, text, text_eq,
  parse_i64, Result,
}
use reserve.Horizon.Error.{Error}
use reserve.Horizon.Amount.{parse_amount_stroops}
use reserve.Horizon.Asset.{Asset, PathHop}
use reserve.Horizon.Predicate.{Predicate, holds}
use reserve.Horizon.Time.{parse_rfc3339_utc}

pub record AccountBalance : Type 0 where
  pub balance : Text
  pub asset_type : Text
  pub asset_code : Option Text
  pub asset_issuer : Option Text

pub record Account : Type 0 where
  pub id : Text
  pub sequence : Text
  pub subentry_count : ℕ
  pub num_sponsoring : ℕ
  pub num_sponsored : ℕ
  pub balances : List AccountBalance

unfoldable pub sequence_i64 : Account → Option ℤ
sequence_i64 a = parse_i64 a.sequence

-- The first balance of the type `native`.
unfoldable pub native_balance : List AccountBalance → Option ℤ
native_balance [] = none
native_balance (b ∷ bs) =
    let rest = native_balance bs in
    if text_eq b.asset_type (text "native") then parse_amount_stroops b.balance else rest

unfoldable pub native_balance_stroops : Account → Option ℤ
unfolding native_balance
native_balance_stroops a = native_balance a.balances

pub record PathRecord : Type 0 where
  pub source_amount : Text
  pub destination_amount : Text
  pub source_asset_type : Text
  pub source_asset_code : Option Text
  pub source_asset_issuer : Option Text
  pub path : List PathHop

unfoldable pub source_amount_stroops : PathRecord → Option ℤ
source_amount_stroops r = parse_amount_stroops r.source_amount

pub record FeeBucket : Type 0 where
  pub min : Text
  pub mode : Text
  pub p50 : Text
  pub p90 : Text
  pub p99 : Text

pub record FeeStats : Type 0 where
  pub last_ledger_base_fee : Text
  pub fee_charged : FeeBucket

pub record Ledger : Type 0 where
  pub sequence : ℕ
  pub base_fee_in_stroops : ℤ
  pub base_reserve_in_stroops : ℤ

pub record TransactionRecord : Type 0 where
  pub hash : Text
  pub ledger : ℕ
  pub successful : Bool

pub record Claimant : Type 0 where
  pub destination : Text
  pub predicate : Predicate

pub record ClaimableBalance : Type 0 where
  pub id : Text
  pub asset : Text
  pub amount : Text
  pub claimants : List Claimant
  pub last_modified_time : Option Text

unfoldable pub amount_stroops : ClaimableBalance → Option ℤ
amount_stroops b = parse_amount_stroops b.amount

-- `claimants.iter().any(…)`
unfoldable pub any_claims : List Claimant → Text → ℤ → Option ℤ → Bool
any_claims [] address now created = Bool.false
any_claims (c ∷ cs) address now created =
    text_eq c.destination address && holds c.predicate now created
    || any_claims cs address now created

abbrev created_at : Option Text → Option ℤ
created_at none = none
created_at (some stamp) = parse_rfc3339_utc stamp

unfoldable pub claimable_by : ClaimableBalance → Text → ℤ → Bool
unfolding any_claims
claimable_by b address now = any_claims b.claimants address now (created_at b.last_modified_time)

pub record SubmitResponse : Type 0 where
  pub hash : Text
  pub ledger : Option ℕ
  pub successful : Option Bool

-- `trait HorizonApi`: what the network answers to each call. A value of this record is Horizon at one
-- moment.
pub record HorizonApi : Type 0 where
  pub account : Text → Result Error (Option Account)
  pub strict_receive_paths : Text → List Asset → Asset → ℤ → Result Error (List PathRecord)
  pub fee_stats : Result Error FeeStats
  pub latest_ledger : Result Error Ledger
  pub submit : Text → Result Error SubmitResponse
  pub transaction : Text → Result Error (Option TransactionRecord)
  pub claimable_balance : Text → Result Error (Option ClaimableBalance)
