-- ===== src/Core/Xdr.antt =====
-- The values of the `stellar_xdr` crate that the service builds and reads, with the fields that
-- crates/core/src/build.rs writes. Keys and hashes are their bytes.
use reserve.Base.{ℕ, List, Option, ℤ, Text}

abbrev pub AccountId : Type 0
AccountId = Text

-- `med25519` is a multiplexed account, which the service reads and never builds.
pub data MuxedAccount : Type 0 where
  ed25519 : Text → MuxedAccount
  med25519 : ℕ → Text → MuxedAccount

pub data Asset : Type 0 where
  native : Asset
  alphanum4 : Text → AccountId → Asset
  alphanum12 : Text → AccountId → Asset

pub data ChangeTrustAsset : Type 0 where
  native : ChangeTrustAsset
  alphanum4 : Text → AccountId → ChangeTrustAsset
  alphanum12 : Text → AccountId → ChangeTrustAsset

-- The two predicates that the service writes.
pub data ClaimPredicate : Type 0 where
  unconditional : ClaimPredicate
  not_before_relative_time : ℤ → ClaimPredicate

pub record Claimant : Type 0 where
  pub destination : AccountId
  pub predicate : ClaimPredicate

-- `other` is any operation that the service never builds, by its encoding.
pub data OperationBody : Type 0 where
  begin_sponsoring_future_reserves : AccountId → OperationBody
  end_sponsoring_future_reserves : OperationBody
  create_account : AccountId → ℤ → OperationBody
  payment : MuxedAccount → Asset → ℤ → OperationBody
  path_payment_strict_send : Asset → ℤ → MuxedAccount → Asset → ℤ → List Asset → OperationBody
  path_payment_strict_receive : Asset → ℤ → MuxedAccount → Asset → ℤ → List Asset → OperationBody
  claim_claimable_balance : Text → OperationBody
  change_trust : ChangeTrustAsset → ℤ → OperationBody
  create_claimable_balance : Asset → ℤ → List Claimant → OperationBody
  manage_data : Text → Option Text → OperationBody
  other : Text → OperationBody

pub record Operation : Type 0 where
  pub source_account : Option MuxedAccount
  pub body : OperationBody

-- `time` is the one that the service writes; `other` any other, by its encoding.
pub data Preconditions : Type 0 where
  time : ℕ → ℕ → Preconditions
  other : Text → Preconditions

pub data Memo : Type 0 where
  none : Memo
  other : Text → Memo

pub data TransactionExt : Type 0 where
  v0 : TransactionExt
  other : Text → TransactionExt

pub record Transaction : Type 0 where
  pub source_account : MuxedAccount
  pub fee : ℕ
  pub seq_num : ℤ
  pub cond : Preconditions
  pub memo : Memo
  pub operations : List Operation
  pub ext : TransactionExt

pub record DecoratedSignature : Type 0 where
  pub hint : Text
  pub signature : Text

pub record TransactionV1Envelope : Type 0 where
  pub tx : Transaction
  pub signatures : List DecoratedSignature

pub record FeeBumpTransaction : Type 0 where
  pub fee_source : MuxedAccount
  pub fee : ℤ
  pub inner_tx : TransactionV1Envelope
  pub ext : TransactionExt

pub record FeeBumpTransactionEnvelope : Type 0 where
  pub tx : FeeBumpTransaction
  pub signatures : List DecoratedSignature

-- `tx_v0` is the old form of an envelope, by its encoding.
pub data TransactionEnvelope : Type 0 where
  tx_v0 : Text → TransactionEnvelope
  tx : TransactionV1Envelope → TransactionEnvelope
  tx_fee_bump : FeeBumpTransactionEnvelope → TransactionEnvelope
