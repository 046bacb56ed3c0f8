-- ===== src/Horizon.antt =====
-- crates/horizon: what Horizon answers, read into the types that the service computes with.
pub mod Amount
pub mod Asset
pub mod Time
pub mod Predicate
pub mod Error
pub mod Records
pub mod Client
