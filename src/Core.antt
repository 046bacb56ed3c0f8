-- ===== src/Core.antt =====
-- crates/core: planning, pricing, building and validating the transactions that the service sponsors.
pub mod Error
pub mod Xdr
pub mod Asset
pub mod Samples
pub mod Balance
pub mod Tokens
pub mod Plan
pub mod Quote
pub mod Numeric
pub mod Claim
pub mod Path
pub mod Build
pub mod Validate
pub mod Pricing
