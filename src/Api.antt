-- ===== src/Api.antt =====
-- crates/api: the HTTP service.
pub mod Channels
pub mod Apikey
pub mod Limits
pub mod Config
pub mod Auth
pub mod Metrics
pub mod Error
pub mod Action
pub mod State
pub mod Caller
pub mod Quoting
pub mod Submit
pub mod Issue
pub mod Reads
pub mod Service
pub mod Samples
