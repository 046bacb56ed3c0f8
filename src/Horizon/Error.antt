-- ===== src/Horizon/Error.antt =====
-- crates/horizon/src/lib.rs: what a call of Horizon fails with.
use reserve.Base.{ℕ, Text}

-- The text of `http` is that of the HTTP client's error.
pub data Error : Type 0 where
  http : Text → Error
  api : ℕ → Text → Error
  not_found : Text → Error
  decode : Text → Error
