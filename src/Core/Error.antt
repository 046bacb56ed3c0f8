-- ===== src/Core/Error.antt =====
-- crates/core/src/lib.rs: the errors of the domain logic. A constructor's text is the message's
-- variable part.
use reserve.Base.{ℕ, ◌≡◌, Text, Result, ok, err}
use reserve.Horizon.Error as Horizon

pub data Error : Type 0 where
  asset : Text → Error
  account : Text → Error
  amount : Text → Error
  no_path : Text → Error
  quote_expired : ℕ → Error
  quote_signature : Error
  mismatch : Text → Error
  unclaimable : Text → Error
  path_moved : Text → Error
  unsupported : Text → Error
  xdr : Text → Error
  horizon : Horizon.Error → Error

-- `?` on a call of Horizon: `#[from] reserve_horizon::Error`.
abbrev pub from_horizon : {A : Type 0} → Result Horizon.Error A → Result Error A
from_horizon (ok a) = ok a
from_horizon (err e) = err (horizon e)

pub from_horizon-eq-ok :
    {A : Type 0} (r : Result Horizon.Error A) {a : A} → from_horizon r ≡ ok a → r ≡ ok a
from_horizon-eq-ok (ok b) h = cc
from_horizon-eq-ok (err e) h = cc
