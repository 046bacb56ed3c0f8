-- ===== src/Api/Action.antt =====
-- What a handler does to the service: an answer and the state behind it. The state comes back behind an
-- error too.
use reserve.Base.{◌≡◌, refl, Bool, true, false, Result, ok, err}
use reserve.Api.Error.{ApiError}

abbrev pub Action : Type 0 → Type 0 → Type 0
Action State A = State → Result ApiError A × State

module _ {State A : Type 0} where
  abbrev pub pure : A → Action State A
  pure a s = (ok a, s)

  abbrev pub lift : Result ApiError A → Action State A
  lift answer s = (answer, s)

  abbrev pub raise : ApiError → Action State A
  raise e s = (err e, s)

  abbrev pub gets : (State → A) → Action State A
  gets f s = (ok (f s), s)

module _ {State : Type 0} where
  abbrev pub modify : (State → State) → Action State (Unit {0})
  modify f s = (ok tt, f s)

  abbrev pub raise_if : Bool → ApiError → Action State (Unit {0})
  raise_if true e s = (err e, s)
  raise_if false e s = (ok tt, s)

module _ {State A B : Type 0} where
  abbrev pub and_then : Result ApiError A × State → (A → Action State B) → Result ApiError B × State
  and_then (ok a, s) next = next a s
  and_then (err e, s) next = (err e, s)

infixl 5 ◌>>=◌ ◌>>◌
abbrev pub ◌>>=◌ : {State A B : Type 0} → Action State A → (A → Action State B) → Action State B
◌>>=◌ first next s = and_then (first s) next

abbrev pub ◌>>◌ : {State B : Type 0} → Action State (Unit {0}) → Action State B → Action State B
◌>>◌ first next s = and_then (first s) (λ u. next)

-- What holds of both ways on holds of an action followed by another.
pub and_then-elim :
    {State A B : Type 0} (done : Result ApiError A × State) (next : A → Action State B)
    (P : Result ApiError B × State → Type 0)
    → ((e : ApiError) → done.0 ≡ err e → P (err e, done.1))
    → ((a : A) → done.0 ≡ ok a → P (next a done.1))
    → P (and_then done next)
and_then-elim (ok a, s) next P failed went = went a refl
and_then-elim (err e, s) next P failed went = failed e refl
