-- ===== src/Base/Outcome.antt =====
-- Errors as values, with `do`.
use mathlib.Core.Path.{◌≡◌, refl}
use mathlib.Core.Bool.{Bool, true, false}
use mathlib.Core.Logic.{◌⊎◌, inl, inr}
use mathlib.Core.Option.{Option, none, some}

-- Rust's `Result<A, E>`, its arguments the other way round.
pub data Result {κ} (Failure : Type 0) (Success : Type κ) : Type κ where
  err : Failure → Result Failure Success
  ok : Success → Result Failure Success

-- `Option::ok_or`.
abbrev pub ok_or {ℓ} : {E : Type 0} {A : Type ℓ} → Option A → E → Result E A
ok_or none e = err e
ok_or (some a) e = ok a

-- `if test { return Err(e) }`
abbrev pub fail_if : {E : Type 0} → Bool → E → Result E (Unit {0})
fail_if true e = err e
fail_if false e = ok tt

-- The operator `?`, and what a `do` block does between two lines.
infixl 5 ◌>>=◌ ◌>>◌
abbrev pub ◌>>=◌ {ℓ κ} :
    {Failure : Type 0} {First : Type ℓ} {Next : Type κ}
    → Result Failure First
    → (First → Result Failure Next)
    → Result Failure Next
err failure >>= next = err failure
ok first >>= next = next first

abbrev pub ◌>>◌ {κ} :
    {Failure : Type 0} {Next : Type κ}
    → Result Failure (Unit {0})
    → Result Failure Next
    → Result Failure Next
test >> next = test >>= λ passed. next

pub >>=-eq-ok {ℓ κ} :
    {Failure : Type 0} {First : Type ℓ} {Next : Type κ} (test : Result Failure First)
    (next : First → Result Failure Next) {b : Next}
    → (test >>= next) ≡ ok b
    → (found : First) × (test ≡ ok found) × (next found ≡ ok b)
>>=-eq-ok (err failure) next h = cc
>>=-eq-ok (ok found) next h = (found, refl, h)

pub Result-cases {ℓ} :
    {E : Type 0} {A : Type ℓ} (m : Result E A) → ((a : A) × (m ≡ ok a)) ⊎ ((e : E) × (m ≡ err e))
Result-cases (ok a) = inl (a, refl)
Result-cases (err e) = inr (e, refl)

pub ok_or-eq-ok {ℓ} :
    {E : Type 0} {A : Type ℓ} (o : Option A) (e : E) {a : A} → ok_or o e ≡ ok a → o ≡ some a
ok_or-eq-ok none e h = cc
ok_or-eq-ok (some b) e h = cc

pub fail_if-eq-ok :
    {E : Type 0} (test : Bool) (e : E) {u : Unit {0}} → fail_if test e ≡ ok u → test ≡ false
fail_if-eq-ok true e h = cc
fail_if-eq-ok false e h = refl
