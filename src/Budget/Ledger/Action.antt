-- ===== src/Budget/Ledger/Action.antt =====
-- A method under the lock: an early return by `?` keeps what has been written so far.
use jingwei.Base.{Bool, Option, none, some, if◌then◌else◌}
use jingwei.Budget.Ledger.{BudgetError, State}

-- `panicked`: a checked operator of `Duration` has failed.
pub data Outcome {ℓ} (A : Type ℓ) : Type ℓ where
  ok : A → Outcome A
  err : BudgetError → Outcome A
  panicked : Outcome A

abbrev pub Action {ℓ} : Type ℓ → Type ℓ
Action A = State → Outcome A × State

module _ {ℓ} {A : Type ℓ} where
  abbrev pub then_outcome {κ} :
      {B : Type κ} → Outcome A × State → (A → Action B) → Outcome B × State
  then_outcome (ok a, s) f = f a s
  then_outcome (err e, s) f = (err e, s)
  then_outcome (panicked, s) f = (panicked, s)

  abbrev pub pure : A → Action A
  pure a s = (ok a, s)

  abbrev pub fail : BudgetError → Action A
  fail e s = (err e, s)

  -- `m.ok_or(e)?`.
  abbrev pub ok_or : Option A → BudgetError → Action A
  ok_or none e s = (err e, s)
  ok_or (some a) e s = (ok a, s)

  -- A check that reads the state and writes nothing.
  abbrev pub lift : (State → Outcome A) → Action A
  lift f s = (f s, s)

infixl 5 ◌>>=◌ ◌>>◌
abbrev pub ◌>>=◌ {ℓ κ} : {A : Type ℓ} {B : Type κ} → Action A → (A → Action B) → Action B
◌>>=◌ m f s = then_outcome (m s) f

abbrev pub ◌>>◌ {ℓ κ} : {A : Type ℓ} {B : Type κ} → Action A → Action B → Action B
m >> k = m >>= λ _. k

abbrev pub gets {ℓ} : {A : Type ℓ} → (State → A) → Action A
gets f s = (Outcome.ok (f s), s)

abbrev pub modify : (State → State) → Action (Unit {0})
modify f s = (Outcome.ok tt, f s)

-- `if test { return Err(e); }`.
abbrev pub fail_if : Bool → BudgetError → Action (Unit {0})
fail_if test e s = (if test then Outcome.err e else Outcome.ok tt, s)
