-- ===== src/Budget/Invariant/Ensures.antt =====
-- Postconditions of actions: `E` after an error, `Q` after a result, and no panic.
use jingwei.Base.{◌≢◌}
use jingwei.Budget.Ledger.{State}
use jingwei.Budget.Ledger.Action.{Outcome, ok, err, panicked, Action, then_outcome}

abbrev pub Ensures {ℓ} :
    {A : Type ℓ} → (State → Type 0) → (A → State → Type 0) → Outcome A × State → Type 0
Ensures E Q (ok a, s) = Q a s
Ensures E Q (err e, s) = E s
Ensures E Q (panicked, s) = ⊥

pub then-Ensures {ℓ κ} :
    {A : Type ℓ} {B : Type κ} (E : State → Type 0) (Q : A → State → Type 0) (R : B → State → Type 0)
    (r : Outcome A × State) (f : A → Action B)
    → Ensures E Q r
    → ((a : A) (t : State) → Q a t → Ensures E R (f a t))
    → Ensures E R (then_outcome r f)
then-Ensures E Q R (ok a, s) f h k = k a s h
then-Ensures E Q R (err e, s) f h k = h
then-Ensures E Q R (panicked, s) f h k = absurd h

-- A weaker postcondition.
pub weaken-Ensures {ℓ} :
    {A : Type ℓ} (E F : State → Type 0) (Q R : A → State → Type 0) (r : Outcome A × State)
    → Ensures E Q r
    → ((t : State) → E t → F t)
    → ((a : A) (t : State) → Q a t → R a t)
    → Ensures F R r
weaken-Ensures E F Q R (ok a, s) h ef qr = qr a s h
weaken-Ensures E F Q R (err e, s) h ef qr = ef s h
weaken-Ensures E F Q R (panicked, s) h ef qr = absurd h

-- A postcondition of every end is one of the state that is left.
pub Ensures-state {ℓ} :
    {A : Type ℓ} (E : State → Type 0) (r : Outcome A × State) → Ensures E (λ _. E) r → E r.1
Ensures-state E (ok a, s) h = h
Ensures-state E (err e, s) h = h
Ensures-state E (panicked, s) h = absurd h

pub Ensures-ne-panicked {ℓ} :
    {A : Type ℓ} (E : State → Type 0) (Q : A → State → Type 0) (r : Outcome A × State)
    → Ensures E Q r
    → r.0 ≢ panicked
Ensures-ne-panicked E Q (ok a, s) h e = cc
Ensures-ne-panicked E Q (err x, s) h e = cc
Ensures-ne-panicked E Q (panicked, s) h e = absurd h
