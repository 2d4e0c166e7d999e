-- ===== src/Base/Result.antt =====
-- `Result`, its `?`, and what a result without an error says of the steps that made it.
use mathlib.Core.Path.{◌≡◌, refl}
use mathlib.Core.Logic.{◌⊎◌, inl, inr}
use mathlib.Core.Bool.{Bool, true, false}
use mathlib.Core.Option.{Option, none, some}

pub data Result {ℓ κ} (E : Type ℓ) (A : Type κ) : Type (ℓ ⊔ κ) where
  ok : A → Result E A
  err : E → Result E A

module _ {ℓ κ μ} {E : Type ℓ} {A : Type κ} {B : Type μ} where
  infixl 5 ◌>>=◌ ◌>>◌
  abbrev pub ◌>>=◌ : Result E A → (A → Result E B) → Result E B
  err refusal >>= rest = err refusal
  ok answer >>= rest = rest answer

  abbrev pub ◌>>◌ : Result E A → Result E B → Result E B
  first >> rest = first >>= λ _. rest

module _ {ℓ} {E : Type ℓ} where
  -- `if wrong { return Err(error) }`.
  abbrev pub refuse_if : Bool → E → Result E (Unit {0})
  refuse_if true error = err error
  refuse_if false error = ok tt

  pub refuse_if-ok : (wrong : Bool) (error : E) → refuse_if wrong error ≡ ok tt → wrong ≡ false
  refuse_if-ok true error e = cc
  refuse_if-ok false error e = refl

  abbrev pub is_ok {κ} : {A : Type κ} → Result E A → Bool
  is_ok (ok _) = true
  is_ok (err _) = false

  -- `Option::ok_or`.
  abbrev pub ok_or {κ} : {A : Type κ} → Option A → E → Result E A
  ok_or none error = err error
  ok_or (some a) error = ok a

module _ {ℓ κ} {E : Type ℓ} {A : Type κ} where
  -- Both of two steps in sequence went through.
  pub >>-ok :
      (first : Result E (Unit {0})) (second : Result E A) (a : A)
      → first >> second ≡ ok a
      → (first ≡ ok tt) × (second ≡ ok a)
  >>-ok (err _) second a e = cc
  >>-ok (ok _) second a e = (refl, e)

  pub ok->> :
      (first : Result E (Unit {0})) (second : Result E A) → first ≡ ok tt → first >> second ≡ second
  ok->> (err _) second e = cc
  ok->> (ok _) second e = refl

  pub Result-cases : (r : Result E A) → ((e : E) × (r ≡ err e)) ⊎ ((a : A) × (r ≡ ok a))
  Result-cases (err e) = inl (e, refl)
  Result-cases (ok a) = inr (a, refl)
