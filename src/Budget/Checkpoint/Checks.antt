-- ===== src/Budget/Checkpoint/Checks.antt =====
-- What a check that passed has shown.
use Prim.Native.String.{String}
use jingwei.Base.{
  ◌≡◌, refl, Bool, true, false, not, some, List, [], ◌∷◌, ◌++◌, is_yes, arith, is_yes_iff,
}
use jingwei.Budget.Checkpoint.{CheckpointError, Checked, ok, err, ◌>>◌, refuse_if, require}
use jingwei.Budget.Checkpoint.Transition.{suffix_after}

pub >>-ok {ℓ} :
    {B : Type ℓ} (m : Checked (Unit {0})) (k : Checked B) {b : B}
    → (m >> k) ≡ ok b
    → (m ≡ ok tt) × (k ≡ ok b)
>>-ok (ok a) k e = (refl, e)
>>-ok (err x) k e = cc

pub refuse_if-ok : (b : Bool) (m : String) → refuse_if b m ≡ ok tt → b ≡ false
refuse_if-ok true m e = cc
refuse_if-ok false m e = refl

pub require-ok : (b : Bool) (x : CheckpointError) → require b x ≡ ok tt → b ≡ true
require-ok true x e = refl
require-ok false x e = cc

pub not-false : (b : Bool) → not b ≡ false → b ≡ true
not-false true e = refl
not-false false e = cc

-- A decided equality whose negation was refused.
pub same-of {ℓ} : {A : Type ℓ} (d : Dec A) → not (is_yes d) ≡ false → A
same-of d e = (is_yes_iff d).0 (not-false (is_yes d) e)

-- What comes after a prefix, put behind it, is the whole.
pub suffix_after-append {ℓ} :
    {A : Type ℓ} (d : Discrete A) (ps xs ys : List A)
    → suffix_after d ps xs ≡ some ys
    → xs ≡ ps ++ ys
unfolding suffix_after
suffix_after-append d [] xs ys e = cc
suffix_after-append d (p ∷ ps) [] ys e = cc
suffix_after-append d (p ∷ ps) (x ∷ xs) ys e =
    ground (arith, is_yes_iff (d x p), suffix_after-append d ps xs ys)
