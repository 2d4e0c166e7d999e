-- ===== src/Base/Sets.antt =====
-- `BTreeSet` and `HashSet` of texts as the list of their members, in the order of insertion. No code
-- read here depends on the order in which a set is walked.
use mathlib.Core.Path.{◌≡◌, refl, sym, ap, ◌∙◌, subst}
use mathlib.Core.Logic.{◌↔◌, inl, inr, ∥∥₁_elim}
use mathlib.Core.List.{Perm, Permᴰ}
use mathlib.Core.List.Perm
use mathlib.Core.Bool.{Bool, true, false, ◌||◌}
use mathlib.Core.List.{List, [], ◌∷◌, ◌++◌}
use jingwei.Base.Tests.{if◌then◌else◌, is_yes, Bool-cases}
use jingwei.Base.Text.{Text, text_eq, text_eq_refl, text_eq→≡, Text-discrete}

-- `contains`.
unfoldable pub contains : Text → List Text → Bool
contains a [] = false
contains a (x ∷ xs) = text_eq a x || contains a xs

-- The set after `remove`.
unfoldable pub without : Text → List Text → List Text
without a [] = []
without a (x ∷ xs) = if text_eq a x then xs else x ∷ without a xs

-- The set after `insert`.
unfoldable pub with_member : Text → List Text → List Text
with_member a xs = if contains a xs then xs else a ∷ xs

Path-prop : (b c : Bool) → IsProp (b ≡ c)
Path-prop b c = hlevel

or_comm3 : (a b c : Bool) → (a || (b || c)) ≡ (b || (a || c))
or_comm3 true true c = refl
or_comm3 true false c = refl
or_comm3 false b c = refl

contains-Permᴰ : {xs ys : List Text} (a : Text) → Permᴰ xs ys → contains a xs ≡ contains a ys
unfolding contains
contains-Permᴰ a Permᴰ.nil = refl
contains-Permᴰ a (Permᴰ.cons e p) = cc (e, contains-Permᴰ a p)
contains-Permᴰ a (Permᴰ.swap {a = x} {b = y} {l = l} e f) =
    or_comm3 (text_eq a x) (text_eq a y) (contains a l) ∙ cc
contains-Permᴰ a (Permᴰ.trans p q) = contains-Permᴰ a p ∙ contains-Permᴰ a q

pub contains-Perm : {xs ys : List Text} (a : Text) → Perm xs ys → contains a xs ≡ contains a ys
contains-Perm {xs} {ys} a p =
    ∥∥₁_elim p (Path-prop (contains a xs) (contains a ys)) (contains-Permᴰ a)

-- A member may be taken out and put in front.
pub without-Perm : (a : Text) (xs : List Text) → contains a xs ≡ true → Perm xs (a ∷ without a xs)
unfolding contains without
without-Perm a [] h = cc
without-Perm a (x ∷ xs) h = elim (Bool-cases (text_eq a x)) [
  | inl same ↦
      subst (λ y. Perm (y ∷ xs) (a ∷ (if text_eq a y then xs else y ∷ without a xs)))
        (text_eq→≡ a x same)
        (subst (λ b. Perm (a ∷ xs) (a ∷ (if b then xs else a ∷ without a xs)))
          (sym (text_eq_refl a)) (Perm.refl (a ∷ xs)))
  | inr other ↦
      subst (λ b. Perm (x ∷ xs) (a ∷ (if b then xs else x ∷ without a xs))) (sym other)
        (Perm.trans (Perm.cons x (without-Perm a xs (cc (h, other))))
          (Perm.swap a x (without a xs)))
]

-- What follows a member in a permutation of the set permutes the set without it.
pub without-cons :
    (a : Text) (xs ys : List Text)
    → Perm (a ∷ xs) ys
    → (contains a ys ≡ true) × Perm xs (without a ys)
unfolding contains
without-cons a xs ys p =
    let member = sym (contains-Perm a p) ∙ ap (λ b. b || contains a xs) (text_eq_refl a) in
    (member, Perm.cons_inv (Perm.trans p (without-Perm a ys member)))

-- The texts of a list are pairwise different.
unfoldable pub Distinct : List Text → Type 0
Distinct [] = Unit
Distinct (x ∷ xs) = (contains x xs ≡ false) × Distinct xs

-- None of the texts is a member.
unfoldable pub Fresh : List Text → List Text → Type 0
Fresh members [] = Unit
Fresh members (x ∷ xs) = (contains x members ≡ false) × Fresh members xs

pub contains-with_member :
    (a b : Text) (xs : List Text) → contains b (with_member a xs) ≡ (text_eq b a || contains b xs)
unfolding with_member contains
contains-with_member a b xs = go (contains a xs) refl (text_eq b a) refl
  where
    go :
        (m : Bool)
        → contains a xs ≡ m
        → (s : Bool) → text_eq b a ≡ s
        → contains b (if m then xs else a ∷ xs) ≡ (s || contains b xs)
    go true m true s = ap (λ c. contains c xs) (text_eq→≡ b a s) ∙ m
    go true m false s = refl
    go false m t s = ap (λ u. u || contains b xs) s

pub text_eq-sym : (a b : Text) → text_eq a b ≡ text_eq b a
text_eq-sym a b = go (Text-discrete a b) (Text-discrete b a)
  where
    go : (d : Dec (a ≡ b)) (e : Dec (b ≡ a)) → is_yes d ≡ is_yes e
    go (yes p) (yes q) = refl
    go (yes p) (no n) = absurd (n (sym p))
    go (no n) (yes q) = absurd (n (sym q))
    go (no n) (no m) = refl

or-false : {a b : Bool} → (a || b) ≡ false → (a ≡ false) × (b ≡ false)
or-false {a = true} e = cc
or-false {a = false} e = (refl, e)

pub Fresh-with_member :
    (a : Text) (members xs : List Text)
    → Fresh (with_member a members) xs ↔ ((contains a xs ≡ false) × Fresh members xs)
unfolding Fresh contains
Fresh-with_member a members [] = ((λ f. (refl, tt)), (λ f. tt))
Fresh-with_member a members (x ∷ xs) =
    let (to, from) = Fresh-with_member a members xs in
    let step = contains-with_member a x members in
    (
      (λ (f, fs).
          let (other, fresh) = or-false {a = text_eq x a} (sym step ∙ f) in
          let (absent, rest) = to fs in (cc (text_eq-sym a x, absent), (fresh, rest))),
      (λ (absent, (fresh, rest)).
          let (other, none_left) = or-false {a = text_eq a x} absent in
          (step ∙ cc (text_eq-sym a x, fresh), from (none_left, rest))),
    )

pub Fresh-empty : (xs : List Text) → Fresh [] xs
unfolding Fresh contains
Fresh-empty [] = tt
Fresh-empty (x ∷ xs) = (refl, Fresh-empty xs)

pub with_member-fresh :
    (a : Text) (xs : List Text) → contains a xs ≡ false → with_member a xs ≡ a ∷ xs
unfolding with_member
with_member-fresh a xs h = ap (λ b. if b then xs else a ∷ xs) h

contains-concat :
    (a b : Text) (xs : List Text)
    → contains a xs ≡ false
    → text_eq a b ≡ false
    → contains a (xs ++ b ∷ []) ≡ false
unfolding contains
contains-concat a b [] h k = cc
contains-concat a b (x ∷ xs) h k =
    let (other, none_left) = or-false {a = text_eq a x} h in cc (contains-concat a b xs none_left k)

-- A list of different texts with a new one at its end.
pub Distinct-concat :
    (a : Text) (xs : List Text) → Distinct xs → contains a xs ≡ false → Distinct (xs ++ a ∷ [])
unfolding Distinct contains
Distinct-concat a [] d h = (refl, tt)
Distinct-concat a (x ∷ xs) (absent, d) h =
    let (other, none_left) = or-false {a = text_eq a x} h in
    (contains-concat x a xs absent (text_eq-sym x a ∙ other), Distinct-concat a xs d none_left)
