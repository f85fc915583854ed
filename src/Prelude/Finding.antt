-- ===== src/Prelude/Finding.antt =====
-- Searches through a list: `find` and `any` on rows that are appended. No code of the repository is modelled
-- here.
use mathlib.Core.Bool.{Bool, true, false, ◌&&◌, ◌||◌}
use mathlib.Core.List.{List, [], ◌∷◌, ◌++◌}
use mathlib.Core.Logic.{inl, inr}
use mathlib.Core.Option.{none, some}
use mathlib.Core.Path.{◌≡◌, refl, sym, ap, ◌∙◌, subst}
use native.Mathlib.Omega.{arith}
use incident_awareness_engin.Prelude.Class.{Order}
use incident_awareness_engin.Prelude.Lists.{any, find, insert_by, sort_by}
use incident_awareness_engin.Prelude.Results.{true-false, none-some, some-inj}
use incident_awareness_engin.Prelude.Tests.{Bool-cases}

pub find-passes {ℓ} :
    {A : Type ℓ} (q : A → Bool) (xs : List A) (x : A) → find q xs ≡ some x → q x ≡ true
find-passes q [] x h = absurd (none-some h)
find-passes q (y ∷ xs) x h = elim (Bool-cases (q y)) [
  | inl e ↦ subst (λ z. q z ≡ true) (some-inj (rw e at h)) e
  | inr e ↦ find-passes q xs x (rw e at h)
]

pub any-of_find {ℓ} :
    {A : Type ℓ} (q r : A → Bool) (xs : List A) (x : A)
    → ((y : A) → q y ≡ true → r y ≡ true)
    → find q xs ≡ some x
    → any r xs ≡ true
any-of_find q r [] x f h = absurd (none-some h)
any-of_find q r (y ∷ xs) x f h = elim (Bool-cases (q y)) [
  | inl e ↦ rw (f y e) refl
  | inr e ↦ elim (Bool-cases (r y)) [
    | inl passes ↦ rw passes refl
    | inr fails ↦ rw fails (any-of_find q r xs x f (rw e at h))
  ]
]

pub find-none {ℓ} : {A : Type ℓ} (q : A → Bool) (xs : List A) → any q xs ≡ false → find q xs ≡ none
find-none q [] h = refl
find-none q (x ∷ xs) h = ground (arith, find-none q xs)

pub any-or_left {ℓ} :
    {A : Type ℓ} (q r : A → Bool) (xs : List A)
    → any (λ x. q x || r x) xs ≡ false
    → any q xs ≡ false
any-or_left q r [] h = refl
any-or_left q r (x ∷ xs) h = ground (arith, any-or_left q r xs)

pub any-and_left {ℓ} :
    {A : Type ℓ} (q r : A → Bool) (xs : List A)
    → any q xs ≡ false
    → any (λ x. q x && r x) xs ≡ false
any-and_left q r [] h = refl
any-and_left q r (x ∷ xs) h = ground (arith, any-and_left q r xs)

pub find-of_any {ℓ} :
    {A : Type ℓ} (q : A → Bool) (xs : List A) → any q xs ≡ true → (x : A) × (find q xs ≡ some x)
find-of_any q [] h = absurd (true-false (sym h))
find-of_any q (y ∷ xs) h = elim (Bool-cases (q y)) [
  | inl e ↦ (y, rw e refl)
  | inr e ↦ rw e (find-of_any q xs (rw e at h))
]

pub any-append_one {ℓ} :
    {A : Type ℓ} (q : A → Bool) (xs : List A) (x : A)
    → q x ≡ false
    → any q (xs ++ x ∷ []) ≡ any q xs
any-append_one q [] x h = rw h refl
any-append_one q (y ∷ xs) x h = ap (λ b. q y || b) (any-append_one q xs x h)

pub any-append_left {ℓ} :
    {A : Type ℓ} (q : A → Bool) (xs ys : List A) → any q xs ≡ true → any q (xs ++ ys) ≡ true
any-append_left q [] ys h = cc
any-append_left q (x ∷ xs) ys h = ground (arith, any-append_left q xs ys)

pub any-insert_by {ℓ κ} :
    {A : Type ℓ} {K : Type κ} ⦃o : Order K⦄ (key : A → K) (q : A → Bool) (x : A) (ys : List A)
    → any q (insert_by key x ys) ≡ (q x || any q ys)
any-insert_by key q x [] = refl
any-insert_by key q x (y ∷ ys) = ground (arith, any-insert_by key q x ys)

pub any-sort_by {ℓ κ} :
    {A : Type ℓ} {K : Type κ} ⦃o : Order K⦄ (key : A → K) (q : A → Bool) (xs : List A)
    → any q (sort_by key xs) ≡ any q xs
any-sort_by key q [] = refl
any-sort_by key q (x ∷ xs) =
    any-insert_by key q x (sort_by key xs) ∙ ap (λ b. q x || b) (any-sort_by key q xs)

pub any-append_last {ℓ} :
    {A : Type ℓ} (q : A → Bool) (xs : List A) (x : A) → q x ≡ true → any q (xs ++ x ∷ []) ≡ true
any-append_last q [] x h = rw h refl
any-append_last q (y ∷ ys) x h = ground (arith, any-append_last q ys x h)
