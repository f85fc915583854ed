-- ===== src/Prelude/Lists.antt =====
-- Lists measured by native numbers, membership tests, Python's `set(...)` of a list, and stable
-- sorting by a key. No code of the repository is modelled here.
use mathlib.Core.Bool.{Bool, true, false, ◌&&◌, ◌||◌}
use mathlib.Core.List.{List, [], ◌∷◌, ◌++◌, Perm}
use mathlib.Core.List.Perm
use mathlib.Core.Option.{Option, none, some}
use mathlib.Core.Path.{◌≡◌, refl, ap, ◌∙◌}
use mathlib.Core.Logic.{inl, inr}
use native.Mathlib.Omega.{arith}
use Prim.Native.Nat.{ℕ, suc, ◌+◌, ◌≤◌, ◌<◌}
use incident_awareness_engin.Prelude.Class.{Eq, Order, ◌==◌}
use incident_awareness_engin.Prelude.Tests.{if◌then◌else◌, Bool-cases}

module _ {ℓ} {A : Type ℓ} where
  abbrev pub length : List A → ℕ
  length [] = 0
  length (x ∷ xs) = suc (length xs)

  abbrev pub null : List A → Bool
  null [] = true
  null (x ∷ xs) = false

  abbrev pub head? : List A → Option A
  head? [] = none
  head? (x ∷ xs) = some x

  abbrev pub last? : List A → Option A
  last? [] = none
  last? (x ∷ []) = some x
  last? (x ∷ y ∷ xs) = last? (y ∷ xs)

  pub length-append : (xs ys : List A) → length (xs ++ ys) ≡ length xs + length ys
  length-append [] ys = omega arith
  length-append (x ∷ xs) ys = omega (arith, length-append xs ys)

  abbrev pub All {κ} : (A → Type κ) → List A → Type κ
  All P [] = Unit
  All P (x ∷ xs) = P x × All P xs

  abbrev pub any : (A → Bool) → List A → Bool
  any p [] = false
  any p (x ∷ xs) = p x || any p xs

  -- `[x for x in xs if p(x)]`
  abbrev pub keep : (A → Bool) → List A → List A
  keep p [] = []
  keep p (x ∷ xs) = if p x then x ∷ keep p xs else keep p xs

  -- The first element that passes.
  abbrev pub find : (A → Bool) → List A → Option A
  find p [] = none
  find p (x ∷ xs) = if p x then some x else find p xs

  pub find-append_some :
      (p : A → Bool) (xs ys : List A) (a : A) → find p xs ≡ some a → find p (xs ++ ys) ≡ some a
  find-append_some p [] ys a h = cc
  find-append_some p (x ∷ xs) ys a h = elim (Bool-cases (p x)) [
    | inl e ↦ rw e (rw e at h)
    | inr e ↦ rw e (find-append_some p xs ys a (rw e at h))
  ]

  pub find-append_none :
      (p : A → Bool) (xs ys : List A) → find p xs ≡ none → find p (xs ++ ys) ≡ find p ys
  find-append_none p [] ys h = refl
  find-append_none p (x ∷ xs) ys h = elim (Bool-cases (p x)) [
    | inl e ↦ absurd (none-some (rw e at h))
    | inr e ↦ rw e (find-append_none p xs ys (rw e at h))
  ]
    where
      none-some : some x ≡ none → ⊥
      none-some e = cc

  pub All-append {κ} : (P : A → Type κ) (xs ys : List A) → All P xs → All P ys → All P (xs ++ ys)
  All-append P [] ys h k = k
  All-append P (x ∷ xs) ys h k = (h.0, All-append P xs ys h.1 k)

  pub All-append_left {κ} : (P : A → Type κ) (xs ys : List A) → All P (xs ++ ys) → All P xs
  All-append_left P [] ys h = tt
  All-append_left P (x ∷ xs) ys h = (h.0, All-append_left P xs ys h.1)

  pub All-append_right {κ} : (P : A → Type κ) (xs ys : List A) → All P (xs ++ ys) → All P ys
  All-append_right P [] ys h = h
  All-append_right P (x ∷ xs) ys h = All-append_right P xs ys h.1

  pub All-imp {κ μ} :
      {P : A → Type κ} {Q : A → Type μ}
      → ((a : A) → P a → Q a)
      → (xs : List A) → All P xs
      → All Q xs
  All-imp f [] h = tt
  All-imp f (x ∷ xs) h = (f x h.0, All-imp f xs h.1)

  pub All-of {κ} : (P : A → Type κ) → ((a : A) → P a) → (xs : List A) → All P xs
  All-of P f [] = tt
  All-of P f (x ∷ xs) = (f x, All-of P f xs)

  pub All-keep {κ} : (P : A → Type κ) (p : A → Bool) (xs : List A) → All P xs → All P (keep p xs)
  All-keep P p [] h = tt
  All-keep P p (x ∷ xs) h = elim (Bool-cases (p x)) [
    | inl e ↦ rw e (h.0, All-keep P p xs h.1)
    | inr e ↦ rw e (All-keep P p xs h.1)
  ]

  pub keep-append : (p : A → Bool) (xs ys : List A) → keep p (xs ++ ys) ≡ keep p xs ++ keep p ys
  keep-append p [] ys = refl
  keep-append p (x ∷ xs) ys = ground (arith, keep-append p xs ys)

module _ {ℓ} {A : Type ℓ} ⦃e : Eq A⦄ where
  -- `a in xs`
  abbrev pub contains : A → List A → Bool
  contains a [] = false
  contains a (x ∷ xs) = a == x || contains a xs

  abbrev pub list_beq : List A → List A → Bool
  list_beq [] [] = true
  list_beq (x ∷ xs) (y ∷ ys) = x == y && list_beq xs ys
  list_beq _ _ = false

  pub list_beq_self : (xs : List A) → list_beq xs xs ≡ true
  list_beq_self [] = refl
  list_beq_self (x ∷ xs) = ground (arith, e.beq_iff x x, list_beq_self xs)

  -- `set(xs)`, as a list that holds every value once.
  abbrev pub set_of : List A → List A
  set_of [] = []
  set_of (x ∷ xs) = if contains x xs then set_of xs else x ∷ set_of xs

  pub contains-append :
      (a : A) (xs ys : List A) → contains a (xs ++ ys) ≡ (contains a xs || contains a ys)
  contains-append a [] ys = refl
  contains-append a (x ∷ xs) ys = ground (arith, contains-append a xs ys)

  pub contains-set_of : (a : A) (xs : List A) → contains a (set_of xs) ≡ contains a xs
  contains-set_of a [] = refl
  contains-set_of a (x ∷ xs) = ground (arith, e.beq_iff a x, contains-set_of a xs)

  pub length-set_of-le : (xs : List A) → length (set_of xs) ≤ length xs
  length-set_of-le [] = omega arith
  length-set_of-le (x ∷ xs) = ground (arith, length-set_of-le xs)

  -- No value stands twice.
  abbrev pub IsDistinct : List A → Type 0
  IsDistinct [] = Unit
  IsDistinct (x ∷ xs) = (contains x xs ≡ false) × IsDistinct xs

  pub set_of-IsDistinct : (xs : List A) → IsDistinct (set_of xs)
  set_of-IsDistinct [] = tt
  set_of-IsDistinct (x ∷ xs) = elim (Bool-cases (contains x xs)) [
    | inl e ↦ rw e (set_of-IsDistinct xs)
    | inr e ↦ rw e (contains-set_of x xs ∙ e, set_of-IsDistinct xs)
  ]

  -- `len(set(xs)) == len(xs)` holds exactly where no value stands twice.
  pub IsDistinct-of_length : (xs : List A) → length (set_of xs) ≡ length xs → IsDistinct xs
  IsDistinct-of_length [] h = tt
  IsDistinct-of_length (x ∷ xs) h = elim (Bool-cases (contains x xs)) [
    | inl e ↦ absurd (
        omega
          (arith, length-set_of-le xs, ap length (λ i. if e i then set_of xs else x ∷ set_of xs)))
    | inr e ↦ (
      e,
      IsDistinct-of_length xs
          (omega (arith, ap length (λ i. if e i then set_of xs else x ∷ set_of xs))),
    )
  ]

  pub length-set_of-pos : (x : A) (xs : List A) → 0 < length (set_of (x ∷ xs))
  length-set_of-pos x [] = omega arith
  length-set_of-pos x (y ∷ ys) = ground (arith, length-set_of-pos y ys)

  pub length-set_of : (xs : List A) → IsDistinct xs → length (set_of xs) ≡ length xs
  length-set_of [] h = refl
  length-set_of (x ∷ xs) h = rw h.0 (ap suc (length-set_of xs h.1))

  pub set_of_fixed : (xs : List A) → IsDistinct xs → set_of xs ≡ xs
  set_of_fixed [] h = refl
  set_of_fixed (x ∷ xs) h = rw h.0 (ap (◌∷◌ x) (set_of_fixed xs h.1))

-- `sorted(xs, key=key)`: stable insertion, an element before all that its key does not exceed.
module _ {ℓ κ} {A : Type ℓ} {K : Type κ} ⦃o : Order K⦄ (key : A → K) where
  abbrev pub insert_by : A → List A → List A
  insert_by x [] = x ∷ []
  insert_by x (y ∷ ys) = if o.lt (key y) (key x) then y ∷ insert_by x ys else x ∷ y ∷ ys

  abbrev pub sort_by : List A → List A
  sort_by [] = []
  sort_by (x ∷ xs) = insert_by x (sort_by xs)

  -- No later key is below an earlier one.
  abbrev pub IsSortedBy : List A → Type ℓ
  IsSortedBy [] = Unit
  IsSortedBy (x ∷ xs) = All (λ y. o.lt (key y) (key x) ≡ false) xs × IsSortedBy xs

  pub insert_by-All {μ} :
      (P : A → Type μ) (x : A) (ys : List A) → P x → All P ys → All P (insert_by x ys)
  insert_by-All P x [] h k = (h, tt)
  insert_by-All P x (y ∷ ys) h k = elim (Bool-cases (o.lt (key y) (key x))) [
    | inl e ↦ rw e (k.0, insert_by-All P x ys h k.1)
    | inr e ↦ rw e (h, k)
  ]

  pub sort_by-All {μ} : (P : A → Type μ) (xs : List A) → All P xs → All P (sort_by xs)
  sort_by-All P [] h = tt
  sort_by-All P (x ∷ xs) h = insert_by-All P x (sort_by xs) h.0 (sort_by-All P xs h.1)

  not_lt_trans : (a b c : K) → o.lt b a ≡ false → o.lt c b ≡ false → o.lt c a ≡ false
  not_lt_trans a b c h k = elim (Bool-cases (o.lt c a)) [
    | inl e ↦ ground (arith, o.lt_total b c, o.lt_trans b c a, o.lt_total a b, o.lt_trans c a b)
    | inr e ↦ e
  ]

  insert_by-IsSortedBy : (x : A) (ys : List A) → IsSortedBy ys → IsSortedBy (insert_by x ys)
  insert_by-IsSortedBy x [] h = (tt, tt)
  insert_by-IsSortedBy x (y ∷ ys) h = elim (Bool-cases (o.lt (key y) (key x))) [
    | inl e ↦ rw e (
      insert_by-All (λ z. o.lt (key z) (key y) ≡ false) x ys (later e) h.0,
      insert_by-IsSortedBy x ys h.1,
    )
    | inr e ↦ rw e ((e, All-imp (λ z k. not_lt_trans (key x) (key y) (key z) e k) ys h.0), h)
  ]
    where
      later : o.lt (key y) (key x) ≡ true → o.lt (key x) (key y) ≡ false
      later e = ground (arith, o.lt_trans (key y) (key x) (key y), o.lt_irrefl (key y))

  pub sort_by-IsSortedBy : (xs : List A) → IsSortedBy (sort_by xs)
  sort_by-IsSortedBy [] = tt
  sort_by-IsSortedBy (x ∷ xs) = insert_by-IsSortedBy x (sort_by xs) (sort_by-IsSortedBy xs)

  insert_by-perm : (x : A) (ys : List A) → Perm (insert_by x ys) (x ∷ ys)
  insert_by-perm x [] = Perm.refl (x ∷ [])
  insert_by-perm x (y ∷ ys) = elim (Bool-cases (o.lt (key y) (key x))) [
    | inl e ↦ rw e (Perm.trans (Perm.cons y (insert_by-perm x ys)) (Perm.swap x y ys))
    | inr e ↦ rw e (Perm.refl (x ∷ y ∷ ys))
  ]

  -- Sorting only moves the elements about.
  pub sort_by-perm : (xs : List A) → Perm (sort_by xs) xs
  sort_by-perm [] = Perm.refl []
  sort_by-perm (x ∷ xs) = Perm.trans (insert_by-perm x (sort_by xs)) (Perm.cons x (sort_by-perm xs))

  pub length-sort_by : (xs : List A) → length (sort_by xs) ≡ length xs
  length-sort_by [] = refl
  length-sort_by (x ∷ xs) = length-insert_by (sort_by xs) ∙ ap suc (length-sort_by xs)
    where
      length-insert_by : (ys : List A) → length (insert_by x ys) ≡ suc (length ys)
      length-insert_by [] = refl
      length-insert_by (y ∷ ys) = ground (arith, length-insert_by ys)
