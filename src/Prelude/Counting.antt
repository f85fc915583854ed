-- ===== src/Prelude/Counting.antt =====
-- Counting without repetition: lists of distinct values inside one another. No code of the repository is
-- modelled here.
use mathlib.Core.Bool.{true, false}
use mathlib.Core.List.{List, [], ◌∷◌}
use mathlib.Core.Logic.{inl, inr}
use mathlib.Core.Path.{◌≡◌, refl, ◌∙◌, ap}
use native.Mathlib.Omega.{arith}
use Prim.Native.Nat.{ℕ, zero, suc, ◌≤◌}
use incident_awareness_engin.Prelude.Class.{Eq, ◌==◌, nat_eq}
use incident_awareness_engin.Prelude.Lists.{All, length, contains, IsDistinct}
use incident_awareness_engin.Prelude.Tests.{if◌then◌else◌, Bool-cases, leb}

module _ {ℓ} {A : Type ℓ} ⦃e : Eq A⦄ where
  -- The list with the first occurrence of a value taken out.
  abbrev without : A → List A → List A
  without a [] = []
  without a (x ∷ xs) = if a == x then xs else x ∷ without a xs

  length-without :
      (a : A) (xs : List A) → contains a xs ≡ true → suc (length (without a xs)) ≡ length xs
  length-without a [] h = cc
  length-without a (x ∷ xs) h = elim (Bool-cases (a == x)) [
    | inl same ↦ rw same refl
    | inr apart ↦ rw apart (ap suc (length-without a xs (rw apart at h)))
  ]

  contains-without :
      (a b : A) (xs : List A) → (b == a) ≡ false → contains b (without a xs) ≡ contains b xs
  contains-without a b [] h = refl
  contains-without a b (x ∷ xs) h =
      ground (arith, contains-without a b xs h, e.beq_iff a x, e.beq_iff b x, e.beq_iff b a)

  apart_of_absent : (a : A) (xs : List A) → contains a xs ≡ false → All (λ x. (x == a) ≡ false) xs
  apart_of_absent a [] h = tt
  apart_of_absent a (x ∷ xs) h =
      (ground (arith, e.beq_iff a x, e.beq_iff x a), apart_of_absent a xs (ground arith))

  -- Every value of the first list stands in the second.
  abbrev pub IsWithin : List A → List A → Type 0
  IsWithin xs ys = All (λ x. contains x ys ≡ true) xs

  IsWithin-without :
      (a : A) (xs ys : List A)
      → All (λ x. (x == a) ≡ false) xs
      → IsWithin xs ys
      → IsWithin xs (without a ys)
  IsWithin-without a [] ys h k = tt
  IsWithin-without a (x ∷ xs) ys h k =
      (contains-without a x ys h.0 ∙ k.0, IsWithin-without a xs ys h.1 k.1)

  -- Distinct values that all stand in a list are at most as many.
  pub length-le_of_within :
      (xs ys : List A) → IsDistinct xs → IsWithin xs ys → length xs ≤ length ys
  length-le_of_within [] ys d w = omega arith
  length-le_of_within (x ∷ xs) ys d w = omega (
    arith,
    length-without x ys w.0,
    length-le_of_within xs (without x ys) d.1
        (IsWithin-without x xs ys (apart_of_absent x xs d.0) w.1),
  )

  -- If they are at least as many, they are all of it.
  pub within_of_length :
      (xs ys : List A)
      → IsDistinct xs
      → IsWithin xs ys
      → length ys ≤ length xs
      → (a : A) → contains a ys ≡ true
      → contains a xs ≡ true
  within_of_length [] [] d w h a k = k
  within_of_length [] (y ∷ ys) d w h a k = absurd (omega arith)
  within_of_length (x ∷ xs) ys d w h a k = elim (Bool-cases (a == x)) [
    | inl same ↦ rw same refl
    | inr apart ↦ rw apart (
        within_of_length xs (without x ys) d.1
          (IsWithin-without x xs ys (apart_of_absent x xs d.0) w.1)
          (omega (arith, length-without x ys w.0)) a (contains-without x a ys apart ∙ k))
  ]

-- n, ..., 1
abbrev pub down_from : ℕ → List ℕ
down_from zero = []
down_from (suc n) = suc n ∷ down_from n

pub length-down_from : (n : ℕ) → length (down_from n) ≡ n
length-down_from zero = omega arith
length-down_from (suc n) = omega (arith, length-down_from n)

pub contains-down_from : (n k : ℕ) → contains k (down_from n) ≡ (if leb 1 k then leb k n else false)
contains-down_from zero k = ground arith
contains-down_from (suc n) k = ground (arith, contains-down_from n k)

pub down_from-IsDistinct : (n : ℕ) → IsDistinct (down_from n)
down_from-IsDistinct zero = tt
down_from-IsDistinct (suc n) =
    (ground (arith, contains-down_from n (suc n)), down_from-IsDistinct n)
