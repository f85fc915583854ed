-- ===== src/Fusion/Score/Bounds.antt =====
-- What the scorer promises: a constructed one divides by a positive number, its score counts at most
-- the configured types, and only the set of active types matters.
use native.Mathlib.Nat.{le_antisymm}
use incident_awareness_engin.Float.{Float, FloatLaws}
use incident_awareness_engin.Fusion.Score.{
  SimpleScorer, init, denominator, is_scoring_evidence, active_types, score,
  contributing_evidence_ids,
}
use incident_awareness_engin.Model.Evidence.{Evidence}
use incident_awareness_engin.Prelude.{
  ◌≤◌, ◌<◌, ◌≡◌, refl, ap, ◌∙◌, true, false, inl, inr, List, [], ◌∷◌, map, String, ok, arith, Eq,
  ◌==◌, length, set_of, contains, keep, null, any, is_blank, IsDistinct, Bool-cases,
  contains-set_of, set_of-IsDistinct, length-sort_by, length-set_of, length-set_of-pos,
  string_order, if◌then◌else◌, IsDistinct-of_length, set_of_fixed, ◌↔◌, string_eq, eqb_iff, sym,
}

module _ {ℓ} {A : Type ℓ} ⦃e : Eq A⦄ where
  abbrev others : A → List A → List A
  others a [] = []
  others a (x ∷ xs) = if a == x then others a xs else x ∷ others a xs

  length-others-le : (a : A) (xs : List A) → length (others a xs) ≤ length xs
  length-others-le a [] = omega arith
  length-others-le a (x ∷ xs) = ground (arith, length-others-le a xs)

  length-others-lt : (a : A) (xs : List A) → contains a xs ≡ true → length (others a xs) < length xs
  length-others-lt a [] h = cc
  length-others-lt a (x ∷ xs) h = ground (arith, length-others-le a xs, length-others-lt a xs)

  contains-others :
      (a b : A) (xs : List A) → (a == b) ≡ false → contains b (others a xs) ≡ contains b xs
  contains-others a b [] h = refl
  contains-others a b (x ∷ xs) h =
      ground (arith, contains-others a b xs, e.beq_iff a x, e.beq_iff b x, e.beq_iff a b)

  -- Distinct values that all stand in another list are no more than its length.
  pub distinct_length-le :
      (xs ys : List A)
      → IsDistinct xs
      → ((a : A) → contains a xs ≡ true → contains a ys ≡ true)
      → length xs ≤ length ys
  distinct_length-le [] ys d h = omega arith
  distinct_length-le (x ∷ xs) ys d h = omega (
    arith,
    length-others-lt x ys (h x (ground (arith, e.beq_iff x x))),
    distinct_length-le xs (others x ys) d.1
        (λ a m. contains-others x a ys (differ a m) ∙ h a (ground (arith, m))),
  )
    where
      differ : (a : A) → contains a xs ≡ true → (x == a) ≡ false
      differ a m = ground (arith, d.0, m, e.beq_iff x a)

-- A scorer as its constructor leaves it.
pub record IsValid (s : SimpleScorer) : Type 0 where
  pub positive : 0 < length s.profile_types
  pub distinct : IsDistinct s.profile_types

-- The constructor accepts exactly the lists of types that are not empty, hold no blank text and hold
-- none twice; the scorer that it returns has those types, and is valid.
pub init_accepts :
    (types : List String) (s : SimpleScorer)
    → (init types ≡ ok s) ↔ (
        (null types ≡ false)
        × (any is_blank types ≡ false)
        × IsDistinct types
        × (s ≡ record { profile_types = types }))
unfolding init
init_accepts types s = (
  λ h. accepted h,
  λ (a, b, d, e). rw (
    a,
    b,
    length-set_of types d,
    (eqb_iff (length types) (length types)).1 refl,
    set_of_fixed types d,
    e,
  ),
)
  where
    accepted :
        init types ≡ ok s
        → (null types ≡ false)
          × (any is_blank types ≡ false)
          × IsDistinct types
          × (s ≡ record { profile_types = types })
    accepted h =
        let len : length (set_of types) ≡ length types = ground arith in
        let d = IsDistinct-of_length types len in
        (ground arith, ground arith, d, ground (arith, set_of_fixed types d))

pub init-IsValid : (types : List String) {s : SimpleScorer} → init types ≡ ok s → IsValid s
init-IsValid types {s} h =
    let (a, b, d, e) = (init_accepts types s).0 h in
    rw e (record { positive = ground arith; distinct = d })

module _ (s : SimpleScorer) where
  abbrev types_of : List Evidence → List String
  types_of evidence = map (λ e. e.evidence_type) (keep (is_scoring_evidence s) evidence)

  active_types_profile :
      (evidence : List Evidence) (t : String)
      → contains t (types_of evidence) ≡ true
      → contains t s.profile_types ≡ true
  unfolding is_scoring_evidence
  active_types_profile [] t h = cc
  active_types_profile (e ∷ evidence) t h =
      ground (arith, active_types_profile evidence t, string_eq.beq_iff t e.evidence_type)

  -- At most the configured types are active.
  pub length-active_types-le :
      (evidence : List Evidence) → length (active_types s evidence) ≤ denominator s
  unfolding active_types denominator
  length-active_types-le evidence =
      distinct_length-le (active_types s evidence) s.profile_types
        (set_of-IsDistinct (types_of evidence))
        (λ t h. active_types_profile evidence t (sym (contains-set_of t (types_of evidence)) ∙ h))

  -- The score reads only which of the types are active: order and repetition of the Evidence do not
  -- matter.
  pub score_same_types :
      {F : Type 0} (f : Float F) (xs ys : List Evidence)
      → ((t : String) → contains t (active_types s xs) ≡ contains t (active_types s ys))
      → score f s xs ≡ score f s ys
  unfolding score active_types
  score_same_types f xs ys h =
      ap (λ k. f.ratio k (denominator s))
        (le_antisymm (below xs ys h) (below ys xs (λ t. sym (h t))))
    where
      below :
          (us vs : List Evidence)
          → ((t : String) → contains t (active_types s us) ≡ contains t (active_types s vs))
          → length (active_types s us) ≤ length (active_types s vs)
      below us vs k =
          distinct_length-le (active_types s us) (active_types s vs)
            (set_of-IsDistinct (types_of us)) (λ t m. sym (k t) ∙ m)

  -- Where no Evidence is named as contributing, no type is active.
  pub contributing_null :
      (evidence : List Evidence)
      → null (contributing_evidence_ids s evidence) ≡ true
      → length (active_types s evidence) ≡ 0
  unfolding active_types contributing_evidence_ids
  contributing_null evidence h =
      go (keep (is_scoring_evidence s) evidence) (omega (arith, sorted, none_left _ h))
    where
      none_left : (ids : List String) → null ids ≡ true → length ids ≡ 0
      none_left [] h = refl
      none_left (x ∷ ids) h = cc

      scoring : List String
      scoring = set_of (map (λ e. e.evidence_id) (keep (is_scoring_evidence s) evidence))

      sorted : length (contributing_evidence_ids s evidence) ≡ length scoring
      sorted = length-sort_by (λ i. i) scoring

      go :
          (kept : List Evidence)
          → length (set_of (map (λ e. e.evidence_id) kept)) ≡ 0
          → length (set_of (map (λ e. e.evidence_type) kept)) ≡ 0
      go [] h = refl
      go (e ∷ kept) h =
          absurd (omega (arith, length-set_of-pos e.evidence_id (map (λ e. e.evidence_id) kept)))

module _ {F : Type 0} (f : Float F) (laws : FloatLaws f) (s : SimpleScorer)
    (valid : IsValid s) where
  -- A valid scorer's score is a finite number in the unit interval, whatever the Evidence.
  pub score_unit :
      (evidence : List Evidence)
      → (f.is_finite (score f s evidence) ≡ true)
        × (f.at_most f.zero (score f s evidence) ≡ true)
        × (f.at_most (score f s evidence) f.one ≡ true)
  unfolding score denominator
  score_unit evidence =
      let n = length s.profile_types in
      let k = length (active_types s evidence) in
      let below : k ≤ n = unfold denominator in length-active_types-le s evidence in
      (
        laws.ratio_finite k n below valid.positive,
        laws.ratio_nonneg k n below valid.positive,
        laws.ratio_le_one k n below valid.positive,
      )

  -- A positive score names at least one contributing Evidence.
  pub contributing_of_positive :
      (evidence : List Evidence)
      → f.less f.zero (score f s evidence) ≡ true
      → null (contributing_evidence_ids s evidence) ≡ false
  unfolding score denominator
  contributing_of_positive evidence h =
      elim (Bool-cases (null (contributing_evidence_ids s evidence))) [
        | inl e ↦ absurd (impossible (contributing_null s evidence e))
        | inr e ↦ e
      ]
    where
      impossible : length (active_types s evidence) ≡ 0 → ⊥
      impossible z =
          let same : f.ratio (length (active_types s evidence)) (length s.profile_types) ≡ f.zero =
            ap (λ k. f.ratio k (length s.profile_types)) z
            ∙ laws.ratio_zero (length s.profile_types) valid.positive in
          cc (laws.less_irrefl f.zero, h, same)
