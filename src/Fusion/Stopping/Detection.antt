-- ===== src/Fusion/Stopping/Detection.antt =====
-- When the policy detects: the first point at which the scores have stayed at the upper threshold
-- for `persistence_k` points in a row.
use native.Mathlib.Nat.{zero-add, suc-add}
use incident_awareness_engin.Float.{Float}
use incident_awareness_engin.Fusion.Stopping.Automaton.{
  Phase, idle, inside, View, advance, advance_phase, advance_all, start_view, first_start,
  first_score, result_of, trace, Accepted, evaluate_lem,
}
use incident_awareness_engin.Fusion.Stopping.{
  ThresholdStoppingPolicy, ScorePoint, FusionEpisode, FusionEndReason, StoppingResult,
  StoppingTracePoint, detected, miss, evaluate, is_boundary, validate_utc_datetime,
}
use incident_awareness_engin.Prelude.{
  ℕ, zero, suc, ◌+◌, ◌-◌, ◌≤◌, ◌<◌, ◌≡◌, refl, ◌∙◌, ap, Bool, true, false, inl, inr, List, [], ◌∷◌,
  ◌++◌, Option, none, some, String, ok, leb, arith, Datetime, Bool-cases, is_blank, ◌&&◌, ◌||◌, ◌↔◌,
}

module _ {F : Type 0} (f : Float F) (policy : ThresholdStoppingPolicy F) where
  abbrev is_high : ScorePoint F → Bool
  is_high point = f.at_most policy.threshold_on point.score

  -- The list begins with so many high scores.
  abbrev pub begins_high : ℕ → List (ScorePoint F) → Bool
  begins_high zero points = true
  begins_high (suc n) [] = false
  begins_high (suc n) (point ∷ points) = is_high point && begins_high n points

  -- Somewhere in the list stand so many high scores in a row.
  abbrev pub has_run : ℕ → List (ScorePoint F) → Bool
  has_run k [] = false
  has_run k (point ∷ points) = begins_high k (point ∷ points) || has_run k points

  begins_high_pred :
      (n : ℕ) (points : List (ScorePoint F))
      → begins_high (suc n) points ≡ true
      → begins_high n points ≡ true
  begins_high_pred zero points h = refl
  begins_high_pred (suc n) [] h = cc
  begins_high_pred (suc n) (point ∷ points) h = ground (arith, begins_high_pred n points)

  begins_high_le :
      (d n : ℕ) (points : List (ScorePoint F))
      → begins_high (d + n) points ≡ true
      → begins_high n points ≡ true
  begins_high_le zero n points h = rw zero-add at h
  begins_high_le (suc d) n points h =
      begins_high_le d n points (begins_high_pred (d + n) points (rw suc-add at h))

  has_run_of_begins :
      (k : ℕ) (points : List (ScorePoint F))
      → begins_high (suc k) points ≡ true
      → has_run (suc k) points ≡ true
  has_run_of_begins k [] h = cc
  has_run_of_begins k (point ∷ points) h = ground arith

  module _ (run_id entity_id : String) where
    abbrev found : View F → Option Datetime
    found v = first_start f policy run_id entity_id v.closed v.phase

    abbrev found_score : View F → Option F
    found_score v = first_score f policy run_id entity_id v.closed v.phase

    abbrev after : View F → List (ScorePoint F) → View F
    after = advance_all f policy run_id entity_id

    -- A first detection is never moved.
    found-advance :
        (closed : List (FusionEpisode F)) (p : Phase F) (point : ScorePoint F) {t : Datetime}
        {s : F}
        → first_start f policy run_id entity_id closed p ≡ some t
        → first_score f policy run_id entity_id closed p ≡ some s
        → let v = advance_phase f policy run_id entity_id closed point p in
          (found v ≡ some t) × (found_score v ≡ some s)
    found-advance [] (idle n) point h k = cc
    found-advance (e ∷ es) (idle n) point h k = ground arith
    found-advance [] (inside start at_start peak) point h k = ground arith
    found-advance (e ∷ es) (inside start at_start peak) point h k = ground arith

    found-after :
        (v : View F) (points : List (ScorePoint F)) {t : Datetime} {s : F}
        → found v ≡ some t
        → found_score v ≡ some s
        → (found (after v points) ≡ some t) × (found_score (after v points) ≡ some s)
    found-after v [] h k = (h, k)
    found-after v (point ∷ points) h k =
        let next = found-advance v.closed v.phase point h k in
        found-after (advance f policy run_id entity_id v point) points next.0 next.1

    abbrev waiting : ℕ → View F
    waiting n = record { phase = idle n; closed = [] }

    abbrev opened : ScorePoint F → View F
    opened point = record { phase = inside point.timestamp point.score point.score; closed = [] }

    abbrev step : View F → ScorePoint F → View F
    step = advance f policy run_id entity_id

    module _ (k : ℕ) (e : policy.persistence_k ≡ suc k) where
      step_low :
          (n : ℕ) (point : ScorePoint F)
          → is_high point ≡ false
          → step (waiting n) point ≡ waiting 0
      step_low n point low = rw low

      step_open :
          (n : ℕ) (point : ScorePoint F)
          → n ≡ k
          → is_high point ≡ true
          → step (waiting n) point ≡ opened point
      step_open n point full high =
          let reached : leb policy.persistence_k (n + 1) ≡ true = ground arith in rw (high, reached)

      step_count :
          (n : ℕ) (point : ScorePoint F)
          → n < k
          → is_high point ≡ true
          → step (waiting n) point ≡ waiting (n + 1)
      step_count n point room high =
          let short : leb policy.persistence_k (n + 1) ≡ false = ground arith in rw (high, short)

      -- With `n` high scores behind it and `r + 1` to go, the policy stays without a detection where
      -- neither the next ones complete a run nor a later run stands in the list.
      undetected :
          (n r : ℕ) (points : List (ScorePoint F))
          → n + r ≡ k
          → begins_high (suc r) points ≡ false
          → has_run (suc k) points ≡ false
          → (m : ℕ) × (m ≤ k) × (after (waiting n) points ≡ waiting m)
      undetected n r [] h u v = (n, omega arith, refl)
      undetected n zero (point ∷ points) h u v =
          let low : is_high point ≡ false = ground arith in
          let later : begins_high (suc k) points ≡ false =
            ground (arith, has_run_of_begins k points) in
          let (m, bound, same) = undetected 0 k points (omega arith) later (ground arith) in
          (m, bound, ap (λ w. after w points) (step_low n point low) ∙ same)
      undetected n (suc r) (point ∷ points) h u v = elim (Bool-cases (is_high point)) [
        | inl high ↦
            let (m, bound, same) =
              undetected (n + 1) r points (omega arith) (ground arith) (ground arith) in
            (m, bound, ap (λ w. after w points) (step_count n point (omega arith) high) ∙ same)
        | inr low ↦
            let later : begins_high (suc k) points ≡ false =
              ground (arith, has_run_of_begins k points) in
            let (m, bound, same) = undetected 0 k points (omega arith) later (ground arith) in
            (m, bound, ap (λ w. after w points) (step_low n point low) ∙ same)
      ]

      -- Where one of the two stands there, the policy detects.
      detects :
          (n r : ℕ) (points : List (ScorePoint F))
          → n + r ≡ k
          → (begins_high (suc r) points || has_run (suc k) points) ≡ true
          → (t : Datetime) × (found (after (waiting n) points) ≡ some t)
      detects n r [] h u = cc
      detects n zero (point ∷ points) h u = elim (Bool-cases (is_high point)) [
        | inl high ↦
            let kept =
              found-after (opened point) points {t = point.timestamp} {s = point.score} refl refl in
            (
              point.timestamp,
              ap (λ w. found (after w points)) (step_open n point (omega arith) high) ∙ kept.0,
            )
        | inr low ↦
            let (t, seen) = detects 0 k points (omega arith) (ground arith) in
            (t, ap (λ w. found (after w points)) (step_low n point low) ∙ seen)
      ]
      detects n (suc r) (point ∷ points) h u = elim (Bool-cases (is_high point)) [
        | inl high ↦
            let (t, seen) =
              detects (n + 1) r points (omega arith)
                (ground (arith, begins_high_le n (suc r) points)) in
            (t, ap (λ w. found (after w points)) (step_count n point (omega arith) high) ∙ seen)
        | inr low ↦
            let (t, seen) = detects 0 k points (omega arith) (ground arith) in
            (t, ap (λ w. found (after w points)) (step_low n point low) ∙ seen)
      ]

    advance_all-append :
        (v : View F) (xs ys : List (ScorePoint F)) → after v (xs ++ ys) ≡ after (after v xs) ys
    advance_all-append v [] ys = refl
    advance_all-append v (x ∷ xs) ys = advance_all-append (step v x) xs ys

    module _ (positive : 1 ≤ policy.persistence_k) where
      abbrev k : ℕ
      k = policy.persistence_k - 1

      k-suc : policy.persistence_k ≡ suc k
      k-suc = omega arith

      none_found :
          (points : List (ScorePoint F))
          → has_run policy.persistence_k points ≡ false
          → (m : ℕ) × (m ≤ k) × (after (waiting 0) points ≡ waiting m)
      none_found points h =
          let no_run : has_run (suc k) points ≡ false = rw (← k-suc) h in
          undetected k k-suc 0 k points (omega arith) (ground (arith, has_run_of_begins k points))
            no_run

      some_found :
          (points : List (ScorePoint F))
          → has_run policy.persistence_k points ≡ true
          → (t : Datetime) × (found (after (waiting 0) points) ≡ some t)
      some_found points h =
          let run : has_run (suc k) points ≡ true = rw (← k-suc) h in
          detects k k-suc 0 k points (omega arith) (ground arith)

      opens :
          (m : ℕ) (point : ScorePoint F) {t : Datetime}
          → found (step (waiting m) point) ≡ some t
          → step (waiting m) point ≡ opened point
      opens m point seen = ground arith

      -- The first point that completes a run is the detection.
      found_at :
          (before : List (ScorePoint F)) (point : ScorePoint F) (rest : List (ScorePoint F))
          → has_run policy.persistence_k before ≡ false
          → has_run policy.persistence_k (before ++ point ∷ []) ≡ true
          → let v = after (waiting 0) (before ++ point ∷ rest) in
            (found v ≡ some point.timestamp) × (found_score v ≡ some point.score)
      found_at before point rest h r =
          let (m, bound, same) = none_found before h in
          let (t, seen) = some_found (before ++ point ∷ []) r in
          let one : after (waiting 0) (before ++ point ∷ []) ≡ step (waiting m) point =
            advance_all-append (waiting 0) before (point ∷ []) ∙ ap (λ v. step v point) same in
          let opening = opens m point (rw one at seen) in
          let whole : after (waiting 0) (before ++ point ∷ rest) ≡ after (opened point) rest =
            advance_all-append (waiting 0) before (point ∷ rest)
            ∙ ap (λ v. after (step v point) rest) same
            ∙ ap (λ v. after v rest) opening in
          rw whole
            (found-after (opened point) rest {t = point.timestamp} {s = point.score} refl refl)

  module _ (run_id entity_id : String) (end : Datetime) (boundary : FusionEndReason)
      (positive : 1 ≤ policy.persistence_k) (named : is_blank entity_id ≡ false)
      (utc_end : validate_utc_datetime end ≡ ok tt)
      (bounded : is_boundary f policy run_id entity_id boundary ≡ true) where
    -- On points that the loop accepts, `evaluate` reports a miss exactly where no `persistence_k`
    -- consecutive scores reach the upper threshold, and a detection everywhere else.
    pub evaluate_misses_iff :
        (points : List (ScorePoint F)) (r : StoppingResult F) (seen : List (StoppingTracePoint F))
        → Accepted f policy run_id entity_id end none points
        → evaluate f policy run_id entity_id points end boundary ≡ ok (r, seen)
        → ((r.fusion_status ≡ miss) ↔ (has_run policy.persistence_k points ≡ false))
          × ((r.fusion_status ≡ detected) ↔ (has_run policy.persistence_k points ≡ true))
    evaluate_misses_iff points r seen accepted e =
        elim (Bool-cases (has_run policy.persistence_k points)) [
          | inl run ↦
              let (t, at) = some_found run_id entity_id positive points run in
              let hit : r.fusion_status ≡ detected = ground (arith, is, at) in
              ((λ h. cc, λ h. cc), (λ h. run, λ h. hit))
          | inr no_run ↦
              let (m, _, same) = none_found run_id entity_id positive points no_run in
              let idle_result =
                ap (λ v. (result_of f policy run_id entity_id end boundary v).fusion_status) same in
              let missed : r.fusion_status ≡ miss = ground (arith, is, idle_result) in
              ((λ h. no_run, λ h. missed), (λ h. cc, λ h. cc))
        ]
      where
        is :
            evaluate f policy run_id entity_id points end boundary
            ≡ ok (
              result_of f policy run_id entity_id end boundary (
                  advance_all f policy run_id entity_id
                    (start_view f policy run_id entity_id)
                    points),
              trace f policy run_id entity_id (start_view f policy run_id entity_id) points,
            )
        is =
            evaluate_lem f policy run_id entity_id end boundary points positive named utc_end
              bounded accepted

    -- The decision is taken at the point that first completes `persistence_k` consecutive scores at the
    -- upper threshold: `fusion_time` is its timestamp and `score_at_decision` its score, whatever
    -- follows.
    pub evaluate_first_detection :
        (before : List (ScorePoint F)) (point : ScorePoint F) (rest : List (ScorePoint F))
        (r : StoppingResult F) (seen : List (StoppingTracePoint F))
        → Accepted f policy run_id entity_id end none (before ++ point ∷ rest)
        → has_run policy.persistence_k before ≡ false
        → has_run policy.persistence_k (before ++ point ∷ []) ≡ true
        → evaluate f policy run_id entity_id (before ++ point ∷ rest) end boundary ≡ ok (r, seen)
        → (r.fusion_status ≡ detected)
          × (r.fusion_time ≡ some point.timestamp)
          × (r.score_at_decision ≡ some point.score)
    evaluate_first_detection before point rest r seen accepted no_run run e =
        let points = before ++ point ∷ rest in
        let at = found_at run_id entity_id positive before point rest no_run run in
        ground (
          arith,
          evaluate_lem f policy run_id entity_id end boundary points positive named utc_end bounded
              accepted,
          at.0,
          at.1,
        )
