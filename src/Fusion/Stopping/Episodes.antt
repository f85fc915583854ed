-- ===== src/Fusion/Stopping/Episodes.antt =====
-- The episodes of a result: numbered from one, apart from each other in time, and each opened by a
-- score at the upper threshold that its peak is not below.
use native.Mathlib.Nat.{zero-add}
use mathlib.Core.Path.{subst}
use incident_awareness_engin.Float.{Float, FloatLaws}
use incident_awareness_engin.Fusion.Stopping.Automaton.{
  Phase, idle, inside, View, advance, advance_phase, advance_all, start_view, last_time, result_of,
  Accepted, evaluate_lem, episode,
}
use incident_awareness_engin.Fusion.Stopping.{
  ThresholdStoppingPolicy, ScorePoint, FusionEpisode, FusionEndReason, StoppingResult,
  StoppingTracePoint, detected, miss, not_evaluated, evaluate, is_boundary, validate_utc_datetime,
  validate_point, released, episode_id, not_increasing,
}
use incident_awareness_engin.Prelude.{
  ℕ, suc, ◌+◌, ◌≤◌, ◌<◌, ◌≡◌, refl, ap, true, false, inl, inr, List, [], ◌∷◌, ◌++◌, Option, none,
  some, String, ok, leb, if◌then◌else◌, arith, length, Datetime, Bool-cases, is_blank, leb→lt,
}

-- Strictly after an instant, where there is one; and not before it.
abbrev pub After : Option ℕ → ℕ → Type 0
After none t = Unit
After (some l) t = l < t

abbrev pub NotBefore : Option Datetime → ℕ → Type 0
NotBefore none t = ⊥
NotBefore (some p) t = t ≤ p.instant

abbrev Passed : Option Datetime → Option ℕ → Type 0
Passed p none = Unit
Passed p (some l) = NotBefore p l

Passed-later :
    (previous : Option Datetime) (low : Option ℕ) (t : Datetime)
    → not_increasing previous t ≡ false
    → Passed previous low
    → Passed (some t) low × After low t.instant
Passed-later previous none t h p = (tt, tt)
Passed-later none (some l) t h p = absurd p
Passed-later (some q) (some l) t h p =
    let before = leb→lt _ _ h in (omega (arith, before), omega (arith, before))

NotBefore-later :
    (previous : Option Datetime) (s : ℕ) (t : Datetime)
    → not_increasing previous t ≡ false
    → NotBefore previous s
    → s < t.instant
NotBefore-later none s t h p = absurd p
NotBefore-later (some q) s t h p = omega (arith, leb→lt _ _ h)

-- The last point is not after the end.
abbrev Until : Option Datetime → Datetime → Type 0
Until none end = Unit
Until (some p) end = p.instant ≤ end.instant

Until-le :
    (previous : Option Datetime) (t : ℕ) (end : Datetime)
    → NotBefore previous t
    → Until previous end
    → t ≤ end.instant
Until-le none t end h u = absurd h
Until-le (some p) t end h u = omega arith

module _ {F : Type 0} (f : Float F) (policy : ThresholdStoppingPolicy F)
    (run_id entity_id : String) where
  -- One episode behind `n` others, the last of which ended at `low`.
  pub record IsEpisode (n : ℕ) (low : Option ℕ) (e : FusionEpisode F) : Type 0 where
    pub numbered : e.episode_id ≡ episode_id (n + 1)
    pub of_run : e.run_id ≡ run_id
    pub of_entity : e.entity_id ≡ entity_id
    pub apart : After low e.start_time.instant
    pub forward : e.start_time.instant ≤ e.end_time.instant
    pub high : f.at_most policy.threshold_on e.score_at_start ≡ true
    pub peak : f.less e.peak_score e.score_at_start ≡ false

  abbrev pub Episodes : ℕ → Option ℕ → List (FusionEpisode F) → Type 0
  Episodes n low [] = Unit
  Episodes n low (e ∷ es) = IsEpisode n low e × Episodes (n + 1) (some e.end_time.instant) es

  abbrev last_end : Option ℕ → List (FusionEpisode F) → Option ℕ
  last_end low [] = low
  last_end low (e ∷ es) = last_end (some e.end_time.instant) es

  Episodes-append :
      (n : ℕ) (low : Option ℕ) (es : List (FusionEpisode F)) (e : FusionEpisode F)
      → Episodes n low es
      → IsEpisode (length es + n) (last_end low es) e
      → Episodes n low (es ++ e ∷ [])
  Episodes-append n low [] e h k = (rw zero-add at k, tt)
  Episodes-append n low (x ∷ es) e h k = (
    h.0,
    Episodes-append (n + 1) (some x.end_time.instant) es e h.1
        (subst (λ m. IsEpisode m (last_end (some x.end_time.instant) es) e) shift k),
  )
    where
      shift : suc (length es) + n ≡ length es + (n + 1)
      shift = omega arith

  last_end-append :
      (low : Option ℕ) (es : List (FusionEpisode F)) (e : FusionEpisode F)
      → last_end low (es ++ e ∷ []) ≡ some e.end_time.instant
  last_end-append low [] e = refl
  last_end-append low (x ∷ es) e = last_end-append (some x.end_time.instant) es e

  -- The phase behind the closed episodes, after the point at `previous`.
  abbrev PhaseFits : List (FusionEpisode F) → Option Datetime → Phase F → Type 0
  PhaseFits closed previous (idle n) = Unit
  PhaseFits closed previous (inside start at_start peak) =
      After (last_end none closed) start.instant
      × NotBefore previous start.instant
      × (f.at_most policy.threshold_on at_start ≡ true)
      × (f.less peak at_start ≡ false)

  record Fits (previous : Option Datetime) (v : View F) : Type 0 where
    closed_fit : Episodes 0 none v.closed
    passed : Passed previous (last_end none v.closed)
    phase_fits : PhaseFits v.closed previous v.phase

  closing :
      (previous : Option Datetime) (closed : List (FusionEpisode F)) (start : Datetime)
      (at_start peak : F) (end : Datetime) (reason : FusionEndReason)
      → PhaseFits closed previous (inside start at_start peak)
      → start.instant ≤ end.instant
      → IsEpisode
          (length closed + 0)
          (last_end none closed)
          (episode f policy run_id entity_id closed end reason start at_start peak)
  closing previous closed start at_start peak end reason fits forward = record {
    numbered = ap (λ m. episode_id (m + 1)) (omega arith);
    of_run = refl;
    of_entity = refl;
    apart = fits.0;
    forward = forward;
    high = fits.2;
    peak = fits.3;
  }

  -- What the tests at the head of the loop's body say of the order.
  validated :
      (end : Datetime) (previous : Option Datetime) (point : ScorePoint F)
      → validate_point f end previous point ≡ ok tt
      → (not_increasing previous point.timestamp ≡ false) × (point.timestamp.instant ≤ end.instant)
  unfolding validate_point
  validated end none point h = (refl, ground arith)
  validated end (some p) point h = (ground arith, ground arith)

  module _ (laws : FloatLaws f) where
    advance-Fits :
        (closed : List (FusionEpisode F)) (p : Phase F) (previous : Option Datetime)
        (point : ScorePoint F)
        → not_increasing previous point.timestamp ≡ false
        → Fits previous (record { phase = p; closed = closed })
        → Fits (some point.timestamp) (advance_phase f policy run_id entity_id closed point p)
    advance-Fits closed (idle n) previous point later h =
        elim (Bool-cases (f.at_most policy.threshold_on point.score)) [
          | inl high ↦ elim (Bool-cases (leb policy.persistence_k (n + 1))) [
            | inl reached ↦
                rw (high, reached)
                  (record {
                    closed_fit = h.closed_fit;
                    passed = step.0;
                    phase_fits = (step.1, omega arith, high, laws.less_irrefl point.score);
                  })
            | inr short ↦
                rw (high, short)
                  (record { closed_fit = h.closed_fit; passed = step.0; phase_fits = tt })
          ]
          | inr low ↦
              rw low (record { closed_fit = h.closed_fit; passed = step.0; phase_fits = tt })
        ]
      where
        step :
            Passed (some point.timestamp) (last_end none closed)
            × After (last_end none closed) point.timestamp.instant
        step = Passed-later previous (last_end none closed) point.timestamp later h.passed
    advance-Fits closed (inside start at_start peak) previous point later h =
        elim (Bool-cases (f.less point.score policy.threshold_off)) [
          | inl release ↦ rw release (record {
            closed_fit = Episodes-append 0 none closed done h.closed_fit (
                closing previous closed start at_start peak point.timestamp released h.phase_fits
                  (omega (arith, inside_later)));
            passed = rw (last_end-append none closed done) (omega arith);
            phase_fits = tt;
          })
          | inr stay ↦ rw stay (record {
            closed_fit = h.closed_fit;
            passed = step.0;
            phase_fits = (h.phase_fits.0, omega (arith, inside_later), h.phase_fits.2, raised);
          })
        ]
      where
        done : FusionEpisode F
        done = episode f policy run_id entity_id closed point.timestamp released start at_start peak

        step :
            Passed (some point.timestamp) (last_end none closed)
            × After (last_end none closed) point.timestamp.instant
        step = Passed-later previous (last_end none closed) point.timestamp later h.passed

        inside_later : start.instant < point.timestamp.instant
        inside_later = NotBefore-later previous start.instant point.timestamp later h.phase_fits.1

        raised : f.less (if f.less peak point.score then point.score else peak) at_start ≡ false
        raised = ground (arith, laws.less_trans peak point.score at_start, h.phase_fits.3)

    advance_all-Fits :
        (end : Datetime) (previous : Option Datetime) (v : View F) (points : List (ScorePoint F))
        → Accepted f policy run_id entity_id end previous points
        → Until previous end
        → Fits previous v
        → Fits
            (last_time f policy run_id entity_id previous points)
            (advance_all f policy run_id entity_id v points)
          × Until (last_time f policy run_id entity_id previous points) end
    advance_all-Fits end previous v [] accepted until fits = (fits, until)
    advance_all-Fits end previous v (point ∷ points) accepted until fits =
        let order = validated end previous point accepted.0 in
        advance_all-Fits end (some point.timestamp) (advance f policy run_id entity_id v point)
          points accepted.1 order.1 (advance-Fits v.closed v.phase previous point order.0 fits)

    -- The result agrees with its episodes: a detection is the first one's start and score, and a miss
    -- has none.
    abbrev pub Consistent : StoppingResult F → Type 0
    Consistent r = elim r.fusion_status [
      | detected ↦
          (e : FusionEpisode F) × (es : List (FusionEpisode F)) × (r.fusion_episodes ≡ e ∷ es)
          × (r.fusion_time ≡ some e.start_time)
          × (r.score_at_decision ≡ some e.score_at_start)
      | miss ↦ (r.fusion_episodes ≡ []) × (r.fusion_time ≡ none) × (r.score_at_decision ≡ none)
      | not_evaluated ↦ ⊥
    ]

    result_of-Consistent :
        (end : Datetime) (boundary : FusionEndReason) (closed : List (FusionEpisode F))
        (p : Phase F)
        → Consistent (
            result_of f policy run_id entity_id end boundary
              (record { phase = p; closed = closed }))
    result_of-Consistent end boundary [] (idle n) = (refl, refl, refl)
    result_of-Consistent end boundary (e ∷ es) (idle n) = (e, es, refl, refl, refl)
    result_of-Consistent end boundary [] (inside start at_start peak) = (
      episode f policy run_id entity_id [] end boundary start at_start peak,
      [],
      refl,
      refl,
      refl,
    )
    result_of-Consistent end boundary (e ∷ es) (inside start at_start peak) = (
      e,
      es ++ episode f policy run_id entity_id (e ∷ es) end boundary start at_start peak ∷ [],
      refl,
      refl,
      refl,
    )

    result_of-Episodes :
        (end : Datetime) (boundary : FusionEndReason) (previous : Option Datetime)
        (closed : List (FusionEpisode F)) (p : Phase F)
        → Until previous end
        → Fits previous (record { phase = p; closed = closed })
        → Episodes 0 none
            (result_of f policy run_id entity_id end boundary
              (record { phase = p; closed = closed })).fusion_episodes
    result_of-Episodes end boundary previous [] (idle n) until fits = tt
    result_of-Episodes end boundary previous (e ∷ es) (idle n) until fits = fits.closed_fit
    result_of-Episodes end boundary previous [] (inside start at_start peak) until fits =
        Episodes-append 0 none []
          (episode f policy run_id entity_id [] end boundary start at_start peak) tt
          (closing previous [] start at_start peak end boundary fits.phase_fits
            (Until-le previous start.instant end fits.phase_fits.1 until))
    result_of-Episodes end boundary previous (e ∷ es) (inside start at_start peak) until fits =
        Episodes-append 0 none (e ∷ es)
          (episode f policy run_id entity_id (e ∷ es) end boundary start at_start peak)
          fits.closed_fit
          (closing previous (e ∷ es) start at_start peak end boundary fits.phase_fits
            (Until-le previous start.instant end fits.phase_fits.1 until))

    -- On points that the loop accepts, the episodes of the result are numbered from one, belong to the
    -- run and entity, follow each other with each start after the end before it, end no earlier than
    -- they start, were opened by a score at the upper threshold, and have a peak that is not below it.
    -- A detection has the first one's start and score; a miss has no episode, time or score.
    pub evaluate-Episodes :
        (end : Datetime) (boundary : FusionEndReason) (points : List (ScorePoint F))
        (r : StoppingResult F) (seen : List (StoppingTracePoint F))
        → 1 ≤ policy.persistence_k
        → is_blank entity_id ≡ false
        → validate_utc_datetime end ≡ ok tt
        → is_boundary f policy run_id entity_id boundary ≡ true
        → Accepted f policy run_id entity_id end none points
        → evaluate f policy run_id entity_id points end boundary ≡ ok (r, seen)
        → Episodes 0 none r.fusion_episodes × Consistent r
    evaluate-Episodes end boundary points r seen positive named utc_end bounded accepted e =
        let v =
          advance_all f policy run_id entity_id (start_view f policy run_id entity_id) points in
        let lem =
          evaluate_lem f policy run_id entity_id end boundary points positive named utc_end bounded
            accepted in
        let same : result_of f policy run_id entity_id end boundary v ≡ r = cc lem in
        let start : Fits none (start_view f policy run_id entity_id) = record {
          closed_fit = tt;
          passed = tt;
          phase_fits = tt;
        } in
        let fits =
          advance_all-Fits end none (start_view f policy run_id entity_id) points accepted tt
            start in
        (
          subst (λ (r : StoppingResult F). Episodes 0 none r.fusion_episodes) same
              (result_of-Episodes end boundary (last_time f policy run_id entity_id none points)
                v.closed v.phase fits.1 fits.0),
          subst Consistent same (result_of-Consistent end boundary v.closed v.phase),
        )
