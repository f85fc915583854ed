-- ===== src/Fusion/Result/Trace.antt =====
-- The stopping trace of a replay as `run_fusion_pipeline` exchanges it.
use incident_awareness_engin.Float.{Float}
use incident_awareness_engin.Fusion.Result.{Versions, build_points, build_trace}
use incident_awareness_engin.Fusion.Result.Contract.{IsNamed}
use incident_awareness_engin.Fusion.Result.Episodes.{utc_valid}
use incident_awareness_engin.Fusion.Stopping.Automaton.{
  Phase, idle, inside, View, advance, trace, noted, Accepted,
}
use incident_awareness_engin.Fusion.Stopping.{
  ThresholdStoppingPolicy, ScorePoint, StoppingTracePoint, validate_point, validate_utc_datetime,
  validate_score, not_increasing,
}
use incident_awareness_engin.Model.Fusion.{
  FusionStoppingTracePoint, validate_trace_point, validate_point_timestamps, validate_trace,
  validate_count,
}
use incident_awareness_engin.Prelude.{
  suc, ◌+◌, ◌%◌, ◌≡◌, refl, true, false, inl, inr, List, [], ◌∷◌, map, Option, none, some, String,
  ok, arith, All, Datetime, is_utc, nat_eq, Bool-cases,
}

module _ {F : Type 0} (f : Float F) (policy : ThresholdStoppingPolicy F)
    (run_id entity_id : String) where
  abbrev pub exchanged_point : StoppingTracePoint F → FusionStoppingTracePoint F
  exchanged_point p = record {
    timestamp = p.timestamp;
    score = p.score;
    persistence_count = p.persistence_count;
    policy_state = p.policy_state;
  }

  accepted_facts :
      (end : Datetime) (previous : Option Datetime) (p : ScorePoint F)
      → validate_point f end previous p ≡ ok tt
      → (is_utc p.timestamp ≡ true)
        × (f.is_finite p.score ≡ true)
        × (f.at_most f.zero p.score ≡ true)
        × (f.at_most p.score f.one ≡ true)
        × (not_increasing previous p.timestamp ≡ false)
  unfolding validate_point validate_utc_datetime validate_score
  accepted_facts end previous p h =
      (ground arith, ground arith, ground arith, ground arith, ground arith)

  counts :
      (before : Phase F) (p : ScorePoint F) (after : Phase F)
      → validate_count f (noted f policy run_id entity_id before p after).persistence_count ≡ ok tt
  counts (idle n) p after = elim (Bool-cases (f.at_most policy.threshold_on p.score)) [
    | inl high ↦ let next : n + 1 ≡ suc n = omega arith in rw (high, next) refl
    | inr low ↦ rw low refl
  ]
  counts (inside start at_start peak) p after = refl

  point_valid :
      (end : Datetime) (previous : Option Datetime) (p : ScorePoint F) (before after : Phase F)
      → validate_point f end previous p ≡ ok tt
      → p.timestamp.instant % 1000 ≡ 0
      → validate_trace_point f (exchanged_point (noted f policy run_id entity_id before p after))
        ≡ ok tt
  unfolding validate_trace_point
  point_valid end previous p before after h aligned =
      let (utc, finite, nonneg, le_one, _) = accepted_facts end previous p h in
      rw
        (
          utc_valid p.timestamp utc,
          (nat_eq.beq_iff (p.timestamp.instant % 1000) 0).1 aligned,
          nonneg,
          le_one,
          finite,
        )
        (counts before p after)

  build_points_lem :
      (end : Datetime) (previous : Option Datetime) (v : View F) (points : List (ScorePoint F))
      → Accepted f policy run_id entity_id end previous points
      → All (λ (p : ScorePoint F). p.timestamp.instant % 1000 ≡ 0) points
      → build_points f (trace f policy run_id entity_id v points)
        ≡ ok (map exchanged_point (trace f policy run_id entity_id v points))
  unfolding build_points
  build_points_lem end previous v [] h aligned = refl
  build_points_lem end previous v (p ∷ points) h aligned =
      let v' = advance f policy run_id entity_id v p in
      rw
        (
          point_valid end previous p v.phase v'.phase h.0 aligned.0,
          build_points_lem end (some p.timestamp) v' points h.1 aligned.1,
        )
        refl

  timestamps_rise :
      (end : Datetime) (previous : Option Datetime) (v : View F) (points : List (ScorePoint F))
      → Accepted f policy run_id entity_id end previous points
      → validate_point_timestamps f previous
          (map exchanged_point (trace f policy run_id entity_id v points))
        ≡ ok tt
  unfolding validate_point_timestamps
  timestamps_rise end previous v [] h = refl
  timestamps_rise end none v (p ∷ points) h =
      timestamps_rise end (some p.timestamp) (advance f policy run_id entity_id v p) points h.1
  timestamps_rise end (some q) v (p ∷ points) h =
      rw (accepted_facts end (some q) p h.0).4
        (timestamps_rise end (some p.timestamp) (advance f policy run_id entity_id v p) points h.1)

  -- The trace passes its validators: every point's, and the strict order of their times.
  pub build_trace_lem :
      (versions : Versions) (end : Datetime) (v : View F) (points : List (ScorePoint F))
      → IsNamed run_id entity_id versions
      → Accepted f policy run_id entity_id end none points
      → All (λ (p : ScorePoint F). p.timestamp.instant % 1000 ≡ 0) points
      → build_trace f (run_id, entity_id) versions (trace f policy run_id entity_id v points)
        ≡ ok (record {
          run_id = run_id;
          entity_id = entity_id;
          scoring_config_version = versions.scoring_config_version;
          points = map exchanged_point (trace f policy run_id entity_id v points);
        })
  unfolding build_trace validate_trace
  build_trace_lem versions end v points named h aligned =
      rw
        (
          build_points_lem end none v points h aligned,
          named.run,
          named.entity,
          named.config,
          timestamps_rise end none v points h,
        )
        refl
