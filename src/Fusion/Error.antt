-- ===== src/Fusion/Error.antt =====
-- The exceptions that decision/fusion raises, one constructor for each message.
pub data FusionError : Type 0 where
  -- simple_score.py
  evidence_types_empty evidence_types_blank evidence_types_duplicate : FusionError
  -- window_engine.py
  window_size_not_positive ingest_before_advance ingest_decreasing : FusionError
  timestamp_naive timestamp_not_utc advance_decreasing advance_before_ingested : FusionError
  -- stopping_policy.py
  threshold_on_range threshold_off_range threshold_order persistence_too_small : FusionError
  entity_id_blank score_not_finite score_out_of_range : FusionError
  point_not_increasing point_after_run_end assertion_failed boundary_reason_invalid : FusionError
  -- temporal_replay.py
  step_size_not_positive run_end_before_start : FusionError
  replay_end_before_start replay_end_after_run_end end_not_aligned : FusionError
  evidence_run_mismatch evidence_entity_mismatch : FusionError
  evidence_before_start evidence_after_end evidence_decreasing : FusionError
  duplicate_scheduled_id evidence_outside_replay : FusionError
  available_outside_replay available_before_timestamp : FusionError
  -- result_builder.py
  missing_episode_snapshot missing_fusion_time missing_decision_snapshot : FusionError
  -- `OverflowError` of a datetime sum or difference
  overflow : FusionError
  -- the bound on a loop's rounds, which no call meets
  out_of_rounds : FusionError
