-- ===== src/Model/Error.antt =====
-- The errors of the exchanged models (common/models) and of decision/hybrid.py, one constructor for each
-- message.
pub data ContractError : Type 0 where
  -- `min_length=1`, a range or a pattern of a field
  field_invalid : ContractError
  run_id_pattern run_id_date : ContractError
  datetime_naive datetime_not_utc datetime_not_milliseconds : ContractError
  -- fusion.py
  points_not_increasing : ContractError
  end_reason_without_end end_without_reason end_before_start : ContractError
  episode_run_mismatch episode_entity_mismatch episode_id_duplicate : ContractError
  detected_without_time detected_without_episodes time_not_first_start : ContractError
  detected_without_score score_not_first_score : ContractError
  detected_without_evidence evidence_not_first_evidence : ContractError
  miss_with_time miss_with_episodes : ContractError
  not_evaluated_with_time not_evaluated_with_score not_evaluated_with_episodes : ContractError
  -- result.py
  detector_time_missing detector_id_missing detector_time_unexpected : ContractError
  decision_id_dot_segment : ContractError
  fast_time_missing fast_time_unexpected fusion_time_missing fusion_time_unexpected : ContractError
  not_evaluated_with_path time_not_earliest path_not_both winner_not_earliest : ContractError
  not_fast_alone not_fusion_alone not_both_missed : ContractError
  hit_blank hit_duplicate selected_hit_blank selected_hit_unknown selected_without_detection :
      ContractError
  -- r1_stream.py
  events_repeated event_of_other_partition partitions_repeated watermark_of_other_run :
      ContractError
  -- hybrid.py
  parallel_not_required identifier_invalid run_or_entity_mismatch entity_invalid assertion_failed :
      ContractError
