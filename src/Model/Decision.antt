-- ===== src/Model/Decision.antt =====
-- The exchanged Hybrid decision (common/models/result.py, `DecisionResult`), with the validators that its
-- constructor runs.
use incident_awareness_engin.Model.Detection.{
  DetectorStatus, detected, miss, not_evaluated, validate_time, is_missing, is_detected,
  status_time,
}
use incident_awareness_engin.Model.Error.{
  ContractError, decision_id_dot_segment, fast_time_missing, fast_time_unexpected,
  fusion_time_missing, fusion_time_unexpected, not_evaluated_with_path, time_not_earliest,
  path_not_both, winner_not_earliest, not_fast_alone, not_fusion_alone, not_both_missed, hit_blank,
  hit_duplicate, selected_hit_blank, selected_hit_unknown, selected_without_detection,
}
use incident_awareness_engin.Model.Fusion.{non_empty}
use incident_awareness_engin.Model.RunId.{validate_run_id}
use incident_awareness_engin.Prelude.{
  Bool, true, false, not, ◌&&◌, ◌||◌, List, Option, none, some, String, Result, ok, ◌>>◌, raise_if,
  ltb, eqb, if◌then◌else◌, Datetime, is_blank, any, contains, set_of, length, ◌==◌, string_eq,
}

pub data DecisionPath : Type 0 where
  fast fusion fast_and_fusion none_path : DecisionPath

pub data WinningPath : Type 0 where
  fast_wins fusion_wins tie none_wins : WinningPath

pub record DecisionResult : Type 0 where
  pub run_id : String
  pub decision_id : String
  pub entity_id : String
  pub fast_status : DetectorStatus
  pub fusion_status : DetectorStatus
  pub fusion_time : Option Datetime
  pub detector_time : Option Datetime
  pub t_e : Option Datetime
  pub decision_path : Option DecisionPath
  pub winning_path : Option WinningPath
  pub decision_reason : String
  pub config_version : String
  pub contributing_evidence_ids : Option (List String)
  pub model_version : Option String
  pub rule_version : Option String
  pub source_hit_ids : Option (List String)
  pub selected_source_hit_id : Option String
  pub detector_set_version : Option String
  pub supersedes_decision_id : Option String

-- `a == b` of two optional datetimes in UTC.
abbrev pub same_time : Option Datetime → Option Datetime → Bool
same_time none none = true
same_time (some a) (some b) = eqb a.instant b.instant
same_time _ _ = false

-- `min(a, b)`, the first where they are equal.
abbrev pub earlier : Datetime → Datetime → Datetime
earlier a b = if ltb b.instant a.instant then b else a

abbrev pub is_path : DecisionPath → Option DecisionPath → Bool
is_path fast (some fast) = true
is_path fusion (some fusion) = true
is_path fast_and_fusion (some fast_and_fusion) = true
is_path none_path (some none_path) = true
is_path _ _ = false

abbrev pub is_winner : WinningPath → Option WinningPath → Bool
is_winner fast_wins (some fast_wins) = true
is_winner fusion_wins (some fusion_wins) = true
is_winner tie (some tie) = true
is_winner none_wins (some none_wins) = true
is_winner _ _ = false

-- The path of the earlier time, and a tie where they agree.
abbrev pub winner : Datetime → Datetime → WinningPath
winner fast_time fusion_time =
    if ltb fast_time.instant fusion_time.instant
    then fast_wins
    else if ltb fusion_time.instant fast_time.instant
    then fusion_wins
    else tie

-- `reject_dot_segment_decision_id`
unfoldable pub reject_dot_segment : Option String → Result ContractError (Unit {0})
reject_dot_segment none = ok tt
reject_dot_segment (some s) = raise_if (s == "." || s == "..") decision_id_dot_segment

-- `validate_status_times`
unfoldable pub validate_status_times : DecisionResult → Result ContractError (Unit {0})
validate_status_times d = do
  status_time fast_time_missing fast_time_unexpected d.fast_status d.detector_time
  status_time fusion_time_missing fusion_time_unexpected d.fusion_status d.fusion_time

-- The branch of `validate_decision_paths` on two detections.
abbrev pub validate_both :
    DecisionResult → Option Datetime → Option Datetime → Result ContractError (Unit {0})
validate_both d none fusion_time = ok tt
validate_both d (some a) none = ok tt
validate_both d (some a) (some b) = do
  raise_if (not (same_time d.t_e (some (earlier a b)))) time_not_earliest
  raise_if (not (is_path fast_and_fusion d.decision_path)) path_not_both
  raise_if (not (is_winner (winner a b) d.winning_path)) winner_not_earliest

abbrev pub validate_not_evaluated_paths : DecisionResult → Result ContractError (Unit {0})
validate_not_evaluated_paths d =
    raise_if (not (is_missing d.t_e && is_missing d.decision_path && is_missing d.winning_path))
      not_evaluated_with_path

-- The branch on one detection alone, with the time and the paths that it asks for.
abbrev pub validate_alone :
    DecisionResult
    → DecisionPath
    → WinningPath
    → ContractError
    → Option Datetime
    → Result ContractError (Unit {0})
validate_alone d path wins e none = ok tt
validate_alone d path wins e (some t) =
    raise_if
      (not (same_time d.t_e (some t))
        || not (is_path path d.decision_path)
        || not (is_winner wins d.winning_path))
      e

abbrev pub validate_missed : DecisionResult → Result ContractError (Unit {0})
validate_missed d =
    raise_if
      (not (is_missing d.t_e)
        || not (is_path none_path d.decision_path)
        || not (is_winner none_wins d.winning_path))
      not_both_missed

-- `validate_decision_paths`
unfoldable pub validate_decision_paths : DecisionResult → Result ContractError (Unit {0})
validate_decision_paths d = by_paths d.fast_status d.fusion_status
  where
    by_paths : DetectorStatus → DetectorStatus → Result ContractError (Unit {0})
    by_paths not_evaluated s = validate_not_evaluated_paths d
    by_paths detected not_evaluated = validate_not_evaluated_paths d
    by_paths miss not_evaluated = validate_not_evaluated_paths d
    by_paths detected detected = validate_both d d.detector_time d.fusion_time
    by_paths detected miss = validate_alone d fast fast_wins not_fast_alone d.detector_time
    by_paths miss detected = validate_alone d fusion fusion_wins not_fusion_alone d.fusion_time
    by_paths miss miss = validate_missed d

-- The first part of `validate_fast_hit_provenance`.
abbrev pub validate_hits : Option (List String) → Result ContractError (Unit {0})
validate_hits none = ok tt
validate_hits (some hits) = do
  raise_if (any is_blank hits) hit_blank
  raise_if (not (eqb (length hits) (length (set_of hits)))) hit_duplicate

abbrev pub is_listed : String → Option (List String) → Bool
is_listed hit none = false
is_listed hit (some hits) = contains hit hits

abbrev pub validate_selected :
    DetectorStatus → Option (List String) → Option String → Result ContractError (Unit {0})
validate_selected status hits none = ok tt
validate_selected status hits (some hit) = do
  raise_if (is_blank hit) selected_hit_blank
  raise_if (not (is_listed hit hits)) selected_hit_unknown
  raise_if (not (is_detected status)) selected_without_detection

-- `validate_fast_hit_provenance`, of the fields that it reads.
unfoldable pub validate_provenance :
    DetectorStatus → Option (List String) → Option String → Result ContractError (Unit {0})
validate_provenance status hits selected = do
  validate_hits hits
  validate_selected status hits selected

-- What the constructor of a `DecisionResult` checks.
unfoldable pub validate_decision : DecisionResult → Result ContractError (Unit {0})
unfolding validate_run_id validate_time reject_dot_segment validate_status_times
    validate_decision_paths validate_provenance
validate_decision d = do
  non_empty d.run_id
  validate_run_id d.run_id
  non_empty d.decision_id
  reject_dot_segment (some d.decision_id)
  non_empty d.entity_id
  validate_time d.fusion_time
  validate_time d.detector_time
  validate_time d.t_e
  non_empty d.decision_reason
  non_empty d.config_version
  reject_dot_segment d.supersedes_decision_id
  validate_status_times d
  validate_decision_paths d
  validate_provenance d.fast_status d.source_hit_ids d.selected_source_hit_id
