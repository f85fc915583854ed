-- ===== src/Hybrid.antt =====
-- The Hybrid decision (decision/hybrid.py): the Fast and the Fusion result combined by the truth table.
pub mod Table
pub mod Combine
mod Tests
use incident_awareness_engin.Float.{Float}
use incident_awareness_engin.Fusion.Stopping.Point.{FusionStatus}
use incident_awareness_engin.Fusion.Stopping.Point as Fusion
use incident_awareness_engin.Model.Decision.{
  DecisionResult, DecisionPath, fast, fusion, fast_and_fusion, none_path, WinningPath, fast_wins,
  fusion_wins, tie, none_wins, earlier, winner, validate_decision,
}
use incident_awareness_engin.Model.Detection.{
  DetectionResult, DetectorStatus, detected, miss, not_evaluated, validate_detection,
}
use incident_awareness_engin.Model.Error.{
  ContractError, field_invalid, parallel_not_required, identifier_invalid, run_or_entity_mismatch,
  entity_invalid, assertion_failed,
}
use incident_awareness_engin.Model.Fusion.{
  FusionResult, FusionEpisodeResult, for_each, validate_episode, validate_result,
}
use incident_awareness_engin.Prelude.{
  ℕ, ◌*◌, ◌/◌, Bool, true, false, not, ◌&&◌, ◌||◌, List, map, Option, none, some, String, Result,
  ok, err, ◌>>=◌, ◌>>◌, raise_if, if◌then◌else◌, Datetime, Zone, naive, utc, other, at, is_blank,
  is_padded, ◌==◌, string_eq,
}

-- `isoformat(timespec="milliseconds")`: what is below a millisecond is cut off.
abbrev pub to_milliseconds : Datetime → Datetime
to_milliseconds t = record t { instant = t.instant / 1000 * 1000 }

abbrev pub map_time : (Datetime → Datetime) → Option Datetime → Option Datetime
map_time g none = none
map_time g (some t) = some (g t)

-- `value.astimezone(UTC)`; `local` is the instant that the system's zone gives a naive datetime.
abbrev pub to_utc : (ℕ → ℕ) → Datetime → Datetime
to_utc local t = elim t.zone [ naive ↦ at (local t.instant) | utc ↦ t | other ↦ at t.instant ]

abbrev pub read_detection : (ℕ → ℕ) → DetectionResult → DetectionResult
read_detection local d = record d {
  detector_time = map_time (λ t. to_milliseconds (to_utc local t)) d.detector_time;
}

-- `DetectionResult.model_validate_json(detection.model_dump_json())`
unfoldable pub exchange_detection : (ℕ → ℕ) → DetectionResult → Result ContractError DetectionResult
unfolding validate_detection
exchange_detection local d = do
  validate_detection (read_detection local d)
  ok (read_detection local d)

abbrev pub status_of : FusionStatus → DetectorStatus
status_of Fusion.detected = detected
status_of Fusion.miss = miss
status_of Fusion.not_evaluated = not_evaluated

module _ {F : Type 0} (f : Float F) where
  abbrev pub exchange_episode : FusionEpisodeResult F → FusionEpisodeResult F
  exchange_episode e = record e {
    start_time = to_milliseconds e.start_time;
    end_time = map_time to_milliseconds e.end_time;
  }

  -- A value that is not finite is `null` in JSON, which no score of an episode accepts.
  abbrev pub validate_read : FusionEpisodeResult F → Result ContractError (Unit {0})
  validate_read e = do
    raise_if (not (f.is_finite e.score_at_start && f.is_finite e.peak_score)) field_invalid
    validate_episode f e

  abbrev pub finite_or_null : Option F → Option F
  finite_or_null none = none
  finite_or_null (some v) = if f.is_finite v then some v else none

  abbrev pub read_fusion : FusionResult F → FusionResult F
  read_fusion r = record r {
    fusion_time = map_time to_milliseconds r.fusion_time;
    score_at_decision = finite_or_null r.score_at_decision;
    fusion_episodes = map exchange_episode r.fusion_episodes;
  }

  -- `FusionResult.model_validate_json(fusion.model_dump_json())`
  unfoldable pub exchange_fusion : FusionResult F → Result ContractError (FusionResult F)
  unfolding validate_episode validate_result
  exchange_fusion r = do
    for_each validate_read (read_fusion r).fusion_episodes
    validate_result f (read_fusion r)
    ok (read_fusion r)

-- The locals that `combine_results` decides on.
pub record Verdict : Type 0 where
  pub t_e : Option Datetime
  pub decision_path : Option DecisionPath
  pub winning_path : Option WinningPath
  pub reason : String

abbrev pub incomplete : Verdict
incomplete = record {
  t_e = none;
  decision_path = none;
  winning_path = none;
  reason = "Required parallel evaluation was not completed";
}

abbrev pub decide_both : Option Datetime → Option Datetime → Result ContractError Verdict
decide_both none fusion_time = err assertion_failed
decide_both (some a) none = err assertion_failed
decide_both (some a) (some b) = ok (record {
  t_e = some (earlier a b);
  decision_path = some fast_and_fusion;
  winning_path = some (winner a b);
  reason = "Both paths detected; compared canonical UTC millisecond timestamps";
})

-- The chain of tests of `combine_results`.
unfoldable pub decide :
    DetectorStatus
    → DetectorStatus
    → Option Datetime
    → Option Datetime
    → Result ContractError Verdict
decide not_evaluated s detector_time fusion_time = ok incomplete
decide detected not_evaluated detector_time fusion_time = ok incomplete
decide miss not_evaluated detector_time fusion_time = ok incomplete
decide detected detected detector_time fusion_time = decide_both detector_time fusion_time
decide detected miss detector_time fusion_time = ok (record {
  t_e = detector_time;
  decision_path = some fast;
  winning_path = some fast_wins;
  reason = "Only Fast detected";
})
decide miss detected detector_time fusion_time = ok (record {
  t_e = fusion_time;
  decision_path = some fusion;
  winning_path = some fusion_wins;
  reason = "Only Fusion detected";
})
decide miss miss detector_time fusion_time = ok (record {
  t_e = none;
  decision_path = some none_path;
  winning_path = some none_wins;
  reason = "Both evaluated paths missed";
})

-- The remaining arguments of `combine_results`.
pub record Request : Type 0 where
  pub decision_id : String
  pub config_version : String
  pub parallel_required : Bool
  pub source_hit_ids : Option (List String)
  pub selected_source_hit_id : Option String
  pub supersedes_decision_id : Option String

-- `not value.strip() or value != value.strip()`
abbrev pub is_unclean : String → Bool
is_unclean s = is_blank s || is_padded s

module _ {F : Type 0} (f : Float F) where
  abbrev pub decision_of : Request → DetectionResult → FusionResult F → Verdict → DecisionResult
  decision_of q d r v = record {
    run_id = d.run_id;
    decision_id = q.decision_id;
    entity_id = d.entity_id;
    fast_status = d.detector_status;
    fusion_status = status_of r.fusion_status;
    fusion_time = r.fusion_time;
    detector_time = d.detector_time;
    t_e = v.t_e;
    decision_path = v.decision_path;
    winning_path = v.winning_path;
    decision_reason = v.reason;
    config_version = q.config_version;
    contributing_evidence_ids = some r.contributing_evidence_ids;
    model_version = r.model_version;
    rule_version = d.rule_version;
    source_hit_ids = q.source_hit_ids;
    selected_source_hit_id = q.selected_source_hit_id;
    detector_set_version = none;
    supersedes_decision_id = q.supersedes_decision_id;
  }

  -- What `combine_results` does with the two results as it has read them back.
  unfoldable pub combine_read :
      Request → DetectionResult → FusionResult F → Result ContractError DecisionResult
  unfolding decide validate_decision
  combine_read q d r = do
    raise_if (not (d.run_id == r.run_id) || not (d.entity_id == r.entity_id)) run_or_entity_mismatch
    raise_if (is_unclean d.entity_id) entity_invalid
    v ← decide d.detector_status (status_of r.fusion_status) d.detector_time r.fusion_time
    validate_decision (decision_of q d r v)
    ok (decision_of q d r v)

  -- `combine_results`
  unfoldable pub combine_results :
      (ℕ → ℕ) → Request → DetectionResult → FusionResult F → Result ContractError DecisionResult
  unfolding exchange_detection exchange_fusion combine_read
  combine_results local q detection fusion_result = do
    raise_if (not q.parallel_required) parallel_not_required
    raise_if (is_unclean q.decision_id) identifier_invalid
    raise_if (is_unclean q.config_version) identifier_invalid
    d ← exchange_detection local detection
    r ← exchange_fusion f fusion_result
    combine_read q d r
