-- ===== src/Hybrid/Tests.antt =====
-- A concrete combination of a Fast and a Fusion result.
use incident_awareness_engin.Float.{Millionths, millionths}
use incident_awareness_engin.Fusion.Stopping.Point as Fusion
use incident_awareness_engin.Hybrid.{
  Verdict, Request, decision_of, exchange_detection, exchange_fusion, combine_results, is_unclean,
}
use incident_awareness_engin.Hybrid.Combine.{IsRequest, combine_results_accepted}
use incident_awareness_engin.Hybrid.Table.{IsEarliest}
use incident_awareness_engin.Model.Decision.{
  validate_decision, reject_dot_segment, validate_provenance,
}
use incident_awareness_engin.Model.Detection.{DetectionResult, detected, high}
use incident_awareness_engin.Model.Fusion.{FusionResult, FusionEpisodeResult}
use incident_awareness_engin.Prelude.{
  ◌≡◌, refl, true, false, [], ◌∷◌, none, some, ok, at, is_blank, is_padded, string_eq, is_empty,
}

abbrev detection : DetectionResult
detection = record {
  run_id = "RUN-20240229-001";
  entity_id = "host-1";
  detector_time = some (at 12_000);
  detector_status = detected;
  detector_id = some "rule-7";
  rule_id = none;
  rule_version = some "r1";
  severity = some high;
}

abbrev episode : FusionEpisodeResult Millionths
episode = record {
  episode_id = "FEP-001";
  run_id = "RUN-20240229-001";
  entity_id = "host-1";
  start_time = at 11_000;
  end_time = some (at 14_000);
  end_reason = some Fusion.run_end;
  score_at_start = some 1_000_000;
  peak_score = some 1_000_000;
  contributing_evidence_ids = some ("a" ∷ []);
}

abbrev fusion_result : FusionResult Millionths
fusion_result = record {
  run_id = "RUN-20240229-001";
  entity_id = "host-1";
  fusion_time = some (at 11_000);
  fusion_status = Fusion.detected;
  score_at_decision = some (some 1_000_000);
  contributing_evidence_ids = "a" ∷ [];
  scoring_config_version = "v1";
  scoring_profile_id = "p1";
  model_version = none;
  scoring_method = "simple";
  scorer_version = "s1";
  fusion_episodes = episode ∷ [];
}

abbrev request : Request
request = record {
  decision_id = "D-1";
  config_version = "c1";
  parallel_required = true;
  source_hit_ids = some ("hit-1" ∷ "hit-2" ∷ []);
  selected_source_hit_id = some "hit-2";
  supersedes_decision_id = none;
}

request-IsRequest : IsRequest request detected
unfolding is_blank is_padded reject_dot_segment validate_provenance
request-IsRequest = record {
  parallel = refl;
  decision = refl;
  config = refl;
  no_dots = refl;
  superseded = refl;
  provenance = refl;
}

detection-read : exchange_detection (λ t. t) detection ≡ ok detection
unfolding exchange_detection is_empty
detection-read = refl

fusion-read : exchange_fusion millionths fusion_result ≡ ok fusion_result
unfolding exchange_fusion is_empty
fusion-read = refl

entity-clean : is_unclean detection.entity_id ≡ false
unfolding is_blank is_padded
entity-clean = refl

combine_results_accepted_example :
    (v : Verdict) × (combine_results millionths (λ t. t) request detection fusion_result
      ≡ ok (decision_of millionths request detection fusion_result v))
    × (validate_decision (decision_of millionths request detection fusion_result v) ≡ ok tt)
    × IsEarliest detected detected (some (at 12_000)) (some (at 11_000)) v
combine_results_accepted_example =
    combine_results_accepted millionths (λ t. t) request detection detection fusion_result
      fusion_result request-IsRequest detection-read fusion-read refl refl entity-clean
