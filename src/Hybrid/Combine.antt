-- ===== src/Hybrid/Combine.antt =====
-- `combine_results` as a whole: on results that were read back it always returns a decision, which its
-- contract accepts.
use mathlib.Core.Path.{subst}
use incident_awareness_engin.Float.{Float}
use incident_awareness_engin.Hybrid.{
  Verdict, Request, decide, decision_of, status_of, exchange_detection, exchange_fusion,
  read_detection, read_fusion, validate_read, combine_read, combine_results, is_unclean, map_time,
  to_milliseconds,
}
use incident_awareness_engin.Hybrid.Table.{Agrees, IsEarliest, Accepts, decide-Accepts}
use incident_awareness_engin.Model.Decision.{
  DecisionResult, reject_dot_segment, validate_provenance, validate_decision,
}
use incident_awareness_engin.Model.Detection.{
  DetectionResult, DetectorStatus, validate_detection, validate_detector_status_time, validate_time,
  is_missing,
}
use incident_awareness_engin.Model.Fusion.{
  FusionResult, FusionEpisodeResult, non_empty, optional_non_empty, for_each, validate_result,
  validate_status_contract, validate_utc, validate_optional_utc, by_status, validate_miss,
  validate_not_evaluated, validate_detected,
}
use incident_awareness_engin.Model.RunId.{validate_run_id}
use incident_awareness_engin.Prelude.{
  ℕ, ◌*◌, ◌/◌, ◌%◌, ◌≡◌, refl, ap, sym, true, false, List, Option, none, some, String, ok, arith,
  eqb, nat_eq, Datetime, is_blank, is_empty, ◌==◌, string_eq, >>=-eq-ok, >>-eq-ok,
}

-- The caller's arguments as `combine_results` and the decision's own checks accept them.
pub record IsRequest (q : Request) (status : DetectorStatus) : Type 0 where
  pub parallel : q.parallel_required ≡ true
  pub decision : is_unclean q.decision_id ≡ false
  pub config : is_unclean q.config_version ≡ false
  pub no_dots : reject_dot_segment (some q.decision_id) ≡ ok tt
  pub superseded : reject_dot_segment q.supersedes_decision_id ≡ ok tt
  pub provenance : validate_provenance status q.source_hit_ids q.selected_source_hit_id ≡ ok tt

named_of_full : (s : String) → is_blank s ≡ false → is_empty s ≡ false
unfolding is_blank is_empty
named_of_full String.[] h = cc
named_of_full (String.◌∷◌ c s) h = refl

record Detected (d : DetectionResult) : Type 0 where
  run : is_empty d.run_id ≡ false
  dated : validate_run_id d.run_id ≡ ok tt
  entity : is_empty d.entity_id ≡ false
  timed : validate_time d.detector_time ≡ ok tt
  agrees : Agrees d.detector_status d.detector_time

detector-Agrees :
    (d : DetectionResult)
    → validate_detector_status_time d ≡ ok tt
    → Agrees d.detector_status d.detector_time
unfolding validate_detector_status_time
detector-Agrees d h = ground arith

detection_facts : (d : DetectionResult) → validate_detection d ≡ ok tt → Detected d
unfolding validate_detection
detection_facts d h = record {
  run = ground arith;
  dated = ground arith;
  entity = ground arith;
  timed = ground arith;
  agrees = detector-Agrees d (ground arith);
}

aligned : (t : Datetime) → eqb ((to_milliseconds t).instant % 1000) 0 ≡ true
aligned t = (nat_eq.beq_iff (t.instant / 1000 * 1000 % 1000) 0).1 (omega arith)

fusion_time_valid :
    (time : Option Datetime)
    → validate_optional_utc (map_time to_milliseconds time) ≡ ok tt
    → validate_time (map_time to_milliseconds time) ≡ ok tt
unfolding validate_time validate_utc
fusion_time_valid none h = refl
fusion_time_valid (some t) h = ground (arith, aligned t)

module _ {F : Type 0} (f : Float F) where
  miss_agrees :
      (time : Option Datetime) (es : List (FusionEpisodeResult F))
      → validate_miss f time es ≡ ok tt
      → is_missing time ≡ true
  miss_agrees none es h = refl
  miss_agrees (some t) es h = cc

  not_evaluated_agrees :
      (time : Option Datetime) (score : Option F) (es : List (FusionEpisodeResult F))
      → validate_not_evaluated f time score es ≡ ok tt
      → is_missing time ≡ true
  not_evaluated_agrees none score es h = refl
  not_evaluated_agrees (some t) score es h = cc

  detected_agrees :
      (r : FusionResult F) (time : Option Datetime) (es : List (FusionEpisodeResult F))
      (score : Option F)
      → validate_detected f r time es score ≡ ok tt
      → is_missing time ≡ false
  detected_agrees r none es score h = cc
  detected_agrees r (some t) es score h = refl

  status-Agrees :
      (r : FusionResult F)
      → by_status f r ≡ ok tt
      → Agrees (status_of r.fusion_status) r.fusion_time
  status-Agrees r h = ground (
    arith,
    miss_agrees r.fusion_time r.fusion_episodes,
    not_evaluated_agrees r.fusion_time r.score_at_decision r.fusion_episodes,
    detected_agrees r r.fusion_time r.fusion_episodes r.score_at_decision,
  )

  status_branch :
      (r : FusionResult F) → validate_status_contract f r ≡ ok tt → by_status f r ≡ ok tt
  unfolding validate_status_contract
  status_branch r h =
      let owners = >>-eq-ok _ _ h in let distinct = >>-eq-ok _ _ owners.1 in distinct.1

  result_facts :
      (r : FusionResult F)
      → validate_result f r ≡ ok tt
      → (validate_optional_utc r.fusion_time ≡ ok tt)
        × Agrees (status_of r.fusion_status) r.fusion_time
  unfolding validate_result
  result_facts r h =
      let a = >>-eq-ok _ _ h in
      let b = >>-eq-ok _ _ a.1 in
      let c = >>-eq-ok _ _ b.1 in
      let d = >>-eq-ok (non_empty r.scoring_config_version) _ c.1 in
      let e = >>-eq-ok (non_empty r.scoring_profile_id) _ d.1 in
      let g = >>-eq-ok (optional_non_empty r.model_version) _ e.1 in
      let i = >>-eq-ok (non_empty r.scoring_method) _ g.1 in
      let j = >>-eq-ok (non_empty r.scorer_version) _ i.1 in
      (c.0, status-Agrees r (status_branch r j.1))

  read_back :
      (sent r : FusionResult F)
      → exchange_fusion f sent ≡ ok r
      → (validate_result f r ≡ ok tt) × (r.fusion_time ≡ map_time to_milliseconds sent.fusion_time)
  unfolding exchange_fusion
  read_back sent r h =
      let (_, _, checked) =
        >>=-eq-ok (for_each (validate_read f) (read_fusion f sent).fusion_episodes) _ h in
      let (_, valid, same) = >>=-eq-ok (validate_result f (read_fusion f sent)) _ checked in
      let back : read_fusion f sent ≡ r = cc in
      (
        subst (λ (x : FusionResult F). validate_result f x ≡ ok tt) back valid,
        ap (λ (x : FusionResult F). x.fusion_time) (sym back),
      )

  fusion_facts :
      (sent r : FusionResult F)
      → exchange_fusion f sent ≡ ok r
      → (validate_time r.fusion_time ≡ ok tt) × Agrees (status_of r.fusion_status) r.fusion_time
  fusion_facts sent r h =
      let (valid, at) = read_back sent r h in
      let (utc, agrees) = result_facts r valid in
      (
        subst (λ t. validate_time t ≡ ok tt) (sym at)
            (fusion_time_valid sent.fusion_time
              (subst (λ t. validate_optional_utc t ≡ ok tt) at utc)),
        agrees,
      )

  combine_read-eq :
      (q : Request) (d : DetectionResult) (r : FusionResult F) (v : Verdict)
      → d.run_id ≡ r.run_id
      → d.entity_id ≡ r.entity_id
      → is_unclean d.entity_id ≡ false
      → decide d.detector_status (status_of r.fusion_status) d.detector_time r.fusion_time ≡ ok v
      → validate_decision (decision_of f q d r v) ≡ ok tt
      → combine_read f q d r ≡ ok (decision_of f q d r v)
  unfolding combine_read
  combine_read-eq q d r v same_run same_entity clean decided valid =
      let run : (d.run_id == r.run_id) ≡ true = (string_eq.beq_iff d.run_id r.run_id).1 same_run in
      let entity : (d.entity_id == r.entity_id) ≡ true =
        (string_eq.beq_iff d.entity_id r.entity_id).1 same_entity in
      rw (run, entity, clean, decided, valid) refl

  full_of_clean : (s : String) → is_unclean s ≡ false → is_empty s ≡ false
  full_of_clean s h = named_of_full s (ground arith)

  decision_valid :
      (q : Request) (d : DetectionResult) (r : FusionResult F) (v : Verdict)
      → IsRequest q d.detector_status
      → Detected d
      → validate_time r.fusion_time ≡ ok tt
      → Accepts
          (λ v. decision_of f q d r v)
          d.detector_status
          (status_of r.fusion_status)
          d.detector_time
          r.fusion_time
          v
      → validate_decision (decision_of f q d r v) ≡ ok tt
  unfolding validate_decision
  decision_valid q d r v request facts timed a =
      rw
        (
          facts.run,
          facts.dated,
          full_of_clean q.decision_id request.decision,
          request.no_dots,
          facts.entity,
          timed,
          facts.timed,
          a.timed,
          a.named,
          full_of_clean q.config_version request.config,
          request.superseded,
          a.times,
          a.paths,
          request.provenance,
        )
        refl

  combine_results-eq :
      (local : ℕ → ℕ) (q : Request) (detection d : DetectionResult) (sent r : FusionResult F)
      (out : DecisionResult)
      → IsRequest q d.detector_status
      → exchange_detection local detection ≡ ok d
      → exchange_fusion f sent ≡ ok r
      → combine_read f q d r ≡ ok out
      → combine_results f local q detection sent ≡ ok out
  unfolding combine_results
  combine_results-eq local q detection d sent r out request read received combined =
      rw (request.parallel, request.decision, request.config, read, received, combined) refl

  detection_read :
      (local : ℕ → ℕ) (detection d : DetectionResult)
      → exchange_detection local detection ≡ ok d
      → validate_detection d ≡ ok tt
  unfolding exchange_detection
  detection_read local detection d h =
      let (_, valid, same) = >>=-eq-ok (validate_detection (read_detection local detection)) _ h in
      let back : read_detection local detection ≡ d = cc in
      subst (λ x. validate_detection x ≡ ok tt) back valid

  -- On a Fast and a Fusion result that read back from their JSON as valid, of one run and one entity
  -- without surrounding space, and on accepted arguments, `combine_results` returns a decision that
  -- its own contract accepts. It keeps the run, the statuses and the times; where a path was not evaluated it has
  -- no time and no path, and else its time is one of the two and not later than either.
  pub combine_results_accepted :
      (local : ℕ → ℕ) (q : Request) (detection d : DetectionResult) (sent r : FusionResult F)
      → IsRequest q d.detector_status
      → exchange_detection local detection ≡ ok d
      → exchange_fusion f sent ≡ ok r
      → d.run_id ≡ r.run_id
      → d.entity_id ≡ r.entity_id
      → is_unclean d.entity_id ≡ false
      → (v : Verdict) × (combine_results f local q detection sent ≡ ok (decision_of f q d r v))
        × (validate_decision (decision_of f q d r v) ≡ ok tt)
        × IsEarliest d.detector_status (status_of r.fusion_status) d.detector_time r.fusion_time v
  combine_results_accepted local q detection d sent r request read received same_run same_entity
        clean =
      let facts = detection_facts d (detection_read local detection d read) in
      let (timed, agrees) = fusion_facts sent r received in
      let (v, accepts) =
        decide-Accepts (λ v. decision_of f q d r v) d.detector_status (status_of r.fusion_status)
          d.detector_time r.fusion_time facts.agrees agrees facts.timed timed in
      let valid = decision_valid q d r v request facts timed accepts in
      (
        v,
        combine_results-eq local q detection d sent r (decision_of f q d r v) request read received
            (combine_read-eq q d r v same_run same_entity clean accepts.decided valid),
        valid,
        accepts.earliest,
      )
