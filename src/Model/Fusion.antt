-- ===== src/Model/Fusion.antt =====
-- The exchanged results of the Fusion path (common/models/fusion.py), with the validators that a
-- constructor of a model runs.
use incident_awareness_engin.Float.{Float}
use incident_awareness_engin.Fusion.Stopping.Point.{
  FusionStatus, detected, miss, not_evaluated, FusionEndReason, PolicyState,
}
use incident_awareness_engin.Model.Error.{
  ContractError, field_invalid, datetime_naive, datetime_not_utc, datetime_not_milliseconds,
  points_not_increasing, end_reason_without_end, end_without_reason, end_before_start,
  episode_run_mismatch, episode_entity_mismatch, episode_id_duplicate, detected_without_time,
  detected_without_episodes, time_not_first_start, detected_without_score, score_not_first_score,
  detected_without_evidence, evidence_not_first_evidence, miss_with_time, miss_with_episodes,
  not_evaluated_with_time, not_evaluated_with_score, not_evaluated_with_episodes,
}
use incident_awareness_engin.Prelude.{
  ℕ, zero, suc, ◌%◌, Bool, false, not, ◌&&◌, List, [], ◌∷◌, map, Option, none, some, String, Result,
  ok, err, ◌>>◌, raise_if, ltb, leb, eqb, if◌then◌else◌, Datetime, is_naive, is_utc, is_empty,
  length, null, set_of, list_beq, ◌==◌, string_eq,
}

pub record FusionStoppingTracePoint (F : Type 0) : Type 0 where
  pub timestamp : Datetime
  pub score : F
  pub persistence_count : Option ℕ
  pub policy_state : PolicyState

pub record FusionStoppingTrace (F : Type 0) : Type 0 where
  pub run_id : String
  pub entity_id : String
  pub scoring_config_version : String
  pub points : List (FusionStoppingTracePoint F)

pub record FusionEpisodeResult (F : Type 0) : Type 0 where
  pub episode_id : String
  pub run_id : String
  pub entity_id : String
  pub start_time : Datetime
  pub end_time : Option Datetime
  pub end_reason : Option FusionEndReason
  pub score_at_start : F
  pub peak_score : F
  pub contributing_evidence_ids : Option (List String)

pub record FusionResult (F : Type 0) : Type 0 where
  pub run_id : String
  pub entity_id : String
  pub fusion_time : Option Datetime
  pub fusion_status : FusionStatus
  pub score_at_decision : Option F
  pub contributing_evidence_ids : List String
  pub scoring_config_version : String
  pub scoring_profile_id : String
  pub model_version : Option String
  pub scoring_method : String
  pub scorer_version : String
  pub fusion_episodes : List (FusionEpisodeResult F)

-- `Field(min_length=1)`
abbrev pub non_empty : String → Result ContractError (Unit {0})
non_empty s = raise_if (is_empty s) field_invalid

abbrev pub optional_non_empty : Option String → Result ContractError (Unit {0})
optional_non_empty none = ok tt
optional_non_empty (some s) = non_empty s

-- `_validate_utc_datetime`
unfoldable pub validate_utc : Datetime → Result ContractError (Unit {0})
validate_utc value = do
  raise_if (is_naive value) datetime_naive
  raise_if (not (is_utc value)) datetime_not_utc

abbrev pub validate_optional_utc : Option Datetime → Result ContractError (Unit {0})
validate_optional_utc none = ok tt
validate_optional_utc (some t) = validate_utc t

-- A check of every item of a list, in order.
abbrev pub for_each {ℓ} :
    {A : Type ℓ} → (A → Result ContractError (Unit {0})) → List A → Result ContractError (Unit {0})
for_each check [] = ok tt
for_each check (x ∷ xs) = do check x; for_each check xs

module _ {F : Type 0} (f : Float F) where
  -- `Field(ge=1)` of `persistence_count`.
  abbrev pub validate_count : Option ℕ → Result ContractError (Unit {0})
  validate_count none = ok tt
  validate_count (some zero) = err field_invalid
  validate_count (some (suc n)) = ok tt

  -- What the constructor of a `FusionStoppingTracePoint` checks.
  unfoldable pub validate_trace_point : FusionStoppingTracePoint F → Result ContractError (Unit {0})
  unfolding validate_utc
  validate_trace_point p = do
    validate_utc p.timestamp
    raise_if (not (eqb (p.timestamp.instant % 1000) 0)) datetime_not_milliseconds
    raise_if (not (f.at_most f.zero p.score && f.at_most p.score f.one && f.is_finite p.score))
        field_invalid
    validate_count p.persistence_count

  -- `validate_point_timestamps`
  unfoldable pub validate_point_timestamps :
      Option Datetime → List (FusionStoppingTracePoint F) → Result ContractError (Unit {0})
  validate_point_timestamps previous [] = ok tt
  validate_point_timestamps none (p ∷ ps) = validate_point_timestamps (some p.timestamp) ps
  validate_point_timestamps (some q) (p ∷ ps) = do
    raise_if (leb p.timestamp.instant q.instant) points_not_increasing
    validate_point_timestamps (some p.timestamp) ps

  -- What the constructor of a `FusionStoppingTrace` checks.
  unfoldable pub validate_trace : FusionStoppingTrace F → Result ContractError (Unit {0})
  unfolding validate_point_timestamps
  validate_trace t = do
    non_empty t.run_id
    non_empty t.entity_id
    non_empty t.scoring_config_version
    validate_point_timestamps none t.points

  -- `validate_episode_contract`
  unfoldable pub validate_episode_contract : FusionEpisodeResult F → Result ContractError (Unit {0})
  validate_episode_contract e = end_contract e.end_time e.end_reason
    where
      end_contract : Option Datetime → Option FusionEndReason → Result ContractError (Unit {0})
      end_contract none none = ok tt
      end_contract none (some r) = err end_reason_without_end
      end_contract (some t) none = err end_without_reason
      end_contract (some t) (some r) =
          raise_if (ltb t.instant e.start_time.instant) end_before_start

  -- What the constructor of a `FusionEpisodeResult` checks.
  unfoldable pub validate_episode : FusionEpisodeResult F → Result ContractError (Unit {0})
  unfolding validate_utc validate_episode_contract
  validate_episode e = do
    non_empty e.episode_id
    non_empty e.run_id
    non_empty e.entity_id
    validate_utc e.start_time
    validate_optional_utc e.end_time
    validate_episode_contract e

  -- `min(episodes, key=lambda episode: episode.start_time)`: the first that is least.
  abbrev pub first_episode :
      FusionEpisodeResult F → List (FusionEpisodeResult F) → FusionEpisodeResult F
  first_episode e [] = e
  first_episode e (x ∷ xs) =
      if ltb x.start_time.instant e.start_time.instant
      then first_episode x xs
      else first_episode e xs

  -- The loop of `validate_status_contract`.
  abbrev pub validate_owner :
      FusionResult F → FusionEpisodeResult F → Result ContractError (Unit {0})
  validate_owner r e = do
    raise_if (not (e.run_id == r.run_id)) episode_run_mismatch
    raise_if (not (e.entity_id == r.entity_id)) episode_entity_mismatch

  abbrev pub differs : Option (List String) → List String → Bool
  differs none ids = false
  differs (some own) ids = not (list_beq ids own)

  abbrev pub validate_detected :
      FusionResult F
      → Option Datetime
      → List (FusionEpisodeResult F)
      → Option F
      → Result ContractError (Unit {0})
  validate_detected r none es score = err detected_without_time
  validate_detected r (some t) [] score = err detected_without_episodes
  validate_detected r (some t) (e ∷ es) score = do
    raise_if (not (eqb t.instant (first_episode e es).start_time.instant)) time_not_first_start
    elim score [
      | none ↦ err detected_without_score
      | some s ↦ raise_if (not (f.same s (first_episode e es).score_at_start)) score_not_first_score
    ]
    raise_if (null r.contributing_evidence_ids) detected_without_evidence
    raise_if (differs (first_episode e es).contributing_evidence_ids r.contributing_evidence_ids)
        evidence_not_first_evidence

  abbrev pub validate_miss :
      Option Datetime → List (FusionEpisodeResult F) → Result ContractError (Unit {0})
  validate_miss (some t) es = err miss_with_time
  validate_miss none (e ∷ es) = err miss_with_episodes
  validate_miss none [] = ok tt

  abbrev pub validate_not_evaluated :
      Option Datetime → Option F → List (FusionEpisodeResult F) → Result ContractError (Unit {0})
  validate_not_evaluated (some t) score es = err not_evaluated_with_time
  validate_not_evaluated none (some s) es = err not_evaluated_with_score
  validate_not_evaluated none none (e ∷ es) = err not_evaluated_with_episodes
  validate_not_evaluated none none [] = ok tt

  -- The branches of `validate_status_contract`.
  abbrev pub by_status : FusionResult F → Result ContractError (Unit {0})
  by_status r = elim r.fusion_status [
    | detected ↦ validate_detected r r.fusion_time r.fusion_episodes r.score_at_decision
    | miss ↦ validate_miss r.fusion_time r.fusion_episodes
    | not_evaluated ↦ validate_not_evaluated r.fusion_time r.score_at_decision r.fusion_episodes
  ]

  -- `validate_status_contract`
  unfoldable pub validate_status_contract : FusionResult F → Result ContractError (Unit {0})
  validate_status_contract r = do
    for_each (validate_owner r) r.fusion_episodes
    let ids = map (λ (e : FusionEpisodeResult F). e.episode_id) r.fusion_episodes
    raise_if (not (eqb (length ids) (length (set_of ids)))) episode_id_duplicate
    by_status r

  -- What the constructor of a `FusionResult` checks of its own fields and of the whole.
  unfoldable pub validate_result : FusionResult F → Result ContractError (Unit {0})
  unfolding validate_utc validate_status_contract
  validate_result r = do
    non_empty r.run_id
    non_empty r.entity_id
    validate_optional_utc r.fusion_time
    non_empty r.scoring_config_version
    non_empty r.scoring_profile_id
    optional_non_empty r.model_version
    non_empty r.scoring_method
    non_empty r.scorer_version
    validate_status_contract r
