-- ===== src/Fusion/Result.antt =====
-- The FusionResult of a replay (decision/fusion/result_builder.py), and the whole Fusion path
-- (decision/fusion/pipeline.py).
pub mod Snapshots
pub mod Episodes
pub mod Contract
pub mod Trace
pub mod Pipeline
use incident_awareness_engin.Float.{Float}
use incident_awareness_engin.Fusion.Error.{
  FusionError, missing_episode_snapshot, missing_fusion_time, missing_decision_snapshot,
}
use incident_awareness_engin.Fusion.Replay.{
  TemporalReplayRunner, TemporalReplayResult, ReplayEvidenceSnapshot, run,
}
use incident_awareness_engin.Fusion.Stopping.{
  FusionEpisode, FusionStatus, detected, miss, not_evaluated, StoppingResult, StoppingTracePoint,
}
use incident_awareness_engin.Fusion.Window.{StateKey, WindowEngine}
use incident_awareness_engin.Model.Error.{ContractError}
use incident_awareness_engin.Model.Evidence.{Evidence}
use incident_awareness_engin.Model.Fusion.{
  FusionEpisodeResult, FusionResult, FusionStoppingTrace, FusionStoppingTracePoint,
  validate_episode, validate_result, validate_trace, validate_trace_point,
}
use incident_awareness_engin.Prelude.{
  ℕ, Bool, List, [], ◌∷◌, Option, none, some, String, Result, ok, err, ◌>>=◌, ◌>>◌, Datetime, Dict,
  lookup, insert, nat_eq,
}

-- An error of the path: a `ValueError` of decision/fusion, or a model that refuses its fields.
pub data PathError : Type 0 where
  replay_failed : FusionError → PathError
  contract_failed : ContractError → PathError

abbrev pub in_contract {ℓ} : {A : Type ℓ} → Result ContractError A → Result PathError A
in_contract (ok a) = ok a
in_contract (err e) = err (contract_failed e)

abbrev pub in_replay {ℓ} : {A : Type ℓ} → Result FusionError A → Result PathError A
in_replay (ok a) = ok a
in_replay (err e) = err (replay_failed e)

-- What names the configuration in a result.
pub record Versions : Type 0 where
  pub scoring_config_version : String
  pub scoring_profile_id : String
  pub scoring_method : String
  pub scorer_version : String
  pub model_version : Option String

pub record FusionPipelineResult (F : Type 0) : Type 0 where
  pub replay_result : TemporalReplayResult F
  pub fusion_result : FusionResult F
  pub stopping_trace : FusionStoppingTrace F

-- `evidence_ids_by_timestamp`: a later snapshot at a time replaces an earlier one. An aware datetime is
-- a key by its instant.
unfoldable pub evidence_ids_by_timestamp :
    Dict ℕ (List String) → List ReplayEvidenceSnapshot → Dict ℕ (List String)
evidence_ids_by_timestamp d [] = d
evidence_ids_by_timestamp d (s ∷ ss) =
    evidence_ids_by_timestamp (insert s.timestamp.instant s.contributing_evidence_ids d) ss

module _ {F : Type 0} (f : Float F) where
  -- The body of the loop over the episodes.
  unfoldable pub build_episode :
      Dict ℕ (List String) → FusionEpisode F → Result PathError (FusionEpisodeResult F)
  unfolding validate_episode
  build_episode ids e = elim (lookup e.start_time.instant ids) [
    | none ↦ err (replay_failed missing_episode_snapshot)
    | some own ↦ do
      let built : FusionEpisodeResult F = record {
        episode_id = e.episode_id;
        run_id = e.run_id;
        entity_id = e.entity_id;
        start_time = e.start_time;
        end_time = some e.end_time;
        end_reason = some e.end_reason;
        score_at_start = e.score_at_start;
        peak_score = e.peak_score;
        contributing_evidence_ids = some own;
      }
      in_contract (validate_episode f built)
      ok built
  ]

  unfoldable pub build_episodes :
      Dict ℕ (List String)
      → List (FusionEpisode F)
      → Result PathError (List (FusionEpisodeResult F))
  unfolding build_episode
  build_episodes ids [] = ok []
  build_episodes ids (e ∷ es) = do
    built ← build_episode ids e
    rest ← build_episodes ids es
    ok (built ∷ rest)

  -- The ids of the result: those of the snapshot at the time of the decision.
  unfoldable pub decision_evidence_ids :
      Dict ℕ (List String) → FusionStatus → Option Datetime → Result FusionError (List String)
  decision_evidence_ids ids detected none = err missing_fusion_time
  decision_evidence_ids ids detected (some t) = elim (lookup t.instant ids) [
    | none ↦ err missing_decision_snapshot
    | some own ↦ ok own
  ]
  decision_evidence_ids ids miss time = ok []
  decision_evidence_ids ids not_evaluated time = ok []

  -- `build_fusion_result`
  unfoldable pub build_fusion_result :
      TemporalReplayResult F → StateKey → Versions → Result PathError (FusionResult F)
  unfolding evidence_ids_by_timestamp build_episodes decision_evidence_ids validate_result
  build_fusion_result replay key versions = do
    let stopping = replay.stopping_result
    let ids = evidence_ids_by_timestamp [] replay.evidence_snapshots
    episodes ← build_episodes ids stopping.fusion_episodes
    contributing ← in_replay (decision_evidence_ids ids stopping.fusion_status stopping.fusion_time)
    let built : FusionResult F = record {
      run_id = key.0;
      entity_id = key.1;
      fusion_time = stopping.fusion_time;
      fusion_status = stopping.fusion_status;
      score_at_decision = stopping.score_at_decision;
      contributing_evidence_ids = contributing;
      scoring_config_version = versions.scoring_config_version;
      scoring_profile_id = versions.scoring_profile_id;
      model_version = versions.model_version;
      scoring_method = versions.scoring_method;
      scorer_version = versions.scorer_version;
      fusion_episodes = episodes;
    }
    in_contract (validate_result f built)
    ok built

  -- `build_not_evaluated_fusion_result`
  unfoldable pub build_not_evaluated_fusion_result :
      StateKey → Versions → Result ContractError (FusionResult F)
  unfolding validate_result
  build_not_evaluated_fusion_result key versions = do
    let built : FusionResult F = record {
      run_id = key.0;
      entity_id = key.1;
      fusion_time = none;
      fusion_status = not_evaluated;
      score_at_decision = none;
      contributing_evidence_ids = [];
      scoring_config_version = versions.scoring_config_version;
      scoring_profile_id = versions.scoring_profile_id;
      model_version = versions.model_version;
      scoring_method = versions.scoring_method;
      scorer_version = versions.scorer_version;
      fusion_episodes = [];
    }
    validate_result f built
    ok built

  unfoldable pub build_points :
      List (StoppingTracePoint F) → Result ContractError (List (FusionStoppingTracePoint F))
  unfolding validate_trace_point
  build_points [] = ok []
  build_points (p ∷ ps) = do
    let built : FusionStoppingTracePoint F = record {
      timestamp = p.timestamp;
      score = p.score;
      persistence_count = p.persistence_count;
      policy_state = p.policy_state;
    }
    validate_trace_point f built
    rest ← build_points ps
    ok (built ∷ rest)

  unfoldable pub build_trace :
      StateKey
      → Versions
      → List (StoppingTracePoint F)
      → Result ContractError (FusionStoppingTrace F)
  unfolding build_points validate_trace
  build_trace key versions ps = do
    points ← build_points ps
    let built : FusionStoppingTrace F = record {
      run_id = key.0;
      entity_id = key.1;
      scoring_config_version = versions.scoring_config_version;
      points = points;
    }
    validate_trace f built
    ok built

  -- What `run_fusion_pipeline` does with the result of the replay.
  unfoldable pub finish :
      StateKey → Versions → TemporalReplayResult F → Result PathError (FusionPipelineResult F)
  unfolding build_fusion_result build_trace
  finish key versions replay = do
    result ← build_fusion_result replay key versions
    trace ← in_contract (build_trace key versions replay.stopping_trace)
    ok (record { replay_result = replay; fusion_result = result; stopping_trace = trace })

  -- `run_fusion_pipeline`: the result, and the runner's engine as the call leaves it.
  unfoldable pub run_fusion_pipeline :
      TemporalReplayRunner F
      → StateKey
      → Versions
      → List Evidence
      → Datetime
      → Datetime
      → Option Datetime
      → Result PathError (FusionPipelineResult F) × WindowEngine
  unfolding run finish
  run_fusion_pipeline runner key versions evidences start end replay_end =
      let (r, w) = run f runner key evidences start end replay_end in
      elim r [ err e ↦ (err (replay_failed e), w) | ok replay ↦ (finish key versions replay, w) ]
