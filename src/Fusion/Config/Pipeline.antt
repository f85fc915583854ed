-- ===== src/Fusion/Config/Pipeline.antt =====
-- `run_fusion_pipeline_from_config` (decision/fusion/pipeline.py): the Fusion path with the runner of a
-- configuration, which the call builds and drops.
use mathlib.Core.Path.{subst}
use incident_awareness_engin.Float.{Float, FloatLaws}
use incident_awareness_engin.Fusion.Config.{FusionConfig, Durations, validate_config, build_runner}
use incident_awareness_engin.Fusion.Config.Runner.{build_runner-IsValid}
use incident_awareness_engin.Fusion.Replay.{TemporalReplayRunner, validate_run}
use incident_awareness_engin.Fusion.Replay.Run.{specified_result}
use incident_awareness_engin.Fusion.Replay.Trajectory.{window}
use incident_awareness_engin.Fusion.Result.{
  Versions, PathError, replay_failed, FusionPipelineResult, run_fusion_pipeline,
}
use incident_awareness_engin.Fusion.Result.Contract.{IsNamed}
use incident_awareness_engin.Fusion.Result.Pipeline.{
  IsPolicy, Reports, run_fusion_pipeline_accepted,
}
use incident_awareness_engin.Fusion.Score.Bounds as Bounds
use incident_awareness_engin.Fusion.Stopping.{FusionEndReason}
use incident_awareness_engin.Fusion.Window.{StateKey}
use incident_awareness_engin.Fusion.Window.Invariant as Invariant
use incident_awareness_engin.Model.Evidence.{Evidence}
use incident_awareness_engin.Prelude.{
  ◌+◌, ◌%◌, ◌≤◌, ◌<◌, ◌≡◌, refl, sym, ap, ◌∙◌, false, List, Option, String, Result, ok, err, ok-inj,
  Datetime, is_blank, datetime_max,
}

abbrev pub versions_of : {F : Type 0} → FusionConfig F → Versions
versions_of c = record {
  scoring_config_version = c.config_version;
  scoring_profile_id = c.scoring.profile_id;
  scoring_method = c.scoring.method;
  scorer_version = c.scoring.scorer_version;
  model_version = c.model_version;
}

module _ {F : Type 0} (f : Float F) (durations : Durations F) (managed : List String) where
  -- `run_fusion_pipeline_from_config`
  unfoldable pub run_fusion_pipeline_from_config :
      FusionConfig F
      → StateKey
      → List Evidence
      → Datetime
      → Datetime
      → Option Datetime
      → Result PathError (FusionPipelineResult F)
  unfolding build_runner run_fusion_pipeline
  run_fusion_pipeline_from_config c key evidences start end replay_end =
      elim (build_runner managed f durations c) [
        | err e ↦ err (replay_failed e)
        | ok runner ↦
            (run_fusion_pipeline f runner key (versions_of c) evidences start end replay_end).0
      ]

  from_config-eq :
      (c : FusionConfig F) (runner : TemporalReplayRunner F) (key : StateKey)
      (evidences : List Evidence) (start end : Datetime) (replay_end : Option Datetime)
      → build_runner managed f durations c ≡ ok runner
      → run_fusion_pipeline_from_config c key evidences start end replay_end
        ≡ (run_fusion_pipeline f runner key (versions_of c) evidences start end replay_end).0
  unfolding run_fusion_pipeline_from_config
  from_config-eq c runner key evidences start end replay_end made =
      rw (made, run_fusion_pipeline_from_config) refl

  -- What the theorem on the Fusion path asks of a runner.
  abbrev Meets : TemporalReplayRunner F → Type 0
  Meets r =
      Bounds.IsValid r.scorer
      × Invariant.IsValid r.window_engine
      × IsPolicy f r.stopping_policy
      × (0 < r.step_size)

  Meets-of_config :
      FloatLaws f
      → (c : FusionConfig F) (runner : TemporalReplayRunner F)
      → validate_config managed f durations c ≡ ok tt
      → build_runner managed f durations c ≡ ok runner
      → Meets runner
  Meets-of_config laws c runner valid made =
      let (r, built, scorer, engine, policy, positive) =
        build_runner-IsValid f durations managed laws c valid in
      subst Meets (ok-inj (sym built ∙ made)) (scorer, engine, policy, positive)

  -- On a configuration that its models accept, with the runner that it builds: on arguments that the
  -- replay of that runner accepts, with non-empty texts, a non-blank entity, a start and a step in whole
  -- milliseconds, a start that the window fits before and an end that one more step does not carry past
  -- the calendar, the call returns, and its replay is the specified one. Its result has the status, the
  -- time, the score and every episode of that replay, with the contributing ids at its times, its trace
  -- has every point, and both name the configuration.
  pub run_fusion_pipeline_from_config_accepted :
      FloatLaws f
      → (c : FusionConfig F) (runner : TemporalReplayRunner F) (key : StateKey)
        (evidences : List Evidence) (start end last : Datetime) (boundary : FusionEndReason)
        (replay_end : Option Datetime)
      → validate_config managed f durations c ≡ ok tt
      → build_runner managed f durations c ≡ ok runner
      → IsNamed key.0 key.1 (versions_of c)
      → is_blank key.1 ≡ false
      → start.instant % 1000 ≡ 0
      → runner.step_size % 1000 ≡ 0
      → window f runner key ≤ start.instant
      → last.instant + runner.step_size ≤ datetime_max
      → validate_run f runner key evidences start end replay_end ≡ ok (last, boundary)
      → (p : FusionPipelineResult F) × (run_fusion_pipeline_from_config c key evidences start end
            replay_end
          ≡ ok p)
        × (p.replay_result ≡ specified_result f runner key evidences start last boundary)
        × Reports f runner key evidences (versions_of c) p
  run_fusion_pipeline_from_config_accepted laws c runner key evidences start end last boundary
        replay_end valid made named entity first step fits calendar checked =
      let (scorer, engine, policy, positive) = Meets-of_config laws c runner valid made in
      let (p, w, ran, same, reports) =
        run_fusion_pipeline_accepted f runner key laws scorer engine policy positive (versions_of c)
          named entity evidences start end last boundary replay_end first step fits calendar
          checked in
      (
        p,
        from_config-eq c runner key evidences start end replay_end made ∙ ap (λ x. x.0) ran,
        same,
        reports,
      )
