-- ===== src/Fusion/Config/Tests.antt =====
-- A concrete configuration: durations in millionths of a second.
use incident_awareness_engin.Fusion.Config.Pipeline.{
  versions_of, run_fusion_pipeline_from_config, run_fusion_pipeline_from_config_accepted,
}
use incident_awareness_engin.Fusion.Replay.{validate_run}
use incident_awareness_engin.Fusion.Replay.Run.{specified_result}
use incident_awareness_engin.Fusion.Result.{FusionPipelineResult}
use incident_awareness_engin.Fusion.Result.Contract.{IsNamed}
use incident_awareness_engin.Fusion.Stopping.{run_end}
use incident_awareness_engin.Model.Evidence.{Evidence, raw_telemetry, fusion_feature}
use incident_awareness_engin.Float.{Millionths, millionths, millionths_laws}
use incident_awareness_engin.Fusion.Config.{FusionConfig, Durations, validate_config, build_runner}
use incident_awareness_engin.Fusion.Config.Runner.{build_runner-IsValid}
use incident_awareness_engin.Fusion.Replay.{TemporalReplayRunner}
use incident_awareness_engin.Fusion.Result.Pipeline.{IsPolicy, Reports}
use incident_awareness_engin.Fusion.Score.Bounds as Bounds
use incident_awareness_engin.Fusion.Window.Invariant as Invariant
use incident_awareness_engin.Prelude.{
  arith, at, is_empty, ◌<◌, ◌%◌, ◌≡◌, refl, Bool, false, List, [], ◌∷◌, Option, none, some, String,
  ok, ℤ, pos, eqb, is_blank, is_padded, string_eq,
}

abbrev timedelta : Millionths → Option ℤ
timedelta none = none
timedelta (some n) = some (pos n)

abbrev is_whole_milliseconds : Millionths → Bool
is_whole_milliseconds none = false
is_whole_milliseconds (some n) = eqb (n % 1000) 0

abbrev durations : Durations Millionths
durations = record { timedelta = timedelta; is_whole_milliseconds = is_whole_milliseconds }

abbrev managed : List String
managed = "network" ∷ "process" ∷ []

abbrev config : FusionConfig Millionths
config = record {
  config_version = "v1";
  model_version = none;
  window_size_sec = some 300_000_000;
  step_size_sec = some 1_000_000;
  scoring = record {
    method = "simple_score";
    scorer_version = "s1";
    profile_id = "p1";
    evidence_types = "process" ∷ "network" ∷ [];
  };
  stopping = record {
    threshold_on = some 600_000;
    threshold_off = some 400_000;
    persistence_k = pos 2;
  };
}

config-valid : validate_config managed millionths durations config ≡ ok tt
unfolding validate_config is_blank is_padded
config-valid = refl

build_runner-IsValid_example :
    (r : TemporalReplayRunner Millionths) × (build_runner managed millionths durations config
      ≡ ok r)
    × Bounds.IsValid r.scorer
    × Invariant.IsValid r.window_engine
    × IsPolicy millionths r.stopping_policy
    × (0 < r.step_size)
build_runner-IsValid_example =
    build_runner-IsValid millionths durations managed millionths_laws config config-valid

-- A window of two milliseconds and a step of one.
abbrev short : FusionConfig Millionths
short = record config { window_size_sec = some 2000; step_size_sec = some 1000 }

abbrev short_runner : TemporalReplayRunner Millionths
short_runner = record {
  window_engine = record {
    window_size = 2000;
    states = [];
    last_timestamp = [];
    last_advance_timestamp = [];
  };
  scorer = record { profile_types = "process" ∷ "network" ∷ [] };
  stopping_policy = record {
    threshold_on = some 600_000;
    threshold_off = some 400_000;
    persistence_k = 2;
  };
  step_size = 1000;
}

abbrev evidence : Evidence
evidence = record {
  evidence_id = "a";
  run_id = "RUN-20260101-001";
  timestamp = at 10_000;
  entity_id = "host-1";
  evidence_type = "process";
  event_ids = "E-1" ∷ [];
  derived_from_source_layer = raw_telemetry;
  feature_channel_group = fusion_feature;
  extractor_version = "v1";
  attack_technique_ids = [];
}

short-valid : validate_config managed millionths durations short ≡ ok tt
unfolding validate_config is_blank is_padded
short-valid = refl

short-made : build_runner managed millionths durations short ≡ ok short_runner
unfolding build_runner is_blank
short-made = refl

short-named : IsNamed "RUN-20260101-001" "host-1" (versions_of short)
unfolding is_empty
short-named = record {
  run = refl;
  entity = refl;
  config = refl;
  profile = refl;
  method = refl;
  scorer = refl;
  model = refl;
}

host-full : is_blank "host-1" ≡ false
unfolding is_blank
host-full = refl

short-checked :
    validate_run millionths short_runner
      ("RUN-20260101-001", "host-1")
      (evidence ∷ [])
      (at 10_000)
      (at 12_000)
      none
    ≡ ok (at 12_000, run_end)
unfolding validate_run
short-checked = refl

run_fusion_pipeline_from_config_accepted_example :
    (p : FusionPipelineResult Millionths) × (run_fusion_pipeline_from_config millionths durations
        managed short
        ("RUN-20260101-001", "host-1")
        (evidence ∷ [])
        (at 10_000)
        (at 12_000)
        none
      ≡ ok p)
    × (p.replay_result
        ≡ specified_result millionths short_runner
            ("RUN-20260101-001", "host-1")
            (evidence ∷ [])
            (at 10_000)
            (at 12_000)
            run_end)
    × Reports millionths short_runner
        ("RUN-20260101-001", "host-1")
        (evidence ∷ [])
        (versions_of short)
        p
run_fusion_pipeline_from_config_accepted_example =
    run_fusion_pipeline_from_config_accepted millionths durations managed millionths_laws short
      short_runner ("RUN-20260101-001", "host-1") (evidence ∷ []) (at 10_000) (at 12_000)
      (at 12_000) run_end none short-valid short-made short-named host-full (omega arith)
      (omega arith) (omega arith) (omega arith) short-checked
