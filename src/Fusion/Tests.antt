-- ===== src/Fusion/Tests.antt =====
-- Concrete runs of the Fusion path, on scores in millionths.
use incident_awareness_engin.Float.{Millionths, millionths, millionths_laws}
use incident_awareness_engin.Fusion.Construct.{constructed-IsValid}
use incident_awareness_engin.Fusion.Replay as Replay
use incident_awareness_engin.Fusion.Stopping as Stopping
use incident_awareness_engin.Fusion.Window as Engine
use incident_awareness_engin.Fusion.Causal.{
  validate_scheduled, order_scheduled, causal_replay_points, run_causal,
}
use incident_awareness_engin.Fusion.Causal.Availability.{Rising, seen_causally}
use incident_awareness_engin.Fusion.Causal.Points.{causal_points, reaches, specified_points}
use incident_awareness_engin.Fusion.Causal.Run.{run_causal_specified}
use incident_awareness_engin.Fusion.Replay.{
  TemporalReplayRunner, ScheduledEvidence, validate_run, run,
}
use incident_awareness_engin.Fusion.Replay.Run.{judged, specified_result, run_specified}
use incident_awareness_engin.Fusion.Result.{Versions, FusionPipelineResult, run_fusion_pipeline}
use incident_awareness_engin.Fusion.Result.Contract.{IsNamed}
use incident_awareness_engin.Fusion.Result.Pipeline.{
  IsPolicy, run_fusion_pipeline_accepted, Reports,
}
use incident_awareness_engin.Fusion.Score.{
  SimpleScorer, score, active_types, contributing_evidence_ids,
}
use incident_awareness_engin.Fusion.Score.Bounds as Bounds
use incident_awareness_engin.Fusion.Score.Bounds.{
  init_accepts, score_unit, score_same_types, contributing_of_positive,
}
use incident_awareness_engin.Fusion.Score as Score
use incident_awareness_engin.Fusion.Stopping.Automaton.{
  Accepted, evaluate_lem, result_of, advance_all, start_view, trace,
}
use incident_awareness_engin.Fusion.Stopping.Detection.{
  has_run, evaluate_misses_iff, evaluate_first_detection,
}
use incident_awareness_engin.Fusion.Stopping.Episodes.{Episodes, Consistent, evaluate-Episodes}
use incident_awareness_engin.Fusion.Stopping.{
  ThresholdStoppingPolicy, ScorePoint, run_end, StoppingResult, detected, miss, evaluate,
  validate_point, validate_utc_datetime, validate_score,
}
use incident_awareness_engin.Fusion.Window.{
  StateKey, WindowEngine, ingest, advance_to, reset, get_active_evidence, in_window, is_before,
  is_after,
}
use incident_awareness_engin.Fusion.Window.Invariant as Window
use incident_awareness_engin.Fusion.Window.Invariant.{
  deque, SameAt, ingest-IsValid, advance_to-IsValid, active-advance_to, keys_apart,
}
use incident_awareness_engin.Model.Evidence.{Evidence, raw_telemetry, fusion_feature}
use incident_awareness_engin.Prelude.{
  pos, ◌<◌, ℕ, ◌≤◌, ◌-◌, ◌≡◌, refl, ◌↔◌, true, false, List, [], ◌∷◌, map, none, some, String, ok,
  arith, Datetime, at, utc, pair_eq, keep, contains, string_eq, any, is_blank, null, IsDistinct,
  is_empty, lookup, insert,
}

abbrev scorer : SimpleScorer
scorer = record { profile_types = "process" ∷ "network" ∷ [] }

abbrev policy : ThresholdStoppingPolicy Millionths
policy = record { threshold_on = some 600_000; threshold_off = some 400_000; persistence_k = 1 }

abbrev engine : WindowEngine
engine = record {
  window_size = 2000;
  states = [];
  last_timestamp = [];
  last_advance_timestamp = [];
}

abbrev runner : TemporalReplayRunner Millionths
runner = record {
  window_engine = engine;
  scorer = scorer;
  stopping_policy = policy;
  step_size = 1000;
}

abbrev key : StateKey
key = ("RUN-20260101-001", "host-1")

abbrev seen : String → String → ℕ → Evidence
seen id type t = record {
  evidence_id = id;
  run_id = "RUN-20260101-001";
  timestamp = at t;
  entity_id = "host-1";
  evidence_type = type;
  event_ids = "E-1" ∷ [];
  derived_from_source_layer = raw_telemetry;
  feature_channel_group = fusion_feature;
  extractor_version = "v1";
  attack_technique_ids = [];
}

abbrev evidences : List Evidence
evidences = seen "a" "process" 10_000 ∷ seen "b" "network" 11_500 ∷ []

abbrev start : Datetime
start = at 10_000

abbrev end : Datetime
end = at 14_000

scorer-IsValid : Bounds.IsValid scorer
scorer-IsValid = record { positive = omega arith; distinct = (refl, (refl, tt)) }

engine-IsValid : Window.IsValid engine
unfolding lookup
engine-IsValid = record { ordered = λ k. tt; capped = λ k. refl }

policy-IsPolicy : IsPolicy millionths policy
policy-IsPolicy = record {
  on_finite = refl;
  off_finite = refl;
  off_nonneg = refl;
  apart = refl;
  persistent = omega arith;
}

abbrev versions : Versions
versions = record {
  scoring_config_version = "v1";
  scoring_profile_id = "p1";
  scoring_method = "simple";
  scorer_version = "s1";
  model_version = none;
}

named : IsNamed key.0 key.1 versions
unfolding is_empty
named = record {
  run = refl;
  entity = refl;
  config = refl;
  profile = refl;
  method = refl;
  scorer = refl;
  model = refl;
}

entity-full : is_blank key.1 ≡ false
unfolding is_blank
entity-full = refl

checked : validate_run millionths runner key evidences start end none ≡ ok (end, run_end)
unfolding validate_run
checked = refl

run_specified_example :
    (w : WindowEngine) × (run millionths runner key evidences start end none
      ≡ (ok (specified_result millionths runner key evidences start end run_end), w))
run_specified_example =
    run_specified millionths runner key millionths_laws scorer-IsValid engine-IsValid (omega arith)
      (omega arith) entity-full evidences start end end run_end none (omega arith) (omega arith)
      checked

run_fusion_pipeline_accepted_example :
    (p : FusionPipelineResult Millionths) × (w : WindowEngine) × (run_fusion_pipeline millionths
        runner key versions evidences start end none
      ≡ (ok p, w))
    × (p.replay_result ≡ specified_result millionths runner key evidences start end run_end)
    × Reports millionths runner key evidences versions p
run_fusion_pipeline_accepted_example =
    run_fusion_pipeline_accepted millionths runner key millionths_laws scorer-IsValid engine-IsValid
      policy-IsPolicy (omega arith) versions named entity-full evidences start end end run_end none
      (omega arith) (omega arith) (omega arith) (omega arith) checked

abbrev scheduled : List ScheduledEvidence
scheduled =
    record { evidence = seen "b" "network" 10_500; available_at = at 12_000 }
    ∷ record { evidence = seen "a" "process" 10_000; available_at = at 10_000 }
    ∷ []

scheduled-checked : validate_scheduled key start end [] scheduled ≡ ok tt
unfolding validate_scheduled
scheduled-checked = refl

utc-start : validate_utc_datetime start ≡ ok tt
unfolding validate_utc_datetime
utc-start = refl

utc-end : validate_utc_datetime end ≡ ok tt
unfolding validate_utc_datetime
utc-end = refl

run_causal_specified_example :
    run_causal millionths runner key scheduled start end
    ≡ ok (
        judged millionths runner key end run_end (
          map
            (seen_causally millionths runner (order_scheduled scheduled))
            (specified_points 1000 start end)))
run_causal_specified_example =
    run_causal_specified millionths runner key millionths_laws scorer-IsValid (omega arith)
      (omega arith) entity-full scheduled start end (omega arith) (omega arith) utc-start utc-end
      (omega arith) scheduled-checked

causal_points_example :
    (causal_replay_points millionths runner start (at 14_300)
      ≡ ok (specified_points 1000 start (at 14_300)))
    × Rising 14_300 10_000 (specified_points 1000 start (at 14_300))
    × (reaches (at 14_300) (specified_points 1000 start (at 14_300)) ≡ true)
causal_points_example =
    causal_points millionths runner (at 14_300) (omega arith) (omega arith) start refl refl
      (omega arith)

-- Off the grid the end is added; on it, it stands once.
points-specified :
    specified_points 1000 start (at 12_300) ≡ at 10_000 ∷ at 11_000 ∷ at 12_000 ∷ at 12_300 ∷ []
points-specified = refl

points-off_grid :
    causal_replay_points millionths runner start (at 12_300)
    ≡ ok (at 10_000 ∷ at 11_000 ∷ at 12_000 ∷ at 12_300 ∷ [])
unfolding causal_replay_points
points-off_grid = refl

abbrev low_point : ScorePoint Millionths
low_point = record { timestamp = at 10_000; score = some 500_000 }

abbrev high_point : ScorePoint Millionths
high_point = record { timestamp = at 11_000; score = some 1_000_000 }

abbrev last_point : ScorePoint Millionths
last_point = record { timestamp = at 12_000; score = some 0 }

abbrev points : List (ScorePoint Millionths)
points = low_point ∷ high_point ∷ last_point ∷ []

points-Accepted : Accepted millionths policy key.0 key.1 end none points
unfolding validate_point validate_utc_datetime validate_score
points-Accepted = (refl, (refl, (refl, tt)))

abbrev result : StoppingResult Millionths
result =
    result_of millionths policy key.0 key.1 end run_end
      (advance_all millionths policy key.0 key.1 (start_view millionths policy key.0 key.1) points)

evaluate_lem_example :
    evaluate millionths policy key.0 key.1 points end run_end
    ≡ ok (
      result,
      trace millionths policy key.0 key.1 (start_view millionths policy key.0 key.1) points,
    )
evaluate_lem_example =
    evaluate_lem millionths policy key.0 key.1 end run_end points (omega arith) entity-full utc-end
      refl points-Accepted

evaluate_misses_iff_example :
    ((result.fusion_status ≡ miss) ↔ (has_run millionths policy 1 points ≡ false))
    × ((result.fusion_status ≡ detected) ↔ (has_run millionths policy 1 points ≡ true))
evaluate_misses_iff_example =
    evaluate_misses_iff millionths policy key.0 key.1 end run_end (omega arith) entity-full utc-end
      refl points result
      (trace millionths policy key.0 key.1 (start_view millionths policy key.0 key.1) points)
      points-Accepted evaluate_lem_example

evaluate_first_detection_example :
    (result.fusion_status ≡ detected)
    × (result.fusion_time ≡ some (at 11_000))
    × (result.score_at_decision ≡ some (some 1_000_000))
evaluate_first_detection_example =
    evaluate_first_detection millionths policy key.0 key.1 end run_end (omega arith) entity-full
      utc-end refl (low_point ∷ []) high_point (last_point ∷ []) result
      (trace millionths policy key.0 key.1 (start_view millionths policy key.0 key.1) points)
      points-Accepted refl refl evaluate_lem_example

evaluate-Episodes_example :
    Episodes millionths policy key.0 key.1 0 none result.fusion_episodes
    × Consistent millionths policy key.0 key.1 millionths_laws result
evaluate-Episodes_example =
    evaluate-Episodes millionths policy key.0 key.1 millionths_laws end run_end points result
      (trace millionths policy key.0 key.1 (start_view millionths policy key.0 key.1) points)
      (omega arith) entity-full utc-end refl points-Accepted evaluate_lem_example

abbrev window_evidence : Evidence
window_evidence = seen "a" "process" 10_000

loaded-IsValid : Window.IsValid (ingest window_evidence engine).1
loaded-IsValid = ingest-IsValid window_evidence engine engine-IsValid

ingest-IsValid_example : Window.IsValid (ingest window_evidence engine).1
ingest-IsValid_example = ingest-IsValid window_evidence engine engine-IsValid

advance_to-IsValid_example :
    Window.IsValid (advance_to key (at 12_500) (ingest window_evidence engine).1).1
advance_to-IsValid_example =
    advance_to-IsValid key (at 12_500) (ingest window_evidence engine).1 loaded-IsValid

not_back :
    is_before (at 12_500) (lookup key (ingest window_evidence engine).1.last_advance_timestamp)
    ≡ false
unfolding ingest lookup insert
not_back = refl

not_early :
    is_after (lookup key (ingest window_evidence engine).1.last_timestamp) (at 12_500) ≡ false
unfolding ingest lookup insert
not_early = refl

window_fits : (ingest window_evidence engine).1.window_size ≤ 12_500
unfolding ingest lookup insert
window_fits = omega arith

active-advance_to_example :
    ((advance_to key (at 12_500) (ingest window_evidence engine).1).0 ≡ ok tt)
    × (get_active_evidence key (advance_to key (at 12_500) (ingest window_evidence engine).1).1
        ≡ keep
            (in_window
              (record {
                instant = 12_500 - (ingest window_evidence engine).1.window_size;
                zone = utc;
              })
              (at 12_500))
            (deque key (ingest window_evidence engine).1))
active-advance_to_example =
    active-advance_to key (at 12_500) (ingest window_evidence engine).1 loaded-IsValid refl not_back
      not_early window_fits

keys_apart_example :
    SameAt ("RUN-20260101-002", "host-1") engine (ingest window_evidence engine).1
    × SameAt ("RUN-20260101-002", "host-1") engine (advance_to key (at 12_500) engine).1
    × SameAt ("RUN-20260101-002", "host-1") engine (reset key engine)
keys_apart_example =
    keys_apart ("RUN-20260101-002", "host-1") engine window_evidence key (at 12_500) refl refl

abbrev types : List String
types = "process" ∷ "network" ∷ []

init_accepts_example : (Score.init types ≡ ok scorer) ↔ (
    (null types ≡ false)
    × (any is_blank types ≡ false)
    × IsDistinct ⦃e = string_eq⦄ types
    × (scorer ≡ record { profile_types = types }))
init_accepts_example = init_accepts types scorer

score_unit_example :
    (millionths.is_finite (score millionths scorer evidences) ≡ true)
    × (millionths.at_most millionths.zero (score millionths scorer evidences) ≡ true)
    × (millionths.at_most (score millionths scorer evidences) millionths.one ≡ true)
score_unit_example = score_unit millionths millionths_laws scorer scorer-IsValid evidences

abbrev repeated : List Evidence
repeated = seen "c" "process" 10_000 ∷ evidences

same_active :
    (t : String)
    → contains t (active_types scorer evidences) ≡ contains t (active_types scorer repeated)
unfolding active_types Score.is_scoring_evidence
same_active t = refl

score_same_types_example : score millionths scorer evidences ≡ score millionths scorer repeated
score_same_types_example = score_same_types scorer millionths evidences repeated same_active

scored : millionths.less millionths.zero (score millionths scorer evidences) ≡ true
unfolding score active_types Score.is_scoring_evidence Score.denominator
scored = refl

contributing_of_positive_example : null (contributing_evidence_ids scorer evidences) ≡ false
contributing_of_positive_example =
    contributing_of_positive millionths millionths_laws scorer scorer-IsValid evidences scored

scorer-made : Score.init types ≡ ok scorer
unfolding Score.init is_blank
scorer-made = refl

engine-made : Engine.init (pos 2000) ≡ ok engine
unfolding Engine.init
engine-made = refl

policy-made : Stopping.init millionths (some 600_000) (some 400_000) (pos 1) ≡ ok policy
unfolding Stopping.init
policy-made = refl

runner-made : Replay.init engine scorer policy (pos 1000) ≡ ok runner
unfolding Replay.init
runner-made = refl

constructed-IsValid_example :
    Bounds.IsValid scorer × Window.IsValid engine × IsPolicy millionths policy × (0 < 1000)
constructed-IsValid_example =
    constructed-IsValid millionths millionths_laws types (pos 2000) (pos 1) (pos 1000)
      (some 600_000) (some 400_000) scorer engine policy runner scorer-made engine-made policy-made
      runner-made
