-- ===== src/Fusion/Replay.antt =====
-- TemporalReplayRunner (decision/fusion/temporal_replay.py): the Evidence of one run and entity,
-- scored at a fixed cadence, and the trajectory judged by the stopping policy.
pub mod Engine
pub mod Trajectory
pub mod Run
use incident_awareness_engin.Float.{Float}
use incident_awareness_engin.Fusion.Error.{
  FusionError, step_size_not_positive, run_end_before_start, replay_end_before_start,
  replay_end_after_run_end, end_not_aligned, evidence_run_mismatch, evidence_entity_mismatch,
  evidence_before_start, evidence_after_end, evidence_decreasing, duplicate_scheduled_id,
  evidence_outside_replay, available_outside_replay, available_before_timestamp, overflow,
  out_of_rounds,
}
use incident_awareness_engin.Fusion.Score.{SimpleScorer, score, contributing_evidence_ids}
use incident_awareness_engin.Fusion.Stopping.{
  ScorePoint, StoppingTracePoint, StoppingResult, ThresholdStoppingPolicy, FusionEndReason, run_end,
  replay_end, evaluate, validate_utc_datetime,
}
use incident_awareness_engin.Fusion.Window.{
  StateKey, WindowEngine, Outcome, ingest, advance_to, get_active_evidence,
  filter_by_event_time_window, reset,
}
use incident_awareness_engin.Model.Evidence.{Evidence}
use incident_awareness_engin.Prelude.{
  ℕ, zero, suc, ◌+◌, ◌-◌, ◌/◌, ◌%◌, Bool, true, false, not, ◌&&◌, List, [], ◌∷◌, ◌++◌, map, Option,
  none, some, String, Result, ok, err, ◌>>=◌, ◌>>◌, raise_if, ℤ, pos, negsuc, ltb, leb, eqb,
  if◌then◌else◌, Datetime, add_delta, contains, sort_by, last?, ◌==◌, string_eq, string_order,
  nat_order, pair_order,
}

pub record ReplayEvidenceSnapshot : Type 0 where
  pub timestamp : Datetime
  pub contributing_evidence_ids : List String

pub record ScheduledEvidence : Type 0 where
  pub evidence : Evidence
  pub available_at : Datetime

pub record TemporalReplayResult (F : Type 0) : Type 0 where
  pub trajectory : List (ScorePoint F)
  pub evidence_snapshots : List ReplayEvidenceSnapshot
  pub stopping_result : StoppingResult F
  pub stopping_trace : List (StoppingTracePoint F)

pub record TemporalReplayRunner (F : Type 0) : Type 0 where
  pub window_engine : WindowEngine
  pub scorer : SimpleScorer
  pub stopping_policy : ThresholdStoppingPolicy F
  pub step_size : ℕ

-- `TemporalReplayRunner.__init__`
unfoldable pub init :
    {F : Type 0}
    → WindowEngine
    → SimpleScorer
    → ThresholdStoppingPolicy F
    → ℤ
    → Result FusionError (TemporalReplayRunner F)
init window_engine scorer stopping_policy (negsuc n) = err step_size_not_positive
init window_engine scorer stopping_policy (pos zero) = err step_size_not_positive
init window_engine scorer stopping_policy (pos (suc n)) = ok (record {
  window_engine = window_engine;
  scorer = scorer;
  stopping_policy = stopping_policy;
  step_size = suc n;
})

-- The effective end of a replay and the reason that an open episode gets there.
unfoldable pub effective_end :
    Datetime → Datetime → Option Datetime → Result FusionError (Datetime × FusionEndReason)
unfolding validate_utc_datetime
effective_end start end none = ok (end, run_end)
effective_end start end (some replay) = do
  validate_utc_datetime replay
  raise_if (ltb replay.instant start.instant) replay_end_before_start
  raise_if (ltb end.instant replay.instant) replay_end_after_run_end
  ok (replay, if ltb replay.instant end.instant then replay_end else run_end)

abbrev is_earlier : Datetime → Option Datetime → Bool
is_earlier t none = false
is_earlier t (some p) = ltb t.instant p.instant

-- The loop over the Evidence at the head of `run`.
unfoldable pub validate_evidences :
    StateKey → Datetime → Datetime → Option Datetime → List Evidence → Result FusionError (Unit {0})
unfolding validate_utc_datetime
validate_evidences key start end previous [] = ok tt
validate_evidences key start end previous (e ∷ es) = do
  validate_utc_datetime e.timestamp
  raise_if (not (e.run_id == key.0)) evidence_run_mismatch
  raise_if (not (e.entity_id == key.1)) evidence_entity_mismatch
  raise_if (ltb e.timestamp.instant start.instant) evidence_before_start
  raise_if (ltb end.instant e.timestamp.instant) evidence_after_end
  raise_if (is_earlier e.timestamp previous) evidence_decreasing
  validate_evidences key start end (some e.timestamp) es

-- The inner `while` of `run`: the Evidence that is due goes into the engine; the rest stays.
unfoldable pub ingest_due : Datetime → List Evidence → WindowEngine → Outcome (List Evidence)
ingest_due current [] w = (ok [], w)
ingest_due current (e ∷ es) w = elim (leb e.timestamp.instant current.instant) [
  | false ↦ (ok (e ∷ es), w)
  | true ↦
      let (r, w') = ingest e w in elim r [ err x ↦ (err x, w') | ok _ ↦ ingest_due current es w' ]
]

abbrev pub Observation : Type 0 → Type 0
Observation F = ScorePoint F × ReplayEvidenceSnapshot

module _ {F : Type 0} (f : Float F) (runner : TemporalReplayRunner F) where
  -- What is appended to the trajectory and to the snapshots at one time.
  unfoldable pub observation : Datetime → List Evidence → Observation F
  observation current active = (
    record { timestamp = current; score = score f runner.scorer active },
    record {
      timestamp = current;
      contributing_evidence_ids = contributing_evidence_ids runner.scorer active;
    },
  )

  -- The body of the outer `while` of `run`, up to the step of the clock.
  unfoldable pub replay_at :
      StateKey → Datetime → List Evidence → WindowEngine → Outcome (List Evidence × Observation F)
  unfolding ingest_due observation
  replay_at key current pending w =
      let (r, w') = ingest_due current pending w in
      elim r [
        | err x ↦ (err x, w')
        | ok rest ↦
            let (a, w'') = advance_to key current w' in
            elim a [
              | err x ↦ (err x, w'')
              | ok _ ↦ (ok (rest, observation current (get_active_evidence key w'')), w'')
            ]
      ]

  -- The outer `while` of `run`, on a bound of its rounds.
  unfoldable pub replay_loop :
      ℕ
      → StateKey
      → Datetime
      → Datetime
      → List Evidence
      → WindowEngine
      → Outcome (List (Observation F))
  unfolding replay_at add_delta
  replay_loop zero key end current pending w =
      (if leb current.instant end.instant then err out_of_rounds else ok [], w)
  replay_loop (suc n) key end current pending w = elim (leb current.instant end.instant) [
    | false ↦ (ok [], w)
    | true ↦
        let (r, w') = replay_at key current pending w in
        elim r [
          | err x ↦ (err x, w')
          | ok (rest, o) ↦ elim (add_delta overflow current runner.step_size) [
            | err x ↦ (err x, w')
            | ok next ↦
                let (s, w'') = replay_loop n key end next rest w' in
                elim s [ err x ↦ (err x, w'') | ok os ↦ (ok (o ∷ os), w'') ]
          ]
        ]
  ]

  -- Rounds enough for every time from the start to the end.
  abbrev pub rounds : Datetime → Datetime → ℕ
  rounds start end = suc (suc ((end.instant - start.instant) / runner.step_size))

  -- The end of `run` and of `run_causal`: the trajectory is judged, its observer kept.
  unfoldable pub judge :
      StateKey
      → Datetime
      → FusionEndReason
      → List (Observation F)
      → Result FusionError (TemporalReplayResult F)
  judge key end boundary os = do
    (result, trace) ← evaluate f runner.stopping_policy key.0 key.1 (map (λ o. o.0) os) end boundary
    ok (record {
      trajectory = map (λ o. o.0) os;
      evidence_snapshots = map (λ o. o.1) os;
      stopping_result = result;
      stopping_trace = trace;
    })

  -- The checks of `run`, in their order: the effective end and its reason.
  unfoldable pub validate_run :
      StateKey
      → List Evidence
      → Datetime
      → Datetime
      → Option Datetime
      → Result FusionError (Datetime × FusionEndReason)
  unfolding validate_utc_datetime effective_end validate_evidences
  validate_run key evidences start end replay = do
    validate_utc_datetime start
    validate_utc_datetime end
    raise_if (ltb end.instant start.instant) run_end_before_start
    (last, boundary) ← effective_end start end replay
    raise_if (not (eqb ((last.instant - start.instant) % runner.step_size) 0)) end_not_aligned
    validate_evidences key start last none evidences
    ok (last, boundary)

  -- `run`: the result, and the engine as the call leaves it.
  unfoldable pub run :
      StateKey
      → List Evidence
      → Datetime
      → Datetime
      → Option Datetime
      → Outcome (TemporalReplayResult F)
  unfolding validate_run replay_loop judge
  run key evidences start end replay = elim (validate_run key evidences start end replay) [
    | err x ↦ (err x, runner.window_engine)
    | ok (last, boundary) ↦
        let (r, w) =
          replay_loop (rounds start last) key last start evidences
            (reset key runner.window_engine) in
        elim r [ err x ↦ (err x, w) | ok os ↦ (judge key last boundary os, w) ]
  ]
