-- ===== src/Fusion/Causal.antt =====
-- The causal replay of decision/fusion/temporal_replay.py: Evidence that counts only from the time at
-- which it became available, scored on the grid and at the end of the run.
pub mod Availability
pub mod Points
pub mod Run
use incident_awareness_engin.Float.{Float}
use incident_awareness_engin.Fusion.Error.{
  FusionError, run_end_before_start, evidence_run_mismatch, evidence_entity_mismatch,
  duplicate_scheduled_id, evidence_outside_replay, available_outside_replay,
  available_before_timestamp, overflow, out_of_rounds,
}
use incident_awareness_engin.Fusion.Replay.{
  TemporalReplayRunner, TemporalReplayResult, ScheduledEvidence, Observation, observation, judge,
  rounds,
}
use incident_awareness_engin.Fusion.Stopping.{run_end, validate_utc_datetime}
use incident_awareness_engin.Fusion.Window.{StateKey, filter_by_event_time_window}
use incident_awareness_engin.Model.Evidence.{Evidence}
use incident_awareness_engin.Prelude.{
  ℕ, zero, suc, Bool, true, false, not, ◌&&◌, List, [], ◌∷◌, ◌++◌, map, Option, none, some, String,
  Result, ok, err, ◌>>=◌, ◌>>◌, raise_if, ltb, leb, eqb, if◌then◌else◌, Datetime, add_delta,
  contains, sort_by, Order, last?, ◌==◌, string_eq, string_order, nat_order, pair_order,
}

-- `a <= t <= b`
abbrev pub between : Datetime → Datetime → Datetime → Bool
between a b t = leb a.instant t.instant && leb t.instant b.instant

-- One round of the validation of `run_causal`, with the ids of the rounds before.
unfoldable pub validate_item :
    StateKey → Datetime → Datetime → List String → ScheduledEvidence → Result FusionError (Unit {0})
unfolding validate_utc_datetime
validate_item key start end seen s = do
  validate_utc_datetime s.evidence.timestamp
  validate_utc_datetime s.available_at
  raise_if (contains s.evidence.evidence_id seen) duplicate_scheduled_id
  raise_if (not (s.evidence.run_id == key.0)) evidence_run_mismatch
  raise_if (not (s.evidence.entity_id == key.1)) evidence_entity_mismatch
  raise_if (not (between start end s.evidence.timestamp)) evidence_outside_replay
  raise_if (not (between start end s.available_at)) available_outside_replay
  raise_if (ltb s.available_at.instant s.evidence.timestamp.instant) available_before_timestamp

unfoldable pub validate_scheduled :
    StateKey
    → Datetime
    → Datetime
    → List String
    → List ScheduledEvidence
    → Result FusionError (Unit {0})
unfolding validate_item
validate_scheduled key start end seen [] = ok tt
validate_scheduled key start end seen (s ∷ ss) = do
  validate_item key start end seen s
  validate_scheduled key start end (s.evidence.evidence_id ∷ seen) ss

-- The key that `run_causal` sorts by.
abbrev pub activation_key : ScheduledEvidence → ℕ × (ℕ × String)
activation_key s = (s.available_at.instant, (s.evidence.timestamp.instant, s.evidence.evidence_id))

abbrev pub activation_order : Order (ℕ × (ℕ × String))
activation_order = pair_order ⦃o = nat_order⦄ ⦃p = pair_order ⦃o = nat_order⦄ ⦃p = string_order⦄⦄

abbrev pub order_scheduled : List ScheduledEvidence → List ScheduledEvidence
order_scheduled = sort_by ⦃o = activation_order⦄ activation_key

-- The `while` of `run_causal`: what has become available is appended to `activated`.
abbrev pub activate :
    Datetime → List ScheduledEvidence → List Evidence → List ScheduledEvidence × List Evidence
activate t [] activated = ([], activated)
activate t (s ∷ ss) activated = elim (leb s.available_at.instant t.instant) [
  | false ↦ (s ∷ ss, activated)
  | true ↦ activate t ss (activated ++ s.evidence ∷ [])
]

module _ {F : Type 0} (f : Float F) (runner : TemporalReplayRunner F) where
  -- The `while` of `_causal_replay_points`, on a bound of its rounds.
  unfoldable pub grid_points : ℕ → Datetime → Datetime → Result FusionError (List Datetime)
  unfolding add_delta
  grid_points zero t end = if leb t.instant end.instant then err out_of_rounds else ok []
  grid_points (suc n) t end = elim (leb t.instant end.instant) [
    | false ↦ ok []
    | true ↦ do
      next ← add_delta overflow t runner.step_size
      later ← grid_points n next end
      ok (t ∷ later)
  ]

  -- `if replay_points[-1] != run_end: replay_points.append(run_end)`
  abbrev pub with_end : Datetime → List Datetime → List Datetime
  with_end end points = elim (last? points) [
    | none ↦ points
    | some p ↦ if eqb p.instant end.instant then points else points ++ end ∷ []
  ]

  -- `_causal_replay_points`
  unfoldable pub causal_replay_points : Datetime → Datetime → Result FusionError (List Datetime)
  unfolding grid_points
  causal_replay_points start end = do
    points ← grid_points (rounds f runner start end) start end
    ok (with_end end points)

  -- The `for` loop of `run_causal`.
  unfoldable pub causal_loop :
      List Datetime
      → List ScheduledEvidence
      → List Evidence
      → Result FusionError (List (Observation F))
  unfolding filter_by_event_time_window observation
  causal_loop [] pending activated = ok []
  causal_loop (t ∷ ts) pending activated = do
    let (rest, activated') = activate t pending activated
    active ← filter_by_event_time_window runner.window_engine activated' t
    later ← causal_loop ts rest activated'
    ok (observation f runner t active ∷ later)

  -- `run_causal`, which leaves the engine's state alone.
  unfoldable pub run_causal :
      StateKey
      → List ScheduledEvidence
      → Datetime
      → Datetime
      → Result FusionError (TemporalReplayResult F)
  unfolding validate_utc_datetime validate_scheduled causal_replay_points causal_loop judge
  run_causal key scheduled start end = do
    validate_utc_datetime start
    validate_utc_datetime end
    raise_if (ltb end.instant start.instant) run_end_before_start
    validate_scheduled key start end [] scheduled
    points ← causal_replay_points start end
    os ← causal_loop points (order_scheduled scheduled) []
    judge f runner key end run_end os
