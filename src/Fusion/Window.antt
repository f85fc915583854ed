-- ===== src/Fusion/Window.antt =====
-- WindowEngine (decision/fusion/window_engine.py): for each run and entity a deque of Evidence in
-- timestamp order, from which an advance drops what lies before the window.
-- A call returns the engine beside its result: what was assigned before a raise stays assigned.
pub mod Deque
pub mod Invariant
use incident_awareness_engin.Prelude.{
  ℕ, zero, suc, Bool, false, List, [], ◌∷◌, ◌++◌, Option, none, some, String, Result, ok, err, ℤ,
  pos, negsuc, ltb, leb, if◌then◌else◌, keep, ◌&&◌, Dict, lookup, insert, erase, pair_eq, string_eq,
  Datetime, is_naive, is_utc, sub_delta,
}
use incident_awareness_engin.Fusion.Error.{
  FusionError, window_size_not_positive, ingest_before_advance, ingest_decreasing, timestamp_naive,
  timestamp_not_utc, advance_decreasing, advance_before_ingested, overflow,
}
use incident_awareness_engin.Model.Evidence.{Evidence}

abbrev pub StateKey : Type 0
StateKey = String × String

pub record WindowEngine : Type 0 where
  pub window_size : ℕ
  pub states : Dict StateKey (List Evidence)
  pub last_timestamp : Dict StateKey Datetime
  pub last_advance_timestamp : Dict StateKey Datetime

abbrev pub Outcome : Type 0 → Type 0
Outcome A = Result FusionError A × WindowEngine

-- `WindowEngine.__init__`
unfoldable pub init : ℤ → Result FusionError WindowEngine
init (negsuc n) = err window_size_not_positive
init (pos zero) = err window_size_not_positive
init (pos (suc n)) =
    ok (record {
      window_size = suc n;
      states = [];
      last_timestamp = [];
      last_advance_timestamp = [];
    })

-- `timestamp < bound`, where there is a bound.
abbrev pub is_before : Datetime → Option Datetime → Bool
is_before t none = false
is_before t (some bound) = ltb t.instant bound.instant

-- `bound > timestamp`, where there is a bound.
abbrev pub is_after : Option Datetime → Datetime → Bool
is_after none t = false
is_after (some bound) t = ltb t.instant bound.instant

abbrev pub deque_or_empty : Option (List Evidence) → List Evidence
deque_or_empty none = []
deque_or_empty (some d) = d

unfoldable pub ingest : Evidence → WindowEngine → Outcome (Unit {0})
ingest e w =
    let key : StateKey = (e.run_id, e.entity_id) in
    if is_before e.timestamp (lookup key w.last_advance_timestamp)
    then (err ingest_before_advance, w)
    else if is_before e.timestamp (lookup key w.last_timestamp)
    then (err ingest_decreasing, w)
    else (
      ok tt,
      record w {
        states = insert key (deque_or_empty (lookup key w.states) ++ e ∷ []) w.states;
        last_timestamp = insert key e.timestamp w.last_timestamp;
      },
    )

-- `while state and state[0].timestamp < cutoff: state.popleft()`
unfoldable pub drop_before : Datetime → List Evidence → List Evidence
drop_before cutoff [] = []
drop_before cutoff (e ∷ d) =
    if ltb e.timestamp.instant cutoff.instant then drop_before cutoff d else e ∷ d

-- The last part of `advance_to`, on the deque of the key.
unfoldable pub advance_state :
    StateKey → Datetime → Option (List Evidence) → WindowEngine → Outcome (Unit {0})
advance_state key timestamp none w = (ok tt, w)
advance_state key timestamp (some d) w = elim (sub_delta overflow timestamp w.window_size) [
  | err e ↦ (err e, w)
  | ok cutoff ↦ (ok tt, record w { states = insert key (drop_before cutoff d) w.states })
]

unfoldable pub advance_to : StateKey → Datetime → WindowEngine → Outcome (Unit {0})
unfolding advance_state
advance_to key timestamp w =
    if is_naive timestamp
    then (err timestamp_naive, w)
    else if is_utc timestamp
    then if is_before timestamp (lookup key w.last_advance_timestamp)
      then (err advance_decreasing, w)
      else if is_after (lookup key w.last_timestamp) timestamp
      then (err advance_before_ingested, w)
      else advance_state key timestamp (lookup key w.states)
          (record w { last_advance_timestamp = insert key timestamp w.last_advance_timestamp })
    else (err timestamp_not_utc, w)

-- The comprehension at the end of `get_active_evidence`.
abbrev pub active_until : Option Datetime → List Evidence → List Evidence
active_until none d = d
active_until (some t) d = keep (λ e. leb e.timestamp.instant t.instant) d

unfoldable pub get_active_evidence : StateKey → WindowEngine → List Evidence
get_active_evidence key w = elim (lookup key w.states) [
  | none ↦ []
  | some d ↦ active_until (lookup key w.last_advance_timestamp) d
]

abbrev pub in_window : Datetime → Datetime → Evidence → Bool
in_window cutoff timestamp e =
    leb cutoff.instant e.timestamp.instant && leb e.timestamp.instant timestamp.instant

unfoldable pub filter_by_event_time_window :
    WindowEngine → List Evidence → Datetime → Result FusionError (List Evidence)
filter_by_event_time_window w evidences timestamp =
    if is_naive timestamp
    then err timestamp_naive
    else if is_utc timestamp
    then elim (sub_delta overflow timestamp w.window_size) [
      | err e ↦ err e
      | ok cutoff ↦ ok (keep (in_window cutoff timestamp) evidences)
    ]
    else err timestamp_not_utc

unfoldable pub reset : StateKey → WindowEngine → WindowEngine
reset key w = record w {
  states = erase key w.states;
  last_timestamp = erase key w.last_timestamp;
  last_advance_timestamp = erase key w.last_advance_timestamp;
}
