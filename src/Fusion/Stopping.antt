-- ===== src/Fusion/Stopping.antt =====
-- ThresholdStoppingPolicy (decision/fusion/stopping_policy.py): a score that stays at the upper
-- threshold for long enough opens an episode, and one below the lower threshold closes it.
pub mod Point
pub mod Automaton
pub mod Detection
pub mod Episodes
pub mod Numbering
pub mod Drawn
pub use Point.*
use incident_awareness_engin.Float.{Float}
use incident_awareness_engin.Fusion.Error.{
  FusionError, threshold_on_range, threshold_off_range, threshold_order, persistence_too_small,
  entity_id_blank, score_not_finite, score_out_of_range, point_not_increasing, point_after_run_end,
  assertion_failed, boundary_reason_invalid, timestamp_naive, timestamp_not_utc,
}
use incident_awareness_engin.Prelude.{
  ℕ, zero, suc, ◌+◌, Bool, true, false, not, ◌&&◌, List, [], ◌∷◌, ◌++◌, Option, none, some, String,
  Result, ok, err, ◌>>=◌, ◌>>◌, raise_if, ℤ, pos, negsuc, ltb, leb, if◌then◌else◌, length, is_blank,
  Datetime, is_naive, is_utc,
}

pub record ThresholdStoppingPolicy (F : Type 0) : Type 0 where
  pub threshold_on : F
  pub threshold_off : F
  pub persistence_k : ℕ

-- The locals of `evaluate`, and what it has passed to its observer.
pub record Track (F : Type 0) : Type 0 where
  pub consecutive : ℕ
  pub active : Bool
  pub fusion_time : Option Datetime
  pub score_at_decision : Option F
  pub episode_start_time : Option Datetime
  pub episode_score_at_start : Option F
  pub peak_score : Option F
  pub episodes : List (FusionEpisode F)
  pub previous_timestamp : Option Datetime
  pub observed : List (StoppingTracePoint F)

-- `_validate_utc_datetime`
unfoldable pub validate_utc_datetime : Datetime → Result FusionError (Unit {0})
validate_utc_datetime value = do
  raise_if (is_naive value) timestamp_naive
  raise_if (not (is_utc value)) timestamp_not_utc

-- `point.timestamp <= previous_timestamp`, where there is one.
abbrev pub not_increasing : Option Datetime → Datetime → Bool
not_increasing none t = false
not_increasing (some p) t = leb t.instant p.instant

module _ {F : Type 0} (f : Float F) where
  abbrev pub in_unit : F → Bool
  in_unit v = f.at_most f.zero v && f.at_most v f.one

  unfoldable pub validate_persistence : ℤ → Result FusionError ℕ
  validate_persistence (negsuc n) = err persistence_too_small
  validate_persistence (pos zero) = err persistence_too_small
  validate_persistence (pos (suc n)) = ok (suc n)

  -- `ThresholdStoppingPolicy.__init__`
  unfoldable pub init : F → F → ℤ → Result FusionError (ThresholdStoppingPolicy F)
  unfolding validate_persistence
  init threshold_on threshold_off persistence_k = do
    raise_if (not (in_unit threshold_on)) threshold_on_range
    raise_if (not (in_unit threshold_off)) threshold_off_range
    raise_if (f.at_most threshold_on threshold_off) threshold_order
    k ← validate_persistence persistence_k
    ok (record { threshold_on = threshold_on; threshold_off = threshold_off; persistence_k = k })

  -- `_validate_score`
  unfoldable pub validate_score : F → Result FusionError (Unit {0})
  validate_score value = do
    raise_if (not (f.is_finite value)) score_not_finite
    raise_if (not (in_unit value)) score_out_of_range

  -- The tests at the head of the loop's body (the source writes the one on the order twice).
  unfoldable pub validate_point :
      Datetime → Option Datetime → ScorePoint F → Result FusionError (Unit {0})
  unfolding validate_utc_datetime validate_score
  validate_point end previous point = do
    validate_utc_datetime point.timestamp
    validate_score point.score
    raise_if (not_increasing previous point.timestamp) point_not_increasing
    raise_if (ltb end.instant point.timestamp.instant) point_after_run_end

  module _ (policy : ThresholdStoppingPolicy F) (run_id entity_id : String) where
    -- An episode from the three optional locals, behind their assertions.
    unfoldable pub close_episode :
        Track F → Datetime → FusionEndReason → Result FusionError (List (FusionEpisode F))
    close_episode t end_time end_reason = elim t.episode_start_time [
      | none ↦ err assertion_failed
      | some start ↦ elim t.episode_score_at_start [
        | none ↦ err assertion_failed
        | some at_start ↦ elim t.peak_score [
          | none ↦ err assertion_failed
          | some peak ↦ ok (
              t.episodes
              ++ record {
                episode_id = episode_id (length t.episodes + 1);
                run_id = run_id;
                entity_id = entity_id;
                start_time = start;
                end_time = end_time;
                end_reason = end_reason;
                score_at_start = at_start;
                peak_score = peak;
              }
                ∷ [])
        ]
      ]
    ]

    -- `elif peak_score is None or point.score > peak_score: peak_score = point.score`
    abbrev pub raise_peak : Option F → F → Option F
    raise_peak none score = some score
    raise_peak (some peak) score = if f.less peak score then some score else some peak

    abbrev pub state_of : Bool → PolicyState
    state_of true = on
    state_of false = off

    abbrev pub notify : ScorePoint F → Option ℕ → Track F → Track F
    notify point count t = record t {
      observed =
          t.observed
          ++ record {
            timestamp = point.timestamp;
            score = point.score;
            persistence_count = count;
            policy_state = state_of t.active;
          }
            ∷ [];
    }

    -- The body of the loop while an episode is open.
    unfoldable pub observe_active : Track F → ScorePoint F → Result FusionError (Track F)
    unfolding close_episode
    observe_active t point =
        if f.less point.score policy.threshold_off
        then (do
          episodes ← close_episode t point.timestamp released
          ok (
              notify point none (record t {
                active = false;
                consecutive = 0;
                episode_start_time = none;
                episode_score_at_start = none;
                peak_score = none;
                episodes = episodes;
              })))
        else ok (notify point none (record t { peak_score = raise_peak t.peak_score point.score }))

    abbrev pub set_once {ℓ} : {A : Type ℓ} → Option A → A → Option A
    set_once none a = some a
    set_once (some b) a = some b

    -- `if fusion_time is None: score_at_decision = point.score`
    abbrev pub set_if_none : Option Datetime → Option F → F → Option F
    set_if_none none s a = some a
    set_if_none (some t) s a = s

    -- The end of the loop's body while no episode is open, with the new count.
    abbrev pub open_or_count : Track F → ScorePoint F → ℕ → Option ℕ → Track F
    open_or_count t point consecutive count =
        if leb policy.persistence_k consecutive
        then notify point count (record t {
          active = true;
          episode_start_time = some point.timestamp;
          episode_score_at_start = some point.score;
          peak_score = some point.score;
          fusion_time = set_once t.fusion_time point.timestamp;
          score_at_decision = set_if_none t.fusion_time t.score_at_decision point.score;
          consecutive = 0;
        })
        else notify point count (record t { consecutive = consecutive })

    unfoldable pub observe_idle : Track F → ScorePoint F → Track F
    observe_idle t point =
        if f.at_most policy.threshold_on point.score
        then open_or_count t point (t.consecutive + 1) (some (t.consecutive + 1))
        else open_or_count t point 0 none

    -- The body of the loop.
    unfoldable pub observe : Datetime → Track F → ScorePoint F → Result FusionError (Track F)
    unfolding observe_active observe_idle
    observe end t point = do
      validate_point end t.previous_timestamp point
      let t' : Track F = record t { previous_timestamp = some point.timestamp }
      if t.active then observe_active t' point else ok (observe_idle t' point)

    unfoldable pub observe_all :
        Datetime → Track F → List (ScorePoint F) → Result FusionError (Track F)
    unfolding observe
    observe_all end t [] = ok t
    observe_all end t (point ∷ points) = do t' ← observe end t point; observe_all end t' points

    abbrev pub initial : Track F
    initial = record {
      consecutive = 0;
      active = false;
      fusion_time = none;
      score_at_decision = none;
      episode_start_time = none;
      episode_score_at_start = none;
      peak_score = none;
      episodes = [];
      previous_timestamp = none;
      observed = [];
    }

    -- What follows the loop.
    unfoldable pub conclude :
        Datetime → FusionEndReason → Track F → Result FusionError (StoppingResult F)
    unfolding close_episode
    conclude end boundary t = elim t.fusion_time [
      | none ↦ ok (record {
        fusion_status = miss;
        fusion_time = none;
        score_at_decision = none;
        fusion_episodes = [];
      })
      | some time ↦ do
        episodes ← if t.active then close_episode t end boundary else ok t.episodes
        ok (record {
          fusion_status = detected;
          fusion_time = some time;
          score_at_decision = t.score_at_decision;
          fusion_episodes = episodes;
        })
    ]

    abbrev pub is_boundary : FusionEndReason → Bool
    is_boundary released = false
    is_boundary run_end = true
    is_boundary replay_end = true

    -- `evaluate`: the result, and what the observer was given.
    unfoldable pub evaluate :
        List (ScorePoint F)
        → Datetime
        → FusionEndReason
        → Result FusionError (StoppingResult F × List (StoppingTracePoint F))
    unfolding validate_utc_datetime observe_all conclude
    evaluate trajectory end boundary = do
      raise_if (is_blank entity_id) entity_id_blank
      validate_utc_datetime end
      raise_if (not (is_boundary boundary)) boundary_reason_invalid
      t ← observe_all end initial trajectory
      result ← conclude end boundary t
      ok (result, t.observed)
