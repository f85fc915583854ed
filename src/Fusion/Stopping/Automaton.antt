-- ===== src/Fusion/Stopping/Automaton.antt =====
-- The policy as an automaton with two phases, and the proof that the loop of `evaluate`, with its
-- nine locals and its assertions, is that automaton.
use mathlib.Core.List.{append-nil, append_assoc}
use incident_awareness_engin.Float.{Float}
use incident_awareness_engin.Fusion.Stopping.{
  ThresholdStoppingPolicy, Track, ScorePoint, StoppingTracePoint, FusionEpisode, FusionEndReason,
  released, StoppingResult, detected, miss, episode_id, validate_point, close_episode,
  observe_active, observe_idle, observe, observe_all, conclude, evaluate, state_of, is_boundary,
  validate_utc_datetime,
}
use incident_awareness_engin.Prelude.{
  ℕ, ◌+◌, ◌≤◌, ◌≡◌, refl, ◌∙◌, ap, sym, Bool, true, false, List, [], ◌∷◌, ◌++◌, Option, none, some,
  String, ok, leb, if◌then◌else◌, arith, length, Datetime, is_blank,
}

-- Between episodes with a number of consecutive high scores, or inside an episode with its start, its
-- first score and its peak.
pub data Phase (F : Type 0) : Type 0 where
  idle : ℕ → Phase F
  inside : Datetime → F → F → Phase F

pub record View (F : Type 0) : Type 0 where
  pub phase : Phase F
  pub closed : List (FusionEpisode F)

module _ {F : Type 0} (f : Float F) (policy : ThresholdStoppingPolicy F)
    (run_id entity_id : String) where
  abbrev pub episode :
      List (FusionEpisode F) → Datetime → FusionEndReason → Datetime → F → F → FusionEpisode F
  episode closed end reason start at_start peak = record {
    episode_id = episode_id (length closed + 1);
    run_id = run_id;
    entity_id = entity_id;
    start_time = start;
    end_time = end;
    end_reason = reason;
    score_at_start = at_start;
    peak_score = peak;
  }

  -- One point, on the phase and the closed episodes.
  abbrev pub advance_phase : List (FusionEpisode F) → ScorePoint F → Phase F → View F
  advance_phase closed point (idle n) =
      if f.at_most policy.threshold_on point.score
      then (if leb policy.persistence_k (n + 1)
          then record { phase = inside point.timestamp point.score point.score; closed = closed }
          else record { phase = idle (n + 1); closed = closed })
      else record { phase = idle 0; closed = closed }
  advance_phase closed point (inside start at_start peak) =
      if f.less point.score policy.threshold_off
      then record {
        phase = idle 0;
        closed = closed ++ episode closed point.timestamp released start at_start peak ∷ [];
      }
      else record {
        phase = inside start at_start (if f.less peak point.score then point.score else peak);
        closed = closed;
      }

  abbrev pub advance : View F → ScorePoint F → View F
  advance v point = advance_phase v.closed point v.phase

  abbrev pub advance_all : View F → List (ScorePoint F) → View F
  advance_all v [] = v
  advance_all v (point ∷ points) = advance_all (advance v point) points

  abbrev pub start_view : View F
  start_view = record { phase = idle 0; closed = [] }

  abbrev pub first_start : List (FusionEpisode F) → Phase F → Option Datetime
  first_start (e ∷ es) p = some e.start_time
  first_start [] (idle n) = none
  first_start [] (inside start at_start peak) = some start

  abbrev pub first_score : List (FusionEpisode F) → Phase F → Option F
  first_score (e ∷ es) p = some e.score_at_start
  first_score [] (idle n) = none
  first_score [] (inside start at_start peak) = some at_start

  -- The locals of the loop, from the view.
  abbrev pub represent :
      List (FusionEpisode F) → Phase F → Option Datetime → List (StoppingTracePoint F) → Track F
  represent closed (idle n) previous observed = record {
    consecutive = n;
    active = false;
    fusion_time = first_start closed (idle n);
    score_at_decision = first_score closed (idle n);
    episode_start_time = none;
    episode_score_at_start = none;
    peak_score = none;
    episodes = closed;
    previous_timestamp = previous;
    observed = observed;
  }
  represent closed (inside start at_start peak) previous observed = record {
    consecutive = 0;
    active = true;
    fusion_time = first_start closed (inside start at_start peak);
    score_at_decision = first_score closed (inside start at_start peak);
    episode_start_time = some start;
    episode_score_at_start = some at_start;
    peak_score = some peak;
    episodes = closed;
    previous_timestamp = previous;
    observed = observed;
  }

  abbrev pub is_inside : Phase F → Bool
  is_inside (idle n) = false
  is_inside (inside start at_start peak) = true

  -- What the observer is told of a point.
  abbrev pub noted : Phase F → ScorePoint F → Phase F → StoppingTracePoint F
  noted before point after = record {
    timestamp = point.timestamp;
    score = point.score;
    persistence_count = count before;
    policy_state = state_of f policy run_id entity_id (is_inside after);
  }
    where
      count : Phase F → Option ℕ
      count (idle n) = if f.at_most policy.threshold_on point.score then some (n + 1) else none
      count (inside start at_start peak) = none

  abbrev pub track : View F → Option Datetime → List (StoppingTracePoint F) → Track F
  track v = represent v.closed v.phase

  module _ (positive : 1 ≤ policy.persistence_k) (end : Datetime) where
    observe_lem :
        (closed : List (FusionEpisode F)) (p : Phase F) (previous : Option Datetime)
        (seen : List (StoppingTracePoint F)) (point : ScorePoint F)
        → validate_point f end previous point ≡ ok tt
        → let v : View F = advance_phase closed point p in
          observe f policy run_id entity_id end (represent closed p previous seen) point
          ≡ ok (track v (some point.timestamp) (seen ++ noted p point v.phase ∷ []))
    unfolding observe_active observe_idle observe close_episode
    observe_lem [] (idle n) previous seen point h = rw h (ground arith)
    observe_lem (e ∷ es) (idle n) previous seen point h = rw h (ground arith)
    observe_lem [] (inside start at_start peak) previous seen point h = rw h (ground arith)
    observe_lem (e ∷ es) (inside start at_start peak) previous seen point h = rw h (ground arith)

  -- The points that the loop accepts: in UTC, of a finite score in the unit interval, strictly
  -- increasing, and none after the end.
  abbrev pub Accepted : Datetime → Option Datetime → List (ScorePoint F) → Type 0
  Accepted end previous [] = Unit
  Accepted end previous (point ∷ points) =
      (validate_point f end previous point ≡ ok tt) × Accepted end (some point.timestamp) points

  -- What the observer is told of a trajectory.
  abbrev pub trace : View F → List (ScorePoint F) → List (StoppingTracePoint F)
  trace v [] = []
  trace v (point ∷ points) =
      noted v.phase point (advance v point).phase ∷ trace (advance v point) points

  abbrev pub last_time : Option Datetime → List (ScorePoint F) → Option Datetime
  last_time previous [] = previous
  last_time previous (point ∷ points) = last_time (some point.timestamp) points

  -- The episodes of the result: those that closed, and the one that the end cuts off.
  abbrev pub episodes_at : Datetime → FusionEndReason → View F → List (FusionEpisode F)
  episodes_at end boundary v = elim v.phase [
    | idle n ↦ v.closed
    | inside start at_start peak ↦
        v.closed ++ episode v.closed end boundary start at_start peak ∷ []
  ]

  abbrev pub result_of : Datetime → FusionEndReason → View F → StoppingResult F
  result_of end boundary v = elim (first_start v.closed v.phase) [
    | none ↦ record {
      fusion_status = miss;
      fusion_time = none;
      score_at_decision = none;
      fusion_episodes = [];
    }
    | some time ↦ record {
      fusion_status = detected;
      fusion_time = some time;
      score_at_decision = first_score v.closed v.phase;
      fusion_episodes = episodes_at end boundary v;
    }
  ]

  conclude_lem :
      (end : Datetime) (boundary : FusionEndReason) (closed : List (FusionEpisode F)) (p : Phase F)
      (previous : Option Datetime) (seen : List (StoppingTracePoint F))
      → conclude f policy run_id entity_id end boundary (represent closed p previous seen)
        ≡ ok (result_of end boundary (record { phase = p; closed = closed }))
  unfolding conclude close_episode
  conclude_lem end boundary [] (idle n) previous seen = refl
  conclude_lem end boundary (e ∷ es) (idle n) previous seen = refl
  conclude_lem end boundary [] (inside start at_start peak) previous seen = refl
  conclude_lem end boundary (e ∷ es) (inside start at_start peak) previous seen = refl

  module _ (positive : 1 ≤ policy.persistence_k) (end : Datetime) where
    observe_all_lem :
        (v : View F) (previous : Option Datetime) (seen : List (StoppingTracePoint F))
        (points : List (ScorePoint F))
        → Accepted end previous points
        → observe_all f policy run_id entity_id end (track v previous seen) points
          ≡ ok (track (advance_all v points) (last_time previous points) (seen ++ trace v points))
    unfolding observe_all
    observe_all_lem v previous seen [] h = ap (λ s. ok (track v previous s)) (sym (append-nil seen))
    observe_all_lem v previous seen (point ∷ points) h =
        let v' = advance v point in
        let note = noted v.phase point v'.phase in
        rw (observe_lem positive end v.closed v.phase previous seen point h.0) (
          observe_all_lem v' (some point.timestamp) (seen ++ note ∷ []) points h.1
          ∙ ap (λ s. ok (track (advance_all v' points) (last_time (some point.timestamp) points) s))
              (append_assoc seen (note ∷ []) (trace v' points)))

  observed_lem :
      (closed : List (FusionEpisode F)) (p : Phase F) (previous : Option Datetime)
      (seen : List (StoppingTracePoint F))
      → (represent closed p previous seen).observed ≡ seen
  observed_lem closed (idle n) previous seen = refl
  observed_lem closed (inside start at_start peak) previous seen = refl

  -- On an accepted trajectory `evaluate` returns what the automaton says: no assertion fails, and the
  -- observer is told of every point once, in order.
  pub evaluate_lem :
      (end : Datetime) (boundary : FusionEndReason) (points : List (ScorePoint F))
      → 1 ≤ policy.persistence_k
      → is_blank entity_id ≡ false
      → validate_utc_datetime end ≡ ok tt
      → is_boundary f policy run_id entity_id boundary ≡ true
      → Accepted end none points
      → evaluate f policy run_id entity_id points end boundary
        ≡ ok (result_of end boundary (advance_all start_view points), trace start_view points)
  unfolding evaluate
  evaluate_lem end boundary points positive named utc_end bounded accepted = rw (
    named,
    utc_end,
    bounded,
    observe_all_lem positive end start_view none [] points accepted,
    conclude_lem end boundary (advance_all start_view points).closed
        (advance_all start_view points).phase (last_time none points) (trace start_view points),
    observed_lem (advance_all start_view points).closed (advance_all start_view points).phase
        (last_time none points) (trace start_view points),
  )
