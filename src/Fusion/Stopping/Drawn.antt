-- ===== src/Fusion/Stopping/Drawn.antt =====
-- Where the times and scores of the episodes come from: each start and start score is a point of the
-- trajectory, and each end is the time of a point or the end of the replay.
use incident_awareness_engin.Float.{Float}
use incident_awareness_engin.Fusion.Stopping.Automaton.{
  Phase, idle, inside, View, advance, advance_phase, advance_all, start_view, result_of, episode,
}
use incident_awareness_engin.Fusion.Stopping.{
  ThresholdStoppingPolicy, ScorePoint, FusionEpisode, FusionEndReason, released,
}
use incident_awareness_engin.Prelude.{
  ◌+◌, inl, inr, List, [], ◌∷◌, String, leb, Datetime, Bool-cases, All, All-append,
}

module _ {F : Type 0} (f : Float F) (policy : ThresholdStoppingPolicy F) (run_id entity_id : String)
    (P : ScorePoint F → Type 0) (E : Datetime → Type 0)
    (ends : (p : ScorePoint F) → P p → E p.timestamp) where
  abbrev pub IsDrawn : FusionEpisode F → Type 0
  IsDrawn e = P (record { timestamp = e.start_time; score = e.score_at_start }) × E e.end_time

  abbrev PhaseDrawn : Phase F → Type 0
  PhaseDrawn (idle n) = Unit
  PhaseDrawn (inside start at_start peak) = P (record { timestamp = start; score = at_start })

  abbrev ViewDrawn : View F → Type 0
  ViewDrawn v = All IsDrawn v.closed × PhaseDrawn v.phase

  advance-drawn :
      (closed : List (FusionEpisode F)) (p : Phase F) (point : ScorePoint F)
      → P point
      → All IsDrawn closed
      → PhaseDrawn p
      → ViewDrawn (advance_phase f policy run_id entity_id closed point p)
  advance-drawn closed (idle n) point own h k =
      elim (Bool-cases (f.at_most policy.threshold_on point.score)) [
        | inr low ↦ rw low (h, tt)
        | inl high ↦ elim (Bool-cases (leb policy.persistence_k (n + 1))) [
          | inl reached ↦ rw (high, reached) (h, own)
          | inr short ↦ rw (high, short) (h, tt)
        ]
      ]
  advance-drawn closed (inside start at_start peak) point own h k =
      elim (Bool-cases (f.less point.score policy.threshold_off)) [
        | inl release ↦ rw release (
          All-append IsDrawn closed
              (episode f policy run_id entity_id closed point.timestamp released start at_start peak
                ∷ [])
              h ((k, ends point own), tt),
          tt,
        )
        | inr stay ↦ rw stay (h, k)
      ]

  advance_all-drawn :
      (v : View F) (points : List (ScorePoint F))
      → All P points
      → ViewDrawn v
      → ViewDrawn (advance_all f policy run_id entity_id v points)
  advance_all-drawn v [] own h = h
  advance_all-drawn v (point ∷ points) own h =
      advance_all-drawn (advance f policy run_id entity_id v point) points own.1
        (advance-drawn v.closed v.phase point own.0 h.0 h.1)

  conclude-IsDrawn :
      (end : Datetime) (boundary : FusionEndReason) (closed : List (FusionEpisode F)) (p : Phase F)
      → E end
      → All IsDrawn closed
      → PhaseDrawn p
      → All IsDrawn
          (result_of f policy run_id entity_id end boundary
            (record { phase = p; closed = closed })).fusion_episodes
  conclude-IsDrawn end boundary [] (idle n) last h k = tt
  conclude-IsDrawn end boundary (e ∷ es) (idle n) last h k = h
  conclude-IsDrawn end boundary [] (inside start at_start peak) last h k = ((k, last), tt)
  conclude-IsDrawn end boundary (e ∷ es) (inside start at_start peak) last h k =
      All-append IsDrawn (e ∷ es)
        (episode f policy run_id entity_id (e ∷ es) end boundary start at_start peak ∷ []) h
        ((k, last), tt)

  pub result_of-IsDrawn :
      (end : Datetime) (boundary : FusionEndReason) (points : List (ScorePoint F))
      → E end
      → All P points
      → All IsDrawn
          (result_of f policy run_id entity_id end boundary (
            advance_all f policy run_id entity_id
              (start_view f policy run_id entity_id)
              points)).fusion_episodes
  result_of-IsDrawn end boundary points last own =
      let v = advance_all f policy run_id entity_id (start_view f policy run_id entity_id) points in
      let drawn = advance_all-drawn (start_view f policy run_id entity_id) points own (tt, tt) in
      conclude-IsDrawn end boundary v.closed v.phase last drawn.0 drawn.1
