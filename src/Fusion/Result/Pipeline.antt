-- ===== src/Fusion/Result/Pipeline.antt =====
-- The whole Fusion path (`run_fusion_pipeline`): on arguments that the replay accepts it always returns a
-- result that the contract accepts.
use mathlib.Core.Path.{subst}
use incident_awareness_engin.Float.{Float, FloatLaws}
use incident_awareness_engin.Fusion.Replay.{
  TemporalReplayRunner, TemporalReplayResult, ReplayEvidenceSnapshot, Observation, observation,
  validate_run, run,
}
use incident_awareness_engin.Fusion.Replay.Engine.{back}
use incident_awareness_engin.Fusion.Replay.Run.{
  run_specified, specified_result, utc_of, bounded, Accepted-specified,
}
use incident_awareness_engin.Fusion.Replay.Trajectory.{window, expected, seen_at, plus}
use incident_awareness_engin.Fusion.Result.{
  Versions, FusionPipelineResult, evidence_ids_by_timestamp, finish, run_fusion_pipeline,
}
use incident_awareness_engin.Fusion.Result.Contract.{
  IsNamed, IsReady, ids_of_decision, build_fusion_result_lem,
}
use incident_awareness_engin.Fusion.Result.Episodes.{built}
use incident_awareness_engin.Fusion.Result.{build_fusion_result, build_trace}
use incident_awareness_engin.Fusion.Result.Snapshots.{
  stands_at, stands_head, stands_tail, Own, lookup-own,
}
use incident_awareness_engin.Fusion.Result.Trace.{exchanged_point, build_trace_lem}
use incident_awareness_engin.Fusion.Score.Bounds as Bounds
use incident_awareness_engin.Fusion.Score.Bounds.{score_unit, contributing_of_positive}
use incident_awareness_engin.Fusion.Score.{score, contributing_evidence_ids}
use incident_awareness_engin.Fusion.Stopping.Automaton.{evaluate_lem, start_view}
use incident_awareness_engin.Fusion.Stopping.Drawn.{IsDrawn, result_of-IsDrawn}
use incident_awareness_engin.Fusion.Stopping.Episodes.{Episodes, evaluate-Episodes}
use incident_awareness_engin.Fusion.Stopping.{
  ScorePoint, FusionEpisode, FusionEndReason, ThresholdStoppingPolicy,
}
use incident_awareness_engin.Fusion.Window.{StateKey, WindowEngine, in_window}
use incident_awareness_engin.Fusion.Window.Invariant as Window
use incident_awareness_engin.Model.Evidence.{Evidence}
use incident_awareness_engin.Model.Fusion.{FusionResult, FusionStoppingTrace}
use incident_awareness_engin.Prelude.{
  ℕ, zero, suc, ◌+◌, ◌-◌, ◌/◌, ◌%◌, ◌≤◌, ◌<◌, ◌≡◌, refl, ◌∙◌, ap, true, false, inl, inr, List, [],
  ◌∷◌, map, Option, none, some, String, ok, arith, All, All-imp, keep, Datetime, is_utc, at, nat_eq,
  is_blank, datetime_max, Bool-cases,
}

-- The thresholds as `ThresholdStoppingPolicy.__init__` accepts them, for what a detection needs.
pub record IsPolicy {F : Type 0} (f : Float F) (policy : ThresholdStoppingPolicy F) : Type 0 where
  pub on_finite : f.is_finite policy.threshold_on ≡ true
  pub off_finite : f.is_finite policy.threshold_off ≡ true
  pub off_nonneg : f.at_most f.zero policy.threshold_off ≡ true
  pub apart : f.at_most policy.threshold_on policy.threshold_off ≡ false
  pub persistent : 1 ≤ policy.persistence_k

module _ {F : Type 0} (f : Float F) (laws : FloatLaws f) (policy : ThresholdStoppingPolicy F)
    (valid : IsPolicy f policy) where
  -- A score at the upper threshold is positive.
  positive_of_high :
      (s : F)
      → f.is_finite s ≡ true
      → f.at_most policy.threshold_on s ≡ true
      → f.less f.zero s ≡ true
  positive_of_high s finite high = elim (Bool-cases (f.less f.zero s)) [
    | inl e ↦ e
    | inr e ↦
        let below : f.less policy.threshold_off policy.threshold_on ≡ true = ground (
          arith,
          laws.at_most_iff policy.threshold_on policy.threshold_off valid.on_finite
              valid.off_finite,
          valid.apart,
        ) in
        let high' : f.less s policy.threshold_on ≡ false =
          ground (arith, laws.at_most_iff policy.threshold_on s valid.on_finite finite) in
        let up : f.less policy.threshold_off s ≡ true =
          laws.less_step policy.threshold_off s policy.threshold_on valid.off_finite finite
            valid.on_finite below high' in
        let under : f.less policy.threshold_off f.zero ≡ true =
          laws.less_step policy.threshold_off f.zero s valid.off_finite laws.zero_finite finite up
            e in
        ground (
          arith,
          laws.at_most_iff f.zero policy.threshold_off laws.zero_finite valid.off_finite,
          valid.off_nonneg,
        )
  ]

module _ {F : Type 0} (f : Float F) (runner : TemporalReplayRunner F) (key : StateKey)
    (evidences : List Evidence) where
  -- The Evidence that the specification sees at an instant.
  abbrev evidence_at : ℕ → List Evidence
  evidence_at i = keep (in_window (back (window f runner key) (at i)) (at i)) evidences

  abbrev pub ids_at : ℕ → List String
  ids_at i = contributing_evidence_ids runner.scorer (evidence_at i)

  snapshots-Own :
      (n : ℕ) (t : Datetime)
      → Own ids_at (map (λ (o : Observation F). o.1) (expected f runner key n evidences t))
  unfolding observation
  snapshots-Own zero t = tt
  snapshots-Own (suc n) t = (refl, snapshots-Own n (plus runner.step_size t))

  -- A point of the trajectory, with its snapshot among those given.
  abbrev IsPoint : List ReplayEvidenceSnapshot → ScorePoint F → Type 0
  IsPoint ss p =
      (is_utc p.timestamp ≡ true)
      × (p.score ≡ score f runner.scorer (evidence_at p.timestamp.instant))
      × (stands_at p.timestamp.instant ss ≡ true)

  points_stand :
      (n : ℕ) (t : Datetime)
      → is_utc t ≡ true
      → All
          (IsPoint (map (λ (o : Observation F). o.1) (expected f runner key n evidences t)))
          (map (λ (o : Observation F). o.0) (expected f runner key n evidences t))
  unfolding observation
  points_stand zero t zone = tt
  points_stand (suc n) t zone =
      let later =
        map (λ (o : Observation F). o.1)
          (expected f runner key n evidences (plus runner.step_size t)) in
      let here = (seen_at f runner key evidences t).1 in
      (
        (zone, refl, stands_head here later),
        All-imp (λ p k. (k.0, k.1, stands_tail p.timestamp.instant here later k.2))
            (map (λ (o : Observation F). o.0)
              (expected f runner key n evidences (plus runner.step_size t)))
            (points_stand n (plus runner.step_size t) zone),
      )

  points_aligned :
      (n : ℕ) (t : Datetime)
      → t.instant % 1000 ≡ 0
      → runner.step_size % 1000 ≡ 0
      → All
          (λ (p : ScorePoint F). p.timestamp.instant % 1000 ≡ 0)
          (map (λ (o : Observation F). o.0) (expected f runner key n evidences t))
  unfolding observation
  points_aligned zero t first step = tt
  points_aligned (suc n) t first step =
      (first, points_aligned n (plus runner.step_size t) (omega (arith, first, step)) step)

  module _ (laws : FloatLaws f) (scorer_valid : Bounds.IsValid runner.scorer)
      (policy_valid : IsPolicy f runner.stopping_policy) (ss : List ReplayEvidenceSnapshot)
      (owned : Own ids_at ss) where
    ends_utc : (p : ScorePoint F) → IsPoint ss p → is_utc p.timestamp ≡ true
    ends_utc p h = h.0

    Episodes-IsReady :
        (n : ℕ) (low : Option ℕ) (es : List (FusionEpisode F))
        → Episodes f runner.stopping_policy key.0 key.1 n low es
        → All
            (IsDrawn f runner.stopping_policy key.0 key.1
              (IsPoint ss)
              (λ t. is_utc t ≡ true)
              ends_utc)
            es
        → All (IsReady f ids_at (evidence_ids_by_timestamp [] ss)) es
    Episodes-IsReady n low [] h drawn = tt
    Episodes-IsReady n low (e ∷ es) h drawn =
        let seen = evidence_at e.start_time.instant in
        let point = drawn.0.0 in
        let (finite, _, _) = score_unit f laws runner.scorer scorer_valid seen in
        let scored : f.is_finite e.score_at_start ≡ true = ap f.is_finite point.1 ∙ finite in
        let positive : f.less f.zero (score f runner.scorer seen) ≡ true =
          subst (λ v. f.less f.zero v ≡ true) point.1
            (positive_of_high f laws runner.stopping_policy policy_valid e.score_at_start scored
              h.0.high) in
        (
          record {
            utc_start = point.0;
            utc_end = drawn.0.1;
            found = lookup-own ids_at e.start_time.instant [] ss owned point.2;
            full = contributing_of_positive f laws runner.scorer scorer_valid seen positive;
            finite = scored;
          },
          Episodes-IsReady (n + 1) (some e.end_time.instant) es h.1 drawn.1,
        )

module _ {F : Type 0} (f : Float F) (runner : TemporalReplayRunner F) (key : StateKey) where
  finish-eq :
      (versions : Versions) (replay : TemporalReplayResult F) (result : FusionResult F)
      (t : FusionStoppingTrace F)
      → build_fusion_result f replay key versions ≡ ok result
      → build_trace f key versions replay.stopping_trace ≡ ok t
      → finish f key versions replay
        ≡ ok (record { replay_result = replay; fusion_result = result; stopping_trace = t })
  unfolding finish
  finish-eq versions replay result t built traced = rw (built, traced) refl

  run_fusion_pipeline-eq :
      (versions : Versions) (evidences : List Evidence) (start end : Datetime)
      (replay_end : Option Datetime) (replay : TemporalReplayResult F) (w : WindowEngine)
      (p : FusionPipelineResult F)
      → run f runner key evidences start end replay_end ≡ (ok replay, w)
      → finish f key versions replay ≡ ok p
      → run_fusion_pipeline f runner key versions evidences start end replay_end ≡ (ok p, w)
  unfolding run_fusion_pipeline
  run_fusion_pipeline-eq versions evidences start end replay_end replay w p ran finished =
      rw (ran, finished, run_fusion_pipeline) (ap (λ x. (ok p, x.1)) ran)

  -- What a pipeline result makes of the stopping result and the trace of its replay: the status, the time
  -- and the score; every episode, with the ids at its start; the ids at the time of the decision; the
  -- texts of the call; and every point of the trace.
  pub record Reports (evidences : List Evidence) (versions : Versions) (p : FusionPipelineResult F)
      : Type 0 where
    pub of_run : p.fusion_result.run_id ≡ key.0
    pub of_entity : p.fusion_result.entity_id ≡ key.1
    pub status : p.fusion_result.fusion_status ≡ p.replay_result.stopping_result.fusion_status
    pub time : p.fusion_result.fusion_time ≡ p.replay_result.stopping_result.fusion_time
    pub score_at :
        p.fusion_result.score_at_decision ≡ p.replay_result.stopping_result.score_at_decision
    pub episodes :
        p.fusion_result.fusion_episodes
        ≡ map
            (built f runner.stopping_policy key.0 key.1 (ids_at f runner key evidences))
            p.replay_result.stopping_result.fusion_episodes
    pub contributing :
        p.fusion_result.contributing_evidence_ids
        ≡ ids_of_decision
            (ids_at f runner key evidences)
            p.replay_result.stopping_result.fusion_time
    pub config : p.fusion_result.scoring_config_version ≡ versions.scoring_config_version
    pub profile : p.fusion_result.scoring_profile_id ≡ versions.scoring_profile_id
    pub model : p.fusion_result.model_version ≡ versions.model_version
    pub method : p.fusion_result.scoring_method ≡ versions.scoring_method
    pub scorer : p.fusion_result.scorer_version ≡ versions.scorer_version
    pub trace : p.stopping_trace ≡ record {
      run_id = key.0;
      entity_id = key.1;
      scoring_config_version = versions.scoring_config_version;
      points =
          map (exchanged_point f runner.stopping_policy key.0 key.1) p.replay_result.stopping_trace;
    }

  -- On arguments that `run` accepts, with a scorer, a policy and an engine as their constructors accept
  -- them, non-empty texts, a non-blank entity, a start and a step in whole milliseconds, a start that the
  -- window fits before and an end that one more step does not carry past the calendar,
  -- `run_fusion_pipeline` returns: no validator of the FusionResult, of its episodes or of the stopping
  -- trace refuses. The replay is the specified one. The FusionResult has its status, time and score, and
  -- exactly its episodes, in their order and with their ids, times, reasons and scores; each episode has
  -- the ids of the Evidence that contributes in the window that ends at its start, and the result those
  -- in the window that ends at the decision, or none without one. The exchanged trace has exactly the
  -- points of the replay's trace, and the run, the entity and the versions are those of the call.
  pub run_fusion_pipeline_accepted :
      (laws : FloatLaws f) (scorer_valid : Bounds.IsValid runner.scorer)
      (engine_valid : Window.IsValid runner.window_engine)
      (policy_valid : IsPolicy f runner.stopping_policy) (positive : 0 < runner.step_size)
      (versions : Versions) (named : IsNamed key.0 key.1 versions) (entity : is_blank key.1 ≡ false)
      (evidences : List Evidence) (start end last : Datetime) (boundary : FusionEndReason)
      (replay : Option Datetime)
      → start.instant % 1000 ≡ 0
      → runner.step_size % 1000 ≡ 0
      → window f runner key ≤ start.instant
      → last.instant + runner.step_size ≤ datetime_max
      → validate_run f runner key evidences start end replay ≡ ok (last, boundary)
      → (p : FusionPipelineResult F) × (w : WindowEngine) × (run_fusion_pipeline f runner key
            versions evidences start end replay
          ≡ (ok p, w))
        × (p.replay_result ≡ specified_result f runner key evidences start last boundary)
        × Reports evidences versions p
  run_fusion_pipeline_accepted laws scorer_valid engine_valid policy_valid positive versions named
        entity evidences start end last boundary replay first step fits calendar checked =
      let policy = runner.stopping_policy in
      let result = specified_result f runner key evidences start last boundary in
      let n = suc ((last.instant - start.instant) / runner.step_size) in
      let ss = map (λ (o : Observation F). o.1) (expected f runner key n evidences start) in
      let points = map (λ (o : Observation F). o.0) (expected f runner key n evidences start) in
      let (v, bound) = bounded f runner key evidences start end last boundary replay checked in
      let (w, ran) =
        run_specified f runner key laws scorer_valid engine_valid policy_valid.persistent positive
          entity evidences start end last boundary replay fits calendar checked in
      let accepted =
        Accepted-specified f runner key laws scorer_valid positive evidences start last v.utc_start
          v.before in
      let evaluated =
        evaluate_lem f policy key.0 key.1 last boundary points policy_valid.persistent entity
          v.utc_last bound accepted in
      let (episodes, consistent) =
        evaluate-Episodes f policy key.0 key.1 laws last boundary points result.stopping_result
          result.stopping_trace policy_valid.persistent entity v.utc_last bound accepted
          evaluated in
      let drawn =
        result_of-IsDrawn f policy key.0 key.1 (IsPoint f runner key evidences ss)
          (λ t. is_utc t ≡ true) (λ p h. h.0) last boundary points (utc_of last v.utc_last)
          (points_stand f runner key evidences n start v.utc_start) in
      let ready =
        Episodes-IsReady f runner key evidences laws scorer_valid policy_valid ss
          (snapshots-Own f runner key evidences n start) 0 none
          result.stopping_result.fusion_episodes episodes drawn in
      let exchanged_result =
        build_fusion_result_lem f laws policy key.0 key.1 (ids_at f runner key evidences) versions
          named result consistent episodes ready in
      let traced =
        build_trace_lem f policy key.0 key.1 versions last (start_view f policy key.0 key.1) points
          named accepted (points_aligned f runner key evidences n start first step) in
      let finished = finish-eq versions result _ _ exchanged_result traced in
      (
        _,
        w,
        run_fusion_pipeline-eq versions evidences start end replay result w _ ran finished,
        refl,
        record {
          of_run = refl;
          of_entity = refl;
          status = refl;
          time = refl;
          score_at = refl;
          episodes = refl;
          contributing = refl;
          config = refl;
          profile = refl;
          model = refl;
          method = refl;
          scorer = refl;
          trace = refl;
        },
      )
