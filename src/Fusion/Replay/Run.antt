-- ===== src/Fusion/Replay/Run.antt =====
-- `run` as a whole: on inputs that its checks accept it always returns, with the trajectory of the
-- specification, judged by the stopping policy.
use native.Mathlib.Nat.{div-add-mod, mul_comm}
use incident_awareness_engin.Float.{Float, FloatLaws}
use incident_awareness_engin.Fusion.Replay.{
  TemporalReplayRunner, TemporalReplayResult, Observation, observation, effective_end,
  validate_evidences, validate_run, replay_loop, rounds, judge, run,
}
use incident_awareness_engin.Fusion.Replay.Engine.{OfKey, back}
use incident_awareness_engin.Fusion.Replay.Trajectory.{window, plus, expected, replay_loop-expected}
use incident_awareness_engin.Fusion.Error.{FusionError, end_not_aligned}
use incident_awareness_engin.Fusion.Score.{score}
use incident_awareness_engin.Fusion.Score.Bounds as Bounds
use incident_awareness_engin.Fusion.Score.Bounds.{score_unit}
use incident_awareness_engin.Fusion.Stopping.{
  ScorePoint, FusionEndReason, is_boundary, validate_utc_datetime, validate_point, validate_score,
  not_increasing, ThresholdStoppingPolicy,
}
use incident_awareness_engin.Fusion.Stopping.Automaton.{
  Accepted, evaluate_lem, result_of, advance_all, start_view, trace,
}
use incident_awareness_engin.Fusion.Window.{StateKey, WindowEngine, reset, in_window}
use incident_awareness_engin.Fusion.Window.Deque.{time_of, IsOrdered}
use incident_awareness_engin.Fusion.Window.Invariant as Window
use incident_awareness_engin.Model.Evidence.{Evidence}
use incident_awareness_engin.Prelude.{
  ℕ, zero, suc, ◌≤◌, ◌<◌, ◌+◌, ◌-◌, ◌*◌, ◌/◌, ◌%◌, ◌≡◌, refl, ap, true, false, not, String, List,
  [], ◌∷◌, map, Option, none, some, Result, ok, ltb, eqb, arith, keep, All, All-imp, is_blank,
  string_eq, ◌==◌, Datetime, is_utc, is_naive, datetime_max, le→ltb, lt→leb, >>=-eq-ok, raise_if,
  ◌>>◌, ◌>>=◌,
}

-- What the checks of `run` establish of one input.
pub utc_of : (t : Datetime) → validate_utc_datetime t ≡ ok tt → is_utc t ≡ true
unfolding validate_utc_datetime
utc_of t h = ground arith

validated_evidences :
    (key : StateKey) (start end : Datetime) (previous : Option Datetime) (es : List Evidence)
    → validate_evidences key start end previous es ≡ ok tt
    → OfKey key es
      × IsOrdered es
      × ((p : Datetime) → previous ≡ some p → All (λ e. p.instant ≤ time_of e) es)
unfolding validate_evidences
validated_evidences key start end previous [] h = (tt, tt, λ p e. tt)
validated_evidences key start end previous (e ∷ es) h =
    let same_run : (e.run_id == key.0) ≡ true = ground arith in
    let same_entity : (e.entity_id == key.1) ≡ true = ground arith in
    let tail : validate_evidences key start end (some e.timestamp) es ≡ ok tt = ground arith in
    let (mine, ordered, after) = validated_evidences key start end (some e.timestamp) es tail in
    let behind = after e.timestamp refl in
    let own : key ≡ (e.run_id, e.entity_id) = cc (
      (string_eq.beq_iff e.run_id key.0).0 same_run,
      (string_eq.beq_iff e.entity_id key.1).0 same_entity,
    ) in
    (
      (own, mine),
      (All-imp (λ x k. le→ltb _ _ k) es behind, ordered),
      λ p q.
          let first : p.instant ≤ time_of e = ground (arith, q) in
          (first, All-imp (λ x k. omega (arith, first, k)) es behind),
    )

-- What `effective_end` returns is in UTC and not before the start, and its reason bounds a run.
effective_end-eq :
    {F : Type 0} (f : Float F) (policy : ThresholdStoppingPolicy F) (run_id entity_id : String)
    (start end last : Datetime) (boundary : FusionEndReason) (replay : Option Datetime)
    → validate_utc_datetime end ≡ ok tt
    → start.instant ≤ end.instant
    → effective_end start end replay ≡ ok (last, boundary)
    → (validate_utc_datetime last ≡ ok tt)
      × (start.instant ≤ last.instant)
      × (is_boundary f policy run_id entity_id boundary ≡ true)
unfolding effective_end
effective_end-eq f policy run_id entity_id start end last boundary none utc before h = ground arith
effective_end-eq f policy run_id entity_id start end last boundary (some replay) utc before h =
    ground arith

utc_aware : (t : Datetime) → is_utc t ≡ true → is_naive t ≡ false
utc_aware t h = ground arith

pub record Validated (key : StateKey) (step : ℕ) (evidences : List Evidence) (start last : Datetime)
    : Type 0 where
  pub utc_start : is_utc start ≡ true
  pub utc_last : validate_utc_datetime last ≡ ok tt
  pub before : start.instant ≤ last.instant
  pub aligned : (last.instant - start.instant) % step ≡ 0
  pub checked : validate_evidences key start last none evidences ≡ ok tt

module _ {F : Type 0} (f : Float F) (runner : TemporalReplayRunner F) (key : StateKey) where
  -- The checks of `validate_run` that follow the effective end.
  abbrev after_end :
      Datetime
      → List Evidence
      → Datetime × FusionEndReason
      → Result FusionError (Datetime × FusionEndReason)
  after_end start evidences (last, boundary) = do
    raise_if (not (eqb ((last.instant - start.instant) % runner.step_size) 0)) end_not_aligned
    validate_evidences key start last none evidences
    ok (last, boundary)

  opened :
      (start end last : Datetime) (boundary : FusionEndReason) (replay : Option Datetime)
      (evidences : List Evidence)
      → validate_utc_datetime start ≡ ok tt
      → validate_utc_datetime end ≡ ok tt
      → start.instant ≤ end.instant
      → validate_run f runner key evidences start end replay ≡ ok (last, boundary)
      → (effective_end start end replay >>= after_end start evidences) ≡ ok (last, boundary)
  unfolding validate_run
  opened start end last boundary replay evidences utc_start utc_end before h =
      let past : ltb end.instant start.instant ≡ false = le→ltb _ _ before in
      rw (utc_start, utc_end, past) at h

  after_end-eq :
      (start chosen last : Datetime) (reason boundary : FusionEndReason) (evidences : List Evidence)
      → after_end start evidences (chosen, reason) ≡ ok (last, boundary)
      → (chosen ≡ last)
        × (reason ≡ boundary)
        × ((last.instant - start.instant) % runner.step_size ≡ 0)
        × (validate_evidences key start last none evidences ≡ ok tt)
  after_end-eq start chosen last reason boundary evidences h = ground arith

  pub bounded :
      (evidences : List Evidence) (start end last : Datetime) (boundary : FusionEndReason)
      (replay : Option Datetime)
      → validate_run f runner key evidences start end replay ≡ ok (last, boundary)
      → Validated key runner.step_size evidences start last
        × (is_boundary f runner.stopping_policy key.0 key.1 boundary ≡ true)
  unfolding validate_run
  bounded evidences start end last boundary replay h =
      let utc_start : validate_utc_datetime start ≡ ok tt = ground arith in
      let utc_end : validate_utc_datetime end ≡ ok tt = ground arith in
      let before : start.instant ≤ end.instant = ground arith in
      let ((chosen, reason), effective, rest) =
        >>=-eq-ok (effective_end start end replay) (after_end start evidences)
          (opened start end last boundary replay evidences utc_start utc_end before h) in
      let (same, same_reason, aligned, checked) =
        after_end-eq start chosen last reason boundary evidences rest in
      let chosen_last : effective_end start end replay ≡ ok (last, boundary) = cc in
      let (utc_last, fits, bound) =
        effective_end-eq f runner.stopping_policy key.0 key.1 start end last boundary replay utc_end
          before chosen_last in
      (
        record {
          utc_start = utc_of start utc_start;
          utc_last = utc_last;
          before = fits;
          aligned = aligned;
          checked = checked;
        },
        bound,
      )

  pub point_accepted :
      (end t : Datetime) (previous : Option Datetime) (v : F)
      → is_utc t ≡ true
      → not_increasing previous t ≡ false
      → t.instant ≤ end.instant
      → f.is_finite v ≡ true
      → f.at_most f.zero v ≡ true
      → f.at_most v f.one ≡ true
      → validate_point f end previous (record { timestamp = t; score = v }) ≡ ok tt
  unfolding validate_point validate_utc_datetime validate_score
  point_accepted end t previous v zone after before finite nonneg le_one =
      let past : ltb end.instant t.instant ≡ false = le→ltb _ _ before in
      let aware : is_naive t ≡ false = utc_aware t zone in
      rw (aware, zone, finite, nonneg, le_one, after, past) refl

  Accepted-expected :
      (laws : FloatLaws f) (valid : Bounds.IsValid runner.scorer) (end : Datetime)
      (evidences : List Evidence) (positive : 0 < runner.step_size) (r : ℕ) (t : Datetime)
      (previous : Option Datetime)
      → is_utc t ≡ true
      → not_increasing previous t ≡ false
      → t.instant + r * runner.step_size ≤ end.instant
      → Accepted f runner.stopping_policy key.0 key.1 end previous
          (map (λ o. o.0) (expected f runner key (suc r) evidences t))
  unfolding observation
  Accepted-expected laws valid end evidences positive zero t previous zone after reach =
      let seen = keep (in_window (back (window f runner key) t) t) evidences in
      let (finite, nonneg, le_one) = score_unit f laws runner.scorer valid seen in
      (
        point_accepted end t previous (score f runner.scorer seen) zone after (omega (arith, reach))
            finite nonneg le_one,
        tt,
      )
  Accepted-expected laws valid end evidences positive (suc r) t previous zone after reach =
      let seen = keep (in_window (back (window f runner key) t) t) evidences in
      let (finite, nonneg, le_one) = score_unit f laws runner.scorer valid seen in
      let step = runner.step_size in
      let far : (t.instant + step) + r * step ≤ end.instant = grind (arith, reach) in
      (
        point_accepted end t previous (score f runner.scorer seen) zone after (omega (arith, far))
            finite nonneg le_one,
        Accepted-expected laws valid end evidences positive r (plus step t) (some t) zone
            (lt→leb _ _ (omega (arith, positive))) far,
      )

  -- The scores and the snapshots of the specification: at every step from the start to the end, those
  -- of the Evidence whose timestamps lie in the window that ends there.
  abbrev pub specified : List Evidence → Datetime → Datetime → List (Observation F)
  specified evidences start last =
      expected f runner key (suc ((last.instant - start.instant) / runner.step_size)) evidences
        start

  abbrev pub specified_points : List Evidence → Datetime → Datetime → List (ScorePoint F)
  specified_points evidences start last = map (λ o. o.0) (specified evidences start last)

  -- The observations, with the stopping result and the trace of the policy's automaton on their scores.
  abbrev pub judged : Datetime → FusionEndReason → List (Observation F) → TemporalReplayResult F
  judged end boundary os =
      let policy = runner.stopping_policy in
      let points = map (λ o. o.0) os in
      let begun = start_view f policy key.0 key.1 in
      record {
        trajectory = points;
        evidence_snapshots = map (λ o. o.1) os;
        stopping_result =
            result_of f policy key.0 key.1 end boundary
              (advance_all f policy key.0 key.1 begun points);
        stopping_trace = trace f policy key.0 key.1 begun points;
      }

  -- The result of the specification.
  abbrev pub specified_result :
      List Evidence → Datetime → Datetime → FusionEndReason → TemporalReplayResult F
  specified_result evidences start last boundary =
      judged last boundary (specified evidences start last)

  run-eq :
      (evidences : List Evidence) (start end last : Datetime) (boundary : FusionEndReason)
      (replay : Option Datetime) (os : List (Observation F)) (w : WindowEngine)
      (result : TemporalReplayResult F)
      → validate_run f runner key evidences start end replay ≡ ok (last, boundary)
      → replay_loop f runner
          (rounds f runner start last)
          key
          last
          start
          evidences
          (reset key runner.window_engine)
        ≡ (ok os, w)
      → judge f runner key last boundary os ≡ ok result
      → run f runner key evidences start end replay ≡ (ok result, w)
  unfolding run
  run-eq evidences start end last boundary replay os w result checked looped decided =
      rw (checked, looped, decided, run) (ap (λ x. (ok result, x.1)) looped)

  pub judge-eq :
      (last : Datetime) (boundary : FusionEndReason) (os : List (Observation F))
      → 1 ≤ runner.stopping_policy.persistence_k
      → is_blank key.1 ≡ false
      → validate_utc_datetime last ≡ ok tt
      → is_boundary f runner.stopping_policy key.0 key.1 boundary ≡ true
      → Accepted f runner.stopping_policy key.0 key.1 last none (map (λ o. o.0) os)
      → judge f runner key last boundary os ≡ ok (judged last boundary os)
  unfolding judge
  judge-eq last boundary os positive named utc bound accepted =
      rw
        (evaluate_lem f runner.stopping_policy key.0 key.1 last boundary (map (λ o. o.0) os)
          positive named utc bound accepted)
        refl

  -- The policy accepts the points of the specification.
  pub Accepted-specified :
      (laws : FloatLaws f) (scorer_valid : Bounds.IsValid runner.scorer)
      (positive : 0 < runner.step_size) (evidences : List Evidence) (start last : Datetime)
      → is_utc start ≡ true
      → start.instant ≤ last.instant
      → Accepted f runner.stopping_policy key.0 key.1 last none
          (specified_points evidences start last)
  Accepted-specified laws scorer_valid positive evidences start last utc_start before =
      let r = (last.instant - start.instant) / runner.step_size in
      let reach : start.instant + r * runner.step_size ≤ last.instant = omega (
        arith,
        div-add-mod (last.instant - start.instant) runner.step_size,
        mul_comm r runner.step_size,
        before,
      ) in
      Accepted-expected laws scorer_valid last evidences positive r start none utc_start refl reach

  -- On arguments that its checks accept, with a valid scorer, policy and engine, a non-blank entity, a
  -- start that the window fits before and an end that one more step does not carry past the calendar,
  -- `run` returns: the trajectory is that of the specification, which filters all the Evidence afresh at
  -- every step, and the stopping result and trace are those of the policy's automaton on it.
  pub run_specified :
      (laws : FloatLaws f) (scorer_valid : Bounds.IsValid runner.scorer)
      (engine_valid : Window.IsValid runner.window_engine)
      (persistent : 1 ≤ runner.stopping_policy.persistence_k) (positive : 0 < runner.step_size)
      (named : is_blank key.1 ≡ false) (evidences : List Evidence) (start end last : Datetime)
      (boundary : FusionEndReason) (replay : Option Datetime)
      → window f runner key ≤ start.instant
      → last.instant + runner.step_size ≤ datetime_max
      → validate_run f runner key evidences start end replay ≡ ok (last, boundary)
      → (w : WindowEngine) × (run f runner key evidences start end replay
          ≡ (ok (specified_result evidences start last boundary), w))
  run_specified laws scorer_valid engine_valid persistent positive named evidences start end last
        boundary replay fits calendar checked =
      let (v, bound) = bounded evidences start end last boundary replay checked in
      let (own, ordered, _) = validated_evidences key start last none evidences v.checked in
      let (w, looped) =
        replay_loop-expected f runner key evidences own ordered positive last calendar start
          engine_valid v.utc_start fits v.before v.aligned in
      let accepted =
        Accepted-specified laws scorer_valid positive evidences start last v.utc_start v.before in
      (
        w,
        run-eq evidences start end last boundary replay (specified evidences start last) w
            (specified_result evidences start last boundary) checked looped
            (judge-eq last boundary (specified evidences start last) persistent named v.utc_last
              bound accepted),
      )
