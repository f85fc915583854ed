-- ===== src/Fusion/Causal/Run.antt =====
-- `run_causal` as a whole: on a schedule that its checks accept it always returns, with the scores of what
-- was available at each replay time.
use incident_awareness_engin.Float.{Float, FloatLaws}
use incident_awareness_engin.Fusion.Causal.{
  validate_scheduled, causal_replay_points, causal_loop, order_scheduled, activation_order,
  activation_key, run_causal,
}
use incident_awareness_engin.Fusion.Causal.Availability.{
  InOrder-of_sorted, Rising, counted_at, seen_causally, causal_loop_lem,
}
use incident_awareness_engin.Fusion.Causal.Points.{causal_points, specified_points}
use incident_awareness_engin.Fusion.Replay.{
  TemporalReplayRunner, TemporalReplayResult, ScheduledEvidence, Observation, observation, judge,
}
use incident_awareness_engin.Fusion.Replay.Run.{judged, judge-eq, point_accepted, utc_of}
use incident_awareness_engin.Fusion.Score.Bounds as Bounds
use incident_awareness_engin.Fusion.Score.Bounds.{score_unit}
use incident_awareness_engin.Fusion.Score.{score}
use incident_awareness_engin.Fusion.Stopping.{run_end, validate_utc_datetime, not_increasing}
use incident_awareness_engin.Fusion.Stopping.Automaton.{Accepted}
use incident_awareness_engin.Fusion.Window.{StateKey}
use incident_awareness_engin.Prelude.{
  ℕ, suc, ◌+◌, ◌≤◌, ◌<◌, ◌≡◌, refl, false, List, [], ◌∷◌, map, Option, none, some, ok, Datetime,
  datetime_max, ltb, le→ltb, lt→leb, is_blank, sort_by-IsSortedBy,
}

module _ {F : Type 0} (f : Float F) (runner : TemporalReplayRunner F) (key : StateKey) where
  Accepted-causally :
      (laws : FloatLaws f) (valid : Bounds.IsValid runner.scorer) (ordered : List ScheduledEvidence)
      (end : Datetime) (low : ℕ) (previous : Option Datetime) (ts : List Datetime)
      → ((t : Datetime) → low ≤ t.instant → not_increasing previous t ≡ false)
      → Rising end.instant low ts
      → Accepted f runner.stopping_policy key.0 key.1 end previous
          (map (λ o. o.0) (map (seen_causally f runner ordered) ts))
  unfolding observation
  Accepted-causally laws valid ordered end low previous [] after rising = tt
  Accepted-causally laws valid ordered end low previous (t ∷ ts) after
        (zone, above, below, rising) =
      let (finite, nonneg, le_one) =
        score_unit f laws runner.scorer valid (counted_at f runner ordered t) in
      (
        point_accepted f runner key end t previous
            (score f runner.scorer (counted_at f runner ordered t)) zone (after t above) below
            finite nonneg le_one,
        Accepted-causally laws valid ordered end (suc t.instant) (some t) ts
            (λ s later. lt→leb s.instant t.instant later) rising,
      )

  run_causal-eq :
      (scheduled : List ScheduledEvidence) (start end : Datetime) (points : List Datetime)
      (os : List (Observation F)) (result : TemporalReplayResult F)
      → validate_utc_datetime start ≡ ok tt
      → validate_utc_datetime end ≡ ok tt
      → start.instant ≤ end.instant
      → validate_scheduled key start end [] scheduled ≡ ok tt
      → causal_replay_points f runner start end ≡ ok points
      → causal_loop f runner points (order_scheduled scheduled) [] ≡ ok os
      → judge f runner key end run_end os ≡ ok result
      → run_causal f runner key scheduled start end ≡ ok result
  unfolding run_causal
  run_causal-eq scheduled start end points os result utc_start utc_end before checked timed looped
        judged =
      let past : ltb end.instant start.instant ≡ false = le→ltb _ _ before in
      rw (utc_start, utc_end, past, checked, timed, looped, judged) refl

  -- On arguments in UTC and a schedule that its checks accept, with a valid scorer, a policy that asks for
  -- at least one high score, a non-blank entity, a start that the window fits before
  -- and an end that one more step does not carry past the calendar, `run_causal` returns: its replay times
  -- are the start, every time a whole number of steps behind it up to the end, and the end, each once;
  -- the score and the snapshot at each of them are those of the Evidence that was available by then and
  -- whose own timestamp lies in the window that ends there, and the stopping result and trace are those
  -- of the policy's automaton on those scores.
  pub run_causal_specified :
      (laws : FloatLaws f) (scorer_valid : Bounds.IsValid runner.scorer)
      (persistent : 1 ≤ runner.stopping_policy.persistence_k) (positive : 0 < runner.step_size)
      (named : is_blank key.1 ≡ false) (scheduled : List ScheduledEvidence) (start end : Datetime)
      → runner.window_engine.window_size ≤ start.instant
      → end.instant + runner.step_size ≤ datetime_max
      → validate_utc_datetime start ≡ ok tt
      → validate_utc_datetime end ≡ ok tt
      → start.instant ≤ end.instant
      → validate_scheduled key start end [] scheduled ≡ ok tt
      → run_causal f runner key scheduled start end
        ≡ ok (
            judged f runner key end run_end (
              map
                (seen_causally f runner (order_scheduled scheduled))
                (specified_points runner.step_size start end)))
  run_causal_specified laws scorer_valid persistent positive named scheduled start end fits calendar
        utc_start utc_end before checked =
      let ordered = order_scheduled scheduled in
      let points = specified_points runner.step_size start end in
      let (timed, rising, closed) =
        causal_points f runner end positive calendar start (utc_of start utc_start)
          (utc_of end utc_end) before in
      let os = map (seen_causally f runner ordered) points in
      let in_order =
        InOrder-of_sorted ordered
          (sort_by-IsSortedBy ⦃o = activation_order⦄ activation_key scheduled) in
      let looped =
        causal_loop_lem f runner points end.instant start.instant ordered [] ordered refl tt
          in_order fits rising in
      let accepted =
        Accepted-causally laws scorer_valid ordered end start.instant none points (λ t h. refl)
          rising in
      run_causal-eq scheduled start end points os (judged f runner key end run_end os) utc_start
        utc_end before checked timed looped
        (judge-eq f runner key end run_end os persistent named utc_end refl accepted)
