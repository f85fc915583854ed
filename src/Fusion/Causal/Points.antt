-- ===== src/Fusion/Causal/Points.antt =====
-- The replay times of the causal replay (`_causal_replay_points`): the grid from the start, and the end of
-- the run, once.
use incident_awareness_engin.Float.{Float}
use incident_awareness_engin.Fusion.Causal.{grid_points, with_end, causal_replay_points}
use incident_awareness_engin.Fusion.Causal.Availability.{Rising}
use incident_awareness_engin.Fusion.Replay.{TemporalReplayRunner}
use incident_awareness_engin.Fusion.Replay.Trajectory.{plus}
use mathlib.Core.Path.{subst}
use native.Mathlib.Nat.{div-add-mod, mul_comm, mod-lt}
use incident_awareness_engin.Prelude.{
  ℕ, zero, suc, ◌+◌, ◌-◌, ◌*◌, ◌/◌, ◌≤◌, ◌<◌, ◌≡◌, refl, sym, Bool, true, false, inl, inr, List, [],
  ◌∷◌, ok, leb, eqb, arith, Bool-cases, Datetime, is_utc, datetime_max, add_delta, le→leb, leb→le,
  lt→leb, any, ◌%◌, ◌++◌, ap, ◌∙◌, ok-inj, ◌>>=◌, if◌then◌else◌,
}

-- The times of the grid from the `k`-th one, so many of them: each is the start and `k` steps.
abbrev pub grid_from : ℕ → Datetime → ℕ → ℕ → List Datetime
grid_from step start k zero = []
grid_from step start k (suc n) = plus (k * step) start ∷ grid_from step start (k + 1) n

-- The replay times that the source means: every time of the grid up to the end, and the end where it does
-- not lie on the grid.
abbrev pub specified_points : ℕ → Datetime → Datetime → List Datetime
specified_points step start end =
    grid_from step start 0 (suc ((end.instant - start.instant) / step))
    ++ (if eqb ((end.instant - start.instant) % step) 0 then [] else end ∷ [])

-- The end is one of the times.
abbrev pub reaches : Datetime → List Datetime → Bool
reaches end = any (λ t. eqb t.instant end.instant)

module _ {F : Type 0} (f : Float F) (runner : TemporalReplayRunner F) (end : Datetime)
    (positive : 0 < runner.step_size)
    (calendar : end.instant + runner.step_size ≤ datetime_max) where
  grid_points-step :
      (n : ℕ) (t : Datetime) (later : List Datetime)
      → leb t.instant end.instant ≡ true
      → grid_points f runner n (plus runner.step_size t) end ≡ ok later
      → grid_points f runner (suc n) t end ≡ ok (t ∷ later)
  unfolding grid_points add_delta
  grid_points-step n t later before h =
      let fits : leb (t.instant + runner.step_size) datetime_max ≡ true =
        le→leb _ _ (omega (arith, leb→le _ _ before, calendar)) in
      ground arith

  grid_points-done :
      (n : ℕ) (t : Datetime)
      → leb t.instant end.instant ≡ false
      → grid_points f runner n t end ≡ ok []
  unfolding grid_points
  grid_points-done zero t past = ground arith
  grid_points-done (suc n) t past = ground arith

  -- On enough rounds the loop returns times that rise from its first one.
  grid_points_rise :
      (n low : ℕ) (t : Datetime)
      → is_utc t ≡ true
      → low ≤ t.instant
      → end.instant < t.instant + n * runner.step_size
      → (later : List Datetime) × (grid_points f runner n t end ≡ ok later)
        × Rising end.instant low later
  grid_points_rise zero low t zone above enough =
      ([], grid_points-done zero t (lt→leb _ _ (omega (arith, enough))), tt)
  grid_points_rise (suc n) low t zone above enough = elim (Bool-cases (leb t.instant end.instant)) [
    | inr past ↦ ([], grid_points-done (suc n) t past, tt)
    | inl before ↦
        let more : end.instant < (t.instant + runner.step_size) + n * runner.step_size =
          grind (arith, enough) in
        let (later, is, rising) =
          grid_points_rise n (suc t.instant) (plus runner.step_size t) zone
            (omega (arith, positive)) more in
        (t ∷ later, grid_points-step n t later before is, (zone, above, leb→le _ _ before, rising))
  ]

  with_end-cons :
      (t s : Datetime) (ts : List Datetime)
      → with_end f runner end (t ∷ s ∷ ts) ≡ t ∷ with_end f runner end (s ∷ ts)
  with_end-cons t s ts = ground arith

  reaches-cons :
      (t : Datetime) (ts : List Datetime) → reaches end ts ≡ true → reaches end (t ∷ ts) ≡ true
  reaches-cons t ts h = ground arith

  -- The end closes the times, whether or not it lies on the grid.
  with_end_rise :
      (low : ℕ) (t : Datetime) (ts : List Datetime)
      → is_utc end ≡ true
      → Rising end.instant low (t ∷ ts)
      → Rising end.instant low (with_end f runner end (t ∷ ts))
        × (reaches end (with_end f runner end (t ∷ ts)) ≡ true)
  with_end_rise low t [] utc_end (zone, above, below, _) =
      elim (Bool-cases (eqb t.instant end.instant)) [
        | inl e ↦ rw e ((zone, above, below, tt), ground arith)
        | inr e ↦
            let before : suc t.instant ≤ end.instant = ground arith in
            rw e ((zone, above, below, (utc_end, before, omega arith, tt)), ground arith)
      ]
  with_end_rise low t (s ∷ ts) utc_end (zone, above, below, rising) =
      let (more, closed) = with_end_rise (suc t.instant) s ts utc_end rising in
      subst (λ xs. Rising end.instant low xs × (reaches end xs ≡ true)) (sym (with_end-cons t s ts))
        ((zone, above, below, more), reaches-cons t (with_end f runner end (s ∷ ts)) closed)

  causal_points_rise :
      (start : Datetime)
      → is_utc start ≡ true
      → is_utc end ≡ true
      → start.instant ≤ end.instant
      → (points : List Datetime) × (causal_replay_points f runner start end ≡ ok points)
        × Rising end.instant start.instant points
        × (reaches end points ≡ true)
  unfolding causal_replay_points
  causal_points_rise start zone utc_end before =
      let r = (end.instant - start.instant) / runner.step_size in
      let enough : end.instant < (start.instant + runner.step_size) + suc r * runner.step_size =
        grind (
          arith,
          div-add-mod (end.instant - start.instant) runner.step_size,
          mod-lt (end.instant - start.instant) positive,
          mul_comm r runner.step_size,
          before,
        ) in
      let go : leb start.instant end.instant ≡ true = le→leb _ _ before in
      let (later, is, rising) =
        grid_points_rise (suc r) (suc start.instant) (plus runner.step_size start) zone
          (omega (arith, positive)) enough in
      let (risen, closed) =
        with_end_rise start.instant start later utc_end (zone, omega arith, before, rising) in
      (
        with_end f runner end (start ∷ later),
        rw (grid_points-step (suc r) start later go is) refl,
        risen,
        closed,
      )

  -- The loop reads off the grid from its `k`-th time, where so many steps are left.
  grid_points-grid_from :
      (start : Datetime) (r n m k : ℕ)
      → r < runner.step_size
      → end.instant + runner.step_size
        ≡ ((start.instant + k * runner.step_size) + m * runner.step_size) + r
      → m ≤ n
      → grid_points f runner n (plus (k * runner.step_size) start) end
        ≡ ok (grid_from runner.step_size start k m)
  grid_points-grid_from start r n zero k small left enough =
      grid_points-done n (plus (k * runner.step_size) start)
        (lt→leb _ _ (omega (arith, left, small)))
  grid_points-grid_from start r zero (suc m) k small left enough = absurd (omega (arith, enough))
  grid_points-grid_from start r (suc n) (suc m) k small left enough =
      let step = runner.step_size in
      let next : (start.instant + k * step) + step ≡ start.instant + (k + 1) * step = grind arith in
      let left' : end.instant + step ≡ ((start.instant + (k + 1) * step) + m * step) + r =
        grind (arith, left) in
      let before : start.instant + k * step ≤ end.instant = grind (arith, left) in
      let rest = grid_points-grid_from start r n m (k + 1) small left' (omega (arith, enough)) in
      grid_points-step n (plus (k * step) start) (grid_from step start (k + 1) m)
        (le→leb _ _ before)
        (subst
          (λ i.
            grid_points f runner n (record start { instant = i }) end
            ≡ ok (grid_from step start (k + 1) m))
          (sym next) rest)

  -- The end is added where a remainder is left behind the last time.
  with_end-grid_from :
      (start : Datetime) (r m k : ℕ)
      → end.instant ≡ ((start.instant + k * runner.step_size) + m * runner.step_size) + r
      → with_end f runner end (grid_from runner.step_size start k (suc m))
        ≡ grid_from runner.step_size start k (suc m) ++ (if eqb r 0 then [] else end ∷ [])
  with_end-grid_from start r zero k left = ground (arith, left)
  with_end-grid_from start r (suc m) k left =
      let step = runner.step_size in
      let left' : end.instant ≡ ((start.instant + (k + 1) * step) + m * step) + r =
        grind (arith, left) in
      with_end-cons (plus (k * step) start) (plus ((k + 1) * step) start)
        (grid_from step start (k + 1 + 1) m)
      ∙ ap (◌∷◌ (plus (k * step) start)) (with_end-grid_from start r m (k + 1) left')

  causal_replay_points-specified :
      (start : Datetime)
      → start.instant ≤ end.instant
      → causal_replay_points f runner start end ≡ ok (specified_points runner.step_size start end)
  unfolding causal_replay_points
  causal_replay_points-specified start before =
      let step = runner.step_size in
      let q = (end.instant - start.instant) / step in
      let r = (end.instant - start.instant) % step in
      let split : end.instant ≡ (start.instant + q * step) + r =
        omega (arith, div-add-mod (end.instant - start.instant) step, mul_comm q step, before) in
      let read =
        grid_points-grid_from start r (suc (suc q)) (suc q) 0
          (mod-lt (end.instant - start.instant) positive) (grind (arith, split)) (omega arith) in
      let closed = with_end-grid_from start r q 0 (grind (arith, split)) in
      let here : start.instant + 0 * step ≡ start.instant = omega arith in
      let read' : grid_points f runner (suc (suc q)) start end
          ≡ ok (grid_from step start 0 (suc q)) =
        subst
          (λ i.
            grid_points f runner (suc (suc q)) (record start { instant = i }) end
            ≡ ok (grid_from step start 0 (suc q)))
          here read in
      ap (λ x. x >>= λ points. ok (with_end f runner end points)) read' ∙ ap ok closed

  -- From a start in UTC that is not past the end, `_causal_replay_points` returns the start and every
  -- time a whole number of steps behind it up to the end, each once and in order, and then the end, where
  -- it is not one of them; these times are in UTC, rise strictly from the start to the end and include the
  -- end.
  pub causal_points :
      (start : Datetime)
      → is_utc start ≡ true
      → is_utc end ≡ true
      → start.instant ≤ end.instant
      → (causal_replay_points f runner start end ≡ ok (specified_points runner.step_size start end))
        × Rising end.instant start.instant (specified_points runner.step_size start end)
        × (reaches end (specified_points runner.step_size start end) ≡ true)
  causal_points start zone utc_end before =
      let specified = causal_replay_points-specified start before in
      let (points, is, rising, closed) = causal_points_rise start zone utc_end before in
      let same = ok-inj (sym is ∙ specified) in
      (
        specified,
        subst (Rising end.instant start.instant) same rising,
        subst (λ ts. reaches end ts ≡ true) same closed,
      )
