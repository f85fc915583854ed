-- ===== src/Fusion/Replay/Trajectory.antt =====
-- The loop of `run`, with its index, its engine and its clock, against a specification that filters
-- all the Evidence afresh at every time of the grid.
use mathlib.Core.List.{append_assoc}
use mathlib.Core.Path.{subst}
use native.Mathlib.Nat.{div-add-mod, mul_comm}
use incident_awareness_engin.Float.{Float}
use incident_awareness_engin.Fusion.Replay.{
  TemporalReplayRunner, Observation, observation, ingest_due, replay_at, replay_loop, rounds,
}
use incident_awareness_engin.Fusion.Replay.Engine.{
  reset-Holds, back, OfKey, Holds, ingest_due-Holds, advance_to-Holds,
}
use incident_awareness_engin.Fusion.Window.Invariant.{IsValid}
use incident_awareness_engin.Fusion.Window.{
  reset, StateKey, WindowEngine, in_window, advance_to, get_active_evidence,
}
use incident_awareness_engin.Fusion.Window.Deque.{time_of, IsOrdered}
use incident_awareness_engin.Model.Evidence.{Evidence}
use incident_awareness_engin.Prelude.{
  ℕ, zero, suc, ◌≤◌, ◌<◌, ◌+◌, ◌-◌, ◌*◌, ◌/◌, ◌%◌, ◌≡◌, refl, ◌∙◌, ap, sym, true, false, List, [],
  ◌∷◌, ◌++◌, ok, ltb, leb, arith, keep, All-append_left, All-append_right, Datetime, is_utc,
  datetime_max, le→leb,
}

IsOrdered-append_left : (d r : List Evidence) → IsOrdered (d ++ r) → IsOrdered d
IsOrdered-append_left [] r h = tt
IsOrdered-append_left (e ∷ d) r h = (
  All-append_left (λ y. ltb (time_of y) (time_of e) ≡ false) d r h.0,
  IsOrdered-append_left d r h.1,
)

IsOrdered-append_right : (d r : List Evidence) → IsOrdered (d ++ r) → IsOrdered r
IsOrdered-append_right [] r h = h
IsOrdered-append_right (e ∷ d) r h = IsOrdered-append_right d r h.1

abbrev pub plus : ℕ → Datetime → Datetime
plus delta t = record t { instant = t.instant + delta }

module _ {F : Type 0} (f : Float F) (runner : TemporalReplayRunner F) (key : StateKey) where
  abbrev pub window : ℕ
  window = runner.window_engine.window_size

  -- What the specification sees at a time: the Evidence of the whole input that lies in the inclusive
  -- window that ends there.
  abbrev pub seen_at : List Evidence → Datetime → Observation F
  seen_at evidences t = observation f runner t (keep (in_window (back window t) t) evidences)

  -- So many times, one step apart.
  abbrev pub grid : ℕ → Datetime → List Datetime
  grid zero t = []
  grid (suc n) t = t ∷ grid n (plus runner.step_size t)

  abbrev pub expected : ℕ → List Evidence → Datetime → List (Observation F)
  expected zero evidences t = []
  expected (suc n) evidences t =
      seen_at evidences t ∷ expected n evidences (plus runner.step_size t)

  -- The instant so many steps on.
  abbrev steps_on : ℕ → ℕ → ℕ
  steps_on zero t = t
  steps_on (suc r) t = steps_on r (t + runner.step_size)

  le-steps_on : (r t : ℕ) → t ≤ steps_on r t
  le-steps_on zero t = omega arith
  le-steps_on (suc r) t = omega (arith, le-steps_on r (t + runner.step_size))

  replay_at-eq :
      (current : Datetime) (w w₁ w₂ : WindowEngine) (left rest active : List Evidence)
      → ingest_due current left w ≡ (ok rest, w₁)
      → advance_to key current w₁ ≡ (ok tt, w₂)
      → get_active_evidence key w₂ ≡ active
      → replay_at f runner key current left w ≡ (ok (rest, observation f runner current active), w₂)
  unfolding replay_at
  replay_at-eq current w w₁ w₂ left rest active read moved scored = ground arith

  replay_at-lem :
      (current : Datetime) (w : WindowEngine) (done left : List Evidence) (cut : ℕ)
      → Holds key window w done left cut current.instant
      → OfKey key left
      → IsOrdered (done ++ left)
      → is_utc current ≡ true
      → window ≤ current.instant
      → cut ≤ current.instant - window
      → (due rest : List Evidence) × (w' : WindowEngine) × (replay_at f runner key current left w
          ≡ (ok (rest, seen_at (done ++ left) current), w'))
        × (left ≡ due ++ rest)
        × ((next : ℕ)
            → current.instant ≤ next
            → Holds key window w' (done ++ due) rest (current.instant - window) next)
  replay_at-lem current w done left cut h own ordered zone fits forward =
      let (due, rest, w₁, read, split, early, late, held) =
        ingest_due-Holds key window current left w done cut h own
          (IsOrdered-append_right done left ordered) in
      let whole : done ++ left ≡ (done ++ due) ++ rest =
        ap (λ xs. done ++ xs) split ∙ sym (append_assoc done due rest) in
      let (w₂, moved, active, next) =
        advance_to-Holds key window current w₁ (done ++ due) rest cut held zone fits forward
          (IsOrdered-append_left (done ++ due) rest (subst IsOrdered whole ordered)) late in
      let scored : get_active_evidence key w₂
          ≡ keep (in_window (back window current) current) (done ++ left) =
        active ∙ ap (keep (in_window (back window current) current)) (sym whole) in
      (
        due,
        rest,
        w₂,
        replay_at-eq current w w₁ w₂ left rest
            (keep (in_window (back window current) current) (done ++ left)) read moved scored,
        split,
        next,
      )

  loop_done :
      (n : ℕ) (end current : Datetime) (left : List Evidence) (w : WindowEngine)
      → end.instant < current.instant
      → replay_loop f runner n key end current left w ≡ (ok [], w)
  unfolding replay_loop
  loop_done zero end current left w past = ground arith
  loop_done (suc n) end current left w past = ground arith

  replay_loop-step :
      (n : ℕ) (end current : Datetime) (left rest : List Evidence) (w w₁ : WindowEngine)
      (o : Observation F)
      → current.instant ≤ end.instant
      → current.instant + runner.step_size ≤ datetime_max
      → replay_at f runner key current left w ≡ (ok (rest, o), w₁)
      → (os : List (Observation F)) (w₂ : WindowEngine)
      → replay_loop f runner n key end (plus runner.step_size current) rest w₁ ≡ (ok os, w₂)
      → replay_loop f runner (suc n) key end current left w ≡ (ok (o ∷ os), w₂)
  unfolding replay_loop
  replay_loop-step n end current left rest w w₁ o before calendar now os w₂ later =
      let go : leb current.instant end.instant ≡ true = le→leb _ _ before in
      let fits : leb (current.instant + runner.step_size) datetime_max ≡ true =
        le→leb _ _ calendar in
      ground (arith, go, fits)

  module _ (evidences : List Evidence) (own : OfKey key evidences) (ordered : IsOrdered evidences)
      (positive : 0 < runner.step_size) (end : Datetime)
      (calendar : end.instant + runner.step_size ≤ datetime_max) where
    replay_loop-lem :
        (r n : ℕ) (current : Datetime) (w : WindowEngine) (done left : List Evidence) (cut : ℕ)
        → evidences ≡ done ++ left
        → Holds key window w done left cut current.instant
        → is_utc current ≡ true
        → window ≤ current.instant
        → cut ≤ current.instant - window
        → end.instant ≡ steps_on r current.instant
        → r < n
        → (w' : WindowEngine) × (replay_loop f runner n key end current left w
            ≡ (ok (expected (suc r) evidences current), w'))
    replay_loop-lem r zero current w done left cut split h zone fits forward reach enough =
        elim enough [ ]
    replay_loop-lem zero (suc n) current w done left cut split h zone fits forward reach enough =
        let mine =
          All-append_right (λ e. key ≡ (e.run_id, e.entity_id)) done left
            (subst (OfKey key) split own) in
        let (due, rest, w₁, now, cut_off, next) =
          replay_at-lem current w done left cut h mine (subst IsOrdered split ordered) zone fits
            forward in
        (
          w₁,
          replay_loop-step n end current left rest w w₁ (seen_at evidences current) (omega arith)
              (omega arith) (now ∙ ap (λ es. (ok (rest, seen_at es current), w₁)) (sym split)) [] w₁
              (loop_done n end (plus runner.step_size current) rest w₁ (omega arith)),
        )
    replay_loop-lem (suc r) (suc n) current w done left cut split h zone fits forward reach enough =
        let mine =
          All-append_right (λ e. key ≡ (e.run_id, e.entity_id)) done left
            (subst (OfKey key) split own) in
        let (due, rest, w₁, now, cut_off, next) =
          replay_at-lem current w done left cut h mine (subst IsOrdered split ordered) zone fits
            forward in
        let step = runner.step_size in
        let far = le-steps_on r (current.instant + step) in
        let whole : evidences ≡ (done ++ due) ++ rest =
          split ∙ ap (λ xs. done ++ xs) cut_off ∙ sym (append_assoc done due rest) in
        let (w₂, later) =
          replay_loop-lem r n (plus step current) w₁ (done ++ due) rest (current.instant - window)
            whole (next (current.instant + step) (omega arith)) zone (omega arith) (omega arith)
            reach (omega arith) in
        (
          w₂,
          replay_loop-step n end current left rest w w₁ (seen_at evidences current)
              (omega (arith, far)) (omega (arith, far))
              (now ∙ ap (λ es. (ok (rest, seen_at es current), w₁)) (sym split))
              (expected (suc r) evidences (plus step current)) w₂ later,
        )

    steps_on-mul : (r t : ℕ) → steps_on r t ≡ t + r * runner.step_size
    steps_on-mul zero t = omega arith
    steps_on-mul (suc r) t = steps_on-mul r (t + runner.step_size) ∙ grind arith

    -- The loop of `run`, from an engine that was reset: it ends within its bound, and observes at every
    -- time of the grid exactly what the specification sees there.
    pub replay_loop-expected :
        (start : Datetime)
        → IsValid runner.window_engine
        → is_utc start ≡ true
        → window ≤ start.instant
        → start.instant ≤ end.instant
        → (end.instant - start.instant) % runner.step_size ≡ 0
        → (w : WindowEngine) × (replay_loop f runner
              (rounds f runner start end)
              key
              end
              start
              evidences
              (reset key runner.window_engine)
            ≡ (
              ok (
                  expected
                    (suc ((end.instant - start.instant) / runner.step_size))
                    evidences
                    start),
              w,
            ))
    replay_loop-expected start valid zone fits forward aligned =
        let r = (end.instant - start.instant) / runner.step_size in
        let reach : end.instant ≡ steps_on r start.instant = omega (
          arith,
          steps_on-mul r start.instant,
          div-add-mod (end.instant - start.instant) runner.step_size,
          mul_comm r runner.step_size,
        ) in
        replay_loop-lem r (rounds f runner start end) start (reset key runner.window_engine) []
          evidences 0 refl
          (reset-Holds key window runner.window_engine evidences start.instant valid refl) zone fits
          (omega arith) reach (omega arith)
