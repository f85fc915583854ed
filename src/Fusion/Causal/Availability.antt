-- ===== src/Fusion/Causal/Availability.antt =====
-- What the causal replay sees: at each replay time the Evidence available by then, and never a later
-- one, whatever order the input has.
use mathlib.Core.List.{append-nil, append_assoc}
use mathlib.Core.Path.{subst}
use incident_awareness_engin.Float.{Float}
use incident_awareness_engin.Fusion.Causal.{activate, activation_order, activation_key, causal_loop}
use incident_awareness_engin.Fusion.Replay.{
  TemporalReplayRunner, ScheduledEvidence, Observation, observation,
}
use incident_awareness_engin.Fusion.Replay.Engine.{back}
use incident_awareness_engin.Fusion.Window.{in_window, filter_by_event_time_window}
use incident_awareness_engin.Model.Evidence.{Evidence}
use incident_awareness_engin.Prelude.{
  ℕ, suc, ◌≤◌, ◌<◌, ◌≡◌, refl, ◌∙◌, ap, sym, Bool, true, false, inl, inr, List, [], ◌∷◌, ◌++◌, map,
  ok, ltb, leb, arith, keep, All, All-append, All-imp, Bool-cases, Datetime, is_utc, leb→le, le→leb,
  le→ltb, leb→lt, lt→leb, sub_delta, IsSortedBy, string_order, nat_order, pair_order, keep-append,
}

abbrev pub is_available : Datetime → ScheduledEvidence → Bool
is_available t s = leb s.available_at.instant t.instant

abbrev pub evidence_of : List ScheduledEvidence → List Evidence
evidence_of = map (λ s. s.evidence)

-- In the order of availability.
abbrev pub InOrder : List ScheduledEvidence → Type 0
InOrder [] = Unit
InOrder (s ∷ ss) = All (λ x. s.available_at.instant ≤ x.available_at.instant) ss × InOrder ss

key_le :
    (s x : ScheduledEvidence)
    → activation_order.lt (activation_key x) (activation_key s) ≡ false
    → s.available_at.instant ≤ x.available_at.instant
key_le s x h = ground arith

pub InOrder-of_sorted :
    (ss : List ScheduledEvidence) → IsSortedBy ⦃o = activation_order⦄ activation_key ss → InOrder ss
InOrder-of_sorted [] h = tt
InOrder-of_sorted (s ∷ ss) h = (All-imp (λ x k. key_le s x k) ss h.0, InOrder-of_sorted ss h.1)

none_available :
    (t : Datetime) (a : ℕ) (ss : List ScheduledEvidence)
    → t.instant < a
    → All (λ x. a ≤ x.available_at.instant) ss
    → keep (is_available t) ss ≡ []
none_available t a [] late h = refl
none_available t a (s ∷ ss) late h =
    rw (lt→leb s.available_at.instant t.instant (omega (arith, late, h.0)))
      (none_available t a ss late h.1)

activate-read :
    (t : Datetime) (s : ScheduledEvidence) (ss : List ScheduledEvidence) (activated : List Evidence)
    → leb s.available_at.instant t.instant ≡ true
    → activate t (s ∷ ss) activated ≡ activate t ss (activated ++ s.evidence ∷ [])
activate-read t s ss activated h = ground arith

activate-stop :
    (t : Datetime) (s : ScheduledEvidence) (ss : List ScheduledEvidence) (activated : List Evidence)
    → leb s.available_at.instant t.instant ≡ false
    → activate t (s ∷ ss) activated ≡ (s ∷ ss, activated)
activate-stop t s ss activated h = ground arith

activate_lem :
    (t : Datetime) (pending : List ScheduledEvidence) (activated : List Evidence)
    → InOrder pending
    → (due rest : List ScheduledEvidence) × (activate t pending activated
        ≡ (rest, activated ++ evidence_of due))
      × (pending ≡ due ++ rest)
      × All (λ s. s.available_at.instant ≤ t.instant) due
      × (keep (is_available t) rest ≡ [])
      × InOrder rest
activate_lem t [] activated h =
    ([], [], ap (λ a. ([], a)) (sym (append-nil activated)), refl, tt, refl, tt)
activate_lem t (s ∷ ss) activated h = elim (Bool-cases (leb s.available_at.instant t.instant)) [
  | inl e ↦
      let (due, rest, is, split, early, late, ordered) =
        activate_lem t ss (activated ++ s.evidence ∷ []) h.1 in
      (
        s ∷ due,
        rest,
        activate-read t s ss activated e
            ∙ (is
                ∙ ap (λ a. (rest, a)) (append_assoc activated (s.evidence ∷ []) (evidence_of due))),
        ap (λ xs. s ∷ xs) split,
        (leb→le _ _ e, early),
        late,
        ordered,
      )
  | inr e ↦ (
    [],
    s ∷ ss,
    activate-stop t s ss activated e ∙ ap (λ a. (s ∷ ss, a)) (sym (append-nil activated)),
    refl,
    tt,
    none_available t s.available_at.instant (s ∷ ss) (leb→lt _ _ e) (omega arith, h.0),
    h,
  )
]

keep_due :
    (t : Datetime) (n : ℕ) (due : List ScheduledEvidence)
    → n ≤ t.instant
    → All (λ s. s.available_at.instant ≤ n) due
    → keep (is_available t) due ≡ due
keep_due t n [] h early = refl
keep_due t n (s ∷ due) h early =
    rw (le→leb s.available_at.instant t.instant (omega (arith, early.0)))
      (ap (λ xs. s ∷ xs) (keep_due t n due h early.1))

available-eq :
    (t : Datetime) (n : ℕ) (whole early late : List ScheduledEvidence)
    → whole ≡ early ++ late
    → n ≤ t.instant
    → All (λ s. s.available_at.instant ≤ n) early
    → keep (is_available t) late ≡ []
    → keep (is_available t) whole ≡ early
available-eq t n whole early late split h due waiting =
    ap (keep (is_available t)) split
    ∙ keep-append (is_available t) early late
    ∙ ap (λ xs. keep (is_available t) early ++ xs) waiting
    ∙ append-nil (keep (is_available t) early)
    ∙ keep_due t n early h due

evidence_of-append :
    (xs ys : List ScheduledEvidence) → evidence_of xs ++ evidence_of ys ≡ evidence_of (xs ++ ys)
evidence_of-append [] ys = refl
evidence_of-append (x ∷ xs) ys = ap (λ es. x.evidence ∷ es) (evidence_of-append xs ys)

-- Replay times: in UTC, rising from the first bound and not past the end.
abbrev pub Rising : ℕ → ℕ → List Datetime → Type 0
Rising end low [] = Unit
Rising end low (t ∷ ts) =
    (is_utc t ≡ true) × (low ≤ t.instant) × (t.instant ≤ end) × Rising end (suc t.instant) ts

module _ {F : Type 0} (f : Float F) (runner : TemporalReplayRunner F) where
  -- The Evidence that counts at a time: available by then, with its own timestamp in the window that
  -- ends there.
  abbrev pub counted_at : List ScheduledEvidence → Datetime → List Evidence
  counted_at ordered t =
      keep (in_window (back runner.window_engine.window_size t) t)
        (evidence_of (keep (is_available t) ordered))

  abbrev pub seen_causally : List ScheduledEvidence → Datetime → Observation F
  seen_causally ordered t = observation f runner t (counted_at ordered t)

  filter-eq :
      (t : Datetime) (es : List Evidence)
      → is_utc t ≡ true
      → runner.window_engine.window_size ≤ t.instant
      → filter_by_event_time_window runner.window_engine es t
        ≡ ok (keep (in_window (back runner.window_engine.window_size t) t) es)
  unfolding filter_by_event_time_window sub_delta
  filter-eq t es zone fits =
      let inside : ltb t.instant runner.window_engine.window_size ≡ false = le→ltb _ _ fits in
      ground (arith, inside)

  causal_loop-step :
      (t : Datetime) (ts : List Datetime) (pending rest : List ScheduledEvidence)
      (activated activated' active : List Evidence) (os : List (Observation F))
      → activate t pending activated ≡ (rest, activated')
      → filter_by_event_time_window runner.window_engine activated' t ≡ ok active
      → causal_loop f runner ts rest activated' ≡ ok os
      → causal_loop f runner (t ∷ ts) pending activated ≡ ok (observation f runner t active ∷ os)
  unfolding causal_loop
  causal_loop-step t ts pending rest activated activated' active os moved kept later =
      let passed : (activate t pending activated).1 ≡ activated' = ap (λ x. x.1) moved in
      let left : (activate t pending activated).0 ≡ rest = ap (λ x. x.0) moved in
      let kept' : filter_by_event_time_window runner.window_engine (activate t pending activated).1
            t
          ≡ ok active =
        ap (λ a. filter_by_event_time_window runner.window_engine a t) passed ∙ kept in
      rw (kept', left, passed, later) refl

  pub causal_loop_lem :
      (ts : List Datetime) (end low : ℕ) (whole done pending : List ScheduledEvidence)
      → whole ≡ done ++ pending
      → All (λ s. s.available_at.instant ≤ low) done
      → InOrder pending
      → runner.window_engine.window_size ≤ low
      → Rising end low ts
      → causal_loop f runner ts pending (evidence_of done) ≡ ok (map (seen_causally whole) ts)
  unfolding causal_loop
  causal_loop_lem [] end low whole done pending split early ordered fits rising = refl
  causal_loop_lem (t ∷ ts) end low whole done pending split early ordered fits rising =
      let (zone, above, below, rest_rising) = rising in
      let (due, rest, moved, cut, early_due, late, ordered_rest) =
        activate_lem t pending (evidence_of done) ordered in
      let whole_cut : whole ≡ (done ++ due) ++ rest =
        split ∙ ap (λ xs. done ++ xs) cut ∙ sym (append_assoc done due rest) in
      let early_done : All (λ s. s.available_at.instant ≤ t.instant) (done ++ due) =
        All-append (λ s. s.available_at.instant ≤ t.instant) done due
          (All-imp (λ s k. omega (arith, k, above)) done early) early_due in
      let available : keep (is_available t) whole ≡ done ++ due =
        available-eq t t.instant whole (done ++ due) rest whole_cut (omega arith) early_done late in
      let joined : evidence_of done ++ evidence_of due ≡ evidence_of (done ++ due) =
        evidence_of-append done due in
      let counted : evidence_of done ++ evidence_of due
          ≡ evidence_of (keep (is_available t) whole) =
        joined ∙ ap evidence_of (sym available) in
      let kept =
        filter-eq t (evidence_of (keep (is_available t) whole)) zone (omega (arith, fits, above)) in
      let later =
        causal_loop_lem ts end (suc t.instant) whole (done ++ due) rest whole_cut
          (All-imp (λ s k. omega (arith, k)) (done ++ due) early_done) ordered_rest
          (omega (arith, fits, above)) rest_rising in
      causal_loop-step t ts pending rest (evidence_of done)
        (evidence_of (keep (is_available t) whole)) (counted_at whole t)
        (map (seen_causally whole) ts) (moved ∙ ap (λ a. (rest, a)) counted) kept
        (subst (λ a. causal_loop f runner ts rest a ≡ ok (map (seen_causally whole) ts))
          (ap evidence_of (sym available)) later)
