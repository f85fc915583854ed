-- ===== src/Fusion/Replay/Engine.antt =====
-- One round of the replay on the window engine: what the engine holds stands for all the Evidence that
-- was read so far, up to what no later window can contain.
use incident_awareness_engin.Fusion.Replay.{ingest_due}
use incident_awareness_engin.Fusion.Window.{
  StateKey, WindowEngine, Outcome, deque_or_empty, is_before, is_after, reset, ingest, drop_before,
  advance_to, get_active_evidence, in_window,
}
use incident_awareness_engin.Fusion.Window.Deque.{
  time_of, IsOrdered, UpTo, drop_before-append, keep-drop_before, keep_none,
}
use incident_awareness_engin.Fusion.Window.Invariant.{
  IsValid, deque, reset-IsValid, ingested, ingest-IsValid, ingest-accepted, advance_to-IsValid,
  active-advance_to, advance_to-Advanced,
}
use incident_awareness_engin.Model.Evidence.{Evidence}
use incident_awareness_engin.Prelude.{
  ℕ, ◌≤◌, ◌-◌, ◌≡◌, refl, ◌∙◌, ap, sym, Bool, true, false, inl, inr, List, [], ◌∷◌, ◌++◌, none,
  some, ok, leb, arith, keep, keep-append, All, All-imp, Bool-cases, lookup, lookup-insert_self,
  lookup-erase_self, All-of, pair_eq, string_eq, Datetime, is_utc, ltb→le, le→ltb, leb→le, leb→lt,
  lt→leb,
}
use mathlib.Core.Path.{subst}
use mathlib.Core.List.{append-nil, append_assoc}

-- `t - window`, where the window does not reach before the first datetime.
abbrev pub back : ℕ → Datetime → Datetime
back window t = record t { instant = t.instant - window }

abbrev pub OfKey : StateKey → List Evidence → Type 0
OfKey key = All (λ e. key ≡ (e.run_id, e.entity_id))

ingest_due-read :
    (current : Datetime) (e : Evidence) (left : List Evidence) (w : WindowEngine)
    {w' : WindowEngine}
    → leb (time_of e) current.instant ≡ true
    → ingest e w ≡ (ok tt, w')
    → ingest_due current (e ∷ left) w ≡ ingest_due current left w'
unfolding ingest_due
ingest_due-read current e left w due accepted = ground arith

ingest_due-stop :
    (current : Datetime) (e : Evidence) (left : List Evidence) (w : WindowEngine)
    → leb (time_of e) current.instant ≡ false
    → ingest_due current (e ∷ left) w ≡ (ok (e ∷ left), w)
unfolding ingest_due
ingest_due-stop current e left w later = rw (later, ingest_due)

module _ (key : StateKey) (window : ℕ) where
  -- The engine holds what was read (`done`), but for what lies before the cutoff; what is still to be
  -- read (`left`) is behind no mark of the engine.
  pub record Holds (w : WindowEngine) (done left : List Evidence) (cut now : ℕ) : Type 0 where
    pub valid : IsValid w
    pub size : w.window_size ≡ window
    pub drops :
        (c : Datetime) (r : List Evidence)
        → cut ≤ c.instant
        → drop_before c (deque key w ++ r) ≡ drop_before c (done ++ r)
    pub after_mark :
        All (λ e. is_before e.timestamp (lookup key w.last_advance_timestamp) ≡ false) left
    pub after_stamp : All (λ e. is_before e.timestamp (lookup key w.last_timestamp) ≡ false) left
    pub now_after_mark :
        (t : Datetime) → now ≤ t.instant → is_before t (lookup key w.last_advance_timestamp) ≡ false
    pub now_after_stamp :
        (t : Datetime) → now ≤ t.instant → is_after (lookup key w.last_timestamp) t ≡ false

  ingested-deque :
      (e : Evidence) (w : WindowEngine)
      → key ≡ (e.run_id, e.entity_id)
      → deque key (ingested e w) ≡ deque key w ++ e ∷ []
  ingested-deque e w own =
      let k : StateKey = (e.run_id, e.entity_id) in
      subst (λ j. deque j (ingested e w) ≡ deque j w ++ e ∷ []) (sym own)
        (ap deque_or_empty (lookup-insert_self k (deque k w ++ e ∷ []) w.states))

  ingested-stamp :
      (e : Evidence) (w : WindowEngine)
      → key ≡ (e.run_id, e.entity_id)
      → lookup key (ingested e w).last_timestamp ≡ some e.timestamp
  ingested-stamp e w own =
      let k : StateKey = (e.run_id, e.entity_id) in
      subst (λ j. lookup j (ingested e w).last_timestamp ≡ some e.timestamp) (sym own)
        (lookup-insert_self k e.timestamp w.last_timestamp)

  module _ (w : WindowEngine) (done left : List Evidence) (e : Evidence) (cut now : ℕ) where
    ingest-Holds :
        Holds w done (e ∷ left) cut now
        → key ≡ (e.run_id, e.entity_id)
        → time_of e ≤ now
        → IsOrdered (e ∷ left)
        → (ingest e w ≡ (ok tt, ingested e w)) × Holds (ingested e w) (done ++ e ∷ []) left cut now
    ingest-Holds h own due ordered =
        let accepted = ingest-accepted e w (rw own at h.after_mark.0) (rw own at h.after_stamp.0) in
        let stamp = ingested-stamp e w own in
        (
          accepted,
          record {
            valid =
                subst (λ (r : Outcome (Unit {0})). IsValid r.1) accepted
                  (ingest-IsValid e w h.valid);
            size = h.size;
            drops = λ c r le. rw (ingested-deque e w own) (
                ap (drop_before c) (append_assoc (deque key w) (e ∷ []) r)
                ∙ h.drops c (e ∷ r) le
                ∙ ap (drop_before c) (sym (append_assoc done (e ∷ []) r)));
            after_mark = h.after_mark.1;
            after_stamp =
                subst (λ o. All (λ x. is_before x.timestamp o ≡ false) left) (sym stamp) ordered.0;
            now_after_mark = h.now_after_mark;
            now_after_stamp = λ t le.
                subst (λ o. is_after o t ≡ false) (sym stamp) (le→ltb _ _ (omega (arith, le, due)));
          },
        )

  -- The inner loop reads exactly the Evidence up to the current time.
  pub ingest_due-Holds :
      (current : Datetime) (left : List Evidence) (w : WindowEngine) (done : List Evidence)
      (cut : ℕ)
      → Holds w done left cut current.instant
      → OfKey key left
      → IsOrdered left
      → (due rest : List Evidence) × (w' : WindowEngine) × (ingest_due current left w
          ≡ (ok rest, w'))
        × (left ≡ due ++ rest)
        × UpTo current.instant due
        × All (λ e. leb (time_of e) current.instant ≡ false) rest
        × Holds w' (done ++ due) rest cut current.instant
  unfolding ingest_due
  ingest_due-Holds current [] w done cut h own ordered =
      ([], [], w, refl, refl, tt, tt, rw append-nil h)
  ingest_due-Holds current (e ∷ left) w done cut h own ordered =
      elim (Bool-cases (leb (time_of e) current.instant)) [
        | inl due ↦
            let (accepted, next) =
              ingest-Holds w done left e cut current.instant h own.0 (leb→le _ _ due) ordered in
            let (ds, rest, w', run, split, early, late, held) =
              ingest_due-Holds current left (ingested e w) (done ++ e ∷ []) cut next own.1
                ordered.1 in
            (
              e ∷ ds,
              rest,
              w',
              ingest_due-read current e left w due accepted ∙ run,
              ap (◌∷◌ e) split,
              (leb→le _ _ due, early),
              late,
              subst (λ d. Holds w' d rest cut current.instant) (append_assoc done (e ∷ []) ds) held,
            )
        | inr later ↦ (
          [],
          e ∷ left,
          w,
          ingest_due-stop current e left w later,
          refl,
          tt,
          (
            later,
            All-imp (λ x k. lt→leb _ _ (omega (arith, leb→lt _ _ later, ltb→le _ _ k))) left
                ordered.0,
          ),
          rw append-nil h,
        )
      ]

  same_window :
      (current : Datetime) (w : WindowEngine) (done rest : List Evidence) (cut : ℕ)
      → Holds w done rest cut current.instant
      → cut ≤ current.instant - window
      → IsOrdered done
      → All (λ e. leb (time_of e) current.instant ≡ false) rest
      → keep (in_window (back w.window_size current) current) (deque key w)
        ≡ keep (in_window (back window current) current) (done ++ rest)
  same_window current w done rest cut h forward ordered late =
      let start = back w.window_size current in
      let inside = in_window start current in
      let until : Evidence → Bool = λ e. leb (time_of e) current.instant in
      let read : drop_before start (deque key w) ≡ drop_before start done =
        ap (drop_before start) (sym (append-nil (deque key w)))
        ∙ h.drops start [] (omega (arith, h.size))
        ∙ ap (drop_before start) (append-nil done) in
      sym (keep-drop_before start current (deque key w) (h.valid.ordered key))
      ∙ ap (keep until) read
      ∙ keep-drop_before start current done ordered
      ∙ sym (append-nil (keep inside done))
      ∙ ap (λ xs. keep inside done ++ xs)
          (sym (keep_none inside rest (All-imp (λ x k. ground (arith, k)) rest late)))
      ∙ sym (keep-append inside done rest)
      ∙ ap (λ n. keep (in_window (back n current) current) (done ++ rest)) h.size

  -- The round's advance: what it scores is the Evidence of the window among all the Evidence.
  pub advance_to-Holds :
      (current : Datetime) (w : WindowEngine) (done rest : List Evidence) (cut : ℕ)
      → Holds w done rest cut current.instant
      → is_utc current ≡ true
      → window ≤ current.instant
      → cut ≤ current.instant - window
      → IsOrdered done
      → All (λ e. leb (time_of e) current.instant ≡ false) rest
      → (w' : WindowEngine) × (advance_to key current w ≡ (ok tt, w'))
        × (get_active_evidence key w'
            ≡ keep (in_window (back window current) current) (done ++ rest))
        × ((next : ℕ) → current.instant ≤ next → Holds w' done rest (current.instant - window) next)
  advance_to-Holds current w done rest cut h zone fits forward ordered late =
      let mark = h.now_after_mark current (omega arith) in
      let stamp = h.now_after_stamp current (omega arith) in
      let inside : w.window_size ≤ current.instant = omega (arith, h.size) in
      let (accepted, active) = active-advance_to key current w h.valid zone mark stamp inside in
      let adv = advance_to-Advanced key current w h.valid zone mark stamp inside in
      let start = back w.window_size current in
      (
        (advance_to key current w).1,
        λ i. (accepted i, (advance_to key current w).1),
        active ∙ same_window current w done rest cut h forward ordered late,
        λ next le. record {
          valid = advance_to-IsValid key current w h.valid;
          size = adv.same_size ∙ h.size;
          drops = λ c r later. rw adv.dropped (
              drop_before-append start c (deque key w) r (omega (arith, h.size, later))
              ∙ h.drops c r (omega arith));
          after_mark =
              subst (λ o. All (λ x. is_before x.timestamp o ≡ false) rest) (sym adv.marked)
                (All-imp (λ x k. le→ltb _ _ (omega (arith, leb→lt _ _ k))) rest late);
          after_stamp =
              subst (λ d. All (λ x. is_before x.timestamp (lookup key d) ≡ false) rest)
                (sym adv.same_stamp) h.after_stamp;
          now_after_mark = λ t later. rw adv.marked (le→ltb _ _ (omega arith));
          now_after_stamp = λ t later.
              subst (λ d. is_after (lookup key d) t ≡ false) (sym adv.same_stamp)
                (h.now_after_stamp t (omega arith));
        },
      )

  -- After a reset nothing is held and nothing is marked.
  pub reset-Holds :
      (w : WindowEngine) (left : List Evidence) (now : ℕ)
      → IsValid w
      → w.window_size ≡ window
      → Holds (reset key w) [] left 0 now
  unfolding reset
  reset-Holds w left now valid size = record {
    valid = unfold reset in reset-IsValid key w valid;
    size = size;
    drops =
        λ c r le. ap (λ o. drop_before c (deque_or_empty o ++ r)) (lookup-erase_self key w.states);
    after_mark =
        subst (λ o. All (λ e. is_before e.timestamp o ≡ false) left)
          (sym (lookup-erase_self key w.last_advance_timestamp)) (all_refl left);
    after_stamp =
        subst (λ o. All (λ e. is_before e.timestamp o ≡ false) left)
          (sym (lookup-erase_self key w.last_timestamp)) (all_refl left);
    now_after_mark = λ t le. ap (is_before t) (lookup-erase_self key w.last_advance_timestamp);
    now_after_stamp = λ t le. ap (λ o. is_after o t) (lookup-erase_self key w.last_timestamp);
  }
    where
      all_refl : (l : List Evidence) → All (λ e. is_before e.timestamp none ≡ false) l
      all_refl l = All-of (λ e. is_before e.timestamp none ≡ false) (λ e. refl) l
