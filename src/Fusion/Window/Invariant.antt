-- ===== src/Fusion/Window/Invariant.antt =====
-- What the calls of the engine keep, what an advance leaves active, and what they leave alone.
use incident_awareness_engin.Fusion.Window.Deque.{
  time_of, IsOrdered, UpTo, drop_before-All, drop_before-IsOrdered, append-IsOrdered,
  keep-drop_before,
}
use incident_awareness_engin.Fusion.Window.{
  StateKey, WindowEngine, is_before, is_after, deque_or_empty, ingest, drop_before, advance_state,
  advance_to, get_active_evidence, in_window, reset,
}
use incident_awareness_engin.Model.Evidence.{Evidence}
use incident_awareness_engin.Prelude.{
  ◌≤◌, ◌-◌, ◌≡◌, refl, ◌∙◌, true, false, inl, inr, List, [], ◌∷◌, ◌++◌, Option, none, some, ok, ltb,
  leb, arith, keep, All-append, All-imp, Bool-cases, Option-cases, Dict, lookup, insert,
  lookup-insert, lookup-insert_self, lookup-insert_ne, lookup-erase, pair_eq, string_eq, Datetime,
  sub_delta, is_naive, is_utc, ltb→le, le→ltb, ◌==◌,
}

abbrev pub deque : StateKey → WindowEngine → List Evidence
deque key w = deque_or_empty (lookup key w.states)

-- No Evidence of the deque is later than the last one that was ingested.
abbrev pub Capped : Option Datetime → List Evidence → Type 0
Capped none d = d ≡ []
Capped (some t) d = UpTo t.instant d

-- Of every key: the deque is in timestamp order, and none of it is after the last ingested timestamp.
pub record IsValid (w : WindowEngine) : Type 0 where
  pub ordered : (key : StateKey) → IsOrdered (deque key w)
  pub capped : (key : StateKey) → Capped (lookup key w.last_timestamp) (deque key w)

Capped-UpTo :
    (o : Option Datetime) (t : Datetime) (d : List Evidence)
    → Capped o d
    → is_before t o ≡ false
    → UpTo t.instant d
Capped-UpTo none t d c h = rw c tt
Capped-UpTo (some l) t d c h = All-imp (λ e k. omega (arith, ltb→le _ _ h, k)) d c

-- The engine after a call of `ingest` that does not raise.
abbrev pub ingested : Evidence → WindowEngine → WindowEngine
ingested e w =
    let key : StateKey = (e.run_id, e.entity_id) in
    record w {
      states = insert key (deque key w ++ e ∷ []) w.states;
      last_timestamp = insert key e.timestamp w.last_timestamp;
    }

module _ (e : Evidence) (w : WindowEngine) (v : IsValid w) where
  abbrev own : StateKey
  own = (e.run_id, e.entity_id)

  module _ (on_time : is_before e.timestamp (lookup own w.last_timestamp) ≡ false) where
    earlier : UpTo (time_of e) (deque own w)
    earlier =
        Capped-UpTo (lookup own w.last_timestamp) e.timestamp (deque own w) (v.capped own) on_time

    ingested-IsOrdered : (k : StateKey) → IsOrdered (deque k (ingested e w))
    ingested-IsOrdered k = rw lookup-insert (elim (Bool-cases (k == own)) [
      | inl same ↦ rw same (append-IsOrdered (deque own w) e (v.ordered own) earlier)
      | inr other_key ↦ rw other_key (v.ordered k)
    ])

    ingested-Capped :
        (k : StateKey) → Capped (lookup k (ingested e w).last_timestamp) (deque k (ingested e w))
    ingested-Capped k = simp lookup-insert (elim (Bool-cases (k == own)) [
      | inl same ↦
          rw same (
            All-append (λ x. time_of x ≤ time_of e) (deque own w) (e ∷ []) earlier
              (omega arith, tt))
      | inr other_key ↦ rw other_key (v.capped k)
    ])

  -- `ingest` keeps every deque in order, whether it accepts the Evidence or raises.
  pub ingest-IsValid : IsValid (ingest e w).1
  unfolding ingest
  ingest-IsValid = elim (Bool-cases (is_before e.timestamp (lookup own w.last_advance_timestamp))) [
    | inl a ↦ rw a v
    | inr a ↦ elim (Bool-cases (is_before e.timestamp (lookup own w.last_timestamp))) [
      | inl b ↦ rw (a, b) v
      | inr b ↦ rw (a, b) (record { ordered = ingested-IsOrdered b; capped = ingested-Capped b })
    ]
  ]

Capped-drop_before :
    (o : Option Datetime) (cutoff : Datetime) (d : List Evidence)
    → Capped o d
    → Capped o (drop_before cutoff d)
unfolding drop_before
Capped-drop_before none cutoff d c = rw c
Capped-drop_before (some l) cutoff d c = drop_before-All (λ e. time_of e ≤ l.instant) cutoff d c

module _ (key : StateKey) (d : List Evidence) (w : WindowEngine) (v : IsValid w) where
  -- A deque that lost Evidence from the left.
  trimmed-IsValid :
      (cutoff : Datetime)
      → lookup key w.states ≡ some d
      → IsValid (record w { states = insert key (drop_before cutoff d) w.states })
  trimmed-IsValid cutoff found = record {
    ordered = λ k. rw lookup-insert (elim (Bool-cases (k == key)) [
      | inl same ↦ rw same (drop_before-IsOrdered cutoff d (rw found at (v.ordered key)))
      | inr other_key ↦ rw other_key (v.ordered k)
    ]);
    capped = λ k. rw lookup-insert (elim (Bool-cases (k == key)) [
      | inl same ↦ rw same (
          rw ((pair_eq.beq_iff k key).0 same) (
            Capped-drop_before (lookup key w.last_timestamp) cutoff d (rw found at (v.capped key))))
      | inr other_key ↦ rw other_key (v.capped k)
    ]);
  }

-- Only the deques and the last timestamps are asked about.
advanced-IsValid :
    (w : WindowEngine) (a : Dict StateKey Datetime)
    → IsValid w
    → IsValid (record w { last_advance_timestamp = a })
advanced-IsValid w a v = record { ordered = v.ordered; capped = v.capped }

advance_state-IsValid :
    (key : StateKey) (t : Datetime) (o : Option (List Evidence)) (w : WindowEngine)
    → lookup key w.states ≡ o
    → IsValid w
    → IsValid (advance_state key t o w).1
unfolding advance_state sub_delta
advance_state-IsValid key t none w found v = v
advance_state-IsValid key t (some d) w found v = elim (Bool-cases (ltb t.instant w.window_size)) [
  | inl short ↦ rw (short, advance_state) v
  | inr fits ↦
      rw (fits, advance_state)
        (trimmed-IsValid key d w v (record t { instant = t.instant - w.window_size }) found)
]

pub active_lem :
    (key : StateKey) (w : WindowEngine) {d : List Evidence} {t : Datetime}
    → lookup key w.states ≡ some d
    → lookup key w.last_advance_timestamp ≡ some t
    → get_active_evidence key w ≡ keep (λ e. leb (time_of e) t.instant) d
unfolding get_active_evidence
active_lem key w found mark = ground arith

module _ (key : StateKey) (t : Datetime) (w : WindowEngine) (v : IsValid w) where
  abbrev advance_mark : WindowEngine
  advance_mark = record w { last_advance_timestamp = insert key t w.last_advance_timestamp }

  -- `advance_to` keeps every deque in order, on each of its exits.
  pub advance_to-IsValid : IsValid (advance_to key t w).1
  unfolding advance_to
  advance_to-IsValid = elim (Bool-cases (is_naive t)) [
    | inl a ↦ rw a v
    | inr a ↦ elim (Bool-cases (is_utc t)) [
      | inl b ↦ elim (Bool-cases (is_before t (lookup key w.last_advance_timestamp))) [
        | inl c ↦ rw (a, b, c) v
        | inr c ↦ elim (Bool-cases (is_after (lookup key w.last_timestamp) t)) [
          | inl d ↦ rw (a, b, c, d) v
          | inr d ↦
              rw (a, b, c, d)
                (advance_state-IsValid key t (lookup key w.states) advance_mark refl
                  (advanced-IsValid w (insert key t w.last_advance_timestamp) v))
        ]
      ]
      | inr b ↦ rw (a, b) v
    ]
  ]

  -- The engine after the advance, where the key had a deque.
  abbrev advance_done : List Evidence → WindowEngine
  advance_done d = record advance_mark {
    states = insert key (drop_before (record t { instant = t.instant - w.window_size }) d) w.states;
  }

  advance_state-some :
      (d : List Evidence)
      → w.window_size ≤ t.instant
      → advance_state key t (some d) advance_mark ≡ (ok tt, advance_done d)
  unfolding advance_state sub_delta
  advance_state-some d fits = rw (le→ltb t.instant w.window_size fits, advance_state)

  module _ (zone : is_utc t ≡ true)
      (not_back : is_before t (lookup key w.last_advance_timestamp) ≡ false)
      (not_early : is_after (lookup key w.last_timestamp) t ≡ false)
      (fits : w.window_size ≤ t.instant) where
    pub advance_to-accepted :
        advance_to key t w ≡ advance_state key t (lookup key w.states) advance_mark
    unfolding advance_to
    advance_to-accepted =
        let aware : is_naive t ≡ false = ground arith in rw (aware, zone, not_back, not_early)

    abbrev window_start : Datetime
    window_start = record t { instant = t.instant - w.window_size }

    -- An advance in UTC that goes back behind nothing, with the window inside the calendar, succeeds,
    -- and leaves active exactly the Evidence of the deque that lies in the window that ends at it.
    pub active-advance_to :
        ((advance_to key t w).0 ≡ ok tt)
        × (get_active_evidence key (advance_to key t w).1
            ≡ keep (in_window window_start t) (deque key w))
    unfolding get_active_evidence advance_state
    active-advance_to = elim (Option-cases (lookup key w.states)) [
      | inl absent ↦ rw (advance_to-accepted, absent, advance_state) (refl, ground arith)
      | inr (d, present) ↦
          rw (advance_to-accepted, present, advance_state-some d fits)
            (
              refl,
              active_lem key (advance_done d)
                    (lookup-insert_self key (drop_before window_start d) w.states)
                    (lookup-insert_self key t w.last_advance_timestamp)
                  ∙ keep-drop_before window_start t d (rw present at (v.ordered key)),
            )
    ]

-- `reset` keeps every deque in order.
pub reset-IsValid : (key : StateKey) (w : WindowEngine) → IsValid w → IsValid (reset key w)
unfolding reset
reset-IsValid key w v = record {
  ordered = λ k. rw lookup-erase (elim (Bool-cases (k == key)) [
    | inl same ↦ rw same tt
    | inr other_key ↦ rw other_key (v.ordered k)
  ]);
  capped = λ k. simp lookup-erase (elim (Bool-cases (k == key)) [
    | inl same ↦ rw same refl
    | inr other_key ↦ rw other_key (v.capped k)
  ]);
}

-- What an accepted advance leaves in the engine.
pub record Advanced (key : StateKey) (t : Datetime) (w w' : WindowEngine) : Type 0 where
  pub same_size : w'.window_size ≡ w.window_size
  pub dropped :
      deque key w' ≡ drop_before (record t { instant = t.instant - w.window_size }) (deque key w)
  pub marked : lookup key w'.last_advance_timestamp ≡ some t
  pub same_stamp : w'.last_timestamp ≡ w.last_timestamp

pub advance_to-Advanced :
    (key : StateKey) (t : Datetime) (w : WindowEngine)
    → IsValid w
    → is_utc t ≡ true
    → is_before t (lookup key w.last_advance_timestamp) ≡ false
    → is_after (lookup key w.last_timestamp) t ≡ false
    → w.window_size ≤ t.instant
    → Advanced key t w (advance_to key t w).1
unfolding advance_state drop_before
advance_to-Advanced key t w v zone not_back not_early fits =
    elim (Option-cases (lookup key w.states)) [
      | inl absent ↦
          rw (advance_to-accepted key t w v zone not_back not_early fits, absent, advance_state)
            (record {
              same_size = refl;
              dropped = rw absent;
              marked = lookup-insert_self key t w.last_advance_timestamp;
              same_stamp = refl;
            })
      | inr (d, present) ↦
          rw
            (
              advance_to-accepted key t w v zone not_back not_early fits,
              present,
              advance_state-some key t w v d fits,
            )
            (record {
              same_size = refl;
              dropped = rw (lookup-insert_self, present);
              marked = lookup-insert_self key t w.last_advance_timestamp;
              same_stamp = refl;
            })
    ]

pub ingest-accepted :
    (e : Evidence) (w : WindowEngine)
    → is_before e.timestamp (lookup (e.run_id, e.entity_id) w.last_advance_timestamp) ≡ false
    → is_before e.timestamp (lookup (e.run_id, e.entity_id) w.last_timestamp) ≡ false
    → ingest e w ≡ (ok tt, ingested e w)
unfolding ingest
ingest-accepted e w a b = rw (a, b)

-- All that the engine holds for a key.
abbrev pub SameAt : StateKey → WindowEngine → WindowEngine → Type 0
SameAt k w w' =
    (lookup k w'.states ≡ lookup k w.states)
    × (lookup k w'.last_timestamp ≡ lookup k w.last_timestamp)
    × (lookup k w'.last_advance_timestamp ≡ lookup k w.last_advance_timestamp)

module _ (k : StateKey) (w : WindowEngine) where
  ingest-SameAt :
      (e : Evidence) → (k == (e.run_id, e.entity_id)) ≡ false → SameAt k w (ingest e w).1
  unfolding ingest
  ingest-SameAt e h = ground (
    arith,
    lookup-insert_ne (e.run_id, e.entity_id) k (deque (e.run_id, e.entity_id) w ++ e ∷ []) w.states,
    lookup-insert_ne (e.run_id, e.entity_id) k e.timestamp w.last_timestamp,
  )

  advance_state-SameAt :
      (key : StateKey) (t : Datetime) (o : Option (List Evidence)) (w' : WindowEngine)
      → (k == key) ≡ false
      → SameAt k w w'
      → SameAt k w (advance_state key t o w').1
  unfolding advance_state sub_delta
  advance_state-SameAt key t none w' h same = same
  advance_state-SameAt key t (some d) w' h same =
      let cutoff = record t { instant = t.instant - w'.window_size } in
      ground (arith, lookup-insert_ne key k (drop_before cutoff d) w'.states)

  advance_to-SameAt :
      (key : StateKey) (t : Datetime) → (k == key) ≡ false → SameAt k w (advance_to key t w).1
  unfolding advance_to
  advance_to-SameAt key t h =
      let moved = insert key t w.last_advance_timestamp in
      ground (
        arith,
        advance_state-SameAt key t (lookup key w.states)
            (record w { last_advance_timestamp = moved }) h
            (refl, refl, lookup-insert_ne key k t w.last_advance_timestamp h),
      )

  reset-SameAt : (key : StateKey) → (k == key) ≡ false → SameAt k w (reset key w)
  unfolding reset
  reset-SameAt key h = ground (
    arith,
    lookup-erase key k w.states,
    lookup-erase key k w.last_timestamp,
    lookup-erase key k w.last_advance_timestamp,
  )

  -- No call for one run and entity touches what the engine holds for another.
  pub keys_apart :
      (e : Evidence) (key : StateKey) (t : Datetime)
      → (k == (e.run_id, e.entity_id)) ≡ false
      → (k == key) ≡ false
      → SameAt k w (ingest e w).1 × SameAt k w (advance_to key t w).1 × SameAt k w (reset key w)
  keys_apart e key t h j = (ingest-SameAt e h, advance_to-SameAt key t j, reset-SameAt key j)
