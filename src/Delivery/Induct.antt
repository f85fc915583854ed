-- ===== src/Delivery/Induct.antt =====
-- A property of the tables holds after every message, returned or raised, where each write keeps it.
use mathlib.Core.Path.{subst}
use incident_awareness_engin.Delivery.Rows.{
  DeliveryError, EventRow, Tables, R1AcceptedWatermark, R1ChunkAdmission,
}
use incident_awareness_engin.Delivery.Tables.{
  event_delivery, at_event, event_by_id, is_closed, insert_row, clash_event,
}
use incident_awareness_engin.Delivery.Ledger.{
  unchanged, save_chunk, inspect_chunk_admission, event_row, replayed_event, save_event, save_each,
  save_events,
}
use incident_awareness_engin.Delivery.Closing.{
  R1RunClosed, save_watermark, assert_final_watermarks_match, save_run_close,
}
use incident_awareness_engin.Delivery.Ingress.{
  Digests, Store, reject_late_events, event_digests, event_records, save_after, write_chunk,
  accept_admitted, accept_chunk, on_tables, accept_watermark, close_run, accept_run_closed,
  StreamMessage, event_chunk, source_watermark, run_closed, accept,
}
use incident_awareness_engin.Delivery.Marks.{
  WroteWatermark, save_watermark-cases, WroteClose, save_run_close-cases,
}
use incident_awareness_engin.Delivery.Append.{
  insert_row-eq-some, unchanged-eq-ok, WroteChunk, save_chunk-cases,
}
use incident_awareness_engin.Stream.{R1SourceWatermark, R1EventChunk, PartitionKey, partition_key}
use incident_awareness_engin.Prelude.{
  Bool-cases, string_eq, any, Result, ok, err, ◌>>=◌, >>=-eq-ok, Result-split, Datetime, ℕ, String,
  ◌≡◌, refl, sym, ap, ◌∙◌, ◌⊎◌, inl, inr, Bool, true, false, Option, none, some, List, [], ◌∷◌,
  ◌++◌, arith,
}

-- That each write keeps a property.
pub record Keeps {ℓ} (P : Tables → Type ℓ) : Type ℓ where
  pub event :
      (p : PartitionKey) (id sha : String) (t : Tables)
      → is_closed p.0 t ≡ false
      → P t
      → P (record t { events = t.events ++ event_row p id sha ∷ [] })
  pub chunk :
      (p : PartitionKey) (id : String) (n : ℕ) (sha : String) (t t' : Tables)
      → WroteChunk p id n sha t t'
      → P t
      → P t'
  pub watermark :
      (w : R1SourceWatermark) (sha : String) (t t' : Tables)
      → WroteWatermark w sha t t'
      → P t
      → P t'
  pub close : (run id sha : String) (t t' : Tables) → WroteClose run id sha t t' → P t → P t'

-- A round of `save_events` that returns found the Event as it is and wrote nothing, or wrote it under a new
-- identity.
pub save_event-cases :
    (p : PartitionKey) (id sha : String) (t t' : Tables) (b : Bool)
    → save_event p id sha t ≡ ok (b, t')
    → ((t' ≡ t) × (event_by_id p id t >>= replayed_event sha) ≡ ok b)
      ⊎ ((b ≡ true)
          × (t' ≡ record t { events = t.events ++ event_row p id sha ∷ [] })
          × (any (at_event p id) t.events ≡ false))
unfolding save_event
save_event-cases p id sha t t' b h =
    let (inserted, e, k) =
      >>=-eq-ok
        (insert_row event_delivery (clash_event (event_row p id sha)) (event_row p id sha) t.events)
        _ h in
    written inserted e k
  where
    written :
        (inserted : Option (List EventRow))
        → insert_row event_delivery (clash_event (event_row p id sha)) (event_row p id sha) t.events
          ≡ ok inserted
        → elim inserted [
          | some rows ↦ ok (true, record t { events = rows })
          | none ↦ unchanged t (event_by_id p id t >>= replayed_event sha)
        ]
          ≡ ok (b, t')
        → ((t' ≡ t) × (event_by_id p id t >>= replayed_event sha) ≡ ok b)
          ⊎ ((b ≡ true)
              × (t' ≡ record t { events = t.events ++ event_row p id sha ∷ [] })
              × (any (at_event p id) t.events ≡ false))
    written none e k = let fact = unchanged-eq-ok t t' _ b k in inl (fact.1, fact.0)
    written (some rows) e k =
        let fact =
          insert_row-eq-some event_delivery (clash_event (event_row p id sha)) (event_row p id sha)
            t.events rows e in
        inr (ground arith, ground (arith, fact), fact.1)

-- Late Events reach the sink, and never the tables.
pub reject_late_events-tables :
    (now : Datetime) (c : R1EventChunk) (ids : List String) (w : Option R1AcceptedWatermark)
    (s : Store)
    → (reject_late_events now c ids w s).1.tables ≡ s.tables
unfolding reject_late_events
reject_late_events-tables now c ids none s = refl
reject_late_events-tables now c ids (some w) s = ground arith

-- A close that returns passed the match against the latest watermarks.
pub close_run-eq-ok :
    (d : Digests) (r : R1RunClosed) (t t' : Tables) (b : Bool)
    → close_run d r t ≡ ok (b, t')
    → (assert_final_watermarks_match r.final_watermarks t ≡ ok tt)
      × (save_run_close r.run_id r.close_id (d.run_closed_sha256 r) t ≡ ok (b, t'))
unfolding close_run
close_run-eq-ok d r t t' b h =
    let (u, matched, saved) =
      >>=-eq-ok (assert_final_watermarks_match r.final_watermarks t)
        (λ _. save_run_close r.run_id r.close_id (d.run_closed_sha256 r) t) h in
    (matched, saved)

module _ {ℓ} (P : Tables → Type ℓ) (keeps : Keeps P) where
  save_each_inv :
      (p : PartitionKey) (events : List (String × String)) (t : Tables)
      → is_closed p.0 t ≡ false
      → P t
      → P (save_each p events t).1
  unfolding save_each is_closed
  save_each_inv p [] t open_run h = h
  save_each_inv p ((id, sha) ∷ events) t open_run h = elim (Result-split (save_event p id sha t)) [
    | inl (e, raised) ↦ rw (raised, save_each) h
    | inr ((b, t'), saved) ↦
        rw (saved, save_each)
          (elim (save_event-cases p id sha t t' b saved) [
            | inl (same, seen) ↦
                save_each_inv p events t' (ap (is_closed p.0) same ∙ open_run)
                  (subst P (sym same) h)
            | inr (first, rows, free) ↦
                save_each_inv p events t' (ap (is_closed p.0) rows ∙ open_run)
                  (subst P (sym rows) (keeps.event p id sha t open_run h))
          ])
  ]

  save_events_inv :
      (p : PartitionKey) (events : List (String × String)) (t : Tables)
      → P t
      → P (save_events p events t).1
  unfolding save_events
  save_events_inv p events t h = elim (Bool-cases (is_closed p.0 t)) [
    | inl closed ↦ rw closed h
    | inr open_run ↦ rw open_run (save_each_inv p events t open_run h)
  ]

  save_chunk_inv :
      (p : PartitionKey) (id : String) (n : ℕ) (sha : String) (t t' : Tables) (b : Bool)
      → save_chunk p id n sha t ≡ ok (b, t')
      → P t
      → P t'
  save_chunk_inv p id n sha t t' b saved h = elim (save_chunk-cases p id n sha t t' b saved) [
    | inl (known, same, seen) ↦ subst P (sym same) h
    | inr (first, wrote) ↦ keeps.chunk p id n sha t t' wrote h
  ]

  write_chunk_inv : (d : Digests) (c : R1EventChunk) (t : Tables) → P t → P (write_chunk d c t).1
  unfolding write_chunk
  write_chunk_inv d c t h =
      let p = partition_key c.partition in
      let saved = save_events p (event_digests d c) t in
      let events = save_events_inv p (event_digests d c) t h in
      elim (Result-split saved.0) [
        | inl (e, raised) ↦ rw (raised, write_chunk) events
        | inr (ids, returned) ↦
            rw (returned, write_chunk)
              (elim (Result-split
                (save_chunk p c.chunk_id c.chunk_sequence (d.chunk_sha256 c) saved.1)) [
                  | inl (e, raised) ↦ rw (raised, save_after) events
                  | inr ((b, t'), written) ↦
                      rw (written, save_after)
                        (save_chunk_inv p c.chunk_id c.chunk_sequence (d.chunk_sha256 c) saved.1 t'
                          b written events)
                ])
      ]

  accept_admitted_inv :
      (d : Digests) (now : Datetime) (c : R1EventChunk) (a : R1ChunkAdmission) (s : Store)
      → P s.tables
      → P (accept_admitted d now c a s).1.tables
  unfolding accept_admitted
  accept_admitted_inv d now c a s h =
      let checked = reject_late_events now c a.new_event_ids a.latest_watermark s in
      let h' : P checked.1.tables =
        subst P (sym (reject_late_events-tables now c a.new_event_ids a.latest_watermark s)) h in
      elim (Bool-cases a.is_exact_chunk_replay) [
        | inl replay ↦ rw replay h
        | inr new ↦ rw new (elim (Result-split checked.0) [
          | inl (e, raised) ↦ rw (raised, accept_admitted) h'
          | inr (u, returned) ↦
              rw (returned, accept_admitted) (write_chunk_inv d c checked.1.tables h')
        ])
      ]

  accept_chunk_inv :
      (d : Digests) (now : Datetime) (c : R1EventChunk) (s : Store)
      → P s.tables
      → P (accept_chunk d now c s).1.tables
  unfolding accept_chunk
  accept_chunk_inv d now c s h =
      elim (Bool-cases (string_eq.beq (d.chunk_sha256 c) c.chunk_content_sha256)) [
        | inr differs ↦ rw differs h
        | inl same ↦
            rw same
              (elim (Result-split (
                inspect_chunk_admission (partition_key c.partition) c.chunk_id c.chunk_sequence
                  (d.chunk_sha256 c) (event_digests d c) (event_records c) s.tables)) [
                    | inl (e, raised) ↦ rw (raised, accept_chunk) h
                    | inr (a, admitted) ↦
                        rw (admitted, accept_chunk) (accept_admitted_inv d now c a s h)
                  ])
      ]

  on_tables_inv :
      (s : Store) (r : Result DeliveryError (Bool × Tables))
      → ((b : Bool) (t' : Tables) → r ≡ ok (b, t') → P t')
      → P s.tables
      → P (on_tables s r).1.tables
  on_tables_inv s (err e) f h = h
  on_tables_inv s (ok (b, t')) f h = f b t' refl

  watermark_inv :
      (w : R1SourceWatermark) (sha : String) (t t' : Tables) (b : Bool)
      → save_watermark w sha t ≡ ok (b, t')
      → P t
      → P t'
  watermark_inv w sha t t' b saved h = elim (save_watermark-cases w sha t t' b saved) [
    | inl (known, same, seen) ↦ subst P (sym same) h
    | inr (first, wrote) ↦ keeps.watermark w sha t t' wrote h
  ]

  close_inv :
      (run id sha : String) (t t' : Tables) (b : Bool)
      → save_run_close run id sha t ≡ ok (b, t')
      → P t
      → P t'
  close_inv run id sha t t' b saved h = elim (save_run_close-cases run id sha t t' b saved) [
    | inl (known, same, seen) ↦ subst P (sym same) h
    | inr (first, wrote) ↦ keeps.close run id sha t t' wrote h
  ]

  pub accept_inv :
      (d : Digests) (now : Datetime) (m : StreamMessage) (s : Store)
      → P s.tables
      → P (accept d now m s).1.tables
  unfolding accept accept_watermark accept_run_closed
  accept_inv d now (event_chunk c) s h = accept_chunk_inv d now c s h
  accept_inv d now (source_watermark w) s h =
      on_tables_inv s (save_watermark w (d.watermark_sha256 w) s.tables)
        (λ b t' saved. watermark_inv w (d.watermark_sha256 w) s.tables t' b saved h) h
  accept_inv d now (run_closed r) s h =
      on_tables_inv s (close_run d r s.tables)
        (λ b t' saved.
          close_inv r.run_id r.close_id (d.run_closed_sha256 r) s.tables t' b
            (close_run-eq-ok d r s.tables t' b saved).1 h)
        h
