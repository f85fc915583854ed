-- ===== src/Delivery/Written.antt =====
-- What the writes of `accept_chunk` leave, and what `_reject_late_events` passes.
use mathlib.Core.Path.{subst}
use incident_awareness_engin.Delivery.Rows.{Tables, R1AcceptedWatermark}
use incident_awareness_engin.Delivery.Tables.{chunk_by_id, is_closed, latest_watermark}
use incident_awareness_engin.Delivery.Frontier.{position_close_frontier, check_position_close}
use incident_awareness_engin.Delivery.Ledger.{
  chunk_row, save_chunk, active_watermark, save_each, assert_closed_run_event_replays, save_events,
}
use incident_awareness_engin.Delivery.Ingress.{
  Digests, R1StreamDeliveryResult, Store, delivery_result, late_events, make_letter,
  write_dead_letter, reject_late_events, event_digests, event_records, save_after, write_chunk,
}
use incident_awareness_engin.Delivery.Accepted.{
  missing_ids, missing_rows, save_each-Saved, Agree-self,
}
use incident_awareness_engin.Delivery.Append.{save_chunk-cases}
use incident_awareness_engin.Stream.{StreamEvent, R1EventChunk, partition_key}
use incident_awareness_engin.Prelude.{
  leb, if◌then◌else◌, Bool-cases, string_eq, null, All, contains, IsDistinct, ok, ◌>>=◌, ok-inj,
  err_ok, some-inj, none-some, true-false, Result-split, Datetime, ℕ, ◌<◌, String, ◌≡◌, refl, sym,
  ap, ◌∙◌, inl, inr, true, false, ◌&&◌, Option, none, some, List, [], ◌∷◌, ◌++◌, map, arith,
}

-- The store once the chunk is written: its row, and those of its Events that were missing.
abbrev pub with_chunk : Digests → R1EventChunk → Store → Store
with_chunk d c s = record s {
  tables = record s.tables {
    chunks =
        s.tables.chunks
        ++ chunk_row (partition_key c.partition) c.chunk_id c.chunk_sequence (d.chunk_sha256 c)
          ∷ [];
    events =
        s.tables.events ++ missing_rows (partition_key c.partition) s.tables (event_digests d c);
  };
}

abbrev pub new_ids : Digests → R1EventChunk → Store → List String
new_ids d c s = missing_ids (partition_key c.partition) s.tables (event_digests d c)

-- Every new Event is after the frontier.
abbrev pub AllAfter : List String → ℕ → List StreamEvent → Type 0
AllAfter ids frontier =
    All (λ e. contains ⦃e = string_eq⦄ e.event_id ids ≡ true → frontier < e.timestamp.instant)

-- The watermark that is active in the partition, where its rows can be read.
abbrev pub IsActive : R1EventChunk → Store → R1AcceptedWatermark → Type 0
IsActive c s a =
    (latest : Option R1AcceptedWatermark) × (latest_watermark (partition_key c.partition) s.tables
      ≡ ok latest)
    × (active_watermark (partition_key c.partition) s.tables latest ≡ some a)

-- What an accepted chunk found: an open run, new Events after the active watermark, and Events that pass the
-- check of the position close.
abbrev pub Accepted : Digests → R1EventChunk → Store → R1StreamDeliveryResult → Store → Type 0
Accepted d c s r s' =
    (r ≡ delivery_result true (new_ids d c s))
    × (s' ≡ with_chunk d c s)
    × (is_closed c.partition.run_id s.tables ≡ false)
    × ((a : R1AcceptedWatermark)
        → IsActive c s a
        → AllAfter (new_ids d c s) a.watermark_at c.events)
    × ((position_close_frontier (partition_key c.partition) s.tables
          >>= check_position_close (event_digests d c) (event_records c))
        ≡ ok tt)

pub none_late :
    (ids : List String) (frontier : ℕ) (es : List StreamEvent)
    → null (late_events ids frontier es) ≡ true
    → AllAfter ids frontier es
none_late ids frontier [] h = tt
none_late ids frontier (e ∷ es) h =
    elim (Bool-cases
      (contains ⦃e = string_eq⦄ e.event_id ids && leb e.timestamp.instant frontier)) [
        | inl late ↦ absurd (true-false (sym (rw late at h)))
        | inr fine ↦ (λ new. ground arith, none_late ids frontier es (rw fine at h))
      ]

pub late_raises :
    (now : Datetime) (c : R1EventChunk) (ids : List String) (w : R1AcceptedWatermark) (s : Store)
    → null (late_events ids w.watermark_at c.events) ≡ false
    → (reject_late_events now c ids (some w) s).0 ≡ ok tt
    → ⊥
unfolding reject_late_events
late_raises now c ids w s late h =
    elim (Result-split (make_letter now c w (late_events ids w.watermark_at c.events))) [
      | inl (e, failed) ↦ err_ok (rw (late, failed, reject_late_events) at h)
      | inr (made, returned) ↦ elim (Result-split (write_dead_letter made s.dead_letters)) [
        | inl (e, conflict) ↦ err_ok (rw (late, returned, conflict, reject_late_events) at h)
        | inr (letters, written) ↦ err_ok (rw (late, returned, written, reject_late_events) at h)
      ]
    ]

-- What the check for late Events found, where it returned.
pub reject_late_events-eq-ok :
    (now : Datetime) (c : R1EventChunk) (ids : List String) (w : Option R1AcceptedWatermark)
    (s : Store)
    → (reject_late_events now c ids w s).0 ≡ ok tt
    → ((reject_late_events now c ids w s).1 ≡ s)
      × ((a : R1AcceptedWatermark) → w ≡ some a → AllAfter ids a.watermark_at c.events)
unfolding reject_late_events
reject_late_events-eq-ok now c ids none s h = (refl, λ a e. absurd (none-some e))
reject_late_events-eq-ok now c ids (some w) s h =
    elim (Bool-cases (null (late_events ids w.watermark_at c.events))) [
      | inl clear ↦ (
        rw (clear, reject_late_events) refl,
        λ a e.
            subst (λ (x : R1AcceptedWatermark). AllAfter ids x.watermark_at c.events) (some-inj e)
              (none_late ids w.watermark_at c.events clear),
      )
      | inr late ↦ absurd (late_raises now c ids w s late h)
    ]

pub ids_of_events :
    (d : Digests) (es : List StreamEvent)
    → map (λ (e : String × String). e.0) (map (λ e. (e.event_id, d.event_sha256 e)) es)
      ≡ map (λ e. e.event_id) es
ids_of_events d [] = refl
ids_of_events d (e ∷ es) = ap (◌∷◌ e.event_id) (ids_of_events d es)

-- The writes of an admitted chunk, where they return.
pub write_chunk-eq-ok :
    (d : Digests) (c : R1EventChunk) (s : Store) (r : R1StreamDeliveryResult)
    → IsDistinct ⦃e = string_eq⦄ (map (λ e. e.event_id) c.events)
    → is_closed c.partition.run_id s.tables ≡ false
    → chunk_by_id (partition_key c.partition) c.chunk_id s.tables ≡ ok none
    → (write_chunk d c s.tables).0 ≡ ok r
    → (r ≡ delivery_result true (new_ids d c s))
      × ((write_chunk d c s.tables).1 ≡ (with_chunk d c s).tables)
unfolding write_chunk save_events chunk_by_id
write_chunk-eq-ok d c s r distinct open_run unknown h =
    let p = partition_key c.partition in
    let es = event_digests d c in
    let t = s.tables in
    let sha = d.chunk_sha256 c in
    let after : write_chunk d c t ≡ save_after d c (save_each p es t) =
      ap
        (λ b. save_after d c (
          if b
          then (assert_closed_run_event_replays p es t >>= λ _. ok [], t)
          else save_each p es t))
        open_run in
    let h' : (save_after d c (save_each p es t)).0 ≡ ok r = ap (λ x. x.0) (sym after) ∙ h in
    elim (Result-split (save_each p es t).0) [
      | inl (e, raised) ↦ absurd (err_ok (rw (raised, save_after) at h'))
      | inr (ids, returned) ↦
          let t' = (save_each p es t).1 in
          let (ids_are, t'_is) =
            save_each-Saved p es t t ids t'
              (subst (IsDistinct ⦃e = string_eq⦄) (sym (ids_of_events d c.events)) distinct)
              (Agree-self p t es) (λ i. (returned i, t')) in
          let saved : save_each p es t ≡ (ok ids, t') = λ i. (returned i, t') in
          let h'' : (save_after d c (ok ids, t')).0 ≡ ok r =
            ap (λ x. (save_after d c x).0) (sym saved) ∙ h' in
          elim (Result-split (save_chunk p c.chunk_id c.chunk_sequence sha t')) [
            | inl (e, raised) ↦ absurd (err_ok (rw (raised, save_after) at h''))
            | inr ((b, t''), written) ↦
                let answer : ok (delivery_result b ids) ≡ ok r = rw (written, save_after) at h'' in
                let left : (write_chunk d c t).1 ≡ t'' =
                  ap (λ x. x.1) (after ∙ ap (save_after d c) saved)
                  ∙ rw (written, save_after) refl in
                elim (save_chunk-cases p c.chunk_id c.chunk_sequence sha t' t'' b written) [
                  | inl (known, same, (x, found, seen)) ↦ absurd (
                      none-some (
                        ok-inj (sym unknown ∙ (sym (ap (chunk_by_id p c.chunk_id) t'_is) ∙ found))))
                  | inr (first, wrote) ↦ (
                    sym (ok-inj answer) ∙ (λ i. delivery_result (first i) (ids_are i)),
                    left
                        ∙ (wrote.0
                            ∙ ap {A = Tables}
                                (λ (x : Tables). record x {
                                  chunks =
                                      x.chunks ++ chunk_row p c.chunk_id c.chunk_sequence sha ∷ [];
                                })
                                t'_is),
                  )
                ]
          ]
    ]
