-- ===== src/Delivery/Ingress.antt =====
-- `R1StreamIngress` (pipeline/r1_stream_ingress.py): a message enters the ledger within the transaction of
-- the caller. The SHA-256 of a canonical JSON is an argument of its own, Digests.
use incident_awareness_engin.Delivery.Rows.{
  DeliveryError, digest_mismatch, late_event, stream_error, dead_letter_conflict, Tables,
  R1AcceptedWatermark, R1ChunkAdmission,
}
use incident_awareness_engin.Delivery.Ledger.{save_chunk, inspect_chunk_admission, save_events}
use incident_awareness_engin.Delivery.Closing.{
  R1RunClosed, save_watermark, assert_final_watermarks_match, save_run_close,
}
use incident_awareness_engin.Stream.{
  StreamError, R1SourceWatermark, StreamEvent, R1EventChunk, R1LateEventDeadLetter, partition_key,
  partition_eq, utc_milliseconds, validate_dead_letter, letter,
}
use incident_awareness_engin.Prelude.{
  eqb, list_beq, find, leb, if◌then◌else◌, string_eq, null, keep, contains, Result, ok, err, ◌>>=◌,
  ◌>>◌, Datetime, at, ℕ, String, Bool, true, false, not, ◌&&◌, Option, none, some, List, [], ◌∷◌,
  ◌++◌, map,
}

-- `_canonical_sha256` of each kind of message and `_canonical_event_sha256`.
pub record Digests : Type 0 where
  pub chunk_sha256 : R1EventChunk → String
  pub event_sha256 : StreamEvent → String
  pub watermark_sha256 : R1SourceWatermark → String
  pub run_closed_sha256 : R1RunClosed → String

-- `R1StreamDeliveryDisposition`
pub data R1StreamDeliveryDisposition : Type 0 where
  accepted duplicate : R1StreamDeliveryDisposition

-- `R1StreamDeliveryResult`
pub record R1StreamDeliveryResult : Type 0 where
  pub disposition : R1StreamDeliveryDisposition
  pub new_event_ids : List String

-- The tables, and what the dead-letter sink was given.
pub record Store : Type 0 where
  pub tables : Tables
  pub dead_letters : List R1LateEventDeadLetter

-- `_result`
abbrev pub delivery_result : Bool → List String → R1StreamDeliveryResult
delivery_result is_first new_event_ids = record {
  disposition = if is_first then accepted else duplicate;
  new_event_ids = new_event_ids;
}

-- `violating_event_ids` of `_reject_late_events`
abbrev pub late_events : List String → ℕ → List StreamEvent → List String
late_events new_event_ids frontier events =
    map (λ e. e.event_id)
      (keep
        (λ e. contains ⦃e = string_eq⦄ e.event_id new_event_ids && leb e.timestamp.instant frontier)
        events)

abbrev late_letter :
    Datetime → R1EventChunk → R1AcceptedWatermark → List String → R1LateEventDeadLetter
late_letter rejected_at c w ids = record {
  chunk_id = c.chunk_id;
  partition = c.partition;
  watermark_id = w.watermark_id;
  watermark_at = at w.watermark_at;
  violating_event_ids = ids;
  rejected_at = rejected_at;
}

-- The dead letter that `_reject_late_events` writes, where the clock returns `now`.
unfoldable pub make_letter :
    Datetime
    → R1EventChunk
    → R1AcceptedWatermark
    → List String
    → Result StreamError R1LateEventDeadLetter
unfolding validate_dead_letter
make_letter now c w ids = do
  rejected_at ← utc_milliseconds now
  validate_dead_letter (late_letter rejected_at c w ids)
  ok (late_letter rejected_at c w ids)

-- Two dead letters whose canonical JSON is the same.
unfoldable pub same_letter : R1LateEventDeadLetter → R1LateEventDeadLetter → Bool
same_letter a b =
    string_eq.beq a.chunk_id b.chunk_id
    && partition_eq.beq (partition_key a.partition) (partition_key b.partition)
    && string_eq.beq a.watermark_id b.watermark_id
    && eqb a.watermark_at.instant b.watermark_at.instant
    && list_beq ⦃e = string_eq⦄ a.violating_event_ids b.violating_event_ids
    && eqb a.rejected_at.instant b.rejected_at.instant

-- `_FileDeadLetterSink.write` (pipeline/r1_stream_wiring.py): a file for each chunk, which is never changed.
unfoldable pub write_dead_letter :
    R1LateEventDeadLetter
    → List R1LateEventDeadLetter
    → Result DeliveryError (List R1LateEventDeadLetter)
unfolding same_letter
write_dead_letter letter letters =
    elim (find (λ x. string_eq.beq letter.chunk_id x.chunk_id) letters) [
      | none ↦ ok (letters ++ letter ∷ [])
      | some x ↦ if same_letter x letter then ok letters else err dead_letter_conflict
    ]

-- `_reject_late_events`, with the sink of the spool. The session of the database is in UTC.
unfoldable pub reject_late_events :
    Datetime
    → R1EventChunk
    → List String
    → Option R1AcceptedWatermark
    → Store
    → Result DeliveryError (Unit {0}) × Store
unfolding make_letter write_dead_letter
reject_late_events now c new_event_ids none s = (ok tt, s)
reject_late_events now c new_event_ids (some w) s =
    elim (null (late_events new_event_ids w.watermark_at c.events)) [
      | true ↦ (ok tt, s)
      | false ↦ elim (make_letter now c w (late_events new_event_ids w.watermark_at c.events)) [
        | err e ↦ (err (stream_error e), s)
        | ok letter ↦ elim (write_dead_letter letter s.dead_letters) [
          | err e ↦ (err e, s)
          | ok letters ↦ (err late_event, record s { dead_letters = letters })
        ]
      ]
    ]

abbrev pub event_digests : Digests → R1EventChunk → List (String × String)
event_digests d c = map (λ e. (e.event_id, d.event_sha256 e)) c.events

abbrev pub event_records : R1EventChunk → List (String × Option String)
event_records c = map (λ e. (e.event_id, e.source_record_id)) c.events

abbrev pub save_after :
    Digests
    → R1EventChunk
    → Result DeliveryError (List String) × Tables
    → Result DeliveryError R1StreamDeliveryResult × Tables
save_after d c (err e, t) = (err e, t)
save_after d c (ok ids, t) =
    elim (save_chunk (partition_key c.partition) c.chunk_id c.chunk_sequence (d.chunk_sha256 c) t) [
      | err e ↦ (err e, t)
      | ok (is_first, t') ↦ (ok (delivery_result is_first ids), t')
    ]

-- The two writes of `accept_chunk`.
unfoldable pub write_chunk :
    Digests → R1EventChunk → Tables → Result DeliveryError R1StreamDeliveryResult × Tables
write_chunk d c t = save_after d c (save_events (partition_key c.partition) (event_digests d c) t)

-- `accept_chunk`, once the chunk is admitted.
unfoldable pub accept_admitted :
    Digests
    → Datetime
    → R1EventChunk
    → R1ChunkAdmission
    → Store
    → Result DeliveryError R1StreamDeliveryResult × Store
unfolding reject_late_events write_chunk
accept_admitted d now c admission s =
    if admission.is_exact_chunk_replay
    then (ok (delivery_result false []), s)
    else let checked =
        reject_late_events now c admission.new_event_ids admission.latest_watermark s in
      elim checked.0 [
        | err e ↦ (err e, checked.1)
        | ok _ ↦
            let written = write_chunk d c checked.1.tables in
            (written.0, record checked.1 { tables = written.1 })
      ]

-- `accept_chunk`
unfoldable pub accept_chunk :
    Digests → Datetime → R1EventChunk → Store → Result DeliveryError R1StreamDeliveryResult × Store
unfolding accept_admitted
accept_chunk d now c s =
    if not (string_eq.beq (d.chunk_sha256 c) c.chunk_content_sha256)
    then (err digest_mismatch, s)
    else elim (inspect_chunk_admission (partition_key c.partition) c.chunk_id c.chunk_sequence
        (d.chunk_sha256 c) (event_digests d c) (event_records c) s.tables) [
          | err e ↦ (err e, s)
          | ok admission ↦ accept_admitted d now c admission s
        ]

-- A call that writes once, as a call on the store.
abbrev pub on_tables :
    Store
    → Result DeliveryError (Bool × Tables)
    → Result DeliveryError R1StreamDeliveryResult × Store
on_tables s (err e) = (err e, s)
on_tables s (ok (is_first, t)) = (ok (delivery_result is_first []), record s { tables = t })

-- `accept_watermark`
unfoldable pub accept_watermark :
    Digests → R1SourceWatermark → Store → Result DeliveryError R1StreamDeliveryResult × Store
accept_watermark d w s = on_tables s (save_watermark w (d.watermark_sha256 w) s.tables)

-- The two calls of `accept_run_closed`.
unfoldable pub close_run : Digests → R1RunClosed → Tables → Result DeliveryError (Bool × Tables)
close_run d r t =
    assert_final_watermarks_match r.final_watermarks t
    >> save_run_close r.run_id r.close_id (d.run_closed_sha256 r) t

-- `accept_run_closed`
unfoldable pub accept_run_closed :
    Digests → R1RunClosed → Store → Result DeliveryError R1StreamDeliveryResult × Store
unfolding close_run
accept_run_closed d r s = on_tables s (close_run d r s.tables)

-- What the spool and the queue deliver.
pub data StreamMessage : Type 0 where
  event_chunk : R1EventChunk → StreamMessage
  source_watermark : R1SourceWatermark → StreamMessage
  run_closed : R1RunClosed → StreamMessage

-- The call that `consume_spool_once` (pipeline/r1_stream_wiring.py) makes for each kind.
unfoldable pub accept :
    Digests → Datetime → StreamMessage → Store → Result DeliveryError R1StreamDeliveryResult × Store
unfolding accept_chunk accept_watermark accept_run_closed
accept d now (event_chunk c) s = accept_chunk d now c s
accept d now (source_watermark w) s = accept_watermark d w s
accept d now (run_closed r) s = accept_run_closed d r s
