-- ===== src/Delivery/Tests.antt =====
-- Concrete deliveries, and the properties at them.
use incident_awareness_engin.Delivery.Written.{Accepted}
use incident_awareness_engin.Delivery.Chunks.{accept_chunk-cases}
use incident_awareness_engin.Delivery.Exactly.{deliver_again}
use incident_awareness_engin.Delivery.Frozen.{rows_of, accept-rows_of}
use incident_awareness_engin.Delivery.Growth.{Grows, accept-Grows}
use incident_awareness_engin.Delivery.Advance.{latest_row, Advances, accept-Advances}
use incident_awareness_engin.Delivery.Coverage.{Names, close_run_covers}
use incident_awareness_engin.Delivery.Received.{IsReceived, covers_iff}
use incident_awareness_engin.Delivery.Once.{KnownChunk, AllReadable}
use incident_awareness_engin.Delivery.Tables.{
  row_to_delivery, chunk_by_id, chunk_by_sequence, event_by_id, watermark_by_id,
  watermark_by_sequence, is_closed, is_storable, insert_row, highest, accepted_of_row,
  accepted_watermark_from_row, latest_watermark, known_partitions,
}
use incident_awareness_engin.Delivery.Ledger.{
  chunk_row, save_chunk, watermark_covers_received_chunks, inspect_chunk_admission, event_row,
  save_event, save_events,
}
use incident_awareness_engin.Delivery.Closing.{
  R1FinalPartitionWatermark, R1RunClosed, watermark_row, save_watermark,
  assert_final_watermarks_match, close_row, save_run_close,
}
use incident_awareness_engin.Delivery.Ingress.{
  Digests, Store, delivery_result, accept_chunk, close_run, event_chunk, source_watermark,
  run_closed, accept,
}
use incident_awareness_engin.Delivery.Spool.{deliver}
use incident_awareness_engin.Delivery.Transaction.{deliver_all}
use incident_awareness_engin.Stream.{
  R1StreamPartition, R1SourceWatermark, StreamEvent, R1EventChunk, PartitionKey, partition_eq,
  partition_key,
}
use incident_awareness_engin.Prelude.{
  contains, ok, is_blank, text_length, at, ℕ, ◌≤◌, String, ◌≡◌, refl, ◌↔◌, ◌⊎◌, true, false, none,
  [], ◌∷◌, arith,
}

abbrev pub sha : String
sha = "0123456789abcdef0123456789abcdef0123456789abcdef0123456789abcdef"

abbrev pub digests : Digests
digests = record {
  chunk_sha256 = λ c. sha;
  event_sha256 = λ e. sha;
  watermark_sha256 = λ w. sha;
  run_closed_sha256 = λ r. sha;
}

abbrev pub part : R1StreamPartition
part = record {
  run_id = "RUN-20260101-001";
  host_id = "host-1";
  source = "sysmon";
  source_channel = "process";
}

abbrev pub key : PartitionKey
key = partition_key part

abbrev pub event_at : String → ℕ → StreamEvent
event_at id t = record {
  event_id = id;
  run_id = "RUN-20260101-001";
  host_id = "host-1";
  source = "sysmon";
  timestamp = at t;
  source_record_id = none;
  content = id;
}

abbrev pub first_chunk : R1EventChunk
first_chunk = record {
  chunk_id = "C-1";
  partition = part;
  chunk_sequence = 1;
  chunk_content_sha256 = sha;
  events = event_at "E-1" 5000 ∷ event_at "E-2" 5001 ∷ [];
}

-- It brings an Event again.
abbrev pub second_chunk : R1EventChunk
second_chunk = record {
  chunk_id = "C-2";
  partition = part;
  chunk_sequence = 2;
  chunk_content_sha256 = sha;
  events = event_at "E-2" 5001 ∷ event_at "E-3" 9000 ∷ [];
}

abbrev pub first_mark : R1SourceWatermark
first_mark = record {
  watermark_id = "W-1";
  partition = part;
  watermark_sequence = 1;
  watermark_at = at 6000;
  allowed_lateness_ms = 100;
  covered_through_chunk_sequence = 1;
  emitted_at = at 6000;
}

abbrev final_mark : R1FinalPartitionWatermark
final_mark = record {
  partition = part;
  watermark_id = "W-1";
  watermark_sequence = 1;
  watermark_at = at 6000;
  allowed_lateness_ms = 100;
  covered_through_chunk_sequence = 1;
}

abbrev pub closing : R1RunClosed
closing = record {
  close_id = "CL-1";
  run_id = "RUN-20260101-001";
  final_watermarks = final_mark ∷ [];
  emitted_at = at 10_000;
}

abbrev pub empty_store : Store
empty_store = record {
  tables = record { chunks = []; events = []; watermarks = []; closes = []; position_closes = [] };
  dead_letters = [];
}

abbrev pub with_first : Store
with_first = record empty_store {
  tables = record empty_store.tables {
    chunks = chunk_row key "C-1" 1 sha ∷ [];
    events = event_row key "E-1" sha ∷ event_row key "E-2" sha ∷ [];
  };
}

abbrev pub with_mark : Store
with_mark = record with_first {
  tables = record with_first.tables { watermarks = watermark_row first_mark sha ∷ [] };
}

abbrev pub with_second : Store
with_second = record with_mark {
  tables = record with_mark.tables {
    chunks = chunk_row key "C-1" 1 sha ∷ chunk_row key "C-2" 2 sha ∷ [];
    events = event_row key "E-1" sha ∷ event_row key "E-2" sha ∷ event_row key "E-3" sha ∷ [];
  };
}

abbrev pub with_close : Store
with_close = record with_second {
  tables = record with_second.tables { closes = close_row "RUN-20260101-001" "CL-1" sha ∷ [] };
}

takes_first :
    accept_chunk digests (at 7000) first_chunk empty_store
    ≡ (ok (delivery_result true ("E-1" ∷ "E-2" ∷ [])), with_first)
unfolding accept_chunk inspect_chunk_admission save_events save_chunk chunk_by_id chunk_by_sequence
    event_by_id row_to_delivery is_closed insert_row is_storable latest_watermark highest
    accepted_watermark_from_row is_blank text_length save_event
takes_first = refl

takes_mark :
    deliver digests (at 7000) (source_watermark first_mark) with_first
    ≡ (ok (delivery_result true []), with_mark)
unfolding deliver accept save_watermark latest_watermark highest accepted_watermark_from_row
    watermark_by_id watermark_by_sequence row_to_delivery is_closed insert_row is_storable is_blank
    text_length
takes_mark = refl

takes_second :
    accept_chunk digests (at 7000) second_chunk with_mark
    ≡ (ok (delivery_result true ("E-3" ∷ [])), with_second)
unfolding accept_chunk inspect_chunk_admission save_events save_chunk chunk_by_id chunk_by_sequence
    event_by_id row_to_delivery is_closed insert_row is_storable latest_watermark highest
    accepted_watermark_from_row is_blank text_length save_event
takes_second = refl

takes_close : close_run digests closing with_second.tables ≡ ok (true, with_close.tables)
unfolding close_run assert_final_watermarks_match save_run_close latest_watermark highest
    accepted_watermark_from_row known_partitions insert_row is_storable is_blank text_length
takes_close = refl

one_partition :
    contains ⦃e = partition_eq⦄ key (known_partitions "RUN-20260101-001" with_second.tables) ≡ true
unfolding known_partitions
one_partition = refl

run_is_final : is_closed "RUN-20260101-001" with_close.tables ≡ true
unfolding is_closed
run_is_final = refl

accept_chunk-cases_example :
    (KnownChunk digests second_chunk with_mark.tables
      × (delivery_result true ("E-3" ∷ []) ≡ delivery_result false [])
      × (with_second ≡ with_mark))
    ⊎ Accepted digests second_chunk with_mark (delivery_result true ("E-3" ∷ [])) with_second
accept_chunk-cases_example =
    accept_chunk-cases digests (at 7000) second_chunk with_mark with_second
      (delivery_result true ("E-3" ∷ [])) (refl, (refl, tt)) takes_second

first_readable : AllReadable with_first.tables
first_readable = tt

deliver_again_example :
    deliver digests (at 9999) (source_watermark first_mark) (
      deliver_all digests
        ((at 8000, event_chunk second_chunk) ∷ (at 9000, run_closed closing) ∷ [])
        with_mark)
    ≡ (
      ok (delivery_result false []),
      deliver_all digests
          ((at 8000, event_chunk second_chunk) ∷ (at 9000, run_closed closing) ∷ [])
          with_mark,
    )
deliver_again_example =
    deliver_again digests (at 7000) (at 9999) (source_watermark first_mark)
      ((at 8000, event_chunk second_chunk) ∷ (at 9000, run_closed closing) ∷ []) with_first
      with_mark (delivery_result true []) first_readable tt takes_mark

accept-rows_of_example :
    rows_of "RUN-20260101-001"
      (accept digests (at 9999) (event_chunk second_chunk) with_close).1.tables
    ≡ rows_of "RUN-20260101-001" with_close.tables
accept-rows_of_example =
    accept-rows_of "RUN-20260101-001" digests (at 9999) (event_chunk second_chunk) with_close
      run_is_final

accept-Grows_example :
    Grows with_mark.tables (accept digests (at 9999) (event_chunk second_chunk) with_mark).1.tables
accept-Grows_example = accept-Grows digests (at 9999) (event_chunk second_chunk) with_mark

accept-Advances_example :
    Advances
      (latest_row key with_first.tables)
      (latest_row key (accept digests (at 9999) (source_watermark first_mark) with_first).1.tables)
accept-Advances_example =
    accept-Advances key digests (at 9999) (source_watermark first_mark) with_first

close_run_covers_example : Names key with_second.tables (final_mark ∷ [])
close_run_covers_example =
    close_run_covers digests closing with_second.tables with_close.tables true key (refl, tt)
      (refl, tt) takes_close one_partition

covers_iff_example :
    (watermark_covers_received_chunks key
        (accepted_of_row (watermark_row first_mark sha))
        with_first.tables
      ≡ true)
    ↔ ((k : ℕ) → 1 ≤ k → k ≤ 1 → IsReceived key with_first.tables k)
covers_iff_example =
    covers_iff key (accepted_of_row (watermark_row first_mark sha)) with_first.tables (omega arith)
      (omega arith)
