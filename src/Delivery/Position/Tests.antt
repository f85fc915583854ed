-- ===== src/Delivery/Position/Tests.antt =====
-- Concrete position closes, and the properties at them.
use incident_awareness_engin.Model.RunId.{codes, validate_run_id}
use incident_awareness_engin.Delivery.Contract.{validate_stream_partition}
use incident_awareness_engin.Delivery.Received.{IsReceived}
use incident_awareness_engin.Delivery.Tests.{sha, digests, part, key, event_at, with_first}
use incident_awareness_engin.Delivery.Once.{KnownChunk}
use incident_awareness_engin.Delivery.Ingress.{
  Store, delivery_result, event_records, accept_chunk, event_chunk,
}
use incident_awareness_engin.Delivery.Frontier.{record_id_of}
use incident_awareness_engin.Delivery.Ledger.{
  chunk_row, save_chunk, inspect_chunk_admission, event_row, save_event, save_events,
}
use incident_awareness_engin.Delivery.Position.Again.{save_position_close_again}
use incident_awareness_engin.Delivery.Position.Beyond.{
  AllBeyond, save_position_close_covers, accept_chunk_beyond,
}
use incident_awareness_engin.Delivery.Rows.{Tables}
use incident_awareness_engin.Delivery.Tables.{
  row_to_delivery, chunk_by_id, chunk_by_sequence, event_by_id, is_closed, is_storable, insert_row,
  highest, accepted_watermark_from_row, latest_watermark,
}
use incident_awareness_engin.Delivery.PositionClose.{
  R1RecordPositionClose, R1PositionCloseAdmission, PositionDigests, validate_close, make_receipt,
}
use incident_awareness_engin.Delivery.Position.{
  receipt_of_row, of_position_run, load_position_receipt, require_committed_covered_chunks,
  position_row, insert_position, write_position, save_position_close,
}
use incident_awareness_engin.Delivery.Transaction.{deliver_all}
use incident_awareness_engin.Stream.{R1EventChunk}
use incident_awareness_engin.Prelude.{
  any, ok, is_blank, is_padded, is_empty, text_length, at, ℕ, ◌≤◌, ◌≡◌, refl, ◌⊎◌, true, false,
  some, [], ◌∷◌, ◌++◌,
}

abbrev position_digests : PositionDigests
position_digests = record { close_sha256 = λ c. sha; chunk_list_sha256 = λ cs. sha }

abbrev closing_position : R1RecordPositionClose
closing_position = record {
  close_id = "PC-1";
  run_id = "RUN-20260101-001";
  partition = part;
  required_target_host = "host-1";
  lower_record_id = 1;
  upper_record_id = 100;
  covered_through_chunk_sequence = 1;
  covered_chunks_sha256 = sha;
  post_commit_ack_count = 1;
  live_identity_sha256 = sha;
  canonical_identity_sha256 = sha;
  candidate_boundary_at = at 5000;
  observation_boundary_at = at 6000;
  emitted_at = at 6000;
  content = "";
}

abbrev with_position : Tables
with_position = record with_first.tables {
  position_closes = position_row 7 8000 sha closing_position ∷ [];
}

abbrev admission : R1PositionCloseAdmission
admission = record {
  accepted = true;
  receipt = receipt_of_row (position_row 7 8000 sha closing_position);
}

-- A chunk past the frontier.
abbrev later_chunk : R1EventChunk
later_chunk = record {
  chunk_id = "C-2";
  partition = part;
  chunk_sequence = 2;
  chunk_content_sha256 = sha;
  events = record (event_at "E-4" 9000) { source_record_id = some "101" } ∷ [];
}

abbrev with_later : Store
with_later = record with_first {
  tables = record with_position {
    chunks = with_first.tables.chunks ++ chunk_row key "C-2" 2 sha ∷ [];
    events = with_first.tables.events ++ event_row key "E-4" sha ∷ [];
  };
}

binds : validate_close closing_position ≡ ok tt
unfolding validate_close
binds = refl

takes_position :
    save_position_close position_digests closing_position sha (at 8000) 7 with_first.tables
    ≡ ok (admission, with_position)
unfolding save_position_close load_position_receipt require_committed_covered_chunks write_position
    insert_position make_receipt validate_run_id codes is_blank text_length is_padded is_empty
    validate_stream_partition
takes_position = refl

takes_later :
    accept_chunk digests
      (at 9000)
      later_chunk
      (deliver_all digests [] (record with_first { tables = with_position }))
    ≡ (ok (delivery_result true ("E-4" ∷ [])), with_later)
unfolding accept_chunk inspect_chunk_admission save_events save_chunk chunk_by_id chunk_by_sequence
    event_by_id row_to_delivery is_closed insert_row is_storable latest_watermark highest
    accepted_watermark_from_row is_blank text_length save_event record_id_of
takes_later = refl

save_position_close_again_example :
    save_position_close position_digests closing_position sha
      (at 9999)
      8
      (deliver_all digests
        ((at 9000, event_chunk later_chunk) ∷ [])
        (record with_first { tables = with_position })).tables
    ≡ ok (
      record { accepted = false; receipt = admission.receipt },
      (deliver_all digests
          ((at 9000, event_chunk later_chunk) ∷ [])
          (record with_first { tables = with_position })).tables,
    )
save_position_close_again_example =
    save_position_close_again position_digests digests closing_position sha (at 8000) (at 9999) 7 8
      with_first with_position admission ((at 9000, event_chunk later_chunk) ∷ []) binds
      takes_position

save_position_close_covers_example :
    (any (of_position_run "RUN-20260101-001") with_first.tables.position_closes ≡ false)
    × (1 ≤ 7)
    × (with_position ≡ record with_first.tables {
      position_closes =
          with_first.tables.position_closes ++ position_row 7 8000 sha closing_position ∷ [];
    })
    × ((k : ℕ) → 1 ≤ k → k ≤ 1 → IsReceived key with_first.tables k)
save_position_close_covers_example =
    save_position_close_covers position_digests closing_position sha (at 8000) 7 with_first.tables
      admission with_position takes_position refl

accept_chunk_beyond_example :
    KnownChunk digests later_chunk
      (deliver_all digests [] (record with_first { tables = with_position })).tables
    ⊎ ((key ≡ key) × AllBeyond 100 (event_records later_chunk))
accept_chunk_beyond_example =
    accept_chunk_beyond position_digests digests closing_position sha (at 8000) (at 9000) 7
      with_first with_later with_position admission [] later_chunk
      (delivery_result true ("E-4" ∷ [])) takes_position refl (refl, tt) refl takes_later
