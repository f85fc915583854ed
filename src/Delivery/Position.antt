-- ===== src/Delivery/Position.antt =====
-- The ledger of RecordId position closes (storage/repositories/r1_position_close_repository.py), with the
-- models of common/models/r1_record_position_close.py, on the tables of the delivery ledger.
pub mod Saved
pub mod Again
pub mod Beyond
pub mod Tests
use incident_awareness_engin.Delivery.PositionClose.{
  PositionError, digest_differs, run_invalid, other_close_accepted, partition_differs,
  content_differs, sequence_gap, chunks_differ, row_unavailable, entry_invalid, entry_refused,
  emitted_early, R1RecordPositionClose, R1PositionReceipt, R1PositionCloseAdmission,
  PositionDigests, validate_partition, make_receipt,
}
use incident_awareness_engin.Delivery.Contract.{is_sha256}
use Prim.Native.Char.{code}
use incident_awareness_engin.Model.Error.{ContractError, field_invalid}
use incident_awareness_engin.Model.RunId.{codes, validate_run_id}
use incident_awareness_engin.Delivery.Rows.{ChunkRow, PositionCloseRow, Tables}
use incident_awareness_engin.Delivery.Tables.{integer_max}
use incident_awareness_engin.Stream.{R1StreamPartition, PartitionKey, partition_eq, partition_key}
use incident_awareness_engin.Prelude.{
  ltb, leb, eqb, if◌then◌else◌, string_eq, nat_eq, nat_order, length, any, keep, find, list_beq,
  sort_by, Result, ok, err, ◌>>=◌, ◌>>◌, raise_if, is_blank, is_padded, is_empty, Datetime,
  is_naive, ℕ, zero, suc, ◌+◌, ◌%◌, String, Bool, true, false, not, ◌&&◌, ◌||◌, Option, none, some,
  List, [], ◌∷◌, ◌++◌, map,
}

abbrev pub receipt_of_row : PositionCloseRow → R1PositionReceipt
receipt_of_row row = record {
  run_id = row.partition.0;
  close_id = row.close_id;
  partition = row.partition;
  close_content_sha256 = row.content_sha256;
  ledger_entry_id = row.ledger_entry_id;
  accepted_at = row.accepted_at;
}

abbrev pub of_position_run : String → PositionCloseRow → Bool
of_position_run run row = string_eq.beq run row.partition.0

abbrev pub read_position : Option PositionCloseRow → Result PositionError (Option R1PositionReceipt)
read_position none = ok none
read_position (some row) = do
  validate_partition row.partition
  raise_if (ltb row.ledger_entry_id 1) entry_invalid
  r ← make_receipt (receipt_of_row row)
  ok (some r)

-- `load_accepted_position_close_receipt`
unfoldable pub load_position_receipt :
    String → Tables → Result PositionError (Option R1PositionReceipt)
unfolding make_receipt validate_partition
load_position_receipt run t = do
  raise_if (is_blank run || is_padded run) run_invalid
  read_position (find (of_position_run run) t.position_closes)

-- `_resolve_replay`
unfoldable pub resolve_replay :
    PositionDigests
    → R1RecordPositionClose
    → R1PositionReceipt
    → Result PositionError R1PositionReceipt
resolve_replay d c r = do
  raise_if (not (string_eq.beq r.close_id c.close_id)) other_close_accepted
  raise_if (not (partition_eq.beq r.partition (partition_key c.partition))) partition_differs
  raise_if (not (string_eq.beq r.close_content_sha256 (d.close_sha256 c))) content_differs
  ok r

-- `_SELECT_COVERED_CHUNKS`
unfoldable pub covered_rows : PartitionKey → ℕ → Tables → List ChunkRow
covered_rows p n t =
    sort_by ⦃o = nat_order⦄ (λ (r : ChunkRow). r.chunk_sequence)
      (keep (λ r. partition_eq.beq p r.partition && leb r.chunk_sequence n) t.chunks)

-- `list(range(k, k + n))`
abbrev pub range_from : ℕ → ℕ → List ℕ
range_from k zero = []
range_from k (suc n) = k ∷ range_from (k + 1) n

abbrev pub chunk_entry : ChunkRow → ℕ × (String × String)
chunk_entry r = (r.chunk_sequence, (r.chunk_id, r.content_sha256))

-- `_require_committed_covered_chunks`
unfoldable pub require_committed_covered_chunks :
    PositionDigests → R1RecordPositionClose → Tables → Result PositionError (Unit {0})
unfolding covered_rows
require_committed_covered_chunks d c t =
    let rows = covered_rows (partition_key c.partition) c.covered_through_chunk_sequence t in
    do
      raise_if (any (λ r. ltb r.chunk_sequence 1) rows) entry_invalid
      raise_if
          (not (
            list_beq ⦃e = nat_eq⦄ (map (λ r. r.chunk_sequence) rows)
              (range_from 1 c.covered_through_chunk_sequence)))
          sequence_gap
      raise_if
          (not (string_eq.beq (d.chunk_list_sha256 (map chunk_entry rows)) c.covered_chunks_sha256))
          chunks_differ

abbrev pub position_row : ℕ → ℕ → String → R1RecordPositionClose → PositionCloseRow
position_row entry accepted_at sha c = record {
  ledger_entry_id = entry;
  partition = partition_key c.partition;
  close_id = c.close_id;
  content_sha256 = sha;
  lower_record_id = c.lower_record_id;
  upper_record_id = c.upper_record_id;
  covered_through_chunk_sequence = c.covered_through_chunk_sequence;
  covered_chunks_sha256 = c.covered_chunks_sha256;
  accepted_at = accepted_at;
}

-- The largest `BIGINT`
abbrev pub bigint_max : ℕ
bigint_max = 9_223_372_036_854_775_807

-- The checks and the column types of r1_stream_position_closes, for texts that hold no white space other than
-- spaces.
unfoldable pub is_storable_position : PositionCloseRow → Bool
unfolding is_sha256
is_storable_position r =
    not (is_blank r.partition.0)
    && not (is_blank r.partition.1.0)
    && not (is_blank r.partition.1.1.0)
    && not (is_blank r.partition.1.1.1)
    && not (is_blank r.close_id)
    && is_sha256 r.content_sha256
    && leb 1 r.lower_record_id
    && leb r.lower_record_id r.upper_record_id
    && leb r.upper_record_id bigint_max
    && leb 1 r.covered_through_chunk_sequence
    && leb r.covered_through_chunk_sequence integer_max
    && is_sha256 r.covered_chunks_sha256

-- `_INSERT_POSITION_CLOSE`: the key is the run, alone and with the close.
unfoldable pub insert_position : PositionCloseRow → Tables → Result PositionError (Option Tables)
unfolding is_storable_position
insert_position r t =
    if not (is_storable_position r)
    then err entry_refused
    else if any (of_position_run r.partition.0) t.position_closes
    then ok none
    else ok (some (record t { position_closes = t.position_closes ++ r ∷ [] }))

abbrev concurrent_replay :
    PositionDigests
    → R1RecordPositionClose
    → Option R1PositionReceipt
    → Result PositionError R1PositionReceipt
concurrent_replay d c none = err row_unavailable
concurrent_replay d c (some r) = resolve_replay d c r

abbrev pub admit {ℓ} : {A : Type ℓ} → Bool → A → R1PositionReceipt → R1PositionCloseAdmission × A
admit accepted t r = (record { accepted = accepted; receipt = r }, t)

-- The write of `save_position_close`. The entry is what the identity column of the table generates.
unfoldable pub write_position :
    PositionDigests
    → R1RecordPositionClose
    → String
    → Datetime
    → ℕ
    → Tables
    → Result PositionError (R1PositionCloseAdmission × Tables)
unfolding insert_position resolve_replay
write_position d c sha accepted_at entry t = do
  inserted ← insert_position (position_row entry accepted_at.instant sha c) t
  elim inserted [
    | none ↦
        (load_position_receipt c.run_id t >>= concurrent_replay d c) >>= λ r. ok (admit false t r)
    | some t' ↦ do
      raise_if (ltb entry 1 || is_naive accepted_at) entry_invalid
      r ← make_receipt (record (receipt_of_row (position_row entry accepted_at.instant sha c)) {
        run_id = c.run_id;
      })
      ok (admit true t' r)
  ]

-- `save_position_close`
unfoldable pub save_position_close :
    PositionDigests
    → R1RecordPositionClose
    → String
    → Datetime
    → ℕ
    → Tables
    → Result PositionError (R1PositionCloseAdmission × Tables)
unfolding require_committed_covered_chunks write_position
save_position_close d c sha accepted_at entry t = do
  raise_if (not (string_eq.beq sha (d.close_sha256 c))) digest_differs
  existing ← load_position_receipt c.run_id t
  elim existing [
    | some r ↦ resolve_replay d c r >>= λ r'. ok (admit false t r')
    | none ↦ do require_committed_covered_chunks d c t; write_position d c sha accepted_at entry t
  ]

-- `require_receipt_binds_close`
unfoldable pub require_receipt_binds_close :
    PositionDigests → R1PositionReceipt → R1RecordPositionClose → Result PositionError (Unit {0})
require_receipt_binds_close d r c = do
  raise_if
      (not (string_eq.beq r.run_id c.run_id)
        || not (string_eq.beq r.close_id c.close_id)
        || not (partition_eq.beq r.partition (partition_key c.partition)))
      partition_differs
  raise_if (not (string_eq.beq r.close_content_sha256 (d.close_sha256 c))) content_differs
  raise_if (ltb r.accepted_at c.emitted_at.instant) emitted_early
