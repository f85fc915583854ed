-- ===== src/Delivery/Rows.antt =====
-- The rows of the tables of the delivery ledger, and the records that its calls return
-- (storage/repositories/r1_stream_delivery_repository.py).
use incident_awareness_engin.Stream.{PartitionKey, StreamError}
use incident_awareness_engin.Prelude.{ℕ, Bool, List, Option, String, option_eq, nat_eq, string_eq}

pub data Label : Type 0 where
  chunk event watermark run_close : Label

-- The errors that the calls raise, one constructor for each message.
pub data DeliveryError : Type 0 where
  identity_conflict sequence_conflict run_is_closed : Label → DeliveryError
  event_unavailable : DeliveryError
  watermark_not_increasing watermark_backwards lateness_changed : DeliveryError
  no_final_watermark several_runs watermark_not_accepted watermark_not_latest : DeliveryError
  partition_uncovered close_is_other : DeliveryError
  other_partition frontier_bounds bindings_incomplete : DeliveryError
  record_id_not_canonical record_id_not_after : DeliveryError
  run_id_invalid digest_mismatch late_event : DeliveryError
  -- A `TypeError` on a row, an error of the database, and what `R1LateEventDeadLetter` or the clock raise.
  row_invalid database_refused : DeliveryError
  stream_error : StreamError → DeliveryError
  -- `_publish_immutable` on a dead letter.
  dead_letter_conflict : DeliveryError

pub record ChunkRow : Type 0 where
  pub partition : PartitionKey
  pub chunk_id : String
  pub chunk_sequence : ℕ
  pub content_sha256 : String

pub record EventRow : Type 0 where
  pub partition : PartitionKey
  pub event_id : String
  pub content_sha256 : String

pub record WatermarkRow : Type 0 where
  pub partition : PartitionKey
  pub watermark_id : String
  pub watermark_sequence : ℕ
  pub content_sha256 : String
  -- A `TIMESTAMPTZ`, as its instant
  pub watermark_at : ℕ
  pub allowed_lateness_ms : ℕ
  pub covered_through_chunk_sequence : ℕ

pub record CloseRow : Type 0 where
  pub run_id : String
  pub close_id : String
  pub content_sha256 : String

pub record PositionCloseRow : Type 0 where
  pub ledger_entry_id : ℕ
  pub partition : PartitionKey
  pub close_id : String
  pub content_sha256 : String
  pub lower_record_id : ℕ
  pub upper_record_id : ℕ
  pub covered_through_chunk_sequence : ℕ
  pub covered_chunks_sha256 : String
  -- A `TIMESTAMPTZ`, as its instant
  pub accepted_at : ℕ

pub record Tables : Type 0 where
  pub chunks : List ChunkRow
  pub events : List EventRow
  pub watermarks : List WatermarkRow
  pub closes : List CloseRow
  pub position_closes : List PositionCloseRow

-- `R1StreamDelivery`
pub record R1StreamDelivery : Type 0 where
  pub identity : String
  pub sequence : Option ℕ
  pub content_sha256 : String

-- `R1AcceptedWatermark`
pub record R1AcceptedWatermark : Type 0 where
  pub watermark_id : String
  pub watermark_sequence : ℕ
  pub watermark_at : ℕ
  pub allowed_lateness_ms : ℕ
  pub covered_through_chunk_sequence : ℕ

-- `R1AcceptedRunCloseReceipt`
pub record R1AcceptedRunCloseReceipt : Type 0 where
  pub run_id : String
  pub close_id : String
  pub content_sha256 : String

-- `R1ChunkAdmission`
pub record R1ChunkAdmission : Type 0 where
  pub is_exact_chunk_replay : Bool
  pub new_event_ids : List String
  pub latest_watermark : Option R1AcceptedWatermark
