-- ===== src/Delivery/Contract.antt =====
-- The models of the stream messages (common/models/r1_stream.py), with the validators of their fields and of
-- the whole. The fields of an Event besides its identity and its scope are its content.
use incident_awareness_engin.Model.Error.{
  ContractError, field_invalid, datetime_naive, datetime_not_utc, datetime_not_milliseconds,
  events_repeated, event_of_other_partition, partitions_repeated, watermark_of_other_run,
}
use incident_awareness_engin.Model.RunId.{codes, validate_run_id}
use incident_awareness_engin.Delivery.Closing.{R1FinalPartitionWatermark, R1RunClosed}
use incident_awareness_engin.Delivery.Ingress.{
  StreamMessage, event_chunk, source_watermark, run_closed,
}
use incident_awareness_engin.Stream.{
  R1StreamPartition, R1SourceWatermark, StreamEvent, R1EventChunk, PartitionKey, partition_eq,
  partition_key,
}
use incident_awareness_engin.Prelude.{
  ltb, leb, ◌&&◌, eqb, string_eq, null, length, any, set_of, is_empty, is_padded, Datetime,
  is_naive, is_utc, Result, ok, ◌>>◌, raise_if, ℕ, ◌%◌, String, Bool, not, ◌||◌, List, [], ◌∷◌, map,
}

-- A text of at least one character, without white space at its ends.
unfoldable pub validate_text : String → Result ContractError (Unit {0})
validate_text s = raise_if (is_empty s || is_padded s) field_invalid

is_hex : ℕ → Bool
is_hex c = leb 48 c && leb c 57 || leb 97 c && leb c 102

-- `Sha256`
unfoldable pub is_sha256 : String → Bool
unfolding is_hex codes
is_sha256 s = eqb (length (codes s)) 64 && not (any (λ c. not (is_hex c)) (codes s))

-- `R1StreamPartition`
unfoldable pub validate_stream_partition : PartitionKey → Result ContractError (Unit {0})
unfolding validate_text
validate_stream_partition p = do
  validate_text p.0
  validate_run_id p.0
  validate_text p.1.0
  validate_text p.1.1.0
  validate_text p.1.1.1

-- `validate_utc_milliseconds`
unfoldable pub validate_message_time : Datetime → Result ContractError (Unit {0})
validate_message_time t = do
  raise_if (is_naive t) datetime_naive
  raise_if (not (is_utc t)) datetime_not_utc
  raise_if (not (eqb (t.instant % 1000) 0)) datetime_not_milliseconds

abbrev pub is_out_of_scope : R1StreamPartition → StreamEvent → Bool
is_out_of_scope p e =
    not (string_eq.beq e.run_id p.run_id)
    || not (string_eq.beq e.host_id p.host_id)
    || not (string_eq.beq e.source p.source)

-- `R1EventChunk`
unfoldable pub validate_chunk : R1EventChunk → Result ContractError (Unit {0})
unfolding is_sha256 validate_stream_partition
validate_chunk c = do
  validate_text c.chunk_id
  validate_stream_partition (partition_key c.partition)
  raise_if (ltb c.chunk_sequence 1 || not (is_sha256 c.chunk_content_sha256) || null c.events)
      field_invalid
  let event_ids = map (λ e. e.event_id) c.events
  raise_if (not (eqb (length event_ids) (length (set_of ⦃e = string_eq⦄ event_ids))))
      events_repeated
  raise_if (any (is_out_of_scope c.partition) c.events) event_of_other_partition

-- `R1SourceWatermark`
unfoldable pub validate_watermark : R1SourceWatermark → Result ContractError (Unit {0})
unfolding validate_stream_partition validate_message_time
validate_watermark w = do
  validate_text w.watermark_id
  validate_stream_partition (partition_key w.partition)
  raise_if (ltb w.watermark_sequence 1 || ltb w.covered_through_chunk_sequence 1) field_invalid
  validate_message_time w.watermark_at
  validate_message_time w.emitted_at

-- `R1FinalPartitionWatermark`
unfoldable pub validate_final : R1FinalPartitionWatermark → Result ContractError (Unit {0})
unfolding validate_stream_partition validate_message_time
validate_final f = do
  validate_stream_partition (partition_key f.partition)
  validate_text f.watermark_id
  raise_if (ltb f.watermark_sequence 1 || ltb f.covered_through_chunk_sequence 1) field_invalid
  validate_message_time f.watermark_at

unfoldable pub validate_finals : List R1FinalPartitionWatermark → Result ContractError (Unit {0})
unfolding validate_final
validate_finals [] = ok tt
validate_finals (f ∷ fs) = validate_final f >> validate_finals fs

-- `R1RunClosed`
unfoldable pub validate_run_closed : R1RunClosed → Result ContractError (Unit {0})
unfolding validate_finals
validate_run_closed r = do
  validate_text r.close_id
  validate_text r.run_id
  validate_run_id r.run_id
  raise_if (null r.final_watermarks) field_invalid
  validate_finals r.final_watermarks
  validate_message_time r.emitted_at
  let partitions = map (λ f. partition_key f.partition) r.final_watermarks
  raise_if (not (eqb (length partitions) (length (set_of ⦃e = partition_eq⦄ partitions))))
      partitions_repeated
  raise_if (any (λ f. not (string_eq.beq f.partition.run_id r.run_id)) r.final_watermarks)
      watermark_of_other_run

unfoldable pub validate_message : StreamMessage → Result ContractError (Unit {0})
unfolding validate_chunk validate_watermark validate_run_closed
validate_message (event_chunk c) = validate_chunk c
validate_message (source_watermark w) = validate_watermark w
validate_message (run_closed r) = validate_run_closed r
