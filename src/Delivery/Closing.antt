-- ===== src/Delivery/Closing.antt =====
-- The calls of `R1StreamDeliveryRepository` on watermarks and on the close of a run
-- (storage/repositories/r1_stream_delivery_repository.py), with the messages that they take
-- (common/models/r1_stream.py).
use incident_awareness_engin.Delivery.Rows.{
  watermark, run_close, DeliveryError, identity_conflict, sequence_conflict, run_is_closed,
  watermark_not_increasing, watermark_backwards, lateness_changed, no_final_watermark, several_runs,
  watermark_not_accepted, watermark_not_latest, partition_uncovered, close_is_other, run_id_invalid,
  database_refused, WatermarkRow, CloseRow, Tables, R1StreamDelivery, R1AcceptedWatermark,
  R1AcceptedRunCloseReceipt,
}
use incident_awareness_engin.Delivery.Tables.{
  watermark_delivery, close_delivery, watermark_by_id, watermark_by_sequence, close_by_id,
  close_by_run, is_closed, fits, insert_row, clash_watermark, clash_close, latest_watermark,
  known_partitions,
}
use incident_awareness_engin.Delivery.Ledger.{
  is_same, has_content, resolve_partition_conflict, unchanged,
}
use incident_awareness_engin.Stream.{R1StreamPartition, R1SourceWatermark, partition_key}
use incident_awareness_engin.Prelude.{
  ℕ, Bool, true, false, not, ◌&&◌, ◌||◌, List, [], ◌∷◌, map, Option, none, some, String, Result, ok,
  err, ◌>>=◌, ◌>>◌, raise_if, ltb, leb, eqb, if◌then◌else◌, set_of, length, is_blank, is_padded,
  Datetime, string_eq,
}

-- `R1FinalPartitionWatermark`
pub record R1FinalPartitionWatermark : Type 0 where
  pub partition : R1StreamPartition
  pub watermark_id : String
  pub watermark_sequence : ℕ
  pub watermark_at : Datetime
  pub allowed_lateness_ms : ℕ
  pub covered_through_chunk_sequence : ℕ

-- `R1RunClosed`
pub record R1RunClosed : Type 0 where
  pub close_id : String
  pub run_id : String
  pub final_watermarks : List R1FinalPartitionWatermark
  pub emitted_at : Datetime

abbrev pub watermark_row : R1SourceWatermark → String → WatermarkRow
watermark_row w sha = record {
  partition = partition_key w.partition;
  watermark_id = w.watermark_id;
  watermark_sequence = w.watermark_sequence;
  content_sha256 = sha;
  watermark_at = w.watermark_at.instant;
  allowed_lateness_ms = w.allowed_lateness_ms;
  covered_through_chunk_sequence = w.covered_through_chunk_sequence;
}

-- The tests of `save_watermark` against the latest watermark.
unfoldable pub check_advance :
    R1SourceWatermark → Option R1AcceptedWatermark → Result DeliveryError (Unit {0})
check_advance w none = ok tt
check_advance w (some b) = do
  raise_if (leb w.watermark_sequence b.watermark_sequence) watermark_not_increasing
  raise_if (ltb w.watermark_at.instant b.watermark_at) watermark_backwards
  raise_if (not (eqb w.allowed_lateness_ms b.allowed_lateness_ms)) lateness_changed

-- The columns that `_INSERT_WATERMARK` writes besides the identity.
abbrev pub binding_fits : R1SourceWatermark → Bool
binding_fits w =
    fits (some w.allowed_lateness_ms)
    && fits (some w.covered_through_chunk_sequence)
    && leb 1 w.covered_through_chunk_sequence

unfoldable pub insert_watermark :
    R1SourceWatermark → String → Tables → Result DeliveryError (Option (List WatermarkRow))
insert_watermark w sha t =
    if binding_fits w
    then insert_row watermark_delivery (clash_watermark (watermark_row w sha)) (watermark_row w sha)
        t.watermarks
    else err database_refused

-- The write of `save_watermark`.
unfoldable pub write_watermark :
    R1SourceWatermark → String → Tables → Result DeliveryError (Bool × Tables)
unfolding insert_watermark
write_watermark w sha t = do
  inserted ← insert_watermark w sha t
  elim inserted [
    | some rows ↦ ok (true, record t { watermarks = rows })
    | none ↦ unchanged t (
        watermark_by_id (partition_key w.partition) w.watermark_id t
        >>= resolve_partition_conflict watermark w.watermark_sequence sha)
  ]

-- `save_watermark` on an identity that is new.
unfoldable pub save_new_watermark :
    R1SourceWatermark
    → String
    → Option R1AcceptedWatermark
    → Tables
    → Result DeliveryError (Bool × Tables)
unfolding check_advance write_watermark
save_new_watermark w sha latest t = do
  raise_if (is_closed w.partition.run_id t) (run_is_closed watermark)
  existing ← watermark_by_sequence (partition_key w.partition) w.watermark_sequence t
  raise_if (elim existing [ none ↦ false | some d ↦ true ]) (sequence_conflict watermark)
  check_advance w latest
  write_watermark w sha t

-- `save_watermark`
unfoldable pub save_watermark :
    R1SourceWatermark → String → Tables → Result DeliveryError (Bool × Tables)
unfolding is_same save_new_watermark
save_watermark w sha t = do
  latest ← latest_watermark (partition_key w.partition) t
  existing ← watermark_by_id (partition_key w.partition) w.watermark_id t
  elim existing [
    | none ↦ save_new_watermark w sha latest t
    | some d ↦
        if is_same d w.watermark_sequence sha
        then ok (false, t)
        else err (identity_conflict watermark)
  ]

-- `existing != R1AcceptedWatermark(...)`
unfoldable pub is_final : R1FinalPartitionWatermark → R1AcceptedWatermark → Bool
is_final f w =
    string_eq.beq w.watermark_id f.watermark_id
    && eqb w.watermark_sequence f.watermark_sequence
    && eqb w.watermark_at f.watermark_at.instant
    && eqb w.allowed_lateness_ms f.allowed_lateness_ms
    && eqb w.covered_through_chunk_sequence f.covered_through_chunk_sequence

unfoldable pub match_final :
    R1FinalPartitionWatermark → Option R1AcceptedWatermark → Result DeliveryError (Unit {0})
unfolding is_final
match_final f none = err watermark_not_accepted
match_final f (some w) = raise_if (not (is_final f w)) watermark_not_latest

-- The loop of `assert_final_watermarks_match`.
unfoldable pub match_all : List R1FinalPartitionWatermark → Tables → Result DeliveryError (Unit {0})
unfolding match_final
match_all [] t = ok tt
match_all (f ∷ fs) t =
    (latest_watermark (partition_key f.partition) t >>= match_final f) >> match_all fs t

-- `assert_final_watermarks_match`
unfoldable pub assert_final_watermarks_match :
    List R1FinalPartitionWatermark → Tables → Result DeliveryError (Unit {0})
unfolding match_all
assert_final_watermarks_match [] t = err no_final_watermark
assert_final_watermarks_match (f ∷ fs) t = do
  raise_if (not (eqb (length (set_of ⦃e = string_eq⦄ (map (λ g. g.partition.run_id) (f ∷ fs)))) 1))
      several_runs
  match_all (f ∷ fs) t
  raise_if (not (eqb (length (known_partitions f.partition.run_id t)) (length (f ∷ fs))))
      partition_uncovered

abbrev pub close_row : String → String → String → CloseRow
close_row run id sha = record { run_id = run; close_id = id; content_sha256 = sha }

abbrev pub replayed_close : String → Option R1StreamDelivery → Result DeliveryError Bool
replayed_close sha none = err close_is_other
replayed_close sha (some d) =
    if has_content d sha then ok false else err (identity_conflict run_close)

-- `save_run_close`
unfoldable pub save_run_close :
    String → String → String → Tables → Result DeliveryError (Bool × Tables)
unfolding has_content
save_run_close run id sha t = do
  inserted ←
      insert_row close_delivery (clash_close (close_row run id sha)) (close_row run id sha) t.closes
  elim inserted [
    | some rows ↦ ok (true, record t { closes = rows })
    | none ↦ unchanged t (close_by_id run id t >>= replayed_close sha)
  ]

abbrev receipt : String → Option R1StreamDelivery → Option R1AcceptedRunCloseReceipt
receipt run none = none
receipt run (some d) =
    some (record { run_id = run; close_id = d.identity; content_sha256 = d.content_sha256 })

-- `load_accepted_run_close_receipt`
unfoldable pub load_accepted_run_close_receipt :
    String → Tables → Result DeliveryError (Option R1AcceptedRunCloseReceipt)
load_accepted_run_close_receipt run t = do
  raise_if (is_blank run || is_padded run) run_id_invalid
  delivery ← close_by_run run t
  ok (receipt run delivery)
