-- ===== src/Delivery/Tables.antt =====
-- The tables of the delivery ledger, with the queries of
-- storage/repositories/r1_stream_delivery_repository.py on them. The keys are those of
-- infra/postgres/migrations/008 to 013. The advisory locks of the queries make the calls on one run take
-- turns, so that a call is a function of the tables that it finds.
use incident_awareness_engin.Delivery.Rows.{
  DeliveryError, row_invalid, database_refused, ChunkRow, EventRow, WatermarkRow, CloseRow, Tables,
  R1StreamDelivery, R1AcceptedWatermark,
}
use incident_awareness_engin.Stream.{PartitionKey, partition_eq}
use incident_awareness_engin.Prelude.{
  ℕ, Bool, true, not, ◌&&◌, ◌||◌, List, [], ◌∷◌, ◌++◌, map, Option, none, some, String, Result, ok,
  err, ltb, leb, eqb, if◌then◌else◌, any, keep, find, set_of, is_blank, text_length, option_eq,
  nat_eq, string_eq,
}

-- The tests of `_row_to_delivery` on a sequence, where the row has one.
abbrev pub sequence_is_positive : Option ℕ → Bool
sequence_is_positive none = true
sequence_is_positive (some n) = leb 1 n

unfoldable pub is_readable : R1StreamDelivery → Bool
is_readable d =
    not (is_blank d.identity)
    && eqb (text_length d.content_sha256) 64
    && sequence_is_positive d.sequence

-- `_row_to_delivery`
unfoldable pub row_to_delivery :
    Option R1StreamDelivery → Result DeliveryError (Option R1StreamDelivery)
row_to_delivery none = ok none
row_to_delivery (some d) = if is_readable d then ok (some d) else err row_invalid

abbrev pub chunk_delivery : ChunkRow → R1StreamDelivery
chunk_delivery r = record {
  identity = r.chunk_id;
  sequence = some r.chunk_sequence;
  content_sha256 = r.content_sha256;
}

abbrev pub event_delivery : EventRow → R1StreamDelivery
event_delivery r = record {
  identity = r.event_id;
  sequence = none;
  content_sha256 = r.content_sha256;
}

abbrev pub watermark_delivery : WatermarkRow → R1StreamDelivery
watermark_delivery r = record {
  identity = r.watermark_id;
  sequence = some r.watermark_sequence;
  content_sha256 = r.content_sha256;
}

abbrev pub close_delivery : CloseRow → R1StreamDelivery
close_delivery r = record {
  identity = r.close_id;
  sequence = none;
  content_sha256 = r.content_sha256;
}

abbrev pub at_chunk : PartitionKey → String → ChunkRow → Bool
at_chunk p id r = partition_eq.beq p r.partition && string_eq.beq id r.chunk_id

abbrev pub at_chunk_sequence : PartitionKey → ℕ → ChunkRow → Bool
at_chunk_sequence p n r = partition_eq.beq p r.partition && eqb n r.chunk_sequence

abbrev pub at_event : PartitionKey → String → EventRow → Bool
at_event p id r = partition_eq.beq p r.partition && string_eq.beq id r.event_id

abbrev pub at_watermark : PartitionKey → String → WatermarkRow → Bool
at_watermark p id r = partition_eq.beq p r.partition && string_eq.beq id r.watermark_id

abbrev pub at_watermark_sequence : PartitionKey → ℕ → WatermarkRow → Bool
at_watermark_sequence p n r = partition_eq.beq p r.partition && eqb n r.watermark_sequence

abbrev pub fetch {ℓ} : {A : Type ℓ} → (A → R1StreamDelivery) → Option A → Option R1StreamDelivery
fetch read none = none
fetch read (some r) = some (read r)

-- `_SELECT_CHUNK_BY_ID` and its like, read by `_row_to_delivery`.
unfoldable pub chunk_by_id :
    PartitionKey → String → Tables → Result DeliveryError (Option R1StreamDelivery)
chunk_by_id p id t = row_to_delivery (fetch chunk_delivery (find (at_chunk p id) t.chunks))

unfoldable pub chunk_by_sequence :
    PartitionKey → ℕ → Tables → Result DeliveryError (Option R1StreamDelivery)
chunk_by_sequence p n t =
    row_to_delivery (fetch chunk_delivery (find (at_chunk_sequence p n) t.chunks))

unfoldable pub event_by_id :
    PartitionKey → String → Tables → Result DeliveryError (Option R1StreamDelivery)
event_by_id p id t = row_to_delivery (fetch event_delivery (find (at_event p id) t.events))

unfoldable pub watermark_by_id :
    PartitionKey → String → Tables → Result DeliveryError (Option R1StreamDelivery)
watermark_by_id p id t =
    row_to_delivery (fetch watermark_delivery (find (at_watermark p id) t.watermarks))

unfoldable pub watermark_by_sequence :
    PartitionKey → ℕ → Tables → Result DeliveryError (Option R1StreamDelivery)
watermark_by_sequence p n t =
    row_to_delivery (fetch watermark_delivery (find (at_watermark_sequence p n) t.watermarks))

abbrev pub is_of_run : String → CloseRow → Bool
is_of_run run r = string_eq.beq run r.run_id

unfoldable pub close_by_id :
    String → String → Tables → Result DeliveryError (Option R1StreamDelivery)
close_by_id run id t =
    row_to_delivery
      (fetch close_delivery (find (λ r. is_of_run run r && string_eq.beq id r.close_id) t.closes))

unfoldable pub close_by_run : String → Tables → Result DeliveryError (Option R1StreamDelivery)
close_by_run run t = row_to_delivery (fetch close_delivery (find (is_of_run run) t.closes))

-- `_protect_run`, without its lock.
unfoldable pub is_closed : String → Tables → Bool
is_closed run t = any (is_of_run run) t.closes

-- The largest `INTEGER`
abbrev pub integer_max : ℕ
integer_max = 2_147_483_647

abbrev pub fits : Option ℕ → Bool
fits none = true
fits (some n) = leb n integer_max

-- What the checks and the column types of a table refuse, for texts that hold no white space other than
-- spaces and digests in hexadecimal.
unfoldable pub is_storable : R1StreamDelivery → Bool
unfolding is_readable
is_storable d = is_readable d && fits d.sequence

-- `INSERT ... ON CONFLICT DO NOTHING RETURNING ...`: the rows with the new one, or `none` on a conflict
-- with a key.
unfoldable pub insert_row {ℓ} :
    {A : Type ℓ}
    → (A → R1StreamDelivery)
    → (A → Bool)
    → A
    → List A
    → Result DeliveryError (Option (List A))
insert_row read clashes r rows =
    if is_storable (read r)
    then (if any clashes rows then ok none else ok (some (rows ++ r ∷ [])))
    else err database_refused

abbrev pub clash_chunk : ChunkRow → ChunkRow → Bool
clash_chunk r s =
    at_chunk r.partition r.chunk_id s || at_chunk_sequence r.partition r.chunk_sequence s

abbrev pub clash_event : EventRow → EventRow → Bool
clash_event r s = at_event r.partition r.event_id s

abbrev pub clash_watermark : WatermarkRow → WatermarkRow → Bool
clash_watermark r s =
    at_watermark r.partition r.watermark_id s
    || at_watermark_sequence r.partition r.watermark_sequence s

-- The primary key holds `run_id`, which is unique on its own too.
abbrev pub clash_close : CloseRow → CloseRow → Bool
clash_close r s = is_of_run r.run_id s

-- `ORDER BY watermark_sequence DESC LIMIT 1`
unfoldable pub highest : List WatermarkRow → Option WatermarkRow
highest [] = none
highest (r ∷ rows) = elim (highest rows) [
  | none ↦ some r
  | some s ↦ if leb r.watermark_sequence s.watermark_sequence then some s else some r
]

abbrev pub in_partition : PartitionKey → List WatermarkRow → List WatermarkRow
in_partition p rows = keep (λ r. partition_eq.beq p r.partition) rows

abbrev pub accepted_of_row : WatermarkRow → R1AcceptedWatermark
accepted_of_row r = record {
  watermark_id = r.watermark_id;
  watermark_sequence = r.watermark_sequence;
  watermark_at = r.watermark_at;
  allowed_lateness_ms = r.allowed_lateness_ms;
  covered_through_chunk_sequence = r.covered_through_chunk_sequence;
}

-- `_accepted_watermark_from_row`
unfoldable pub accepted_watermark_from_row :
    Option WatermarkRow → Result DeliveryError (Option R1AcceptedWatermark)
accepted_watermark_from_row none = ok none
accepted_watermark_from_row (some r) =
    if is_blank r.watermark_id
      || ltb r.watermark_sequence 1
      || ltb r.covered_through_chunk_sequence 1
    then err row_invalid
    else ok (some (accepted_of_row r))

-- `_SELECT_LATEST_WATERMARK_FOR_UPDATE`
unfoldable pub latest_watermark :
    PartitionKey → Tables → Result DeliveryError (Option R1AcceptedWatermark)
latest_watermark p t = accepted_watermark_from_row (highest (in_partition p t.watermarks))

-- `_SELECT_STREAM_PARTITION_COUNT_FOR_RUN`: the partitions that have a chunk or a watermark, once each.
unfoldable pub known_partitions : String → Tables → List PartitionKey
known_partitions run t = set_of ⦃e = partition_eq⦄ (
    keep (λ p. string_eq.beq run p.0)
      (map (λ r. r.partition) t.chunks ++ map (λ r. r.partition) t.watermarks))

-- `_SELECT_COVERED_CHUNK_SEQUENCES`
unfoldable pub covered_sequences : PartitionKey → ℕ → Tables → List ℕ
covered_sequences p n t =
    map (λ r. r.chunk_sequence)
      (keep (λ r. partition_eq.beq p r.partition && leb r.chunk_sequence n) t.chunks)
