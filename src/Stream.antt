-- ===== src/Stream.antt =====
-- The guard against late Events of the incremental stream (pipeline/r1_stream_boundary.py), with the
-- records of common/models/r1_stream.py that it reads and writes.
pub mod Frontier
mod Tests
use incident_awareness_engin.Prelude.{
  ◌%◌, ℕ, ◌*◌, ◌/◌, Bool, true, false, not, ◌&&◌, ◌||◌, List, [], ◌∷◌, ◌++◌, map, Option, none,
  some, String, Result, ok, err, ◌>>=◌, ◌>>◌, raise_if, ltb, leb, eqb, if◌then◌else◌, null, keep,
  any, length, set_of, Datetime, is_naive, is_utc, at, is_blank, is_padded, is_empty, Eq, Dict,
  lookup, insert, pair_eq, string_eq, ◌==◌,
}

pub data StreamError : Type 0 where
  identity_conflict sequence_not_increasing watermark_backwards lateness_changed : StreamError
  late_event clock_naive dead_letter_invalid : StreamError

pub record R1StreamPartition : Type 0 where
  pub run_id : String
  pub host_id : String
  pub source : String
  pub source_channel : String

pub record R1SourceWatermark : Type 0 where
  pub watermark_id : String
  pub partition : R1StreamPartition
  pub watermark_sequence : ℕ
  pub watermark_at : Datetime
  pub allowed_lateness_ms : ℕ
  pub covered_through_chunk_sequence : ℕ
  pub emitted_at : Datetime

-- What the stream reads of a NormalizedEvent: `source_record_id` is that of its `raw_ref`, and
-- `content` its canonical JSON.
pub record StreamEvent : Type 0 where
  pub event_id : String
  pub run_id : String
  pub host_id : String
  pub source : String
  pub timestamp : Datetime
  pub source_record_id : Option String
  pub content : String

pub record R1EventChunk : Type 0 where
  pub chunk_id : String
  pub partition : R1StreamPartition
  pub chunk_sequence : ℕ
  pub chunk_content_sha256 : String
  pub events : List StreamEvent

pub record R1LateEventDeadLetter : Type 0 where
  pub chunk_id : String
  pub partition : R1StreamPartition
  pub watermark_id : String
  pub watermark_at : Datetime
  pub violating_event_ids : List String
  pub rejected_at : Datetime

-- `_AcceptedWatermark`
pub record AcceptedWatermark : Type 0 where
  pub watermark_id : String
  pub watermark_sequence : ℕ
  pub watermark_at : Datetime
  pub allowed_lateness_ms : ℕ
  pub covered_through_chunk_sequence : ℕ
  pub emitted_at : Datetime

abbrev pub PartitionKey : Type 0
PartitionKey = String × (String × (String × String))

abbrev pub partition_eq : Eq PartitionKey
partition_eq =
    pair_eq ⦃e = string_eq⦄
      ⦃f = pair_eq ⦃e = string_eq⦄ ⦃f = pair_eq ⦃e = string_eq⦄ ⦃f = string_eq⦄⦄⦄

abbrev pub identity_eq : Eq (PartitionKey × String)
identity_eq = pair_eq ⦃e = partition_eq⦄ ⦃f = string_eq⦄

-- `_partition_key`
abbrev pub partition_key : R1StreamPartition → PartitionKey
partition_key p = (p.run_id, (p.host_id, (p.source, p.source_channel)))

-- The two dictionaries of an `R1LateEventGuard`, and what its sink was given.
pub record Guard : Type 0 where
  pub watermarks : Dict PartitionKey AcceptedWatermark
  pub watermarks_by_identity : Dict (PartitionKey × String) AcceptedWatermark
  pub dead_letters : List R1LateEventDeadLetter

-- `R1LateEventGuard.__init__`
abbrev pub empty_guard : Guard
empty_guard = record { watermarks = []; watermarks_by_identity = []; dead_letters = [] }

abbrev pub accepted_of : R1SourceWatermark → AcceptedWatermark
accepted_of w = record {
  watermark_id = w.watermark_id;
  watermark_sequence = w.watermark_sequence;
  watermark_at = w.watermark_at;
  allowed_lateness_ms = w.allowed_lateness_ms;
  covered_through_chunk_sequence = w.covered_through_chunk_sequence;
  emitted_at = w.emitted_at;
}

-- `a == b` of the dataclass.
unfoldable pub same_watermark : AcceptedWatermark → AcceptedWatermark → Bool
same_watermark a b =
    a.watermark_id == b.watermark_id
    && eqb a.watermark_sequence b.watermark_sequence
    && eqb a.watermark_at.instant b.watermark_at.instant
    && eqb a.allowed_lateness_ms b.allowed_lateness_ms
    && eqb a.covered_through_chunk_sequence b.covered_through_chunk_sequence
    && eqb a.emitted_at.instant b.emitted_at.instant

abbrev pub store : PartitionKey → AcceptedWatermark → Guard → Guard
store key a g = record g {
  watermarks = insert key a g.watermarks;
  watermarks_by_identity = insert (key, a.watermark_id) a g.watermarks_by_identity;
}

-- The tests of `accept_watermark` against the frontier of the partition.
abbrev pub advance_check :
    AcceptedWatermark → Option AcceptedWatermark → Result StreamError (Unit {0})
advance_check a none = ok tt
advance_check a (some b) = do
  raise_if (leb a.watermark_sequence b.watermark_sequence) sequence_not_increasing
  raise_if (ltb a.watermark_at.instant b.watermark_at.instant) watermark_backwards
  raise_if (not (eqb a.allowed_lateness_ms b.allowed_lateness_ms)) lateness_changed

-- `accept_watermark`, once its content is taken over.
unfoldable pub accept_content :
    PartitionKey → AcceptedWatermark → Guard → Result StreamError (Unit {0}) × Guard
unfolding same_watermark
accept_content key a g = elim (lookup (key, a.watermark_id) g.watermarks_by_identity) [
  | some b ↦ (if same_watermark a b then ok tt else err identity_conflict, g)
  | none ↦ elim (advance_check a (lookup key g.watermarks)) [
    | err e ↦ (err e, g)
    | ok _ ↦ (ok tt, store key a g)
  ]
]

-- `accept_watermark`
unfoldable pub accept_watermark : R1SourceWatermark → Guard → Result StreamError (Unit {0}) × Guard
unfolding accept_content
accept_watermark w g = accept_content (partition_key w.partition) (accepted_of w) g

-- `_utc_milliseconds`
abbrev pub utc_milliseconds : Datetime → Result StreamError Datetime
utc_milliseconds t = if is_naive t then err clock_naive else ok (at (t.instant / 1000 * 1000))

abbrev pub is_bad_id : String → Bool
is_bad_id s = is_blank s || is_padded s

-- `validate_utc_milliseconds`
abbrev pub is_utc_milliseconds : Datetime → Bool
is_utc_milliseconds t = is_utc t && eqb (t.instant % 1000) 0

-- The validators of `R1LateEventDeadLetter`, for a partition that its own model accepted.
unfoldable pub validate_dead_letter : R1LateEventDeadLetter → Result StreamError (Unit {0})
validate_dead_letter d = do
  raise_if (is_empty d.chunk_id || is_padded d.chunk_id) dead_letter_invalid
  raise_if (is_empty d.watermark_id || is_padded d.watermark_id) dead_letter_invalid
  raise_if (any is_bad_id d.violating_event_ids) dead_letter_invalid
  raise_if (not (eqb (length d.violating_event_ids) (length (set_of d.violating_event_ids))))
      dead_letter_invalid
  raise_if (not (is_utc_milliseconds d.watermark_at)) dead_letter_invalid
  raise_if (not (is_utc_milliseconds d.rejected_at)) dead_letter_invalid

-- The Events of a chunk that are not after a frontier.
abbrev pub violating : AcceptedWatermark → R1EventChunk → List String
violating a c =
    map (λ e. e.event_id) (keep (λ e. leb e.timestamp.instant a.watermark_at.instant) c.events)

abbrev pub letter : Datetime → AcceptedWatermark → R1EventChunk → R1LateEventDeadLetter
letter rejected_at a c = record {
  chunk_id = c.chunk_id;
  partition = c.partition;
  watermark_id = a.watermark_id;
  watermark_at = a.watermark_at;
  violating_event_ids = violating a c;
  rejected_at = rejected_at;
}

-- `accept_chunk` on a partition with a frontier; `now` is what the clock returns.
unfoldable pub accept_behind :
    Datetime → AcceptedWatermark → R1EventChunk → Guard → Result StreamError (Unit {0}) × Guard
unfolding validate_dead_letter
accept_behind now a c g = elim (null (violating a c)) [
  | true ↦ (ok tt, g)
  | false ↦ elim (utc_milliseconds now) [
    | err e ↦ (err e, g)
    | ok rejected_at ↦ elim (validate_dead_letter (letter rejected_at a c)) [
      | err e ↦ (err e, g)
      | ok _ ↦ (
        err late_event,
        record g { dead_letters = g.dead_letters ++ letter rejected_at a c ∷ [] },
      )
    ]
  ]
]

-- `accept_chunk`
unfoldable pub accept_chunk :
    Datetime → R1EventChunk → Guard → Result StreamError (Unit {0}) × Guard
unfolding accept_behind
accept_chunk now c g = elim (lookup (partition_key c.partition) g.watermarks) [
  | none ↦ (ok tt, g)
  | some a ↦ accept_behind now a c g
]
