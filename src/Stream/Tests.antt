-- ===== src/Stream/Tests.antt =====
-- Concrete calls of the guard.
use incident_awareness_engin.Stream.{
  late_event, R1StreamPartition, R1SourceWatermark, R1EventChunk, partition_key, Guard, empty_guard,
  accepted_of, accept_watermark, accept_chunk, letter, validate_dead_letter, store, StreamEvent,
  violating,
}
use incident_awareness_engin.Stream.Frontier.{
  Forward, accept_watermark-Forward, accept_all, accept_watermark_again, accept_chunk_iff,
}
use incident_awareness_engin.Prelude.{
  ℕ, ◌<◌, ◌≡◌, refl, ◌↔◌, false, [], ◌∷◌, String, none, some, ok, err, All, null, at, lookup,
  insert, pair_eq, string_eq, is_blank, is_padded, is_empty,
}

abbrev partition : R1StreamPartition
partition = record {
  run_id = "RUN-20260101-001";
  host_id = "host-1";
  source = "sysmon";
  source_channel = "process";
}

abbrev mark : String → ℕ → R1SourceWatermark
mark id n = record {
  watermark_id = id;
  partition = partition;
  watermark_sequence = n;
  watermark_at = at 5000;
  allowed_lateness_ms = 100;
  covered_through_chunk_sequence = 1;
  emitted_at = at 6000;
}

abbrev marked : Guard
marked = store (partition_key partition) (accepted_of (mark "W-1" 1)) empty_guard

abbrev event : String → ℕ → StreamEvent
event id t = record {
  event_id = id;
  run_id = "RUN-20260101-001";
  host_id = "host-1";
  source = "sysmon";
  timestamp = at t;
  source_record_id = none;
  content = id;
}

abbrev chunk : R1EventChunk
chunk = record {
  chunk_id = "C-1";
  partition = partition;
  chunk_sequence = 1;
  chunk_content_sha256 = "";
  events = event "E-1" 5000 ∷ event "E-2" 5001 ∷ [];
}

accept_watermark-Forward_example :
    Forward
      (lookup (partition_key partition) marked.watermarks)
      (lookup (partition_key partition) (accept_watermark (mark "W-2" 2) marked).1.watermarks)
accept_watermark-Forward_example =
    accept_watermark-Forward (mark "W-2" 2) marked (partition_key partition)

fresh : lookup (partition_key partition, "W-1") empty_guard.watermarks_by_identity ≡ none
unfolding lookup
fresh = refl

first-accepted : accept_watermark (mark "W-1" 1) empty_guard ≡ (ok tt, marked)
unfolding accept_watermark lookup
first-accepted = refl

accept_watermark_again_example :
    accept_watermark (mark "W-1" 1) (accept_all (mark "W-2" 2 ∷ []) marked)
    ≡ (ok tt, accept_all (mark "W-2" 2 ∷ []) marked)
accept_watermark_again_example =
    accept_watermark_again (mark "W-1" 1) (mark "W-2" 2 ∷ []) empty_guard marked fresh
      first-accepted

frontier-marked :
    lookup (partition_key partition) marked.watermarks ≡ some (accepted_of (mark "W-1" 1))
unfolding lookup insert
frontier-marked = refl

letter-valid : validate_dead_letter (letter (at 7000) (accepted_of (mark "W-1" 1)) chunk) ≡ ok tt
unfolding validate_dead_letter is_blank is_padded is_empty
letter-valid = refl

accept_chunk_iff_example :
    ((accept_chunk (at 7_500) chunk marked ≡ (ok tt, marked))
      ↔ All (λ (e : StreamEvent). 5000 < e.timestamp.instant) chunk.events)
    × ((accept_chunk (at 7_500) chunk marked ≡ (
      err late_event,
      record marked { dead_letters = letter (at 7000) (accepted_of (mark "W-1" 1)) chunk ∷ [] },
    ))
        ↔ (null (violating (accepted_of (mark "W-1" 1)) chunk) ≡ false))
accept_chunk_iff_example =
    accept_chunk_iff (at 7_500) chunk marked (accepted_of (mark "W-1" 1)) refl frontier-marked
      letter-valid
