-- ===== src/Delivery/Ledger.antt =====
-- The calls of `R1StreamDeliveryRepository`
-- (storage/repositories/r1_stream_delivery_repository.py). A call that writes at most once, and last,
-- returns the tables beside its result where it returns; `save_events` may have written before it raises,
-- and returns them always.
use incident_awareness_engin.Delivery.Frontier.{position_close_frontier, check_position_close}
use incident_awareness_engin.Delivery.Rows.{
  Label, chunk, event, DeliveryError, identity_conflict, sequence_conflict, run_is_closed,
  event_unavailable, ChunkRow, EventRow, Tables, R1StreamDelivery, R1AcceptedWatermark,
  R1ChunkAdmission,
}
use incident_awareness_engin.Delivery.Tables.{
  chunk_delivery, event_delivery, chunk_by_id, chunk_by_sequence, event_by_id, is_closed,
  insert_row, clash_chunk, clash_event, latest_watermark, covered_sequences,
}
use incident_awareness_engin.Stream.{PartitionKey}
use incident_awareness_engin.Prelude.{
  leb, eqb, if◌then◌else◌, string_eq, option_eq, nat_eq, length, set_of, Result, ok, err, ◌>>=◌,
  ◌>>◌, raise_if, ℕ, String, Bool, true, false, not, ◌&&◌, Option, none, some, List, [], ◌∷◌,
}

-- The tests on what is accepted under the same identity.
unfoldable pub is_same : R1StreamDelivery → ℕ → String → Bool
is_same d sequence sha =
    (option_eq ⦃e = nat_eq⦄).beq d.sequence (some sequence) && string_eq.beq d.content_sha256 sha

unfoldable pub has_content : R1StreamDelivery → String → Bool
has_content d sha = string_eq.beq d.content_sha256 sha

-- `_resolve_partition_conflict`, on what the query by identity returned.
unfoldable pub resolve_partition_conflict :
    Label → ℕ → String → Option R1StreamDelivery → Result DeliveryError Bool
unfolding is_same
resolve_partition_conflict label sequence sha none = err (sequence_conflict label)
resolve_partition_conflict label sequence sha (some d) =
    if is_same d sequence sha then ok false else err (identity_conflict label)

abbrev pub unknown_sequence : Option R1StreamDelivery → Result DeliveryError Bool
unknown_sequence none = err (run_is_closed chunk)
unknown_sequence (some d) = err (sequence_conflict chunk)

abbrev pub closed_replay :
    PartitionKey → ℕ → String → Tables → Option R1StreamDelivery → Result DeliveryError Bool
closed_replay p sequence sha t (some d) =
    if is_same d sequence sha then ok false else err (identity_conflict chunk)
closed_replay p sequence sha t none = chunk_by_sequence p sequence t >>= unknown_sequence

-- `_resolve_closed_chunk_replay`
unfoldable pub resolve_closed_chunk_replay :
    PartitionKey → String → ℕ → String → Tables → Result DeliveryError Bool
unfolding is_same
resolve_closed_chunk_replay p id sequence sha t =
    chunk_by_id p id t >>= closed_replay p sequence sha t

abbrev pub chunk_row : PartitionKey → String → ℕ → String → ChunkRow
chunk_row p id sequence sha = record {
  partition = p;
  chunk_id = id;
  chunk_sequence = sequence;
  content_sha256 = sha;
}

-- The answer without a write, with the tables as they are.
abbrev pub unchanged {ℓ} :
    {A : Type ℓ} → Tables → Result DeliveryError A → Result DeliveryError (A × Tables)
unchanged t (err e) = err e
unchanged t (ok a) = ok (a, t)

-- `save_chunk`
unfoldable pub save_chunk :
    PartitionKey → String → ℕ → String → Tables → Result DeliveryError (Bool × Tables)
unfolding resolve_closed_chunk_replay
save_chunk p id sequence sha t =
    if is_closed p.0 t then unchanged t (resolve_closed_chunk_replay p id sequence sha t) else do
      inserted ←
          insert_row chunk_delivery (clash_chunk (chunk_row p id sequence sha))
            (chunk_row p id sequence sha) t.chunks
      elim inserted [
        | some rows ↦ ok (true, record t { chunks = rows })
        | none ↦ unchanged t (chunk_by_id p id t >>= resolve_partition_conflict chunk sequence sha)
      ]

-- Whether an Event is new, which raises where its content is not the accepted one.
unfoldable pub classify_event : String → Option R1StreamDelivery → Result DeliveryError Bool
unfolding has_content
classify_event sha none = ok true
classify_event sha (some d) = if has_content d sha then ok false else err (identity_conflict event)

-- The loop of `inspect_chunk_admission` over the Events.
unfoldable pub fresh_events :
    PartitionKey → List (String × String) → Tables → Result DeliveryError (List String)
unfolding classify_event
fresh_events p [] t = ok []
fresh_events p ((id, sha) ∷ events) t = do
  is_new ← event_by_id p id t >>= classify_event sha
  rest ← fresh_events p events t
  ok (if is_new then id ∷ rest else rest)

-- `min(..., default=0)`, `max(..., default=0)`
unfoldable pub least : List ℕ → ℕ
least [] = 0
least (n ∷ []) = n
least (n ∷ m ∷ ns) = if leb n (least (m ∷ ns)) then n else least (m ∷ ns)

unfoldable pub greatest : List ℕ → ℕ
greatest [] = 0
greatest (n ∷ ns) = if leb n (greatest ns) then greatest ns else n

-- `_watermark_covers_received_chunks`
unfoldable pub watermark_covers_received_chunks : PartitionKey → R1AcceptedWatermark → Tables → Bool
unfolding covered_sequences least greatest
watermark_covers_received_chunks p w t =
    let received = set_of ⦃e = nat_eq⦄ (covered_sequences p w.covered_through_chunk_sequence t) in
    eqb (length received) w.covered_through_chunk_sequence
    && eqb (least received) 1
    && eqb (greatest received) w.covered_through_chunk_sequence

unfoldable pub active_watermark :
    PartitionKey → Tables → Option R1AcceptedWatermark → Option R1AcceptedWatermark
unfolding watermark_covers_received_chunks
active_watermark p t none = none
active_watermark p t (some w) = if watermark_covers_received_chunks p w t then some w else none

abbrev pub exact_replay : R1ChunkAdmission
exact_replay = record { is_exact_chunk_replay = true; new_event_ids = []; latest_watermark = none }

-- `inspect_chunk_admission` on a chunk whose identity is new.
unfoldable pub inspect_new_chunk :
    PartitionKey
    → ℕ
    → List (String × String)
    → List (String × Option String)
    → Tables
    → Result DeliveryError R1ChunkAdmission
unfolding position_close_frontier check_position_close fresh_events active_watermark
inspect_new_chunk p sequence events records t = do
  existing_sequence ← chunk_by_sequence p sequence t
  raise_if (elim existing_sequence [ none ↦ false | some d ↦ true ]) (sequence_conflict chunk)
  raise_if (is_closed p.0 t) (run_is_closed chunk)
  frontier ← position_close_frontier p t
  check_position_close events records frontier
  new_event_ids ← fresh_events p events t
  latest ← latest_watermark p t
  ok (record {
    is_exact_chunk_replay = false;
    new_event_ids = new_event_ids;
    latest_watermark = active_watermark p t latest;
  })

-- `inspect_chunk_admission`
unfoldable pub inspect_chunk_admission :
    PartitionKey
    → String
    → ℕ
    → String
    → List (String × String)
    → List (String × Option String)
    → Tables
    → Result DeliveryError R1ChunkAdmission
unfolding is_same inspect_new_chunk
inspect_chunk_admission p id sequence sha events records t = do
  existing ← chunk_by_id p id t
  elim existing [
    | none ↦ inspect_new_chunk p sequence events records t
    | some d ↦ if is_same d sequence sha then ok exact_replay else err (identity_conflict chunk)
  ]

abbrev pub event_row : PartitionKey → String → String → EventRow
event_row p id sha = record { partition = p; event_id = id; content_sha256 = sha }

abbrev pub replayed_event : String → Option R1StreamDelivery → Result DeliveryError Bool
replayed_event sha none = err event_unavailable
replayed_event sha (some d) = if has_content d sha then ok false else err (identity_conflict event)

-- One round of the loop of `save_events`.
unfoldable pub save_event :
    PartitionKey → String → String → Tables → Result DeliveryError (Bool × Tables)
unfolding has_content
save_event p id sha t = do
  inserted ←
      insert_row event_delivery (clash_event (event_row p id sha)) (event_row p id sha) t.events
  elim inserted [
    | some rows ↦ ok (true, record t { events = rows })
    | none ↦ unchanged t (event_by_id p id t >>= replayed_event sha)
  ]

abbrev pub with_new :
    String
    → Bool
    → Result DeliveryError (List String) × Tables
    → Result DeliveryError (List String) × Tables
with_new id is_new (rest, t) = (rest >>= λ ids. ok (if is_new then id ∷ ids else ids), t)

unfoldable pub save_each :
    PartitionKey → List (String × String) → Tables → Result DeliveryError (List String) × Tables
save_each p [] t = (ok [], t)
save_each p ((id, sha) ∷ events) t = elim (save_event p id sha t) [
  | err e ↦ (err e, t)
  | ok (is_new, t') ↦ with_new id is_new (save_each p events t')
]

abbrev pub closed_event : String → Option R1StreamDelivery → Result DeliveryError (Unit {0})
closed_event sha none = err (run_is_closed event)
closed_event sha (some d) = raise_if (not (has_content d sha)) (identity_conflict event)

-- `_assert_closed_run_event_replays`
unfoldable pub assert_closed_run_event_replays :
    PartitionKey → List (String × String) → Tables → Result DeliveryError (Unit {0})
unfolding has_content
assert_closed_run_event_replays p [] t = ok tt
assert_closed_run_event_replays p ((id, sha) ∷ events) t =
    (event_by_id p id t >>= closed_event sha) >> assert_closed_run_event_replays p events t

-- `save_events`
unfoldable pub save_events :
    PartitionKey → List (String × String) → Tables → Result DeliveryError (List String) × Tables
unfolding save_each assert_closed_run_event_replays
save_events p events t =
    if is_closed p.0 t
    then (assert_closed_run_event_replays p events t >>= λ _. ok [], t)
    else save_each p events t
