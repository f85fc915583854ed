-- ===== src/Delivery/Spool/Tests.antt =====
-- A concrete outbox, and the properties of the spool at it.
use incident_awareness_engin.Delivery.Spool.Acked.{Sound}
use incident_awareness_engin.Delivery.Spool.Passes.{
  consume_spool_once-Sound, consume_spool_once_again,
}
use incident_awareness_engin.Delivery.Spool.Recovery.{consume_spool_once_recovers}
use incident_awareness_engin.Delivery.Tests.{
  digests, first_chunk, first_mark, empty_store, with_mark,
}
use incident_awareness_engin.Delivery.Ledger.{
  is_same, save_chunk, inspect_chunk_admission, save_event, save_events,
}
use incident_awareness_engin.Delivery.Ingress.{
  accepted, accept_chunk, accept_watermark, StreamMessage, event_chunk, source_watermark, accept,
}
use incident_awareness_engin.Delivery.Tables.{
  is_readable, row_to_delivery, chunk_by_id, chunk_by_sequence, event_by_id, watermark_by_id,
  watermark_by_sequence, is_closed, is_storable, insert_row, highest, accepted_watermark_from_row,
  latest_watermark,
}
use incident_awareness_engin.Delivery.Closing.{save_watermark}
use incident_awareness_engin.Delivery.Spool.{
  R1RequiredPartitionContract, Spool, check_contract, SpoolFile, consume_spool_once,
}
use incident_awareness_engin.Delivery.Exactly.{Known}
use incident_awareness_engin.Delivery.Once.{AllReadable}
use incident_awareness_engin.Prelude.{
  if◌then◌else◌, str_lt, string_eq, ok, is_blank, text_length, Datetime, at, String, ◌≡◌, refl,
  Option, none, some, List, [], ◌∷◌,
}

abbrev contract : R1RequiredPartitionContract
contract = record { target_host = "host-1"; required_partitions = ("sysmon", "process") ∷ [] }

abbrev clock : String → Datetime
clock name = at 9000

-- The mark is published after the chunk.
abbrev outbox : List SpoolFile
outbox =
    ("000000000002-source_watermark.json", some (source_watermark first_mark))
    ∷ ("000000000001-event_chunk.json", some (event_chunk first_chunk))
    ∷ []

abbrev content : String → Option StreamMessage
content name =
    if string_eq.beq name "000000000002-source_watermark.json"
    then some (source_watermark first_mark)
    else if string_eq.beq name "000000000001-event_chunk.json"
    then some (event_chunk first_chunk)
    else none

abbrev fresh : Spool
fresh = record { stored = empty_store; acks = [] }

abbrev consumed : Spool
consumed = record {
  stored = with_mark;
  acks =
      record {
        name = "000000000001-event_chunk.json";
        disposition = accepted;
        accepted_at = at 9000;
      }
      ∷ record {
        name = "000000000002-source_watermark.json";
        disposition = accepted;
        accepted_at = at 9000;
      }
      ∷ [];
}

takes_outbox :
    consume_spool_once contract digests clock outbox fresh
    ≡ (ok ("000000000001-event_chunk.json" ∷ "000000000002-source_watermark.json" ∷ []), consumed)
unfolding consume_spool_once accept_chunk inspect_chunk_admission save_events save_chunk chunk_by_id
    chunk_by_sequence event_by_id row_to_delivery is_closed insert_row is_storable latest_watermark
    highest accepted_watermark_from_row is_blank text_length save_event accept save_watermark
    watermark_by_id watermark_by_sequence accept_watermark str_lt
takes_outbox = refl

fresh_Sound : Sound digests content fresh
fresh_Sound = record { readable = tt; known = tt }

consume_spool_once-Sound_example :
    Sound digests content (consume_spool_once contract digests clock outbox fresh).1
consume_spool_once-Sound_example =
    consume_spool_once-Sound contract digests clock content outbox fresh
      ((refl, tt), ((refl, tt), tt)) fresh_Sound

consume_spool_once_again_example :
    consume_spool_once contract digests clock outbox consumed ≡ (ok [], consumed)
consume_spool_once_again_example =
    consume_spool_once_again contract contract digests digests clock clock outbox fresh consumed
      ("000000000001-event_chunk.json" ∷ "000000000002-source_watermark.json" ∷ []) takes_outbox

-- The chunk is in the ledger, and nothing is acknowledged.
abbrev unacked : Spool
unacked = record { stored = with_mark; acks = [] }

chunk-Known : Known digests (event_chunk first_chunk) with_mark.tables
unfolding chunk_by_id row_to_delivery is_blank text_length is_readable is_same
chunk-Known = (refl, (_, refl, refl))

chunk_passes : check_contract contract (event_chunk first_chunk) ≡ ok tt
unfolding check_contract
chunk_passes = refl

mark_readable : AllReadable with_mark.tables
unfolding accepted_watermark_from_row is_blank text_length
mark_readable = (refl, tt)

consume_spool_once_recovers_example :
    ((names : List String) × ((consume_spool_once contract digests clock
          (("000000000001-event_chunk.json", some (event_chunk first_chunk)) ∷ [])
          unacked).0
        ≡ ok names))
    × ((consume_spool_once contract digests clock
          (("000000000001-event_chunk.json", some (event_chunk first_chunk)) ∷ [])
          unacked).1.stored
        ≡ with_mark)
consume_spool_once_recovers_example =
    consume_spool_once_recovers contract digests clock
      (("000000000001-event_chunk.json", some (event_chunk first_chunk)) ∷ []) unacked mark_readable
      ((event_chunk first_chunk, refl, chunk_passes, tt, chunk-Known, refl), tt)
