-- ===== src/Delivery/Spool.antt =====
-- `consume_spool_once` (pipeline/r1_stream_wiring.py): the files of the outbox enter the ledger in the order
-- of their names, each in a transaction of its own, and are acknowledged after the commit.
pub mod Step
pub mod Acked
pub mod Passes
pub mod Recovery
pub mod Tests
use incident_awareness_engin.Delivery.Rows.{DeliveryError}
use incident_awareness_engin.Delivery.Closing.{R1RunClosed}
use incident_awareness_engin.Delivery.Ingress.{
  Digests, R1StreamDeliveryDisposition, R1StreamDeliveryResult, Store, StreamMessage, event_chunk,
  source_watermark, run_closed, accept,
}
use incident_awareness_engin.Stream.{StreamError, R1StreamPartition, utc_milliseconds}
use incident_awareness_engin.Prelude.{
  if◌then◌else◌, Eq, string_eq, pair_eq, string_order, any, contains, sort_by, Result, ok, err,
  ◌>>◌, raise_if, Datetime, String, Bool, not, ◌&&◌, Option, none, some, List, [], ◌∷◌, ◌++◌, map,
}

-- `R1RequiredPartitionContract` (common/models/r1_required_partition.py): a host, with the source and the
-- channel of each partition.
pub record R1RequiredPartitionContract : Type 0 where
  pub target_host : String
  pub required_partitions : List (String × String)

pub data SpoolError : Type 0 where
  message_invalid host_mismatch partition_not_required partitions_not_covered : SpoolError
  delivery_error : DeliveryError → SpoolError
  ack_error : StreamError → SpoolError

-- What an acknowledgement says, besides the digests of the file and of the contract.
pub record Ack : Type 0 where
  pub name : String
  pub disposition : R1StreamDeliveryDisposition
  pub accepted_at : Datetime

pub record Spool : Type 0 where
  pub stored : Store
  pub acks : List Ack

-- `_require_partition`
unfoldable pub require_partition :
    R1RequiredPartitionContract → R1StreamPartition → Result SpoolError (Unit {0})
require_partition contract p = do
  raise_if (not (string_eq.beq p.host_id contract.target_host)) host_mismatch
  raise_if
      (not (
        contains ⦃e = pair_eq ⦃e = string_eq⦄ ⦃f = string_eq⦄⦄ (p.source, p.source_channel)
          contract.required_partitions))
      partition_not_required

abbrev pub PartitionId : Type 0
PartitionId = String × (String × String)

abbrev pub partition_id_eq : Eq PartitionId
partition_id_eq = pair_eq ⦃e = string_eq⦄ ⦃f = pair_eq ⦃e = string_eq⦄ ⦃f = string_eq⦄⦄

abbrev subset : List PartitionId → List PartitionId → Bool
subset xs ys = not (any (λ x. not (contains ⦃e = partition_id_eq⦄ x ys)) xs)

-- `actual != expected` of the close, as sets.
unfoldable pub require_coverage :
    R1RequiredPartitionContract → R1RunClosed → Result SpoolError (Unit {0})
require_coverage contract r =
    let expected =
      map (λ (q : String × String). (contract.target_host, (q.0, q.1)))
        contract.required_partitions in
    let actual =
      map (λ f. (f.partition.host_id, (f.partition.source, f.partition.source_channel)))
        r.final_watermarks in
    raise_if (not (subset actual expected && subset expected actual)) partitions_not_covered

unfoldable pub check_contract :
    R1RequiredPartitionContract → StreamMessage → Result SpoolError (Unit {0})
unfolding require_partition require_coverage
check_contract contract (event_chunk c) = require_partition contract c.partition
check_contract contract (source_watermark w) = require_partition contract w.partition
check_contract contract (run_closed r) = require_coverage contract r

-- A call in a transaction: the tables are those before where it raises. What the sink was given stays.
unfoldable pub deliver :
    Digests → Datetime → StreamMessage → Store → Result DeliveryError R1StreamDeliveryResult × Store
deliver d now m s =
    let answer = accept d now m s in
    elim answer.0 [
      | err e ↦ (err e, record answer.1 { tables = s.tables })
      | ok r ↦ (ok r, answer.1)
    ]

-- The message of a file that is not acknowledged, with the time that the clock returns for it. A clock
-- without a zone raises after the commit.
unfoldable pub consume_message :
    R1RequiredPartitionContract
    → Digests
    → Datetime
    → String
    → StreamMessage
    → Spool
    → Result SpoolError (Unit {0}) × Spool
unfolding check_contract deliver
consume_message contract d now name m sp = elim (check_contract contract m) [
  | err e ↦ (err e, sp)
  | ok _ ↦
      let answer = deliver d now m sp.stored in
      elim answer.0 [
        | err e ↦ (err (delivery_error e), record sp { stored = answer.1 })
        | ok r ↦ elim (utc_milliseconds now) [
          | err e ↦ (err (ack_error e), record sp { stored = answer.1 })
          | ok accepted_at ↦ (
            ok tt,
            record {
              stored = answer.1;
              acks =
                  sp.acks
                  ++ record { name = name; disposition = r.disposition; accepted_at = accepted_at }
                    ∷ [];
            },
          )
        ]
      ]
]

-- A file of the outbox: its name, and its message, where a model accepts the payload.
abbrev pub SpoolFile : Type 0
SpoolFile = String × Option StreamMessage

unfoldable pub is_acked : String → Spool → Bool
is_acked name sp = any (λ a. string_eq.beq name a.name) sp.acks

abbrev pub consume_file :
    R1RequiredPartitionContract
    → Digests
    → Datetime
    → SpoolFile
    → Spool
    → Result SpoolError (Unit {0}) × Spool
consume_file contract d now (name, none) sp = (err message_invalid, sp)
consume_file contract d now (name, some m) sp = consume_message contract d now name m sp

abbrev pub also :
    String → Result SpoolError (List String) × Spool → Result SpoolError (List String) × Spool
also name (err e, sp) = (err e, sp)
also name (ok names, sp) = (ok (name ∷ names), sp)

-- The loop of `consume_spool_once`; `clock` says what the clock returns for each file.
unfoldable pub consume_each :
    R1RequiredPartitionContract
    → Digests
    → (String → Datetime)
    → List SpoolFile
    → Spool
    → Result SpoolError (List String) × Spool
unfolding is_acked consume_message
consume_each contract d clock [] sp = (ok [], sp)
consume_each contract d clock (file ∷ files) sp =
    let rest = λ (sp' : Spool). consume_each contract d clock files sp' in
    let answer = consume_file contract d (clock file.0) file sp in
    if is_acked file.0 sp
    then rest sp
    else elim answer.0 [ err e ↦ (err e, answer.1) | ok _ ↦ also file.0 (rest answer.1) ]

-- `consume_spool_once`
unfoldable pub consume_spool_once :
    R1RequiredPartitionContract
    → Digests
    → (String → Datetime)
    → List SpoolFile
    → Spool
    → Result SpoolError (List String) × Spool
unfolding consume_each
consume_spool_once contract d clock outbox sp =
    consume_each contract d clock (sort_by ⦃o = string_order⦄ (λ (f : SpoolFile). f.0) outbox) sp
