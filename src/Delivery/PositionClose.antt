-- ===== src/Delivery/PositionClose.antt =====
-- The models of common/models/r1_record_position_close.py, with their validators.
use incident_awareness_engin.Delivery.Contract.{is_sha256, validate_stream_partition}
use incident_awareness_engin.Model.Error.{ContractError, field_invalid}
use incident_awareness_engin.Model.RunId.{validate_run_id}
use incident_awareness_engin.Stream.{R1StreamPartition, PartitionKey}
use incident_awareness_engin.Prelude.{
  ltb, eqb, string_eq, nat_eq, nat_order, Result, ok, err, ◌>>◌, raise_if, is_padded, is_empty,
  Datetime, ℕ, ◌%◌, String, Bool, not, ◌&&◌, ◌||◌, List,
}

pub data PositionError : Type 0 where
  digest_differs run_invalid other_close_accepted partition_differs content_differs : PositionError
  sequence_gap chunks_differ row_unavailable : PositionError
  -- A `TypeError` on a row or a time, a model that refuses, and an error of the database.
  entry_invalid entry_refused : PositionError
  contract_error : ContractError → PositionError
  bound_inverted partition_not_of_run host_not_bound identities_differ : PositionError
  acks_missing boundary_before_candidate emitted_early : PositionError

-- `R1RecordPositionClose`, with its frontier and its contract binding; `content` is the rest of its canonical
-- JSON.
pub record R1RecordPositionClose : Type 0 where
  pub close_id : String
  pub run_id : String
  pub partition : R1StreamPartition
  pub required_target_host : String
  pub lower_record_id : ℕ
  pub upper_record_id : ℕ
  pub covered_through_chunk_sequence : ℕ
  pub covered_chunks_sha256 : String
  pub post_commit_ack_count : ℕ
  pub live_identity_sha256 : String
  pub canonical_identity_sha256 : String
  pub candidate_boundary_at : Datetime
  pub observation_boundary_at : Datetime
  pub emitted_at : Datetime
  pub content : String

-- `R1AcceptedRecordPositionCloseReceipt`
pub record R1PositionReceipt : Type 0 where
  pub run_id : String
  pub close_id : String
  pub partition : PartitionKey
  pub close_content_sha256 : String
  pub ledger_entry_id : ℕ
  pub accepted_at : ℕ

-- `R1PositionCloseAdmission`
pub record R1PositionCloseAdmission : Type 0 where
  pub accepted : Bool
  pub receipt : R1PositionReceipt

-- `record_position_close_sha256` and `covered_chunk_list_sha256`
pub record PositionDigests : Type 0 where
  pub close_sha256 : R1RecordPositionClose → String
  pub chunk_list_sha256 : List (ℕ × (String × String)) → String

-- `R1RecordPositionFrontier.validate_bound` and `R1RecordPositionClose.validate_bindings`
unfoldable pub validate_close : R1RecordPositionClose → Result PositionError (Unit {0})
validate_close c = do
  raise_if (ltb c.upper_record_id c.lower_record_id) bound_inverted
  raise_if (not (string_eq.beq c.partition.run_id c.run_id)) partition_not_of_run
  raise_if (not (string_eq.beq c.required_target_host c.partition.host_id)) host_not_bound
  raise_if (not (string_eq.beq c.live_identity_sha256 c.canonical_identity_sha256))
      identities_differ
  raise_if (not (eqb c.post_commit_ack_count c.covered_through_chunk_sequence)) acks_missing
  raise_if (ltb c.observation_boundary_at.instant c.candidate_boundary_at.instant)
      boundary_before_candidate
  raise_if (ltb c.emitted_at.instant c.observation_boundary_at.instant) emitted_early

-- `Identity`
unfoldable pub is_identity : String → Bool
is_identity s = not (is_empty s) && not (is_padded s)

unfoldable pub from_model : Result ContractError (Unit {0}) → Result PositionError (Unit {0})
from_model (err e) = err (contract_error e)
from_model (ok u) = ok u

-- The validators of `R1StreamPartition`
unfoldable pub validate_partition : PartitionKey → Result PositionError (Unit {0})
unfolding from_model
validate_partition p = from_model (validate_stream_partition p)

-- `_receipt`, for a time with a zone: the validators of the receipt.
unfoldable pub make_receipt : R1PositionReceipt → Result PositionError R1PositionReceipt
unfolding is_sha256 is_identity from_model validate_partition
make_receipt r = do
  raise_if (not (is_identity r.run_id)) (contract_error field_invalid)
  from_model (validate_run_id r.run_id)
  validate_partition r.partition
  raise_if
      (not (is_identity r.close_id)
        || not (is_sha256 r.close_content_sha256)
        || ltb r.ledger_entry_id 1
        || not (eqb (r.accepted_at % 1000) 0))
      (contract_error field_invalid)
  raise_if (not (string_eq.beq r.partition.0 r.run_id)) partition_not_of_run
  ok r
