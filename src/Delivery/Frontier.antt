-- ===== src/Delivery/Frontier.antt =====
-- The frontier of an accepted position close, and the record ids behind it
-- (storage/repositories/r1_stream_delivery_repository.py).
use incident_awareness_engin.Delivery.Rows.{
  DeliveryError, other_partition, frontier_bounds, bindings_incomplete, record_id_not_canonical,
  record_id_not_after, Tables,
}
use incident_awareness_engin.Model.RunId.{codes}
use incident_awareness_engin.Stream.{PartitionKey, partition_eq}
use incident_awareness_engin.Prelude.{
  ltb, leb, eqb, if◌then◌else◌, string_eq, option_eq, nat_eq, length, find, list_beq, set_of,
  Result, ok, err, ◌>>◌, raise_if, ℕ, ◌+◌, ◌-◌, ◌*◌, String, not, ◌&&◌, ◌||◌, Option, none, some,
  List, [], ◌∷◌, map,
}

-- The number that a text writes in canonical decimal_value digits. `int` refuses more than 4300 of them.
unfoldable pub decimal_value : ℕ → List ℕ → Option ℕ
decimal_value acc [] = some acc
decimal_value acc (c ∷ cs) =
    if leb 48 c && leb c 57 then decimal_value (acc * 10 + (c - 48)) cs else none

unfoldable pub canonical_digits : List ℕ → Option ℕ
unfolding decimal_value
canonical_digits [] = none
canonical_digits (c ∷ []) = decimal_value 0 (c ∷ [])
canonical_digits (c ∷ d ∷ cs) =
    if eqb c 48 || ltb 4300 (length (c ∷ d ∷ cs)) then none else decimal_value 0 (c ∷ d ∷ cs)

unfoldable pub record_id_of : Option String → Option ℕ
unfolding canonical_digits codes
record_id_of none = none
record_id_of (some s) = canonical_digits (codes s)

-- The loop of `_assert_events_are_post_position_close`.
unfoldable pub check_record_ids :
    ℕ → List (String × Option String) → Result DeliveryError (Unit {0})
check_record_ids upper [] = ok tt
check_record_ids upper ((id, source_record_id) ∷ records) = elim (record_id_of source_record_id) [
  | none ↦ err record_id_not_canonical
  | some n ↦ if leb n upper then err record_id_not_after else check_record_ids upper records
]

-- `_assert_events_are_post_position_close`
unfoldable pub assert_events_are_post_position_close :
    List (String × String) → List (String × Option String) → ℕ → Result DeliveryError (Unit {0})
unfolding check_record_ids
assert_events_are_post_position_close events records upper =
    let received = map (λ r. r.0) records in
    do
      raise_if
          (not (list_beq ⦃e = string_eq⦄ received (map (λ e. e.0) events))
            || not (eqb (length (set_of ⦃e = string_eq⦄ received)) (length received)))
          bindings_incomplete
      check_record_ids upper records

-- `_position_close_frontier`
unfoldable pub position_close_frontier : PartitionKey → Tables → Result DeliveryError (Option ℕ)
position_close_frontier p t = elim (find (λ r. string_eq.beq p.0 r.partition.0) t.position_closes) [
  | none ↦ ok none
  | some r ↦
      if not (partition_eq.beq r.partition p)
      then err other_partition
      else if ltb r.lower_record_id 1 || ltb r.upper_record_id r.lower_record_id
      then err frontier_bounds
      else ok (some r.upper_record_id)
]

unfoldable pub check_position_close :
    List (String × String)
    → List (String × Option String)
    → Option ℕ
    → Result DeliveryError (Unit {0})
unfolding assert_events_are_post_position_close
check_position_close events records none = ok tt
check_position_close events records (some upper) =
    assert_events_are_post_position_close events records upper
