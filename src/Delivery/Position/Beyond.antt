-- ===== src/Delivery/Position/Beyond.antt =====
-- What an accepted position close promises: the chunks that it covers are there, and a new chunk of its run is
-- behind its frontier.
use incident_awareness_engin.Delivery.Received.{IsReceived}
use incident_awareness_engin.Delivery.Once.{KnownChunk}
use incident_awareness_engin.Delivery.Ingress.{
  Digests, R1StreamDeliveryResult, Store, event_digests, event_records, accept_chunk, StreamMessage,
}
use incident_awareness_engin.Delivery.Frontier.{
  record_id_of, check_record_ids, assert_events_are_post_position_close, position_close_frontier,
  check_position_close,
}
use incident_awareness_engin.Delivery.Rows.{bindings_incomplete, ChunkRow, PositionCloseRow, Tables}
use incident_awareness_engin.Delivery.Tables.{at_chunk_sequence}
use incident_awareness_engin.Delivery.PositionClose.{
  sequence_gap, entry_invalid, R1RecordPositionClose, R1PositionCloseAdmission, PositionDigests,
}
use incident_awareness_engin.Delivery.Position.{
  of_position_run, covered_rows, range_from, require_committed_covered_chunks, position_row,
  save_position_close,
}
use incident_awareness_engin.Delivery.Position.Saved.{
  Stores, passes_of_check, save_position_close-cases,
}
use incident_awareness_engin.Delivery.Transaction.{deliver_all, deliver_all-Grows}
use incident_awareness_engin.Delivery.Chunks.{accept_chunk-cases}
use incident_awareness_engin.Delivery.Position.Again.{stored_row}
use incident_awareness_engin.Stream.{R1EventChunk, PartitionKey, partition_eq, partition_key}
use incident_awareness_engin.Prelude.{
  ltb, leb, eqb, Bool-cases, Option-cases, string_eq, nat_eq, nat_order, length, All, any, keep,
  find, contains, list_beq, set_of, IsDistinct, any-sort_by, ok, raise_if, >>=-eq-ok,
  raise_if-eq-ok, ok-inj, err_ok, true-false, Datetime, ℕ, zero, suc, ◌+◌, ◌≤◌, ◌<◌, String, ◌≡◌,
  refl, sym, ap, ◌∙◌, ◌⊎◌, inl, inr, true, false, not, ◌&&◌, ◌||◌, Option, some, List, [], ◌∷◌,
  ◌++◌, map, arith,
}

-- Every record id is a canonical number past the frontier.
abbrev pub AllBeyond : ℕ → List (String × Option String) → Type 0
AllBeyond upper records = All (λ r. (n : ℕ) × (record_id_of r.1 ≡ some n) × (upper < n)) records

check_record_ids-eq-ok :
    (upper : ℕ) (records : List (String × Option String))
    → check_record_ids upper records ≡ ok tt
    → AllBeyond upper records
unfolding check_record_ids
check_record_ids-eq-ok upper [] h = tt
check_record_ids-eq-ok upper ((id, source) ∷ records) h =
    elim (Option-cases (record_id_of source)) [
      | inl nothing ↦ absurd (err_ok (rw (nothing, check_record_ids) at h))
      | inr (n, found) ↦ elim (Bool-cases (leb n upper)) [
        | inl low ↦ absurd (err_ok (rw low at (rw (found, check_record_ids) at h)))
        | inr high ↦ (
          (n, found, ground arith),
          check_record_ids-eq-ok upper records (rw high at (rw (found, check_record_ids) at h)),
        )
      ]
    ]

pub check_position_close-eq-ok :
    (events : List (String × String)) (records : List (String × Option String)) (upper : ℕ)
    → check_position_close events records (some upper) ≡ ok tt
    → AllBeyond upper records
unfolding check_position_close assert_events_are_post_position_close
check_position_close-eq-ok events records upper h =
    let (u, e, k) =
      >>=-eq-ok
        (raise_if
          (not (list_beq ⦃e = string_eq⦄ (map (λ r. r.0) records) (map (λ e. e.0) events))
            || not (
                eqb (length (set_of ⦃e = string_eq⦄ (map (λ r. r.0) records)))
                  (length (map (λ r. r.0) records))))
          bindings_incomplete)
        _ h in
    check_record_ids-eq-ok upper records k

-- The frontier that a partition reads, where a row of its run stands first.
pub position_close_frontier-eq-ok :
    (p : PartitionKey) (t : Tables) (r : PositionCloseRow) (frontier : Option ℕ)
    → find (of_position_run p.0) t.position_closes ≡ some r
    → position_close_frontier p t ≡ ok frontier
    → (r.partition ≡ p) × (frontier ≡ some r.upper_record_id)
unfolding position_close_frontier
position_close_frontier-eq-ok p t r frontier found h =
    let k = rw (found, position_close_frontier) at h in
    elim (Bool-cases (partition_eq.beq r.partition p)) [
      | inr apart ↦ absurd (err_ok (rw apart at k))
      | inl same ↦
          elim (Bool-cases (ltb r.lower_record_id 1 || ltb r.upper_record_id r.lower_record_id)) [
            | inl bad ↦ absurd (err_ok (rw bad at (rw same at k)))
            | inr good ↦ (
              (partition_eq.beq_iff r.partition p).0 same,
              sym (ok-inj (rw good at (rw same at k))),
            )
          ]
    ]

list_beq-contains :
    (k : ℕ) (xs ys : List ℕ)
    → list_beq ⦃e = nat_eq⦄ xs ys ≡ true
    → contains ⦃e = nat_eq⦄ k xs ≡ contains ⦃e = nat_eq⦄ k ys
list_beq-contains k [] [] h = refl
list_beq-contains k [] (y ∷ ys) h = absurd (true-false (sym h))
list_beq-contains k (x ∷ xs) [] h = absurd (true-false (sym h))
list_beq-contains k (x ∷ xs) (y ∷ ys) h = ground (arith, list_beq-contains k xs ys)

contains-range_from :
    (k i n : ℕ) → i ≤ k → k < i + n → contains ⦃e = nat_eq⦄ k (range_from i n) ≡ true
contains-range_from k i zero lo hi = absurd (omega (arith, lo, hi))
contains-range_from k i (suc n) lo hi = elim (Bool-cases (eqb k i)) [
  | inl same ↦ rw same refl
  | inr apart ↦ rw apart (contains-range_from k (i + 1) n (ground arith) (omega (arith, hi)))
]

contains-sequences :
    (k : ℕ) (rows : List ChunkRow)
    → contains ⦃e = nat_eq⦄ k (map (λ r. r.chunk_sequence) rows)
      ≡ any (λ r. eqb k r.chunk_sequence) rows
contains-sequences k [] = refl
contains-sequences k (r ∷ rows) = ap (λ b. eqb k r.chunk_sequence || b) (contains-sequences k rows)

any-kept :
    (p : PartitionKey) (n k : ℕ) (rows : List ChunkRow)
    → any
        (λ r. eqb k r.chunk_sequence)
        (keep (λ r. partition_eq.beq p r.partition && leb r.chunk_sequence n) rows)
      ≡ true
    → any (at_chunk_sequence p k) rows ≡ true
any-kept p n k [] h = absurd (true-false (sym h))
any-kept p n k (r ∷ rows) h = ground (arith, any-kept p n k rows)

-- The covered chunks are all there.
pub covered-IsReceived :
    (d : PositionDigests) (c : R1RecordPositionClose) (t : Tables)
    → require_committed_covered_chunks d c t ≡ ok tt
    → (k : ℕ) → 1 ≤ k
    → k ≤ c.covered_through_chunk_sequence
    → IsReceived (partition_key c.partition) t k
unfolding require_committed_covered_chunks covered_rows
covered-IsReceived d c t h k lo hi =
    let p = partition_key c.partition in
    let n = c.covered_through_chunk_sequence in
    let rows = covered_rows p n t in
    let (u1, e1, h1) =
      >>=-eq-ok (raise_if (any (λ r. ltb r.chunk_sequence 1) rows) entry_invalid) _ h in
    let same = list_beq ⦃e = nat_eq⦄ (map (λ r. r.chunk_sequence) rows) (range_from 1 n) in
    let (u2, e2, h2) = >>=-eq-ok (raise_if (not same) sequence_gap) _ h1 in
    let all_there : contains ⦃e = nat_eq⦄ k (map (λ r. r.chunk_sequence) rows) ≡ true =
      list_beq-contains k (map (λ r. r.chunk_sequence) rows) (range_from 1 n)
        (passes_of_check same (raise_if-eq-ok (not same) sequence_gap e2))
      ∙ contains-range_from k 1 n lo (omega (arith, hi)) in
    any-kept p n k t.chunks (
      sym (
        any-sort_by ⦃o = nat_order⦄ (λ (r : ChunkRow). r.chunk_sequence)
          (λ r. eqb k r.chunk_sequence)
          (keep (λ r. partition_eq.beq p r.partition && leb r.chunk_sequence n) t.chunks))
      ∙ (sym (contains-sequences k rows) ∙ all_there))

Stores-of_accepted :
    (d : PositionDigests) (c : R1RecordPositionClose) (sha : String) (accepted_at : Datetime)
    (entry : ℕ) (t : Tables) (a : R1PositionCloseAdmission) (t' : Tables)
    → save_position_close d c sha accepted_at entry t ≡ ok (a, t')
    → a.accepted ≡ true
    → Stores d c sha accepted_at entry t a t'
Stores-of_accepted d c sha accepted_at entry t a t' h was_new =
    elim (save_position_close-cases d c sha accepted_at entry t a t' h).1 [
      | inl stands ↦ absurd (true-false (sym was_new ∙ stands.not_accepted))
      | inr stores ↦ stores
    ]

-- Where a position close is accepted: the ledger had none of its run, the entry that was generated is
-- positive, its row is behind the others, and each chunk of its partition, from the first to the last that
-- it covers, has been received.
pub save_position_close_covers :
    (d : PositionDigests) (c : R1RecordPositionClose) (sha : String) (accepted_at : Datetime)
    (entry : ℕ) (t : Tables) (a : R1PositionCloseAdmission) (t' : Tables)
    → save_position_close d c sha accepted_at entry t ≡ ok (a, t')
    → a.accepted ≡ true
    → (any (of_position_run c.partition.run_id) t.position_closes ≡ false)
      × (1 ≤ entry)
      × (t' ≡ record t {
        position_closes = t.position_closes ++ position_row entry accepted_at.instant sha c ∷ [];
      })
      × ((k : ℕ)
          → 1 ≤ k
          → k ≤ c.covered_through_chunk_sequence
          → IsReceived (partition_key c.partition) t k)
save_position_close_covers d c sha accepted_at entry t a t' h was_new =
    let stores = Stores-of_accepted d c sha accepted_at entry t a t' h was_new in
    let positive = stores.entry_is_positive in
    (stores.is_new, ground arith, stores.tables_are, covered-IsReceived d c t stores.covers)

-- After a position close is accepted and any messages are delivered, where the call on a chunk of its run
-- returns, and its Events have distinct ids: the chunk stood in the ledger, or it is of the partition of
-- the close and the record id of each of its Events is a canonical number past the frontier.
pub accept_chunk_beyond :
    (d : PositionDigests) (digests : Digests) (c : R1RecordPositionClose) (sha : String)
    (accepted_at now : Datetime) (entry : ℕ) (s s' : Store) (t' : Tables)
    (a : R1PositionCloseAdmission) (ms : List (Datetime × StreamMessage)) (k : R1EventChunk)
    (r : R1StreamDeliveryResult)
    → save_position_close d c sha accepted_at entry s.tables ≡ ok (a, t')
    → a.accepted ≡ true
    → IsDistinct ⦃e = string_eq⦄ (map (λ e. e.event_id) k.events)
    → k.partition.run_id ≡ c.partition.run_id
    → accept_chunk digests now k (deliver_all digests ms (record s { tables = t' })) ≡ (ok r, s')
    → KnownChunk digests k (deliver_all digests ms (record s { tables = t' })).tables
      ⊎ ((partition_key k.partition ≡ partition_key c.partition)
          × AllBeyond c.upper_record_id (event_records k))
accept_chunk_beyond d digests c sha accepted_at now entry s s' t' a ms k r saved was_new distinct
      same_run h =
    let stores = Stores-of_accepted d c sha accepted_at entry s.tables a t' saved was_new in
    let s1 = deliver_all digests ms (record s { tables = t' }) in
    let p = partition_key k.partition in
    let row = position_row entry accepted_at.instant sha c in
    let grows = deliver_all-Grows digests ms (record s { tables = t' }) in
    let kept : s1.tables.position_closes ≡ t'.position_closes =
      ap (λ (x : Tables). x.position_closes) grows.is_grown in
    let found : find (of_position_run p.0) s1.tables.position_closes ≡ some row =
      ap (λ x. find (of_position_run p.0) x) kept
      ∙ (ap (λ x. find (of_position_run x) t'.position_closes) same_run
          ∙ stored_row d c sha accepted_at entry s.tables a t' stores) in
    elim (accept_chunk-cases digests now k s1 s' r distinct h) [
      | inl (known, answer, same) ↦ inl known
      | inr (answer, written, open_run, active, passed) ↦
          let (frontier, read, checked) =
            >>=-eq-ok (position_close_frontier p s1.tables)
              (check_position_close (event_digests digests k) (event_records k)) passed in
          let (same_part, at_upper) =
            position_close_frontier-eq-ok p s1.tables row frontier found read in
          inr (
            sym same_part,
            check_position_close-eq-ok (event_digests digests k) (event_records k) c.upper_record_id
                (ap (check_position_close (event_digests digests k) (event_records k))
                    (sym at_upper)
                  ∙ checked),
          )
    ]
