-- ===== src/Delivery/Messages.antt =====
-- What the models of the stream messages ensure: the hypotheses of the theorems on delivery.
mod Tests
use incident_awareness_engin.Model.RunId.{validate_run_id}
use incident_awareness_engin.Delivery.Closing.{R1RunClosed}
use incident_awareness_engin.Delivery.Ingress.{
  StreamMessage, event_chunk, source_watermark, run_closed,
}
use incident_awareness_engin.Delivery.Contract.{
  is_sha256, validate_text, validate_stream_partition, validate_message_time, is_out_of_scope,
  validate_chunk, validate_watermark, validate_finals, validate_run_closed, validate_message,
}
use incident_awareness_engin.Delivery.Closed.{OfRun}
use incident_awareness_engin.Delivery.Exactly.{IsOwn}
use incident_awareness_engin.Model.Error.{field_invalid, events_repeated, partitions_repeated}
use incident_awareness_engin.Stream.{
  R1SourceWatermark, StreamEvent, R1StreamPartition, R1EventChunk, partition_eq, partition_key,
}
use incident_awareness_engin.Prelude.{
  ltb, eqb, string_eq, null, length, All, All-imp, any, set_of, IsDistinct, IsDistinct-of_length,
  ok, >>=-eq-ok, raise_if, raise_if-eq-ok, ℕ, ◌≤◌, ◌≡◌, Bool, false, not, ◌||◌, List, [], ◌∷◌, map,
  arith,
}

-- An Event has the run, the host and the source of its partition.
abbrev pub IsInScope : R1StreamPartition → StreamEvent → Type 0
IsInScope p e = (e.run_id ≡ p.run_id) × (e.host_id ≡ p.host_id) × (e.source ≡ p.source)

abbrev pub IsWellFormed : StreamMessage → Type 0
IsWellFormed (event_chunk c) =
    (1 ≤ c.chunk_sequence)
    × IsDistinct ⦃e = string_eq⦄ (map (λ e. e.event_id) c.events)
    × All (IsInScope c.partition) c.events
IsWellFormed (source_watermark w) =
    (1 ≤ w.watermark_sequence) × (1 ≤ w.covered_through_chunk_sequence)
IsWellFormed (run_closed r) =
    IsDistinct ⦃e = partition_eq⦄ (map (λ f. partition_key f.partition) r.final_watermarks)

All-of_any {ℓ} :
    {A : Type ℓ} (q : A → Bool) (xs : List A) → any q xs ≡ false → All (λ x. q x ≡ false) xs
All-of_any q [] h = tt
All-of_any q (x ∷ xs) h = (ground arith, All-of_any q xs (ground arith))

IsInScope-of_check :
    (p : R1StreamPartition) (e : StreamEvent) → is_out_of_scope p e ≡ false → IsInScope p e
IsInScope-of_check p e h = (
  (string_eq.beq_iff e.run_id p.run_id).0 (ground arith),
  (string_eq.beq_iff e.host_id p.host_id).0 (ground arith),
  (string_eq.beq_iff e.source p.source).0 (ground arith),
)

not_repeated : (n m : ℕ) → not (eqb n m) ≡ false → m ≡ n
not_repeated n m h = ground arith

validate_chunk-IsWellFormed :
    (c : R1EventChunk) → validate_chunk c ≡ ok tt → IsWellFormed (event_chunk c)
unfolding validate_chunk
validate_chunk-IsWellFormed c h =
    let ids = map (λ e. e.event_id) c.events in
    let (u1, e1, h1) = >>=-eq-ok (validate_text c.chunk_id) _ h in
    let (u2, e2, h2) = >>=-eq-ok (validate_stream_partition (partition_key c.partition)) _ h1 in
    let (u3, e3, h3) =
      >>=-eq-ok
        (raise_if
          (ltb c.chunk_sequence 1 || not (is_sha256 c.chunk_content_sha256) || null c.events)
          field_invalid)
        _ h2 in
    let (u4, e4, h4) =
      >>=-eq-ok
        (raise_if (not (eqb (length ids) (length (set_of ⦃e = string_eq⦄ ids)))) events_repeated) _
        h3 in
    let positive =
      raise_if-eq-ok
        (ltb c.chunk_sequence 1 || not (is_sha256 c.chunk_content_sha256) || null c.events)
        field_invalid e3 in
    let apart =
      raise_if-eq-ok (not (eqb (length ids) (length (set_of ⦃e = string_eq⦄ ids)))) _ e4 in
    let scoped = raise_if-eq-ok (any (is_out_of_scope c.partition) c.events) _ h4 in
    (
      ground arith,
      IsDistinct-of_length ⦃e = string_eq⦄ ids
          (not_repeated (length ids) (length (set_of ⦃e = string_eq⦄ ids)) apart),
      All-imp (λ e k. IsInScope-of_check c.partition e k) c.events
          (All-of_any (is_out_of_scope c.partition) c.events scoped),
    )

validate_watermark-IsWellFormed :
    (w : R1SourceWatermark) → validate_watermark w ≡ ok tt → IsWellFormed (source_watermark w)
unfolding validate_watermark
validate_watermark-IsWellFormed w h =
    let low = ltb w.watermark_sequence 1 || ltb w.covered_through_chunk_sequence 1 in
    let (u1, e1, h1) = >>=-eq-ok (validate_text w.watermark_id) _ h in
    let (u2, e2, h2) = >>=-eq-ok (validate_stream_partition (partition_key w.partition)) _ h1 in
    let (u3, e3, h3) = >>=-eq-ok (raise_if low field_invalid) _ h2 in
    let high = raise_if-eq-ok low field_invalid e3 in (ground arith, ground arith)

validate_run_closed-IsWellFormed :
    (r : R1RunClosed)
    → validate_run_closed r ≡ ok tt
    → OfRun r.run_id r.final_watermarks × IsWellFormed (run_closed r)
unfolding validate_run_closed
validate_run_closed-IsWellFormed r h =
    let fs = r.final_watermarks in
    let keys = map (λ f. partition_key f.partition) fs in
    let repeated = not (eqb (length keys) (length (set_of ⦃e = partition_eq⦄ keys))) in
    let (u1, e1, h1) = >>=-eq-ok (validate_text r.close_id) _ h in
    let (u2, e2, h2) = >>=-eq-ok (validate_text r.run_id) _ h1 in
    let (u3, e3, h3) = >>=-eq-ok (validate_run_id r.run_id) _ h2 in
    let (u4, e4, h4) = >>=-eq-ok (raise_if (null fs) field_invalid) _ h3 in
    let (u5, e5, h5) = >>=-eq-ok (validate_finals fs) _ h4 in
    let (u6, e6, h6) = >>=-eq-ok (validate_message_time r.emitted_at) _ h5 in
    let (u7, e7, h7) = >>=-eq-ok (raise_if repeated partitions_repeated) _ h6 in
    let own = raise_if-eq-ok (any (λ f. not (string_eq.beq f.partition.run_id r.run_id)) fs) _ h7 in
    (
      All-imp (λ f k. (string_eq.beq_iff f.partition.run_id r.run_id).0 (ground arith)) fs
          (All-of_any (λ f. not (string_eq.beq f.partition.run_id r.run_id)) fs own),
      IsDistinct-of_length ⦃e = partition_eq⦄ keys (
          not_repeated (length keys) (length (set_of ⦃e = partition_eq⦄ keys))
            (raise_if-eq-ok repeated partitions_repeated e7)),
    )

-- A message that its models accept meets the hypotheses of the theorems on delivery: a close names
-- watermarks of its own run, of distinct partitions; the Events of a chunk have distinct ids and the run,
-- the host and the source of its partition; the sequences and the coverage start from one.
pub validate_message-IsWellFormed :
    (m : StreamMessage) → validate_message m ≡ ok tt → IsOwn m × IsWellFormed m
unfolding validate_message
validate_message-IsWellFormed (event_chunk c) h = (tt, validate_chunk-IsWellFormed c h)
validate_message-IsWellFormed (source_watermark w) h = (tt, validate_watermark-IsWellFormed w h)
validate_message-IsWellFormed (run_closed r) h = validate_run_closed-IsWellFormed r h
