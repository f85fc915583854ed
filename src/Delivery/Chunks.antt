-- ===== src/Delivery/Chunks.antt =====
-- The specification of `accept_chunk` on every branch.
use incident_awareness_engin.Delivery.Written.{
  AllAfter, Accepted, reject_late_events-eq-ok, write_chunk-eq-ok,
}
use mathlib.Core.Path.{subst}
use incident_awareness_engin.Delivery.Rows.{Tables, R1ChunkAdmission}
use incident_awareness_engin.Delivery.Tables.{chunk_by_id}
use incident_awareness_engin.Delivery.Frontier.{check_position_close}
use incident_awareness_engin.Delivery.Ledger.{active_watermark, inspect_chunk_admission}
use incident_awareness_engin.Delivery.Ingress.{
  Digests, R1StreamDeliveryResult, Store, delivery_result, reject_late_events, event_digests,
  event_records, write_chunk, accept_admitted, accept_chunk,
}
use incident_awareness_engin.Delivery.Accepted.{fresh_events-missing}
use incident_awareness_engin.Delivery.Admission.{Admits, inspect-cases}
use incident_awareness_engin.Delivery.Once.{KnownChunk}
use incident_awareness_engin.Stream.{R1EventChunk, partition_key}
use incident_awareness_engin.Prelude.{
  Bool-cases, string_eq, IsDistinct, ok, ◌>>=◌, ok-inj, err_ok, Result-split, Datetime, ◌≡◌, sym,
  ap, ◌∙◌, ◌⊎◌, inl, inr, false, none, [], map,
}

accept_admitted-Accepted :
    (d : Digests) (now : Datetime) (c : R1EventChunk) (a : R1ChunkAdmission) (s s' : Store)
    (r : R1StreamDeliveryResult)
    → IsDistinct ⦃e = string_eq⦄ (map (λ e. e.event_id) c.events)
    → chunk_by_id (partition_key c.partition) c.chunk_id s.tables ≡ ok none
    → Admits
        (partition_key c.partition)
        c.chunk_sequence
        (event_digests d c)
        (event_records c)
        s.tables
        a
    → accept_admitted d now c a s ≡ (ok r, s')
    → Accepted d c s r s'
unfolding accept_admitted
accept_admitted-Accepted d now c a s s' r distinct unknown admits h =
    let p = partition_key c.partition in
    let t = s.tables in
    let checked = reject_late_events now c a.new_event_ids a.latest_watermark s in
    let h' = rw admits.not_replay at h in
    elim (Result-split checked.0) [
      | inl (e, raised) ↦ absurd (err_ok (ap (λ x. x.0) (rw (raised, accept_admitted) at h')))
      | inr (u, returned) ↦
          let (same, after) =
            reject_late_events-eq-ok now c a.new_event_ids a.latest_watermark s returned in
          let answer : (
            (write_chunk d c checked.1.tables).0,
            record checked.1 { tables = (write_chunk d c checked.1.tables).1 },
          )
              ≡ (ok r, s') =
            rw (returned, accept_admitted) at h' in
          let answer' : ((write_chunk d c t).0, record s { tables = (write_chunk d c t).1 })
              ≡ (ok r, s') =
            ap {A = Store}
              (λ (x : Store).
                ((write_chunk d c x.tables).0, record x { tables = (write_chunk d c x.tables).1 }))
              (sym same)
            ∙ answer in
          let (result_is, tables_are) =
            write_chunk-eq-ok d c s r distinct admits.run_open unknown (ap (λ x. x.0) answer') in
          let ids = fresh_events-missing p (event_digests d c) t a.new_event_ids admits.fresh in
          (
            result_is,
            sym (ap (λ x. x.1) answer')
                ∙ ap {A = Tables} (λ (x : Tables). record s { tables = x }) tables_are,
            admits.run_open,
            λ w active.
                subst (λ xs. AllAfter xs w.watermark_at c.events) ids
                  (after w (
                    admits.active
                    ∙ (ap (active_watermark p t) (ok-inj (sym admits.latest_read ∙ active.1))
                        ∙ active.2))),
            ap (λ x. x >>= check_position_close (event_digests d c) (event_records c))
                  admits.frontier_read
                ∙ admits.after_frontier,
          )
    ]

-- On a chunk whose Events have distinct ids, as its model checks: where `accept_chunk` returns, the chunk
-- stood in the ledger with that sequence and digest, and the answer is `duplicate` with nothing written;
-- or the answer is `accepted` with exactly the Events that the ledger did not have, the run was open,
-- each of these Events is after the active watermark, the Events of the chunk pass the check of the
-- position close, and what is written is the chunk and the new Events.
pub accept_chunk-cases :
    (d : Digests) (now : Datetime) (c : R1EventChunk) (s s' : Store) (r : R1StreamDeliveryResult)
    → IsDistinct ⦃e = string_eq⦄ (map (λ e. e.event_id) c.events)
    → accept_chunk d now c s ≡ (ok r, s')
    → (KnownChunk d c s.tables × (r ≡ delivery_result false []) × (s' ≡ s)) ⊎ Accepted d c s r s'
unfolding accept_chunk accept_admitted
accept_chunk-cases d now c s s' r distinct h =
    let p = partition_key c.partition in
    let sha = d.chunk_sha256 c in
    elim (Bool-cases (string_eq.beq sha c.chunk_content_sha256)) [
      | inr differs ↦ absurd (err_ok (ap (λ x. x.0) (rw differs at h)))
      | inl matches ↦
          let h' = rw matches at h in
          elim (Result-split (
            inspect_chunk_admission p c.chunk_id c.chunk_sequence sha (event_digests d c)
              (event_records c) s.tables)) [
                | inl (e, raised) ↦
                    absurd (err_ok (ap (λ x. x.0) (rw (raised, accept_chunk) at h')))
                | inr (a, admitted) ↦
                    let h'' : accept_admitted d now c a s ≡ (ok r, s') =
                      rw (admitted, accept_chunk) at h' in
                    elim (inspect-cases p c.chunk_id c.chunk_sequence sha (event_digests d c)
                      (event_records c) s.tables a admitted) [
                        | inl (replay, seen) ↦
                            let kept : (ok (delivery_result false []), s) ≡ (ok r, s') =
                              ap (λ x. accept_admitted d now c x s) (sym replay) ∙ h'' in
                            inl (
                              (matches, seen),
                              sym (ok-inj (ap (λ x. x.0) kept)),
                              sym (ap (λ x. x.1) kept),
                            )
                        | inr (unknown, admits) ↦
                            inr (
                              accept_admitted-Accepted d now c a s s' r distinct unknown admits h'')
                      ]
              ]
    ]
