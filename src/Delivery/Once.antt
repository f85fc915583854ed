-- ===== src/Delivery/Once.antt =====
-- Exactly once: a message whose call returned can be delivered again at any later time. The call returns
-- `duplicate` and changes nothing.
use mathlib.Core.Path.{subst}
use incident_awareness_engin.Delivery.Rows.{
  WatermarkRow, Tables, R1AcceptedWatermark, R1ChunkAdmission,
}
use incident_awareness_engin.Delivery.Tables.{
  chunk_by_id, watermark_by_id, highest, in_partition, accepted_of_row, accepted_watermark_from_row,
  latest_watermark,
}
use incident_awareness_engin.Delivery.Ledger.{save_chunk, inspect_chunk_admission, save_events}
use incident_awareness_engin.Delivery.Closing.{save_watermark}
use incident_awareness_engin.Delivery.Ingress.{
  Digests, R1StreamDeliveryResult, Store, delivery_result, reject_late_events, event_digests,
  event_records, save_after, write_chunk, accept_admitted, accept_chunk,
}
use incident_awareness_engin.Delivery.Marks.{IsReadable}
use incident_awareness_engin.Delivery.Append.{SeenAs}
use incident_awareness_engin.Delivery.Growth.{Grows}
use incident_awareness_engin.Delivery.Replay.{save_chunk-SeenAs}
use incident_awareness_engin.Delivery.Admission.{inspect-cases}
use incident_awareness_engin.Stream.{
  R1SourceWatermark, R1EventChunk, PartitionKey, partition_eq, partition_key,
}
use incident_awareness_engin.Prelude.{
  leb, Bool-cases, Option-cases, string_eq, All, All-append, All-keep, ok, err_ok, some-inj,
  none-some, Result-split, Datetime, String, ◌≡◌, refl, sym, ap, ◌∙◌, inl, inr, true, false, Option,
  none, some, List, [], ◌∷◌,
}

pub write_chunk-SeenAs :
    (d : Digests) (c : R1EventChunk) (t : Tables) (r : R1StreamDeliveryResult)
    → (write_chunk d c t).0 ≡ ok r
    → SeenAs
        (chunk_by_id (partition_key c.partition) c.chunk_id (write_chunk d c t).1)
        c.chunk_sequence
        (d.chunk_sha256 c)
unfolding write_chunk
write_chunk-SeenAs d c t r h =
    let p = partition_key c.partition in
    let saved = save_events p (event_digests d c) t in
    elim (Result-split saved.0) [
      | inl (e, raised) ↦ absurd (err_ok (rw (raised, write_chunk) at h))
      | inr (ids, returned) ↦
          elim (Result-split
            (save_chunk p c.chunk_id c.chunk_sequence (d.chunk_sha256 c) saved.1)) [
              | inl (e, raised) ↦
                  absurd (err_ok (rw (raised, save_after) at (rw (returned, write_chunk) at h)))
              | inr ((b, t'), written) ↦
                  rw (returned, write_chunk)
                    (rw (written, save_after)
                      (save_chunk-SeenAs p c.chunk_id c.chunk_sequence (d.chunk_sha256 c) saved.1 t'
                        b written))
            ]
    ]

-- The chunk stands in the ledger with the digest that the message names.
abbrev pub KnownChunk : Digests → R1EventChunk → Tables → Type 0
KnownChunk d c t =
    (string_eq.beq (d.chunk_sha256 c) c.chunk_content_sha256 ≡ true)
    × SeenAs (chunk_by_id (partition_key c.partition) c.chunk_id t) c.chunk_sequence
        (d.chunk_sha256 c)

accept_admitted-SeenAs :
    (d : Digests) (now : Datetime) (c : R1EventChunk) (a : R1ChunkAdmission) (s s' : Store)
    (r : R1StreamDeliveryResult)
    → a.is_exact_chunk_replay ≡ false
    → accept_admitted d now c a s ≡ (ok r, s')
    → SeenAs
        (chunk_by_id (partition_key c.partition) c.chunk_id s'.tables)
        c.chunk_sequence
        (d.chunk_sha256 c)
unfolding accept_admitted
accept_admitted-SeenAs d now c a s s' r new h =
    let checked = reject_late_events now c a.new_event_ids a.latest_watermark s in
    let h' = rw new at h in
    elim (Result-split checked.0) [
      | inl (e, raised) ↦ absurd (err_ok (ap (λ x. x.0) (rw (raised, accept_admitted) at h')))
      | inr (u, returned) ↦
          let written = write_chunk d c checked.1.tables in
          let same : (written.0, record checked.1 { tables = written.1 }) ≡ (ok r, s') =
            rw (returned, accept_admitted) at h' in
          subst
            (λ x.
              SeenAs (chunk_by_id (partition_key c.partition) c.chunk_id x) c.chunk_sequence
                (d.chunk_sha256 c))
            (ap (λ x. x.1.tables) same)
            (write_chunk-SeenAs d c checked.1.tables r (ap (λ x. x.0) same))
    ]

pub accept_chunk-Known :
    (d : Digests) (now : Datetime) (c : R1EventChunk) (s s' : Store) (r : R1StreamDeliveryResult)
    → accept_chunk d now c s ≡ (ok r, s')
    → KnownChunk d c s'.tables
unfolding accept_chunk accept_admitted
accept_chunk-Known d now c s s' r h =
    let p = partition_key c.partition in
    let sha = d.chunk_sha256 c in
    let inspected =
      inspect_chunk_admission p c.chunk_id c.chunk_sequence sha (event_digests d c)
        (event_records c) s.tables in
    elim (Bool-cases (string_eq.beq sha c.chunk_content_sha256)) [
      | inr differs ↦ absurd (err_ok (ap (λ x. x.0) (rw differs at h)))
      | inl matches ↦
          let h' = rw matches at h in
          elim (Result-split inspected) [
            | inl (e, raised) ↦ absurd (err_ok (ap (λ x. x.0) (rw (raised, accept_chunk) at h')))
            | inr (a, admitted) ↦
                let h'' : accept_admitted d now c a s ≡ (ok r, s') =
                  rw (admitted, accept_chunk) at h' in
                elim (inspect-cases p c.chunk_id c.chunk_sequence sha (event_digests d c)
                  (event_records c) s.tables a admitted) [
                    | inl (replay, seen) ↦
                        let kept : (ok (delivery_result false []), s) ≡ (ok r, s') =
                          ap (λ x. accept_admitted d now c x s) (sym replay) ∙ h'' in
                        (
                          matches,
                          subst (λ x. SeenAs (chunk_by_id p c.chunk_id x) c.chunk_sequence sha)
                              (ap (λ x. x.1.tables) kept) seen,
                        )
                    | inr (unknown, admits) ↦
                        (matches, accept_admitted-SeenAs d now c a s s' r admits.not_replay h'')
                  ]
          ]
    ]

pub accept_chunk_again :
    (d : Digests) (now : Datetime) (c : R1EventChunk) (s : Store)
    → KnownChunk d c s.tables
    → accept_chunk d now c s ≡ (ok (delivery_result false []), s)
unfolding accept_chunk inspect_chunk_admission accept_admitted
accept_chunk_again d now c s (matches, (x, found, same)) =
    rw matches (rw (found, inspect_chunk_admission) (rw same refl))

-- Watermarks.

highest-All :
    (rows : List WatermarkRow) (r : WatermarkRow)
    → All IsReadable rows
    → highest rows ≡ some r
    → IsReadable r
unfolding highest
highest-All [] r h e = absurd (none-some e)
highest-All (x ∷ rows) r h e = elim (Option-cases (highest rows)) [
  | inl nothing ↦ subst IsReadable (some-inj (rw (nothing, highest) at e)) h.0
  | inr (y, found) ↦ elim (Bool-cases (leb x.watermark_sequence y.watermark_sequence)) [
    | inl below ↦
        subst IsReadable (some-inj (rw below at (rw (found, highest) at e)))
          (highest-All rows y h.1 found)
    | inr above ↦ subst IsReadable (some-inj (rw above at (rw (found, highest) at e))) h.0
  ]
]

-- Every watermark row can be read.
abbrev pub AllReadable : Tables → Type 0
AllReadable t = All IsReadable t.watermarks

pub AllReadable-Grows : (t t' : Tables) → Grows t t' → AllReadable t → AllReadable t'
AllReadable-Grows t t' g h =
    subst AllReadable (sym g.is_grown)
      (All-append IsReadable t.watermarks g.new_watermarks h g.are_readable)

abbrev pub latest_of : Option WatermarkRow → Option R1AcceptedWatermark
latest_of none = none
latest_of (some r) = some (accepted_of_row r)

pub latest_watermark_read :
    (p : PartitionKey) (t : Tables)
    → AllReadable t
    → latest_watermark p t ≡ ok (latest_of (highest (in_partition p t.watermarks)))
unfolding latest_watermark accepted_watermark_from_row
latest_watermark_read p t h = elim (Option-cases (highest (in_partition p t.watermarks))) [
  | inl nothing ↦ rw nothing refl
  | inr (r, found) ↦ rw found (
      highest-All (in_partition p t.watermarks) r
        (All-keep IsReadable (λ x. partition_eq.beq p x.partition) t.watermarks h) found)
]

pub save_watermark_again :
    (w : R1SourceWatermark) (sha : String) (t : Tables)
    → AllReadable t
    → SeenAs (watermark_by_id (partition_key w.partition) w.watermark_id t) w.watermark_sequence sha
    → save_watermark w sha t ≡ ok (false, t)
unfolding save_watermark
save_watermark_again w sha t readable (x, found, same) =
    rw (latest_watermark_read (partition_key w.partition) t readable)
      (rw (found, save_watermark) (rw same refl))
