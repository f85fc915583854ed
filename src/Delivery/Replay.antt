-- ===== src/Delivery/Replay.antt =====
-- Exactly once: what was delivered can be delivered again, after whatever else, and changes nothing.
use mathlib.Core.Path.{subst}
use incident_awareness_engin.Delivery.Rows.{row_invalid, CloseRow, Tables, R1StreamDelivery}
use incident_awareness_engin.Delivery.Tables.{
  is_readable, row_to_delivery, chunk_delivery, watermark_delivery, close_delivery, at_chunk,
  at_chunk_sequence, at_watermark, at_watermark_sequence, fetch, chunk_by_id, watermark_by_id,
  is_of_run, close_by_id, is_closed, is_storable,
}
use incident_awareness_engin.Delivery.Ledger.{is_same, has_content, chunk_row, save_chunk}
use incident_awareness_engin.Delivery.Closing.{
  watermark_row, save_watermark, close_row, save_run_close,
}
use incident_awareness_engin.Delivery.Marks.{save_watermark-cases, SeenClose, save_run_close-cases}
use incident_awareness_engin.Delivery.Append.{SeenAs, save_chunk-cases}
use incident_awareness_engin.Delivery.Growth.{Grows}
use incident_awareness_engin.Stream.{R1SourceWatermark, PartitionKey, partition_eq, partition_key}
use incident_awareness_engin.Prelude.{
  if◌then◌else◌, Option-cases, string_eq, any, find, find-append_some, find-append_none, find-none,
  any-or_left, any-and_left, ok, err, ok-inj, none-some, ℕ, String, ◌≡◌, refl, sym, ap, ◌∙◌, inl,
  inr, Bool, true, false, ◌&&◌, none, some, List, [], ◌∷◌, ◌++◌, arith,
}

-- What a query found is found again behind more rows.
query-append {ℓ} :
    {A : Type ℓ} (read : A → R1StreamDelivery) (q : A → Bool) (rows more : List A)
    (x : R1StreamDelivery)
    → row_to_delivery (fetch read (find q rows)) ≡ ok (some x)
    → row_to_delivery (fetch read (find q (rows ++ more))) ≡ ok (some x)
unfolding row_to_delivery
query-append read q rows more x h = elim (Option-cases (find q rows)) [
  | inl nothing ↦
      absurd (nothing_found (ap (λ o. row_to_delivery (fetch read o)) (sym nothing) ∙ h))
  | inr (r, found) ↦
      ap (λ o. row_to_delivery (fetch read o)) (find-append_some q rows more r found ∙ sym found)
      ∙ h
]
  where
    nothing_found : row_to_delivery none ≡ ok (some x) → ⊥
    nothing_found e = absurd (none-some (ok-inj e))

-- A row under a key that was free is found by that key.
query-new {ℓ} :
    {A : Type ℓ} (read : A → R1StreamDelivery) (q : A → Bool) (rows : List A) (r : A)
    → any q rows ≡ false
    → q r ≡ true
    → is_readable (read r) ≡ true
    → row_to_delivery (fetch read (find q (rows ++ r ∷ []))) ≡ ok (some (read r))
unfolding row_to_delivery
query-new read q rows r free own readable =
    let last : find q (r ∷ []) ≡ some r = rw own refl in
    let found : find q (rows ++ r ∷ []) ≡ some r =
      find-append_none q rows (r ∷ []) (find-none q rows free) ∙ last in
    ap (λ o. row_to_delivery (fetch read o)) found
    ∙ ap (λ c. if c then ok (some (read r)) else err row_invalid) readable

same_key : (p : PartitionKey) → partition_eq.beq p p ≡ true
same_key p = (partition_eq.beq_iff p p).1 refl

same_text : (s : String) → string_eq.beq s s ≡ true
same_text s = (string_eq.beq_iff s s).1 refl

is_same_self :
    (n : ℕ) (x : R1StreamDelivery) → x.sequence ≡ some n → is_same x n x.content_sha256 ≡ true
unfolding is_same
is_same_self n x h = rw h (rw (same_text x.content_sha256) (ground arith))

readable_of_storable : (x : R1StreamDelivery) → is_storable x ≡ true → is_readable x ≡ true
unfolding is_storable
readable_of_storable x h = ground arith

pub SeenAs-chunk :
    (p : PartitionKey) (id : String) (n : ℕ) (sha : String) (t t' : Tables)
    → Grows t t'
    → SeenAs (chunk_by_id p id t) n sha
    → SeenAs (chunk_by_id p id t') n sha
unfolding chunk_by_id
SeenAs-chunk p id n sha t t' g (x, found, same) = (
  x,
  ap (chunk_by_id p id) g.is_grown
      ∙ query-append chunk_delivery (at_chunk p id) t.chunks g.new_chunks x found,
  same,
)

pub SeenAs-watermark :
    (p : PartitionKey) (id : String) (n : ℕ) (sha : String) (t t' : Tables)
    → Grows t t'
    → SeenAs (watermark_by_id p id t) n sha
    → SeenAs (watermark_by_id p id t') n sha
unfolding watermark_by_id
SeenAs-watermark p id n sha t t' g (x, found, same) = (
  x,
  ap (watermark_by_id p id) g.is_grown
      ∙ query-append watermark_delivery (at_watermark p id) t.watermarks g.new_watermarks x found,
  same,
)

pub SeenClose-Grows :
    (run id sha : String) (t t' : Tables)
    → Grows t t'
    → SeenClose run id sha t
    → SeenClose run id sha t'
unfolding close_by_id
SeenClose-Grows run id sha t t' g (x, found, same) = (
  x,
  ap (close_by_id run id) g.is_grown
      ∙ query-append close_delivery (λ r. is_of_run run r && string_eq.beq id r.close_id) t.closes
          g.new_closes x found,
  same,
)

-- After a call that returned, the chunk stands in the ledger.
pub save_chunk-SeenAs :
    (p : PartitionKey) (id : String) (n : ℕ) (sha : String) (t t' : Tables) (b : Bool)
    → save_chunk p id n sha t ≡ ok (b, t')
    → SeenAs (chunk_by_id p id t') n sha
unfolding chunk_by_id
save_chunk-SeenAs p id n sha t t' b h = elim (save_chunk-cases p id n sha t t' b h) [
  | inl (known, same, seen) ↦ subst (λ x. SeenAs (chunk_by_id p id x) n sha) (sym same) seen
  | inr (first, (rows, open_run, free, stored)) ↦ (
    chunk_delivery (chunk_row p id n sha),
    ap (chunk_by_id p id) rows
        ∙ query-new chunk_delivery (at_chunk p id) t.chunks (chunk_row p id n sha)
            (any-or_left (at_chunk p id) (at_chunk_sequence p n) t.chunks free)
            (rw (same_key p) (same_text id))
            (readable_of_storable (chunk_delivery (chunk_row p id n sha)) stored),
    is_same_self n (chunk_delivery (chunk_row p id n sha)) refl,
  )
]

pub save_watermark-SeenAs :
    (w : R1SourceWatermark) (sha : String) (t t' : Tables) (b : Bool)
    → save_watermark w sha t ≡ ok (b, t')
    → SeenAs
        (watermark_by_id (partition_key w.partition) w.watermark_id t')
        w.watermark_sequence
        sha
unfolding watermark_by_id
save_watermark-SeenAs w sha t t' b h =
    let p = partition_key w.partition in
    elim (save_watermark-cases w sha t t' b h) [
      | inl (known, same, seen) ↦
          subst (λ x. SeenAs (watermark_by_id p w.watermark_id x) w.watermark_sequence sha)
            (sym same) seen
      | inr (first, (rows, open_run, fresh, free, stored, readable, advance)) ↦ (
        watermark_delivery (watermark_row w sha),
        ap (watermark_by_id p w.watermark_id) rows
            ∙ query-new watermark_delivery (at_watermark p w.watermark_id) t.watermarks
                (watermark_row w sha)
                (any-or_left (at_watermark p w.watermark_id)
                  (at_watermark_sequence p w.watermark_sequence) t.watermarks free)
                (rw (same_key p) (same_text w.watermark_id)) stored,
        is_same_self w.watermark_sequence (watermark_delivery (watermark_row w sha)) refl,
      )
    ]

pub save_run_close-SeenClose :
    (run id sha : String) (t t' : Tables) (b : Bool)
    → save_run_close run id sha t ≡ ok (b, t')
    → SeenClose run id sha t'
unfolding close_by_id is_closed has_content
save_run_close-SeenClose run id sha t t' b h =
    let own = λ (r : CloseRow). is_of_run run r && string_eq.beq id r.close_id in
    elim (save_run_close-cases run id sha t t' b h) [
      | inl (known, same, seen) ↦ subst (SeenClose run id sha) (sym same) seen
      | inr (first, (rows, open_run, stored)) ↦ (
        close_delivery (close_row run id sha),
        ap (close_by_id run id) rows
            ∙ query-new close_delivery own t.closes (close_row run id sha)
                (any-and_left (is_of_run run) (λ r. string_eq.beq id r.close_id) t.closes open_run)
                (rw (same_text run) (same_text id))
                (readable_of_storable (close_delivery (close_row run id sha)) stored),
        same_text sha,
      )
    ]
