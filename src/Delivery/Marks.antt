-- ===== src/Delivery/Marks.antt =====
-- What `save_watermark` and `save_run_close` found and wrote where they return.
use incident_awareness_engin.Delivery.Append.{
  resolve-SeenAs, insert_row-eq-some, unchanged-eq-ok, SeenAs,
}
use incident_awareness_engin.Delivery.Rows.{
  watermark, DeliveryError, identity_conflict, sequence_conflict, run_is_closed, WatermarkRow,
  CloseRow, Tables, R1StreamDelivery, R1AcceptedWatermark,
}
use incident_awareness_engin.Delivery.Tables.{
  is_readable, watermark_delivery, close_delivery, watermark_by_id, watermark_by_sequence,
  close_by_id, is_closed, is_storable, insert_row, clash_watermark, clash_close, accepted_of_row,
  accepted_watermark_from_row, latest_watermark,
}
use incident_awareness_engin.Delivery.Ledger.{
  is_same, has_content, resolve_partition_conflict, unchanged,
}
use incident_awareness_engin.Delivery.Closing.{
  watermark_row, check_advance, binding_fits, insert_watermark, write_watermark, save_new_watermark,
  save_watermark, close_row, replayed_close, save_run_close,
}
use incident_awareness_engin.Stream.{R1SourceWatermark, partition_key}
use incident_awareness_engin.Prelude.{
  if◌then◌else◌, Bool-cases, any, Result, ok, err, ◌>>=◌, raise_if, >>=-eq-ok, raise_if-eq-ok,
  err_ok, String, ◌≡◌, refl, ◌⊎◌, inl, inr, Bool, true, false, Option, none, some, List, [], ◌∷◌,
  ◌++◌, arith,
}

-- A watermark row that `_accepted_watermark_from_row` reads.
abbrev pub IsReadable : WatermarkRow → Type 0
IsReadable r = accepted_watermark_from_row (some r) ≡ ok (some (accepted_of_row r))

-- A call of `save_watermark` that returns found the watermark as it is and wrote nothing, or wrote a watermark of an open run under an identity and
-- a sequence that are new, which passed the tests against the latest one.
abbrev pub WroteWatermark : R1SourceWatermark → String → Tables → Tables → Type 0
WroteWatermark w sha t t' =
    (t' ≡ record t { watermarks = t.watermarks ++ watermark_row w sha ∷ [] })
    × (is_closed w.partition.run_id t ≡ false)
    × (watermark_by_id (partition_key w.partition) w.watermark_id t ≡ ok none)
    × (any (clash_watermark (watermark_row w sha)) t.watermarks ≡ false)
    × (is_readable (watermark_delivery (watermark_row w sha)) ≡ true)
    × IsReadable (watermark_row w sha)
    × ((latest : Option R1AcceptedWatermark) × (latest_watermark (partition_key w.partition) t
          ≡ ok latest)
        × (check_advance w latest ≡ ok tt))

pub insert_watermark-eq-some :
    (w : R1SourceWatermark) (sha : String) (t : Tables) (rows : List WatermarkRow)
    → insert_watermark w sha t ≡ ok (some rows)
    → (rows ≡ t.watermarks ++ watermark_row w sha ∷ [])
      × (any (clash_watermark (watermark_row w sha)) t.watermarks ≡ false)
      × (is_readable (watermark_delivery (watermark_row w sha)) ≡ true)
      × IsReadable (watermark_row w sha)
unfolding insert_watermark is_storable is_readable accepted_watermark_from_row
insert_watermark-eq-some w sha t rows h = elim (Bool-cases (binding_fits w)) [
  | inr refused ↦ absurd (err_ok (rw refused at h))
  | inl fitting ↦
      let fact =
        insert_row-eq-some watermark_delivery (clash_watermark (watermark_row w sha))
          (watermark_row w sha) t.watermarks rows (rw fitting at h) in
      (fact.0, fact.1, ground (arith, fact.2), ground (arith, fact.2))
]

pub write_watermark-cases :
    (w : R1SourceWatermark) (sha : String) (t t' : Tables) (b : Bool)
    → write_watermark w sha t ≡ ok (b, t')
    → ((b ≡ false)
        × (t' ≡ t)
        × SeenAs
            (watermark_by_id (partition_key w.partition) w.watermark_id t)
            w.watermark_sequence
            sha)
      ⊎ ((b ≡ true)
          × (t' ≡ record t { watermarks = t.watermarks ++ watermark_row w sha ∷ [] })
          × (any (clash_watermark (watermark_row w sha)) t.watermarks ≡ false)
          × (is_readable (watermark_delivery (watermark_row w sha)) ≡ true)
          × IsReadable (watermark_row w sha))
unfolding write_watermark
write_watermark-cases w sha t t' b h =
    let (inserted, e, k) = >>=-eq-ok (insert_watermark w sha t) _ h in written inserted e k
  where
    written :
        (inserted : Option (List WatermarkRow))
        → insert_watermark w sha t ≡ ok inserted
        → elim inserted [
          | some rows ↦ ok (true, record t { watermarks = rows })
          | none ↦ unchanged t (
              watermark_by_id (partition_key w.partition) w.watermark_id t
              >>= resolve_partition_conflict watermark w.watermark_sequence sha)
        ]
          ≡ ok (b, t')
        → ((b ≡ false)
            × (t' ≡ t)
            × SeenAs
                (watermark_by_id (partition_key w.partition) w.watermark_id t)
                w.watermark_sequence
                sha)
          ⊎ ((b ≡ true)
              × (t' ≡ record t { watermarks = t.watermarks ++ watermark_row w sha ∷ [] })
              × (any (clash_watermark (watermark_row w sha)) t.watermarks ≡ false)
              × (is_readable (watermark_delivery (watermark_row w sha)) ≡ true)
              × IsReadable (watermark_row w sha))
    written none e k =
        let found = watermark_by_id (partition_key w.partition) w.watermark_id t in
        let (replay, same) =
          unchanged-eq-ok t t'
            (found >>= resolve_partition_conflict watermark w.watermark_sequence sha) b k in
        let (known, seen) = resolve-SeenAs watermark w.watermark_sequence sha found b replay in
        inl (known, same, seen)
    written (some rows) e k =
        let fact = insert_watermark-eq-some w sha t rows e in
        inr (ground arith, ground (arith, fact), fact.1, fact.2, fact.3)

pub save_new_watermark-cases :
    (w : R1SourceWatermark) (sha : String) (latest : Option R1AcceptedWatermark) (t t' : Tables)
    (b : Bool)
    → save_new_watermark w sha latest t ≡ ok (b, t')
    → (is_closed w.partition.run_id t ≡ false)
      × (check_advance w latest ≡ ok tt)
      × (write_watermark w sha t ≡ ok (b, t'))
unfolding save_new_watermark
save_new_watermark-cases w sha latest t t' b h =
    let (u, open_run, h1) =
      >>=-eq-ok (raise_if (is_closed w.partition.run_id t) (run_is_closed watermark)) _ h in
    let (existing, e, h2) =
      >>=-eq-ok (watermark_by_sequence (partition_key w.partition) w.watermark_sequence t) _ h1 in
    let (u', fresh, h3) =
      >>=-eq-ok
        (raise_if (elim existing [ none ↦ false | some d ↦ true ]) (sequence_conflict watermark)) _
        h2 in
    let (u'', advance, h4) = >>=-eq-ok (check_advance w latest) _ h3 in
    (raise_if-eq-ok _ _ open_run, advance, h4)

pub save_watermark-cases :
    (w : R1SourceWatermark) (sha : String) (t t' : Tables) (b : Bool)
    → save_watermark w sha t ≡ ok (b, t')
    → ((b ≡ false)
        × (t' ≡ t)
        × SeenAs
            (watermark_by_id (partition_key w.partition) w.watermark_id t)
            w.watermark_sequence
            sha)
      ⊎ ((b ≡ true) × WroteWatermark w sha t t')
unfolding save_watermark
save_watermark-cases w sha t t' b h =
    let (latest, newest, h1) = >>=-eq-ok (latest_watermark (partition_key w.partition) t) _ h in
    let (existing, known, h2) =
      >>=-eq-ok (watermark_by_id (partition_key w.partition) w.watermark_id t) _ h1 in
    cases latest existing newest known h2
  where
    cases :
        (latest : Option R1AcceptedWatermark) (existing : Option R1StreamDelivery)
        → latest_watermark (partition_key w.partition) t ≡ ok latest
        → watermark_by_id (partition_key w.partition) w.watermark_id t ≡ ok existing
        → elim existing [
          | none ↦ save_new_watermark w sha latest t
          | some d ↦
              if is_same d w.watermark_sequence sha
              then ok (false, t)
              else err (identity_conflict watermark)
        ]
          ≡ ok (b, t')
        → ((b ≡ false)
            × (t' ≡ t)
            × SeenAs
                (watermark_by_id (partition_key w.partition) w.watermark_id t)
                w.watermark_sequence
                sha)
          ⊎ ((b ≡ true) × WroteWatermark w sha t t')
    cases latest (some d) newest known k =
        inl (ground arith, ground arith, (d, known, ground arith))
    cases latest none newest known k =
        let (open_run, advance, written) = save_new_watermark-cases w sha latest t t' b k in
        elim (write_watermark-cases w sha t t' b written) [
          | inl same ↦ inl same
          | inr (first, rows, free, stored, readable) ↦
              inr
                (first, (rows, open_run, known, free, stored, readable, (latest, newest, advance)))
        ]

-- A call of `save_run_close` that returns found the close as it is and wrote nothing, or wrote the first
-- close of the run.
abbrev pub SeenClose : String → String → String → Tables → Type 0
SeenClose run id sha t =
    (x : R1StreamDelivery) × (close_by_id run id t ≡ ok (some x)) × (has_content x sha ≡ true)

pub replayed_close-SeenClose :
    (sha : String) (found : Result DeliveryError (Option R1StreamDelivery)) (b : Bool)
    → (found >>= replayed_close sha) ≡ ok b
    → (b ≡ false) × ((x : R1StreamDelivery) × (found ≡ ok (some x)) × (has_content x sha ≡ true))
replayed_close-SeenClose sha (err e) b h = absurd (err_ok h)
replayed_close-SeenClose sha (ok none) b h = absurd (err_ok h)
replayed_close-SeenClose sha (ok (some x)) b h = (ground arith, (x, refl, ground arith))

abbrev pub WroteClose : String → String → String → Tables → Tables → Type 0
WroteClose run id sha t t' =
    (t' ≡ record t { closes = t.closes ++ close_row run id sha ∷ [] })
    × (is_closed run t ≡ false)
    × (is_storable (close_delivery (close_row run id sha)) ≡ true)

pub save_run_close-cases :
    (run id sha : String) (t t' : Tables) (b : Bool)
    → save_run_close run id sha t ≡ ok (b, t')
    → ((b ≡ false) × (t' ≡ t) × SeenClose run id sha t) ⊎ ((b ≡ true) × WroteClose run id sha t t')
unfolding save_run_close is_closed
save_run_close-cases run id sha t t' b h =
    let (inserted, e, k) =
      >>=-eq-ok
        (insert_row close_delivery (clash_close (close_row run id sha)) (close_row run id sha)
          t.closes)
        _ h in
    written inserted e k
  where
    written :
        (inserted : Option (List CloseRow))
        → insert_row close_delivery
            (clash_close (close_row run id sha))
            (close_row run id sha)
            t.closes
          ≡ ok inserted
        → elim inserted [
          | some rows ↦ ok (true, record t { closes = rows })
          | none ↦ unchanged t (close_by_id run id t >>= replayed_close sha)
        ]
          ≡ ok (b, t')
        → ((b ≡ false) × (t' ≡ t) × SeenClose run id sha t)
          ⊎ ((b ≡ true) × WroteClose run id sha t t')
    written none e k =
        let (replay, same) =
          unchanged-eq-ok t t' (close_by_id run id t >>= replayed_close sha) b k in
        let (known, seen) = replayed_close-SeenClose sha (close_by_id run id t) b replay in
        inl (known, same, seen)
    written (some rows) e k =
        let fact =
          insert_row-eq-some close_delivery (clash_close (close_row run id sha))
            (close_row run id sha) t.closes rows e in
        inr (ground arith, (ground (arith, fact), fact.1, fact.2))
