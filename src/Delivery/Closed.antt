-- ===== src/Delivery/Closed.antt =====
-- The match of a close against the latest watermarks reads only the rows of its run, so that a close that
-- was accepted can be delivered again; and the headline on every kind of message.
use incident_awareness_engin.Delivery.Rows.{
  several_runs, partition_uncovered, ChunkRow, WatermarkRow, Tables,
}
use incident_awareness_engin.Delivery.Tables.{
  is_closed, highest, accepted_watermark_from_row, latest_watermark, known_partitions,
}
use incident_awareness_engin.Delivery.Closing.{
  R1FinalPartitionWatermark, R1RunClosed, match_final, match_all, assert_final_watermarks_match,
}
use incident_awareness_engin.Delivery.Ingress.{Digests}
use incident_awareness_engin.Delivery.Marks.{SeenClose}
use incident_awareness_engin.Delivery.Frozen.{rows_of}
use incident_awareness_engin.Stream.{PartitionKey, partition_eq, partition_key}
use incident_awareness_engin.Prelude.{
  eqb, if◌then◌else◌, Bool-cases, string_eq, length, All, keep, keep-append, set_of, ok, ◌>>=◌,
  ◌>>◌, raise_if, true-false, String, ◌≡◌, refl, sym, ap, ◌∙◌, inl, inr, Bool, true, not, List, [],
  ◌∷◌, ◌++◌, map,
}

keep-keep {ℓ} :
    {A : Type ℓ} (q r : A → Bool)
    → ((x : A) → q x ≡ true → r x ≡ true)
    → (xs : List A) → keep q (keep r xs) ≡ keep q xs
keep-keep q r f [] = refl
keep-keep q r f (x ∷ xs) = elim (Bool-cases (r x)) [
  | inl inside ↦ rw inside (ap (λ ys. if q x then x ∷ ys else ys) (keep-keep q r f xs))
  | inr outside ↦ rw outside (elim (Bool-cases (q x)) [
    | inl e ↦ absurd (true-false (sym (f x e) ∙ outside))
    | inr e ↦ rw e (keep-keep q r f xs)
  ])
]

keep-map {ℓ κ} :
    {A : Type ℓ} {B : Type κ} (f : A → B) (q : B → Bool) (xs : List A)
    → keep q (map f xs) ≡ map f (keep (λ x. q (f x)) xs)
keep-map f q [] = refl
keep-map f q (x ∷ xs) = elim (Bool-cases (q (f x))) [
  | inl e ↦ rw e (ap (◌∷◌ (f x)) (keep-map f q xs))
  | inr e ↦ rw e (keep-map f q xs)
]

in_run :
    (run : String) (p q : PartitionKey)
    → p.0 ≡ run
    → partition_eq.beq p q ≡ true
    → string_eq.beq run q.0 ≡ true
in_run run p q own same =
    (string_eq.beq_iff run q.0).1 (sym own ∙ ap (λ x. x.0) ((partition_eq.beq_iff p q).0 same))

latest_watermark-rows_of :
    (run : String) (p : PartitionKey) (t : Tables)
    → p.0 ≡ run
    → latest_watermark p (rows_of run t) ≡ latest_watermark p t
unfolding latest_watermark
latest_watermark-rows_of run p t own =
    ap (λ rows. accepted_watermark_from_row (highest rows))
      (keep-keep (λ r. partition_eq.beq p r.partition) (λ r. string_eq.beq run r.partition.0)
        (λ r same. in_run run p r.partition own same) t.watermarks)

known_partitions-rows_of :
    (run : String) (t : Tables) → known_partitions run (rows_of run t) ≡ known_partitions run t
unfolding known_partitions
known_partitions-rows_of run t =
    let q = λ (p : PartitionKey). string_eq.beq run p.0 in
    let cs = λ (r : ChunkRow). r.partition in
    let ws = λ (r : WatermarkRow). r.partition in
    ap (λ ps. set_of ⦃e = partition_eq⦄ ps)
      (keep-append q (map cs (keep (λ r. q r.partition) t.chunks))
          (map ws (keep (λ r. q r.partition) t.watermarks))
        ∙ ((λ i.
              (keep-map cs q (keep (λ r. q r.partition) t.chunks)
                  ∙ (ap (map cs)
                        (keep-keep (λ r. q r.partition) (λ r. q r.partition) (λ r h. h) t.chunks)
                      ∙ sym (keep-map cs q t.chunks)))
                i
              ++ (keep-map ws q (keep (λ r. q r.partition) t.watermarks)
                    ∙ (ap (map ws) (
                          keep-keep (λ r. q r.partition) (λ r. q r.partition) (λ r h. h)
                            t.watermarks)
                        ∙ sym (keep-map ws q t.watermarks)))
                  i)
            ∙ sym (keep-append q (map cs t.chunks) (map ws t.watermarks))))

-- Each final watermark is of the run that is closed, as `R1RunClosed` checks.
abbrev pub OfRun : String → List R1FinalPartitionWatermark → Type 0
OfRun run fs = All (λ f. f.partition.run_id ≡ run) fs

match_all-rows_of :
    (run : String) (fs : List R1FinalPartitionWatermark) (t : Tables)
    → OfRun run fs
    → match_all fs (rows_of run t) ≡ match_all fs t
unfolding match_all
match_all-rows_of run [] t own = refl
match_all-rows_of run (f ∷ fs) t own = λ i.
    (latest_watermark-rows_of run (partition_key f.partition) t own.0 i >>= match_final f)
    >> match_all-rows_of run fs t own.1 i

pub assert_final-rows_of :
    (run : String) (fs : List R1FinalPartitionWatermark) (t : Tables)
    → OfRun run fs
    → assert_final_watermarks_match fs (rows_of run t) ≡ assert_final_watermarks_match fs t
unfolding assert_final_watermarks_match
assert_final-rows_of run [] t own = refl
assert_final-rows_of run (f ∷ fs) t own =
    let known : known_partitions f.partition.run_id (rows_of run t)
        ≡ known_partitions f.partition.run_id t =
      ap (λ x. known_partitions x (rows_of run t)) own.0
      ∙ (known_partitions-rows_of run t ∙ ap (λ x. known_partitions x t) (sym own.0)) in
    λ i.
      raise_if
        (not (eqb (length (set_of ⦃e = string_eq⦄ (map (λ g. g.partition.run_id) (f ∷ fs)))) 1))
        several_runs
      >> (match_all-rows_of run (f ∷ fs) t own i
          >> raise_if (not (eqb (length (known i)) (length (f ∷ fs)))) partition_uncovered)

-- The close stands in the ledger, and matches it.
abbrev pub KnownClose : Digests → R1RunClosed → Tables → Type 0
KnownClose d r t =
    SeenClose r.run_id r.close_id (d.run_closed_sha256 r) t
    × (is_closed r.run_id t ≡ true)
    × (assert_final_watermarks_match r.final_watermarks t ≡ ok tt)
