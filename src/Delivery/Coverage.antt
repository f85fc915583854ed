-- ===== src/Delivery/Coverage.antt =====
-- What the count of a close stands for: a close that is accepted names every partition of its run.
use incident_awareness_engin.Delivery.Rows.{
  several_runs, partition_uncovered, ChunkRow, WatermarkRow, Tables, R1AcceptedWatermark,
}
use incident_awareness_engin.Delivery.Tables.{
  highest, in_partition, accepted_watermark_from_row, latest_watermark, known_partitions,
}
use incident_awareness_engin.Delivery.Closing.{
  R1FinalPartitionWatermark, R1RunClosed, is_final, match_final, match_all,
  assert_final_watermarks_match,
}
use incident_awareness_engin.Delivery.Ingress.{Digests, close_run}
use incident_awareness_engin.Delivery.Induct.{close_run-eq-ok}
use incident_awareness_engin.Delivery.Closed.{OfRun}
use incident_awareness_engin.Stream.{PartitionKey, partition_eq, partition_key}
use incident_awareness_engin.Prelude.{
  eqb, eqb_iff, Bool-cases, Option-cases, Eq, string_eq, length, All, keep, contains, set_of,
  contains-append, contains-set_of, IsDistinct, IsWithin, within_of_length, ok, ◌>>=◌, raise_if,
  >>=-eq-ok, raise_if-eq-ok, >>-eq-ok, ok-inj, err_ok, none-some, true-false, suc, String, ◌≡◌,
  refl, sym, ap, ◌∙◌, ◌⊎◌, inl, inr, Bool, true, false, not, ◌||◌, Option, none, some, List, [],
  ◌∷◌, ◌++◌, map, arith,
}

-- The latest watermark of the partition is the final one.
abbrev pub Matches : R1FinalPartitionWatermark → Tables → Type 0
Matches f t =
    (w : R1AcceptedWatermark) × (latest_watermark (partition_key f.partition) t ≡ ok (some w))
    × (is_final f w ≡ true)

match_final-Matches :
    (f : R1FinalPartitionWatermark) (t : Tables)
    → (latest_watermark (partition_key f.partition) t >>= match_final f) ≡ ok tt
    → Matches f t
unfolding match_final
match_final-Matches f t h =
    let (latest, e, k) =
      >>=-eq-ok (latest_watermark (partition_key f.partition) t) (match_final f) h in
    matched latest e k
  where
    matched :
        (latest : Option R1AcceptedWatermark)
        → latest_watermark (partition_key f.partition) t ≡ ok latest
        → match_final f latest ≡ ok tt
        → Matches f t
    matched none e k = absurd (err_ok k)
    matched (some w) e k = (w, e, ground arith)

match_all-Matches :
    (fs : List R1FinalPartitionWatermark) (t : Tables)
    → match_all fs t ≡ ok tt
    → All (λ f. Matches f t) fs
unfolding match_all
match_all-Matches [] t h = tt
match_all-Matches (f ∷ fs) t h =
    let (first, rest) =
      >>-eq-ok (latest_watermark (partition_key f.partition) t >>= match_final f) (match_all fs t)
        h in
    (match_final-Matches f t first, match_all-Matches fs t rest)

contains-keep {ℓ} :
    {A : Type ℓ} ⦃e : Eq A⦄ (q : A → Bool) (a : A) (xs : List A)
    → q a ≡ true
    → contains a xs ≡ true
    → contains a (keep q xs) ≡ true
contains-keep ⦃e⦄ q a [] h k = k
contains-keep ⦃e⦄ q a (x ∷ xs) h k = elim (Bool-cases (e.beq a x)) [
  | inl same ↦
      let equal : a ≡ x = (e.beq_iff a x).0 same in rw (ap q (sym equal) ∙ h) (rw same refl)
  | inr apart ↦
      let later = contains-keep q a xs h (rw apart at k) in
      elim (Bool-cases (q x)) [ inl e' ↦ rw e' (rw apart later) | inr e' ↦ rw e' later ]
]

highest-contains :
    (p : PartitionKey) (rows : List WatermarkRow) (r : WatermarkRow)
    → highest (in_partition p rows) ≡ some r
    → contains ⦃e = partition_eq⦄ p (map (λ x. x.partition) rows) ≡ true
unfolding highest
highest-contains p [] r h = absurd (none-some h)
highest-contains p (x ∷ rows) r h = elim (Bool-cases (partition_eq.beq p x.partition)) [
  | inl same ↦ rw same refl
  | inr apart ↦ rw apart (highest-contains p rows r (rw apart at h))
]

matched-known :
    (run : String) (f : R1FinalPartitionWatermark) (t : Tables)
    → f.partition.run_id ≡ run
    → Matches f t
    → contains ⦃e = partition_eq⦄ (partition_key f.partition) (known_partitions run t) ≡ true
unfolding known_partitions latest_watermark accepted_watermark_from_row
matched-known run f t own (w, e, final) =
    let p = partition_key f.partition in
    let q = λ (x : PartitionKey). string_eq.beq run x.0 in
    let cs = map (λ (r : ChunkRow). r.partition) t.chunks in
    let ws = map (λ (r : WatermarkRow). r.partition) t.watermarks in
    elim (Option-cases (highest (in_partition p t.watermarks))) [
      | inl nothing ↦ absurd (none-some (ok-inj (rw nothing at e)))
      | inr (r, found) ↦
          contains-set_of ⦃e = partition_eq⦄ p (keep q (cs ++ ws))
          ∙ contains-keep ⦃e = partition_eq⦄ q p (cs ++ ws)
              ((string_eq.beq_iff run p.0).1 (sym own))
              (contains-append ⦃e = partition_eq⦄ p cs ws
                ∙ in_either (contains ⦃e = partition_eq⦄ p cs)
                    (highest-contains p t.watermarks r found))
    ]
  where
    in_either : (a : Bool) {b : Bool} → b ≡ true → (a || b) ≡ true
    in_either a h = ground arith

abbrev keys : List R1FinalPartitionWatermark → List PartitionKey
keys fs = map (λ f. partition_key f.partition) fs

-- One of the final watermarks is the latest one of the partition.
abbrev pub Names : PartitionKey → Tables → List R1FinalPartitionWatermark → Type 0
Names p t [] = ⊥
Names p t (f ∷ fs) = ((p ≡ partition_key f.partition) × Matches f t) ⊎ Names p t fs

named :
    (p : PartitionKey) (t : Tables) (fs : List R1FinalPartitionWatermark)
    → All (λ f. Matches f t) fs
    → contains ⦃e = partition_eq⦄ p (keys fs) ≡ true
    → Names p t fs
named p t [] m h = absurd (true-false (sym h))
named p t (f ∷ fs) m h = elim (Bool-cases (partition_eq.beq p (partition_key f.partition))) [
  | inl same ↦ inl ((partition_eq.beq_iff p (partition_key f.partition)).0 same, m.0)
  | inr apart ↦ inr (named p t fs m.1 (rw apart at h))
]

keys-IsWithin :
    (run : String) (fs : List R1FinalPartitionWatermark) (t : Tables)
    → OfRun run fs
    → All (λ f. Matches f t) fs
    → IsWithin ⦃e = partition_eq⦄ (keys fs) (known_partitions run t)
keys-IsWithin run [] t own m = tt
keys-IsWithin run (f ∷ fs) t own m =
    (matched-known run f t own.0 m.0, keys-IsWithin run fs t own.1 m.1)

length-keys : (fs : List R1FinalPartitionWatermark) → length (keys fs) ≡ length fs
length-keys [] = refl
length-keys (f ∷ fs) = ap suc (length-keys fs)

not-false : (b : Bool) → not b ≡ false → b ≡ true
not-false true h = refl
not-false false h = absurd (true-false h)

assert_final-facts :
    (run : String) (fs : List R1FinalPartitionWatermark) (t : Tables)
    → OfRun run fs
    → assert_final_watermarks_match fs t ≡ ok tt
    → All (λ f. Matches f t) fs × (length (known_partitions run t) ≡ length fs)
unfolding assert_final_watermarks_match
assert_final-facts run [] t own h = absurd (err_ok h)
assert_final-facts run (f ∷ fs) t own h =
    let runs = eqb (length (set_of ⦃e = string_eq⦄ (map (λ g. g.partition.run_id) (f ∷ fs)))) 1 in
    let count = eqb (length (known_partitions f.partition.run_id t)) (length (f ∷ fs)) in
    let (one, rest) = >>-eq-ok (raise_if (not runs) several_runs) _ h in
    let (matched, covered) =
      >>-eq-ok (match_all (f ∷ fs) t) (raise_if (not count) partition_uncovered) rest in
    let equal =
      (eqb_iff (length (known_partitions f.partition.run_id t)) (length (f ∷ fs))).0
        (not-false count (raise_if-eq-ok (not count) partition_uncovered covered)) in
    (
      match_all-Matches (f ∷ fs) t matched,
      ap (λ x. length (known_partitions x t)) (sym own.0) ∙ equal,
    )

-- On a close whose final watermarks are of its run and of distinct partitions, as its model checks: where
-- its call returns, each partition of the run that has a chunk or a watermark in the ledger is named by
-- one of them, with exactly its latest watermark.
pub close_run_covers :
    (d : Digests) (r : R1RunClosed) (t t' : Tables) (b : Bool) (p : PartitionKey)
    → OfRun r.run_id r.final_watermarks
    → IsDistinct ⦃e = partition_eq⦄ (map (λ f. partition_key f.partition) r.final_watermarks)
    → close_run d r t ≡ ok (b, t')
    → contains ⦃e = partition_eq⦄ p (known_partitions r.run_id t) ≡ true
    → Names p t r.final_watermarks
close_run_covers d r t t' b p own distinct h known =
    let fs = r.final_watermarks in
    let (matches, count) = assert_final-facts r.run_id fs t own (close_run-eq-ok d r t t' b h).0 in
    named p t fs matches (
      within_of_length ⦃e = partition_eq⦄ (keys fs) (known_partitions r.run_id t) distinct
        (keys-IsWithin r.run_id fs t own matches) (omega (arith, count, length-keys fs)) p known)
