-- ===== src/Delivery/Received.antt =====
-- When a watermark is active: exactly once every chunk that it covers has been received.
use mathlib.Core.Path.{subst}
use incident_awareness_engin.Delivery.Rows.{ChunkRow, Tables, R1AcceptedWatermark}
use incident_awareness_engin.Delivery.Tables.{at_chunk_sequence, covered_sequences}
use incident_awareness_engin.Delivery.Ledger.{least, greatest, watermark_covers_received_chunks}
use incident_awareness_engin.Stream.{PartitionKey, partition_eq}
use incident_awareness_engin.Prelude.{
  leb, eqb, le→leb, eqb_iff, Bool-cases, nat_eq, length, All, any, keep, All-imp, contains, set_of,
  contains-set_of, IsDistinct, set_of-IsDistinct, IsWithin, length-le_of_within, within_of_length,
  down_from, length-down_from, contains-down_from, down_from-IsDistinct, true-false, ℕ, zero, suc,
  ◌≤◌, ◌≡◌, refl, sym, ◌∙◌, ◌↔◌, inl, inr, Bool, true, ◌&&◌, List, [], ◌∷◌, map, arith,
}

least_step :
    (n m : ℕ) (ns : List ℕ) → (least (n ∷ m ∷ ns) ≤ n) × (least (n ∷ m ∷ ns) ≤ least (m ∷ ns))
unfolding least
least_step n m ns = let k = least (m ∷ ns) in ground arith

least-le : (n : ℕ) (ns : List ℕ) → All (λ k. least (n ∷ ns) ≤ k) (n ∷ ns)
unfolding least
least-le n [] = (omega arith, tt)
least-le n (m ∷ ns) = (
  (least_step n m ns).0,
  All-imp (λ k h. omega (arith, h, (least_step n m ns).1)) (m ∷ ns) (least-le m ns),
)

greatest_step : (n : ℕ) (ns : List ℕ) → (n ≤ greatest (n ∷ ns)) × (greatest ns ≤ greatest (n ∷ ns))
unfolding greatest
greatest_step n ns = ground arith

le-greatest : (ns : List ℕ) → All (λ k. k ≤ greatest ns) ns
unfolding greatest
le-greatest [] = tt
le-greatest (n ∷ ns) = (
  (greatest_step n ns).0,
  All-imp (λ k h. omega (arith, h, (greatest_step n ns).1)) ns (le-greatest ns),
)

-- Sequences in a range are within it.
IsWithin-down_from :
    (n : ℕ) (ns : List ℕ)
    → All (λ k. 1 ≤ k) ns
    → All (λ k. k ≤ n) ns
    → IsWithin ⦃e = nat_eq⦄ ns (down_from n)
IsWithin-down_from n [] h k = tt
IsWithin-down_from n (m ∷ ns) h k =
    (contains-down_from n m ∙ rw (le→leb 1 m h.0) (le→leb m n k.0), IsWithin-down_from n ns h.1 k.1)

contains-All :
    (P : ℕ → Type 0) (k : ℕ) (ns : List ℕ) → All P ns → contains ⦃e = nat_eq⦄ k ns ≡ true → P k
contains-All P k [] h c = absurd (true-false (sym c))
contains-All P k (n ∷ ns) h c = elim (Bool-cases (eqb k n)) [
  | inl same ↦ subst P (sym ((eqb_iff k n).0 same)) h.0
  | inr apart ↦ contains-All P k ns h.1 (rw apart at c)
]

-- The tests of the code on a list without repetition hold exactly where its values are 1, ..., n.
abbrev is_full : ℕ → List ℕ → Bool
is_full n ns = eqb (length ns) n && eqb (least ns) 1 && eqb (greatest ns) n

is_full_complete :
    (n : ℕ) (ns : List ℕ)
    → IsDistinct ⦃e = nat_eq⦄ ns
    → is_full n ns ≡ true
    → (k : ℕ) → 1 ≤ k
    → k ≤ n
    → contains ⦃e = nat_eq⦄ k ns ≡ true
is_full_complete n [] d h k lo hi = ground arith
is_full_complete n (m ∷ ns) d h k lo hi =
    let ms = m ∷ ns in
    let size : length ms ≡ n = ground arith in
    let low : least ms ≡ 1 = ground arith in
    let top : greatest ms ≡ n = ground arith in
    let lows : All (λ j. 1 ≤ j) ms = All-imp (λ j l. omega (arith, l, low)) ms (least-le m ns) in
    let tops : All (λ j. j ≤ n) ms = All-imp (λ j l. omega (arith, l, top)) ms (le-greatest ms) in
    within_of_length ⦃e = nat_eq⦄ ms (down_from n) d (IsWithin-down_from n ms lows tops)
      (omega (arith, size, length-down_from n)) k
      (contains-down_from n k ∙ rw (le→leb 1 k lo) (le→leb k n hi))

greatest_bound : (n : ℕ) (ns : List ℕ) → All (λ k. k ≤ n) ns → greatest ns ≤ n
unfolding greatest
greatest_bound n [] h = omega arith
greatest_bound n (m ∷ ns) h = ground (arith, greatest_bound n ns h.1)

least_bound : (c n : ℕ) (ns : List ℕ) → All (λ k. c ≤ k) (n ∷ ns) → c ≤ least (n ∷ ns)
unfolding least
least_bound c n [] h = h.0
least_bound c n (m ∷ ns) h = ground (arith, least_bound c m ns h.1)

IsWithin-all :
    (n : ℕ) (ns : List ℕ)
    → ((k : ℕ) → 1 ≤ k → k ≤ n → contains ⦃e = nat_eq⦄ k ns ≡ true)
    → (j : ℕ) → j ≤ n
    → IsWithin ⦃e = nat_eq⦄ (down_from j) ns
IsWithin-all n ns all zero h = tt
IsWithin-all n ns all (suc j) h =
    (all (suc j) (omega arith) h, IsWithin-all n ns all j (omega arith))

is_full_sound :
    (n : ℕ) (ns : List ℕ)
    → 1 ≤ n
    → IsDistinct ⦃e = nat_eq⦄ ns
    → All (λ k. 1 ≤ k) ns
    → All (λ k. k ≤ n) ns
    → ((k : ℕ) → 1 ≤ k → k ≤ n → contains ⦃e = nat_eq⦄ k ns ≡ true)
    → is_full n ns ≡ true
is_full_sound n [] some_chunk d lows tops all =
    absurd (true-false (sym (all 1 (omega arith) some_chunk)))
is_full_sound n (m ∷ ns) some_chunk d lows tops all =
    let ms = m ∷ ns in
    let few : length ms ≤ n = omega (
      arith,
      length-le_of_within ⦃e = nat_eq⦄ ms (down_from n) d (IsWithin-down_from n ms lows tops),
      length-down_from n,
    ) in
    let many : n ≤ length ms = omega (
      arith,
      length-le_of_within ⦃e = nat_eq⦄ (down_from n) ms (down_from-IsDistinct n)
          (IsWithin-all n ms all n (omega arith)),
      length-down_from n,
    ) in
    let low : least ms ≤ 1 =
      contains-All (λ k. least ms ≤ k) 1 ms (least-le m ns) (all 1 (omega arith) some_chunk) in
    let low' : 1 ≤ least ms = least_bound 1 m ns lows in
    let top : n ≤ greatest ms =
      contains-All (λ k. k ≤ greatest ms) n ms (le-greatest ms) (all n some_chunk (omega arith)) in
    let top' : greatest ms ≤ n = greatest_bound n ms tops in ground arith

set_of-All : (P : ℕ → Type 0) (ns : List ℕ) → All P ns → All P (set_of ⦃e = nat_eq⦄ ns)
set_of-All P [] h = tt
set_of-All P (n ∷ ns) h = elim (Bool-cases (contains ⦃e = nat_eq⦄ n ns)) [
  | inl e ↦ rw e (set_of-All P ns h.1)
  | inr e ↦ rw e (h.0, set_of-All P ns h.1)
]

-- A row of the partition with that sequence.
abbrev pub IsReceived : PartitionKey → Tables → ℕ → Type 0
IsReceived p t k = any (at_chunk_sequence p k) t.chunks ≡ true

abbrev covered : PartitionKey → ℕ → List ChunkRow → List ℕ
covered p n rows =
    map (λ r. r.chunk_sequence)
      (keep (λ r. partition_eq.beq p r.partition && leb r.chunk_sequence n) rows)

covered-contains :
    (p : PartitionKey) (n k : ℕ) (rows : List ChunkRow)
    → k ≤ n
    → contains ⦃e = nat_eq⦄ k (covered p n rows) ≡ any (at_chunk_sequence p k) rows
covered-contains p n k [] h = refl
covered-contains p n k (r ∷ rows) h = ground (arith, covered-contains p n k rows h)

covered-le : (p : PartitionKey) (n : ℕ) (rows : List ChunkRow) → All (λ k. k ≤ n) (covered p n rows)
covered-le p n [] = tt
covered-le p n (r ∷ rows) =
    elim (Bool-cases (partition_eq.beq p r.partition && leb r.chunk_sequence n)) [
      | inl e ↦ rw e (ground arith, covered-le p n rows)
      | inr e ↦ rw e (covered-le p n rows)
    ]

covered-pos :
    (p : PartitionKey) (n : ℕ) (rows : List ChunkRow)
    → All (λ r. 1 ≤ r.chunk_sequence) rows
    → All (λ k. 1 ≤ k) (covered p n rows)
covered-pos p n [] h = tt
covered-pos p n (r ∷ rows) h =
    elim (Bool-cases (partition_eq.beq p r.partition && leb r.chunk_sequence n)) [
      | inl e ↦ rw e (h.0, covered-pos p n rows h.1)
      | inr e ↦ rw e (covered-pos p n rows h.1)
    ]

-- Where the sequences of the rows start from one, and the watermark covers at least one chunk: it is
-- active exactly where each chunk of its partition, from the first to the last that it covers, has been
-- received.
pub covers_iff :
    (p : PartitionKey) (w : R1AcceptedWatermark) (t : Tables)
    → All (λ r. 1 ≤ r.chunk_sequence) t.chunks
    → 1 ≤ w.covered_through_chunk_sequence
    → (watermark_covers_received_chunks p w t ≡ true)
      ↔ ((k : ℕ) → 1 ≤ k → k ≤ w.covered_through_chunk_sequence → IsReceived p t k)
unfolding watermark_covers_received_chunks covered_sequences
covers_iff p w t positive some_chunk =
    let n = w.covered_through_chunk_sequence in
    let raw = covered p n t.chunks in
    let ns = set_of ⦃e = nat_eq⦄ raw in
    let distinct = set_of-IsDistinct ⦃e = nat_eq⦄ raw in
    (
      λ h k lo hi.
          sym (covered-contains p n k t.chunks hi)
          ∙ (sym (contains-set_of ⦃e = nat_eq⦄ k raw) ∙ is_full_complete n ns distinct h k lo hi),
      λ all.
          is_full_sound n ns some_chunk distinct
            (set_of-All (λ k. 1 ≤ k) raw (covered-pos p n t.chunks positive))
            (set_of-All (λ k. k ≤ n) raw (covered-le p n t.chunks))
            (λ k lo hi.
              contains-set_of ⦃e = nat_eq⦄ k raw
              ∙ (covered-contains p n k t.chunks hi ∙ all k lo hi)),
    )
