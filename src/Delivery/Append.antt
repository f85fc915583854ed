-- ===== src/Delivery/Append.antt =====
-- What a call writes: the cases of each call that returns, and that the ledger only grows.
use incident_awareness_engin.Delivery.Rows.{
  Label, chunk, DeliveryError, ChunkRow, Tables, R1StreamDelivery,
}
use incident_awareness_engin.Delivery.Tables.{
  chunk_delivery, chunk_by_id, chunk_by_sequence, is_closed, is_storable, insert_row, clash_chunk,
}
use incident_awareness_engin.Delivery.Ledger.{
  is_same, resolve_partition_conflict, unknown_sequence, closed_replay, resolve_closed_chunk_replay,
  chunk_row, unchanged, save_chunk,
}
use incident_awareness_engin.Stream.{PartitionKey}
use incident_awareness_engin.Prelude.{
  Bool-cases, any, Result, ok, err, ◌>>=◌, >>=-eq-ok, err_ok, ℕ, String, ◌≡◌, refl, ◌⊎◌, inl, inr,
  Bool, true, false, Option, none, some, List, [], ◌∷◌, ◌++◌, arith,
}

-- An insert that writes appends a row that the checks accept and no key forbids.
pub insert_row-eq-some {ℓ} :
    {A : Type ℓ} (read : A → R1StreamDelivery) (clashes : A → Bool) (r : A) (rows out : List A)
    → insert_row read clashes r rows ≡ ok (some out)
    → (out ≡ rows ++ r ∷ []) × (any clashes rows ≡ false) × (is_storable (read r) ≡ true)
unfolding insert_row
insert_row-eq-some read clashes r rows out h = (ground arith, ground arith, ground arith)

pub unchanged-eq-ok {ℓ} :
    {A : Type ℓ} (t t' : Tables) (r : Result DeliveryError A) (a : A)
    → unchanged t r ≡ ok (a, t')
    → (r ≡ ok a) × (t' ≡ t)
unchanged-eq-ok t t' (err e) a h = cc
unchanged-eq-ok t t' (ok b) a h = ground arith

-- What a query found is what was delivered before, with this sequence and content.
abbrev pub SeenAs : Result DeliveryError (Option R1StreamDelivery) → ℕ → String → Type 0
SeenAs found n sha = (x : R1StreamDelivery) × (found ≡ ok (some x)) × (is_same x n sha ≡ true)

pub resolve-SeenAs :
    (label : Label) (n : ℕ) (sha : String) (found : Result DeliveryError (Option R1StreamDelivery))
    (b : Bool)
    → (found >>= resolve_partition_conflict label n sha) ≡ ok b
    → (b ≡ false) × SeenAs found n sha
unfolding resolve_partition_conflict
resolve-SeenAs label n sha (err e) b h = absurd (err_ok h)
resolve-SeenAs label n sha (ok none) b h = absurd (err_ok h)
resolve-SeenAs label n sha (ok (some x)) b h = (ground arith, (x, refl, ground arith))

closed_replay-SeenAs :
    (p : PartitionKey) (n : ℕ) (sha : String) (t : Tables)
    (found : Result DeliveryError (Option R1StreamDelivery)) (b : Bool)
    → (found >>= closed_replay p n sha t) ≡ ok b
    → (b ≡ false) × SeenAs found n sha
closed_replay-SeenAs p n sha t (err e) b h = absurd (err_ok h)
closed_replay-SeenAs p n sha t (ok (some x)) b h = (ground arith, (x, refl, ground arith))
closed_replay-SeenAs p n sha t (ok none) b h =
    let (found, e, k) = >>=-eq-ok (chunk_by_sequence p n t) unknown_sequence h in
    absurd (unknown found k)
  where
    unknown : (found : Option R1StreamDelivery) → unknown_sequence found ≡ ok b → ⊥
    unknown none k = cc
    unknown (some x) k = cc

-- A call of `save_chunk` that returns found the chunk as it is and wrote nothing, or wrote the chunk of a run that is open, under an
-- identity and a sequence that are new.
abbrev pub WroteChunk : PartitionKey → String → ℕ → String → Tables → Tables → Type 0
WroteChunk p id n sha t t' =
    (t' ≡ record t { chunks = t.chunks ++ chunk_row p id n sha ∷ [] })
    × (is_closed p.0 t ≡ false)
    × (any (clash_chunk (chunk_row p id n sha)) t.chunks ≡ false)
    × (is_storable (chunk_delivery (chunk_row p id n sha)) ≡ true)

pub save_chunk-cases :
    (p : PartitionKey) (id : String) (n : ℕ) (sha : String) (t t' : Tables) (b : Bool)
    → save_chunk p id n sha t ≡ ok (b, t')
    → ((b ≡ false) × (t' ≡ t) × SeenAs (chunk_by_id p id t) n sha)
      ⊎ ((b ≡ true) × WroteChunk p id n sha t t')
unfolding save_chunk resolve_closed_chunk_replay
save_chunk-cases p id n sha t t' b h = elim (Bool-cases (is_closed p.0 t)) [
  | inl closed ↦
      let (replay, same) =
        unchanged-eq-ok t t' (resolve_closed_chunk_replay p id n sha t) b (rw closed at h) in
      let (known, seen) = closed_replay-SeenAs p n sha t (chunk_by_id p id t) b replay in
      inl (known, same, seen)
  | inr open_run ↦
      let (inserted, e, k) =
        >>=-eq-ok
          (insert_row chunk_delivery (clash_chunk (chunk_row p id n sha)) (chunk_row p id n sha)
            t.chunks)
          _ (rw open_run at h) in
      written inserted e k open_run
]
  where
    written :
        (inserted : Option (List ChunkRow))
        → insert_row chunk_delivery
            (clash_chunk (chunk_row p id n sha))
            (chunk_row p id n sha)
            t.chunks
          ≡ ok inserted
        → elim inserted [
          | some rows ↦ ok (true, record t { chunks = rows })
          | none ↦ unchanged t (chunk_by_id p id t >>= resolve_partition_conflict chunk n sha)
        ]
          ≡ ok (b, t')
        → is_closed p.0 t ≡ false
        → ((b ≡ false) × (t' ≡ t) × SeenAs (chunk_by_id p id t) n sha)
          ⊎ ((b ≡ true) × WroteChunk p id n sha t t')
    written none e k open_run =
        let (replay, same) =
          unchanged-eq-ok t t' (chunk_by_id p id t >>= resolve_partition_conflict chunk n sha) b
            k in
        let (known, seen) = resolve-SeenAs chunk n sha (chunk_by_id p id t) b replay in
        inl (known, same, seen)
    written (some rows) e k open_run =
        let fact =
          insert_row-eq-some chunk_delivery (clash_chunk (chunk_row p id n sha))
            (chunk_row p id n sha) t.chunks rows e in
        inr (ground arith, (ground (arith, fact), open_run, fact.1, fact.2))
