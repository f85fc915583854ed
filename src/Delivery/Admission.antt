-- ===== src/Delivery/Admission.antt =====
-- The admission of a chunk: what `inspect_chunk_admission` went through where it returns.
use incident_awareness_engin.Delivery.Rows.{
  chunk, sequence_conflict, run_is_closed, Tables, R1StreamDelivery, R1AcceptedWatermark,
  R1ChunkAdmission,
}
use incident_awareness_engin.Delivery.Tables.{
  chunk_by_id, chunk_by_sequence, is_closed, latest_watermark,
}
use incident_awareness_engin.Delivery.Frontier.{position_close_frontier, check_position_close}
use incident_awareness_engin.Delivery.Ledger.{
  is_same, fresh_events, active_watermark, exact_replay, inspect_new_chunk, inspect_chunk_admission,
}
use incident_awareness_engin.Delivery.Append.{SeenAs}
use incident_awareness_engin.Stream.{PartitionKey}
use incident_awareness_engin.Prelude.{
  Bool-cases, ok, raise_if, >>=-eq-ok, raise_if-eq-ok, ok-inj, err_ok, true-false, Result-split, ℕ,
  String, ◌≡◌, refl, sym, ap, ◌∙◌, ◌⊎◌, inl, inr, Bool, true, false, Option, none, some, List,
}

-- What the admission of a new chunk went through.
pub record Admits (p : PartitionKey) (n : ℕ) (events : List (String × String))
    (records : List (String × Option String)) (t : Tables) (a : R1ChunkAdmission) : Type 0 where
  pub not_replay : a.is_exact_chunk_replay ≡ false
  pub run_open : is_closed p.0 t ≡ false
  pub sequence_free : chunk_by_sequence p n t ≡ ok none
  pub frontier : Option ℕ
  pub frontier_read : position_close_frontier p t ≡ ok frontier
  pub after_frontier : check_position_close events records frontier ≡ ok tt
  pub fresh : fresh_events p events t ≡ ok a.new_event_ids
  pub latest : Option R1AcceptedWatermark
  pub latest_read : latest_watermark p t ≡ ok latest
  pub active : a.latest_watermark ≡ active_watermark p t latest

is_found : Option R1StreamDelivery → Bool
is_found existing = elim existing [ none ↦ false | some d ↦ true ]

not_found : (existing : Option R1StreamDelivery) → is_found existing ≡ false → existing ≡ none
unfolding is_found
not_found none h = refl
not_found (some d) h = absurd (true-false h)

inspect_new_chunk-Admits :
    (p : PartitionKey) (n : ℕ) (events : List (String × String))
    (records : List (String × Option String)) (t : Tables) (a : R1ChunkAdmission)
    → inspect_new_chunk p n events records t ≡ ok a
    → Admits p n events records t a
unfolding inspect_new_chunk is_found
inspect_new_chunk-Admits p n events records t a h =
    let (existing, e1, h1) = >>=-eq-ok (chunk_by_sequence p n t) _ h in
    let (u1, e2, h2) = >>=-eq-ok (raise_if (is_found existing) (sequence_conflict chunk)) _ h1 in
    let (u2, e3, h3) = >>=-eq-ok (raise_if (is_closed p.0 t) (run_is_closed chunk)) _ h2 in
    let (frontier, e4, h4) = >>=-eq-ok (position_close_frontier p t) _ h3 in
    let (u3, e5, h5) = >>=-eq-ok (check_position_close events records frontier) _ h4 in
    let (ids, e6, h6) = >>=-eq-ok (fresh_events p events t) _ h5 in
    let (latest, e7, h7) = >>=-eq-ok (latest_watermark p t) _ h6 in
    let same = ok-inj h7 in
    record {
      not_replay = ap (λ x. x.is_exact_chunk_replay) (sym same);
      run_open = raise_if-eq-ok (is_closed p.0 t) (run_is_closed chunk) e3;
      sequence_free =
          e1
          ∙ ap ok (
              not_found existing (raise_if-eq-ok (is_found existing) (sequence_conflict chunk) e2));
      frontier = frontier;
      frontier_read = e4;
      after_frontier = e5;
      fresh = e6 ∙ ap (λ x. ok x.new_event_ids) same;
      latest = latest;
      latest_read = e7;
      active = ap (λ x. x.latest_watermark) (sym same);
    }

pub inspect-cases :
    (p : PartitionKey) (id : String) (n : ℕ) (sha : String) (events : List (String × String))
    (records : List (String × Option String)) (t : Tables) (a : R1ChunkAdmission)
    → inspect_chunk_admission p id n sha events records t ≡ ok a
    → ((a ≡ exact_replay) × SeenAs (chunk_by_id p id t) n sha)
      ⊎ ((chunk_by_id p id t ≡ ok none) × Admits p n events records t a)
unfolding inspect_chunk_admission
inspect-cases p id n sha events records t a h = elim (Result-split (chunk_by_id p id t)) [
  | inl (e, raised) ↦ absurd (err_ok (rw (raised, inspect_chunk_admission) at h))
  | inr (existing, found) ↦ cases existing found h
]
  where
    cases :
        (existing : Option R1StreamDelivery)
        → chunk_by_id p id t ≡ ok existing
        → inspect_chunk_admission p id n sha events records t ≡ ok a
        → ((a ≡ exact_replay) × SeenAs (chunk_by_id p id t) n sha)
          ⊎ ((chunk_by_id p id t ≡ ok none) × Admits p n events records t a)
    cases (some x) found k = elim (Bool-cases (is_same x n sha)) [
      | inl same ↦
          let replayed : ok exact_replay ≡ ok a =
            rw same at (rw (found, inspect_chunk_admission) at k) in
          inl (sym (ok-inj replayed), (x, found, same))
      | inr differs ↦ absurd (err_ok (rw differs at (rw (found, inspect_chunk_admission) at k)))
    ]
    cases none found k = inr (
      found,
      inspect_new_chunk-Admits p n events records t a (rw (found, inspect_chunk_admission) at k),
    )
