-- ===== src/Delivery/Position/Saved.antt =====
-- What `save_position_close` went through where it returns.
use mathlib.Core.Path.{subst}
use incident_awareness_engin.Delivery.Rows.{PositionCloseRow, Tables}
use incident_awareness_engin.Delivery.PositionClose.{
  digest_differs, run_invalid, entry_invalid, R1RecordPositionClose, R1PositionReceipt,
  R1PositionCloseAdmission, PositionDigests, make_receipt,
}
use incident_awareness_engin.Delivery.Position.{
  receipt_of_row, of_position_run, load_position_receipt, resolve_replay,
  require_committed_covered_chunks, position_row, is_storable_position, insert_position, admit,
  write_position, save_position_close,
}
use incident_awareness_engin.Prelude.{
  ltb, Bool-cases, string_eq, any, ok, ◌>>=◌, ◌>>◌, raise_if, >>=-eq-ok, raise_if-eq-ok, ok-inj,
  err_ok, some-inj, none-some, Result-split, is_blank, is_padded, Datetime, is_naive, ℕ, String,
  ◌≡◌, sym, ap, ◌∙◌, ◌⊎◌, inl, inr, Bool, true, false, not, ◌||◌, none, some, [], ◌∷◌, ◌++◌, arith,
}
use incident_awareness_engin.Stream.{partition_eq, partition_key}

-- A close that is accepted: the ledger had none of its run, and now has this one.
pub record Stores (d : PositionDigests) (c : R1RecordPositionClose) (sha : String)
    (accepted_at : Datetime) (entry : ℕ) (t : Tables) (a : R1PositionCloseAdmission) (t' : Tables)
    : Type 0 where
  pub is_accepted : a.accepted ≡ true
  pub receipt_is :
      make_receipt (record (receipt_of_row (position_row entry accepted_at.instant sha c)) {
        run_id = c.run_id;
      })
      ≡ ok a.receipt
  pub entry_is_positive : ltb entry 1 ≡ false
  pub run_is_plain : (is_blank c.run_id || is_padded c.run_id) ≡ false
  pub covers : require_committed_covered_chunks d c t ≡ ok tt
  pub row_is_storable : is_storable_position (position_row entry accepted_at.instant sha c) ≡ true
  pub is_new : any (of_position_run c.partition.run_id) t.position_closes ≡ false
  pub tables_are : t' ≡ record t {
    position_closes = t.position_closes ++ position_row entry accepted_at.instant sha c ∷ [];
  }

-- A close that stands in the ledger.
pub record Stands (d : PositionDigests) (c : R1RecordPositionClose) (t : Tables)
    (a : R1PositionCloseAdmission) (t' : Tables) : Type 0 where
  pub not_accepted : a.accepted ≡ false
  pub loaded : load_position_receipt c.run_id t ≡ ok (some a.receipt)
  pub resolved : resolve_replay d c a.receipt ≡ ok a.receipt
  pub tables_kept : t' ≡ t

insert_position-eq-some :
    (r : PositionCloseRow) (t t' : Tables)
    → insert_position r t ≡ ok (some t')
    → (is_storable_position r ≡ true)
      × (any (of_position_run r.partition.0) t.position_closes ≡ false)
      × (t' ≡ record t { position_closes = t.position_closes ++ r ∷ [] })
unfolding insert_position
insert_position-eq-some r t t' h = elim (Bool-cases (is_storable_position r)) [
  | inr refused ↦ absurd (err_ok (rw refused at h))
  | inl stored ↦ elim (Bool-cases (any (of_position_run r.partition.0) t.position_closes)) [
    | inl clash ↦ absurd (none-some (ok-inj (rw clash at (rw stored at h))))
    | inr free ↦ (stored, free, sym (some-inj (ok-inj (rw free at (rw stored at h)))))
  ]
]

resolve_replay-eq-ok :
    (d : PositionDigests) (c : R1RecordPositionClose) (r r' : R1PositionReceipt)
    → resolve_replay d c r ≡ ok r'
    → r' ≡ r
unfolding resolve_replay
resolve_replay-eq-ok d c r r' h =
    let (u1, e1, h1) = >>=-eq-ok (raise_if (not (string_eq.beq r.close_id c.close_id)) _) _ h in
    let (u2, e2, h2) =
      >>=-eq-ok (raise_if (not (partition_eq.beq r.partition (partition_key c.partition))) _) _
        h1 in
    let (u3, e3, h3) =
      >>=-eq-ok (raise_if (not (string_eq.beq r.close_content_sha256 (d.close_sha256 c))) _) _ h2 in
    sym (ok-inj h3)

pub passes_of_check : (b : Bool) → not b ≡ false → b ≡ true
passes_of_check b h = ground arith

write_position-Stores :
    (d : PositionDigests) (c : R1RecordPositionClose) (sha : String) (accepted_at : Datetime)
    (entry : ℕ) (t : Tables) (a : R1PositionCloseAdmission) (t' : Tables)
    → (is_blank c.run_id || is_padded c.run_id) ≡ false
    → load_position_receipt c.run_id t ≡ ok none
    → require_committed_covered_chunks d c t ≡ ok tt
    → write_position d c sha accepted_at entry t ≡ ok (a, t')
    → Stores d c sha accepted_at entry t a t'
unfolding write_position
write_position-Stores d c sha accepted_at entry t a t' plain loaded covers h =
    let row = position_row entry accepted_at.instant sha c in
    let receipt = record (receipt_of_row row) { run_id = c.run_id } in
    elim (Result-split (insert_position row t)) [
      | inl (e, raised) ↦ absurd (err_ok (rw (raised, write_position) at h))
      | inr (none, inserted) ↦ absurd (err_ok (rw loaded at (rw (inserted, write_position) at h)))
      | inr (some t1, inserted) ↦
          let (storable, new, written) = insert_position-eq-some row t t1 inserted in
          let k : (raise_if (ltb entry 1 || is_naive accepted_at) entry_invalid
                >> (make_receipt receipt >>= λ r. ok (admit true t1 r)))
              ≡ ok (a, t') =
            rw (inserted, write_position) at h in
          let (u, checked, k1) =
            >>=-eq-ok (raise_if (ltb entry 1 || is_naive accepted_at) entry_invalid) _ k in
          let (r, made, k2) = >>=-eq-ok (make_receipt receipt) _ k1 in
          let valid = raise_if-eq-ok (ltb entry 1 || is_naive accepted_at) entry_invalid checked in
          let answer = ok-inj k2 in
          record {
            is_accepted = ap (λ x. x.0.accepted) (sym answer);
            receipt_is = made ∙ ap (λ x. ok x.0.receipt) answer;
            entry_is_positive = ground arith;
            run_is_plain = plain;
            covers = covers;
            row_is_storable = storable;
            is_new = new;
            tables_are = sym (ap (λ x. x.1) answer) ∙ written;
          }
    ]

pub save_position_close-cases :
    (d : PositionDigests) (c : R1RecordPositionClose) (sha : String) (accepted_at : Datetime)
    (entry : ℕ) (t : Tables) (a : R1PositionCloseAdmission) (t' : Tables)
    → save_position_close d c sha accepted_at entry t ≡ ok (a, t')
    → (string_eq.beq sha (d.close_sha256 c) ≡ true)
      × (Stands d c t a t' ⊎ Stores d c sha accepted_at entry t a t')
unfolding save_position_close load_position_receipt
save_position_close-cases d c sha accepted_at entry t a t' h =
    let matches = string_eq.beq sha (d.close_sha256 c) in
    let (u, checked, h1) = >>=-eq-ok (raise_if (not matches) digest_differs) _ h in
    (
      passes_of_check matches (raise_if-eq-ok (not matches) digest_differs checked),
      elim (Result-split (load_position_receipt c.run_id t)) [
        | inl (e, raised) ↦ absurd (err_ok (rw (raised, save_position_close) at h1))
        | inr (some r, loaded) ↦
            let k : (resolve_replay d c r >>= λ r'. ok (admit false t r')) ≡ ok (a, t') =
              rw (loaded, save_position_close) at h1 in
            let (r', resolved, k1) = >>=-eq-ok (resolve_replay d c r) _ k in
            let answer = ok-inj k1 in
            let same : r ≡ a.receipt =
              sym (resolve_replay-eq-ok d c r r' resolved) ∙ ap (λ x. x.0.receipt) answer in
            inl (record {
              not_accepted = ap (λ x. x.0.accepted) (sym answer);
              loaded = loaded ∙ ap (λ x. ok (some x)) same;
              resolved =
                  subst (λ x. resolve_replay d c x ≡ ok x) same
                    (resolved ∙ ap ok (resolve_replay-eq-ok d c r r' resolved));
              tables_kept = ap (λ x. x.1) (sym answer);
            })
        | inr (none, loaded) ↦
            let k : (require_committed_covered_chunks d c t
                  >> write_position d c sha accepted_at entry t)
                ≡ ok (a, t') =
              rw (loaded, save_position_close) at h1 in
            let (u1, covers, k1) = >>=-eq-ok (require_committed_covered_chunks d c t) _ k in
            let (u2, unpadded, l1) =
              >>=-eq-ok (raise_if (is_blank c.run_id || is_padded c.run_id) run_invalid) _ loaded in
            inr (
              write_position-Stores d c sha accepted_at entry t a t'
                (raise_if-eq-ok (is_blank c.run_id || is_padded c.run_id) run_invalid unpadded)
                loaded covers k1)
      ],
    )
