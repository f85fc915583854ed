-- ===== src/Delivery/Position/Again.antt =====
-- A position close that was accepted, delivered again.
use incident_awareness_engin.Model.RunId.{validate_run_id}
use mathlib.Core.Path.{subst}
use incident_awareness_engin.Delivery.Ingress.{Digests, Store, StreamMessage}
use incident_awareness_engin.Delivery.Rows.{PositionCloseRow, Tables}
use incident_awareness_engin.Delivery.PositionClose.{
  bound_inverted, partition_not_of_run, R1RecordPositionClose, R1PositionReceipt,
  R1PositionCloseAdmission, PositionDigests, validate_close, is_identity, from_model,
  validate_partition, make_receipt,
}
use incident_awareness_engin.Delivery.Contract.{is_sha256}
use incident_awareness_engin.Delivery.Position.{
  receipt_of_row, of_position_run, read_position, load_position_receipt, resolve_replay,
  position_row, admit, save_position_close,
}
use incident_awareness_engin.Delivery.Transaction.{deliver_all, deliver_all-Grows}
use incident_awareness_engin.Delivery.Position.Saved.{Stores, save_position_close-cases}
use incident_awareness_engin.Stream.{partition_eq, partition_key}
use incident_awareness_engin.Prelude.{
  ltb, eqb, string_eq, find, find-append_none, find-none, ok, raise_if, >>=-eq-ok, raise_if-eq-ok,
  ok-inj, is_blank, is_padded, Datetime, ℕ, ◌%◌, String, ◌≡◌, refl, sym, ap, ◌∙◌, inl, inr, true,
  false, not, ◌||◌, some, List, [], ◌∷◌, arith,
}

make_receipt-eq-ok :
    (r r' : R1PositionReceipt)
    → make_receipt r ≡ ok r'
    → (validate_partition r.partition ≡ ok tt) × (r' ≡ r)
unfolding make_receipt
make_receipt-eq-ok r r' h =
    let (u1, e1, h1) = >>=-eq-ok (raise_if (not (is_identity r.run_id)) _) _ h in
    let (u2, e2, h2) = >>=-eq-ok (from_model (validate_run_id r.run_id)) _ h1 in
    let (u3, e3, h3) = >>=-eq-ok (validate_partition r.partition) _ h2 in
    let (u4, e4, h4) =
      >>=-eq-ok
        (raise_if
          (not (is_identity r.close_id)
            || not (is_sha256 r.close_content_sha256)
            || ltb r.ledger_entry_id 1
            || not (eqb (r.accepted_at % 1000) 0))
          _)
        _ h3 in
    let (u5, e5, h5) = >>=-eq-ok (raise_if (not (string_eq.beq r.partition.0 r.run_id)) _) _ h4 in
    (e3, sym (ok-inj h5))

pub run_of_close :
    (c : R1RecordPositionClose) → validate_close c ≡ ok tt → c.partition.run_id ≡ c.run_id
unfolding validate_close
run_of_close c h =
    let (u1, e1, h1) =
      >>=-eq-ok (raise_if (ltb c.upper_record_id c.lower_record_id) bound_inverted) _ h in
    let (u2, e2, h2) =
      >>=-eq-ok (raise_if (not (string_eq.beq c.partition.run_id c.run_id)) partition_not_of_run) _
        h1 in
    let same = raise_if-eq-ok (not (string_eq.beq c.partition.run_id c.run_id)) _ e2 in
    (string_eq.beq_iff c.partition.run_id c.run_id).0 (ground arith)

-- The ledger has a row of its run: it is the first.
pub stored_row :
    (d : PositionDigests) (c : R1RecordPositionClose) (sha : String) (accepted_at : Datetime)
    (entry : ℕ) (t : Tables) (a : R1PositionCloseAdmission) (t' : Tables)
    → Stores d c sha accepted_at entry t a t'
    → find (of_position_run c.partition.run_id) t'.position_closes
      ≡ some (position_row entry accepted_at.instant sha c)
stored_row d c sha accepted_at entry t a t' stores =
    let run = c.partition.run_id in
    let row = position_row entry accepted_at.instant sha c in
    ap (λ (x : Tables). find (of_position_run run) x.position_closes) stores.tables_are
    ∙ (find-append_none (of_position_run run) t.position_closes (row ∷ [])
          (find-none (of_position_run run) t.position_closes stores.is_new)
        ∙ rw ((string_eq.beq_iff run run).1 refl) refl)

read_of_made :
    (row : PositionCloseRow) (r : R1PositionReceipt)
    → validate_partition row.partition ≡ ok tt
    → ltb row.ledger_entry_id 1 ≡ false
    → make_receipt (receipt_of_row row) ≡ ok r
    → read_position (some row) ≡ ok (some r)
read_of_made row r valid positive made = rw (valid, positive, made) refl

load_of_found :
    (run : String) (t : Tables) (row : PositionCloseRow)
    → (is_blank run || is_padded run) ≡ false
    → find (of_position_run run) t.position_closes ≡ some row
    → load_position_receipt run t ≡ read_position (some row)
unfolding load_position_receipt
load_of_found run t row plain found = rw (plain, found) refl

load_of_stored :
    (d : PositionDigests) (c : R1RecordPositionClose) (sha : String) (accepted_at : Datetime)
    (entry : ℕ) (t : Tables) (a : R1PositionCloseAdmission) (t' : Tables)
    → c.partition.run_id ≡ c.run_id
    → Stores d c sha accepted_at entry t a t'
    → load_position_receipt c.run_id t' ≡ ok (some a.receipt)
load_of_stored d c sha accepted_at entry t a t' same stores =
    let row = position_row entry accepted_at.instant sha c in
    let found : find (of_position_run c.run_id) t'.position_closes ≡ some row =
      ap (λ x. find (of_position_run x) t'.position_closes) (sym same)
      ∙ stored_row d c sha accepted_at entry t a t' stores in
    let (valid, is) =
      make_receipt-eq-ok (record (receipt_of_row row) { run_id = c.run_id }) a.receipt
        stores.receipt_is in
    let made : make_receipt (receipt_of_row row) ≡ ok a.receipt =
      ap (λ x. make_receipt (record (receipt_of_row row) { run_id = x })) same
      ∙ stores.receipt_is in
    load_of_found c.run_id t' row stores.run_is_plain found
    ∙ read_of_made row a.receipt valid stores.entry_is_positive made

resolve_of_stored :
    (d : PositionDigests) (c : R1RecordPositionClose) (sha : String) (accepted_at : Datetime)
    (entry : ℕ) (t : Tables) (a : R1PositionCloseAdmission) (t' : Tables)
    → string_eq.beq sha (d.close_sha256 c) ≡ true
    → Stores d c sha accepted_at entry t a t'
    → resolve_replay d c a.receipt ≡ ok a.receipt
unfolding resolve_replay
resolve_of_stored d c sha accepted_at entry t a t' matches stores =
    let row = position_row entry accepted_at.instant sha c in
    let (valid, is) =
      make_receipt-eq-ok (record (receipt_of_row row) { run_id = c.run_id }) a.receipt
        stores.receipt_is in
    subst (λ x. resolve_replay d c x ≡ ok x) (sym is)
      (rw
        (
          (string_eq.beq_iff c.close_id c.close_id).1 refl,
          (partition_eq.beq_iff (partition_key c.partition) (partition_key c.partition)).1 refl,
          matches,
        )
        refl)

save_of_loaded :
    (d : PositionDigests) (c : R1RecordPositionClose) (sha : String) (accepted_at : Datetime)
    (entry : ℕ) (t : Tables) (r : R1PositionReceipt)
    → string_eq.beq sha (d.close_sha256 c) ≡ true
    → load_position_receipt c.run_id t ≡ ok (some r)
    → resolve_replay d c r ≡ ok r
    → save_position_close d c sha accepted_at entry t ≡ ok (admit false t r)
unfolding save_position_close
save_of_loaded d c sha accepted_at entry t r matches loaded resolved =
    rw (matches, loaded, resolved) refl

-- What a position close that returned leaves: a receipt that binds it.
pub binds_after :
    (d : PositionDigests) (c : R1RecordPositionClose) (sha : String) (accepted_at : Datetime)
    (entry : ℕ) (t : Tables) (a : R1PositionCloseAdmission) (t' : Tables)
    → c.partition.run_id ≡ c.run_id
    → save_position_close d c sha accepted_at entry t ≡ ok (a, t')
    → (string_eq.beq sha (d.close_sha256 c) ≡ true)
      × (load_position_receipt c.run_id t' ≡ ok (some a.receipt))
      × (resolve_replay d c a.receipt ≡ ok a.receipt)
binds_after d c sha accepted_at entry t a t' same h =
    let (matches, which) = save_position_close-cases d c sha accepted_at entry t a t' h in
    elim which [
      | inl stands ↦ (
        matches,
        ap (load_position_receipt c.run_id) stands.tables_kept ∙ stands.loaded,
        stands.resolved,
      )
      | inr stores ↦ (
        matches,
        load_of_stored d c sha accepted_at entry t a t' same stores,
        resolve_of_stored d c sha accepted_at entry t a t' matches stores,
      )
    ]

load_position_receipt-closes :
    (run : String) (t t' : Tables)
    → t'.position_closes ≡ t.position_closes
    → load_position_receipt run t' ≡ load_position_receipt run t
unfolding load_position_receipt
load_position_receipt-closes run t t' h = rw h refl

-- A position close that its models accept and whose call returned can be delivered again after any
-- messages, at any time and with whatever entry the column would generate: the call returns the same
-- receipt, not as accepted, and changes nothing.
pub save_position_close_again :
    (d : PositionDigests) (digests : Digests) (c : R1RecordPositionClose) (sha : String)
    (accepted_at accepted_at' : Datetime) (entry entry' : ℕ) (s : Store) (t' : Tables)
    (a : R1PositionCloseAdmission) (ms : List (Datetime × StreamMessage))
    → validate_close c ≡ ok tt
    → save_position_close d c sha accepted_at entry s.tables ≡ ok (a, t')
    → save_position_close d c sha accepted_at' entry'
        (deliver_all digests ms (record s { tables = t' })).tables
      ≡ ok (
        record { accepted = false; receipt = a.receipt },
        (deliver_all digests ms (record s { tables = t' })).tables,
      )
save_position_close_again d digests c sha accepted_at accepted_at' entry entry' s t' a ms valid h =
    let s' = record s { tables = t' } in
    let t'' = (deliver_all digests ms s').tables in
    let (matches, loaded, resolved) =
      binds_after d c sha accepted_at entry s.tables a t' (run_of_close c valid) h in
    let grows = deliver_all-Grows digests ms s' in
    let kept : t''.position_closes ≡ t'.position_closes =
      ap (λ (x : Tables). x.position_closes) grows.is_grown in
    save_of_loaded d c sha accepted_at' entry' t'' a.receipt matches
      (load_position_receipt-closes c.run_id t' t'' kept ∙ loaded) resolved
