-- ===== src/Delivery/Frozen.antt =====
-- A run that is closed stays as it is, whatever is delivered afterwards, for it or for another run.
use mathlib.Core.List.{append-nil}
use incident_awareness_engin.Delivery.Growth.{Grows}
use incident_awareness_engin.Delivery.Rows.{Tables}
use incident_awareness_engin.Delivery.Tables.{is_of_run, is_closed}
use incident_awareness_engin.Delivery.Ledger.{chunk_row, event_row}
use incident_awareness_engin.Delivery.Closing.{watermark_row, close_row}
use incident_awareness_engin.Delivery.Ingress.{Digests, Store, StreamMessage, accept}
use incident_awareness_engin.Delivery.Induct.{Keeps, accept_inv}
use incident_awareness_engin.Prelude.{
  if◌then◌else◌, Bool-cases, string_eq, any, keep, keep-append, any-append_left, true-false,
  Datetime, String, ◌≡◌, refl, sym, ap, ◌∙◌, inl, inr, Bool, true, false, List, [], ◌∷◌, ◌++◌,
}

-- The rows of a run.
abbrev pub rows_of : String → Tables → Tables
rows_of run t = record {
  chunks = keep (λ r. string_eq.beq run r.partition.0) t.chunks;
  events = keep (λ r. string_eq.beq run r.partition.0) t.events;
  watermarks = keep (λ r. string_eq.beq run r.partition.0) t.watermarks;
  closes = keep (is_of_run run) t.closes;
  position_closes = keep (λ r. string_eq.beq run r.partition.0) t.position_closes;
}

-- One more row that does not pass changes nothing of what is kept.
keep-append_one {ℓ} :
    {A : Type ℓ} (q : A → Bool) (xs : List A) (x : A)
    → q x ≡ false
    → keep q (xs ++ x ∷ []) ≡ keep q xs
keep-append_one q xs x h =
    keep-append q xs (x ∷ [])
    ∙ (ap (λ b. keep q xs ++ (if b then x ∷ [] else [])) h ∙ append-nil (keep q xs))

-- A run that is open is another one than a run that is closed.
pub other_run :
    (run run' : String) (t : Tables)
    → is_closed run t ≡ true
    → is_closed run' t ≡ false
    → string_eq.beq run run' ≡ false
other_run run run' t closed open_run = elim (Bool-cases (string_eq.beq run run')) [
  | inr apart ↦ apart
  | inl same ↦ absurd (
      true-false
        (sym closed ∙ (ap (λ x. is_closed x t) ((string_eq.beq_iff run run').0 same) ∙ open_run)))
]

-- A close is final.
pub Grows-is_closed :
    (run : String) (t t' : Tables) → Grows t t' → is_closed run t ≡ true → is_closed run t' ≡ true
unfolding is_closed
Grows-is_closed run t t' g h =
    ap (λ x. any (is_of_run run) x.closes) g.is_grown
    ∙ any-append_left (is_of_run run) t.closes g.new_closes h

-- The run is closed, with the rows that it had before.
abbrev StaysAs : String → Tables → Tables → Type 0
StaysAs run t₀ t = (is_closed run t ≡ true) × (rows_of run t ≡ rows_of run t₀)

frozen-Keeps : (run : String) (t₀ : Tables) → Keeps (StaysAs run t₀)
unfolding is_closed
frozen-Keeps run t₀ = record {
  event = λ p id sha t open_run (h : StaysAs run t₀ t). (
    h.0,
    ap (λ x. record (rows_of run t) { events = x })
          (keep-append_one (λ r. string_eq.beq run r.partition.0) t.events (event_row p id sha)
            (other_run run p.0 t h.0 open_run))
        ∙ h.1,
  );
  chunk = λ p id n sha t t' wrote (h : StaysAs run t₀ t). (
    ap (is_closed run) wrote.0 ∙ h.0,
    ap (rows_of run) wrote.0
        ∙ (ap (λ x. record (rows_of run t) { chunks = x })
              (keep-append_one (λ r. string_eq.beq run r.partition.0) t.chunks
                (chunk_row p id n sha) (other_run run p.0 t h.0 wrote.1))
            ∙ h.1),
  );
  watermark = λ w sha t t' wrote (h : StaysAs run t₀ t). (
    ap (is_closed run) wrote.0 ∙ h.0,
    ap (rows_of run) wrote.0
        ∙ (ap (λ x. record (rows_of run t) { watermarks = x })
              (keep-append_one (λ r. string_eq.beq run r.partition.0) t.watermarks
                (watermark_row w sha) (other_run run w.partition.run_id t h.0 wrote.1))
            ∙ h.1),
  );
  close = λ other_id id sha t t' wrote (h : StaysAs run t₀ t). (
    ap (is_closed run) wrote.0
        ∙ any-append_left (is_of_run run) t.closes (close_row other_id id sha ∷ []) h.0,
    ap (rows_of run) wrote.0
        ∙ (ap (λ x. record (rows_of run t) { closes = x })
              (keep-append_one (is_of_run run) t.closes (close_row other_id id sha)
                (other_run run other_id t h.0 wrote.1))
            ∙ h.1),
  );
}

-- Once a run is closed, no message changes, adds or removes a row of that run, whether its call
-- returns or raises, and whichever run it is for.
pub accept-rows_of :
    (run : String) (d : Digests) (now : Datetime) (m : StreamMessage) (s : Store)
    → is_closed run s.tables ≡ true
    → rows_of run (accept d now m s).1.tables ≡ rows_of run s.tables
accept-rows_of run d now m s closed =
    (accept_inv (StaysAs run s.tables) (frozen-Keeps run s.tables) d now m s (closed, refl)).1
