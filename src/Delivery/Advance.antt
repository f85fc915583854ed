-- ===== src/Delivery/Advance.antt =====
-- The latest watermark of a partition only moves forward.
use mathlib.Core.List.{append-nil}
use mathlib.Core.Path.{subst}
use incident_awareness_engin.Delivery.Rows.{WatermarkRow, Tables, R1AcceptedWatermark}
use incident_awareness_engin.Delivery.Tables.{
  highest, in_partition, accepted_watermark_from_row, latest_watermark,
}
use incident_awareness_engin.Delivery.Closing.{watermark_row, check_advance}
use incident_awareness_engin.Delivery.Ingress.{Digests, Store, StreamMessage, accept}
use incident_awareness_engin.Delivery.Marks.{WroteWatermark}
use incident_awareness_engin.Delivery.Induct.{Keeps, accept_inv}
use incident_awareness_engin.Stream.{R1SourceWatermark, PartitionKey, partition_eq, partition_key}
use incident_awareness_engin.Prelude.{
  leb, leb→le, le→leb, leb→lt, Bool-cases, Option-cases, All, keep-append, ok, some-inj, none-some,
  Datetime, ℕ, ◌≤◌, ◌<◌, String, ◌≡◌, refl, sym, ap, ◌∙◌, ◌⊎◌, inl, inr, true, Option, none, some,
  List, [], ◌∷◌, ◌++◌, arith,
}

-- The latest watermark row of a partition.
abbrev pub latest_row : PartitionKey → Tables → Option WatermarkRow
latest_row p t = highest (in_partition p t.watermarks)

-- A latest watermark does not go back: it stays, it appears, or a higher sequence moves its time forward
-- under the same lateness.
abbrev pub Advances : Option WatermarkRow → Option WatermarkRow → Type 0
Advances none b = Unit
Advances (some a) none = ⊥
Advances (some a) (some b) =
    (a ≡ b)
    ⊎ ((a.watermark_sequence < b.watermark_sequence)
        × (a.watermark_at ≤ b.watermark_at)
        × (a.allowed_lateness_ms ≡ b.allowed_lateness_ms))

Advances-self : (a : Option WatermarkRow) → Advances a a
Advances-self none = tt
Advances-self (some a) = inl refl

Advances-trans : (a b c : Option WatermarkRow) → Advances a b → Advances b c → Advances a c
Advances-trans none b c h k = tt
Advances-trans (some a) none c h k = absurd h
Advances-trans (some a) (some b) none h k = absurd k
Advances-trans (some a) (some b) (some c) (inl e) k =
    subst (λ x. Advances (some x) (some c)) (sym e) k
Advances-trans (some a) (some b) (some c) (inr h) (inl e) =
    subst (λ x. Advances (some a) (some x)) e (inr h)
Advances-trans (some a) (some b) (some c) (inr (h1, h2, h3)) (inr (k1, k2, k3)) =
    inr (omega arith, omega arith, h3 ∙ k3)

abbrev Below : ℕ → WatermarkRow → Type 0
Below n r = r.watermark_sequence < n

-- All rows are below what the highest is below.
highest-Below :
    (n : ℕ) (rows : List WatermarkRow)
    → ((b : WatermarkRow) → highest rows ≡ some b → Below n b)
    → All (Below n) rows
unfolding highest
highest-Below n [] h = tt
highest-Below n (r ∷ rows) h = elim (Option-cases (highest rows)) [
  | inl nothing ↦ (
    h r (rw (nothing, highest) refl),
    highest-Below n rows (λ b e. absurd (none-some (sym nothing ∙ e))),
  )
  | inr (s, found) ↦ elim (Bool-cases (leb r.watermark_sequence s.watermark_sequence)) [
    | inl below ↦
        let top : Below n s = h s (rw (found, highest) (rw below refl)) in
        let le : r.watermark_sequence ≤ s.watermark_sequence = leb→le _ _ below in
        (omega arith, highest-Below n rows (λ b e. subst (Below n) (some-inj (sym found ∙ e)) top))
    | inr above ↦
        let top : Below n r = h r (rw (found, highest) (rw above refl)) in
        let lt : s.watermark_sequence < r.watermark_sequence = leb→lt _ _ above in
        (
          top,
          highest-Below n rows (λ b e. subst (Below n) (some-inj (sym found ∙ e)) (omega arith)),
        )
  ]
]

highest-append_above :
    (rows : List WatermarkRow) (w : WatermarkRow)
    → All (Below w.watermark_sequence) rows
    → highest (rows ++ w ∷ []) ≡ some w
unfolding highest
highest-append_above [] w h = refl
highest-append_above (r ∷ rows) w h =
    let le : leb r.watermark_sequence w.watermark_sequence ≡ true =
      le→leb _ _ (omega (arith, h.0)) in
    rw (highest-append_above rows w h.1) (rw le refl)

a_row_is_read : (b : WatermarkRow) → accepted_watermark_from_row (some b) ≡ ok none → ⊥
unfolding accepted_watermark_from_row
a_row_is_read b h = ground arith

accepted-Below :
    (w : R1SourceWatermark) (b : WatermarkRow) (latest : Option R1AcceptedWatermark)
    → accepted_watermark_from_row (some b) ≡ ok latest
    → check_advance w latest ≡ ok tt
    → (sha : String)
    → (b.watermark_sequence < w.watermark_sequence) × Advances (some b) (some (watermark_row w sha))
unfolding accepted_watermark_from_row check_advance
accepted-Below w b none e h sha = absurd (a_row_is_read b e)
accepted-Below w b (some a) e h sha = (ground arith, inr (ground arith, ground arith, ground arith))

-- The row that is written is the latest one of its partition.
written-latest :
    (w : R1SourceWatermark) (sha : String) (t : Tables) (latest : Option R1AcceptedWatermark)
    → latest_watermark (partition_key w.partition) t ≡ ok latest
    → check_advance w latest ≡ ok tt
    → Advances (latest_row (partition_key w.partition) t) (
        highest (in_partition (partition_key w.partition) t.watermarks ++ watermark_row w sha ∷ []))
unfolding latest_watermark
written-latest w sha t latest e h =
    let rows = in_partition (partition_key w.partition) t.watermarks in
    elim (Option-cases (highest rows)) [
      | inl nothing ↦ rw nothing tt
      | inr (b, found) ↦
          let (below, forward) =
            accepted-Below w b latest (ap accepted_watermark_from_row (sym found) ∙ e) h sha in
          let all_below =
            highest-Below w.watermark_sequence rows
              (λ c k. subst (Below w.watermark_sequence) (some-inj (sym found ∙ k)) below) in
          rw found (rw (highest-append_above rows (watermark_row w sha) all_below) forward)
    ]

Stands : PartitionKey → Option WatermarkRow → Tables → Type 0
Stands p a t = Advances a (latest_row p t)

advance_watermark :
    (p : PartitionKey) (w : R1SourceWatermark) (sha : String) (t t' : Tables)
    → WroteWatermark w sha t t'
    → Advances (latest_row p t) (latest_row p t')
advance_watermark p w sha t t' (rows, open_run, fresh, free, stored, readable, (latest, e, h)) =
    let q = partition_key w.partition in
    let all = λ (xs : List WatermarkRow). highest (in_partition p xs) in
    subst (λ x. Advances (latest_row p t) (latest_row p x)) (sym rows)
      (subst (λ xs. Advances (latest_row p t) (highest xs))
        (sym (
          keep-append (λ r. partition_eq.beq p r.partition) t.watermarks
            (watermark_row w sha ∷ [])))
        (elim (Bool-cases (partition_eq.beq p q)) [
          | inr apart ↦
              rw apart
                (rw (append-nil (in_partition p t.watermarks)) (Advances-self (latest_row p t)))
          | inl same ↦
              let equal : p ≡ q = (partition_eq.beq_iff p q).0 same in
              rw same (
                subst
                  (λ x.
                    Advances (latest_row x t)
                      (highest (in_partition x t.watermarks ++ watermark_row w sha ∷ [])))
                  (sym equal) (written-latest w sha t latest e h))
        ]))

advance-Keeps : (p : PartitionKey) (a : Option WatermarkRow) → Keeps (Stands p a)
unfolding Stands
advance-Keeps p a = record {
  event = λ q id sha t open_run h. h;
  chunk = λ q id n sha t t' wrote h. subst (λ x. Advances a (latest_row p x)) (sym wrote.0) h;
  watermark = λ w sha t t' wrote h.
      Advances-trans a (latest_row p t) (latest_row p t') h (advance_watermark p w sha t t' wrote);
  close = λ run id sha t t' wrote h. subst (λ x. Advances a (latest_row p x)) (sym wrote.0) h;
}

-- No message, whether its call returns or raises, moves the latest watermark of a partition back: it stays,
-- it appears, or a higher sequence takes its place, with a time that is not earlier and the same
-- lateness.
pub accept-Advances :
    (p : PartitionKey) (d : Digests) (now : Datetime) (m : StreamMessage) (s : Store)
    → Advances (latest_row p s.tables) (latest_row p (accept d now m s).1.tables)
unfolding Stands
accept-Advances p d now m s =
    accept_inv (Stands p (latest_row p s.tables)) (advance-Keeps p (latest_row p s.tables)) d now m
      s (Advances-self (latest_row p s.tables))
