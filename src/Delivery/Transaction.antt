-- ===== src/Delivery/Transaction.antt =====
-- Messages in transactions, one after the other: the ledger grows, and a closed run stays as it is.
use mathlib.Core.Path.{subst}
use incident_awareness_engin.Delivery.Tables.{is_closed}
use incident_awareness_engin.Delivery.Ingress.{
  Digests, R1StreamDeliveryResult, Store, StreamMessage, accept,
}
use incident_awareness_engin.Delivery.Spool.{deliver}
use incident_awareness_engin.Delivery.Growth.{Grows, Grows-self, Grows-trans, accept-Grows}
use incident_awareness_engin.Delivery.Frozen.{rows_of, Grows-is_closed, accept-rows_of}
use incident_awareness_engin.Prelude.{
  ok, err_ok, Result-split, Datetime, String, ◌≡◌, refl, sym, ap, ◌∙◌, ◌⊎◌, inl, inr, true, List,
  [], ◌∷◌,
}

-- What a transaction leaves.
pub deliver-cases :
    (d : Digests) (now : Datetime) (m : StreamMessage) (s : Store)
    → ((deliver d now m s).1.tables ≡ s.tables)
      ⊎ ((deliver d now m s).1.tables ≡ (accept d now m s).1.tables)
unfolding deliver
deliver-cases d now m s = elim (Result-split (accept d now m s).0) [
  | inl (e, raised) ↦ inl (rw (raised, deliver) refl)
  | inr (r, returned) ↦ inr (rw (returned, deliver) refl)
]

pub deliver-eq-ok :
    (d : Digests) (now : Datetime) (m : StreamMessage) (s s' : Store) (r : R1StreamDeliveryResult)
    → deliver d now m s ≡ (ok r, s')
    → accept d now m s ≡ (ok r, s')
unfolding deliver
deliver-eq-ok d now m s s' r h = elim (Result-split (accept d now m s).0) [
  | inl (e, raised) ↦ absurd (err_ok (ap (λ x. x.0) (rw (raised, deliver) at h)))
  | inr (q, returned) ↦
      let same : (ok q, (accept d now m s).1) ≡ (ok r, s') = rw (returned, deliver) at h in
      λ i. ((returned ∙ ap (λ x. x.0) same) i, (same i).1)
]

pub deliver-Grows :
    (d : Digests) (now : Datetime) (m : StreamMessage) (s : Store)
    → Grows s.tables (deliver d now m s).1.tables
deliver-Grows d now m s = elim (deliver-cases d now m s) [
  | inl kept ↦ Grows-self s.tables (deliver d now m s).1.tables kept
  | inr written ↦ subst (Grows s.tables) (sym written) (accept-Grows d now m s)
]

pub deliver-rows_of :
    (run : String) (d : Digests) (now : Datetime) (m : StreamMessage) (s : Store)
    → is_closed run s.tables ≡ true
    → rows_of run (deliver d now m s).1.tables ≡ rows_of run s.tables
deliver-rows_of run d now m s closed = elim (deliver-cases d now m s) [
  | inl kept ↦ ap (rows_of run) kept
  | inr written ↦ ap (rows_of run) written ∙ accept-rows_of run d now m s closed
]

-- The store after so many deliveries, each at the time that its clock said.
abbrev pub deliver_all : Digests → List (Datetime × StreamMessage) → Store → Store
deliver_all d [] s = s
deliver_all d ((now, m) ∷ ms) s = deliver_all d ms (deliver d now m s).1

pub deliver_all-Grows :
    (d : Digests) (ms : List (Datetime × StreamMessage)) (s : Store)
    → Grows s.tables (deliver_all d ms s).tables
deliver_all-Grows d [] s = Grows-self s.tables s.tables refl
deliver_all-Grows d ((now, m) ∷ ms) s =
    Grows-trans s.tables (deliver d now m s).1.tables
      (deliver_all d ms (deliver d now m s).1).tables (deliver-Grows d now m s)
      (deliver_all-Grows d ms (deliver d now m s).1)

pub deliver_all-rows_of :
    (run : String) (d : Digests) (ms : List (Datetime × StreamMessage)) (s : Store)
    → is_closed run s.tables ≡ true
    → rows_of run (deliver_all d ms s).tables ≡ rows_of run s.tables
deliver_all-rows_of run d [] s closed = refl
deliver_all-rows_of run d ((now, m) ∷ ms) s closed =
    let s' = (deliver d now m s).1 in
    deliver_all-rows_of run d ms s'
      (Grows-is_closed run s.tables s'.tables (deliver-Grows d now m s) closed)
    ∙ deliver-rows_of run d now m s closed
