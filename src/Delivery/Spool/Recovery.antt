-- ===== src/Delivery/Spool/Recovery.antt =====
-- A pass of `consume_spool_once` where acknowledgements were lost.
use mathlib.Core.Path.{subst}
use incident_awareness_engin.Delivery.Spool.Acked.{
  consume_each-acked, consume_each-consumed, also-spool,
}
use incident_awareness_engin.Delivery.Ingress.{Digests, Store, delivery_result, StreamMessage}
use incident_awareness_engin.Delivery.Spool.{
  R1RequiredPartitionContract, SpoolError, Spool, check_contract, deliver, consume_message,
  SpoolFile, is_acked, consume_file, also, consume_each, consume_spool_once,
}
use incident_awareness_engin.Delivery.Once.{AllReadable}
use incident_awareness_engin.Delivery.Exactly.{IsOwn, Known, accept-of_Known, deliver-of_Known}
use incident_awareness_engin.Prelude.{
  Bool-cases, string_order, All, sort_by, sort_by-All, Result, ok, err, ok-inj, err_ok, some-inj,
  none-some, Datetime, is_naive, String, ◌≡◌, refl, sym, ap, ◌∙◌, inl, inr, false, none, some, List,
  [], ◌∷◌,
}

-- The file holds a message that the contract lets through and that the ledger knows, and its clock has a zone.
abbrev pub IsDelivered :
    R1RequiredPartitionContract → Digests → (String → Datetime) → Store → SpoolFile → Type 0
IsDelivered contract d clock s f =
    (m : StreamMessage) × (f.1 ≡ some m)
    × (check_contract contract m ≡ ok tt)
    × IsOwn m
    × Known d m s.tables
    × (is_naive (clock f.0) ≡ false)

deliver-Known :
    (d : Digests) (now : Datetime) (m : StreamMessage) (s : Store)
    → AllReadable s.tables
    → Known d m s.tables
    → deliver d now m s ≡ (ok (delivery_result false []), s)
deliver-Known d now m s readable known =
    deliver-of_Known d now m s (accept-of_Known d now m s readable known)

consume_message-of_Known :
    (contract : R1RequiredPartitionContract) (d : Digests) (now : Datetime) (name : String)
    (m : StreamMessage) (sp : Spool)
    → check_contract contract m ≡ ok tt
    → is_naive now ≡ false
    → deliver d now m sp.stored ≡ (ok (delivery_result false []), sp.stored)
    → ((consume_message contract d now name m sp).0 ≡ ok tt)
      × ((consume_message contract d now name m sp).1.stored ≡ sp.stored)
unfolding consume_message
consume_message-of_Known contract d now name m sp passed zoned again =
    let returned = ap (λ x. x.0) again in
    (
      rw (passed, consume_message)
          (rw (returned, consume_message) (rw (zoned, consume_message) refl)),
      rw (passed, consume_message)
          (rw (returned, consume_message) (rw (zoned, consume_message) (ap (λ x. x.1) again))),
    )

consume_file-of_IsDelivered :
    (contract : R1RequiredPartitionContract) (d : Digests) (clock : String → Datetime)
    (file : SpoolFile) (sp : Spool)
    → AllReadable sp.stored.tables
    → IsDelivered contract d clock sp.stored file
    → ((consume_file contract d (clock file.0) file sp).0 ≡ ok tt)
      × ((consume_file contract d (clock file.0) file sp).1.stored ≡ sp.stored)
consume_file-of_IsDelivered contract d clock (name, none) sp readable
      (m, is, passed, own, known, zoned) =
    absurd (none-some is)
consume_file-of_IsDelivered contract d clock (name, some m') sp readable
      (m, is, passed, own, known, zoned) =
    let same = some-inj is in
    consume_message-of_Known contract d (clock name) name m' sp
      (ap (check_contract contract) same ∙ passed) zoned
      (deliver-Known d (clock name) m' sp.stored readable
        (subst (λ x. Known d x sp.stored.tables) (sym same) known))

also-ok :
    (name : String) (answer : Result SpoolError (List String) × Spool) (rest : List String)
    → answer.0 ≡ ok rest
    → (also name answer).0 ≡ ok (name ∷ rest)
also-ok name (err e, sp) rest h = absurd (err_ok h)
also-ok name (ok names, sp) rest h = ap (λ x. ok (name ∷ x)) (ok-inj h)

consume_each_recovers :
    (contract : R1RequiredPartitionContract) (d : Digests) (clock : String → Datetime) (s : Store)
    (files : List SpoolFile) (sp : Spool)
    → AllReadable s.tables
    → All (IsDelivered contract d clock s) files
    → sp.stored ≡ s
    → ((names : List String) × ((consume_each contract d clock files sp).0 ≡ ok names))
      × ((consume_each contract d clock files sp).1.stored ≡ s)
unfolding consume_each
consume_each_recovers contract d clock s [] sp readable h same = (([], refl), same)
consume_each_recovers contract d clock s (file ∷ files) sp readable h same =
    let answer = consume_file contract d (clock file.0) file sp in
    elim (Bool-cases (is_acked file.0 sp)) [
      | inl acked ↦
          let go = consume_each-acked contract d clock file files sp acked in
          let ((names, returned), kept) =
            consume_each_recovers contract d clock s files sp readable h.1 same in
          ((names, ap (λ x. x.0) go ∙ returned), ap (λ x. x.1.stored) go ∙ kept)
      | inr new ↦
          let (through, stays) =
            consume_file-of_IsDelivered contract d clock file sp
              (subst (λ (x : Store). AllReadable x.tables) (sym same) readable)
              (subst (λ x. IsDelivered contract d clock x file) (sym same) h.0) in
          let go = consume_each-consumed contract d clock file files sp new through in
          let later = consume_each contract d clock files answer.1 in
          let ((names, returned), kept) =
            consume_each_recovers contract d clock s files answer.1 readable h.1 (stays ∙ same) in
          (
            (file.0 ∷ names, ap (λ x. x.0) go ∙ also-ok file.0 later names returned),
            ap (λ x. x.1.stored) go ∙ (ap (λ x. x.stored) (also-spool file.0 later) ∙ kept),
          )
    ]

-- Recovery. Where the process stopped after a commit and before its acknowledgement, the ledger knows
-- messages that are not acknowledged. Where it knows the message of each file of the outbox, the contract
-- lets them through, the closes name watermarks of their own run only, the clock has a zone and the
-- watermark rows can be read: whatever acknowledgements are left, a pass returns and leaves the ledger
-- and the dead letters as they are.
pub consume_spool_once_recovers :
    (contract : R1RequiredPartitionContract) (d : Digests) (clock : String → Datetime)
    (outbox : List SpoolFile) (sp : Spool)
    → AllReadable sp.stored.tables
    → All (IsDelivered contract d clock sp.stored) outbox
    → ((names : List String) × ((consume_spool_once contract d clock outbox sp).0 ≡ ok names))
      × ((consume_spool_once contract d clock outbox sp).1.stored ≡ sp.stored)
unfolding consume_spool_once
consume_spool_once_recovers contract d clock outbox sp readable delivered =
    consume_each_recovers contract d clock sp.stored
      (sort_by ⦃o = string_order⦄ (λ (f : SpoolFile). f.0) outbox) sp readable
      (sort_by-All ⦃o = string_order⦄ (λ (f : SpoolFile). f.0)
        (IsDelivered contract d clock sp.stored) outbox delivered)
      refl
