-- ===== src/Delivery/Spool/Passes.antt =====
-- Passes of `consume_spool_once` over an outbox.
use mathlib.Core.Path.{subst}
use incident_awareness_engin.Delivery.Spool.Step.{consume_message-Consumed}
use incident_awareness_engin.Delivery.Spool.Acked.{
  IsOwnFile, Sound, Sound-consume_file, consume_each-acked, consume_each-raised,
  consume_each-consumed, also-spool, consume_each-inv, is_acked-consume_file,
}
use incident_awareness_engin.Delivery.Ingress.{Digests, StreamMessage}
use incident_awareness_engin.Delivery.Spool.{
  R1RequiredPartitionContract, SpoolError, Ack, Spool, SpoolFile, is_acked, consume_file, also,
  consume_each, consume_spool_once,
}
use incident_awareness_engin.Prelude.{
  Bool-cases, string_eq, string_order, All, All-imp, sort_by, sort_by-All, any-append_last, Result,
  ok, err, err_ok, Result-split, Datetime, String, ◌≡◌, refl, sym, ap, ◌∙◌, inl, inr, true, Option,
  none, some, List, [], ◌∷◌,
}

-- The files of an outbox, where `content` says what each holds.
abbrev pub IsOutbox : (String → Option StreamMessage) → List SpoolFile → Type 0
IsOutbox content outbox = All (λ f. (content f.0 ≡ f.1) × IsOwnFile f.1) outbox

-- Where the acknowledgements of a spool are of messages that the ledger knows, and its watermark rows can
-- be read, they are after a pass over an outbox whose closes name watermarks of their own run only,
-- whether the pass returns or raises, and whatever of it was rolled back.
pub consume_spool_once-Sound :
    (contract : R1RequiredPartitionContract) (d : Digests) (clock : String → Datetime)
    (content : String → Option StreamMessage) (outbox : List SpoolFile) (sp : Spool)
    → IsOutbox content outbox
    → Sound d content sp
    → Sound d content (consume_spool_once contract d clock outbox sp).1
unfolding consume_spool_once
consume_spool_once-Sound contract d clock content outbox sp files sound =
    let sorted = sort_by ⦃o = string_order⦄ (λ (f : SpoolFile). f.0) outbox in
    consume_each-inv (Sound d content) contract d clock sorted sp
      (All-imp
        (λ f h sp' k. Sound-consume_file contract d content (clock f.0) f.0 f.1 sp' h.0 h.1 k)
        sorted
        (sort_by-All ⦃o = string_order⦄ (λ (f : SpoolFile). f.0)
          (λ f. (content f.0 ≡ f.1) × IsOwnFile f.1) outbox files))
      sound

is_acked-consume_each :
    (contract : R1RequiredPartitionContract) (d : Digests) (clock : String → Datetime)
    (name : String) (files : List SpoolFile) (sp : Spool)
    → is_acked name sp ≡ true
    → is_acked name (consume_each contract d clock files sp).1 ≡ true
is_acked-consume_each contract d clock name files sp h =
    consume_each-inv (λ sp'. is_acked name sp' ≡ true) contract d clock files sp (keeps files) h
  where
    keeps :
        (fs : List SpoolFile)
        → All
            (λ f.
              (sp' : Spool)
              → is_acked name sp' ≡ true
              → is_acked name (consume_file contract d (clock f.0) f sp').1 ≡ true)
            fs
    keeps [] = tt
    keeps (f ∷ fs) = (λ sp' k. is_acked-consume_file contract d (clock f.0) f name sp' k, keeps fs)

-- A file that goes through is acknowledged.
consume_file-is_acked :
    (contract : R1RequiredPartitionContract) (d : Digests) (now : Datetime) (name : String)
    (x : Option StreamMessage) (sp : Spool)
    → (consume_file contract d now (name, x) sp).0 ≡ ok tt
    → is_acked name (consume_file contract d now (name, x) sp).1 ≡ true
unfolding is_acked
consume_file-is_acked contract d now name none sp h = absurd (err_ok h)
consume_file-is_acked contract d now name (some m) sp h =
    elim (consume_message-Consumed contract d now name m sp) [
      | inl (e, raised, kept) ↦ absurd (err_ok (sym raised ∙ h))
      | inr (inl (e, raised, left)) ↦ absurd (err_ok (sym raised ∙ h))
      | inr (inr (r, accepted_at, returned, delivered, left)) ↦ rw left (
          any-append_last (λ (a : Ack). string_eq.beq name a.name) sp.acks
            (record { name = name; disposition = r.disposition; accepted_at = accepted_at })
            ((string_eq.beq_iff name name).1 refl))
    ]

also-eq-ok :
    (name : String) (answer : Result SpoolError (List String) × Spool) (names : List String)
    → (also name answer).0 ≡ ok names
    → (rest : List String) × (answer.0 ≡ ok rest)
also-eq-ok name (err e, sp) names h = absurd (err_ok h)
also-eq-ok name (ok rest, sp) names h = (rest, refl)

AllAcked : List SpoolFile → Spool → Type 0
AllAcked files sp = All (λ f. is_acked f.0 sp ≡ true) files

consume_each-AllAcked :
    (contract : R1RequiredPartitionContract) (d : Digests) (clock : String → Datetime)
    (files : List SpoolFile) (sp : Spool) (names : List String)
    → (consume_each contract d clock files sp).0 ≡ ok names
    → AllAcked files (consume_each contract d clock files sp).1
unfolding AllAcked
consume_each-AllAcked contract d clock [] sp names h = tt
consume_each-AllAcked contract d clock (file ∷ files) sp names h =
    let answer = consume_file contract d (clock file.0) file sp in
    elim (Bool-cases (is_acked file.0 sp)) [
      | inl acked ↦
          let go = consume_each-acked contract d clock file files sp acked in
          subst (λ x. AllAcked (file ∷ files) x.1) (sym go)
            (
              is_acked-consume_each contract d clock file.0 files sp acked,
              consume_each-AllAcked contract d clock files sp names (ap (λ x. x.0) (sym go) ∙ h),
            )
      | inr new ↦ elim (Result-split answer.0) [
        | inl (e, raised) ↦
            let go = consume_each-raised contract d clock file files sp e new raised in
            absurd (err_ok (ap (λ x. x.0) (sym go) ∙ h))
        | inr (u, returned) ↦
            let go = consume_each-consumed contract d clock file files sp new returned in
            let (rest, k) =
              also-eq-ok file.0 (consume_each contract d clock files answer.1) names
                (ap (λ x. x.0) (sym go) ∙ h) in
            subst (λ x. AllAcked (file ∷ files) x.1) (sym go)
              (subst (AllAcked (file ∷ files))
                (sym (also-spool file.0 (consume_each contract d clock files answer.1)))
                (
                  is_acked-consume_each contract d clock file.0 files answer.1
                      (consume_file-is_acked contract d (clock file.0) file.0 file.1 sp returned),
                  consume_each-AllAcked contract d clock files answer.1 rest k,
                ))
      ]
    ]

consume_each-of_AllAcked :
    (contract : R1RequiredPartitionContract) (d : Digests) (clock : String → Datetime)
    (files : List SpoolFile) (sp : Spool)
    → AllAcked files sp
    → consume_each contract d clock files sp ≡ (ok [], sp)
unfolding consume_each AllAcked
consume_each-of_AllAcked contract d clock [] sp h = refl
consume_each-of_AllAcked contract d clock (file ∷ files) sp h =
    consume_each-acked contract d clock file files sp h.0
    ∙ consume_each-of_AllAcked contract d clock files sp h.1

-- After a pass that returned, a pass over the same outbox has nothing to do, whatever the contract, the
-- digests and the clock are then: it returns no file and changes neither the ledger nor the
-- acknowledgements.
pub consume_spool_once_again :
    (contract contract' : R1RequiredPartitionContract) (d d' : Digests)
    (clock clock' : String → Datetime) (outbox : List SpoolFile) (sp sp' : Spool)
    (names : List String)
    → consume_spool_once contract d clock outbox sp ≡ (ok names, sp')
    → consume_spool_once contract' d' clock' outbox sp' ≡ (ok [], sp')
unfolding consume_spool_once
consume_spool_once_again contract contract' d d' clock clock' outbox sp sp' names h =
    let sorted = sort_by ⦃o = string_order⦄ (λ (f : SpoolFile). f.0) outbox in
    consume_each-of_AllAcked contract' d' clock' sorted sp' (
      subst (AllAcked sorted) (ap (λ x. x.1) h)
        (consume_each-AllAcked contract d clock sorted sp names (ap (λ x. x.0) h)))
