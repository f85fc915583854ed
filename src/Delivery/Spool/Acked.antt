-- ===== src/Delivery/Spool/Acked.antt =====
-- The loop of `consume_spool_once`: what is acknowledged stays so and is in the ledger, and a second pass has
-- nothing to do.
use mathlib.Core.Path.{subst}
use incident_awareness_engin.Delivery.Spool.Step.{consume_message-Consumed}
use incident_awareness_engin.Delivery.Ingress.{Digests, Store, StreamMessage}
use incident_awareness_engin.Delivery.Rows.{Tables}
use incident_awareness_engin.Delivery.Spool.{
  R1RequiredPartitionContract, SpoolError, Ack, Spool, deliver, SpoolFile, is_acked, consume_file,
  also, consume_each,
}
use incident_awareness_engin.Delivery.Transaction.{deliver-eq-ok, deliver-Grows}
use incident_awareness_engin.Delivery.Once.{AllReadable, AllReadable-Grows}
use incident_awareness_engin.Delivery.Exactly.{IsOwn, Known, accept-Known, Known-kept}
use incident_awareness_engin.Prelude.{
  Bool-cases, string_eq, All, All-append, All-imp, any-append_left, Result, ok, err, Result-split,
  Datetime, String, ◌≡◌, refl, sym, inl, inr, true, false, Option, none, some, List, [], ◌∷◌,
}

-- The content of an acknowledged file is a message that the ledger knows.
abbrev pub Knows : Digests → Option StreamMessage → Tables → Type 0
Knows d none t = ⊥
Knows d (some m) t = IsOwn m × Known d m t

abbrev pub IsOwnFile : Option StreamMessage → Type 0
IsOwnFile none = Unit
IsOwnFile (some m) = IsOwn m

pub record Sound (d : Digests) (content : String → Option StreamMessage) (sp : Spool) : Type 0 where
  pub readable : AllReadable sp.stored.tables
  pub known : All (λ a. Knows d (content a.name) sp.stored.tables) sp.acks

Knows-deliver :
    (d : Digests) (now : Datetime) (m : StreamMessage) (s : Store) (x : Option StreamMessage)
    → Knows d x s.tables
    → Knows d x (deliver d now m s).1.tables
Knows-deliver d now m s none h = h
Knows-deliver d now m s (some m') (own, known) = (own, Known-kept d m' ((now, m) ∷ []) s own known)

Sound-deliver :
    (d : Digests) (content : String → Option StreamMessage) (now : Datetime) (m : StreamMessage)
    (sp : Spool)
    → Sound d content sp
    → Sound d content (record sp { stored = (deliver d now m sp.stored).1 })
Sound-deliver d content now m sp sound = record {
  readable =
      AllReadable-Grows sp.stored.tables (deliver d now m sp.stored).1.tables
        (deliver-Grows d now m sp.stored) sound.readable;
  known = All-imp (λ a k. Knows-deliver d now m sp.stored (content a.name) k) sp.acks sound.known;
}

pub Sound-consume_file :
    (contract : R1RequiredPartitionContract) (d : Digests) (content : String → Option StreamMessage)
    (now : Datetime) (name : String) (x : Option StreamMessage) (sp : Spool)
    → content name ≡ x
    → IsOwnFile x
    → Sound d content sp
    → Sound d content (consume_file contract d now (name, x) sp).1
Sound-consume_file contract d content now name none sp is own sound = sound
Sound-consume_file contract d content now name (some m) sp is own sound =
    let sound' = Sound-deliver d content now m sp sound in
    elim (consume_message-Consumed contract d now name m sp) [
      | inl (e, raised, kept) ↦ subst (Sound d content) (sym kept) sound
      | inr (inl (e, raised, left)) ↦ subst (Sound d content) (sym left) sound'
      | inr (inr (r, accepted_at, returned, delivered, left)) ↦
          let s' = (deliver d now m sp.stored).1 in
          let ack : Ack = record {
            name = name;
            disposition = r.disposition;
            accepted_at = accepted_at;
          } in
          let known : Known d m s'.tables =
            accept-Known d now m sp.stored s' r (deliver-eq-ok d now m sp.stored s' r delivered) in
          subst (Sound d content) (sym left) (record {
            readable = sound'.readable;
            known =
                All-append (λ (a : Ack). Knows d (content a.name) s'.tables) sp.acks (ack ∷ [])
                  sound'.known (subst (λ y. Knows d y s'.tables) (sym is) (own, known), tt);
          })
    ]

-- The loop on a file that is acknowledged, on one that raises, and on one that goes through.
pub consume_each-acked :
    (contract : R1RequiredPartitionContract) (d : Digests) (clock : String → Datetime)
    (file : SpoolFile) (files : List SpoolFile) (sp : Spool)
    → is_acked file.0 sp ≡ true
    → consume_each contract d clock (file ∷ files) sp ≡ consume_each contract d clock files sp
unfolding consume_each
consume_each-acked contract d clock file files sp acked = rw acked refl

pub consume_each-raised :
    (contract : R1RequiredPartitionContract) (d : Digests) (clock : String → Datetime)
    (file : SpoolFile) (files : List SpoolFile) (sp : Spool) (e : SpoolError)
    → is_acked file.0 sp ≡ false
    → (consume_file contract d (clock file.0) file sp).0 ≡ err e
    → consume_each contract d clock (file ∷ files) sp
      ≡ (err e, (consume_file contract d (clock file.0) file sp).1)
unfolding consume_each
consume_each-raised contract d clock file files sp e new raised = rw new (rw raised refl)

pub consume_each-consumed :
    (contract : R1RequiredPartitionContract) (d : Digests) (clock : String → Datetime)
    (file : SpoolFile) (files : List SpoolFile) (sp : Spool)
    → is_acked file.0 sp ≡ false
    → (consume_file contract d (clock file.0) file sp).0 ≡ ok tt
    → consume_each contract d clock (file ∷ files) sp
      ≡ also file.0
          (consume_each contract d clock files (consume_file contract d (clock file.0) file sp).1)
unfolding consume_each
consume_each-consumed contract d clock file files sp new returned = rw new (rw returned refl)

pub also-spool :
    (name : String) (answer : Result SpoolError (List String) × Spool)
    → (also name answer).1 ≡ answer.1
also-spool name (err e, sp) = refl
also-spool name (ok names, sp) = refl

-- A rule for the loop: what each file keeps, the loop keeps, whether it returns or raises.
pub consume_each-inv :
    (P : Spool → Type 0) (contract : R1RequiredPartitionContract) (d : Digests)
    (clock : String → Datetime) (files : List SpoolFile) (sp : Spool)
    → All (λ f. (sp : Spool) → P sp → P (consume_file contract d (clock f.0) f sp).1) files
    → P sp
    → P (consume_each contract d clock files sp).1
unfolding consume_each
consume_each-inv P contract d clock [] sp keeps h = h
consume_each-inv P contract d clock (file ∷ files) sp keeps h =
    let answer = consume_file contract d (clock file.0) file sp in
    elim (Bool-cases (is_acked file.0 sp)) [
      | inl acked ↦
          subst (λ x. P x.1) (sym (consume_each-acked contract d clock file files sp acked))
            (consume_each-inv P contract d clock files sp keeps.1 h)
      | inr new ↦ elim (Result-split answer.0) [
        | inl (e, raised) ↦
            subst (λ x. P x.1)
              (sym (consume_each-raised contract d clock file files sp e new raised)) (keeps.0 sp h)
        | inr (u, returned) ↦
            subst (λ x. P x.1)
              (sym (consume_each-consumed contract d clock file files sp new returned))
              (subst P (sym (also-spool file.0 (consume_each contract d clock files answer.1)))
                (consume_each-inv P contract d clock files answer.1 keeps.1 (keeps.0 sp h)))
      ]
    ]

pub is_acked-consume_file :
    (contract : R1RequiredPartitionContract) (d : Digests) (now : Datetime) (file : SpoolFile)
    (name : String) (sp : Spool)
    → is_acked name sp ≡ true
    → is_acked name (consume_file contract d now file sp).1 ≡ true
unfolding is_acked
is_acked-consume_file contract d now (name', none) name sp h = h
is_acked-consume_file contract d now (name', some m) name sp h =
    elim (consume_message-Consumed contract d now name' m sp) [
      | inl (e, raised, kept) ↦ rw kept h
      | inr (inl (e, raised, left)) ↦ rw left h
      | inr (inr (r, accepted_at, returned, delivered, left)) ↦ rw left (
          any-append_left (λ (a : Ack). string_eq.beq name a.name) sp.acks
            (record { name = name'; disposition = r.disposition; accepted_at = accepted_at } ∷ [])
            h)
    ]
