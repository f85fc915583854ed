-- ===== src/Fusion/Result/Snapshots.antt =====
-- The snapshots of a replay by their times: a time finds the ids that its own snapshot holds.
use incident_awareness_engin.Fusion.Replay.{ReplayEvidenceSnapshot}
use incident_awareness_engin.Fusion.Result.{evidence_ids_by_timestamp}
use incident_awareness_engin.Prelude.{
  ℕ, ◌≡◌, ◌∙◌, ap, sym, Bool, true, inl, inr, List, [], ◌∷◌, some, String, eqb, arith, Bool-cases,
  All, any, Dict, lookup, insert, lookup-insert_self, lookup-insert, nat_eq, if◌then◌else◌,
}

-- A snapshot stands at this time.
abbrev pub stands_at : ℕ → List ReplayEvidenceSnapshot → Bool
stands_at t = any (λ (s : ReplayEvidenceSnapshot). eqb s.timestamp.instant t)

pub stands_head :
    (s : ReplayEvidenceSnapshot) (ss : List ReplayEvidenceSnapshot)
    → stands_at s.timestamp.instant (s ∷ ss) ≡ true
stands_head s ss = ground arith

pub stands_tail :
    (t : ℕ) (s : ReplayEvidenceSnapshot) (ss : List ReplayEvidenceSnapshot)
    → stands_at t ss ≡ true
    → stands_at t (s ∷ ss) ≡ true
stands_tail t s ss h = ground arith

-- The ids of every snapshot are a function of its time.
module _ (own : ℕ → List String) where
  abbrev pub Own : List ReplayEvidenceSnapshot → Type 0
  Own = All (λ (s : ReplayEvidenceSnapshot). s.contributing_evidence_ids ≡ own s.timestamp.instant)

  kept :
      (t : ℕ) (d : Dict ℕ (List String)) (ss : List ReplayEvidenceSnapshot)
      → Own ss
      → lookup t d ≡ some (own t)
      → lookup t (evidence_ids_by_timestamp d ss) ≡ some (own t)
  unfolding evidence_ids_by_timestamp
  kept t d [] h k = k
  kept t d (s ∷ ss) h k =
      kept t (insert s.timestamp.instant s.contributing_evidence_ids d) ss h.1
        (lookup-insert s.timestamp.instant t s.contributing_evidence_ids d ∙ written)
    where
      written :
          (if eqb t s.timestamp.instant then some s.contributing_evidence_ids else lookup t d)
          ≡ some (own t)
      written = elim (Bool-cases (eqb t s.timestamp.instant)) [
        | inl e ↦
            let same : t ≡ s.timestamp.instant = (nat_eq.beq_iff t s.timestamp.instant).0 e in
            rw e (ap some (h.0 ∙ ap own (sym same)))
        | inr e ↦ rw e k
      ]

  pub lookup-own :
      (t : ℕ) (d : Dict ℕ (List String)) (ss : List ReplayEvidenceSnapshot)
      → Own ss
      → stands_at t ss ≡ true
      → lookup t (evidence_ids_by_timestamp d ss) ≡ some (own t)
  unfolding evidence_ids_by_timestamp
  lookup-own t d [] h k = cc
  lookup-own t d (s ∷ ss) h k = elim (Bool-cases (eqb s.timestamp.instant t)) [
    | inl e ↦
        let same : s.timestamp.instant ≡ t = (nat_eq.beq_iff s.timestamp.instant t).0 e in
        kept t (insert s.timestamp.instant s.contributing_evidence_ids d) ss h.1 (
          ap (λ i. lookup t (insert i s.contributing_evidence_ids d)) same
          ∙ lookup-insert_self t s.contributing_evidence_ids d
          ∙ ap some (h.0 ∙ ap own same))
    | inr e ↦
        let later : stands_at t ss ≡ true = rw e at k in
        lookup-own t (insert s.timestamp.instant s.contributing_evidence_ids d) ss h.1 later
  ]
