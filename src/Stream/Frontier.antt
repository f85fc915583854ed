-- ===== src/Stream/Frontier.antt =====
-- What the guard promises: frontiers only move forward, a watermark can be delivered again, and a chunk
-- passes exactly where none of its Events is behind the frontier.
use mathlib.Core.Path.{subst}
use incident_awareness_engin.Stream.{
  partition_eq, identity_eq, StreamError, R1SourceWatermark, R1EventChunk, AcceptedWatermark,
  PartitionKey, partition_key, Guard, accepted_of, same_watermark, store, advance_check,
  accept_content, accept_watermark, accept_behind, accept_chunk, violating, late_event,
  identity_conflict, validate_dead_letter, letter, StreamEvent,
}
use incident_awareness_engin.Prelude.{
  ℕ, ◌*◌, ◌/◌, is_naive, at, ◌≤◌, ◌<◌, ◌≡◌, refl, ◌∙◌, ap, sym, ◌↔◌, true, false, inl, inr, ◌⊎◌,
  List, [], ◌∷◌, ◌++◌, map, Option, none, some, String, Result, ok, err, leb, leb→lt, lt→leb, arith,
  null, keep, All, Bool-cases, Option-cases, Result-cases, Datetime, lookup, insert,
  lookup-insert_self, lookup-insert_ne, pair_eq, string_eq, ◌==◌, if◌then◌else◌,
}

-- The frontier of a partition does not go back: it stays, it appears, or a higher sequence moves its time
-- forward under the same lateness.
abbrev pub Forward : Option AcceptedWatermark → Option AcceptedWatermark → Type 0
Forward none b = Unit
Forward (some a) none = ⊥
Forward (some a) (some b) =
    (a ≡ b)
    ⊎ ((a.watermark_sequence < b.watermark_sequence)
        × (a.watermark_at.instant ≤ b.watermark_at.instant)
        × (a.allowed_lateness_ms ≡ b.allowed_lateness_ms))

Forward-self : (a : Option AcceptedWatermark) → Forward a a
Forward-self none = tt
Forward-self (some a) = inl refl

checked-Forward :
    (a : AcceptedWatermark) (b : Option AcceptedWatermark)
    → advance_check a b ≡ ok tt
    → Forward b (some a)
checked-Forward a none h = tt
checked-Forward a (some b) h = inr (ground arith, ground arith, ground arith)

-- The two ways a call of `accept_watermark` ends: it leaves the guard alone, or it stores a watermark of a
-- new identity that the tests accept.
abbrev Stored : PartitionKey → AcceptedWatermark → Guard → Type 0
Stored key a g =
    (accept_content key a g ≡ (ok tt, store key a g))
    × (lookup (key, a.watermark_id) g.watermarks_by_identity ≡ none)
    × (advance_check a (lookup key g.watermarks) ≡ ok tt)

accept_cases :
    (key : PartitionKey) (a : AcceptedWatermark) (g : Guard)
    → ((r : Result StreamError (Unit {0})) × (accept_content key a g ≡ (r, g))) ⊎ Stored key a g
unfolding accept_content
accept_cases key a g = elim (Option-cases (lookup (key, a.watermark_id) g.watermarks_by_identity)) [
  | inr (b, known) ↦
      inl (
        if same_watermark a b then ok tt else err identity_conflict,
        rw (known, accept_content) refl,
      )
  | inl fresh ↦ elim (Result-cases (advance_check a (lookup key g.watermarks))) [
    | inl (e, refused) ↦ inl (err e, rw (fresh, refused, accept_content) refl)
    | inr checked ↦ inr (rw (fresh, checked, accept_content) refl, fresh, checked)
  ]
]

-- Whether it accepts or raises, `accept_watermark` moves no partition's frontier back: it stays, it
-- appears, or a higher sequence moves its time forward under the same lateness.
pub accept_watermark-Forward :
    (w : R1SourceWatermark) (g : Guard) (k : PartitionKey)
    → Forward (lookup k g.watermarks) (lookup k (accept_watermark w g).1.watermarks)
unfolding accept_watermark
accept_watermark-Forward w g k =
    let key = partition_key w.partition in
    let a = accepted_of w in
    elim (accept_cases key a g) [
      | inl (r, same) ↦
          subst
            (λ (x : Result StreamError (Unit {0}) × Guard).
              Forward (lookup k g.watermarks) (lookup k x.1.watermarks))
            (sym same) (Forward-self (lookup k g.watermarks))
      | inr (stored, fresh, checked) ↦
          subst
            (λ (x : Result StreamError (Unit {0}) × Guard).
              Forward (lookup k g.watermarks) (lookup k x.1.watermarks))
            (sym stored)
            (elim (Bool-cases (k == key)) [
              | inl same ↦
                  let equal : k ≡ key = (partition_eq.beq_iff k key).0 same in
                  subst
                    (λ j. Forward (lookup j g.watermarks) (lookup j (insert key a g.watermarks)))
                    (sym equal)
                    (subst (λ x. Forward (lookup key g.watermarks) x)
                      (sym (lookup-insert_self key a g.watermarks))
                      (checked-Forward a (lookup key g.watermarks) checked))
              | inr apart ↦
                  subst (λ x. Forward (lookup k g.watermarks) x)
                    (sym (lookup-insert_ne key k a g.watermarks apart))
                    (Forward-self (lookup k g.watermarks))
            ])
    ]

-- The watermark stands under its identity.
abbrev pub Known : R1SourceWatermark → Guard → Type 0
Known w g =
    lookup (partition_key w.partition, w.watermark_id) g.watermarks_by_identity
    ≡ some (accepted_of w)

same_self : (a : AcceptedWatermark) → same_watermark a a ≡ true
unfolding same_watermark
same_self a = ground (arith, string_eq.beq_iff a.watermark_id a.watermark_id)

Known-again : (w : R1SourceWatermark) (g : Guard) → Known w g → accept_watermark w g ≡ (ok tt, g)
unfolding accept_watermark accept_content
Known-again w g h = rw (h, accept_content) (rw (same_self (accepted_of w)) refl)

-- No call forgets a watermark.
Known-kept : (w v : R1SourceWatermark) (g : Guard) → Known w g → Known w (accept_watermark v g).1
unfolding accept_watermark
Known-kept w v g h =
    let key = partition_key v.partition in
    let a = accepted_of v in
    let own : PartitionKey × String = (partition_key w.partition, w.watermark_id) in
    elim (accept_cases key a g) [
      | inl (r, same) ↦
          subst (λ (x : Result StreamError (Unit {0}) × Guard). Known w x.1) (sym same) h
      | inr (stored, fresh, checked) ↦
          subst (λ (x : Result StreamError (Unit {0}) × Guard). Known w x.1) (sym stored)
            (elim (Bool-cases (own == (key, a.watermark_id))) [
              | inl same ↦
                  let equal : own ≡ (key, a.watermark_id) =
                    (identity_eq.beq_iff own (key, a.watermark_id)).0 same in
                  cc (ap (λ i. lookup i g.watermarks_by_identity) equal, h, fresh)
              | inr apart ↦
                  lookup-insert_ne (key, a.watermark_id) own a g.watermarks_by_identity apart ∙ h
            ])
    ]

-- The guard after so many more watermarks, whatever they were.
abbrev pub accept_all : List R1SourceWatermark → Guard → Guard
accept_all [] g = g
accept_all (w ∷ ws) g = accept_all ws (accept_watermark w g).1

Known-all :
    (w : R1SourceWatermark) (ws : List R1SourceWatermark) (g : Guard)
    → Known w g
    → Known w (accept_all ws g)
Known-all w [] g h = h
Known-all w (v ∷ ws) g h = Known-all w ws (accept_watermark v g).1 (Known-kept w v g h)

impossible : true ≡ false → ⊥
impossible h = cc

raise_or_return : (e : StreamError) → ◌≡◌ {A = Result StreamError (Unit {0})} (err e) (ok tt) → ⊥
raise_or_return e h = cc

Known-stored :
    (w : R1SourceWatermark) (g g' : Guard)
    → lookup (partition_key w.partition, w.watermark_id) g.watermarks_by_identity ≡ none
    → accept_watermark w g ≡ (ok tt, g')
    → Known w g'
unfolding accept_watermark accept_content
Known-stored w g g' fresh h =
    let key = partition_key w.partition in
    let a = accepted_of w in
    elim (Result-cases (advance_check a (lookup key g.watermarks))) [
      | inl (e, refused) ↦
          let raised : accept_content key a g ≡ (err e, g) =
            rw (fresh, refused, accept_content) refl in
          absurd (
            raise_or_return e
              (ap (λ (x : Result StreamError (Unit {0}) × Guard). x.0) (sym raised ∙ h)))
      | inr checked ↦
          let stored : accept_content key a g ≡ (ok tt, store key a g) =
            rw (fresh, checked, accept_content) refl in
          let same : store key a g ≡ g' =
            ap (λ (x : Result StreamError (Unit {0}) × Guard). x.1) (sym stored ∙ h) in
          subst (Known w) same (lookup-insert_self (key, w.watermark_id) a g.watermarks_by_identity)
    ]

-- A watermark of a new identity that was accepted can be delivered again at any later time, after whatever other
-- watermarks: the call returns and changes nothing.
pub accept_watermark_again :
    (w : R1SourceWatermark) (ws : List R1SourceWatermark) (g g' : Guard)
    → lookup (partition_key w.partition, w.watermark_id) g.watermarks_by_identity ≡ none
    → accept_watermark w g ≡ (ok tt, g')
    → accept_watermark w (accept_all ws g') ≡ (ok tt, accept_all ws g')
accept_watermark_again w ws g g' fresh h =
    Known-again w (accept_all ws g') (Known-all w ws g' (Known-stored w g g' fresh h))

abbrev AllAfter : ℕ → List StreamEvent → Type 0
AllAfter frontier = All (λ (e : StreamEvent). frontier < e.timestamp.instant)

abbrev behind : ℕ → List StreamEvent → List String
behind frontier es =
    map (λ (e : StreamEvent). e.event_id) (keep (λ e. leb e.timestamp.instant frontier) es)

null-AllAfter : (t : ℕ) (es : List StreamEvent) → AllAfter t es → null (behind t es) ≡ true
null-AllAfter t [] h = refl
null-AllAfter t (e ∷ es) h =
    let late : leb e.timestamp.instant t ≡ false = lt→leb _ _ h.0 in
    rw late (null-AllAfter t es h.1)

AllAfter-of_null : (t : ℕ) (es : List StreamEvent) → null (behind t es) ≡ true → AllAfter t es
AllAfter-of_null t [] h = tt
AllAfter-of_null t (e ∷ es) h = elim (Bool-cases (leb e.timestamp.instant t)) [
  | inl late ↦ cc (rw late at h)
  | inr early ↦ (leb→lt _ _ early, AllAfter-of_null t es (rw early at h))
]

chunk_passes :
    (now : Datetime) (c : R1EventChunk) (g : Guard) (a : AcceptedWatermark)
    → lookup (partition_key c.partition) g.watermarks ≡ some a
    → null (violating a c) ≡ true
    → accept_chunk now c g ≡ (ok tt, g)
unfolding accept_chunk
chunk_passes now c g a frontier h = rw (frontier, accept_chunk) (rw (h, accept_behind) refl)

chunk_refused :
    (now : Datetime) (c : R1EventChunk) (g : Guard) (a : AcceptedWatermark)
    → is_naive now ≡ false
    → lookup (partition_key c.partition) g.watermarks ≡ some a
    → validate_dead_letter (letter (at (now.instant / 1000 * 1000)) a c) ≡ ok tt
    → null (violating a c) ≡ false
    → accept_chunk now c g ≡ (
      err late_event,
      record g {
        dead_letters = g.dead_letters ++ letter (at (now.instant / 1000 * 1000)) a c ∷ [];
      },
    )
unfolding accept_chunk
chunk_refused now c g a aware frontier valid h =
    rw (frontier, accept_chunk) (rw (h, aware, valid, accept_behind) refl)

-- On a partition with a frontier, with a clock that returns an aware time and texts that make a valid dead
-- letter: a chunk passes, and the guard stays as it was, exactly where each of its Events is after the
-- frontier. The call raises the error of a late Event, and the dead letter is the one thing written,
-- exactly where some Event is not after it; the letter names the chunk, the watermark and those Events.
pub accept_chunk_iff :
    (now : Datetime) (c : R1EventChunk) (g : Guard) (a : AcceptedWatermark)
    → is_naive now ≡ false
    → lookup (partition_key c.partition) g.watermarks ≡ some a
    → validate_dead_letter (letter (at (now.instant / 1000 * 1000)) a c) ≡ ok tt
    → ((accept_chunk now c g ≡ (ok tt, g))
        ↔ All (λ e. a.watermark_at.instant < e.timestamp.instant) c.events)
      × ((accept_chunk now c g ≡ (
        err late_event,
        record g {
          dead_letters = g.dead_letters ++ letter (at (now.instant / 1000 * 1000)) a c ∷ [];
        },
      ))
          ↔ (null (violating a c) ≡ false))
accept_chunk_iff now c g a aware frontier valid = elim (Bool-cases (null (violating a c))) [
  | inl clear ↦
      let passed = chunk_passes now c g a frontier clear in
      let after = AllAfter-of_null a.watermark_at.instant c.events clear in
      (
        (λ h. after, λ h. passed),
        (
          λ h. absurd (raise_or_return late_event (ap (λ x. x.0) (sym h ∙ passed))),
          λ h. absurd (impossible (sym clear ∙ h)),
        ),
      )
  | inr late ↦
      let refused = chunk_refused now c g a aware frontier valid late in
      (
        (
          λ h. absurd (raise_or_return late_event (ap (λ x. x.0) (sym refused ∙ h))),
          λ h. absurd (impossible (sym (null-AllAfter a.watermark_at.instant c.events h) ∙ late)),
        ),
        (λ h. late, λ h. refused),
      )
]
