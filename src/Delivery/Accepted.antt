-- ===== src/Delivery/Accepted.antt =====
-- What an accepted chunk writes: itself, and those of its Events that the ledger did not have, each behind the
-- active watermark.
use mathlib.Core.List.{append-nil, append_assoc}
use incident_awareness_engin.Delivery.Rows.{DeliveryError, EventRow, Tables, R1StreamDelivery}
use incident_awareness_engin.Delivery.Tables.{
  is_readable, row_to_delivery, event_delivery, at_event, event_by_id,
}
use incident_awareness_engin.Delivery.Ledger.{
  classify_event, fresh_events, event_row, replayed_event, save_event, with_new, save_each,
}
use incident_awareness_engin.Delivery.Induct.{save_event-cases}
use incident_awareness_engin.Stream.{PartitionKey}
use incident_awareness_engin.Prelude.{
  if◌then◌else◌, Bool-cases, Option-cases, string_eq, All, any, find, contains, IsDistinct,
  any-of_find, find-of_any, any-append_one, Result, ok, err, ◌>>=◌, >>=-eq-ok, ok-inj, err_ok,
  none-some, Result-split, String, ◌≡◌, refl, sym, ap, ◌∙◌, inl, inr, Bool, true, false, Option,
  none, some, List, [], ◌∷◌, ◌++◌, map, arith,
}

-- The ledger has an Event of that id.
abbrev pub has_event : PartitionKey → Tables → String → Bool
has_event p t id = any (at_event p id) t.events

-- The Events that the ledger does not have, as ids and as rows.
abbrev pub missing_ids : PartitionKey → Tables → List (String × String) → List String
missing_ids p t [] = []
missing_ids p t ((id, sha) ∷ es) =
    if has_event p t id then missing_ids p t es else id ∷ missing_ids p t es

abbrev pub missing_rows : PartitionKey → Tables → List (String × String) → List EventRow
missing_rows p t [] = []
missing_rows p t ((id, sha) ∷ es) =
    if has_event p t id then missing_rows p t es else event_row p id sha ∷ missing_rows p t es

event_found :
    (p : PartitionKey) (id : String) (t : Tables) (x : R1StreamDelivery)
    → event_by_id p id t ≡ ok (some x)
    → has_event p t id ≡ true
unfolding event_by_id row_to_delivery
event_found p id t x h = elim (Option-cases (find (at_event p id) t.events)) [
  | inl nothing ↦ absurd (none-some (ok-inj (rw nothing at h)))
  | inr (r, found) ↦ any-of_find (at_event p id) (at_event p id) t.events r (λ y e. e) found
]

event_absent :
    (p : PartitionKey) (id : String) (t : Tables)
    → event_by_id p id t ≡ ok none
    → has_event p t id ≡ false
unfolding event_by_id row_to_delivery
event_absent p id t h = elim (Bool-cases (has_event p t id)) [
  | inr absent ↦ absent
  | inl present ↦
      let (r, found) = find-of_any (at_event p id) t.events present in
      elim (Bool-cases (is_readable (event_delivery r))) [
        | inl e ↦ absurd (none-some (sym (ok-inj (rw e at (rw found at h)))))
        | inr e ↦ absurd (err_ok (rw e at (rw found at h)))
      ]
]

-- Admission finds the same Events missing.
pub fresh_events-missing :
    (p : PartitionKey) (es : List (String × String)) (t : Tables) (ids : List String)
    → fresh_events p es t ≡ ok ids
    → ids ≡ missing_ids p t es
unfolding fresh_events classify_event
fresh_events-missing p [] t ids h = sym (ok-inj h)
fresh_events-missing p ((id, sha) ∷ es) t ids h =
    let (is_new, e, h1) = >>=-eq-ok (event_by_id p id t >>= classify_event sha) _ h in
    let (rest, k, h2) = >>=-eq-ok (fresh_events p es t) _ h1 in
    let (existing, found, class) = >>=-eq-ok (event_by_id p id t) (classify_event sha) e in
    sym (ok-inj h2)
    ∙ (ap (λ x. if is_new then id ∷ x else x) (fresh_events-missing p es t rest k)
        ∙ chosen existing is_new found class)
  where
    chosen :
        (existing : Option R1StreamDelivery) (is_new : Bool)
        → event_by_id p id t ≡ ok existing
        → classify_event sha existing ≡ ok is_new
        → (if is_new then id ∷ missing_ids p t es else missing_ids p t es)
          ≡ missing_ids p t ((id, sha) ∷ es)
    chosen none is_new found class = rw (event_absent p id t found) (ground arith)
    chosen (some x) is_new found class = rw (event_found p id t x found) (ground arith)

-- The ledgers have the same of these Events.
abbrev pub Agree : PartitionKey → Tables → Tables → List (String × String) → Type 0
Agree p t t₀ es = All (λ e. has_event p t₀ e.0 ≡ has_event p t e.0) es

has_event-append :
    (p : PartitionKey) (t : Tables) (id id' sha : String)
    → string_eq.beq id' id ≡ false
    → has_event p (record t { events = t.events ++ event_row p id sha ∷ [] }) id'
      ≡ has_event p t id'
has_event-append p t id id' sha apart =
    any-append_one (at_event p id') t.events (event_row p id sha) (ground arith)

Agree-later :
    (p : PartitionKey) (t t₀ : Tables) (id sha : String) (es : List (String × String))
    → contains ⦃e = string_eq⦄ id (map (λ e. e.0) es) ≡ false
    → Agree p t t₀ es
    → Agree p t (record t₀ { events = t₀.events ++ event_row p id sha ∷ [] }) es
Agree-later p t t₀ id sha [] absent a = tt
Agree-later p t t₀ id sha ((id', sha') ∷ es) absent a =
    let apart : string_eq.beq id' id ≡ false =
      ground (arith, string_eq.beq_iff id' id, string_eq.beq_iff id id') in
    (has_event-append p t₀ id id' sha apart ∙ a.0, Agree-later p t t₀ id sha es (ground arith) a.1)

replayed-false :
    (sha : String) (found : Result DeliveryError (Option R1StreamDelivery)) (b : Bool)
    → (found >>= replayed_event sha) ≡ ok b
    → (b ≡ false) × ((x : R1StreamDelivery) × (found ≡ ok (some x)))
replayed-false sha (err e) b h = absurd (err_ok h)
replayed-false sha (ok none) b h = absurd (err_ok h)
replayed-false sha (ok (some x)) b h = (ground arith, (x, refl))

-- What `save_each` does where it returns.
abbrev pub Saved :
    PartitionKey → List (String × String) → Tables → Tables → List String → Tables → Type 0
Saved p es t t₀ ids t' =
    (ids ≡ missing_ids p t es) × (t' ≡ record t₀ { events = t₀.events ++ missing_rows p t es })

with_new-eq-ok :
    (id : String) (is_new : Bool) (call : Result DeliveryError (List String) × Tables)
    (ids : List String) (t' : Tables)
    → with_new id is_new call ≡ (ok ids, t')
    → (rest : List String) × (call ≡ (ok rest, t')) × (ids ≡ (if is_new then id ∷ rest else rest))
with_new-eq-ok id is_new (err e, t) ids t' h = absurd (err_ok (ap (λ x. x.0) h))
with_new-eq-ok id is_new (ok rest, t) ids t' h =
    (rest, λ i. (ok rest, (h i).1), sym (ok-inj (ap (λ x. x.0) h)))

pub save_each-Saved :
    (p : PartitionKey) (es : List (String × String)) (t t₀ : Tables) (ids : List String)
    (t' : Tables)
    → IsDistinct ⦃e = string_eq⦄ (map (λ e. e.0) es)
    → Agree p t t₀ es
    → save_each p es t₀ ≡ (ok ids, t')
    → Saved p es t t₀ ids t'
unfolding save_each
save_each-Saved p [] t t₀ ids t' d a h =
    (sym (ok-inj (ap (λ x. x.0) h)), sym (ap (λ x. x.1) h) ∙ simp (append-nil))
save_each-Saved p ((id, sha) ∷ es) t t₀ ids t' d a h =
    elim (Result-split (save_event p id sha t₀)) [
      | inl (e, raised) ↦ absurd (err_ok (ap (λ x. x.0) (rw (raised, save_each) at h)))
      | inr ((is_new, t₁), saved) ↦
          let (rest, k, ids_are) =
            with_new-eq-ok id is_new (save_each p es t₁) ids t' (rw (saved, save_each) at h) in
          elim (save_event-cases p id sha t₀ t₁ is_new saved) [
            | inl (same, seen) ↦
                let (old, (x, found)) = replayed-false sha (event_by_id p id t₀) is_new seen in
                let present : has_event p t id ≡ true = sym a.0 ∙ event_found p id t₀ x found in
                let (rest_is, t'_is) =
                  save_each-Saved p es t t₀ rest t' d.1 a.1 (ap (save_each p es) (sym same) ∙ k) in
                (
                  ids_are
                      ∙ (ap (λ b. if b then id ∷ rest else rest) old
                          ∙ (rest_is ∙ (rw present refl))),
                  t'_is
                      ∙ ap
                          (λ b. record t₀ {
                            events =
                                t₀.events
                                ++ (if b
                                    then missing_rows p t es
                                    else event_row p id sha ∷ missing_rows p t es);
                          })
                          (sym present),
                )
            | inr (first, rows, free) ↦
                let absent : has_event p t id ≡ false = sym a.0 ∙ free in
                let t₂ = record t₀ { events = t₀.events ++ event_row p id sha ∷ [] } in
                let (rest_is, t'_is) =
                  save_each-Saved p es t t₂ rest t' d.1 (Agree-later p t t₀ id sha es d.0 a.1)
                    (ap (save_each p es) (sym rows) ∙ k) in
                (
                  ids_are
                      ∙ (ap (λ b. if b then id ∷ rest else rest) first
                          ∙ (ap (◌∷◌ id) rest_is
                              ∙ ap (λ b. if b then missing_ids p t es else id ∷ missing_ids p t es)
                                  (sym absent))),
                  t'_is
                      ∙ (ap (λ xs. record t₀ { events = xs })
                            (append_assoc t₀.events (event_row p id sha ∷ []) (missing_rows p t es))
                          ∙ ap
                              (λ b. record t₀ {
                                events =
                                    t₀.events
                                    ++ (if b
                                        then missing_rows p t es
                                        else event_row p id sha ∷ missing_rows p t es);
                              })
                              (sym absent)),
                )
          ]
    ]

pub Agree-self : (p : PartitionKey) (t : Tables) (es : List (String × String)) → Agree p t t es
Agree-self p t [] = tt
Agree-self p t (e ∷ es) = (refl, Agree-self p t es)
