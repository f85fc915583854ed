-- ===== src/Fusion/Window/Deque.antt =====
-- The deque of one key: dropping from the left of a list in timestamp order is filtering it.
use incident_awareness_engin.Prelude.{
  ℕ, ◌≤◌, ◌≡◌, refl, ◌∙◌, ap, sym, Bool, true, false, ◌&&◌, inl, inr, List, [], ◌∷◌, ◌++◌, ltb, leb,
  arith, keep, All, All-append, All-imp, Bool-cases, IsSortedBy, nat_order, Datetime, le→leb,
  ltb→le, le→ltb,
}
use incident_awareness_engin.Fusion.Window.{drop_before, in_window}
use incident_awareness_engin.Model.Evidence.{Evidence}

abbrev pub time_of : Evidence → ℕ
time_of e = e.timestamp.instant

-- In timestamp order.
abbrev pub IsOrdered : List Evidence → Type 0
IsOrdered = IsSortedBy time_of

abbrev pub UpTo : ℕ → List Evidence → Type 0
UpTo t = All (λ e. time_of e ≤ t)

keep-All : (p : Evidence → Bool) (d : List Evidence) → All (λ e. p e ≡ true) d → keep p d ≡ d
keep-All p [] h = refl
keep-All p (e ∷ d) h = rw h.0 (ap (◌∷◌ e) (keep-All p d h.1))

pub keep_none : (p : Evidence → Bool) (d : List Evidence) → All (λ e. p e ≡ false) d → keep p d ≡ []
keep_none p [] h = refl
keep_none p (e ∷ d) h = rw h.0 (keep_none p d h.1)

pub keep-keep :
    (p q r : Evidence → Bool) (d : List Evidence)
    → ((e : Evidence) → r e ≡ (q e && p e))
    → keep p (keep q d) ≡ keep r d
keep-keep p q r [] h = refl
keep-keep p q r (e ∷ d) h = ground (arith, h e, keep-keep p q r d h)

-- The loop of `advance_to` on an ordered deque keeps exactly what is not before the cutoff.
pub drop_before-keep :
    (cutoff : Datetime) (d : List Evidence)
    → IsOrdered d
    → drop_before cutoff d ≡ keep (λ e. leb cutoff.instant (time_of e)) d
unfolding drop_before
drop_before-keep cutoff [] h = refl
drop_before-keep cutoff (e ∷ d) h = elim (Bool-cases (ltb (time_of e) cutoff.instant)) [
  | inl early ↦ rw early (drop_before-keep cutoff d h.1 ∙ dropped early)
  | inr late ↦ rw late (sym (keep-All (λ x. leb cutoff.instant (time_of x)) (e ∷ d) (kept late)))
]
  where
    dropped :
        ltb (time_of e) cutoff.instant ≡ true
        → keep (λ x. leb cutoff.instant (time_of x)) d
          ≡ keep (λ x. leb cutoff.instant (time_of x)) (e ∷ d)
    dropped early = ground arith

    kept :
        ltb (time_of e) cutoff.instant ≡ false
        → All (λ x. leb cutoff.instant (time_of x) ≡ true) (e ∷ d)
    kept late = (
      ground arith,
      All-imp (λ x k. le→leb _ _ (omega (arith, ltb→le _ _ late, ltb→le _ _ k))) d h.0,
    )

-- What an earlier cutoff dropped, a later one would drop too.
pub drop_before-append :
    (c₀ c : Datetime) (d r : List Evidence)
    → c₀.instant ≤ c.instant
    → drop_before c (drop_before c₀ d ++ r) ≡ drop_before c (d ++ r)
unfolding drop_before
drop_before-append c₀ c [] r h = refl
drop_before-append c₀ c (e ∷ d) r h = ground (arith, drop_before-append c₀ c d r h)

pub drop_before-All {κ} :
    (P : Evidence → Type κ) (c : Datetime) (d : List Evidence) → All P d → All P (drop_before c d)
unfolding drop_before
drop_before-All P c [] h = h
drop_before-All P c (e ∷ d) h = elim (Bool-cases (ltb (time_of e) c.instant)) [
  | inl early ↦ rw early (drop_before-All P c d h.1)
  | inr late ↦ rw late h
]

pub drop_before-IsOrdered :
    (c : Datetime) (d : List Evidence) → IsOrdered d → IsOrdered (drop_before c d)
unfolding drop_before
drop_before-IsOrdered c [] h = h
drop_before-IsOrdered c (e ∷ d) h = elim (Bool-cases (ltb (time_of e) c.instant)) [
  | inl early ↦ rw early (drop_before-IsOrdered c d h.1)
  | inr late ↦ rw late h
]

pub append-IsOrdered :
    (d : List Evidence) (e : Evidence) → IsOrdered d → UpTo (time_of e) d → IsOrdered (d ++ e ∷ [])
append-IsOrdered [] e h u = (tt, tt)
append-IsOrdered (x ∷ d) e h u = (
  All-append (λ y. ltb (time_of y) (time_of x) ≡ false) d (e ∷ []) h.0 (le→ltb _ _ u.0, tt),
  append-IsOrdered d e h.1 u.1,
)

-- Between the cutoff and the advance: the two filters together are the window.
pub keep-drop_before :
    (cutoff t : Datetime) (d : List Evidence)
    → IsOrdered d
    → keep (λ e. leb (time_of e) t.instant) (drop_before cutoff d) ≡ keep (in_window cutoff t) d
keep-drop_before cutoff t d h =
    ap (keep (λ e. leb (time_of e) t.instant)) (drop_before-keep cutoff d h)
    ∙ keep-keep (λ e. leb (time_of e) t.instant) (λ e. leb cutoff.instant (time_of e))
        (in_window cutoff t) d (λ e. refl)
