-- ===== src/Hybrid/Table.antt =====
-- The truth table of the combination, against the validators of the decision that it builds.
use incident_awareness_engin.Hybrid.{Verdict, decide}
use incident_awareness_engin.Model.Decision.{
  DecisionResult, earlier, winner, same_time, is_winner, validate_status_times,
  validate_decision_paths,
}
use incident_awareness_engin.Model.Detection.{
  DetectorStatus, detected, miss, not_evaluated, validate_time, is_missing, is_detected,
}
use incident_awareness_engin.Prelude.{
  ◌≤◌, ◌≡◌, refl, Bool, true, false, not, ◌&&◌, inl, inr, ◌⊎◌, Option, none, some, ok, ltb, nat_eq,
  arith, Bool-cases, Datetime, is_empty,
}

-- The time is not later than this one, where there is one.
abbrev pub NoLater : Option Datetime → Option Datetime → Type 0
NoLater t none = Unit
NoLater t (some b) = (a : Datetime) × (t ≡ some a) × (a.instant ≤ b.instant)

-- One of the two times.
abbrev pub OneOf : Option Datetime → Option Datetime → Option Datetime → Type 0
OneOf none a b = Unit
OneOf (some t) a b = (a ≡ some t) ⊎ (b ≡ some t)

abbrev pub is_evaluated : DetectorStatus → Bool
is_evaluated detected = true
is_evaluated miss = true
is_evaluated not_evaluated = false

-- What the verdict promises on two statuses and their times: no time and no path where a path was not
-- evaluated; else the time is one of the two, and not later than either.
abbrev pub IsEarliest :
    DetectorStatus → DetectorStatus → Option Datetime → Option Datetime → Verdict → Type 0
IsEarliest s u a b v = elim (is_evaluated s && is_evaluated u) [
  | false ↦ (v.t_e ≡ none) × (v.decision_path ≡ none) × (v.winning_path ≡ none)
  | true ↦ OneOf v.t_e a b × NoLater v.t_e a × NoLater v.t_e b
]

-- The decision with these statuses and times, and the verdict's fields.
abbrev pub with_verdict :
    DecisionResult
    → DetectorStatus
    → DetectorStatus
    → Option Datetime
    → Option Datetime
    → Verdict
    → DecisionResult
with_verdict d s u a b v = record d {
  fast_status = s;
  fusion_status = u;
  detector_time = a;
  fusion_time = b;
  t_e = v.t_e;
  decision_path = v.decision_path;
  winning_path = v.winning_path;
}

-- A time stands exactly where the status is detected.
abbrev pub Agrees : DetectorStatus → Option Datetime → Type 0
Agrees status time = is_missing time ≡ not (is_detected status)

pub record Accepts (g : Verdict → DecisionResult) (s u : DetectorStatus) (a b : Option Datetime)
    (v : Verdict) : Type 0 where
  pub decided : decide s u a b ≡ ok v
  pub earliest : IsEarliest s u a b v
  pub timed : validate_time v.t_e ≡ ok tt
  pub times : validate_status_times (with_verdict (g v) s u a b v) ≡ ok tt
  pub paths : validate_decision_paths (with_verdict (g v) s u a b v) ≡ ok tt
  pub named : is_empty v.reason ≡ false

earlier_time :
    (a b : Datetime)
    → validate_time (some a) ≡ ok tt
    → validate_time (some b) ≡ ok tt
    → validate_time (some (earlier a b)) ≡ ok tt
earlier_time a b h k = elim (Bool-cases (ltb b.instant a.instant)) [
  | inl e ↦ rw e k
  | inr e ↦ rw e h
]

earlier_le :
    (a b : Datetime) → ((earlier a b).instant ≤ a.instant) × ((earlier a b).instant ≤ b.instant)
earlier_le a b = (ground arith, ground arith)

earlier_one : (a b : Datetime) → OneOf (some (earlier a b)) (some a) (some b)
earlier_one a b = elim (Bool-cases (ltb b.instant a.instant)) [
  | inl e ↦ rw e (inr refl)
  | inr e ↦ rw e (inl refl)
]

winner_self : (a b : Datetime) → is_winner (winner a b) (some (winner a b)) ≡ true
winner_self a b = ground arith

same_self : (t : Option Datetime) → same_time t t ≡ true
same_self none = refl
same_self (some t) = ground arith

-- On statuses that agree with their times the table returns, and the decision passes the validators.
pub decide-Accepts :
    (g : Verdict → DecisionResult) (s u : DetectorStatus) (a b : Option Datetime)
    → Agrees s a
    → Agrees u b
    → validate_time a ≡ ok tt
    → validate_time b ≡ ok tt
    → (v : Verdict) × Accepts g s u a b v
unfolding decide validate_status_times validate_decision_paths is_empty validate_time
decide-Accepts g detected detected none b h k ha hb = cc
decide-Accepts g detected detected (some a) none h k ha hb = cc
decide-Accepts g detected detected (some a) (some b) h k ha hb = (
  _,
  record {
    decided = refl;
    earliest = (
      earlier_one a b,
      (earlier a b, refl, (earlier_le a b).0),
      (earlier a b, refl, (earlier_le a b).1),
    );
    timed = earlier_time a b ha hb;
    times = refl;
    paths = rw (same_self (some (earlier a b)), winner_self a b) refl;
    named = refl;
  },
)
decide-Accepts g detected miss none b h k ha hb = cc
decide-Accepts g detected miss (some a) none h k ha hb = (
  _,
  record {
    decided = refl;
    earliest = (inl refl, (a, refl, omega arith), tt);
    timed = ha;
    times = refl;
    paths = rw (same_self (some a)) refl;
    named = refl;
  },
)
decide-Accepts g detected miss (some a) (some b) h k ha hb = cc
decide-Accepts g miss detected none none h k ha hb = cc
decide-Accepts g miss detected none (some b) h k ha hb = (
  _,
  record {
    decided = refl;
    earliest = (inr refl, tt, (b, refl, omega arith));
    timed = hb;
    times = refl;
    paths = rw (same_self (some b)) refl;
    named = refl;
  },
)
decide-Accepts g miss detected (some a) b h k ha hb = cc
decide-Accepts g miss miss none none h k ha hb = (
  _,
  record {
    decided = refl;
    earliest = (tt, tt, tt);
    timed = refl;
    times = refl;
    paths = refl;
    named = refl;
  },
)
decide-Accepts g miss miss (some a) b h k ha hb = cc
decide-Accepts g miss miss none (some b) h k ha hb = cc
decide-Accepts g not_evaluated detected none none h k ha hb = cc
decide-Accepts g not_evaluated detected none (some b) h k ha hb = (
  _,
  record {
    decided = refl;
    earliest = (refl, refl, refl);
    timed = refl;
    times = refl;
    paths = refl;
    named = refl;
  },
)
decide-Accepts g not_evaluated detected (some a) b h k ha hb = cc
decide-Accepts g not_evaluated miss none none h k ha hb = (
  _,
  record {
    decided = refl;
    earliest = (refl, refl, refl);
    timed = refl;
    times = refl;
    paths = refl;
    named = refl;
  },
)
decide-Accepts g not_evaluated miss none (some b) h k ha hb = cc
decide-Accepts g not_evaluated miss (some a) b h k ha hb = cc
decide-Accepts g not_evaluated not_evaluated none none h k ha hb = (
  _,
  record {
    decided = refl;
    earliest = (refl, refl, refl);
    timed = refl;
    times = refl;
    paths = refl;
    named = refl;
  },
)
decide-Accepts g not_evaluated not_evaluated none (some b) h k ha hb = cc
decide-Accepts g not_evaluated not_evaluated (some a) b h k ha hb = cc
decide-Accepts g detected not_evaluated none b h k ha hb = cc
decide-Accepts g detected not_evaluated (some a) none h k ha hb = (
  _,
  record {
    decided = refl;
    earliest = (refl, refl, refl);
    timed = refl;
    times = refl;
    paths = refl;
    named = refl;
  },
)
decide-Accepts g detected not_evaluated (some a) (some b) h k ha hb = cc
decide-Accepts g miss not_evaluated none none h k ha hb = (
  _,
  record {
    decided = refl;
    earliest = (refl, refl, refl);
    timed = refl;
    times = refl;
    paths = refl;
    named = refl;
  },
)
decide-Accepts g miss not_evaluated none (some b) h k ha hb = cc
decide-Accepts g miss not_evaluated (some a) b h k ha hb = cc
