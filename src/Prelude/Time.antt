-- ===== src/Prelude/Time.antt =====
-- `datetime` and `timedelta` in microseconds. An instant counts from 0001-01-01T00:00:00 UTC, the
-- first that a datetime holds, so that it is a natural number.
use Prim.Native.Nat.{ℕ, ◌+◌, ◌-◌}
use mathlib.Core.Bool.{Bool, true, false}
use incident_awareness_engin.Prelude.Results.{Result, ok, err}
use incident_awareness_engin.Prelude.Tests.{ltb, leb, if◌then◌else◌}

-- `value.utcoffset()`: absent, zero, or another offset.
pub data Zone : Type 0 where
  naive utc other : Zone

pub record Datetime : Type 0 where
  pub instant : ℕ
  pub zone : Zone

abbrev pub is_naive : Datetime → Bool
is_naive d = elim d.zone [ naive ↦ true | utc ↦ false | other ↦ false ]

-- `value.utcoffset() == timedelta(0)`
abbrev pub is_utc : Datetime → Bool
is_utc d = elim d.zone [ naive ↦ false | utc ↦ true | other ↦ false ]

-- `datetime.max`
abbrev pub datetime_max : ℕ
datetime_max = 315_537_897_599_999_999

-- `d + delta` raises `OverflowError` past the last datetime.
unfoldable pub add_delta {ℓ} : {E : Type ℓ} → E → Datetime → ℕ → Result E Datetime
add_delta overflow d delta =
    if leb (d.instant + delta) datetime_max
    then ok (record d { instant = d.instant + delta })
    else err overflow

-- `d - delta` raises `OverflowError` before the first one.
unfoldable pub sub_delta {ℓ} : {E : Type ℓ} → E → Datetime → ℕ → Result E Datetime
sub_delta overflow d delta =
    if ltb d.instant delta then err overflow else ok (record d { instant = d.instant - delta })

abbrev pub at : ℕ → Datetime
at t = record { instant = t; zone = utc }
