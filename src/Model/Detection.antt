-- ===== src/Model/Detection.antt =====
-- The exchanged result of the Fast path (common/models/result.py, `DetectionResult`), with the validators
-- that its constructor runs.
use incident_awareness_engin.Model.Error.{
  ContractError, datetime_naive, datetime_not_utc, datetime_not_milliseconds, detector_time_missing,
  detector_id_missing, detector_time_unexpected,
}
use incident_awareness_engin.Model.Fusion.{non_empty}
use incident_awareness_engin.Model.RunId.{validate_run_id}
use incident_awareness_engin.Prelude.{
  ◌%◌, Bool, true, false, not, Option, none, some, String, Result, ok, ◌>>◌, raise_if, eqb,
  Datetime, is_naive, is_utc,
}

pub data DetectorStatus : Type 0 where
  detected miss not_evaluated : DetectorStatus

pub data Severity : Type 0 where
  low medium high critical unknown : Severity

pub record DetectionResult : Type 0 where
  pub run_id : String
  pub entity_id : String
  pub detector_time : Option Datetime
  pub detector_status : DetectorStatus
  pub detector_id : Option String
  pub rule_id : Option String
  pub rule_version : Option String
  pub severity : Option Severity

-- `validate_detector_time` and `validate_utc_datetime` of this file's models.
unfoldable pub validate_time : Option Datetime → Result ContractError (Unit {0})
validate_time none = ok tt
validate_time (some t) = do
  raise_if (is_naive t) datetime_naive
  raise_if (not (is_utc t)) datetime_not_utc
  raise_if (not (eqb (t.instant % 1000) 0)) datetime_not_milliseconds

abbrev pub is_missing {ℓ} : {A : Type ℓ} → Option A → Bool
is_missing none = true
is_missing (some a) = false

-- A detected status needs its time, and the others must not have one.
abbrev pub status_time :
    ContractError
    → ContractError
    → DetectorStatus
    → Option Datetime
    → Result ContractError (Unit {0})
status_time missing unexpected detected time = raise_if (is_missing time) missing
status_time missing unexpected miss time = raise_if (not (is_missing time)) unexpected
status_time missing unexpected not_evaluated time = raise_if (not (is_missing time)) unexpected

abbrev pub is_detected : DetectorStatus → Bool
is_detected detected = true
is_detected miss = false
is_detected not_evaluated = false

-- `validate_detector_status_time`
unfoldable pub validate_detector_status_time : DetectionResult → Result ContractError (Unit {0})
validate_detector_status_time d = elim d.detector_status [
  | detected ↦ do
    raise_if (is_missing d.detector_time) detector_time_missing
    raise_if (is_missing d.detector_id) detector_id_missing
  | miss ↦ raise_if (not (is_missing d.detector_time)) detector_time_unexpected
  | not_evaluated ↦ raise_if (not (is_missing d.detector_time)) detector_time_unexpected
]

-- What the constructor of a `DetectionResult` checks.
unfoldable pub validate_detection : DetectionResult → Result ContractError (Unit {0})
unfolding validate_time validate_detector_status_time validate_run_id
validate_detection d = do
  non_empty d.run_id
  validate_run_id d.run_id
  non_empty d.entity_id
  validate_time d.detector_time
  validate_detector_status_time d
