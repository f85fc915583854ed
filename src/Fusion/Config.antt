-- ===== src/Fusion/Config.antt =====
-- The Fusion configuration (decision/fusion/config.py): the validators of its models, and the runner that
-- it builds. The seconds of a duration become a timedelta by the standard library, and the managed
-- vocabulary is a file: both are parameters. WindowConfig and ReplayConfig stand as their one field.
pub mod Runner
pub mod Pipeline
mod Tests
use incident_awareness_engin.Float.{Float}
use incident_awareness_engin.Fusion.Error.{FusionError, overflow}
use incident_awareness_engin.Fusion.Replay.{TemporalReplayRunner}
use incident_awareness_engin.Fusion.Replay as Replay
use incident_awareness_engin.Fusion.Score as Score
use incident_awareness_engin.Fusion.Stopping.{in_unit}
use incident_awareness_engin.Fusion.Stopping as Stopping
use incident_awareness_engin.Fusion.Window as Window
use incident_awareness_engin.Prelude.{
  ℕ, zero, suc, Bool, true, false, not, ◌&&◌, List, Option, none, some, String, Result, ok, err,
  ◌>>=◌, ◌>>◌, raise_if, ℤ, pos, negsuc, null, any, eqb, length, set_of, contains, ◌==◌, is_blank,
  is_padded, is_empty, string_eq,
}

pub data ConfigError : Type 0 where
  not_finite duration_overflow not_positive not_milliseconds : ConfigError
  method_unknown metadata_blank types_empty types_blank types_padded types_duplicate
        types_unmanaged :
      ConfigError
  threshold_range persistence_range threshold_order version_blank : ConfigError

pub record ScoringConfig : Type 0 where
  pub method : String
  pub scorer_version : String
  pub profile_id : String
  pub evidence_types : List String

pub record StoppingConfig (F : Type 0) : Type 0 where
  pub threshold_on : F
  pub threshold_off : F
  pub persistence_k : ℤ

pub record FusionConfig (F : Type 0) : Type 0 where
  pub config_version : String
  pub model_version : Option String
  pub window_size_sec : F
  pub step_size_sec : F
  pub scoring : ScoringConfig
  pub stopping : StoppingConfig F

-- `timedelta(seconds=value)` in microseconds, or `OverflowError`; and whether `Decimal(str(value)) * 1000`
-- is whole.
pub record Durations (F : Type 0) : Type 0 where
  pub timedelta : F → Option ℤ
  pub is_whole_milliseconds : F → Bool

abbrev pub is_positive : ℤ → Bool
is_positive (negsuc n) = false
is_positive (pos zero) = false
is_positive (pos (suc n)) = true

abbrev pub check_timedelta : Option ℤ → Result ConfigError (Unit {0})
check_timedelta none = err duration_overflow
check_timedelta (some d) = raise_if (not (is_positive d)) not_positive

module _ (managed : List String) where
  -- `validate_evidence_types`, with the vocabulary of `validate_managed_evidence_types`.
  unfoldable pub validate_evidence_types : List String → Result ConfigError (Unit {0})
  validate_evidence_types types = do
    raise_if (null types) types_empty
    raise_if (any is_blank types) types_blank
    raise_if (any is_padded types) types_padded
    raise_if (not (eqb (length (set_of types)) (length types))) types_duplicate
    raise_if (any (λ t. not (contains t managed)) types) types_unmanaged

  -- What the constructor of a `ScoringConfig` checks.
  unfoldable pub validate_scoring : ScoringConfig → Result ConfigError (Unit {0})
  unfolding validate_evidence_types
  validate_scoring s = do
    raise_if (not (s.method == "simple_score")) method_unknown
    raise_if (is_blank s.method) metadata_blank
    raise_if (is_blank s.scorer_version) metadata_blank
    raise_if (is_blank s.profile_id) metadata_blank
    validate_evidence_types s.evidence_types

  module _ {F : Type 0} (f : Float F) (durations : Durations F) where
    -- `_validate_positive_duration_seconds`
    unfoldable pub validate_duration : F → Result ConfigError (Unit {0})
    validate_duration value = do
      raise_if (not (f.is_finite value)) not_finite
      check_timedelta (durations.timedelta value)

    -- `validate_step_size_sec`
    unfoldable pub validate_step_size_sec : F → Result ConfigError (Unit {0})
    unfolding validate_duration
    validate_step_size_sec value = do
      validate_duration value
      raise_if (not (durations.is_whole_milliseconds value)) not_milliseconds

    -- What the constructor of a `StoppingConfig` checks.
    unfoldable pub validate_stopping : StoppingConfig F → Result ConfigError (Unit {0})
    validate_stopping s = do
      raise_if (not (in_unit f s.threshold_on)) threshold_range
      raise_if (not (in_unit f s.threshold_off)) threshold_range
      raise_if (not (is_positive s.persistence_k)) persistence_range
      raise_if (f.at_most s.threshold_on s.threshold_off) threshold_order

    -- `Field(gt=0)`
    abbrev pub positive_field : F → Result ConfigError (Unit {0})
    positive_field value = raise_if (not (f.less f.zero value)) not_positive

    abbrev pub validate_version : Option String → Result ConfigError (Unit {0})
    validate_version none = ok tt
    validate_version (some v) = raise_if (is_blank v) version_blank

    -- What the constructor of a `FusionConfig` checks, with its parts.
    unfoldable pub validate_config : FusionConfig F → Result ConfigError (Unit {0})
    unfolding validate_scoring validate_duration validate_step_size_sec validate_stopping
    validate_config c = do
      raise_if (is_blank c.config_version) version_blank
      validate_version c.model_version
      positive_field c.window_size_sec
      validate_duration c.window_size_sec
      positive_field c.step_size_sec
      validate_step_size_sec c.step_size_sec
      validate_scoring c.scoring
      validate_stopping c.stopping

    -- `timedelta(seconds=value)`
    abbrev pub duration_of : F → Result FusionError ℤ
    duration_of value = elim (durations.timedelta value) [ none ↦ err overflow | some d ↦ ok d ]

    -- `build_runner`
    unfoldable pub build_runner : FusionConfig F → Result FusionError (TemporalReplayRunner F)
    unfolding Score.init Window.init Stopping.init Replay.init
    build_runner c = do
      size ← duration_of c.window_size_sec
      engine ← Window.init size
      scorer ← Score.init c.scoring.evidence_types
      policy ←
          Stopping.init f c.stopping.threshold_on c.stopping.threshold_off c.stopping.persistence_k
      step ← duration_of c.step_size_sec
      Replay.init engine scorer policy step
