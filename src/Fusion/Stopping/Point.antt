-- ===== src/Fusion/Stopping/Point.antt =====
-- The records of decision/fusion/stopping_policy.py, and the text of an episode's id.
use Prim.Native.String.{◌++◌}
use incident_awareness_engin.Prelude.{
  ℕ, zero, suc, ◌/◌, ◌%◌, List, Option, String, Datetime, ltb, if◌then◌else◌,
}

pub data FusionEndReason : Type 0 where
  released run_end replay_end : FusionEndReason

pub data PolicyState : Type 0 where
  off on : PolicyState

pub data FusionStatus : Type 0 where
  detected miss not_evaluated : FusionStatus

pub record ScorePoint (F : Type 0) : Type 0 where
  pub timestamp : Datetime
  pub score : F

pub record StoppingTracePoint (F : Type 0) : Type 0 where
  pub timestamp : Datetime
  pub score : F
  pub persistence_count : Option ℕ
  pub policy_state : PolicyState

pub record FusionEpisode (F : Type 0) : Type 0 where
  pub episode_id : String
  pub run_id : String
  pub entity_id : String
  pub start_time : Datetime
  pub end_time : Datetime
  pub end_reason : FusionEndReason
  pub score_at_start : F
  pub peak_score : F

pub record StoppingResult (F : Type 0) : Type 0 where
  pub fusion_status : FusionStatus
  pub fusion_time : Option Datetime
  pub score_at_decision : Option F
  pub fusion_episodes : List (FusionEpisode F)

abbrev pub digit : ℕ → String
digit zero = "0"
digit (suc zero) = "1"
digit (suc (suc zero)) = "2"
digit (suc (suc (suc zero))) = "3"
digit (suc (suc (suc (suc zero)))) = "4"
digit (suc (suc (suc (suc (suc zero))))) = "5"
digit (suc (suc (suc (suc (suc (suc zero)))))) = "6"
digit (suc (suc (suc (suc (suc (suc (suc zero))))))) = "7"
digit (suc (suc (suc (suc (suc (suc (suc (suc zero)))))))) = "8"
digit _ = "9"

-- `str(n)`; the first argument bounds the number of digits.
unfoldable pub decimal : ℕ → ℕ → String
decimal zero n = ""
decimal (suc f) n =
    let rest = decimal f (n / 10) in if ltb n 10 then digit n else rest ++ digit (n % 10)

-- `f"FEP-{n:03d}"`
unfoldable pub episode_id : ℕ → String
unfolding decimal
episode_id n =
    "FEP-"
    ++ (if ltb n 10
        then "00" ++ decimal (suc n) n
        else if ltb n 100
        then "0" ++ decimal (suc n) n
        else decimal (suc n) n)
