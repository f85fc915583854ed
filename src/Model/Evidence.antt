-- ===== src/Model/Evidence.antt =====
-- Evidence (common/models/evidence.py). `features`, a dictionary of arbitrary objects that no modelled
-- code reads, is left out.
use incident_awareness_engin.Prelude.{Bool, true, false, List, String, Datetime, is_utc, null}

pub data SourceLayer : Type 0 where
  raw_telemetry detector_output mixed : SourceLayer

pub data ChannelGroup : Type 0 where
  fusion_feature diagnostic_only : ChannelGroup

pub record Evidence : Type 0 where
  pub evidence_id : String
  pub run_id : String
  pub timestamp : Datetime
  pub entity_id : String
  pub evidence_type : String
  pub event_ids : List String
  pub derived_from_source_layer : SourceLayer
  pub feature_channel_group : ChannelGroup
  pub extractor_version : String
  pub attack_technique_ids : List String

-- `min_length=1` of `event_ids` and `timestamp_must_be_utc`.
unfoldable pub is_valid_evidence : Evidence → Bool
is_valid_evidence e = elim (null e.event_ids) [ true ↦ false | false ↦ is_utc e.timestamp ]
