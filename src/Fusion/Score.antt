-- ===== src/Fusion/Score.antt =====
-- SimpleScorer (decision/fusion/simple_score.py): the share of the configured evidence types that
-- is active, and the Evidence that contributes to it.
pub mod Bounds
use incident_awareness_engin.Prelude.{
  ℕ, Bool, true, false, ◌&&◌, List, map, String, Result, ok, ◌>>=◌, ◌>>◌, raise_if, null, any,
  is_blank, not, eqb, length, set_of, contains, keep, sort_by, string_eq, string_order,
}
use incident_awareness_engin.Float.{Float}
use incident_awareness_engin.Fusion.Error.{
  FusionError, evidence_types_empty, evidence_types_blank, evidence_types_duplicate,
}
use incident_awareness_engin.Model.Evidence.{
  Evidence, ChannelGroup, fusion_feature, diagnostic_only,
}

pub record SimpleScorer : Type 0 where
  pub profile_types : List String

-- `SimpleScorer.__init__`
unfoldable pub init : List String → Result FusionError SimpleScorer
init evidence_types = do
  raise_if (null evidence_types) evidence_types_empty
  raise_if (any is_blank evidence_types) evidence_types_blank
  raise_if (not (eqb (length (set_of evidence_types)) (length evidence_types)))
      evidence_types_duplicate
  ok (record { profile_types = set_of evidence_types })

unfoldable pub denominator : SimpleScorer → ℕ
denominator s = length s.profile_types

is_fusion_feature : ChannelGroup → Bool
is_fusion_feature fusion_feature = true
is_fusion_feature diagnostic_only = false

-- `_is_scoring_evidence`
unfoldable pub is_scoring_evidence : SimpleScorer → Evidence → Bool
unfolding is_fusion_feature
is_scoring_evidence s e =
    is_fusion_feature e.feature_channel_group && contains e.evidence_type s.profile_types

-- The set comprehension of `score`.
unfoldable pub active_types : SimpleScorer → List Evidence → List String
active_types s active_evidence =
    set_of (map (λ e. e.evidence_type) (keep (is_scoring_evidence s) active_evidence))

unfoldable pub score : {F : Type 0} → Float F → SimpleScorer → List Evidence → F
score f s active_evidence = f.ratio (length (active_types s active_evidence)) (denominator s)

unfoldable pub contributing_evidence_ids : SimpleScorer → List Evidence → List String
contributing_evidence_ids s active_evidence =
    sort_by (λ i. i)
      (set_of (map (λ e. e.evidence_id) (keep (is_scoring_evidence s) active_evidence)))
