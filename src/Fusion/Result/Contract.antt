-- ===== src/Fusion/Result/Contract.antt =====
-- The Fusion path keeps its contract: what a replay returns always passes the validators of the exchanged
-- models.
use mathlib.Core.Path.{subst}
use incident_awareness_engin.Float.{Float, FloatLaws}
use incident_awareness_engin.Fusion.Result.{
  Versions, evidence_ids_by_timestamp, decision_evidence_ids, build_fusion_result,
}
use incident_awareness_engin.Fusion.Result.Episodes.{
  utc_valid, starts_later, built, first_is_head, build_episodes_lem, owners_valid, ids_kept,
}
use incident_awareness_engin.Fusion.Stopping.Episodes.{Episodes, Consistent}
use incident_awareness_engin.Fusion.Stopping.Numbering.{ids_of, Episodes-IsDistinct}
use incident_awareness_engin.Fusion.Stopping.{
  ThresholdStoppingPolicy, FusionEpisode, StoppingResult, FusionStatus, detected, miss,
  not_evaluated,
}
use incident_awareness_engin.Fusion.Replay.{TemporalReplayResult}
use incident_awareness_engin.Model.Fusion.{
  FusionEpisodeResult, FusionResult, first_episode, validate_result, validate_detected, by_status,
  for_each, validate_owner, validate_optional_utc, validate_status_contract, optional_non_empty,
}
use incident_awareness_engin.Prelude.{
  ℕ, ◌≡◌, refl, sym, ap, true, false, List, [], ◌∷◌, map, Option, none, some, String, ok, arith,
  All, All-imp, Datetime, is_utc, is_empty, Dict, lookup, string_eq, nat_eq, null, length, set_of,
  length-set_of, list_beq_self, eqb,
}

-- The texts of a result that must not be empty.
pub record IsNamed (run_id entity_id : String) (v : Versions) : Type 0 where
  pub run : is_empty run_id ≡ false
  pub entity : is_empty entity_id ≡ false
  pub config : is_empty v.scoring_config_version ≡ false
  pub profile : is_empty v.scoring_profile_id ≡ false
  pub method : is_empty v.scoring_method ≡ false
  pub scorer : is_empty v.scorer_version ≡ false
  pub model : optional_non_empty v.model_version ≡ ok tt

-- What an episode brings along: its times in UTC, the snapshot at its start, with at least one id, and a
-- finite score.
pub record IsReady {F : Type 0} (f : Float F) (own : ℕ → List String) (ids : Dict ℕ (List String))
    (e : FusionEpisode F) : Type 0 where
  pub utc_start : is_utc e.start_time ≡ true
  pub utc_end : is_utc e.end_time ≡ true
  pub found : lookup e.start_time.instant ids ≡ some (own e.start_time.instant)
  pub full : null (own e.start_time.instant) ≡ false
  pub finite : f.is_finite e.score_at_start ≡ true

module _ {F : Type 0} (f : Float F) where
  detection_valid :
      (r : FusionResult F) (b : FusionEpisodeResult F) (bs : List (FusionEpisodeResult F))
      → first_episode f b bs ≡ b
      → b.contributing_evidence_ids ≡ some r.contributing_evidence_ids
      → f.same b.score_at_start b.score_at_start ≡ true
      → null r.contributing_evidence_ids ≡ false
      → validate_detected f r (some b.start_time) (b ∷ bs) (some b.score_at_start) ≡ ok tt
  detection_valid r b bs head own same full =
      rw
        (
          head,
          (nat_eq.beq_iff b.start_time.instant b.start_time.instant).1 refl,
          same,
          full,
          own,
          list_beq_self r.contributing_evidence_ids,
        )
        refl

  status_valid :
      (r : FusionResult F)
      → for_each (validate_owner f r) r.fusion_episodes ≡ ok tt
      → (let ids = map (λ (e : FusionEpisodeResult F). e.episode_id) r.fusion_episodes in
          eqb (length ids) (length (set_of ids)) ≡ true)
      → by_status f r ≡ ok tt
      → validate_status_contract f r ≡ ok tt
  unfolding validate_status_contract
  status_valid r owners distinct detail = rw (owners, distinct) detail

  result_valid :
      (r : FusionResult F)
      → is_empty r.run_id ≡ false
      → is_empty r.entity_id ≡ false
      → validate_optional_utc r.fusion_time ≡ ok tt
      → is_empty r.scoring_config_version ≡ false
      → is_empty r.scoring_profile_id ≡ false
      → optional_non_empty r.model_version ≡ ok tt
      → is_empty r.scoring_method ≡ false
      → is_empty r.scorer_version ≡ false
      → validate_status_contract f r ≡ ok tt
      → validate_result f r ≡ ok tt
  unfolding validate_result
  result_valid r run entity time config profile model method scorer status =
      rw (run, entity, time, config, profile, model, method, scorer) status

-- The ids of a decision: those at its time, and none without one.
abbrev pub ids_of_decision : (ℕ → List String) → Option Datetime → List String
ids_of_decision own none = []
ids_of_decision own (some t) = own t.instant

module _ {F : Type 0} (f : Float F) (laws : FloatLaws f) (policy : ThresholdStoppingPolicy F)
    (run_id entity_id : String) (own : ℕ → List String) (versions : Versions)
    (named : IsNamed run_id entity_id versions) where
  -- The exchanged result of the stopping result of one replay.
  abbrev pub exchanged : StoppingResult F → List String → FusionResult F
  exchanged s contributing = record {
    run_id = run_id;
    entity_id = entity_id;
    fusion_time = s.fusion_time;
    fusion_status = s.fusion_status;
    score_at_decision = s.score_at_decision;
    contributing_evidence_ids = contributing;
    scoring_config_version = versions.scoring_config_version;
    scoring_profile_id = versions.scoring_profile_id;
    model_version = versions.model_version;
    scoring_method = versions.scoring_method;
    scorer_version = versions.scorer_version;
    fusion_episodes = map (built f policy run_id entity_id own) s.fusion_episodes;
  }

  distinct_counted :
      (es : List (FusionEpisode F))
      → Episodes f policy run_id entity_id 0 none es
      → let ids =
          map
            (λ (e : FusionEpisodeResult F). e.episode_id)
            (map (built f policy run_id entity_id own) es) in
        eqb (length ids) (length (set_of ids)) ≡ true
  distinct_counted es h =
      let ids = ids_of f policy run_id entity_id es in
      let counted : eqb (length ids) (length (set_of ids)) ≡ true =
        (nat_eq.beq_iff (length ids) (length (set_of ids))).1
          (sym (length-set_of ids (Episodes-IsDistinct f policy run_id entity_id 0 none es h))) in
      subst (λ xs. eqb (length xs) (length (set_of xs)) ≡ true)
        (sym (ids_kept f policy run_id entity_id own es)) counted

  detected_valid :
      (e : FusionEpisode F) (es : List (FusionEpisode F))
      → Episodes f policy run_id entity_id 0 none (e ∷ es)
      → f.is_finite e.score_at_start ≡ true
      → is_utc e.start_time ≡ true
      → null (own e.start_time.instant) ≡ false
      → validate_result f (
          exchanged
            (record {
              fusion_status = detected;
              fusion_time = some e.start_time;
              score_at_decision = some e.score_at_start;
              fusion_episodes = e ∷ es;
            })
            (own e.start_time.instant))
        ≡ ok tt
  detected_valid e es h finite utc full =
      let head = first_is_head f policy run_id entity_id own e es (
        All-imp (λ x k. omega (arith, k, h.0.forward)) es
          (starts_later f policy run_id entity_id 1 e.end_time.instant es h.1)) in
      let r =
        exchanged
          (record {
            fusion_status = detected;
            fusion_time = some e.start_time;
            score_at_decision = some e.score_at_start;
            fusion_episodes = e ∷ es;
          })
          (own e.start_time.instant) in
      result_valid f r named.run named.entity (utc_valid e.start_time utc) named.config
        named.profile named.model named.method named.scorer
        (status_valid f r (owners_valid f policy run_id entity_id own r 0 none (e ∷ es) refl refl h)
          (distinct_counted (e ∷ es) h)
          (detection_valid f r (built f policy run_id entity_id own e)
            (map (built f policy run_id entity_id own) es) head refl
            (laws.same_self e.score_at_start finite) full))

  missed_valid :
      validate_result f (
        exchanged
          (record {
            fusion_status = miss;
            fusion_time = none;
            score_at_decision = none;
            fusion_episodes = [];
          })
          [])
      ≡ ok tt
  unfolding validate_result validate_status_contract
  missed_valid =
      rw
        (
          named.run, named.entity, named.config, named.profile, named.method, named.scorer,
          named.model,
        )
        refl

  decided :
      (ids : Dict ℕ (List String)) (status : FusionStatus) (time : Option Datetime)
      (score : Option F) (es : List (FusionEpisode F))
      → (let s : StoppingResult F = record {
        fusion_status = status;
        fusion_time = time;
        score_at_decision = score;
        fusion_episodes = es;
      } in
          Consistent f policy run_id entity_id laws s)
      → Episodes f policy run_id entity_id 0 none es
      → All (IsReady f own ids) es
      → let s : StoppingResult F = record {
        fusion_status = status;
        fusion_time = time;
        score_at_decision = score;
        fusion_episodes = es;
      } in
        (decision_evidence_ids f ids status time ≡ ok (ids_of_decision own time))
        × (validate_result f (exchanged s (ids_of_decision own time)) ≡ ok tt)
  unfolding decision_evidence_ids
  decided ids detected time score es (e, rest, is, at, scored) h ready =
      let h' : Episodes f policy run_id entity_id 0 none (e ∷ rest) =
        subst (Episodes f policy run_id entity_id 0 none) is h in
      let ready' : All (IsReady f own ids) (e ∷ rest) = subst (All (IsReady f own ids)) is ready in
      (
        rw at (rw (ready'.0.found, decision_evidence_ids) refl),
        rw (is, at, scored)
            (detected_valid e rest h' ready'.0.finite ready'.0.utc_start ready'.0.full),
      )
  decided ids miss time score es (is, at, scored) h ready =
      (ap (λ x. ok (ids_of_decision own x)) (sym at), rw (is, at, scored) missed_valid)
  decided ids not_evaluated time score es c h ready = absurd c

  -- `build_fusion_result` returns, with every validator passed, and the result is the stopping result.
  pub build_fusion_result_lem :
      (replay : TemporalReplayResult F)
      → Consistent f policy run_id entity_id laws replay.stopping_result
      → Episodes f policy run_id entity_id 0 none replay.stopping_result.fusion_episodes
      → All
          (IsReady f own (evidence_ids_by_timestamp [] replay.evidence_snapshots))
          replay.stopping_result.fusion_episodes
      → build_fusion_result f replay (run_id, entity_id) versions
        ≡ ok (
            exchanged replay.stopping_result
              (ids_of_decision own replay.stopping_result.fusion_time))
  unfolding build_fusion_result
  build_fusion_result_lem replay consistent h ready =
      let s = replay.stopping_result in
      let ids = evidence_ids_by_timestamp [] replay.evidence_snapshots in
      let (chosen, valid) =
        decided ids s.fusion_status s.fusion_time s.score_at_decision s.fusion_episodes consistent h
          ready in
      let episodes =
        build_episodes_lem f policy run_id entity_id own ids 0 none s.fusion_episodes named.run
          named.entity h (All-imp (λ x k. (k.utc_start, k.utc_end)) s.fusion_episodes ready)
          (All-imp (λ x k. k.found) s.fusion_episodes ready) in
      rw (episodes, chosen, valid) refl
