-- ===== src/Fusion/Result/Episodes.antt =====
-- The episodes of a replay as `build_fusion_result` exchanges them: each passes its validators, and they
-- belong together.
use incident_awareness_engin.Float.{Float}
use incident_awareness_engin.Fusion.Result.{build_episode, build_episodes}
use incident_awareness_engin.Fusion.Stopping.Episodes.{Episodes, IsEpisode}
use incident_awareness_engin.Fusion.Stopping.Numbering.{ids_of, episode_id-named}
use incident_awareness_engin.Fusion.Stopping.{ThresholdStoppingPolicy, FusionEpisode}
use incident_awareness_engin.Model.Fusion.{
  FusionEpisodeResult, FusionResult, first_episode, validate_episode, validate_episode_contract,
  validate_utc, validate_owner, for_each,
}
use incident_awareness_engin.Prelude.{
  ℕ, ◌+◌, ◌≤◌, ◌<◌, ◌≡◌, refl, ◌∙◌, ap, sym, true, false, List, [], ◌∷◌, map, Option, some, String,
  ok, arith, All, All-imp, Datetime, is_utc, is_empty, le→ltb, Dict, lookup, ◌==◌, string_eq,
  nat_eq,
}

pub utc_valid : (t : Datetime) → is_utc t ≡ true → validate_utc t ≡ ok tt
unfolding validate_utc
utc_valid t h = ground arith

module _ {F : Type 0} (f : Float F) (policy : ThresholdStoppingPolicy F)
    (run_id entity_id : String) where
  pub starts_later :
      (n l : ℕ) (es : List (FusionEpisode F))
      → Episodes f policy run_id entity_id n (some l) es
      → All (λ (e : FusionEpisode F). l ≤ e.start_time.instant) es
  starts_later n l [] h = tt
  starts_later n l (e ∷ es) h =
      let apart : l < e.start_time.instant = h.0.apart in
      (
        omega (arith, apart),
        All-imp (λ x k. omega (arith, k, h.0.forward, apart)) es
            (starts_later (n + 1) e.end_time.instant es h.1),
      )

  module _ (own : ℕ → List String) where
    -- The episode as it is exchanged.
    abbrev pub built : FusionEpisode F → FusionEpisodeResult F
    built e = record {
      episode_id = e.episode_id;
      run_id = e.run_id;
      entity_id = e.entity_id;
      start_time = e.start_time;
      end_time = some e.end_time;
      end_reason = some e.end_reason;
      score_at_start = e.score_at_start;
      peak_score = e.peak_score;
      contributing_evidence_ids = some (own e.start_time.instant);
    }

    pub first_is_head :
        (e : FusionEpisode F) (es : List (FusionEpisode F))
        → All (λ (x : FusionEpisode F). e.start_time.instant ≤ x.start_time.instant) es
        → first_episode f (built e) (map built es) ≡ built e
    first_is_head e [] h = refl
    first_is_head e (x ∷ es) h = rw (le→ltb _ _ h.0) (first_is_head e es h.1)

    built_valid :
        (n : ℕ) (low : Option ℕ) (e : FusionEpisode F)
        → is_empty run_id ≡ false
        → is_empty entity_id ≡ false
        → IsEpisode f policy run_id entity_id n low e
        → is_utc e.start_time ≡ true
        → is_utc e.end_time ≡ true
        → validate_episode f (built e) ≡ ok tt
    unfolding validate_episode validate_episode_contract
    built_valid n low e named_run named_entity h utc_start utc_end =
        let id : is_empty e.episode_id ≡ false =
          ap is_empty h.numbered ∙ episode_id-named (n + 1) in
        let run : is_empty e.run_id ≡ false = ap is_empty h.of_run ∙ named_run in
        let entity : is_empty e.entity_id ≡ false = ap is_empty h.of_entity ∙ named_entity in
        rw
          (
            id,
            run,
            entity,
            utc_valid e.start_time utc_start,
            utc_valid e.end_time utc_end,
            le→ltb _ _ h.forward,
          )
          refl

    build_episode_lem :
        (ids : Dict ℕ (List String)) (e : FusionEpisode F)
        → lookup e.start_time.instant ids ≡ some (own e.start_time.instant)
        → validate_episode f (built e) ≡ ok tt
        → build_episode f ids e ≡ ok (built e)
    unfolding build_episode
    build_episode_lem ids e found valid = rw (found, build_episode) (rw valid refl)

    -- The loop over the episodes returns them as they are exchanged.
    pub build_episodes_lem :
        (ids : Dict ℕ (List String)) (n : ℕ) (low : Option ℕ) (es : List (FusionEpisode F))
        → is_empty run_id ≡ false
        → is_empty entity_id ≡ false
        → Episodes f policy run_id entity_id n low es
        → All
            (λ (e : FusionEpisode F). (is_utc e.start_time ≡ true) × (is_utc e.end_time ≡ true))
            es
        → All
            (λ (e : FusionEpisode F).
              lookup e.start_time.instant ids ≡ some (own e.start_time.instant))
            es
        → build_episodes f ids es ≡ ok (map built es)
    unfolding build_episodes
    build_episodes_lem ids n low [] named_run named_entity h utc found = refl
    build_episodes_lem ids n low (e ∷ es) named_run named_entity h utc found =
        rw
          (
            build_episode_lem ids e found.0
                (built_valid n low e named_run named_entity h.0 utc.0.0 utc.0.1),
            build_episodes_lem ids (n + 1) (some e.end_time.instant) es named_run named_entity h.1
                utc.1 found.1,
          )
          refl

    pub owners_valid :
        (r : FusionResult F) (n : ℕ) (low : Option ℕ) (es : List (FusionEpisode F))
        → r.run_id ≡ run_id
        → r.entity_id ≡ entity_id
        → Episodes f policy run_id entity_id n low es
        → for_each (validate_owner f r) (map built es) ≡ ok tt
    owners_valid r n low [] same_run same_entity h = refl
    owners_valid r n low (e ∷ es) same_run same_entity h =
        let run : (e.run_id == r.run_id) ≡ true =
          (string_eq.beq_iff e.run_id r.run_id).1 (h.0.of_run ∙ sym same_run) in
        let entity : (e.entity_id == r.entity_id) ≡ true =
          (string_eq.beq_iff e.entity_id r.entity_id).1 (h.0.of_entity ∙ sym same_entity) in
        rw (run, entity)
          (owners_valid r (n + 1) (some e.end_time.instant) es same_run same_entity h.1)

    pub ids_kept :
        (es : List (FusionEpisode F))
        → map (λ (e : FusionEpisodeResult F). e.episode_id) (map built es)
          ≡ ids_of f policy run_id entity_id es
    ids_kept [] = refl
    ids_kept (e ∷ es) = ap (λ xs. e.episode_id ∷ xs) (ids_kept es)
