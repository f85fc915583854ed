-- ===== src/Fusion/Config/Runner.antt =====
-- A configuration that its models accept builds a runner.
use incident_awareness_engin.Float.{Float, FloatLaws}
use incident_awareness_engin.Fusion.Config.{
  FusionConfig, Durations, is_positive, check_timedelta, validate_config, validate_duration,
  validate_step_size_sec, validate_scoring, validate_evidence_types, validate_stopping,
  validate_version, build_runner, duration_of, not_finite, metadata_blank, method_unknown,
  positive_field, version_blank,
}
use incident_awareness_engin.Fusion.Construct.{constructed-IsValid}
use incident_awareness_engin.Fusion.Replay.{TemporalReplayRunner}
use incident_awareness_engin.Fusion.Replay as Replay
use incident_awareness_engin.Fusion.Result.Pipeline.{IsPolicy}
use incident_awareness_engin.Fusion.Score as Score
use incident_awareness_engin.Fusion.Score.{SimpleScorer}
use incident_awareness_engin.Fusion.Score.Bounds as Bounds
use incident_awareness_engin.Fusion.Stopping as Stopping
use incident_awareness_engin.Fusion.Stopping.{
  ThresholdStoppingPolicy, validate_persistence, in_unit,
}
use incident_awareness_engin.Fusion.Window as Window
use incident_awareness_engin.Fusion.Window.{WindowEngine}
use incident_awareness_engin.Fusion.Window.Invariant as Invariant
use incident_awareness_engin.Prelude.{
  zero, suc, ◌<◌, ◌≡◌, refl, true, false, not, List, Option, none, some, String, ok, ℤ, pos, negsuc,
  arith, any, null, is_blank, length, set_of, eqb, string_eq, ◌==◌, >>-eq-ok, raise_if,
}

module _ {F : Type 0} (f : Float F) (durations : Durations F) (managed : List String) where
  window_made : (d : ℤ) → is_positive d ≡ true → (w : WindowEngine) × (Window.init d ≡ ok w)
  unfolding Window.init
  window_made (negsuc n) h = cc
  window_made (pos zero) h = cc
  window_made (pos (suc n)) h = (_, refl)

  replay_made :
      (w : WindowEngine) (s : SimpleScorer) (p : ThresholdStoppingPolicy F) (d : ℤ)
      → is_positive d ≡ true
      → (r : TemporalReplayRunner F) × (Replay.init w s p d ≡ ok r)
  unfolding Replay.init
  replay_made w s p (negsuc n) h = cc
  replay_made w s p (pos zero) h = cc
  replay_made w s p (pos (suc n)) h = (_, refl)

  policy_made :
      (on off : F) (k : ℤ)
      → in_unit f on ≡ true
      → in_unit f off ≡ true
      → f.at_most on off ≡ false
      → is_positive k ≡ true
      → (p : ThresholdStoppingPolicy F) × (Stopping.init f on off k ≡ ok p)
  unfolding Stopping.init validate_persistence
  policy_made on off (negsuc n) a b c h = cc
  policy_made on off (pos zero) a b c h = cc
  policy_made on off (pos (suc n)) a b c h =
      (record { threshold_on = on; threshold_off = off; persistence_k = suc n }, rw (a, b, c) refl)

  scorer_made :
      (types : List String)
      → validate_evidence_types managed types ≡ ok tt
      → (s : SimpleScorer) × (Score.init types ≡ ok s)
  unfolding Score.init validate_evidence_types
  scorer_made types h =
      let full : null types ≡ false = ground arith in
      let named : any is_blank types ≡ false = ground arith in
      let apart : eqb (length (set_of types)) (length types) ≡ true = ground arith in
      (record { profile_types = set_of types }, rw (full, named, apart) refl)

  timedelta_made :
      (o : Option ℤ) → check_timedelta o ≡ ok tt → (d : ℤ) × (o ≡ some d) × (is_positive d ≡ true)
  timedelta_made none h = cc
  timedelta_made (some d) h = (d, refl, ground arith)

  record Checked (c : FusionConfig F) : Type 0 where
    window : validate_duration managed f durations c.window_size_sec ≡ ok tt
    step : validate_duration managed f durations c.step_size_sec ≡ ok tt
    types : validate_evidence_types managed c.scoring.evidence_types ≡ ok tt
    on_unit : in_unit f c.stopping.threshold_on ≡ true
    off_unit : in_unit f c.stopping.threshold_off ≡ true
    counted : is_positive c.stopping.persistence_k ≡ true
    apart : f.at_most c.stopping.threshold_on c.stopping.threshold_off ≡ false

  duration_of-eq :
      (value : F) (d : ℤ)
      → durations.timedelta value ≡ some d
      → duration_of managed f durations value ≡ ok d
  duration_of-eq value d is = rw (is, duration_of) refl

  duration_made :
      (value : F)
      → validate_duration managed f durations value ≡ ok tt
      → (d : ℤ) × (duration_of managed f durations value ≡ ok d) × (is_positive d ≡ true)
  unfolding validate_duration
  duration_made value h =
      let passed = >>-eq-ok (raise_if (not (f.is_finite value)) not_finite) _ h in
      let (d, is, positive) = timedelta_made (durations.timedelta value) passed.1 in
      (d, duration_of-eq value d is, positive)

  step_checked :
      (c : FusionConfig F)
      → validate_step_size_sec managed f durations c.step_size_sec ≡ ok tt
      → validate_duration managed f durations c.step_size_sec ≡ ok tt
  unfolding validate_step_size_sec
  step_checked c h = (>>-eq-ok (validate_duration managed f durations c.step_size_sec) _ h).0

  types_checked :
      (c : FusionConfig F)
      → validate_scoring managed c.scoring ≡ ok tt
      → validate_evidence_types managed c.scoring.evidence_types ≡ ok tt
  unfolding validate_scoring
  types_checked c h =
      let z = >>-eq-ok (raise_if (not (c.scoring.method == "simple_score")) method_unknown) _ h in
      let a = >>-eq-ok (raise_if (is_blank c.scoring.method) metadata_blank) _ z.1 in
      let b = >>-eq-ok (raise_if (is_blank c.scoring.scorer_version) metadata_blank) _ a.1 in
      (>>-eq-ok (raise_if (is_blank c.scoring.profile_id) metadata_blank) _ b.1).1

  stopping_checked :
      (c : FusionConfig F)
      → validate_stopping managed f durations c.stopping ≡ ok tt
      → (in_unit f c.stopping.threshold_on ≡ true)
        × (in_unit f c.stopping.threshold_off ≡ true)
        × (is_positive c.stopping.persistence_k ≡ true)
        × (f.at_most c.stopping.threshold_on c.stopping.threshold_off ≡ false)
  unfolding validate_stopping
  stopping_checked c h = (ground arith, ground arith, ground arith, ground arith)

  config-Checked : (c : FusionConfig F) → validate_config managed f durations c ≡ ok tt → Checked c
  unfolding validate_config
  config-Checked c h =
      let a = >>-eq-ok (raise_if (is_blank c.config_version) version_blank) _ h in
      let b = >>-eq-ok (validate_version managed f durations c.model_version) _ a.1 in
      let b' = >>-eq-ok (positive_field managed f durations c.window_size_sec) _ b.1 in
      let d = >>-eq-ok (validate_duration managed f durations c.window_size_sec) _ b'.1 in
      let d' = >>-eq-ok (positive_field managed f durations c.step_size_sec) _ d.1 in
      let e = >>-eq-ok (validate_step_size_sec managed f durations c.step_size_sec) _ d'.1 in
      let g = >>-eq-ok (validate_scoring managed c.scoring) _ e.1 in
      let (on_unit, off_unit, counted, apart) = stopping_checked c g.1 in
      record {
        window = d.0;
        step = step_checked c e.0;
        types = types_checked c g.0;
        on_unit = on_unit;
        off_unit = off_unit;
        counted = counted;
        apart = apart;
      }

  build_runner-eq :
      (c : FusionConfig F) (size step : ℤ) (w : WindowEngine) (s : SimpleScorer)
      (p : ThresholdStoppingPolicy F) (r : TemporalReplayRunner F)
      → duration_of managed f durations c.window_size_sec ≡ ok size
      → Window.init size ≡ ok w
      → Score.init c.scoring.evidence_types ≡ ok s
      → Stopping.init f c.stopping.threshold_on c.stopping.threshold_off c.stopping.persistence_k
        ≡ ok p
      → duration_of managed f durations c.step_size_sec ≡ ok step
      → Replay.init w s p step ≡ ok r
      → build_runner managed f durations c ≡ ok r
  unfolding build_runner
  build_runner-eq c size step w s p r sized windowed scored policed stepped made =
      rw (sized, windowed, scored, policed, stepped, made) refl

  -- A configuration that its models accept builds a runner, without an error, and the runner is what the theorems on
  -- the Fusion path ask for.
  pub build_runner-IsValid :
      FloatLaws f
      → (c : FusionConfig F) → validate_config managed f durations c ≡ ok tt
      → (r : TemporalReplayRunner F) × (build_runner managed f durations c ≡ ok r)
        × Bounds.IsValid r.scorer
        × Invariant.IsValid r.window_engine
        × IsPolicy f r.stopping_policy
        × (0 < r.step_size)
  build_runner-IsValid laws c valid =
      let h = config-Checked c valid in
      let (size, sized, wide) = duration_made c.window_size_sec h.window in
      let (step, stepped, forward) = duration_made c.step_size_sec h.step in
      let (w, windowed) = window_made size wide in
      let (s, scored) = scorer_made c.scoring.evidence_types h.types in
      let (p, policed) =
        policy_made c.stopping.threshold_on c.stopping.threshold_off c.stopping.persistence_k
          h.on_unit h.off_unit h.apart h.counted in
      let (r, made) = replay_made w s p step forward in
      let (scorer, engine, policy, positive) =
        constructed-IsValid f laws c.scoring.evidence_types size c.stopping.persistence_k step
          c.stopping.threshold_on c.stopping.threshold_off s w p r scored windowed policed made in
      (
        r,
        build_runner-eq c size step w s p r sized windowed scored policed stepped made,
        scorer,
        engine,
        policy,
        positive,
      )
