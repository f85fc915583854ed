-- ===== src/Fusion/Construct.antt =====
-- What the constructors of the Fusion path accept is what the theorems on it ask for.
use mathlib.Core.Path.{subst}
use incident_awareness_engin.Float.{Float, FloatLaws}
use incident_awareness_engin.Fusion.Error.{threshold_on_range, threshold_off_range, threshold_order}
use incident_awareness_engin.Fusion.Replay.{TemporalReplayRunner}
use incident_awareness_engin.Fusion.Replay as Replay
use incident_awareness_engin.Fusion.Result.Pipeline.{IsPolicy}
use incident_awareness_engin.Fusion.Score as Score
use incident_awareness_engin.Fusion.Score.{SimpleScorer}
use incident_awareness_engin.Fusion.Score.Bounds as Bounds
use incident_awareness_engin.Fusion.Score.Bounds.{init-IsValid}
use incident_awareness_engin.Fusion.Stopping as Stopping
use incident_awareness_engin.Fusion.Stopping.{
  ThresholdStoppingPolicy, validate_persistence, in_unit,
}
use incident_awareness_engin.Fusion.Window as Window
use incident_awareness_engin.Fusion.Window.{WindowEngine}
use incident_awareness_engin.Fusion.Window.Invariant as Invariant
use incident_awareness_engin.Prelude.{
  ℕ, zero, suc, ◌≤◌, ◌<◌, ◌≡◌, refl, sym, true, not, List, [], String, ok, ℤ, pos, negsuc, arith,
  lookup, >>=-eq-ok, raise_if,
}

module _ {F : Type 0} (f : Float F) where
  empty-IsValid :
      (size : ℕ)
      → Invariant.IsValid (record {
        window_size = size;
        states = [];
        last_timestamp = [];
        last_advance_timestamp = [];
      })
  unfolding lookup
  empty-IsValid size = record { ordered = λ k. tt; capped = λ k. refl }

  engine-IsValid :
      (size : ℤ) (w : WindowEngine)
      → Window.init size ≡ ok w
      → Invariant.IsValid w × (0 < w.window_size)
  unfolding Window.init
  engine-IsValid (negsuc n) w h = cc
  engine-IsValid (pos zero) w h = cc
  engine-IsValid (pos (suc n)) w h =
      let fresh : WindowEngine = record {
        window_size = suc n;
        states = [];
        last_timestamp = [];
        last_advance_timestamp = [];
      } in
      let same : fresh ≡ w = cc in
      subst (λ (w : WindowEngine). Invariant.IsValid w × (0 < w.window_size)) same
        (empty-IsValid (suc n), omega arith)

  persistence-positive : (k : ℤ) (n : ℕ) → validate_persistence f k ≡ ok n → 1 ≤ n
  unfolding validate_persistence
  persistence-positive (negsuc m) n h = cc
  persistence-positive (pos zero) n h = cc
  persistence-positive (pos (suc m)) n h = ground arith

  init-IsPolicy :
      FloatLaws f
      → (on off : F) (k : ℤ) (p : ThresholdStoppingPolicy F) → Stopping.init f on off k ≡ ok p
      → IsPolicy f p
  unfolding Stopping.init
  init-IsPolicy laws on off k p h =
      let (_, a, h₁) = >>=-eq-ok (raise_if (not (in_unit f on)) threshold_on_range) _ h in
      let (_, b, h₂) = >>=-eq-ok (raise_if (not (in_unit f off)) threshold_off_range) _ h₁ in
      let (_, c, h₃) = >>=-eq-ok (raise_if (f.at_most on off) threshold_order) _ h₂ in
      let (n, d, h₄) = >>=-eq-ok (validate_persistence f k) _ h₃ in
      let on_unit : in_unit f on ≡ true = ground arith in
      let off_unit : in_unit f off ≡ true = ground arith in
      let made : ThresholdStoppingPolicy F = record {
        threshold_on = on;
        threshold_off = off;
        persistence_k = n;
      } in
      let same : made ≡ p = cc in
      subst (IsPolicy f) same (record {
        on_finite = laws.unit_finite on (ground (arith, on_unit)) (ground (arith, on_unit));
        off_finite = laws.unit_finite off (ground (arith, off_unit)) (ground (arith, off_unit));
        off_nonneg = ground (arith, off_unit);
        apart = ground arith;
        persistent = persistence-positive k n d;
      })

  step-positive :
      (w : WindowEngine) (s : SimpleScorer) (p : ThresholdStoppingPolicy F) (step : ℤ)
      (runner : TemporalReplayRunner F)
      → Replay.init w s p step ≡ ok runner
      → (0 < runner.step_size)
        × (runner.window_engine ≡ w)
        × (runner.scorer ≡ s)
        × (runner.stopping_policy ≡ p)
  unfolding Replay.init
  step-positive w s p (negsuc n) runner h = cc
  step-positive w s p (pos zero) runner h = cc
  step-positive w s p (pos (suc n)) runner h =
      let made : TemporalReplayRunner F = record {
        window_engine = w;
        scorer = s;
        stopping_policy = p;
        step_size = suc n;
      } in
      let same : made ≡ runner = cc in
      subst
        (λ (r : TemporalReplayRunner F).
          (0 < r.step_size) × (r.window_engine ≡ w) × (r.scorer ≡ s) × (r.stopping_policy ≡ p))
        same (omega arith, refl, refl, refl)

  -- The constructors build what the theorems on the Fusion path ask for: a runner from a scorer, an engine, a
  -- policy and a step that their constructors accept has a valid scorer, a valid engine, thresholds that
  -- are finite, apart and not negative, a persistence of at least one and a positive step.
  pub constructed-IsValid :
      (laws : FloatLaws f) (types : List String) (size k step : ℤ) (on off : F) (s : SimpleScorer)
      (w : WindowEngine) (p : ThresholdStoppingPolicy F) (runner : TemporalReplayRunner F)
      → Score.init types ≡ ok s
      → Window.init size ≡ ok w
      → Stopping.init f on off k ≡ ok p
      → Replay.init w s p step ≡ ok runner
      → Bounds.IsValid runner.scorer
        × Invariant.IsValid runner.window_engine
        × IsPolicy f runner.stopping_policy
        × (0 < runner.step_size)
  constructed-IsValid laws types size k step on off s w p runner scorer engine policy made =
      let (positive, of_engine, of_scorer, of_policy) = step-positive w s p step runner made in
      (
        subst Bounds.IsValid (sym of_scorer) (init-IsValid types scorer),
        subst Invariant.IsValid (sym of_engine) (engine-IsValid size w engine).0,
        subst (IsPolicy f) (sym of_policy) (init-IsPolicy laws on off k p policy),
        positive,
      )
