-- ===== src/Fusion/Stopping/Numbering.antt =====
-- The ids of the episodes (`f"FEP-{n:03d}"`): two numbers never share one.
use Prim.Native.Char.{code}
use Prim.Native.String as String
use Prim.Native.String.{String}
use text.Mathlib.TextLemmas.{nil-append, cons-append}
use incident_awareness_engin.Fusion.Stopping.Point.{digit, decimal, episode_id, FusionEpisode}
use incident_awareness_engin.Fusion.Stopping.Episodes.{Episodes}
use incident_awareness_engin.Float.{Float}
use incident_awareness_engin.Fusion.Stopping.{ThresholdStoppingPolicy}
use incident_awareness_engin.Model.RunId.{codes}
use incident_awareness_engin.Prelude.{
  ℕ, zero, suc, ◌+◌, ◌-◌, ◌*◌, ◌/◌, ◌%◌, ◌≤◌, ◌<◌, ◌≡◌, refl, ◌∙◌, ap, sym, true, false, inl, inr,
  List, [], ◌∷◌, ◌++◌, map, Option, some, ltb, if◌then◌else◌, arith, Bool-cases, contains,
  IsDistinct, string_eq, is_empty, ltb→lt, ltb→le,
}

-- The number that decimal digits write, behind a number read so far.
abbrev value : ℕ → List ℕ → ℕ
value acc [] = acc
value acc (c ∷ s) = value (acc * 10 + (c - 48)) s

value-append : (acc : ℕ) (s t : List ℕ) → value acc (s ++ t) ≡ value (value acc s) t
value-append acc [] t = refl
value-append acc (c ∷ s) t = value-append (acc * 10 + (c - 48)) s t

codes-append : (s t : String) → codes (String.◌++◌ s t) ≡ codes s ++ codes t
unfolding codes
codes-append String.[] t = ap codes (nil-append t)
codes-append (String.◌∷◌ c s) t =
    ap codes (cons-append c s t) ∙ ap (λ xs. code c ∷ xs) (codes-append s t)

value-digit : (acc n : ℕ) → n < 10 → value acc (codes (digit n)) ≡ acc * 10 + n
unfolding codes
value-digit acc zero h = refl
value-digit acc (suc zero) h = refl
value-digit acc (suc (suc zero)) h = refl
value-digit acc (suc (suc (suc zero))) h = refl
value-digit acc (suc (suc (suc (suc zero)))) h = refl
value-digit acc (suc (suc (suc (suc (suc zero))))) h = refl
value-digit acc (suc (suc (suc (suc (suc (suc zero)))))) h = refl
value-digit acc (suc (suc (suc (suc (suc (suc (suc zero))))))) h = refl
value-digit acc (suc (suc (suc (suc (suc (suc (suc (suc zero)))))))) h = refl
value-digit acc (suc (suc (suc (suc (suc (suc (suc (suc (suc zero))))))))) h = refl
value-digit acc (suc (suc (suc (suc (suc (suc (suc (suc (suc (suc n)))))))))) h =
    absurd (omega (arith, h))

decimal_long :
    (f n : ℕ)
    → ltb n 10 ≡ false
    → decimal (suc f) n ≡ String.◌++◌ (decimal f (n / 10)) (digit (n % 10))
unfolding decimal
decimal_long f n h = ground arith

decimal_short : (f n : ℕ) → ltb n 10 ≡ true → decimal (suc f) n ≡ digit n
unfolding decimal
decimal_short f n h = ground arith

-- What `decimal` writes reads back.
value-decimal : (f n : ℕ) → n < f → value 0 (codes (decimal f n)) ≡ n
value-decimal zero n h = absurd (omega (arith, h))
value-decimal (suc f) n h = elim (Bool-cases (ltb n 10)) [
  | inl e ↦
      ap (λ s. value 0 (codes s)) (decimal_short f n e)
      ∙ value-digit 0 n (ltb→lt _ _ e)
      ∙ omega arith
  | inr e ↦
      let big : 10 ≤ n = ltb→le _ _ e in
      ap (λ s. value 0 (codes s)) (decimal_long f n e)
      ∙ ap (value 0) (codes-append (decimal f (n / 10)) (digit (n % 10)))
      ∙ value-append 0 (codes (decimal f (n / 10))) (codes (digit (n % 10)))
      ∙ ap (λ v. value v (codes (digit (n % 10))))
          (value-decimal f (n / 10) (omega (arith, big, h)))
      ∙ value-digit (n / 10) (n % 10) (omega arith)
      ∙ omega arith
]

-- The number that an id writes behind its prefix of four characters.
abbrev number_of : List ℕ → ℕ
number_of (a ∷ b ∷ c ∷ d ∷ s) = value 0 s
number_of _ = 0

number_of-prefix : (s : String) → number_of (codes (String.◌++◌ "FEP-" s)) ≡ value 0 (codes s)
unfolding codes
number_of-prefix s = ap number_of (codes-append "FEP-" s)

-- Leading zeros do not count.
value-pad :
    (zeros s : String)
    → value 0 (codes zeros) ≡ 0
    → value 0 (codes (String.◌++◌ zeros s)) ≡ value 0 (codes s)
value-pad zeros s h =
    ap (value 0) (codes-append zeros s)
    ∙ value-append 0 (codes zeros) (codes s)
    ∙ ap (λ v. value v (codes s)) h

number_of-episode_id : (n : ℕ) → number_of (codes (episode_id n)) ≡ n
unfolding episode_id codes
number_of-episode_id n = elim (Bool-cases (ltb n 10)) [
  | inl e ↦
      ap
        (λ b. number_of (
          codes (
            String.◌++◌ "FEP-" (
              if b
              then String.◌++◌ "00" (decimal (suc n) n)
              else if ltb n 100
              then String.◌++◌ "0" (decimal (suc n) n)
              else decimal (suc n) n))))
        e
      ∙ number_of-prefix (String.◌++◌ "00" (decimal (suc n) n))
      ∙ value-pad "00" (decimal (suc n) n) refl
      ∙ value-decimal (suc n) n (omega arith)
  | inr e ↦
      ap
        (λ b. number_of (
          codes (
            String.◌++◌ "FEP-" (
              if b
              then String.◌++◌ "00" (decimal (suc n) n)
              else if ltb n 100
              then String.◌++◌ "0" (decimal (suc n) n)
              else decimal (suc n) n))))
        e
      ∙ number_of-prefix
          (if ltb n 100 then String.◌++◌ "0" (decimal (suc n) n) else decimal (suc n) n)
      ∙ elim (Bool-cases (ltb n 100)) [
        | inl h ↦
            ap
              (λ b.
                value 0
                  (codes (if b then String.◌++◌ "0" (decimal (suc n) n) else decimal (suc n) n)))
              h
            ∙ value-pad "0" (decimal (suc n) n) refl
            ∙ value-decimal (suc n) n (omega arith)
        | inr h ↦
            ap
              (λ b.
                value 0
                  (codes (if b then String.◌++◌ "0" (decimal (suc n) n) else decimal (suc n) n)))
              h
            ∙ value-decimal (suc n) n (omega arith)
      ]
]

pub episode_id-named : (n : ℕ) → is_empty (episode_id n) ≡ false
unfolding episode_id is_empty
episode_id-named n = ap is_empty (
    cons-append "F" "EP-" (
      if ltb n 10
      then String.◌++◌ "00" (decimal (suc n) n)
      else if ltb n 100
      then String.◌++◌ "0" (decimal (suc n) n)
      else decimal (suc n) n))

-- An id names one number.
pub episode_id_injective : (m n : ℕ) → episode_id m ≡ episode_id n → m ≡ n
episode_id_injective m n h =
    sym (number_of-episode_id m) ∙ ap (λ s. number_of (codes s)) h ∙ number_of-episode_id n

module _ {F : Type 0} (f : Float F) (policy : ThresholdStoppingPolicy F)
    (run_id entity_id : String) where
  abbrev pub ids_of : List (FusionEpisode F) → List String
  ids_of = map (λ (e : FusionEpisode F). e.episode_id)

  absent :
      (m n : ℕ) (low : Option ℕ) (es : List (FusionEpisode F))
      → m ≤ n
      → Episodes f policy run_id entity_id n low es
      → contains (episode_id m) (ids_of es) ≡ false
  absent m n low [] h k = refl
  absent m n low (e ∷ es) h k = elim (Bool-cases (string_eq.beq (episode_id m) e.episode_id)) [
    | inl same ↦
        let equal : episode_id m ≡ episode_id (n + 1) =
          (string_eq.beq_iff (episode_id m) e.episode_id).0 same ∙ k.0.numbered in
        absurd (omega (arith, episode_id_injective m (n + 1) equal, h))
    | inr apart ↦ rw apart (absent m (n + 1) (some e.end_time.instant) es (omega (arith, h)) k.1)
  ]

  -- The episodes of a result are named apart.
  pub Episodes-IsDistinct :
      (n : ℕ) (low : Option ℕ) (es : List (FusionEpisode F))
      → Episodes f policy run_id entity_id n low es
      → IsDistinct (ids_of es)
  Episodes-IsDistinct n low [] h = tt
  Episodes-IsDistinct n low (e ∷ es) h = (
    ap (λ i. contains i (ids_of es)) h.0.numbered
        ∙ absent (n + 1) (n + 1) (some e.end_time.instant) es (omega arith) h.1,
    Episodes-IsDistinct (n + 1) (some e.end_time.instant) es h.1,
  )
