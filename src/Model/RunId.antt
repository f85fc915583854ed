-- ===== src/Model/RunId.antt =====
-- The run id of the exchanged models (common/models/result.py, `validate_run_id`): `RUN-YYYYMMDD-NNN`
-- with a date of the calendar.
use Prim.Native.Char.{code}
use incident_awareness_engin.Model.Error.{ContractError, run_id_pattern, run_id_date}
use incident_awareness_engin.Prelude.{
  ℕ, zero, suc, ◌+◌, ◌-◌, ◌*◌, ◌/◌, ◌%◌, Bool, not, ◌&&◌, ◌||◌, List, [], ◌∷◌, Option, none, some,
  String, Result, err, raise_if, leb, eqb, if◌then◌else◌,
}

unfoldable pub codes : String → List ℕ
codes String.[] = []
codes (String.◌∷◌ c s) = code c ∷ codes s

-- The rest behind a literal text.
unfoldable pub skip : List ℕ → List ℕ → Option (List ℕ)
skip [] s = some s
skip (c ∷ cs) [] = none
skip (c ∷ cs) (d ∷ s) = if eqb c d then skip cs s else none

-- The number that so many digits write, and the rest.
unfoldable pub digits : ℕ → ℕ → List ℕ → Option (ℕ × List ℕ)
digits zero acc s = some (acc, s)
digits (suc n) acc [] = none
digits (suc n) acc (c ∷ s) = if leb 48 c && leb c 57 then digits n (acc * 10 + (c - 48)) s else none

-- `_RUN_ID_PATTERN.fullmatch(value)`, with the number that the group `date` writes.
unfoldable pub full_match : String → Option ℕ
unfolding codes skip digits
full_match s = elim (skip (codes "RUN-") (codes s)) [
  | none ↦ none
  | some a ↦ elim (digits 8 0 a) [
    | none ↦ none
    | some (date, b) ↦ elim (skip (codes "-") b) [
      | none ↦ none
      | some c ↦ elim (digits 3 0 c) [
        | none ↦ none
        | some (sequence, []) ↦ some date
        | some (sequence, x ∷ xs) ↦ none
      ]
    ]
  ]
]

unfoldable pub is_leap : ℕ → Bool
is_leap year = eqb (year % 4) 0 && not (eqb (year % 100) 0) || eqb (year % 400) 0

unfoldable pub days_in_month : ℕ → ℕ → ℕ
unfolding is_leap
days_in_month year month =
    if eqb month 2
    then (if is_leap year then 29 else 28)
    else if eqb month 4 || eqb month 6 || eqb month 9 || eqb month 11
    then 30
    else 31

-- `date.fromisoformat` of eight digits, which it reads as YYYYMMDD.
unfoldable pub is_date : ℕ → Bool
unfolding days_in_month
is_date date =
    let year = date / 10000 in
    let month = date / 100 % 100 in
    let day = date % 100 in
    leb 1 year && leb 1 month && leb month 12 && leb 1 day && leb day (days_in_month year month)

unfoldable pub validate_run_id : String → Result ContractError (Unit {0})
unfolding full_match is_date
validate_run_id value = elim (full_match value) [
  | none ↦ err run_id_pattern
  | some date ↦ raise_if (not (is_date date)) run_id_date
]
