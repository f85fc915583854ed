-- ===== src/Prelude/Text.antt =====
-- The texts of the program: Python's `str.strip` as far as the code asks about it.
use Prim.Native.Char.{code}
use Prim.Native.Nat.{ℕ, suc}
use Prim.Native.String.{String}
use mathlib.Core.Bool.{Bool, true, false, ◌&&◌, ◌||◌}
use incident_awareness_engin.Prelude.Tests.{leb, eqb}

-- The characters that `str.strip` takes off (`str.isspace`).
unfoldable pub is_space : ℕ → Bool
is_space c =
    leb 9 c && leb c 13
    || leb 28 c && leb c 32
    || eqb c 0x85
    || eqb c 0xa0
    || eqb c 0x1680
    || leb 0x2000 c && leb c 0x200a
    || leb 0x2028 c && leb c 0x2029
    || eqb c 0x202f
    || eqb c 0x205f
    || eqb c 0x3000

-- `not s.strip()`
unfoldable pub is_blank : String → Bool
unfolding is_space
is_blank String.[] = true
is_blank (String.◌∷◌ c s) = is_space (code c) && is_blank s

last_is_space : ℕ → String → Bool
unfolding is_space
last_is_space c String.[] = is_space c
last_is_space c (String.◌∷◌ d s) = last_is_space (code d) s

-- `s != s.strip()`: the first or the last character is white space.
unfoldable pub is_padded : String → Bool
unfolding is_space last_is_space
is_padded String.[] = false
is_padded (String.◌∷◌ c s) = is_space (code c) || last_is_space (code c) s

unfoldable pub is_empty : String → Bool
is_empty String.[] = true
is_empty (String.◌∷◌ c s) = false

-- `len(s)`
unfoldable pub text_length : String → ℕ
text_length String.[] = 0
text_length (String.◌∷◌ c s) = suc (text_length s)
