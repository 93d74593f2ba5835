-- ===== src/Prelude/Text.antt =====
-- Text literals as C strings.
use Prim.Native.Nat.{ℕ}
use Prim.Native.Char.{code}
use Prim.Native.String.{String}
use mathlib.Core.List.{List, [], ◌∷◌, ◌++◌}

-- The bytes of an ASCII text.
abbrev pub codes : String → List ℕ
codes String.[] = []
codes (String.◌∷◌ c s) = code c ∷ codes s

-- The bytes of a string literal, its zero byte included.
abbrev pub c_string : String → List ℕ
c_string s = codes s ++ (0 ∷ [])
