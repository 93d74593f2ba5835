-- ===== src/Tests/Text.antt =====
-- The string library on concrete text, kernel/src/generic/forslib/string.c.
use fors_kernel.Prelude.{ℕ, ◌≡◌, ◌↔◌, List, [], ◌∷◌, ◌++◌, take, arith, ok}
use fors_kernel.Prelude.Int.{ℤ, pos}
use fors_kernel.Str.{strncpy, strncmp}
use fors_kernel.Str.Length.{NoNul}
use fors_kernel.Str.Copy.{strncpy_lem}
use fors_kernel.Str.Compare.{strncmp_zero}

abbrev dirs : List ℕ
dirs = b'a' ∷ b'/' ∷ b'b' ∷ b'/' ∷ b'c' ∷ []

abbrev ab : List ℕ
ab = b'a' ∷ b'b' ∷ []

abbrev abc : List ℕ
abc = b'a' ∷ b'b' ∷ b'c' ∷ []

ab-NoNul : NoNul ab
ab-NoNul = (omega arith, (omega arith, tt))

abc-NoNul : NoNul abc
abc-NoNul = (omega arith, (omega arith, (omega arith, tt)))

strncpy_lem_example :
    strncpy (9 ∷ 9 ∷ 9 ∷ 9 ∷ []) (abc ++ (0 ∷ [])) 2 ≡ ok (b'a' ∷ b'b' ∷ 0 ∷ 9 ∷ [])
strncpy_lem_example = strncpy_lem (9 ∷ 9 ∷ 9 ∷ 9 ∷ []) abc [] 2 abc-NoNul (omega arith)

-- "abc" and "ab" compare equal in three bytes.
strncmp_zero_example :
    (z : ℤ) × (strncmp (abc ++ (0 ∷ [])) (ab ++ (0 ∷ [])) 3 ≡ ok z)
    × ((z ≡ pos 0) ↔ (take 2 abc ≡ take 2 ab))
strncmp_zero_example =
    strncmp_zero abc ab [] [] 3 abc-NoNul ab-NoNul
      (omega arith, (omega arith, (omega arith, (omega arith, tt))))
      (omega arith, (omega arith, (omega arith, tt)))
