-- ===== src/Str/Length.antt =====
-- `strlen` and `strnlen` of string.c on text that ends in a zero byte.
use fors_kernel.Prelude.{
  ℕ, zero, suc, ◌≡◌, refl, ◌≢◌, List, [], ◌∷◌, ◌++◌, arith, length, min, ok, fault,
}
use fors_kernel.Str.{strlen, strnlen}

-- No byte of the text is zero.
abbrev pub NoNul : List ℕ → Type 0
NoNul [] = Unit
NoNul (b ∷ s) = (b ≢ 0) × NoNul s

-- `strlen` returns the number of bytes before the zero byte.
pub strlen_lem : (s r : List ℕ) → NoNul s → strlen (s ++ (0 ∷ r)) ≡ ok (length s)
unfolding strlen
strlen_lem [] r h = refl
strlen_lem (b ∷ s) r h = ground (arith, strlen_lem s r h.1)

-- `strnlen` returns that number, or `n` where that is less.
pub strnlen_lem :
    (s r : List ℕ) (n : ℕ) → NoNul s → strnlen (s ++ (0 ∷ r)) n ≡ ok (min (length s) n)
unfolding strnlen
strnlen_lem [] r zero h = refl
strnlen_lem [] r (suc n) h = ground arith
strnlen_lem (b ∷ s) r zero h = ground arith
strnlen_lem (b ∷ s) r (suc n) h = ground (arith, strnlen_lem s r n h.1)

-- `strlen` of an object with no zero byte reads past its end.
pub strlen-fault : (s : List ℕ) → NoNul s → strlen s ≡ fault
unfolding strlen
strlen-fault [] h = refl
strlen-fault (b ∷ s) h = ground (arith, strlen-fault s h.1)
