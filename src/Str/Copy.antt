-- ===== src/Str/Copy.antt =====
-- The copies of string.c on text that ends in a zero byte: what the destination holds afterwards,
-- byte for byte.
use fors_kernel.Prelude.{
  ℕ, zero, suc, ◌≤◌, ◌<◌, ◌≡◌, refl, List, [], ◌∷◌, ◌++◌, arith, length, min, take, drop, replicate,
  ok, fault, Run,
}
use native.Mathlib.Nat.{zero-min, min-zero}
use fors_kernel.Str.{memcpy, memset, stpcpy, strcpy, strncpy, strcat, at_offset}
use fors_kernel.Str.Length.{NoNul, strlen_lem}

-- `memcpy` replaces the first `n` bytes by the source's and leaves the rest.
pub memcpy_lem :
    (d s : List ℕ) (n : ℕ) → n ≤ length d → n ≤ length s → memcpy d s n ≡ ok (take n s ++ drop n d)
unfolding memcpy
memcpy_lem d s zero hd hs = refl
memcpy_lem [] s (suc n) hd hs = absurd (omega arith)
memcpy_lem (x ∷ d) [] (suc n) hd hs = absurd (omega arith)
memcpy_lem (x ∷ d) (b ∷ s) (suc n) hd hs = rw (memcpy_lem d s n (omega arith) (omega arith))

-- `memset` replaces the first `n` bytes by `c` and leaves the rest.
pub memset_lem :
    (m : List ℕ) (c n : ℕ) → n ≤ length m → memset m c n ≡ ok (replicate n c ++ drop n m)
unfolding memset
memset_lem m c zero h = refl
memset_lem [] c (suc n) h = absurd (omega arith)
memset_lem (x ∷ m) c (suc n) h = rw (memset_lem m c n (omega arith))

-- `strcpy` puts the text and its zero byte at the start of a destination that has room for them,
-- and leaves the rest of it.
pub strcpy_lem :
    (d s r : List ℕ)
    → NoNul s
    → length s < length d
    → strcpy d (s ++ (0 ∷ r)) ≡ ok (s ++ (0 ∷ drop (suc (length s)) d))
unfolding strcpy
strcpy_lem [] s r h lt = absurd (omega arith)
strcpy_lem (x ∷ d) [] r h lt = refl
strcpy_lem (x ∷ d) (b ∷ s) r h lt = ground (arith, strcpy_lem d s r h.1)

-- Where the destination has no room for the text and its zero byte, `strcpy` writes past its end.
pub strcpy-fault :
    (d s r : List ℕ) → NoNul s → length d ≤ length s → strcpy d (s ++ (0 ∷ r)) ≡ fault
unfolding strcpy
strcpy-fault [] [] r h le = refl
strcpy-fault [] (b ∷ s) r h le = refl
strcpy-fault (x ∷ d) [] r h le = absurd (omega arith)
strcpy-fault (x ∷ d) (b ∷ s) r h le = ground (arith, strcpy-fault d s r h.1)

-- `strncpy` copies at most `n` bytes of the text and always ends them with a zero byte, so it
-- writes `n + 1` bytes where the text is longer; it does not pad a shorter text.
pub strncpy_lem :
    (d s r : List ℕ) (n : ℕ)
    → NoNul s
    → min (length s) n < length d
    → strncpy d (s ++ (0 ∷ r)) n ≡ ok (take n s ++ (0 ∷ drop (suc (min (length s) n)) d))
unfolding strncpy
strncpy_lem [] s r n h lt = absurd (omega arith)
strncpy_lem (x ∷ d) [] r zero h lt = refl
strncpy_lem (x ∷ d) [] r (suc n) h lt = rw zero-min
strncpy_lem (x ∷ d) (b ∷ s) r zero h lt = rw min-zero
strncpy_lem (x ∷ d) (b ∷ s) r (suc n) h lt = ground (arith, strncpy_lem d s r n h.1)

-- A text of `n` bytes or more does not fit a destination of `n` bytes: `strncpy` writes the byte
-- behind it.
pub strncpy-fault :
    (d s r : List ℕ) → NoNul s → length d ≤ length s → strncpy d (s ++ (0 ∷ r)) (length d) ≡ fault
unfolding strncpy
strncpy-fault [] [] r h le = refl
strncpy-fault [] (b ∷ s) r h le = refl
strncpy-fault (x ∷ d) [] r h le = absurd (omega arith)
strncpy-fault (x ∷ d) (b ∷ s) r h le = ground (arith, strncpy-fault d s r h.1)

at_offset-append :
    (t d e : List ℕ) (copy : List ℕ → Run (List ℕ))
    → copy d ≡ ok e
    → at_offset (length t) copy (t ++ d) ≡ ok (t ++ e)
at_offset-append [] d e copy h = h
at_offset-append (x ∷ t) d e copy h = rw (at_offset-append t d e copy h)

-- Where the destination has room behind its text, `strcat` puts the source's text there, and leaves
-- what is behind both.
pub strcat_lem :
    (t d s r : List ℕ)
    → NoNul t
    → NoNul s
    → length s ≤ length d
    → strcat (t ++ (0 ∷ d)) (s ++ (0 ∷ r)) ≡ ok (t ++ (s ++ (0 ∷ drop (length s) d)))
unfolding strcat strcpy
strcat_lem t d s r ht hs le = rw (strlen_lem t d ht) (
    at_offset-append t (0 ∷ d) _ (λ e. stpcpy e (s ++ (0 ∷ r)))
      (strcpy_lem (0 ∷ d) s r hs (omega arith)))
