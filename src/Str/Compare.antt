-- ===== src/Str/Compare.antt =====
-- The comparisons of memory and of texts of string.c.
use fors_kernel.Prelude.{
  ℕ, zero, suc, ◌≤◌, ◌<◌, ◌≡◌, refl, ap, ◌↔◌, List, [], ◌∷◌, ◌++◌, arith, ◌==◌, length,
  length-append, min, take, Bool-cases, inl, inr, ok, ==_iff,
}
use fors_kernel.Prelude.Int.{ℤ, pos, ◌-ℤ◌}
use fors_kernel.Str.{schar, memcmp, strncmp}
use fors_kernel.Str.Length.{NoNul, strnlen_lem}

-- Every element is a byte.
abbrev pub IsBytes : List ℕ → Type 0
IsBytes [] = Unit
IsBytes (b ∷ s) = (b < 256) × IsBytes s

-- On two objects of `n` bytes or more `memcmp` reads inside both and returns 0 exactly when their
-- first `n` bytes are equal.
pub memcmp_zero :
    (a b : List ℕ) (n : ℕ)
    → IsBytes a
    → IsBytes b
    → n ≤ length a
    → n ≤ length b
    → (z : ℤ) × (memcmp a b n ≡ ok z) × ((z ≡ pos 0) ↔ (take n a ≡ take n b))
unfolding memcmp schar ◌-ℤ◌
memcmp_zero a b zero ha hb la lb = (pos 0, refl, ((λ e. refl), λ e. refl))
memcmp_zero [] b (suc n) ha hb la lb = absurd (omega arith)
memcmp_zero (x ∷ a) [] (suc n) ha hb la lb = absurd (omega arith)
memcmp_zero (x ∷ a) (y ∷ b) (suc n) ha hb la lb = elim (Bool-cases (x == y)) [
  | inl e ↦
      let e' : x ≡ y = (==_iff x y).0 e in
      let (z, q, f) = memcmp_zero a b n ha.1 hb.1 (omega arith) (omega arith) in
      (z, rw (e, q), ((λ h. cc (f.0 h)), λ h. f.1 (cc)))
  | inr e ↦ (
    schar x -ℤ schar y,
    rw e,
    ((λ h. absurd (ground (arith, ha.0, hb.0))), λ h. absurd (ground arith)),
  )
]

take-append_le : (s r : List ℕ) (n : ℕ) → n ≤ length s → take n (s ++ r) ≡ take n s
take-append_le s r zero h = refl
take-append_le [] r (suc n) h = absurd (omega arith)
take-append_le (b ∷ s) r (suc n) h = ap (λ t. b ∷ t) (take-append_le s r n (omega arith))

-- `strncmp` of two texts returns 0 exactly when they agree as far as both reach within the first
-- `n` bytes, so a text and any prefix of it compare equal.
pub strncmp_zero :
    (a b r q : List ℕ) (n : ℕ)
    → NoNul a
    → NoNul b
    → IsBytes (a ++ (0 ∷ r))
    → IsBytes (b ++ (0 ∷ q))
    → let k = min (min (length a) n) (min (length b) n) in
      (z : ℤ) × (strncmp (a ++ (0 ∷ r)) (b ++ (0 ∷ q)) n ≡ ok z)
      × ((z ≡ pos 0) ↔ (take k a ≡ take k b))
unfolding strncmp
strncmp_zero a b r q n ha hb ba bb =
    let k = min (min (length a) n) (min (length b) n) in
    let la = length-append a (0 ∷ r) in
    let lb = length-append b (0 ∷ q) in
    rw
      (
        strnlen_lem a r n ha,
        strnlen_lem b q n hb,
        ← take-append_le a (0 ∷ r) k (omega arith),
        ← take-append_le b (0 ∷ q) k (omega arith),
      )
      (memcmp_zero (a ++ (0 ∷ r)) (b ++ (0 ∷ q)) k ba bb (omega arith) (omega arith))
