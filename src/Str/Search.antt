-- ===== src/Str/Search.antt =====
-- The searches for a byte of string.c.
use fors_kernel.Prelude.{
  ℕ, zero, suc, ◌≤◌, ◌<◌, ◌≡◌, refl, Bool, true, false, Bool-cases, ◌⊎◌, inl, inr, Option, none,
  some, List, [], ◌∷◌, arith, length, get_elem?, drop, ok,
}
use native.Mathlib.Decide.{dec_lt}
use fors_kernel.Prelude.Int.{ℤ}
use fors_kernel.Str.{schar, eq_int, memchr, memrchr}

-- The byte at index `i` is there and is the `char` `c`.
abbrev pub is_at : List ℕ → ℤ → ℕ → Bool
is_at m c i = elim (get_elem? m i) [ none ↦ false | some b ↦ eq_int (schar b) c ]

-- No byte of the first `n` is `c`, or the one at `i` is and none before it.
abbrev pub IsFirst : List ℕ → ℤ → ℕ → Option ℕ → Type 0
IsFirst m c n none = (j : ℕ) → j < n → is_at m c j ≡ false
IsFirst m c n (some i) = (i < n) × (is_at m c i ≡ true) × ((j : ℕ) → j < i → is_at m c j ≡ false)

-- No byte of the first `n` is `c`, or the one at `i` is and none behind it.
abbrev pub IsLast : List ℕ → ℤ → ℕ → Option ℕ → Type 0
IsLast m c n none = (j : ℕ) → j < n → is_at m c j ≡ false
IsLast m c n (some i) =
    (i < n) × (is_at m c i ≡ true) × ((j : ℕ) → i < j → j < n → is_at m c j ≡ false)

-- `memchr` over `n` bytes of an object finds the first byte that is `c`, or none where there is
-- none; it reads only inside the object.
pub memchr-IsFirst :
    (m : List ℕ) (c : ℤ) (n : ℕ)
    → n ≤ length m
    → (r : Option ℕ) × (memchr m c n ≡ ok r) × IsFirst m c n r
unfolding memchr
memchr-IsFirst m c zero h = (none, refl, λ j lt. absurd (omega arith))
memchr-IsFirst [] c (suc n) h = absurd (omega arith)
memchr-IsFirst (b ∷ m) c (suc n) h = elim (Bool-cases (eq_int (schar b) c)) [
  | inl e ↦ (some 0, rw e, (omega arith, e, λ j lt. absurd (omega arith)))
  | inr e ↦ later e (memchr-IsFirst m c n (omega arith))
]
  where
    later :
        eq_int (schar b) c ≡ false
        → (r : Option ℕ) × (memchr m c n ≡ ok r) × IsFirst m c n r
        → (r : Option ℕ) × (memchr (b ∷ m) c (suc n) ≡ ok r) × IsFirst (b ∷ m) c (suc n) r
    later e (none, q, f) =
        (none, rw (e, q), elim [ zero ↦ λ lt. e | suc j ↦ λ lt. f j (omega arith) ])
    later e (some i, q, f) = (
      some (suc i),
      rw (e, q),
      (omega (arith, f.0), f.1, elim [ zero ↦ λ lt. e | suc j ↦ λ lt. f.2 j (omega arith) ]),
    )

drop-get_elem? :
    (m : List ℕ) (i : ℕ)
    → i < length m
    → (b : ℕ) × (t : List ℕ) × (drop i m ≡ b ∷ t) × (get_elem? m i ≡ some b)
drop-get_elem? [] i h = absurd (omega arith)
drop-get_elem? (x ∷ m) zero h = (x, m, refl, refl)
drop-get_elem? (x ∷ m) (suc i) h = drop-get_elem? m i (omega arith)

below : (j n : ℕ) → j < suc n → (j < n) ⊎ (j ≡ n)
below j n lt = elim (dec_lt j n) [ yes h ↦ inl h | no h ↦ inr (omega arith) ]

IsLast-suc :
    (m : List ℕ) (c : ℤ) (n : ℕ) (r : Option ℕ)
    → IsLast m c n r
    → is_at m c n ≡ false
    → IsLast m c (suc n) r
IsLast-suc m c n none f e = λ j lt. elim (below j n lt) [ inl h ↦ f j h | inr h ↦ rw h e ]
IsLast-suc m c n (some i) f e = (
  omega (arith, f.0),
  f.1,
  λ j lo hi. elim (below j n hi) [ inl h ↦ f.2 j lo h | inr h ↦ rw h e ],
)

-- `memrchr` over `n` bytes of an object finds the last byte that is `c`, or none where there is
-- none; it reads only inside the object.
pub memrchr-IsLast :
    (m : List ℕ) (c : ℤ) (n : ℕ)
    → n ≤ length m
    → (r : Option ℕ) × (memrchr m c n ≡ ok r) × IsLast m c n r
unfolding memrchr
memrchr-IsLast m c zero h = (none, refl, λ j lt. absurd (omega arith))
memrchr-IsLast m c (suc n) h =
    at_last (drop-get_elem? m n (omega arith)) (memrchr-IsLast m c n (omega arith))
  where
    at_last :
        (b : ℕ) × (t : List ℕ) × (drop n m ≡ b ∷ t) × (get_elem? m n ≡ some b)
        → (r : Option ℕ) × (memrchr m c n ≡ ok r) × IsLast m c n r
        → (r : Option ℕ) × (memrchr m c (suc n) ≡ ok r) × IsLast m c (suc n) r
    at_last (b, t, d, g) (r, q, f) = elim (Bool-cases (eq_int (schar b) c)) [
      | inl e ↦ (
        some n,
        rw (d, memrchr, e),
        (omega arith, rw (g, is_at, e), λ j lo hi. absurd (omega arith)),
      )
      | inr e ↦ (r, rw (d, memrchr, e, q), IsLast-suc m c n r f (rw (g, is_at, e)))
    ]
