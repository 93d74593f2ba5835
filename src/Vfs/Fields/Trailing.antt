-- ===== src/Vfs/Fields/Trailing.antt =====
-- The slashes at the end of a path, which `first_of_trailing` of vfs.c passes over.
use fors_kernel.Prelude.{
  ℕ, zero, suc, ◌+◌, ◌<◌, ◌≤◌, ◌≡◌, refl, sym, ap, ◌∙◌, ◌≢◌, some, List, [], ◌∷◌, ◌++◌, arith,
  length, length-append, get_elem?, replicate, length-replicate, ok,
}
use mathlib.Core.Path.{subst}
use mathlib.Core.List.{append_assoc}
use fors_kernel.Str.{strlen}
use fors_kernel.Str.Length.{NoNul, strlen_lem}
use fors_kernel.Vfs.Walk.{slash, trailing_loop, first_of_trailing}
use fors_kernel.Vfs.Fields.{IsField, NoNul-append, IsField-NoNul, get_elem?-append}

trailing_step :
    (s : List ℕ) (e : ℕ) → get_elem? s e ≡ some b'/' → trailing_loop s (suc e) ≡ trailing_loop s e
unfolding trailing_loop
trailing_step s e h = rw (h, trailing_loop)

-- `first_of_trailing` passes over the slashes at the end and stops behind the last other byte.
trailing_slashes :
    (s t : List ℕ) (k : ℕ)
    → trailing_loop (s ++ (replicate k b'/' ++ t)) (length s + k)
      ≡ trailing_loop (s ++ (replicate k b'/' ++ t)) (length s)
trailing_slashes s t k = go k (omega arith)
  where
    slash_at : (k j : ℕ) → j < k → get_elem? (replicate k b'/' ++ t) j ≡ some b'/'
    slash_at zero j lt = absurd (omega arith)
    slash_at (suc k) zero lt = refl
    slash_at (suc k) (suc j) lt = slash_at k j (omega arith)

    go :
        (j : ℕ)
        → j ≤ k
        → trailing_loop (s ++ (replicate k b'/' ++ t)) (length s + j)
          ≡ trailing_loop (s ++ (replicate k b'/' ++ t)) (length s)
    go zero le = let e : length s + 0 ≡ length s = omega arith in rw e
    go (suc j) le =
        let e : length s + suc j ≡ suc (length s + j) = omega arith in
        rw e (
          trailing_step _ (length s + j)
            (get_elem?-append s (replicate k b'/' ++ t) j ∙ slash_at k j (omega arith))
          ∙ go j (omega arith))

trailing_stop :
    (s t : List ℕ) (b : ℕ)
    → b ≢ b'/'
    → trailing_loop (s ++ (b ∷ t)) (suc (length s)) ≡ ok (suc (length s))
unfolding trailing_loop
trailing_stop s t b ne =
    let e : length s + 0 ≡ length s = omega arith in
    let at_b : get_elem? (s ++ (b ∷ t)) (length s) ≡ some b =
      rw e at (get_elem?-append s (b ∷ t) 0) in
    rw (at_b, trailing_loop) (ground arith)

-- A nonempty field is a shorter one and a byte that is no '/'.
field_snoc :
    (b : ℕ) (f : List ℕ)
    → IsField (b ∷ f)
    → (g : List ℕ) × (c : ℕ) × (b ∷ f ≡ g ++ (c ∷ [])) × (c ≢ b'/')
field_snoc b [] h = ([], b, refl, h.0)
field_snoc b (d ∷ f) h = let (g, c, e, ne) = field_snoc d f h.2 in (b ∷ g, c, ap (λ l. b ∷ l) e, ne)

pub NoNul-slashes : (k : ℕ) → NoNul (replicate k b'/')
NoNul-slashes zero = tt
NoNul-slashes (suc k) = (omega arith, NoNul-slashes k)

-- The end of a path that ends in a byte that is no '/' and then `k` slashes.
first_of_trailing_snoc :
    (y : List ℕ) (c k : ℕ) (r : List ℕ)
    → NoNul (y ++ (c ∷ []))
    → c ≢ b'/'
    → first_of_trailing ((y ++ (c ∷ [])) ++ (replicate k b'/' ++ (0 ∷ r))) slash
      ≡ ok (length (y ++ (c ∷ [])))
unfolding first_of_trailing
first_of_trailing_snoc y c k r hx ne =
    let x = y ++ (c ∷ []) in
    let u = replicate k b'/' ++ (0 ∷ r) in
    let len : strlen (x ++ u) ≡ ok (length x + k) =
      rw (← append_assoc x (replicate k b'/') (0 ∷ r)) (
        strlen_lem (x ++ replicate k b'/') r (NoNul-append x _ hx (NoNul-slashes k))
        ∙ ap ok
            (omega (arith, length-append x (replicate k b'/'), length-replicate {A = ℕ} k b'/'))) in
    let lx : length x ≡ suc (length y) = omega (arith, length-append y (c ∷ [])) in
    rw len (
      trailing_slashes x (0 ∷ r) k
      ∙ rw lx (rw (append_assoc y (c ∷ []) u) (trailing_stop y u c ne)))

-- The end of a path that ends in a nonempty field and `k` slashes.
pub first_of_trailing_field :
    (s : List ℕ) (b : ℕ) (f : List ℕ) (k : ℕ) (r : List ℕ)
    → NoNul s
    → IsField (b ∷ f)
    → first_of_trailing (s ++ ((b ∷ f) ++ (replicate k b'/' ++ (0 ∷ r)))) slash
      ≡ ok (length s + length (b ∷ f))
first_of_trailing_field s b f k r hs hf =
    let (g, c, e, ne) = field_snoc b f hf in
    let u = replicate k b'/' ++ (0 ∷ r) in
    let q : s ++ (b ∷ f) ≡ (s ++ g) ++ (c ∷ []) =
      ap (λ l. s ++ l) e ∙ sym (append_assoc s g (c ∷ [])) in
    let hx : NoNul (s ++ (b ∷ f)) = NoNul-append s (b ∷ f) hs (IsField-NoNul (b ∷ f) hf) in
    rw (← append_assoc s (b ∷ f) u, q)
      (first_of_trailing_snoc (s ++ g) c k r (subst NoNul q hx) ne
        ∙ ap ok (ap length (sym q) ∙ length-append s (b ∷ f)))
