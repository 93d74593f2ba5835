-- ===== src/Vfs/Slots/First.antt =====
-- What the searches for a free link, node or file descriptor of vfs.c and sys.c return.
use fors_kernel.Prelude.{
  ℕ, zero, suc, ◌<◌, ◌≡◌, refl, Bool, true, false, Bool-cases, inl, inr, Option, none, some, List,
  [], ◌∷◌, arith, get_elem?,
}
use mathlib.Core.Option
use fors_kernel.Vfs.Slots.{first_free}

-- No element passes the test, or the one at `i` does and none before it.
abbrev pub IsFirstFree {ℓ} : {A : Type ℓ} → (A → Bool) → List A → Option ℕ → Type ℓ
IsFirstFree {A} free xs none = (j : ℕ) (a : A) → get_elem? xs j ≡ some a → free a ≡ false
IsFirstFree {A} free xs (some i) =
    ((x : A) × (get_elem? xs i ≡ some x) × (free x ≡ true))
    × ((j : ℕ) (a : A) → j < i → get_elem? xs j ≡ some a → free a ≡ false)

later :
    {A : Type 0} (free : A → Bool) (x : A) (xs : List A) (r : Option ℕ)
    → free x ≡ false
    → IsFirstFree free xs r
    → IsFirstFree free (x ∷ xs) (Option.map suc r)
later free x xs none e f = elim [
  | zero ↦ λ a h. let q : a ≡ x = cc in rw q e
  | suc j ↦ λ a h. f j a h
]
later free x xs (some i) e f = (
  f.0,
  elim [
    | zero ↦ λ a lt h. let q : a ≡ x = cc in rw q e
    | suc j ↦ λ a lt h. f.1 j a (omega arith) h
  ],
)

-- The search of an array returns the first index whose element passes the test, and none exactly
-- where no element does.
pub first_free_lem :
    {A : Type 0} (free : A → Bool) (xs : List A) → IsFirstFree free xs (first_free free xs)
unfolding first_free
first_free_lem free [] = λ j a h. cc
first_free_lem free (x ∷ xs) = elim (Bool-cases (free x)) [
  | inl e ↦ rw e ((x, refl, e), λ j a lt. absurd (omega arith))
  | inr e ↦ rw e (later free x xs (first_free free xs) e (first_free_lem free xs))
]

-- The element at the index found.
pub first_free-some :
    {A : Type 0} (free : A → Bool) (xs : List A) (i : ℕ)
    → first_free free xs ≡ some i
    → (x : A) × (get_elem? xs i ≡ some x) × (free x ≡ true)
first_free-some free xs i h = (rw h at (first_free_lem free xs)).0
