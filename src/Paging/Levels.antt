-- ===== src/Paging/Levels.antt =====
-- The page tables of virt.c by levels: a table's level is the number of tables that a walk passes
-- from it on, the root's 4, and a page that holds no table has level 0.
use Prim.Native.Nat.{bit_or}
use fors_kernel.Prelude.{
  ℕ, zero, suc, ◌+◌, ◌%◌, ◌^◌, ◌≤◌, ◌<◌, ◌≡◌, refl, ap, ◌∙◌, ◌≢◌, ◌⊎◌, inl, inr, true, false, ◌&&◌,
  Bool-cases, List, [], ◌∷◌, ◌==◌, if◌then◌else◌, arith, length,
}
use fors_kernel.Frames.{Frames}
use fors_kernel.Frames.Insert.{IsPool, IsAscending}
use fors_kernel.Paging.{
  Paging, store, zero_loop, zero_paging_table, pse_ptr, hh_mask, is_present, is_large,
}

-- The boot loader's mapping of the memory below `limit`: at itself, in the higher half, and from
-- `offset` on.
pub record IsDirectMap (at_phys : ℕ → ℕ) (offset limit : ℕ) : Type 0 where
  pub identity : (p : ℕ) → p < limit → at_phys p ≡ p
  pub higher_half : (p : ℕ) → p < limit → at_phys (bit_or p hh_mask) ≡ p
  pub direct : (p : ℕ) → p < limit → at_phys ((offset + p) % 2 ^ 64) ≡ p
  pub physical : limit ≤ 2 ^ 52

-- The frames are pages below `limit` that hold no table.
abbrev pub AreFree : (ℕ → ℕ) → ℕ → List ℕ → Type 0
AreFree level limit [] = Unit
AreFree level limit (x ∷ xs) = (level x ≡ 0) × (x < limit) × (x % 4096 ≡ 0) × AreFree level limit xs

-- Tables are pages below `limit`; a present entry that maps no large page leads to a table one
-- level below (the root's entries map none); and the free frames are no tables.
pub record HasLevels (level : ℕ → ℕ) (limit : ℕ) (xs : List ℕ) (m : Paging) : Type 0 where
  pub table : (p : ℕ) → level p ≢ 0 → (p < limit) × (p % 4096 ≡ 0)
  pub below :
      (p i l : ℕ)
      → i < 512
      → level p ≡ suc (suc l)
      → is_present (m.entries p i) ≡ true
      → (l ≢ 2 → is_large (m.entries p i) ≡ false)
      → level (pse_ptr (m.entries p i)) ≡ suc l
  pub pool : IsPool m.frames xs
  pub counted : length xs < 2 ^ 64
  pub free : AreFree level limit xs

zero_loop-outside :
    (left i page : ℕ) (es : ℕ → ℕ → ℕ) (p j : ℕ) → p ≢ page → zero_loop left i page es p j ≡ es p j
unfolding zero_loop
zero_loop-outside zero i page es p j ne = refl
zero_loop-outside (suc left) i page es p j ne =
    zero_loop-outside left (i + 1) page (store es page i 0) p j ne ∙ ground arith

zero_loop-inside :
    (left i page : ℕ) (es : ℕ → ℕ → ℕ) (j : ℕ)
    → ((j < i) → es page j ≡ 0)
    → j < i + left
    → zero_loop left i page es page j ≡ 0
unfolding zero_loop
zero_loop-inside zero i page es j done lt = done (omega arith)
zero_loop-inside (suc left) i page es j done lt =
    zero_loop-inside left (i + 1) page (store es page i 0) j (λ l. ground (arith, done))
      (omega arith)

pub zero_paging_table-outside :
    (page : ℕ) (es : ℕ → ℕ → ℕ) (p j : ℕ) → p ≢ page → zero_paging_table page es p j ≡ es p j
unfolding zero_paging_table
zero_paging_table-outside page es p j ne = zero_loop-outside 512 0 page es p j ne

pub zero_paging_table-inside :
    (page : ℕ) (es : ℕ → ℕ → ℕ) (j : ℕ) → j < 512 → zero_paging_table page es page j ≡ 0
unfolding zero_paging_table
zero_paging_table-inside page es j lt =
    zero_loop-inside 512 0 page es j (λ l. absurd (omega arith)) (omega arith)

-- The levels with a new table at `x`.
abbrev pub with_table : (ℕ → ℕ) → ℕ → ℕ → ℕ → ℕ
with_table level x l q = if q == x then l else level q

AreFree-with_table :
    (level : ℕ → ℕ) (limit x l p : ℕ) (xs : List ℕ)
    → x ≤ p
    → IsAscending p xs
    → AreFree level limit xs
    → AreFree (with_table level x l) limit xs
AreFree-with_table level limit x l p [] le asc free = tt
AreFree-with_table level limit x l p (y ∷ ys) le asc (z, b, a, free) = (
  ground (arith, asc.0),
  b,
  a,
  AreFree-with_table level limit x l y ys (omega (arith, asc.0)) asc.1 free,
)

pub pse_ptr-aligned : (x : ℕ) → x < 2 ^ 52 → x % 4096 ≡ 0 → pse_ptr x ≡ x
pse_ptr-aligned x lt e = omega arith

-- A zeroed frame put into the entry `i` of the table `p`.
abbrev pub filled : Paging → Frames → ℕ → ℕ → ℕ → Paging
filled m pool p i x = record m {
  frames = pool;
  entries = store (zero_paging_table x m.entries) p i (pse_ptr x);
}

-- What the entries are behind such a frame.
pub filled-old :
    (m : Paging) (pool : Frames) (p i x q j : ℕ)
    → q ≢ x
    → (q == p && j == i) ≡ false
    → (filled m pool p i x).entries q j ≡ m.entries q j
filled-old m pool p i x q j ne e = rw e (zero_paging_table-outside x m.entries q j ne)

pub filled-new :
    (m : Paging) (pool : Frames) (p i x q j : ℕ)
    → x < 2 ^ 52
    → x % 4096 ≡ 0
    → x ≢ p
    → j < 512
    → (q ≡ x) ⊎ ((q == p && j == i) ≡ true)
    → is_present ((filled m pool p i x).entries q j) ≡ false
filled-new m pool p i x q j lx ax ne lj (inl e) =
    let n : (x == p && j == i) ≡ false = ground arith in
    let z : (filled m pool p i x).entries x j ≡ 0 =
      rw n (zero_paging_table-inside x m.entries j lj) in
    rw e (ap is_present z)
filled-new m pool p i x q j lx ax ne lj (inr e) = rw e (ground (arith, pse_ptr-aligned x lx ax))

pub filled-HasLevels :
    (level : ℕ → ℕ) (limit : ℕ) (x : ℕ) (xs : List ℕ) (m : Paging) (pool : Frames) (p i l : ℕ)
    → limit ≤ 2 ^ 52
    → HasLevels level limit (x ∷ xs) m
    → IsPool pool xs
    → level p ≡ suc (suc l)
    → HasLevels (with_table level x (suc l)) limit xs (filled m pool p i x)
filled-HasLevels level limit x xs m pool p i l lim h ispool lp =
    let (free, small, aligned, rest) = h.free in
    let ptr : pse_ptr x ≡ x = pse_ptr-aligned x (omega arith) aligned in
    let ne : x ≢ p = λ e. absurd (omega (arith, ap level e)) in
    record {
      table = λ q ne. elim (Bool-cases (q == x)) [
        | inl e ↦ (ground arith, ground arith)
        | inr e ↦ h.table q (rw e at ne)
      ];
      below = λ q j l' lj lq pr sm. elim (Bool-cases (q == x)) [
        | inl e ↦
            let q_x : q ≡ x = ground arith in
            let np = filled-new m pool p i x q j (omega arith) aligned ne lj (inl q_x) in
            absurd (cc (np, pr))
        | inr e ↦ elim (Bool-cases (q == p && j == i)) [
          | inl w ↦
              let np = filled-new m pool p i x q j (omega arith) aligned ne lj (inr w) in
              absurd (cc (np, pr))
          | inr w ↦
              let old = filled-old m pool p i x q j (ground arith) w in
              let lq' : level q ≡ suc (suc l') = ground arith in
              let next : level (pse_ptr (m.entries q j)) ≡ suc l' =
                h.below q j l' lj lq' (rw old at pr) (λ n. rw old at (sm n)) in
              rw old (ground arith)
        ]
      ];
      pool = ispool;
      counted = omega (arith, h.counted);
      free = AreFree-with_table level limit x (suc l) x xs (omega arith) h.pool.ascending.1 rest;
    }
