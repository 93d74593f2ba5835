-- ===== src/Paging/Fresh.antt =====
-- `map_page_4k` of virt.c where none of the tables below the root is there yet.
use Prim.Native.Nat.{bit_or}
use fors_kernel.Prelude.{
  ℕ, suc, ◌<◌, ◌≡◌, refl, ap, ◌∙◌, Bool, true, false, ◌&&◌, List, ◌∷◌, ◌==◌, arith,
}
use fors_kernel.Prelude.Int.{pos}
use fors_kernel.Frames.{pfalloc_one}
use fors_kernel.Frames.Pool.{pfalloc_one_lem}
use fors_kernel.Paging.{
  Paging, got, pse_ptr, is_present, is_large, pml4_index, pml3_index, pml2_index, enter_table,
  map_page_4k,
}
use fors_kernel.Paging.Entries.{pse_ptr-bit_or, bit_or-IsBelow}
use fors_kernel.Paging.Levels.{
  IsDirectMap, HasLevels, with_table, filled, zero_paging_table-inside, pse_ptr-aligned,
}
use fors_kernel.Paging.Enter.{fill_entry-filled}
use fors_kernel.Paging.Enter.Marked.{AreFlags, marked, filled-Entered}

-- From `m` a level of the walk went to a new table in the frame `x`, by the pointer `t`.
record Fresh (at_phys level : ℕ → ℕ) (limit : ℕ) (xs : List ℕ) (m m' : Paging) (x l t : ℕ)
    : Type 0 where
  reached : at_phys t ≡ x
  keeps : HasLevels (with_table level x (suc l)) limit xs m'
  empty : (j : ℕ) → j < 512 → m'.entries x j ≡ 0
  offset : m'.hhdm_offset ≡ m.hhdm_offset

enter_table-Fresh :
    (at_phys level : ℕ → ℕ) (limit x : ℕ) (xs : List ℕ) (check_large : Bool) (m : Paging)
    (table i l flags : ℕ)
    → IsDirectMap at_phys m.hhdm_offset limit
    → AreFlags flags
    → HasLevels level limit (x ∷ xs) m
    → level (at_phys table) ≡ suc (suc l)
    → check_large && is_large (m.entries (at_phys table) i) ≡ false
    → is_present (m.entries (at_phys table) i) ≡ false
    → (t : ℕ) × (m' : Paging) × (enter_table at_phys check_large m table i flags ≡ got (t, m'))
      × Fresh at_phys level limit xs m m' x l t
unfolding enter_table
enter_table-Fresh at_phys level limit x xs check_large m table i l flags d f h lp w np =
    let p = at_phys table in
    let (free, small, aligned, rest) = h.free in
    let (e, pool) = pfalloc_one_lem m.frames x xs h.pool h.counted in
    let q = fill_entry-filled at_phys x m table i np e h.pool.ascending.0 (d.identity x small) in
    let m1 = filled m (pfalloc_one m.frames).1 p i x in
    let en =
      filled-Entered at_phys level limit x xs m (pfalloc_one m.frames).1 p i l flags d f h pool lp
        np in
    let x_p : (x == p) ≡ false = ground (arith, free, lp) in
    let here : (p == p && i == i) ≡ true = ground arith in
    let same = pse_ptr-aligned x (omega (arith, d.physical)) aligned in
    let ptr : pse_ptr ((marked m1 p i flags).entries p i) ≡ x =
      rw
        (
          here,
          pse_ptr-bit_or (pse_ptr x) (bit_or flags 1)
              (bit_or-IsBelow flags 1 f.small (omega arith)),
        )
        (ap pse_ptr same ∙ same) in
    (
      _,
      marked m1 p i flags,
      rw (w, q) refl,
      record {
        reached = en.reached ∙ ptr;
        keeps = en.keeps;
        empty = λ j lj. rw x_p (zero_paging_table-inside x m.entries j lj);
        offset = refl;
      },
    )

-- On tables that have levels, with the memory of the tables and of the pool mapped, flags below the
-- address that make no large page, three frames in the pool and the root's entry for the address
-- not present, `map_page_4k` returns 0.
pub map_page_4k_fresh :
    (at_phys level : ℕ → ℕ) (limit x y z : ℕ) (xs : List ℕ) (m : Paging) (t4 phys virt flags : ℕ)
    → IsDirectMap at_phys m.hhdm_offset limit
    → AreFlags flags
    → HasLevels level limit (x ∷ y ∷ z ∷ xs) m
    → level (at_phys t4) ≡ 4
    → is_present (m.entries (at_phys t4) (pml4_index virt)) ≡ false
    → (map_page_4k at_phys m t4 phys virt flags).0 ≡ pos 0
unfolding map_page_4k
map_page_4k_fresh at_phys level limit x y z xs m t4 phys virt flags d f h l4 np =
    let (t3, m1, q4, r4) =
      enter_table-Fresh at_phys level limit x (y ∷ z ∷ xs) false m t4 (pml4_index virt) 2 flags d f
        h l4 refl np in
    let level1 = with_table level x 3 in
    let d1 : IsDirectMap at_phys m1.hhdm_offset limit = rw r4.offset d in
    let l3 : level1 (at_phys t3) ≡ 3 = rw r4.reached (ground arith) in
    let z3 : m1.entries (at_phys t3) (pml3_index virt) ≡ 0 =
      rw r4.reached (r4.empty (pml3_index virt) (omega arith)) in
    let (t2, m2, q3, r3) =
      enter_table-Fresh at_phys level1 limit y (z ∷ xs) true m1 t3 (pml3_index virt) 1 flags d1 f
        r4.keeps l3 (rw z3 refl) (rw z3 refl) in
    let level2 = with_table level1 y 2 in
    let d2 : IsDirectMap at_phys m2.hhdm_offset limit = rw r3.offset d1 in
    let l2 : level2 (at_phys t2) ≡ 2 = rw r3.reached (ground arith) in
    let z2 : m2.entries (at_phys t2) (pml2_index virt) ≡ 0 =
      rw r3.reached (r3.empty (pml2_index virt) (omega arith)) in
    let (t1, m3, q2, r2) =
      enter_table-Fresh at_phys level2 limit z xs true m2 t2 (pml2_index virt) 0 flags d2 f r3.keeps
        l2 (rw z2 refl) (rw z2 refl) in
    rw (q4, q3, q2) refl
