-- ===== src/Paging/Enter/Marked.antt =====
-- An entry of a page table that is given the flags, in one level of `map_page_4k` of virt.c.
use Prim.Native.Nat.{bit_or}
use fors_kernel.Prelude.{
  ℕ, suc, ◌<◌, ◌≡◌, refl, ap, sym, ◌∙◌, ◌≢◌, inl, inr, true, false, ◌&&◌, Bool-cases, List, ◌∷◌,
  ◌==◌, arith,
}
use fors_kernel.Frames.{Frames}
use fors_kernel.Frames.Insert.{IsPool}
use fors_kernel.Paging.{Paging, store, pse_ptr, pse_get_ptr, is_present, is_large}
use fors_kernel.Paging.Entries.{pse_ptr-bit_or, bit_or-IsBelow, is_present-flags, is_large-flags}
use fors_kernel.Paging.Levels.{
  IsDirectMap, HasLevels, with_table, filled, filled-HasLevels, zero_paging_table-outside,
  pse_ptr-aligned,
}

-- Flags that may be put into an entry: they do not reach its address, nor make it a large page.
pub record AreFlags (flags : ℕ) : Type 0 where
  pub small : flags < 4096
  pub table : is_large flags ≡ false

-- The entry `i` of the table `p` given the flags.
abbrev pub marked : Paging → ℕ → ℕ → ℕ → Paging
marked m p i flags = record m {
  entries = store m.entries p i (bit_or (m.entries p i) (bit_or flags 1));
}

marked-HasLevels :
    (level : ℕ → ℕ) (limit : ℕ) (xs : List ℕ) (m : Paging) (p i l flags : ℕ)
    → AreFlags flags
    → HasLevels level limit xs m
    → level p ≡ suc (suc l)
    → level (pse_ptr (m.entries p i)) ≡ suc l
    → HasLevels level limit xs (marked m p i flags)
marked-HasLevels level limit xs m p i l flags f h lp next = record {
  table = h.table;
  below = λ q j l' lj lq pr sm. elim (Bool-cases (q == p && j == i)) [
    | inl w ↦
        let q_p : q ≡ p = ground arith in
        let same : suc (suc l') ≡ suc (suc l) = sym lq ∙ ap level q_p ∙ lp in
        let ptr =
          pse_ptr-bit_or (m.entries p i) (bit_or flags 1)
            (bit_or-IsBelow flags 1 f.small (omega arith)) in
        rw w (ap level ptr ∙ next ∙ omega (arith, same))
    | inr w ↦ rw w (h.below q j l' lj lq (rw w at pr) (λ n. rw w at (sm n)))
  ];
  pool = h.pool;
  counted = h.counted;
  free = h.free;
}

-- From `m` a level of the walk went by the entry `i` of the table `p`, of level `l` + 2, to the
-- pointer `t`, and left `m'`, where `unused` is the
-- pool and `levels` are the levels.
pub record Entered (at_phys level levels : ℕ → ℕ) (limit : ℕ) (unused : List ℕ) (m m' : Paging)
    (p i l t : ℕ) : Type 0 where
  pub keeps : HasLevels levels limit unused m'
  pub old : (q : ℕ) → level q ≢ 0 → levels q ≡ level q
  pub same : (q j : ℕ) → level q ≢ 0 → (q == p && j == i) ≡ false → m'.entries q j ≡ m.entries q j
  pub reached : at_phys t ≡ pse_ptr (m'.entries p i)
  pub next : levels (pse_ptr (m'.entries p i)) ≡ suc l
  pub present : is_present (m'.entries p i) ≡ true
  pub small : l ≢ 2 → is_large (m'.entries p i) ≡ false
  pub offset : m'.hhdm_offset ≡ m.hhdm_offset
  pub grown :
      is_present (m.entries p i) ≡ true
      → (pse_ptr (m'.entries p i) ≡ pse_ptr (m.entries p i))
        × (is_large (m'.entries p i) ≡ is_large (m.entries p i))

-- Giving the flags to an entry that leads one level down.
pub marked-Entered :
    (at_phys level : ℕ → ℕ) (limit : ℕ) (xs : List ℕ) (m : Paging) (p i l flags : ℕ)
    → IsDirectMap at_phys m.hhdm_offset limit
    → AreFlags flags
    → HasLevels level limit xs m
    → level p ≡ suc (suc l)
    → level (pse_ptr (m.entries p i)) ≡ suc l
    → (l ≢ 2 → is_large (m.entries p i) ≡ false)
    → Entered at_phys level level limit xs m
        (marked m p i flags)
        p
        i
        l
        (pse_get_ptr (bit_or (m.entries p i) (bit_or flags 1)))
marked-Entered at_phys level limit xs m p i l flags d f h lp next sm =
    let e = m.entries p i in
    let here : (p == p && i == i) ≡ true = ground arith in
    let ptr = pse_ptr-bit_or e (bit_or flags 1) (bit_or-IsBelow flags 1 f.small (omega arith)) in
    let in_memory = (h.table (pse_ptr e) (omega (arith, next))).0 in
    let here' : (marked m p i flags).entries p i ≡ bit_or e (bit_or flags 1) = rw here refl in
    record {
      keeps = marked-HasLevels level limit xs m p i l flags f h lp next;
      old = λ q n. refl;
      same = λ q j n w. rw w refl;
      reached = rw here' (rw ptr (d.higher_half (pse_ptr e) in_memory));
      next = rw here' (ap level ptr ∙ next);
      present = rw here' (is_present-flags e flags);
      small = λ n. rw here' (is_large-flags e flags f.table ∙ sm n);
      offset = refl;
      grown = λ was. (rw here' ptr, rw here' (is_large-flags e flags f.table));
    }

-- A new table in the place of an entry that is not present, given the flags.
pub filled-Entered :
    (at_phys level : ℕ → ℕ) (limit x : ℕ) (xs : List ℕ) (m : Paging) (pool : Frames)
    (p i l flags : ℕ)
    → IsDirectMap at_phys m.hhdm_offset limit
    → AreFlags flags
    → HasLevels level limit (x ∷ xs) m
    → IsPool pool xs
    → level p ≡ suc (suc l)
    → is_present (m.entries p i) ≡ false
    → let m1 = filled m pool p i x in
      Entered at_phys level
        (with_table level x (suc l))
        limit
        xs
        m
        (marked m1 p i flags)
        p
        i
        l
        (pse_get_ptr (bit_or (m1.entries p i) (bit_or flags 1)))
filled-Entered at_phys level limit x xs m pool p i l flags d f h ispool lp np =
    let (free, small, aligned, rest) = h.free in
    let ne : x ≢ p = λ e. absurd (omega (arith, ap level e)) in
    let here : (p == p && i == i) ≡ true = ground arith in
    let m1 = filled m pool p i x in
    let ptr : pse_ptr x ≡ x = pse_ptr-aligned x (omega (arith, d.physical)) aligned in
    let here' : m1.entries p i ≡ x = rw here ptr in
    let h1 = filled-HasLevels level limit x xs m pool p i l d.physical h ispool lp in
    let lp1 : with_table level x (suc l) p ≡ suc (suc l) = ground arith in
    let next : with_table level x (suc l) (pse_ptr (m1.entries p i)) ≡ suc l =
      rw (here', ptr) (ground arith) in
    let sm : is_large (m1.entries p i) ≡ false = rw here' (ground arith) in
    let r =
      marked-Entered at_phys (with_table level x (suc l)) limit xs m1 p i l flags d f h1 lp1 next
        (λ n. sm) in
    record {
      keeps = r.keeps;
      old = λ q n. ground arith;
      same = λ q j n w.
          let q_x : q ≢ x = λ e. n (ap level e ∙ free) in
          rw w (zero_paging_table-outside x m.entries q j q_x);
      reached = r.reached;
      next = r.next;
      present = r.present;
      small = r.small;
      offset = refl;
      grown = λ was. absurd (cc (was, np));
    }
