-- ===== src/Paging/Enter.antt =====
-- One level of `map_page_4k` of virt.c: what it leaves of the tables.
pub mod Marked
use Prim.Native.Nat.{bit_or}
use fors_kernel.Paging.Enter.Marked.{AreFlags, marked, Entered, marked-Entered, filled-Entered}
use fors_kernel.Prelude.{
  ℕ, suc, ◌<◌, ◌≡◌, refl, ap, sym, ◌∙◌, ◌≢◌, inl, inr, Bool, true, false, ◌&&◌, Bool-cases, List,
  [], ◌∷◌, ◌==◌, arith,
}
use fors_kernel.Frames.{Frames, pfalloc_one}
use fors_kernel.Frames.Insert.{IsPool}
use fors_kernel.Frames.Pool.{pfalloc_one_lem}
use fors_kernel.Paging.{
  Paging, Attempt, gave_up, got, enomem, egeneric, store, pse_ptr, pse_get_ptr, is_present,
  is_large, fill_entry, enter_table,
}
use fors_kernel.Paging.Entries.{pse_ptr-bit_or, bit_or-IsBelow, is_present-flags, is_large-flags}
use fors_kernel.Paging.Levels.{
  IsDirectMap, HasLevels, with_table, filled, filled-HasLevels, zero_paging_table-outside,
  pse_ptr-aligned,
}

-- How a level of the walk ends.
pub data Outcome (at_phys : ℕ → ℕ) (level : ℕ → ℕ) (limit : ℕ) (m : Paging) (p i l : ℕ)
    (check_large : Bool) : Attempt (ℕ × Paging) → Type 0 where
  maps_large :
      check_large && is_large (m.entries p i) ≡ true
      → Outcome at_phys level limit m p i l check_large (gave_up egeneric m)
  no_frame :
      m.frames.frame_list ≡ 0 → Outcome at_phys level limit m p i l check_large (gave_up enomem m)
  entered :
      {t : ℕ} {m' : Paging} {levels : ℕ → ℕ} {unused : List ℕ}
      → Entered at_phys level levels limit unused m m' p i l t
      → Outcome at_phys level limit m p i l check_large (got (t, m'))

-- What `fill_entry` does with an entry that is not present.
pub fill_entry-filled :
    (at_phys : ℕ → ℕ) (x : ℕ) (m : Paging) (table i : ℕ)
    → is_present (m.entries (at_phys table) i) ≡ false
    → (pfalloc_one m.frames).0 ≡ x
    → 0 < x
    → at_phys x ≡ x
    → fill_entry at_phys m table i ≡ got (filled m (pfalloc_one m.frames).1 (at_phys table) i x)
unfolding fill_entry
fill_entry-filled at_phys x m table i np e lt id =
    let nz : (x == 0) ≡ false = ground arith in rw (np, e, nz, id) refl

fill_entry-empty :
    (at_phys : ℕ → ℕ) (m : Paging) (table i : ℕ)
    → is_present (m.entries (at_phys table) i) ≡ false
    → m.frames.frame_list ≡ 0
    → fill_entry at_phys m table i ≡ gave_up enomem m
unfolding fill_entry pfalloc_one
fill_entry-empty at_phys m table i np e = rw (np, e) refl

fill_entry-present :
    (at_phys : ℕ → ℕ) (m : Paging) (table i : ℕ)
    → is_present (m.entries (at_phys table) i) ≡ true
    → fill_entry at_phys m table i ≡ got m
unfolding fill_entry
fill_entry-present at_phys m table i pr = rw pr refl

module _ (at_phys level : ℕ → ℕ) (limit : ℕ) where
  fill_entry-Outcome :
      (xs : List ℕ) (check_large : Bool) (m : Paging) (table i l flags : ℕ)
      → IsDirectMap at_phys m.hhdm_offset limit
      → AreFlags flags
      → HasLevels level limit xs m
      → level (at_phys table) ≡ suc (suc l)
      → check_large && is_large (m.entries (at_phys table) i) ≡ false
      → is_present (m.entries (at_phys table) i) ≡ false
      → Outcome at_phys level limit m
          (at_phys table)
          i
          l
          check_large
          (enter_table at_phys check_large m table i flags)
  unfolding enter_table
  fill_entry-Outcome [] check_large m table i l flags d f h lp w np =
      rw (w, fill_entry-empty at_phys m table i np h.pool.chain) (no_frame h.pool.chain)
  fill_entry-Outcome (x ∷ xs) check_large m table i l flags d f h lp w np =
      let (e, pool) = pfalloc_one_lem m.frames x xs h.pool h.counted in
      let id = d.identity x h.free.1 in
      rw (w, fill_entry-filled at_phys x m table i np e h.pool.ascending.0 id)
        (entered (
          filled-Entered at_phys level limit x xs m (pfalloc_one m.frames).1 (at_phys table) i l
            flags d f h pool lp np))

  -- Every level of the walk ends in one of these ways.
  pub enter_table-Outcome :
      (xs : List ℕ) (check_large : Bool) (m : Paging) (table i l flags : ℕ)
      → IsDirectMap at_phys m.hhdm_offset limit
      → AreFlags flags
      → HasLevels level limit xs m
      → level (at_phys table) ≡ suc (suc l)
      → i < 512
      → (l ≢ 2 → check_large ≡ true)
      → Outcome at_phys level limit m
          (at_phys table)
          i
          l
          check_large
          (enter_table at_phys check_large m table i flags)
  unfolding enter_table
  enter_table-Outcome xs check_large m table i l flags d f h lp li chk =
      let e = m.entries (at_phys table) i in
      elim (Bool-cases (check_large && is_large e)) [
        | inl w ↦ rw w (maps_large w)
        | inr w ↦
            let sm : l ≢ 2 → is_large e ≡ false = λ n. rw (chk n) at w in
            elim (Bool-cases (is_present e)) [
              | inl pr ↦
                  let next = h.below (at_phys table) i l li lp pr sm in
                  rw (w, fill_entry-present at_phys m table i pr)
                    (entered (
                      marked-Entered at_phys level limit xs m (at_phys table) i l flags d f h lp
                        next sm))
              | inr np ↦ fill_entry-Outcome xs check_large m table i l flags d f h lp w np
            ]
      ]
