-- ===== src/Paging/Others.antt =====
-- What `map_page_4k` of virt.c leaves alone: the pages that were mapped before.
use fors_kernel.Prelude.{ℕ, ◌≡◌, refl, ap, sym, ◌∙◌, true, false, ◌&&◌, List, ◌==◌}
use fors_kernel.Prelude.Int.{ℤ, pos}
use fors_kernel.Paging.{
  Paging, pse_ptr, is_present, pml1_index, offset_4k, set_addr, map_page_4k, map_lookup,
}
use fors_kernel.Paging.Levels.{IsDirectMap, HasLevels}
use fors_kernel.Paging.Enter.Marked.{AreFlags}
use fors_kernel.Paging.Walk.{IsWalk, map_lookup-IsWalk}
use fors_kernel.Paging.Mapping.{MapOutcome, refused, mapped, map_page_4k-MapOutcome}

-- What `map_page_4k` keeps, where the walk for its address ends at a table `p1`.
outcome_others :
    {level : ℕ → ℕ} {limit : ℕ} {m : Paging} {p4 phys virt flags : ℕ} {r : ℤ × Paging}
    (v q4 q3 q2 q1 : ℕ)
    → MapOutcome level limit m p4 phys virt flags r
    → level q4 ≡ 4
    → IsWalk m v limit q4 q3 q2 q1
    → (r.0 ≡ pos 0
        → (p3 p2 p1 : ℕ) → IsWalk r.1 virt limit p4 p3 p2 p1
        → (q1 == p1 && pml1_index v == pml1_index virt) ≡ false)
    → (r.1.hhdm_offset ≡ m.hhdm_offset)
      × IsWalk r.1 v limit q4 q3 q2 q1
      × (r.1.entries q1 (pml1_index v) ≡ m.entries q1 (pml1_index v))
outcome_others v q4 q3 q2 q1 (refused w s) l4 walk other =
    let (kept, same) = s.walks v q4 q3 q2 q1 l4 walk refl in (s.offset, kept, same)
outcome_others v q4 q3 q2 q1 (mapped written kept) l4 walk other =
    let (walk', same) = kept v q4 q3 q2 q1 l4 walk (other refl _ _ _ written.walk) in
    (written.offset, walk', same)

-- On tables that have levels, with the memory of the tables and of the pool mapped, and with flags
-- below the address that make no large page, take an address that was mapped by a 4 KiB page, in the
-- same or another root table. Where `map_page_4k` returns an error it leaves the lookup of that
-- address as it was; where it returns 0 it does so if the entry of that page is not the one at which
-- the walk for the new page then ends.
pub map_lookup-map_page_4k_other :
    (at_phys level : ℕ → ℕ) (limit : ℕ) (xs : List ℕ) (m : Paging) (t4 phys virt flags : ℕ)
    (s4 v q3 q2 q1 : ℕ)
    → IsDirectMap at_phys m.hhdm_offset limit
    → AreFlags flags
    → HasLevels level limit xs m
    → level (at_phys t4) ≡ 4
    → level (at_phys s4) ≡ 4
    → IsWalk m v limit (at_phys s4) q3 q2 q1
    → is_present (m.entries q1 (pml1_index v)) ≡ true
    → ((map_page_4k at_phys m t4 phys virt flags).0 ≡ pos 0
        → (p3 p2 p1 : ℕ)
        → IsWalk (map_page_4k at_phys m t4 phys virt flags).1 virt limit (at_phys t4) p3 p2 p1
        → (q1 == p1 && pml1_index v == pml1_index virt) ≡ false)
    → map_lookup at_phys (map_page_4k at_phys m t4 phys virt flags).1 s4 v
      ≡ map_lookup at_phys m s4 v
map_lookup-map_page_4k_other at_phys level limit xs m t4 phys virt flags s4 v q3 q2 q1 d f h l4 ls w
      pr other =
    let m' = (map_page_4k at_phys m t4 phys virt flags).1 in
    let r = map_page_4k-MapOutcome at_phys level limit xs m t4 phys virt flags d f h l4 in
    let (offset, kept, same) = outcome_others v (at_phys s4) q3 q2 q1 r ls w other in
    let d' : IsDirectMap at_phys m'.hhdm_offset limit = rw offset d in
    map_lookup-IsWalk at_phys limit m' s4 v q3 q2 q1 d' kept (ap is_present same ∙ pr)
    ∙ ap (λ e. set_addr at_phys (pse_ptr e) (offset_4k v)) same
    ∙ sym (map_lookup-IsWalk at_phys limit m s4 v q3 q2 q1 d w pr)
