-- ===== src/Paging/Mapping.antt =====
-- `map_page_4k` of virt.c as a whole: how it ends, what it leaves of the tables, and `map_lookup` of
-- the page that it mapped.
use Prim.Native.Nat.{bit_or}
use fors_kernel.Prelude.{
  ℕ, ◌+◌, ◌/◌, ◌%◌, ◌^◌, ◌<◌, ◌≡◌, refl, ap, ◌∙◌, ◌⊎◌, inl, inr, Bool, true, false, ◌&&◌, List,
  ◌==◌, arith,
}
use fors_kernel.Prelude.Int.{ℤ, pos}
use fors_kernel.Prelude.Bits.{bit_or-mod2}
use fors_kernel.Paging.{
  Paging, Attempt, ◌>>=◌, settle, enomem, egeneric, pse_ptr, is_present, pml4_index, pml3_index,
  pml2_index, pml1_index, map_page_4k, map_lookup,
}
use fors_kernel.Paging.Entries.{pse_ptr-bit_or}
use fors_kernel.Paging.Levels.{IsDirectMap, HasLevels}
use fors_kernel.Paging.Enter.{Outcome, maps_large, no_frame, entered, enter_table-Outcome}
use fors_kernel.Paging.Enter.Marked.{AreFlags, Entered}
use fors_kernel.Paging.Walk.{
  IsWalk, map_lookup-IsWalk, KeepsWalks, set_page-KeepsWalks, KeepsWalks-trans,
}
use fors_kernel.Paging.Stages.{Stage, Stage-start, Stage-next, Written, set_page-Written}

-- How `map_page_4k` ends: with an error code, or with the walk to the page's entry in place.
pub data MapOutcome (level : ℕ → ℕ) (limit : ℕ) (m : Paging) (p4 phys virt flags : ℕ)
    : ℤ × Paging → Type 0 where
  refused :
      {e : ℤ} {m' : Paging} {levels : ℕ → ℕ} {unused : List ℕ}
      → (e ≡ enomem) ⊎ (e ≡ egeneric)
      → Stage level levels limit unused m m'
      → MapOutcome level limit m p4 phys virt flags (e, m')
  mapped :
      {m' : Paging} {levels : ℕ → ℕ} {unused : List ℕ} {p3 p2 p1 : ℕ}
      → Written levels limit unused m m' virt (bit_or (pse_ptr phys) flags) p4 p3 p2 p1
      → KeepsWalks level limit m m' (λ q j. q == p1 && j == pml1_index virt)
      → MapOutcome level limit m p4 phys virt flags (pos 0, m')

Outcome-bind :
    {at_phys level : ℕ → ℕ} {limit : ℕ} {m : Paging} {p i l : ℕ} {check_large : Bool}
    {r : Attempt (ℕ × Paging)} (f : ℕ × Paging → Attempt Paging) (P : ℤ × Paging → Type 0)
    → Outcome at_phys level limit m p i l check_large r
    → ((e : ℤ) → (e ≡ enomem) ⊎ (e ≡ egeneric) → P (e, m))
    → ((t : ℕ) (m' : Paging) (levels : ℕ → ℕ) (unused : List ℕ)
        → Entered at_phys level levels limit unused m m' p i l t
        → P (settle (f (t, m'))))
    → P (settle (r >>= f))
Outcome-bind f P (maps_large w) stop go = stop egeneric (inr refl)
Outcome-bind f P (no_frame w) stop go = stop enomem (inl refl)
Outcome-bind f P (entered en) stop go = go _ _ _ _ en

pub map_page_4k-MapOutcome :
    (at_phys level : ℕ → ℕ) (limit : ℕ) (xs : List ℕ) (m : Paging) (t4 phys virt flags : ℕ)
    → IsDirectMap at_phys m.hhdm_offset limit
    → AreFlags flags
    → HasLevels level limit xs m
    → level (at_phys t4) ≡ 4
    → MapOutcome level limit m
        (at_phys t4)
        phys
        virt
        flags
        (map_page_4k at_phys m t4 phys virt flags)
unfolding map_page_4k
map_page_4k-MapOutcome at_phys level limit xs m t4 phys virt flags d f h l4 =
    let P = MapOutcome level limit m (at_phys t4) phys virt flags in
    let s0 = Stage-start level limit xs m h in
    Outcome-bind _ P
      (enter_table-Outcome at_phys level limit xs false m t4 (pml4_index virt) 2 flags d f h l4
        (omega arith) (λ n. absurd (n refl)))
      (λ e w. refused w s0)
      (λ t3 m1 level1 xs1 e4.
        let d1 : IsDirectMap at_phys m1.hhdm_offset limit = rw e4.offset d in
        let l3 : level1 (at_phys t3) ≡ 3 = ap level1 e4.reached ∙ e4.next in
        let s1 = Stage-next at_phys level level level1 limit xs xs1 m m m1 _ _ 2 t3 s0 l4 e4 in
        Outcome-bind _ P
          (enter_table-Outcome at_phys level1 limit xs1 true m1 t3 (pml3_index virt) 1 flags d1 f
            e4.keeps l3 (omega arith) (λ n. refl))
          (λ e w. refused w s1)
          (λ t2 m2 level2 xs2 e3.
            let d2 : IsDirectMap at_phys m2.hhdm_offset limit = rw e3.offset d1 in
            let l2 : level2 (at_phys t2) ≡ 2 = ap level2 e3.reached ∙ e3.next in
            let s2 =
              Stage-next at_phys level level1 level2 limit xs1 xs2 m m1 m2 _ _ 1 t2 s1 l3 e3 in
            Outcome-bind _ P
              (enter_table-Outcome at_phys level2 limit xs2 true m2 t2 (pml2_index virt) 0 flags d2
                f e3.keeps l2 (omega arith) (λ n. refl))
              (λ e w. refused w s2)
              (λ t1 m3 level3 xs3 e2.
                let l1 : level3 (at_phys t1) ≡ 1 = ap level3 e2.reached ∙ e2.next in
                let s3 =
                  Stage-next at_phys level level2 level3 limit xs2 xs3 m m2 m3 _ _ 0 t1 s2 l2 e2 in
                mapped
                  (set_page-Written at_phys level level1 level2 level3 limit xs1 xs2 xs3 m m1 m2 m3
                    (at_phys t4) t3 t2 t1 phys virt flags l4 e4 e3 e2)
                  (KeepsWalks-trans level level3 limit m m3 _
                    (λ q j. q == at_phys t1 && j == pml1_index virt) s3.old s3.walks
                    (set_page-KeepsWalks at_phys level3 limit xs3 m3 t1 phys virt flags e2.keeps
                      l1)))))

outcome_levels :
    {level : ℕ → ℕ} {limit : ℕ} {m : Paging} {p4 phys virt flags : ℕ} {r : ℤ × Paging}
    → level p4 ≡ 4
    → MapOutcome level limit m p4 phys virt flags r
    → ((r.0 ≡ pos 0) ⊎ (r.0 ≡ enomem) ⊎ (r.0 ≡ egeneric))
      × ((levels : ℕ → ℕ) × (unused : List ℕ) × (levels p4 ≡ 4) × HasLevels levels limit unused r.1)
outcome_levels {p4} l4 (refused w s) = (inr w, (_, _, s.old p4 (omega (arith, l4)) ∙ l4, s.keeps))
outcome_levels l4 (mapped w k) = (inl refl, (_, _, w.root, w.keeps))

-- The addresses of a page share the walk and the page's entry.
same_indices :
    (v virt : ℕ)
    → v / 4096 ≡ virt / 4096
    → (pml4_index v ≡ pml4_index virt)
      × (pml3_index v ≡ pml3_index virt)
      × (pml2_index v ≡ pml2_index virt)
      × (pml1_index v ≡ pml1_index virt)
same_indices v virt e = (omega arith, omega arith, omega arith, omega arith)

same_walk :
    (m : Paging) (v virt limit p4 p3 p2 p1 : ℕ)
    → v / 4096 ≡ virt / 4096
    → IsWalk m virt limit p4 p3 p2 p1
    → IsWalk m v limit p4 p3 p2 p1
same_walk m v virt limit p4 p3 p2 p1 e w =
    let (i4, i3, i2, i1) = same_indices v virt e in
    record {
      present4 = rw i4 w.present4;
      next4 = rw i4 w.next4;
      present3 = rw i3 w.present3;
      small3 = rw i3 w.small3;
      next3 = rw i3 w.next3;
      present2 = rw i2 w.present2;
      small2 = rw i2 w.small2;
      next2 = rw i2 w.next2;
      bounds = w.bounds;
    }

-- An address of the page read back from its entry.
outcome_lookup :
    (at_phys : ℕ → ℕ) {level : ℕ → ℕ} {limit : ℕ} {m : Paging} (t4 phys virt flags v : ℕ)
    {r : ℤ × Paging}
    → IsDirectMap at_phys m.hhdm_offset limit
    → AreFlags flags
    → phys < 2 ^ 32
    → phys % 4096 ≡ 0
    → is_present flags ≡ true
    → MapOutcome level limit m (at_phys t4) phys virt flags r
    → r.0 ≡ pos 0
    → v / 4096 ≡ virt / 4096
    → map_lookup at_phys r.1 t4 v ≡ (pos 0, phys + v % 4096)
outcome_lookup at_phys t4 phys virt flags v d f lt al pr (refused (inl w) s) e q = absurd cc
outcome_lookup at_phys t4 phys virt flags v d f lt al pr (refused (inr w) s) e q = absurd cc
outcome_lookup at_phys {limit} t4 phys virt flags v d f lt al pr (mapped {m'} {p1} w k) e q =
    let (i4, i3, i2, i1) = same_indices v virt q in
    let walk = same_walk m' v virt limit _ _ _ p1 q w.walk in
    let entry = ap (m'.entries p1) i1 ∙ w.entry in
    let d' : IsDirectMap at_phys m'.hhdm_offset limit = rw w.offset d in
    let pr' : is_present (bit_or (pse_ptr phys) flags) ≡ true =
      ground (arith, bit_or-mod2 (pse_ptr phys) flags) in
    let ptr : pse_ptr (bit_or (pse_ptr phys) flags) ≡ phys =
      pse_ptr-bit_or (pse_ptr phys) flags f.small ∙ omega arith in
    map_lookup-IsWalk at_phys limit m' t4 v _ _ p1 d' walk (rw entry pr')
    ∙ rw (entry, ptr) (ap (λ a. (pos 0, a)) (omega arith))

module _ (at_phys level : ℕ → ℕ) (limit : ℕ) (xs : List ℕ) (m : Paging) (t4 phys virt flags : ℕ)
    (d : IsDirectMap at_phys m.hhdm_offset limit) (f : AreFlags flags)
    (h : HasLevels level limit xs m) (l4 : level (at_phys t4) ≡ 4) where
  -- On tables that have levels, with the memory of the tables and of the pool mapped, and with
  -- flags below the address that make no large page, `map_page_4k` ends with 0, `ENOMEM` or
  -- `EGENERIC`, and the tables that it leaves have levels again, with the root as it was.
  pub map_page_4k-HasLevels :
      let (code, m') = map_page_4k at_phys m t4 phys virt flags in
      ((code ≡ pos 0) ⊎ (code ≡ enomem) ⊎ (code ≡ egeneric))
      × ((levels : ℕ → ℕ) × (unused : List ℕ) × (levels (at_phys t4) ≡ 4)
          × HasLevels levels limit unused m')
  map_page_4k-HasLevels =
      outcome_levels l4
        (map_page_4k-MapOutcome at_phys level limit xs m t4 phys virt flags d f h l4)

  -- On tables that have levels, with the memory of the tables and of the pool mapped, when
  -- `map_page_4k` returns 0 for a page below 4 GiB with PSE_PRESENT among flags below the address
  -- that make no large page, then `map_lookup` of every address `v` of that page finds the place at
  -- the same offset in the frame.
  pub map_lookup-map_page_4k :
      (v : ℕ)
      → phys < 2 ^ 32
      → phys % 4096 ≡ 0
      → is_present flags ≡ true
      → let (code, m') = map_page_4k at_phys m t4 phys virt flags in
        code ≡ pos 0
        → v / 4096 ≡ virt / 4096
        → map_lookup at_phys m' t4 v ≡ (pos 0, phys + v % 4096)
  map_lookup-map_page_4k v lt al pr e q =
      outcome_lookup at_phys t4 phys virt flags v d f lt al pr
        (map_page_4k-MapOutcome at_phys level limit xs m t4 phys virt flags d f h l4) e q
