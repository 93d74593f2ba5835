-- ===== src/Paging/Stages.antt =====
-- The stages of `map_page_4k` of virt.c: its three levels one behind the other, and the entry that
-- it writes at the end.
use Prim.Native.Nat.{bit_or}
use fors_kernel.Prelude.{ℕ, suc, ◌≡◌, refl, ap, sym, ◌∙◌, ◌≢◌, false, List, ◌∷◌, arith}
use fors_kernel.Paging.{
  Paging, store, pse_ptr, pml4_index, pml3_index, pml2_index, pml1_index, set_page,
}
use fors_kernel.Paging.Levels.{HasLevels}
use fors_kernel.Paging.Enter.Marked.{Entered}
use fors_kernel.Paging.Walk.{
  IsWalk, other_entry, same_entry, KeepsWalks, Entered-KeepsWalks, KeepsWalks-trans,
}

-- From `m` some levels of the walk were done, and `m'` is left.
pub record Stage (level levels : ℕ → ℕ) (limit : ℕ) (unused : List ℕ) (m m' : Paging) : Type 0 where
  pub keeps : HasLevels levels limit unused m'
  pub old : (q : ℕ) → level q ≢ 0 → levels q ≡ level q
  pub offset : m'.hhdm_offset ≡ m.hhdm_offset
  pub walks : KeepsWalks level limit m m' (λ q j. false)

pub Stage-start :
    (level : ℕ → ℕ) (limit : ℕ) (xs : List ℕ) (m : Paging)
    → HasLevels level limit xs m
    → Stage level level limit xs m m
Stage-start level limit xs m h = record {
  keeps = h;
  old = λ q n. refl;
  offset = refl;
  walks = λ v q4 q3 q2 q1 l4 w o. (w, refl);
}

pub Stage-next :
    (at_phys level level1 level2 : ℕ → ℕ) (limit : ℕ) (xs1 xs2 : List ℕ) (m m1 m2 : Paging)
    (p i l t : ℕ)
    → Stage level level1 limit xs1 m m1
    → level1 p ≡ suc (suc l)
    → Entered at_phys level1 level2 limit xs2 m1 m2 p i l t
    → Stage level level2 limit xs2 m m2
Stage-next at_phys level level1 level2 limit xs1 xs2 m m1 m2 p i l t s lp en = record {
  keeps = en.keeps;
  old = λ q n. en.old q (λ z. n (sym (s.old q n) ∙ z)) ∙ s.old q n;
  offset = en.offset ∙ s.offset;
  walks =
      KeepsWalks-trans level level1 limit m m1 m2 (λ q j. false) s.old s.walks
        (Entered-KeepsWalks at_phys level1 level2 limit xs1 xs2 m1 m2 p i l t s.keeps lp en);
}

-- From `m` the walk for `virt` was completed by the tables `p3`, `p2` and `p1`, and `v` written at
-- its end.
pub record Written (levels : ℕ → ℕ) (limit : ℕ) (unused : List ℕ) (m m' : Paging)
    (virt v p4 p3 p2 p1 : ℕ) : Type 0 where
  pub keeps : HasLevels levels limit unused m'
  pub root : levels p4 ≡ 4
  pub offset : m'.hhdm_offset ≡ m.hhdm_offset
  pub walk : IsWalk m' virt limit p4 p3 p2 p1
  pub entry : m'.entries p1 (pml1_index virt) ≡ v

stored-HasLevels :
    (level : ℕ → ℕ) (limit : ℕ) (xs : List ℕ) (m : Paging) (p i v virt : ℕ)
    → HasLevels level limit xs m
    → level p ≡ 1
    → HasLevels level limit xs
        (record m { entries = store m.entries p i v; flushed = virt ∷ m.flushed })
stored-HasLevels level limit xs m p i v virt h lp = record {
  table = h.table;
  below = λ q j l lj lq pr sm.
      let w = other_entry level q p j i (λ e. absurd (omega arith)) in
      rw w (h.below q j l lj lq (rw w at pr) (λ n. rw w at (sm n)));
  pool = h.pool;
  counted = h.counted;
  free = h.free;
}

-- The tables and entries that the walk of `map_page_4k` went by.
module _ (at_phys level level1 level2 level3 : ℕ → ℕ) (limit : ℕ) (xs1 xs2 xs3 : List ℕ)
    (m m1 m2 m3 : Paging) (p4 t3 t2 t1 phys virt flags : ℕ) (l4 : level p4 ≡ 4)
    (e4 : Entered at_phys level level1 limit xs1 m m1 p4 (pml4_index virt) 2 t3)
    (e3 : Entered at_phys level1 level2 limit xs2 m1 m2 (at_phys t3) (pml3_index virt) 1 t2)
    (e2 : Entered at_phys level2 level3 limit xs3 m2 m3 (at_phys t2) (pml2_index virt) 0 t1) where
  -- The levels of the tables when the third one is entered.
  levels2 :
      (level1 p4 ≡ 4)
      × (level1 (at_phys t3) ≡ 3)
      × (level2 p4 ≡ 4)
      × (level2 (at_phys t3) ≡ 3)
      × (level2 (at_phys t2) ≡ 2)
  levels2 =
      let a4 : level1 p4 ≡ 4 = ground (arith, e4.old p4, l4) in
      let a3 : level1 (at_phys t3) ≡ 3 = ap level1 e4.reached ∙ e4.next in
      (
        a4,
        a3,
        ground (arith, e3.old p4, a4),
        ground (arith, e3.old (at_phys t3), a3),
        ap level2 e3.reached ∙ e3.next,
      )

  -- And at the end.
  levels3 :
      (level3 p4 ≡ 4)
      × (level3 (at_phys t3) ≡ 3)
      × (level3 (at_phys t2) ≡ 2)
      × (level3 (at_phys t1) ≡ 1)
  levels3 =
      let (a4, a3, b4, b3, b2) = levels2 in
      (
        ground (arith, e2.old p4, b4),
        ground (arith, e2.old (at_phys t3), b3),
        ground (arith, e2.old (at_phys t2), b2),
        ap level3 e2.reached ∙ e2.next,
      )

  -- The levels below leave the upper entries as they are.
  upper_entries :
      (m3.entries p4 (pml4_index virt) ≡ m1.entries p4 (pml4_index virt))
      × (m3.entries (at_phys t3) (pml3_index virt) ≡ m2.entries (at_phys t3) (pml3_index virt))
  upper_entries =
      let (a4, a3, b4, b3, b2) = levels2 in
      let i4 = pml4_index virt in
      let i3 = pml3_index virt in
      let i2 = pml2_index virt in
      (
        e2.same p4 i4 (omega arith) (other_entry level2 p4 (at_phys t2) i4 i2 (omega arith))
            ∙ e3.same p4 i4 (omega arith) (other_entry level1 p4 (at_phys t3) i4 i3 (omega arith)),
        e2.same (at_phys t3) i3 (omega arith)
            (other_entry level2 (at_phys t3) (at_phys t2) i3 i2 (omega arith)),
      )

  -- The page's entry written at the end of the walk.
  pub set_page-Written :
      Written level3 limit xs3 m
        (set_page at_phys m3 t1 phys virt flags)
        virt
        (bit_or (pse_ptr phys) flags)
        p4
        (at_phys t3)
        (at_phys t2)
        (at_phys t1)
  unfolding set_page
  set_page-Written =
      let (c4, c3, c2, c1) = levels3 in
      let (u4, u3) = upper_entries in
      let p1 = at_phys t1 in
      let i1 = pml1_index virt in
      let h =
        stored-HasLevels level3 limit xs3 m3 p1 i1 (bit_or (pse_ptr phys) flags) virt e2.keeps c1 in
      let final = set_page at_phys m3 t1 phys virt flags in
      let k4 : final.entries p4 (pml4_index virt) ≡ m1.entries p4 (pml4_index virt) =
        rw (other_entry level3 p4 p1 (pml4_index virt) i1 (omega arith)) u4 in
      let k3 : final.entries (at_phys t3) (pml3_index virt)
          ≡ m2.entries (at_phys t3) (pml3_index virt) =
        rw (other_entry level3 (at_phys t3) p1 (pml3_index virt) i1 (omega arith)) u3 in
      let k2 : final.entries (at_phys t2) (pml2_index virt)
          ≡ m3.entries (at_phys t2) (pml2_index virt) =
        rw (other_entry level3 (at_phys t2) p1 (pml2_index virt) i1 (omega arith)) refl in
      record {
        keeps = h;
        root = c4;
        offset = e2.offset ∙ e3.offset ∙ e4.offset;
        walk = record {
          present4 = rw k4 e4.present;
          next4 = rw k4 (sym e4.reached);
          present3 = rw k3 e3.present;
          small3 = rw k3 (e3.small (omega arith));
          next3 = rw k3 (sym e3.reached);
          present2 = rw k2 e2.present;
          small2 = rw k2 (e2.small (omega arith));
          next2 = rw k2 (sym e2.reached);
          bounds = (
            (h.table (at_phys t3) (omega arith)).0,
            (h.table (at_phys t2) (omega arith)).0,
            (h.table p1 (omega arith)).0,
          );
        };
        entry = rw (same_entry p1 i1) refl;
      }
