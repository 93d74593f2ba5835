-- ===== src/Paging/Walk.antt =====
-- The walk through the page tables of virt.c: `map_lookup` on it, and what a level of `map_page_4k`
-- and its last write leave of it.
use fors_kernel.Prelude.{
  ℕ, suc, ◌+◌, ◌%◌, ◌^◌, ◌<◌, ◌≡◌, refl, ap, sym, ◌∙◌, ◌≢◌, inl, inr, Bool, true, false, ◌&&◌,
  Bool-cases, List, ◌==◌, arith,
}
use fors_kernel.Paging.{
  Paging, read_entry, pse_ptr, is_present, is_large, pml4_index, pml3_index, pml2_index, pml1_index,
  offset_4k, set_addr, set_page, map_lookup,
}
use fors_kernel.Paging.Levels.{IsDirectMap, HasLevels}
use fors_kernel.Paging.Enter.Marked.{Entered}

-- The entries for `virt` lead from the table `p4` to the tables `p3`, `p2` and `p1`.
pub record IsWalk (m : Paging) (virt limit p4 p3 p2 p1 : ℕ) : Type 0 where
  pub present4 : is_present (m.entries p4 (pml4_index virt)) ≡ true
  pub next4 : pse_ptr (m.entries p4 (pml4_index virt)) ≡ p3
  pub present3 : is_present (m.entries p3 (pml3_index virt)) ≡ true
  pub small3 : is_large (m.entries p3 (pml3_index virt)) ≡ false
  pub next3 : pse_ptr (m.entries p3 (pml3_index virt)) ≡ p2
  pub present2 : is_present (m.entries p2 (pml2_index virt)) ≡ true
  pub small2 : is_large (m.entries p2 (pml2_index virt)) ≡ false
  pub next2 : pse_ptr (m.entries p2 (pml2_index virt)) ≡ p1
  pub bounds : (p3 < limit) × (p2 < limit) × (p1 < limit)

direct_entry :
    (at_phys : ℕ → ℕ) (limit : ℕ) (m : Paging) (p i : ℕ)
    → IsDirectMap at_phys m.hhdm_offset limit
    → p < limit
    → read_entry at_phys m ((m.hhdm_offset + p) % 2 ^ 64) i ≡ m.entries p i
direct_entry at_phys limit m p i d lt = ap (λ q. m.entries q i) (d.direct p lt)

pub map_lookup-IsWalk :
    (at_phys : ℕ → ℕ) (limit : ℕ) (m : Paging) (t virt p3 p2 p1 : ℕ)
    → IsDirectMap at_phys m.hhdm_offset limit
    → IsWalk m virt limit (at_phys t) p3 p2 p1
    → is_present (m.entries p1 (pml1_index virt)) ≡ true
    → map_lookup at_phys m t virt
      ≡ set_addr at_phys (pse_ptr (m.entries p1 (pml1_index virt))) (offset_4k virt)
unfolding map_lookup
map_lookup-IsWalk at_phys limit m t virt p3 p2 p1 d w pr =
    let (l3, l2, l1) = w.bounds in
    let at3 = direct_entry at_phys limit m p3 (pml3_index virt) d l3 in
    let at2 = direct_entry at_phys limit m p2 (pml2_index virt) d l2 in
    let at1 = direct_entry at_phys limit m p1 (pml1_index virt) d l1 in
    rw
      (
        w.present4, w.next4, at3, w.present3, w.small3, w.next3, at2, w.present2, w.small2, w.next2,
        at1, pr,
      )
      refl

-- Tables of different levels are different.
pub other_entry : (level : ℕ → ℕ) (q p j i : ℕ) → level q ≢ level p → (q == p && j == i) ≡ false
other_entry level q p j i ne = let n : q ≢ p = λ e. ne (ap level e) in ground arith

pub same_entry : (p i : ℕ) → (p == p && i == i) ≡ true
same_entry p i = ground arith

-- A walk that was there is there, and ends at the same entry, unless `except` says that this one was
-- written.
abbrev pub KeepsWalks : (ℕ → ℕ) → ℕ → Paging → Paging → (ℕ → ℕ → Bool) → Type 0
KeepsWalks level limit m m' except =
    (v q4 q3 q2 q1 : ℕ)
    → level q4 ≡ 4
    → IsWalk m v limit q4 q3 q2 q1
    → except q1 (pml1_index v) ≡ false
    → IsWalk m' v limit q4 q3 q2 q1 × (m'.entries q1 (pml1_index v) ≡ m.entries q1 (pml1_index v))

-- The levels of the tables on a walk.
IsWalk-levels :
    (level : ℕ → ℕ) (limit : ℕ) (xs : List ℕ) (m : Paging) (v q4 q3 q2 q1 : ℕ)
    → HasLevels level limit xs m
    → level q4 ≡ 4
    → IsWalk m v limit q4 q3 q2 q1
    → (level q3 ≡ 3) × (level q2 ≡ 2) × (level q1 ≡ 1)
IsWalk-levels level limit xs m v q4 q3 q2 q1 h l4 w =
    let l3 : level q3 ≡ 3 =
      ap level (sym w.next4)
      ∙ h.below q4 (pml4_index v) 2 (omega arith) l4 w.present4 (λ n. absurd (n refl)) in
    let l2 : level q2 ≡ 2 =
      ap level (sym w.next3)
      ∙ h.below q3 (pml3_index v) 1 (omega arith) l3 w.present3 (λ n. w.small3) in
    let l1 : level q1 ≡ 1 =
      ap level (sym w.next2)
      ∙ h.below q2 (pml2_index v) 0 (omega arith) l2 w.present2 (λ n. w.small2) in
    (l3, l2, l1)

-- An entry that was present leads where it led.
Entered-grown :
    (at_phys level levels : ℕ → ℕ) (limit : ℕ) (unused : List ℕ) (m m' : Paging) (p i l t q j : ℕ)
    → Entered at_phys level levels limit unused m m' p i l t
    → level q ≢ 0
    → is_present (m.entries q j) ≡ true
    → (is_present (m'.entries q j) ≡ true)
      × (pse_ptr (m'.entries q j) ≡ pse_ptr (m.entries q j))
      × (is_large (m'.entries q j) ≡ is_large (m.entries q j))
Entered-grown at_phys level levels limit unused m m' p i l t q j en lq pr =
    elim (Bool-cases (q == p && j == i)) [
      | inl w ↦
          let q_p : q ≡ p = ground arith in
          let j_i : j ≡ i = ground arith in
          let e : m.entries q j ≡ m.entries p i = rw (q_p, j_i) refl in
          let (ptr, large) = en.grown (ap is_present (sym e) ∙ pr) in
          rw (q_p, j_i) (en.present, ptr, large)
      | inr w ↦ let e = en.same q j lq w in rw e (pr, refl, refl)
    ]

pub Entered-KeepsWalks :
    (at_phys level levels : ℕ → ℕ) (limit : ℕ) (xs unused : List ℕ) (m m' : Paging) (p i l t : ℕ)
    → HasLevels level limit xs m
    → level p ≡ suc (suc l)
    → Entered at_phys level levels limit unused m m' p i l t
    → KeepsWalks level limit m m' (λ q j. false)
Entered-KeepsWalks at_phys level levels limit xs unused m m' p i l t h lp en v q4 q3 q2 q1 l4 w _ =
    let (l3, l2, l1) = IsWalk-levels level limit xs m v q4 q3 q2 q1 h l4 w in
    let (a4, b4, c4) =
      Entered-grown at_phys level levels limit unused m m' p i l t q4 (pml4_index v) en
        (omega arith) w.present4 in
    let (a3, b3, c3) =
      Entered-grown at_phys level levels limit unused m m' p i l t q3 (pml3_index v) en
        (omega arith) w.present3 in
    let (a2, b2, c2) =
      Entered-grown at_phys level levels limit unused m m' p i l t q2 (pml2_index v) en
        (omega arith) w.present2 in
    let other = other_entry level q1 p (pml1_index v) i (omega arith) in
    (
      record {
        present4 = a4;
        next4 = b4 ∙ w.next4;
        present3 = a3;
        small3 = c3 ∙ w.small3;
        next3 = b3 ∙ w.next3;
        present2 = a2;
        small2 = c2 ∙ w.small2;
        next2 = b2 ∙ w.next2;
        bounds = w.bounds;
      },
      en.same q1 (pml1_index v) (omega arith) other,
    )

-- Of an entry of a table of the last level only the walks that end there take notice.
pub set_page-KeepsWalks :
    (at_phys level : ℕ → ℕ) (limit : ℕ) (xs : List ℕ) (m : Paging) (t phys virt flags : ℕ)
    → HasLevels level limit xs m
    → level (at_phys t) ≡ 1
    → KeepsWalks level limit m
        (set_page at_phys m t phys virt flags)
        (λ q j. q == at_phys t && j == pml1_index virt)
unfolding set_page
set_page-KeepsWalks at_phys level limit xs m t phys virt flags h lp v q4 q3 q2 q1 l4 w other =
    let p = at_phys t in
    let i = pml1_index virt in
    let (l3, l2, l1) = IsWalk-levels level limit xs m v q4 q3 q2 q1 h l4 w in
    let o4 = other_entry level q4 p (pml4_index v) i (omega arith) in
    let o3 = other_entry level q3 p (pml3_index v) i (omega arith) in
    let o2 = other_entry level q2 p (pml2_index v) i (omega arith) in
    (
      record {
        present4 = rw o4 w.present4;
        next4 = rw o4 w.next4;
        present3 = rw o3 w.present3;
        small3 = rw o3 w.small3;
        next3 = rw o3 w.next3;
        present2 = rw o2 w.present2;
        small2 = rw o2 w.small2;
        next2 = rw o2 w.next2;
        bounds = w.bounds;
      },
      rw other refl,
    )

pub KeepsWalks-trans :
    (level level' : ℕ → ℕ) (limit : ℕ) (m m1 m2 : Paging) (except : ℕ → ℕ → Bool)
    → ((q : ℕ) → level q ≢ 0 → level' q ≡ level q)
    → KeepsWalks level limit m m1 (λ q j. false)
    → KeepsWalks level' limit m1 m2 except
    → KeepsWalks level limit m m2 except
KeepsWalks-trans level level' limit m m1 m2 except old k k' v q4 q3 q2 q1 l4 w other =
    let (w1, e1) = k v q4 q3 q2 q1 l4 w refl in
    let (w2, e2) = k' v q4 q3 q2 q1 (old q4 (omega arith) ∙ l4) w1 other in (w2, e2 ∙ e1)

-- The walk for an address is determined.
pub IsWalk-unique :
    (m : Paging) (v limit p4 p3 p2 p1 q3 q2 q1 : ℕ)
    → IsWalk m v limit p4 p3 p2 p1
    → IsWalk m v limit p4 q3 q2 q1
    → p1 ≡ q1
IsWalk-unique m v limit p4 p3 p2 p1 q3 q2 q1 w w' =
    let e3 : p3 ≡ q3 = sym w.next4 ∙ w'.next4 in
    let e2 : p2 ≡ q2 = sym w.next3 ∙ ap (λ p. pse_ptr (m.entries p (pml3_index v))) e3 ∙ w'.next3 in
    sym w.next2 ∙ ap (λ p. pse_ptr (m.entries p (pml2_index v))) e2 ∙ w'.next2
