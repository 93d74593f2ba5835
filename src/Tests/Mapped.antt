-- ===== src/Tests/Mapped.antt =====
-- A page mapped beside another in the same tables.
use fors_kernel.Prelude.{
  ℕ, ◌+◌, ◌^◌, ◌≡◌, refl, true, false, inl, inr, Bool-cases, ◌&&◌, [], ◌∷◌, ◌==◌, if◌then◌else◌,
  arith,
}
use fors_kernel.Prelude.Int.{pos}
use fors_kernel.Frames.{Frames}
use fors_kernel.Paging.{
  Paging, hh_mask, is_present, pse_ptr, pml1_index, map_page_4k, map_lookup, enter_table,
  fill_entry, set_page,
}
use fors_kernel.Paging.Levels.{HasLevels}
use fors_kernel.Paging.Walk.{IsWalk}
use fors_kernel.Paging.Others.{map_lookup-map_page_4k_other}
use fors_kernel.Tests.Tables.{direct_map, direct_map-IsDirectMap, writable}

abbrev one_frame : Frames
one_frame = record { frame_list = 0x5000; free_frames = 1; next = λ a. 0; prev = λ a. 0 }

-- The tables at 0x1000 to 0x4000 map the page 0x400000 to the frame 0x7000.
abbrev mapped_entries : ℕ → ℕ → ℕ
mapped_entries p i =
    if p == 0x1000 && i == 0
    then 0x2003
    else if p == 0x2000 && i == 0
    then 0x3003
    else if p == 0x3000 && i == 2
    then 0x4003
    else if p == 0x4000 && i == 0
    then 0x7003
    else 0

abbrev one_page : Paging
one_page = record {
  kernel_pml4_table = hh_mask + 0x1000;
  hhdm_offset = hh_mask;
  entries = mapped_entries;
  frames = one_frame;
  flushed = [];
}

abbrev table_level : ℕ → ℕ
table_level p =
    if p == 0x1000
    then 4
    else if p == 0x2000
    then 3
    else if p == 0x3000
    then 2
    else if p == 0x4000
    then 1
    else 0

one_page-below :
    (p i l : ℕ)
    → table_level p ≡ l + 2
    → is_present (mapped_entries p i) ≡ true
    → table_level (pse_ptr (mapped_entries p i)) ≡ l + 1
one_page-below p i l lp pr = elim (Bool-cases (p == 0x1000 && i == 0)) [
  | inl w ↦ rw w (ground arith)
  | inr w ↦ elim (Bool-cases (p == 0x2000 && i == 0)) [
    | inl w' ↦ rw (w, w') (ground arith)
    | inr w' ↦ elim (Bool-cases (p == 0x3000 && i == 2)) [
      | inl w'' ↦ rw (w, w', w'') (ground arith)
      | inr w'' ↦ absurd (ground arith)
    ]
  ]
]

one_page-HasLevels : HasLevels table_level (2 ^ 47) (0x5000 ∷ []) one_page
one_page-HasLevels = record {
  table = λ p ne. ground arith;
  below = λ p i l li lp pr sm. omega (arith, one_page-below p i l (omega (arith, lp)) pr);
  pool = record { chain = (refl, refl, refl); ascending = (omega arith, tt); counted = refl };
  counted = omega arith;
  free = (refl, omega arith, refl, tt);
}

one_page-IsWalk : IsWalk one_page 0x400123 (2 ^ 47) 0x1000 0x2000 0x3000 0x4000
one_page-IsWalk = record {
  present4 = refl;
  next4 = refl;
  present3 = refl;
  small3 = refl;
  next3 = refl;
  present2 = refl;
  small2 = refl;
  next2 = refl;
  bounds = (omega arith, omega arith, omega arith);
}

abbrev two_pages : Paging
two_pages = (map_page_4k direct_map one_page 0x1000 0x8000 0x401000 3).1

two_pages-IsWalk : IsWalk two_pages 0x401000 (2 ^ 47) 0x1000 0x2000 0x3000 0x4000
unfolding map_page_4k enter_table fill_entry set_page
two_pages-IsWalk = record {
  present4 = refl;
  next4 = refl;
  present3 = refl;
  small3 = refl;
  next3 = refl;
  present2 = refl;
  small2 = refl;
  next2 = refl;
  bounds = (omega arith, omega arith, omega arith);
}

-- The walk for the new page ends at the entry behind the old one's.
elsewhere :
    (map_page_4k direct_map one_page 0x1000 0x8000 0x401000 3).0 ≡ pos 0
    → (p3 p2 p1 : ℕ) → IsWalk two_pages 0x401000 (2 ^ 47) 0x1000 p3 p2 p1
    → (0x4000 == p1 && pml1_index 0x400123 == pml1_index 0x401000) ≡ false
elsewhere e p3 p2 p1 w = ground arith

map_lookup-map_page_4k_other_example :
    map_lookup direct_map two_pages 0x1000 0x400123 ≡ map_lookup direct_map one_page 0x1000 0x400123
map_lookup-map_page_4k_other_example =
    map_lookup-map_page_4k_other direct_map table_level (2 ^ 47) (0x5000 ∷ []) one_page 0x1000
      0x8000 0x401000 3 0x1000 0x400123 0x2000 0x3000 0x4000 direct_map-IsDirectMap writable
      one_page-HasLevels refl refl one_page-IsWalk refl elsewhere
