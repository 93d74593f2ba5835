-- ===== src/Tests/Tables.antt =====
-- The page tables on an empty root table at 0x1000 and a pool of four frames.
use Prim.Native.Nat.{bit_or}
use fors_kernel.Prelude.{
  ℕ, ◌+◌, ◌-◌, ◌^◌, ◌<◌, ◌≡◌, refl, ap, ◌⊎◌, true, List, [], ◌∷◌, ◌==◌, ltb, if◌then◌else◌, arith,
  ok,
}
use fors_kernel.Prelude.Bits.{bit_or-doubled}
use fors_kernel.Prelude.Int.{pos}
use fors_kernel.Frames.{Frames}
use fors_kernel.Frames.Insert.{IsPool}
use fors_kernel.Paging.{Paging, hh_mask, enomem, egeneric, map_page_4k, map_lookup}
use fors_kernel.Paging.Api.{vis_mapped_to, AddressSpace, vmap, mapping_flags, vmap_in}
use fors_kernel.Paging.Levels.{IsDirectMap, HasLevels}
use fors_kernel.Paging.Enter.Marked.{AreFlags}
use fors_kernel.Paging.Mapping.{map_page_4k-HasLevels, map_lookup-map_page_4k}
use fors_kernel.Paging.Fresh.{map_page_4k_fresh}
use fors_kernel.Paging.Vmap.{vis_mapped_to-vmap}

abbrev pub direct_map : ℕ → ℕ
direct_map v = if ltb v hh_mask then v else v - hh_mask

higher_half-direct_map : (p : ℕ) → p < 2 ^ 47 → direct_map (bit_or p hh_mask) ≡ p
higher_half-direct_map p lt = let e = bit_or-doubled 47 p 131071 lt in ground (arith, e)

pub direct_map-IsDirectMap : IsDirectMap direct_map hh_mask (2 ^ 47)
direct_map-IsDirectMap = record {
  identity = λ p lt. ground arith;
  higher_half = higher_half-direct_map;
  direct = λ p lt. ground arith;
  physical = omega arith;
}

abbrev four_frames : Frames
four_frames = record {
  frame_list = 0x2000;
  free_frames = 4;
  next = λ a. if ltb a 0x5000 then a + 0x1000 else 0;
  prev = λ a. if a == 0x2000 then 0 else a - 0x1000;
}

abbrev empty_root : Paging
empty_root = record {
  kernel_pml4_table = hh_mask + 0x1000;
  hhdm_offset = hh_mask;
  entries = λ p i. 0;
  frames = four_frames;
  flushed = [];
}

abbrev root_level : ℕ → ℕ
root_level p = if p == 0x1000 then 4 else 0

four_frames-IsPool : IsPool four_frames (0x2000 ∷ 0x3000 ∷ 0x4000 ∷ 0x5000 ∷ [])
four_frames-IsPool = record {
  chain = (refl, refl, (refl, refl, (refl, refl, (refl, refl, refl))));
  ascending = (omega arith, (omega arith, (omega arith, (omega arith, tt))));
  counted = refl;
}

empty_root-HasLevels :
    HasLevels root_level (2 ^ 47) (0x2000 ∷ 0x3000 ∷ 0x4000 ∷ 0x5000 ∷ []) empty_root
empty_root-HasLevels = record {
  table = λ p ne. ground arith;
  below = λ p i l li lp pr sm. absurd cc;
  pool = four_frames-IsPool;
  counted = omega arith;
  free = (
    refl,
    omega arith,
    refl,
    (refl, omega arith, refl, (refl, omega arith, refl, (refl, omega arith, refl, tt))),
  );
}

pub writable : AreFlags 3
writable = record { small = omega arith; table = refl }

map_page_4k-HasLevels_example :
    let (code, m') = map_page_4k direct_map empty_root (hh_mask + 0x1000) 0x7000 0x400123 3 in
    ((code ≡ pos 0) ⊎ (code ≡ enomem) ⊎ (code ≡ egeneric))
    × ((levels : ℕ → ℕ) × (unused : List ℕ) × (levels 0x1000 ≡ 4)
        × HasLevels levels (2 ^ 47) unused m')
map_page_4k-HasLevels_example =
    map_page_4k-HasLevels direct_map root_level (2 ^ 47) (0x2000 ∷ 0x3000 ∷ 0x4000 ∷ 0x5000 ∷ [])
      empty_root (hh_mask + 0x1000) 0x7000 0x400123 3 direct_map-IsDirectMap writable
      empty_root-HasLevels refl

map_page_4k_fresh_example :
    (map_page_4k direct_map empty_root (hh_mask + 0x1000) 0x7000 0x400123 3).0 ≡ pos 0
map_page_4k_fresh_example =
    map_page_4k_fresh direct_map root_level (2 ^ 47) 0x2000 0x3000 0x4000 (0x5000 ∷ []) empty_root
      (hh_mask + 0x1000) 0x7000 0x400123 3 direct_map-IsDirectMap writable empty_root-HasLevels refl
      refl

map_lookup-map_page_4k_example :
    map_lookup direct_map
      (map_page_4k direct_map empty_root (hh_mask + 0x1000) 0x7000 0x400123 3).1
      (hh_mask + 0x1000)
      0x400900
    ≡ (pos 0, 0x7900)
map_lookup-map_page_4k_example =
    map_lookup-map_page_4k direct_map root_level (2 ^ 47) (0x2000 ∷ 0x3000 ∷ 0x4000 ∷ 0x5000 ∷ [])
      empty_root (hh_mask + 0x1000) 0x7000 0x400123 3 direct_map-IsDirectMap writable
      empty_root-HasLevels refl 0x400900 (omega arith) refl refl map_page_4k_fresh_example refl

abbrev one_process : List AddressSpace
one_process = record { present = true; cr3 = 0x1000 } ∷ []

-- VMAP_4K, VMAP_WRIT and VMAP_USER without VMAP_EXEC: PSE_XD is lost.
flags_lost : mapping_flags 14 ≡ 7
unfolding mapping_flags
flags_lost = refl

abbrev after_vmap : ℕ → Paging
after_vmap va = (map_page_4k direct_map empty_root 0x1000 0x7000 va 7).1

vmap_succeeds :
    (va : ℕ)
    → vmap direct_map one_process empty_root (pos 0) 0x7000 va 14 ≡ ok (pos 0, after_vmap va)
unfolding vmap vmap_in mapping_flags
vmap_succeeds va =
    ap (λ code. ok (code, after_vmap va))
      (map_page_4k_fresh direct_map root_level (2 ^ 47) 0x2000 0x3000 0x4000 (0x5000 ∷ [])
        empty_root 0x1000 0x7000 va 7 direct_map-IsDirectMap
        (record { small = omega arith; table = refl }) empty_root-HasLevels refl refl)

vis_mapped_to-vmap_example :
    vis_mapped_to direct_map one_process (after_vmap 0x400000) 0 0x400000 0x7000 ≡ ok true
vis_mapped_to-vmap_example =
    vis_mapped_to-vmap direct_map root_level (2 ^ 47) (0x2000 ∷ 0x3000 ∷ 0x4000 ∷ 0x5000 ∷ [])
      one_process empty_root (after_vmap 0x400000) 0 0x7000 0x400000 14
      (record { present = true; cr3 = 0x1000 }) direct_map-IsDirectMap empty_root-HasLevels refl
      refl refl (omega arith) refl (omega arith) refl (vmap_succeeds 0x400000)
