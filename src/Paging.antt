-- ===== src/Paging.antt =====
-- The page tables, kernel/src/arch/x64/memory/virt.c, with the macros on their entries of
-- include/arch/x64/memory.h. An entry stands in the memory by the address of the page that holds
-- its table and by its index; which physical address the processor reaches at a virtual one is the
-- parameter `at_phys`.
pub mod Entries
pub mod Api
pub mod Levels
pub mod Enter
pub mod Walk
pub mod Stages
pub mod Mapping
pub mod Fresh
pub mod Vmap
pub mod Others
use Prim.Native.Nat.{bit_or}
use fors_kernel.Prelude.{
  ℕ, zero, suc, ◌+◌, ◌*◌, ◌/◌, ◌%◌, ◌^◌, Bool, true, false, ◌&&◌, not, List, [], ◌∷◌, ◌==◌,
  if◌then◌else◌, Option, none, some, get_elem?, Run, ok, fault,
}
use fors_kernel.Prelude.Int.{ℤ, pos, negsuc, ltb_ℤ}
use fors_kernel.Frames.{Frames, page_size, pfalloc_one}

-- kerrno.h
abbrev pub egeneric : ℤ
egeneric = negsuc 0

abbrev pub einvarg : ℤ
einvarg = negsuc 1

abbrev pub eimpl : ℤ
eimpl = negsuc 2

abbrev pub enomap : ℤ
enomap = negsuc 3

abbrev pub enomem : ℤ
enomem = negsuc 4

-- PSE_PRESENT, PSE_WRITABLE, PSE_USER, PSE_XD and HH_MASK.
abbrev pub pse_present : ℕ
pse_present = 1

abbrev pub pse_writable : ℕ
pse_writable = 2

abbrev pub pse_user : ℕ
pse_user = 4

abbrev pub pse_xd : ℕ
pse_xd = 0x8000000000000000

abbrev pub hh_mask : ℕ
hh_mask = 0xffff800000000000

-- PSE_PTR: bits 12 to 51.
abbrev pub pse_ptr : ℕ → ℕ
pse_ptr val = val % 0x10000000000000 / 4096 * 4096

-- PSE_GET_PTR
abbrev pub pse_get_ptr : ℕ → ℕ
pse_get_ptr val = bit_or (pse_ptr val) hh_mask

-- An entry's bits PSE_PRESENT, 0, and PSE_PAGESIZE, 7.
abbrev pub is_present : ℕ → Bool
is_present val = val % 2 == 1

abbrev pub is_large : ℕ → Bool
is_large val = val / 128 % 2 == 1

-- EXTRACT_PML4_INDEX and the others.
abbrev pub pml4_index : ℕ → ℕ
pml4_index vaddr = vaddr / 0x8000000000 % 512

abbrev pub pml3_index : ℕ → ℕ
pml3_index vaddr = vaddr / 0x40000000 % 512

abbrev pub pml2_index : ℕ → ℕ
pml2_index vaddr = vaddr / 0x200000 % 512

abbrev pub pml1_index : ℕ → ℕ
pml1_index vaddr = vaddr / 4096 % 512

-- EXTRACT_4K_PAGE_OFFSET and the others.
abbrev pub offset_4k : ℕ → ℕ
offset_4k vaddr = vaddr % 4096

abbrev pub offset_2m : ℕ → ℕ
offset_2m vaddr = vaddr % 0x200000

abbrev pub offset_1g : ℕ → ℕ
offset_1g vaddr = vaddr % 0x40000000

-- `kernel_pml4_table`, `hhdm_offset`, the entries, the pool of frames, and the addresses whose
-- translation `flush_tlb` dropped, the last first.
pub record Paging : Type 0 where
  pub kernel_pml4_table : ℕ
  pub hhdm_offset : ℕ
  pub entries : ℕ → ℕ → ℕ
  pub frames : Frames
  pub flushed : List ℕ

-- The entries with `v` at index `i` of the table in `page`.
abbrev pub store : (ℕ → ℕ → ℕ) → ℕ → ℕ → ℕ → ℕ → ℕ → ℕ
store es page i v p j = if p == page && j == i then v else es p j

-- `table[i] = 0x0` for `left` entries from `i` on.
unfoldable pub zero_loop : ℕ → ℕ → ℕ → (ℕ → ℕ → ℕ) → ℕ → ℕ → ℕ
zero_loop zero i page es = es
zero_loop (suc left) i page es = zero_loop left (i + 1) page (store es page i 0)

unfoldable pub zero_paging_table : ℕ → (ℕ → ℕ → ℕ) → ℕ → ℕ → ℕ
unfolding zero_loop
zero_paging_table page es = zero_loop 512 0 page es

-- On the boot loader's offset of its direct map, and CR3.
unfoldable pub x64_init_virtual_memory : ℕ → ℕ → Paging → Paging
x64_init_virtual_memory offset cr3 m = record m {
  kernel_pml4_table = (offset + cr3) % 2 ^ 64;
  hhdm_offset = offset;
}

-- A part of `map_page_4k` that ends early with an error code, or goes on.
pub data Attempt (A : Type 0) : Type 0 where
  gave_up : ℤ → Paging → Attempt A
  got : A → Attempt A

infixl 5 ◌>>=◌
abbrev pub ◌>>=◌ : {A B : Type 0} → Attempt A → (A → Attempt B) → Attempt B
gave_up e m >>= f = gave_up e m
got a >>= f = f a

abbrev pub settle : Attempt Paging → ℤ × Paging
settle (gave_up e m) = (e, m)
settle (got m) = (pos 0, m)

module _ (at_phys : ℕ → ℕ) where
  -- `table[i]`
  abbrev pub read_entry : Paging → ℕ → ℕ → ℕ
  read_entry m table i = m.entries (at_phys table) i

  abbrev pub write_entry : Paging → ℕ → ℕ → ℕ → Paging
  write_entry m table i v = record m { entries = store m.entries (at_phys table) i v }

  -- Gives an entry that is not present a new zeroed table.
  unfoldable pub fill_entry : Paging → ℕ → ℕ → Attempt Paging
  fill_entry m table i =
      let (frame, pool) = pfalloc_one m.frames in
      if is_present (read_entry m table i)
      then got m
      else if frame == 0
      then gave_up enomem m
      else got (
          write_entry
            (record m { frames = pool; entries = zero_paging_table (at_phys frame) m.entries })
            table i (pse_ptr frame))

  -- One level of `map_page_4k`: the entry refused if it maps a large page, where that is checked,
  -- filled, given the flags, and followed to the table below.
  unfoldable pub enter_table : Bool → Paging → ℕ → ℕ → ℕ → Attempt (ℕ × Paging)
  enter_table check_large m table i flags =
      if check_large && is_large (read_entry m table i) then gave_up egeneric m else (do
        m ← fill_entry m table i
        let entry = bit_or (read_entry m table i) (bit_or flags pse_present)
        got (pse_get_ptr entry, write_entry m table i entry))

  -- The last level, and `flush_tlb`.
  unfoldable pub set_page : Paging → ℕ → ℕ → ℕ → ℕ → Paging
  set_page m table phys virt flags =
      let m' = write_entry m table (pml1_index virt) (bit_or (pse_ptr phys) flags) in
      record m' { flushed = virt ∷ m'.flushed }

  unfoldable pub map_page_4k : Paging → ℕ → ℕ → ℕ → ℕ → ℤ × Paging
  map_page_4k m pml4_table phys virt flags = settle (do
    (pml3_table, m) ← enter_table false m pml4_table (pml4_index virt) flags
    (pml2_table, m) ← enter_table true m pml3_table (pml3_index virt) flags
    (pml1_table, m) ← enter_table true m pml2_table (pml2_index virt) flags
    got (set_page m pml1_table phys virt flags))

  -- `hhdm_offset + PSE_PTR(entry)`
  abbrev pub table_below : Paging → ℕ → ℕ
  table_below m entry = (m.hhdm_offset + pse_ptr entry) % 2 ^ 64

  -- At `set_addr`: `page_startaddr` and its sum with the offset are `unsigned int`s.
  abbrev pub set_addr : ℕ → ℕ → ℤ × ℕ
  set_addr start offset = (pos 0, (start % 2 ^ 32 + offset) % 2 ^ 32)

  -- The code that is returned, and what is put in `*phys_ret`.
  unfoldable pub map_lookup : Paging → ℕ → ℕ → ℤ × ℕ
  map_lookup m pml4_table virt =
      let e4 = read_entry m pml4_table (pml4_index virt) in
      let e3 = read_entry m (table_below m e4) (pml3_index virt) in
      let e2 = read_entry m (table_below m e3) (pml2_index virt) in
      let e1 = read_entry m (table_below m e2) (pml1_index virt) in
      if not (is_present e4)
      then (enomap, 0)
      else if not (is_present e3)
      then (enomap, 0)
      else if is_large e3
      then set_addr (pse_ptr e3) (offset_1g virt)
      else if not (is_present e2)
      then (enomap, 0)
      else if is_large e2
      then set_addr (pse_ptr e2) (offset_2m virt)
      else if not (is_present e1)
      then (enomap, 0)
      else set_addr (pse_ptr e1) (offset_4k virt)
