-- ===== src/Paging/Api.antt =====
-- Mapping for the rest of the kernel: `tmpmap`, `vmap` and `allocate_stack` of
-- kernel/src/arch/x64/memory/virt.c, and kernel/src/arch/x64/memory/api.c.
use Prim.Native.Nat.{bit_or}
use fors_kernel.Prelude.{
  ℕ, zero, suc, ◌+◌, ◌/◌, ◌%◌, ◌^◌, Bool, false, not, List, ◌==◌, if◌then◌else◌, none, some,
  get_elem?, Run, ok, fault, deref, ◌>>=◌,
}
use fors_kernel.Prelude.Int.{ℤ, pos, negsuc, ltb_ℤ}
use fors_kernel.Frames.{page_size, pfalloc_one}
use fors_kernel.Paging.{
  Paging, pse_present, pse_writable, pse_user, pse_xd, eimpl, einvarg, map_page_4k, map_lookup,
}

-- What `vmap` reads of a process: `present` and `ctx.cr3`.
pub record AddressSpace : Type 0 where
  pub present : Bool
  pub cr3 : ℕ

-- The flags of `vmap` as flags of an entry, on whether VMAP_USER, VMAP_WRIT and VMAP_EXEC are set;
-- `map_page_4k` takes 32 bits of them.
abbrev pub entry_flags : Bool → Bool → Bool → ℕ
entry_flags user writ exec =
    let with_user = if user then bit_or 0 pse_user else 0 in
    let with_writ = if writ then bit_or with_user pse_writable else with_user in
    let with_xd = if exec then with_writ else bit_or with_writ pse_xd in
    bit_or with_xd pse_present % 2 ^ 32

unfoldable pub mapping_flags : ℕ → ℕ
mapping_flags flags = entry_flags (flags / 2 % 2 == 1) (flags / 4 % 2 == 1) (flags % 2 == 1)

module _ (at_phys : ℕ → ℕ) where
  -- On the kernel's scratch page `_FORS_KERNEL_TEMP_MAP_PAGE`; the pointer, 0 for NULL.
  unfoldable pub tmpmap : ℕ → Paging → ℕ → ℕ × Paging
  unfolding map_page_4k
  tmpmap temp_page m pa =
      let (code, m') =
        map_page_4k at_phys m m.kernel_pml4_table pa temp_page (bit_or pse_present pse_writable) in
      if ltb_ℤ code (pos 0) then (0, m') else (temp_page, m')

  -- What `vmap` does in the table `root_table`.
  unfoldable pub vmap_in : Paging → ℕ → ℕ → ℕ → ℕ → ℤ × Paging
  vmap_in m root_table pa va flags =
      if flags / 8 % 2 == 1
      then map_page_4k at_phys m root_table pa va (mapping_flags flags)
      else (eimpl, m)

  -- `procs[pid]` outside the table of processes is a fault.
  unfoldable pub vmap : List AddressSpace → Paging → ℤ → ℕ → ℕ → ℕ → Run (ℤ × Paging)
  vmap procs m (negsuc zero) pa va flags = ok (vmap_in m m.kernel_pml4_table pa va flags)
  vmap procs m (negsuc (suc n)) pa va flags = fault
  vmap procs m (pos pid) pa va flags = elim (get_elem? procs pid) [
    | none ↦ fault
    | some pr ↦ ok (if pr.present then vmap_in m pr.cr3 pa va flags else (einvarg, m))
  ]

  -- The physical address, 0 for NULL.
  unfoldable pub vget_mapping : List AddressSpace → Paging → ℕ → ℕ → Run ℕ
  vget_mapping procs m pid va = do
    p ← deref (get_elem? procs pid)
    ok (
        if not p.present
        then 0
        else (let (code, phys_addr) = map_lookup at_phys m p.cr3 va in
            elim code [ pos zero ↦ phys_addr | _ ↦ 0 ]))

  unfoldable pub vis_mapped_to : List AddressSpace → Paging → ℕ → ℕ → ℕ → Run Bool
  unfolding vget_mapping
  vis_mapped_to procs m pid va pa = do
    actual_pa ← vget_mapping procs m pid va
    ok (if actual_pa == 0 then false else actual_pa == pa)

  unfoldable pub vunmap : Paging → ℕ → ℕ → ℤ × Paging
  vunmap m pid va = (negsuc 0, m)

-- The stack's upper end, and the frame it takes from the pool.
unfoldable pub allocate_stack : Paging → ℕ × Paging
unfolding pfalloc_one
allocate_stack m =
    let (frame, pool) = pfalloc_one m.frames in
    ((m.hhdm_offset + frame + page_size) % 2 ^ 64, record m { frames = pool })
