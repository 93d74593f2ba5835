-- ===== src/Paging/Vmap.antt =====
-- `vmap` of virt.c: the flags that it gives a page, its errors, and looking a mapped page up.
use fors_kernel.Prelude.{
  ℕ, zero, suc, ◌+◌, ◌/◌, ◌%◌, ◌^◌, ◌<◌, ◌≡◌, refl, ap, sym, ◌∙◌, inl, inr, Bool, true, false,
  Bool-cases, Option-cases, List, ◌==◌, if◌then◌else◌, arith, Option, none, some, get_elem?, ok,
}
use fors_kernel.Prelude.Int.{ℤ, pos, negsuc}
use fors_kernel.Paging.{Paging, eimpl, is_present, offset_4k, map_page_4k, map_lookup}
use fors_kernel.Paging.Api.{vis_mapped_to, AddressSpace, entry_flags, mapping_flags, vmap_in, vmap}
use fors_kernel.Paging.Levels.{IsDirectMap, HasLevels}
use fors_kernel.Paging.Enter.Marked.{AreFlags}
use fors_kernel.Paging.Mapping.{map_lookup-map_page_4k}

-- Whatever flags `vmap` is given, the entry's flags are below the address, mark no large page and
-- have PSE_PRESENT.
record IsEntryFlags (flags : ℕ) : Type 0 where
  allowed : AreFlags flags
  present : is_present flags ≡ true

entry_flags-IsEntryFlags : (user writ exec : Bool) → IsEntryFlags (entry_flags user writ exec)
entry_flags-IsEntryFlags true true true = record {
  allowed = record { small = omega arith; table = refl };
  present = refl;
}
entry_flags-IsEntryFlags true true false = record {
  allowed = record { small = omega arith; table = refl };
  present = refl;
}
entry_flags-IsEntryFlags true false true = record {
  allowed = record { small = omega arith; table = refl };
  present = refl;
}
entry_flags-IsEntryFlags true false false = record {
  allowed = record { small = omega arith; table = refl };
  present = refl;
}
entry_flags-IsEntryFlags false true true = record {
  allowed = record { small = omega arith; table = refl };
  present = refl;
}
entry_flags-IsEntryFlags false true false = record {
  allowed = record { small = omega arith; table = refl };
  present = refl;
}
entry_flags-IsEntryFlags false false true = record {
  allowed = record { small = omega arith; table = refl };
  present = refl;
}
entry_flags-IsEntryFlags false false false = record {
  allowed = record { small = omega arith; table = refl };
  present = refl;
}

mapping_flags-IsEntryFlags : (flags : ℕ) → IsEntryFlags (mapping_flags flags)
unfolding mapping_flags
mapping_flags-IsEntryFlags flags =
    entry_flags-IsEntryFlags (flags / 2 % 2 == 1) (flags / 4 % 2 == 1) (flags % 2 == 1)

-- The root table of a process that is there, and of the kernel for -1.
unfoldable pub root_of : List AddressSpace → Paging → ℤ → Option ℕ
root_of procs m (negsuc zero) = some m.kernel_pml4_table
root_of procs m (negsuc (suc n)) = none
root_of procs m (pos pid) = elim (get_elem? procs pid) [
  | none ↦ none
  | some pr ↦ if pr.present then some pr.cr3 else none
]

-- A `vmap` that succeeds is a `vmap_in` of the root table.
vmap-root_of :
    (at_phys : ℕ → ℕ) (procs : List AddressSpace) (m m' : Paging) (pid : ℤ) (pa va flags t4 : ℕ)
    → root_of procs m pid ≡ some t4
    → vmap at_phys procs m pid pa va flags ≡ ok (pos 0, m')
    → vmap_in at_phys m t4 pa va flags ≡ (pos 0, m')
unfolding root_of vmap
vmap-root_of at_phys procs m m' (negsuc zero) pa va flags t4 r e =
    let q : m.kernel_pml4_table ≡ t4 = cc in
    let v : vmap_in at_phys m m.kernel_pml4_table pa va flags ≡ (pos 0, m') = cc in
    ap (λ t. vmap_in at_phys m t pa va flags) (sym q) ∙ v
vmap-root_of at_phys procs m m' (negsuc (suc n)) pa va flags t4 r e = absurd cc
vmap-root_of at_phys procs m m' (pos pid) pa va flags t4 r e =
    elim (Option-cases (get_elem? procs pid)) [
      | inl n ↦ absurd (let r' : none ≡ some t4 = rw (n, root_of) at r in cc)
      | inr (pr, g) ↦ elim (Bool-cases pr.present) [
        | inl b ↦
            let r' : some pr.cr3 ≡ some t4 = rw (g, b, root_of) at r in
            let e' : ok (vmap_in at_phys m pr.cr3 pa va flags) ≡ ok (pos 0, m') =
              rw (g, b, vmap) at e in
            let q : pr.cr3 ≡ t4 = cc in
            let v : vmap_in at_phys m pr.cr3 pa va flags ≡ (pos 0, m') = cc in
            ap (λ t. vmap_in at_phys m t pa va flags) (sym q) ∙ v
        | inr b ↦ absurd (let r' : none ≡ some t4 = rw (g, b, root_of) at r in cc)
      ]
    ]

-- On tables that have levels, with the memory of the tables and of the pool mapped, when `vmap`
-- succeeds for a process that is there or for the kernel with VMAP_4K and a page below 4 GiB, then
-- `map_lookup` in its root table finds for every address of that page the same place in the frame.
pub map_lookup-vmap :
    (at_phys level : ℕ → ℕ) (limit : ℕ) (xs : List ℕ) (procs : List AddressSpace) (m m' : Paging)
    (pid : ℤ) (pa va flags t4 : ℕ)
    → IsDirectMap at_phys m.hhdm_offset limit
    → HasLevels level limit xs m
    → root_of procs m pid ≡ some t4
    → level (at_phys t4) ≡ 4
    → pa < 2 ^ 32
    → pa % 4096 ≡ 0
    → vmap at_phys procs m pid pa va flags ≡ ok (pos 0, m')
    → map_lookup at_phys m' t4 va ≡ (pos 0, pa + offset_4k va)
unfolding vmap_in
map_lookup-vmap at_phys level limit xs procs m m' pid pa va flags t4 d h r l4 lt al e =
    let v = vmap-root_of at_phys procs m m' pid pa va flags t4 r e in
    let f = mapping_flags-IsEntryFlags flags in
    elim (Bool-cases (flags / 8 % 2 == 1)) [
      | inl b ↦
          let v' : map_page_4k at_phys m t4 pa va (mapping_flags flags) ≡ (pos 0, m') = rw b at v in
          let q =
            map_lookup-map_page_4k at_phys level limit xs m t4 pa va (mapping_flags flags) d
              f.allowed h l4 va lt al f.present (ap (λ r. r.0) v') refl in
          ap (λ r. map_lookup at_phys r.1 t4 va) (sym v') ∙ q
      | inr b ↦ absurd (let v' : (eimpl, m) ≡ (pos 0, m') = rw b at v in cc)
    ]

-- On tables that have levels, with the memory of the tables and of the pool mapped, when `vmap`
-- succeeds with VMAP_4K for a process that is there, whose root table is of level 4, on the start
-- of a page and a frame below 4 GiB that is not at 0, then `vis_mapped_to` says so.
pub vis_mapped_to-vmap :
    (at_phys level : ℕ → ℕ) (limit : ℕ) (xs : List ℕ) (procs : List AddressSpace) (m m' : Paging)
    (pid pa va flags : ℕ) (pr : AddressSpace)
    → IsDirectMap at_phys m.hhdm_offset limit
    → HasLevels level limit xs m
    → get_elem? procs pid ≡ some pr
    → pr.present ≡ true
    → level (at_phys pr.cr3) ≡ 4
    → pa < 2 ^ 32
    → pa % 4096 ≡ 0
    → 0 < pa
    → va % 4096 ≡ 0
    → vmap at_phys procs m (pos pid) pa va flags ≡ ok (pos 0, m')
    → vis_mapped_to at_phys procs m' pid va pa ≡ ok true
unfolding root_of vis_mapped_to
vis_mapped_to-vmap at_phys level limit xs procs m m' pid pa va flags pr d h g b l4 lt al nz start
      e =
    let r : root_of procs m (pos pid) ≡ some pr.cr3 = rw (g, b, root_of) refl in
    let q =
      map_lookup-vmap at_phys level limit xs procs m m' (pos pid) pa va flags pr.cr3 d h r l4 lt al
        e in
    let same : pa + va % 4096 ≡ pa = omega arith in
    let z : (pa == 0) ≡ false = ground arith in
    let eq : (pa == pa) ≡ true = ground arith in
    let q' : map_lookup at_phys m' pr.cr3 va ≡ (pos 0, pa) = q ∙ ap (λ a. (pos 0, a)) same in
    let code : (map_lookup at_phys m' pr.cr3 va).0 ≡ pos 0 = ap (λ r. r.0) q' in
    let phys : (map_lookup at_phys m' pr.cr3 va).1 ≡ pa = ap (λ r. r.1) q' in
    rw (g, b, code, phys, z, eq) refl
