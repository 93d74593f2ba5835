-- ===== src/Procs/Rounds.antt =====
-- The rounds of the loops of `new_blank_user_pml4` of process.c.
use fors_kernel.Prelude.{
  ℕ, zero, suc, ◌+◌, ◌*◌, ◌/◌, ◌%◌, ◌≤◌, ◌≡◌, ◌≢◌, refl, ◌^◌, false, Bool-cases, inl, inr, List, [],
  ◌∷◌, ltb, arith, Run, ok, fault, out_of_fuel, ◌>>=◌,
}
use fors_kernel.Prelude.Int.{pos, ltb_ℤ}
use fors_kernel.Paging.{Paging, map_page_4k, map_lookup}
use fors_kernel.Procs.{Boot, MapEntry, map_pages, map_memory, map_section, new_blank_user_pml4}

map_pages-ends :
    (at_phys : ℕ → ℕ) (k : ℕ) (m : Paging) (pml4 phys virt off end flags : ℕ)
    → end ≤ off + k * 4096
    → map_pages at_phys (suc k) m pml4 phys virt off end flags ≢ out_of_fuel
unfolding map_pages
map_pages-ends at_phys zero m pml4 phys virt off end flags le =
    let stop : ltb off end ≡ false = ground arith in rw stop (λ e. cc)
map_pages-ends at_phys (suc k) m pml4 phys virt off end flags le = elim (Bool-cases (ltb off end)) [
  | inr stop ↦ rw stop (λ e. cc)
  | inl go ↦
      let (code, m') =
        map_page_4k at_phys m pml4 ((phys + off) % 2 ^ 64) ((virt + off) % 2 ^ 64) flags in
      elim (Bool-cases (ltb_ℤ code (pos 0))) [
        | inl bad ↦ rw (go, bad) (λ e. cc)
        | inr good ↦
            rw (go, good)
              (map_pages-ends at_phys k m' pml4 phys virt (off + 4096) end flags (omega arith))
      ]
]

bind-ends :
    {A B : Type 0} (r : Run A) (f : A → Run B)
    → r ≢ out_of_fuel
    → ((a : A) → f a ≢ out_of_fuel)
    → (r >>= f) ≢ out_of_fuel
bind-ends (ok a) f ends next = next a
bind-ends fault f ends next = λ e. cc
bind-ends out_of_fuel f ends next = absurd (ends refl)

module _ (at_phys : ℕ → ℕ) where
  map_memory-ends :
      (pml4 offset : ℕ) (ents : List MapEntry) (m : Paging)
      → map_memory at_phys pml4 offset ents m ≢ out_of_fuel
  unfolding map_memory
  map_memory-ends pml4 offset [] m = λ e. cc
  map_memory-ends pml4 offset (ent ∷ ents) m =
      bind-ends (map_memory at_phys pml4 offset ents m) _ (map_memory-ends pml4 offset ents m) (λ m.
        elim (Bool-cases ent.reserved) [
          | inl r ↦ rw r (λ e. cc)
          | inr r ↦ rw r (
              map_pages-ends at_phys (suc (ent.length / 4096)) m pml4 ent.base offset 0 ent.length _
                (omega arith))
        ])

  map_section-ends :
      (boot : Boot) (pml4 : ℕ) (section : ℕ × ℕ) (flags : ℕ) (m : Paging)
      → map_section at_phys boot pml4 section flags m ≢ out_of_fuel
  map_section-ends boot pml4 section flags m =
      map_pages-ends at_phys (suc ((section.1 + 4096) / 4096)) m pml4 boot.physical_base
        boot.virtual_base section.0 (section.1 + 4096) flags (omega arith)

  -- The rounds of the loops of `new_blank_user_pml4` are enough, whatever the memory map and the
  -- tables: it gives a table or panics.
  pub new_blank_user_pml4-ends :
      (boot : Boot) (m : Paging) → new_blank_user_pml4 at_phys boot m ≢ out_of_fuel
  unfolding new_blank_user_pml4
  new_blank_user_pml4-ends boot m =
      bind-ends _ _ (map_memory-ends _ boot.offset boot.memmap _) (λ m1.
        bind-ends _ _ (map_section-ends boot _ boot.code _ m1) (λ m2.
          bind-ends _ _ (map_section-ends boot _ boot.ro _ m2) (λ m3.
            bind-ends _ _ (map_section-ends boot _ boot.rw_data _ m3) (λ m4.
              elim (Bool-cases
                (ltb_ℤ (map_lookup at_phys m4 m4.kernel_pml4_table boot.heap_start).0 (pos 0))) [
                  | inl bad ↦ rw bad (λ e. cc)
                  | inr good ↦ rw good (λ e. cc)
                ]))))
