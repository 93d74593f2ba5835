-- ===== src/Gdt/Segments.antt =====
-- What the selectors and the task state segment's descriptor of gdt.c mean to the processor.
use fors_kernel.Prelude.{
  ℕ, ◌+◌, ◌*◌, ◌/◌, ◌%◌, ◌^◌, ◌<◌, ◌≡◌, refl, ap, Bool, true, false, Option, none, some, List,
  get_elem?, ◌==◌, arith,
}
use fors_kernel.Gdt.{Descriptor, GdtTableEntry, gdt_table, x64_init_gdt}
use fors_kernel.Procs.{segments}

-- The descriptor that a selector picks.
abbrev pub selected : List GdtTableEntry → ℕ → Option Descriptor
selected table selector = elim (get_elem? table (selector / 8)) [
  | some (GdtTableEntry.descriptor d) ↦ some d
  | _ ↦ none
]

-- Present, of the privilege level of the selector.
abbrev pub Usable : ℕ → Bool → Descriptor → Type 0
Usable selector code d =
    (d.access_byte / 128 % 2 ≡ 1)
    × (d.access_byte / 32 % 4 ≡ selector % 4)
    × (d.access_byte / 16 % 2 ≡ 1)
    × ((d.access_byte / 8 % 2 == 1) ≡ code)
    × (d.access_byte / 2 % 2 ≡ 1)
    × ((d.limit_16_19_and_flags / 32 % 2 == 1) ≡ code)

-- The address that the two halves of a descriptor give.
abbrev pub half_address : Option GdtTableEntry → Option GdtTableEntry → Option ℕ
half_address (some (GdtTableEntry.descriptor d)) (some (GdtTableEntry.second_half high reserved)) =
    some (d.base_0_15 + 2 ^ 16 * d.base_16_23 + 2 ^ 24 * d.base_24_31 + 2 ^ 32 * high)
half_address _ _ = none

parts :
    (a : ℕ)
    → a < 2 ^ 64
    → a % 2 ^ 16
        + 2 ^ 16 * (a / 2 ^ 16 % 2 ^ 8)
        + 2 ^ 24 * (a / 2 ^ 24 % 2 ^ 8)
        + 2 ^ 32 * (a / 2 ^ 32 % 2 ^ 32)
      ≡ a
parts a lt = omega arith

-- After `x64_init_gdt`, over a task state segment at an address of 64 bits: the code selector of
-- the kernel's and of a user's processes picks a descriptor of present, executable 64-bit code of the
-- selector's privilege level, the stack selector one of present, writable data of that level, and the
-- selector that is loaded for the task state segment picks two halves that give its address.
pub x64_init_gdt-segments :
    (tss table_address : ℕ) (user : Bool)
    → tss < 2 ^ 64
    → let table = (x64_init_gdt tss table_address gdt_table).0 in
      ((cs : Descriptor) × (selected table (segments user).0 ≡ some cs)
        × Usable (segments user).0 true cs)
      × ((ss : Descriptor) × (selected table (segments user).1 ≡ some ss)
          × Usable (segments user).1 false ss)
      × (half_address (get_elem? table (0x28 / 8)) (get_elem? table (0x28 / 8 + 1)) ≡ some tss)
unfolding x64_init_gdt gdt_table
x64_init_gdt-segments tss table_address true lt = (
  (_, refl, (refl, refl, refl, refl, refl, refl)),
  (_, refl, (refl, refl, refl, refl, refl, refl)),
  ap some (parts tss lt),
)
x64_init_gdt-segments tss table_address false lt = (
  (_, refl, (refl, refl, refl, refl, refl, refl)),
  (_, refl, (refl, refl, refl, refl, refl, refl)),
  ap some (parts tss lt),
)
