-- ===== src/Gdt.antt =====
-- The segments, kernel/src/arch/x64/memory/gdt.c: the descriptors and the register image that the
-- processor loads. Loading them is assembly.
pub mod Segments
use Prim.Native.Nat.{bit_or}
use fors_kernel.Prelude.{ℕ, ◌*◌, ◌/◌, ◌%◌, ◌^◌, List, [], ◌∷◌, set, length}

-- `gdt_table_entry`, a union: `gdt_descriptor_long` or `tss_second_half`.
pub record Descriptor : Type 0 where
  pub limit_0_15 : ℕ
  pub base_0_15 : ℕ
  pub base_16_23 : ℕ
  pub access_byte : ℕ
  pub limit_16_19_and_flags : ℕ
  pub base_24_31 : ℕ

pub data GdtTableEntry : Type 0 where
  descriptor : Descriptor → GdtTableEntry
  second_half : (base_32_63 reserved : ℕ) → GdtTableEntry

-- SEG_AB_RW, SEG_AB_EXEC, SEG_AB_CODE_DATA, SEG_AB_DPL and SEG_AB_PRESENT.
abbrev pub seg_rw : ℕ
seg_rw = 2

abbrev pub seg_exec : ℕ
seg_exec = 8

abbrev pub seg_code_data : ℕ
seg_code_data = 16

abbrev pub seg_dpl : ℕ → ℕ
seg_dpl n = n % 4 * 2 ^ 5

abbrev pub seg_present : ℕ
seg_present = 128

-- SEG_FLAG_LONG and SEG_FLAG_4K_BLOCKS.
abbrev pub seg_long : ℕ
seg_long = 2

abbrev pub seg_4k_blocks : ℕ
seg_4k_blocks = 8

-- INIT_SEG_DESCRIPTOR
unfoldable pub init_seg_descriptor : ℕ → ℕ → ℕ → ℕ → GdtTableEntry
init_seg_descriptor base limit access flags = GdtTableEntry.descriptor (record {
  limit_0_15 = limit % 2 ^ 16;
  base_0_15 = base % 2 ^ 16;
  base_16_23 = base / 2 ^ 16 % 2 ^ 8;
  access_byte = access;
  limit_16_19_and_flags = bit_or (limit / 2 ^ 16 % 2 ^ 4) (flags % 2 ^ 4 * 2 ^ 4);
  base_24_31 = base / 2 ^ 24 % 2 ^ 8;
})

-- INIT_TSS_DESCRIPTOR_FIRST_HALF and INIT_TSS_DESCRIPTOR_SECOND_HALF
unfoldable pub init_tss_first_half : ℕ → ℕ → GdtTableEntry
init_tss_first_half base limit = GdtTableEntry.descriptor (record {
  limit_0_15 = limit % 2 ^ 16;
  base_0_15 = base % 2 ^ 16;
  base_16_23 = base / 2 ^ 16 % 2 ^ 8;
  access_byte = 0x89;
  limit_16_19_and_flags = bit_or (limit / 2 ^ 16 % 2 ^ 4) (8 * 2 ^ 4);
  base_24_31 = base / 2 ^ 24 % 2 ^ 8;
})

unfoldable pub init_tss_second_half : ℕ → GdtTableEntry
init_tss_second_half base = GdtTableEntry.second_half (base / 2 ^ 32 % 2 ^ 32) 0

-- The access byte of a code segment and of a data segment, of a privilege level.
abbrev pub code_access : ℕ → ℕ
code_access level =
    bit_or (bit_or (bit_or (bit_or seg_present (seg_dpl level)) seg_code_data) seg_exec) seg_rw

abbrev pub data_access : ℕ → ℕ
data_access level = bit_or (bit_or (bit_or seg_present (seg_dpl level)) seg_code_data) seg_rw

-- The table as it is linked.
unfoldable pub gdt_table : List GdtTableEntry
unfolding init_seg_descriptor init_tss_first_half init_tss_second_half
gdt_table =
    init_seg_descriptor 0 0 0 0
    ∷ init_seg_descriptor 0 0 (code_access 0) (bit_or seg_long seg_4k_blocks)
    ∷ init_seg_descriptor 0 0 (data_access 0) seg_4k_blocks
    ∷ init_seg_descriptor 0 0 (code_access 3) (bit_or seg_long seg_4k_blocks)
    ∷ init_seg_descriptor 0 0 (data_access 3) seg_4k_blocks
    ∷ init_tss_first_half 0 0
    ∷ init_tss_second_half 0
    ∷ []

-- `gdtr_image`, on the address of the table.
pub record GdtrImage : Type 0 where
  pub limit : ℕ
  pub base : ℕ

-- An entry has 8 bytes. `tss` is the address of the task state segment.
unfoldable pub x64_init_gdt : ℕ → ℕ → List GdtTableEntry → List GdtTableEntry × GdtrImage
unfolding init_tss_first_half init_tss_second_half
x64_init_gdt tss table_address table = (
  set (set table 5 (init_tss_first_half tss 0)) 6 (init_tss_second_half tss),
  record { limit = 8 * length table % 2 ^ 16; base = table_address },
)
