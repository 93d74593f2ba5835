-- ===== src/Start.antt =====
-- The start of the machine: `memory_initialise` of kernel/src/arch/x64/memory/init.c, which sets up the
-- pool of frames, the page tables, the tables of the processor and the kernel's heap, in this order,
-- and `arch_initialise` of kernel/src/arch/x64/init.c.
pub mod Main
use fors_kernel.Prelude.{ℕ, ◌+◌, Option, List, if◌then◌else◌, Run, ok, fault, out_of_fuel, ◌>>=◌}
use fors_kernel.Prelude.Int.{pos, negsuc, ltb_ℤ}
use fors_kernel.Ports.{Bus}
use fors_kernel.Pic.{pic_map, pic_unblock_irq}
use fors_kernel.Uart.{UartComPort, x64_uart_init}
use fors_kernel.Frames.{MemmapEntry, page_size, pfalloc_one, x64_init_physical_memory}
use fors_kernel.Heap.{BuddyAllocator, buddy_init}
use fors_kernel.Paging.{Paging, x64_init_virtual_memory}
use fors_kernel.Paging.Api.{AddressSpace, vmap}
use fors_kernel.Gdt.{GdtTableEntry, GdtrImage, gdt_table, x64_init_gdt}
use fors_kernel.Idt.{IdtEntry, Tss, idt_init}

-- What the boot loader, the linker and the processor say: the memory map, the offset of the direct
-- map, CR3, `_FORS_HEAP_START`, the addresses of `tss` and `gdt_table`, and of the stubs of interrupts.
pub record Image : Type 0 where
  pub memmap : List MemmapEntry
  pub offset : ℕ
  pub cr3 : ℕ
  pub kheap_start : ℕ
  pub tss_address : ℕ
  pub gdt_address : ℕ
  pub isr : ℕ → ℕ

-- The tables that the processor reads.
pub record Tables : Type 0 where
  pub gdt : List GdtTableEntry
  pub gdtr : GdtrImage
  pub idt : List IdtEntry
  pub tss : Tss

-- The memory: the page tables with the pool, the heap, and the tables of the processor.
pub record Memory : Type 0 where
  pub paging : Paging
  pub kheap_alloc : BuddyAllocator
  pub tables : Tables

-- On the table of interrupts as it is linked. A failed mapping of the heap panics; the code of
-- `buddy_init` is dropped.
unfoldable pub memory_initialise :
    (ℕ → ℕ) → Image → List AddressSpace → List IdtEntry → Paging → BuddyAllocator → Run Memory
unfolding x64_init_physical_memory x64_init_virtual_memory gdt_table x64_init_gdt idt_init
    pfalloc_one vmap buddy_init
memory_initialise at_phys image procs idt_table m kheap_alloc = do
  pool ← x64_init_physical_memory image.memmap m.frames
  let m1 = x64_init_virtual_memory image.offset image.cr3 (record m { frames = pool })
  let (gdt, gdtr) = x64_init_gdt image.tss_address image.gdt_address gdt_table
  let (idt, tss, m2) = idt_init image.isr idt_table m1
  let (frame, pool) = pfalloc_one m2.frames
  -- VMAP_4K and VMAP_WRIT
  (code, m3) ←
      vmap at_phys procs (record m2 { frames = pool }) (negsuc 0) frame image.kheap_start 12
  if ltb_ℤ code (pos 0) then fault else (do
    (done, kheap_alloc) ← buddy_init page_size image.kheap_start 5 kheap_alloc
    ok (record {
      paging = m3;
      kheap_alloc = kheap_alloc;
      tables = record { gdt = gdt; gdtr = gdtr; idt = idt; tss = tss };
    }))

module _ {D : Type 0} (bus : Bus D) (at_phys : ℕ → ℕ) where
  -- On the rounds of the serial port's waits and the two lines that it sends: the memory, the ports,
  -- `uart_port` and the devices. Without a port the processor halts for ever.
  unfoldable pub arch_initialise :
      ℕ
      → List ℕ
      → List ℕ
      → Image
      → List AddressSpace
      → List IdtEntry
      → Paging
      → BuddyAllocator
      → D
      → Run (Memory × List UartComPort × Option UartComPort × D)
  unfolding x64_uart_init memory_initialise pic_map pic_unblock_irq
  arch_initialise rounds build detected image procs idt_table m kheap_alloc d = do
    (code, ports, uart_port, d) ← x64_uart_init bus rounds build detected d
    if ltb_ℤ code (pos 0) then out_of_fuel else (do
      memory ← memory_initialise at_phys image procs idt_table m kheap_alloc
      let mapped = pic_map bus d 0x20 (0x20 + 8)
      ok (memory, ports, uart_port, pic_unblock_irq bus mapped 1))
