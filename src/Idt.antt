-- ===== src/Idt.antt =====
-- Interrupts, kernel/src/arch/x64/int/idt.c: the table of descriptors, and what the kernel does on an
-- interrupt. The stubs save the registers before `interrupt_dispatch` and load what it returns.
pub mod Gates
pub mod Switches
use Prim.Native.Nat.{bit_or, bit_and}
use fors_kernel.Prelude.{
  ℕ, ◌+◌, ◌-◌, ◌*◌, ◌/◌, ◌%◌, ◌^◌, Bool, ◌||◌, not, Option, List, [], ◌∷◌, ltb, leb, ◌==◌,
  if◌then◌else◌, get_elem?, set, replicate, Run, ok, fault, out_of_fuel, ◌>>=◌, deref,
}
use fors_kernel.Prelude.Int.{ℤ, pos, negsuc, as_size}
use fors_kernel.Str.{eq_int}
use fors_kernel.Vfs.{FilesystemType}
use fors_kernel.Sched.{Queue}
use fors_kernel.Sys.{Kernel, syscall_dispatch}
use fors_kernel.Timer.{Timer, timer_tick}
use fors_kernel.Paging.{Paging}
use fors_kernel.Paging.Api.{allocate_stack}
use fors_kernel.Ports.{Bus}
use fors_kernel.Pic.{pic_eoi}
use fors_kernel.Procs.{schedule_set_current_proc}

-- INIT_IDT_ATTRIBUTES
unfoldable pub idt_attributes : ℕ → ℕ → ℕ → ℕ
idt_attributes dpl type ist =
    bit_or (bit_or (bit_or (2 ^ 15) (bit_and ist 7)) (type % 2 ^ 4 * 2 ^ 8)) (dpl % 2 ^ 2 * 2 ^ 13)

-- `idt_entry`; the selector by its 16 bits.
pub record IdtEntry : Type 0 where
  pub offset_a : ℕ
  pub segment : ℕ
  pub attributes : ℕ
  pub offset_b : ℕ
  pub offset_c : ℕ
  pub reserved : ℕ

-- INIT_IDT_ENTRY
unfoldable pub init_entry : ℕ → ℕ → ℕ → IdtEntry
init_entry seg attr offset = record {
  offset_a = offset % 2 ^ 16;
  segment = seg;
  attributes = attr;
  offset_b = offset / 2 ^ 16 % 2 ^ 16;
  offset_c = offset / 2 ^ 32 % 2 ^ 32;
  reserved = 0;
}

unfoldable pub idt_attach_handler : List IdtEntry → ℕ → ℕ → ℕ → ℕ → List IdtEntry
unfolding init_entry
idt_attach_handler table vector seg attr handler = set table vector (init_entry seg attr handler)

-- The vectors that `idt_init` attaches the kernel's gates to, less the one for system calls.
abbrev pub isr_vectors : List ℕ
isr_vectors =
    0x00 ∷ 0x01 ∷ 0x02 ∷ 0x03 ∷ 0x04 ∷ 0x05 ∷ 0x06 ∷ 0x07 ∷ 0x10 ∷ 0x12 ∷ 0x13 ∷ 0x20 ∷ 0x21 ∷ 0x2e
    ∷ []

abbrev pub isr_error_vectors : List ℕ
isr_error_vectors = 0x08 ∷ 0x0a ∷ 0x0b ∷ 0x0c ∷ 0x0d ∷ 0x0e ∷ 0x11 ∷ []

abbrev pub syscall_vector : ℕ
syscall_vector = 0xf0

-- A run of calls of `idt_attach_handler`; `isr` gives the address of a vector's stub.
unfoldable pub attach_all : (ℕ → ℕ) → ℕ → List ℕ → List IdtEntry → List IdtEntry
unfolding idt_attach_handler
attach_all isr attr [] table = table
attach_all isr attr (v ∷ vs) table =
    attach_all isr attr vs (idt_attach_handler table v 0x08 attr (isr v))

-- The handlers that `idt_init` attaches.
unfoldable pub attach_handlers : (ℕ → ℕ) → List IdtEntry → List IdtEntry
unfolding idt_attributes attach_all idt_attach_handler
attach_handlers isr table =
    let first = attach_all isr (idt_attributes 0 0xf 0) isr_vectors table in
    let second =
      idt_attach_handler first syscall_vector 0x08 (idt_attributes 3 0xf 0) (isr syscall_vector) in
    attach_all isr (idt_attributes 0 0xf 0) isr_error_vectors second

-- IOPB_SIZE
abbrev pub iopb_size : ℕ
iopb_size = 130

-- `tss_t`: `others` are `_0`, `rsp1` and `rsp2`, `_1`, `ist1` to `ist7`, `_2` and `_3`, in order.
pub record Tss : Type 0 where
  pub rsp0 : ℕ
  pub others : List ℕ
  pub io_bitmap_offset : ℕ
  pub iopb : List ℕ

-- `idt_descriptor`
pub record IdtDescriptor : Type 0 where
  pub idt_size : ℕ
  pub offset : ℕ

-- The descriptor that `idt_load` loads; an entry has 16 bytes.
unfoldable pub idt_load : ℕ → ℕ → IdtDescriptor
idt_load table n_entries = record {
  idt_size = (n_entries * 16 + 2 ^ 16 - 1) % 2 ^ 16;
  offset = table;
}

-- The table, the task state segment, and the memory without the frame of the kernel's stack. The
-- bitmap of ports begins at byte 104 of the segment.
unfoldable pub idt_init : (ℕ → ℕ) → List IdtEntry → Paging → List IdtEntry × Tss × Paging
unfolding attach_handlers allocate_stack
idt_init isr table m =
    let (stack, m') = allocate_stack m in
    (
      attach_handlers isr table,
      record {
        rsp0 = stack;
        others = replicate 13 0;
        io_bitmap_offset = 104;
        iopb = set (replicate iopb_size 0) (iopb_size - 1) 0xff;
      },
      m',
    )

-- `register_ctx_x64`: the registers that an interrupt looks at, and the others.
pub record Ctx : Type 0 where
  pub rax : ℕ
  pub rbx : ℕ
  pub rcx : ℕ
  pub rsi : ℕ
  pub vector : ℕ
  pub rip : ℕ
  pub others : List ℕ

-- What an interrupt can change: `ctxs` are the `ctx` of the processes, `memory` the objects that
-- pointers of users point to.
pub record Machine (D : Type 0) : Type 0 where
  pub kernel : Kernel
  pub ctxs : List Ctx
  pub queue : Queue
  pub timer : Timer
  pub memory : ℤ → List ℕ
  pub device : D

-- A value of 64 bits as a `long long`.
abbrev pub as_long : ℕ → ℤ
as_long n = if ltb n (2 ^ 63) then pos n else negsuc (2 ^ 64 - 1 - n)

-- `&procs[i].ctx`
abbrev pub ctx_at : ℤ → List Ctx → Run Ctx
ctx_at (negsuc i) ctxs = fault
ctx_at (pos i) ctxs = deref (get_elem? ctxs i)

abbrev pub set_ctx : ℤ → Ctx → List Ctx → List Ctx
set_ctx (negsuc i) ctx ctxs = ctxs
set_ctx (pos i) ctx ctxs = set ctxs i ctx

-- The first address of the upper half.
abbrev pub upper_half : ℕ
upper_half = 0xffff800000000000

-- Whether the registers of the process that ran are saved.
abbrev pub is_saved : ℤ → Ctx → Bool
is_saved (negsuc i) ctx = Bool.false
is_saved (pos i) ctx = ltb ctx.rip upper_half

module _ {D : Type 0} (bus : Bus D) (sched : ℕ) where
  -- The callbacks of a tick, in order; the one with the number `sched` is
  -- `schedule_set_current_proc`, and there is no other.
  unfoldable pub run_callbacks : List ℕ → Machine D → Run (Machine D)
  unfolding schedule_set_current_proc
  run_callbacks [] m = ok m
  run_callbacks (c ∷ cs) m =
      let (next, queue) = schedule_set_current_proc m.queue in
      let rest =
        run_callbacks cs
          (record m { kernel = record m.kernel { current_proc = next }; queue = queue }) in
      if c == sched then rest else fault

  -- The timer's case: the registers to go on with, and the new state.
  unfoldable pub pit_tick : Ctx → Machine D → Run (Ctx × Machine D)
  unfolding timer_tick run_callbacks pic_eoi
  pit_tick ctx m = do
    let proc_save = m.kernel.current_proc
    (called, timer) ← timer_tick m.timer
    m ← run_callbacks called (record m { timer = timer })
    let acknowledged = pic_eoi bus m.device 0
    if eq_int proc_save m.kernel.current_proc
        then ok (ctx, record m { device = acknowledged })
        else (do
          let ctxs = if is_saved proc_save ctx then set_ctx proc_save ctx m.ctxs else m.ctxs
          next ← ctx_at m.kernel.current_proc ctxs
          ok (next, record m { ctxs = ctxs; device = acknowledged }))

  -- The registers that the stub loads, and the new state. A panic is a fault; a vector without a
  -- case halts the processor for ever.
  unfoldable pub interrupt_dispatch :
      (ℕ → FilesystemType) → (ℕ → Option (List ℕ)) → Ctx → Machine D → Run (Ctx × Machine D)
  unfolding pit_tick pic_eoi syscall_dispatch
  interrupt_dispatch types kalloc ctx m =
      if ctx.vector == 14 || (ctx.vector == 13 || ctx.vector == 0)
      then fault
      else if ctx.vector == 0x20
      then pit_tick ctx m
      else if ctx.vector == 0x21
      then ok (ctx, record m { device = pic_eoi bus (bus.inb m.device 0x60).1 1 })
      else if ctx.vector == 0x2e || ctx.vector == 0x2f
      then ok (ctx, record m { device = pic_eoi bus m.device 14 })
      else if not (ctx.vector == syscall_vector)
      then out_of_fuel
      else if ctx.rax == 100
      then ok (ctx, m)
      else (do
        let p_1 = as_long ctx.rsi
        (sysret, object, k) ←
            syscall_dispatch types kalloc m.memory m.kernel (as_long ctx.rax) p_1 (as_long ctx.rbx)
              (as_long ctx.rcx)
        let memory = λ (p : ℤ). if eq_int p p_1 then object else m.memory p
        ok (record ctx { rax = as_size sysret }, record m { kernel = k; memory = memory }))
