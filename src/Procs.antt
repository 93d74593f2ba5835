-- ===== src/Procs.antt =====
-- Processes, kernel/src/arch/x64/thread/process.c: their page tables, their making and the start of
-- the scheduler.
pub mod Rounds
use Prim.Native.Nat.{bit_or}
use fors_kernel.Prelude.{
  ℕ, zero, suc, ◌+◌, ◌/◌, ◌%◌, ◌^◌, Bool, true, false, not, Option, none, some, List, [], ◌∷◌,
  replicate, ltb, ◌==◌, if◌then◌else◌, get_elem?, set, Run, ok, fault, out_of_fuel, ◌>>=◌, deref,
}
use fors_kernel.Prelude.Int.{ℤ, pos, negsuc, ltb_ℤ}
use fors_kernel.Str.{strncpy}
use fors_kernel.Sched.{Queue, schedule}
use fors_kernel.Vfs.Slots.{first_free}
use fors_kernel.Sys.{Process, fds_per_proc}
use fors_kernel.Timer.{Timer, add_timer_handle}
use fors_kernel.Ports.{Bus}
use fors_kernel.Pic.{pic_unblock_irq}
use fors_kernel.Frames.{page_size, pfalloc_one}
use fors_kernel.Paging.{Paging, pse_present, pse_writable, map_page_4k, map_lookup}
use fors_kernel.Paging.Api.{allocate_stack}

-- `proc_status`
pub data ProcStatus : Type 0 where
  proc_running proc_ready proc_blocked proc_killed : ProcStatus

-- The registers of `register_ctx_x64` that making a process sets.
pub record RegisterCtx : Type 0 where
  pub cr3 : ℕ
  pub rbp : ℕ
  pub rdi : ℕ
  pub rip : ℕ
  pub cs : ℕ
  pub rflags : ℕ
  pub rsp : ℕ
  pub ss : ℕ

-- A `process` whole.
pub record Thread : Type 0 where
  pub process : Process
  pub name : List ℕ
  pub status : ProcStatus
  pub ctx : RegisterCtx

abbrev pub proc_name_length : ℕ
proc_name_length = 32

-- An entry of the memory map: its base, its length, and whether it is reserved.
pub record MapEntry : Type 0 where
  pub base : ℕ
  pub length : ℕ
  pub reserved : Bool

-- What the boot loader and the linker say: the memory map, the offset of the direct map, where the
-- kernel stands, the offsets of its sections and their ends, and the start of the heap.
pub record Boot : Type 0 where
  pub memmap : List MapEntry
  pub offset : ℕ
  pub virtual_base : ℕ
  pub physical_base : ℕ
  pub code : ℕ × ℕ
  pub ro : ℕ × ℕ
  pub rw_data : ℕ × ℕ
  pub heap_start : ℕ

-- KERNEL_CS, KERNEL_SS, USER_CS, USER_SS, and RFLAGS_BASE with RFLAGS_IF.
abbrev pub segments : Bool → ℕ × ℕ
segments user = if user then (0x1b, 0x23) else (0x08, 0x10)

abbrev pub initial_rflags : ℕ
initial_rflags = bit_or 2 0x200

module _ (at_phys : ℕ → ℕ) where
  -- A loop of `new_blank_user_pml4` over the pages from `off` up to `end`; `map_page_4k` returns no
  -- positive code. A page is 4096 bytes, so `end / 4096 + 2` rounds are enough.
  unfoldable pub map_pages : ℕ → Paging → ℕ → ℕ → ℕ → ℕ → ℕ → ℕ → Run Paging
  map_pages zero m pml4 phys virt off end flags = out_of_fuel
  map_pages (suc k) m pml4 phys virt off end flags =
      let (code, m') =
        map_page_4k at_phys m pml4 ((phys + off) % 2 ^ 64) ((virt + off) % 2 ^ 64) flags in
      let rest = map_pages k m' pml4 phys virt (off + page_size) end flags in
      if not (ltb off end) then ok m else if ltb_ℤ code (pos 0) then fault else rest

  -- The loop over the memory map, from its last entry on.
  unfoldable pub map_memory : ℕ → ℕ → List MapEntry → Paging → Run Paging
  map_memory pml4 offset [] m = ok m
  map_memory pml4 offset (ent ∷ ents) m = do
    m ← map_memory pml4 offset ents m
    if ent.reserved
        then ok m
        else map_pages (suc (suc (ent.length / page_size))) m pml4 ent.base offset 0 ent.length
            (bit_or pse_present pse_writable)

  -- A section of the kernel, with a page more than its end.
  abbrev pub map_section : Boot → ℕ → ℕ × ℕ → ℕ → Paging → Run Paging
  map_section boot pml4 section flags m =
      map_pages (suc (suc ((section.1 + page_size) / page_size))) m pml4 boot.physical_base
        boot.virtual_base section.0 (section.1 + page_size) flags

  -- The table, and the memory; a failed mapping panics, but that of the heap does not.
  unfoldable pub new_blank_user_pml4 : Boot → Paging → Run (ℕ × Paging)
  unfolding pfalloc_one map_memory map_pages
  new_blank_user_pml4 boot m = do
    let (new_pml4, pool) = pfalloc_one m.frames
    m ← map_memory new_pml4 boot.offset boot.memmap (record m { frames = pool })
    m ← map_section boot new_pml4 boot.code pse_present m
    m ← map_section boot new_pml4 boot.ro pse_present m
    m ← map_section boot new_pml4 boot.rw_data (bit_or pse_present pse_writable) m
    let (found, kheap_phys) = map_lookup at_phys m m.kernel_pml4_table boot.heap_start
    if ltb_ℤ found (pos 0)
        then fault
        else (let (code, m') =
              map_page_4k at_phys m new_pml4 kheap_phys boot.heap_start
                (bit_or pse_present pse_writable) in
            ok (new_pml4, m'))

  -- The table of a process, and its stack, 0 for none given.
  unfoldable pub root_for : Bool → Boot → Paging → Run (ℕ × Paging)
  unfolding new_blank_user_pml4
  root_for user boot m = if user then new_blank_user_pml4 boot m else ok (m.kernel_pml4_table, m)

  unfoldable pub stack_for : ℕ → Paging → ℕ × Paging
  unfolding allocate_stack
  stack_for stack m = if stack == 0 then allocate_stack m else (stack, m)

  -- The number of the process, or -1, `procs` and the memory. The `cwd` is the text "/".
  unfoldable pub create_process :
      Boot → List Thread → Paging → List ℕ → ℕ → ℕ → ℕ → Bool → Run (ℤ × List Thread × Paging)
  unfolding first_free strncpy root_for stack_for
  create_process boot procs m name entry arg stack user =
      elim (first_free (λ (th : Thread). not th.process.present) procs) [
        | none ↦ ok (negsuc 0, procs, m)
        | some tid ↦ do
          th ← deref (get_elem? procs tid)
          name' ← strncpy th.name name proc_name_length
          (root, m) ← root_for user boot m
          let (rsp, m') = stack_for stack m
          let th' : Thread = record {
            process = record th.process {
              tid = pos tid;
              present = true;
              cwd = b'/' ∷ 0 ∷ [];
              fdmap = replicate fds_per_proc (negsuc 0);
            };
            name = name';
            status = ProcStatus.proc_ready;
            ctx = record {
              cr3 = root;
              rbp = 0;
              rdi = arg;
              rip = entry;
              cs = (segments user).0;
              rflags = initial_rflags;
              rsp = rsp;
              ss = (segments user).1;
            };
          }
          ok (pos tid, set procs tid th', m')
      ]

-- The new `current_proc`, and the queue.
unfoldable pub schedule_set_current_proc : Queue → ℤ × Queue
schedule_set_current_proc q = schedule q

-- On the number of the callback `schedule_set_current_proc`.
unfoldable pub arch_start_running_procs : {D : Type 0} → Bus D → ℕ → Timer → D → Timer × D
unfolding add_timer_handle pic_unblock_irq
arch_start_running_procs bus cbk t d = ((add_timer_handle t cbk 1).1, pic_unblock_irq bus d 0)
