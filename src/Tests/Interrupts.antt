-- ===== src/Tests/Interrupts.antt =====
-- The table of interrupts, and ticks of the timer, at concrete states.
use fors_kernel.Prelude.Post.{Post}
use fors_kernel.Sys.{Process, Kernel}
use fors_kernel.Prelude.{
  false, ◌/◌, true, c_string, ℕ, ◌+◌, ◌*◌, ◌≡◌, refl, Option, some, none, List, [], ◌∷◌, replicate,
  set, get_elem?, arith, ok,
}
use fors_kernel.Prelude.Int.{ℤ, pos, negsuc}
use fors_kernel.Vfs.{FilesystemType}
use fors_kernel.Testfs.{testfs_type}
use fors_kernel.Sched.{Queue, max_procs}
use fors_kernel.Sched.Fifo.{IsValid}
use fors_kernel.Ports.{Bus}
use fors_kernel.Paging.{Paging}
use fors_kernel.Gdt.{Descriptor, gdt_table, x64_init_gdt}
use fors_kernel.Gdt.Segments.{selected, Usable, half_address, x64_init_gdt-segments}
use fors_kernel.Idt.{IdtEntry, Ctx, Machine, idt_init, interrupt_dispatch}
use fors_kernel.Idt.Gates.{IsGate, idt_init-gate}
use fors_kernel.Idt.Switches.{interrupt_dispatch_resumes}

-- Stubs of 16 bytes in the upper half.
abbrev stub : ℕ → ℕ
stub v = 0xffff800000001000 + 16 * v

abbrev no_gates : List IdtEntry
no_gates =
    replicate 256 (record {
      offset_a = 0;
      segment = 0;
      attributes = 0;
      offset_b = 0;
      offset_c = 0;
      reserved = 0;
    })

-- No memory is free.
abbrev no_frames : Paging
no_frames = record {
  kernel_pml4_table = 0;
  hhdm_offset = 0;
  entries = λ t i. 0;
  frames = record { frame_list = 0; free_frames = 0; next = λ a. 0; prev = λ a. 0 };
  flushed = [];
}

idt_init-gate_example :
    (e : IdtEntry) × (get_elem? (idt_init stub no_gates no_frames).0 0xf0 ≡ some e)
    × IsGate e (stub 0xf0) 3
idt_init-gate_example = idt_init-gate stub no_gates no_frames 0xf0 refl (omega arith) (omega arith)

-- The slave's disk interrupt has a case in `interrupt_dispatch` and no gate.
no_slave_gate : get_elem? (idt_init stub no_gates no_frames).0 0x2f ≡ get_elem? no_gates 0x2f
unfolding idt_init
no_slave_gate = refl

-- A device that does nothing.
abbrev quiet : Bus Unit
quiet = record {
  inb = λ d port. (0, d);
  inw = λ d port. (0, d);
  outb = λ d port v. d;
  outw = λ d port v. d;
}

abbrev test_types : ℕ → FilesystemType
test_types i = testfs_type

abbrev no_memory : ℕ → Option (List ℕ)
no_memory n = none

-- Registers on a tick, of a process at some address.
abbrev regs : ℕ → Ctx
regs rip = record { rax = 1; rbx = 2; rcx = 3; rsi = 4; vector = 0x20; rip = rip; others = [] }

-- Processes 1 and 0 wait.
abbrev two_procs : Queue
two_procs = record {
  sched_queue = set (replicate max_procs (pos 0)) 0 (pos 1);
  sq_head = 0;
  sq_tail = 2;
  sq_space_left = 30;
}

two_procs-IsValid : IsValid two_procs
two_procs-IsValid = record {
  storage = refl;
  head_in = omega arith;
  space_in = omega arith;
  tail_at = refl;
}

-- Both have the descriptor 0, of a slot without a file.
abbrev test_proc : ℤ → Process
test_proc tid = record {
  present = true;
  tid = tid;
  gid = pos 0;
  uid = pos 0;
  cwd = c_string "/";
  fdmap = pos 0 ∷ replicate 31 (negsuc 0);
}

abbrev two_running : Kernel
two_running = record {
  vfs = record {
    vfs_root = none;
    fsnodes = [];
    fslinks = [];
    open_files = (record { node = none; cursor = pos 0; mode = 0; proc = pos 0 }) ∷ [];
    mounts = [];
  };
  procs = test_proc (pos 0) ∷ test_proc (pos 1) ∷ [];
  current_proc = pos 0;
}

-- Process 0 runs, with the scheduler called on each tick.
abbrev running : Machine Unit
running = record {
  kernel = two_running;
  ctxs = regs 0 ∷ regs 0x1000 ∷ [];
  queue = two_procs;
  timer = record {
    ticks = 0;
    handles = replicate 8 (record { cbk = 5; n = 1 });
    next_handle_ind = 1;
  };
  memory = λ p. [];
  device = tt;
}

interrupt_dispatch_resumes_example :
    (m1 m2 : Machine Unit) × (interrupt_dispatch quiet 5 test_types no_memory (regs 0x2000) running
      ≡ ok (regs 0x1000, m1))
    × (m1.kernel.current_proc ≡ pos 1)
    × (interrupt_dispatch quiet 5 test_types no_memory (regs 0x3000) m1 ≡ ok (regs 0x2000, m2))
    × (m2.kernel.current_proc ≡ pos 0)
    × (get_elem? m2.ctxs 1 ≡ some (regs 0x3000))
interrupt_dispatch_resumes_example =
    interrupt_dispatch_resumes quiet 5 test_types no_memory (regs 0x2000) (regs 0) (regs 0x1000)
      (regs 0x3000) 0 1 [] running refl refl two_procs-IsValid refl (omega arith) refl refl refl
      refl (omega arith) (omega arith)

x64_init_gdt-segments_example :
    let table = (x64_init_gdt 0xffff800012345678 0xffff800000002000 gdt_table).0 in
    ((cs : Descriptor) × (selected table 0x1b ≡ some cs) × Usable 0x1b true cs)
    × ((ss : Descriptor) × (selected table 0x23 ≡ some ss) × Usable 0x23 false ss)
    × (half_address (get_elem? table (0x28 / 8)) (get_elem? table (0x28 / 8 + 1))
        ≡ some 0xffff800012345678)
x64_init_gdt-segments_example =
    x64_init_gdt-segments 0xffff800012345678 0xffff800000002000 true (omega arith)
