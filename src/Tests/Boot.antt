-- ===== src/Tests/Boot.antt =====
-- The first process of the kernel, and a sector of a disk in the cache, at concrete states.
use fors_kernel.Prelude.{
  ℕ, ◌≡◌, refl, Option, some, none, List, [], ◌∷◌, replicate, get_elem?, arith, ok,
}
use fors_kernel.Prelude.Int.{pos, negsuc}
use fors_kernel.Vfs.{FilesystemType, Vfs}
use fors_kernel.Testfs.{testfs_type}
use fors_kernel.Sched.{Queue, max_procs}
use fors_kernel.Sched.Fifo.{IsValid}
use fors_kernel.Timer.{TimerHandle}
use fors_kernel.Ports.{Bus}
use fors_kernel.Store.{Store, Cache, find_block, bc_get}
use fors_kernel.Ata.{
  AtaDevice, ata_read_sector, ata_wait_ready, ready_loop, ata_select_drive, ata_wait_drq, drq_loop,
  read_words,
}
use fors_kernel.Ata.Disks.{Disks, bytes_of, ata_store_type, bc_get-sector}
use fors_kernel.Idt.{Ctx, Machine, interrupt_dispatch}
use fors_kernel.Start.Main.{System, start_running}
use fors_kernel.Start.Main.First.{GoesOn, start_running-interrupt_dispatch}

-- A bus whose status is ready with data wanted, and whose words are all the same.
abbrev ready_bus : Bus Unit
ready_bus = record {
  inb = λ d port. (0x48, d);
  inw = λ d port. (0xabcd, d);
  outb = λ d port v. d;
  outw = λ d port v. d;
}

abbrev drive : AtaDevice
drive = record { base_port = 0x1f0; ctrl_port = 0x3f6; drive = 0 }

abbrev on_disk : Store
on_disk = record { type = some 0; bc_first = [] }

abbrev cold : Cache (Disks Unit)
cold = record {
  bc_cached_count = 0;
  store_types = ata_store_type ready_bus ∷ [];
  stores = on_disk ∷ [];
  buffers = [];
  devices = record { drives = λ i. drive; device = tt };
}

abbrev zeros : ℕ → Option (List ℕ)
zeros n = some (replicate n 0)

bc_get-sector_example :
    (s' : Cache (Disks Unit)) × (bc_get zeros cold (pos 0) 2 ≡ ok (pos 1, some 0, s'))
    × (get_elem? s'.buffers 0 ≡ some (bytes_of (replicate 256 0xabcd)))
    × (s'.devices.device ≡ tt)
unfolding find_block ata_read_sector ata_wait_ready ready_loop ata_select_drive ata_wait_drq
    drq_loop read_words
bc_get-sector_example =
    bc_get-sector ready_bus zeros cold 0 0 2 on_disk (replicate 32 0) (replicate 512 0)
      (replicate 256 0xabcd) tt refl refl refl refl refl refl refl refl refl

abbrev empty_queue : Queue
empty_queue = record {
  sched_queue = replicate max_procs (pos 0);
  sq_head = 0;
  sq_tail = 0;
  sq_space_left = max_procs;
}

empty_queue-IsValid : IsValid empty_queue
empty_queue-IsValid = record {
  storage = refl;
  head_in = omega arith;
  space_in = omega arith;
  tail_at = refl;
}

abbrev no_handle : TimerHandle
no_handle = record { cbk = 0; n = 0 }

abbrev no_vfs : Vfs
no_vfs = record { vfs_root = none; fsnodes = []; fslinks = []; open_files = []; mounts = [] }

-- The state before the first process is started.
abbrev booted : System Unit
booted = record {
  paging = record {
    kernel_pml4_table = 0;
    hhdm_offset = 0;
    entries = λ t i. 0;
    frames = record { frame_list = 0; free_frames = 0; next = λ a. 0; prev = λ a. 0 };
    flushed = [];
  };
  kheap_alloc = record {
    min_order = 5;
    max_order = 12;
    size = 4096;
    memory_start = 4096;
    order_lists = [];
    order = λ p. 0;
    taken = λ p. 0;
    next = λ p. 0;
    prev = λ p. 0;
  };
  idt_table = [];
  cache = cold;
  vfs = no_vfs;
  procs = [];
  queue = empty_queue;
  timer = record { ticks = 0; handles = replicate 8 no_handle; next_handle_ind = 0 };
}

abbrev regs : ℕ → Ctx
regs rip = record { rax = 0; rbx = 0; rcx = 0; rsi = 0; vector = 0x20; rip = rip; others = [] }

abbrev test_types : ℕ → FilesystemType
test_types i = testfs_type

-- The kernel waits, with process 0 made.
abbrev waiting : Machine Unit
waiting = record {
  kernel = record { vfs = no_vfs; procs = []; current_proc = negsuc 0 };
  ctxs = regs 0x200000000 ∷ [];
  queue = (start_running ready_bus 5 booted (pos 0)).queue;
  timer = (start_running ready_bus 5 booted (pos 0)).timer;
  memory = λ p. [];
  device = tt;
}

start_running-interrupt_dispatch_example :
    (m' : Machine Unit) × (interrupt_dispatch ready_bus 5 test_types zeros
        (regs 0xffff800000000010)
        waiting
      ≡ ok (regs 0x200000000, m'))
    × (m'.kernel.current_proc ≡ pos 0)
    × GoesOn ready_bus 5 test_types zeros 0 (regs 0x200000008 ∷ regs 0x20000000c ∷ []) m'
start_running-interrupt_dispatch_example =
    start_running-interrupt_dispatch ready_bus 5 booted 0 no_handle (replicate 7 no_handle)
      ready_bus test_types zeros waiting (regs 0xffff800000000010) (regs 0x200000000)
      (regs 0x200000008 ∷ regs 0x20000000c ∷ []) empty_queue-IsValid refl refl refl refl refl refl
      refl refl (refl, (refl, tt))
