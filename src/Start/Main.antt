-- ===== src/Start/Main.antt =====
-- `_start` of kernel/src/generic/main.c, up to the loop in which the kernel waits for interrupts.
pub mod First
use fors_kernel.Prelude.{
  ℕ, ◌+◌, ◌-◌, ◌*◌, ◌%◌, ◌^◌, true, Option, none, some, List, map, set, get_elem?, if◌then◌else◌,
  ◌==◌, ltb, c_string, Run, ok, fault, ◌>>=◌, deref,
}
use fors_kernel.Prelude.Int.{ℤ, pos, negsuc, ltb_ℤ}
use fors_kernel.Sched.{Queue, enqueue_proc}
use fors_kernel.Vfs.{Vfs, Mount, FilesystemType}
use fors_kernel.Vfs.Lookup.{get_node_byid}
use fors_kernel.Testfs.{tfs_initmnt}
use fors_kernel.Timer.{Timer}
use fors_kernel.Store.{Cache, register_storetype, register_store}
use fors_kernel.Ext2.{ext2_initmnt}
use fors_kernel.Ports.{Bus}
use fors_kernel.Ata.Disks.{Disks, ata_store_type}
use fors_kernel.Uart.{UartComPort}
use fors_kernel.Heap.{BuddyAllocator}
use fors_kernel.Frames.{pfalloc_one}
use fors_kernel.Paging.{Paging}
use fors_kernel.Paging.Api.{AddressSpace, tmpmap, vmap}
use fors_kernel.Procs.{Thread, Boot, create_process, arch_start_running_procs}
use fors_kernel.Idt.{IdtEntry}
use fors_kernel.Start.{Image, Memory, arch_initialise}

-- The global state.
pub record System (D : Type 0) : Type 0 where
  pub paging : Paging
  pub kheap_alloc : BuddyAllocator
  pub idt_table : List IdtEntry
  pub cache : Cache (Disks D)
  pub vfs : Vfs
  pub procs : List Thread
  pub queue : Queue
  pub timer : Timer

-- What `vmap` reads of the processes.
abbrev pub spaces : List Thread → List AddressSpace
spaces procs =
    map (λ (th : Thread). record { present = th.process.present; cr3 = th.ctx.cr3 }) procs

-- VMAP_4K, VMAP_EXEC, VMAP_USER and VMAP_WRIT
abbrev pub user_flags : ℕ
user_flags = 15

-- `mounts[i]`
abbrev pub mount_at : Vfs → ℕ → Run Mount
mount_at v i = deref (get_elem? v.mounts i)

abbrev pub set_mount : Vfs → ℕ → Mount → Vfs
set_mount v i mnt = record v { mounts = set v.mounts i mnt }

-- The queue, the timer and the interrupt of the first process; the status of `enqueue_proc` is
-- dropped.
unfoldable pub start_running : {D : Type 0} → Bus D → ℕ → System D → ℤ → System D
unfolding arch_start_running_procs
start_running bus sched s tid =
    let (timer, device) = arch_start_running_procs bus sched s.timer s.cache.devices.device in
    record s {
      cache = record s.cache { devices = record s.cache.devices { device = device } };
      queue = (enqueue_proc s.queue tid).1;
      timer = timer;
    }

-- `testfs` and `ext2` are the numbers of the two filesystem types.
module _ {D : Type 0} (bus : Bus D) (types : ℕ → FilesystemType) (testfs ext2 : ℕ)
    (kalloc : ℕ → Option (List ℕ)) where
  -- The disks and the two mounts; what is returned on the way is dropped.
  unfoldable pub mount_all : System D → Run (System D)
  unfolding register_storetype ata_store_type register_store tfs_initmnt get_node_byid ext2_initmnt
  mount_all s = do
    let cache = (register_storetype s.cache (ata_store_type bus)).1
    (si, cache) ← register_store cache (c_string "atapio") (c_string "pm")
    testmnt ← mount_at s.vfs 0
    let testmnt = (tfs_initmnt testfs (record testmnt { dev = negsuc 0 })).1
    (root, vfs) ← get_node_byid types (set_mount s.vfs 0 testmnt) 0 testmnt.root_fsnode
    let vfs = record vfs { vfs_root = root }
    ext2mnt ← mount_at vfs 1
    (status, ext2mnt, cache) ← ext2_initmnt kalloc ext2 cache (record ext2mnt { dev = si })
    ok (record s { cache = cache; vfs = set_mount vfs 1 ext2mnt })

  -- The first process, of `task1`, whose code is copied into its page through `temp_page`; that copy
  -- is not of this state. `kernel_start` is `&_FORS_KERNEL_START`. A failed mapping panics.
  unfoldable pub start_initial : (ℕ → ℕ) → Boot → ℕ → ℕ → ℕ → System D → Run (System D)
  unfolding pfalloc_one tmpmap create_process vmap start_running
  start_initial at_phys boot temp_page kernel_start sched s = do
    let (user_code_phys, pool) = pfalloc_one s.paging.frames
    let (user_stack, pool) = pfalloc_one pool
    let m = (tmpmap at_phys temp_page (record s.paging { frames = pool }) user_code_phys).1
    let user_stack_top_page = kernel_start - 4096
    (tid, procs, m) ←
        create_process at_phys boot s.procs m (c_string "initial") 0x200000000 0
          (user_stack_top_page + 4095) true
    (code, m) ← vmap at_phys (spaces procs) m tid user_code_phys 0x200000000 user_flags
    if ltb_ℤ code (pos 0) then fault else (do
      (code, m) ← vmap at_phys (spaces procs) m tid user_stack user_stack_top_page user_flags
      if ltb_ℤ code (pos 0)
          then fault
          else (do ok (start_running bus sched (record s { paging = m; procs = procs }) tid)))

  -- On what `arch_initialise` and `start_initial` take.
  unfoldable pub start :
      (ℕ → ℕ) → ℕ → List ℕ → List ℕ → Image → Boot → ℕ → ℕ → ℕ → System D → Run (System D)
  unfolding arch_initialise mount_all start_initial
  start at_phys rounds build detected image boot temp_page kernel_start sched s = do
    (memory, ports, uart_port, d) ←
        arch_initialise bus at_phys rounds build detected image (spaces s.procs) s.idt_table
          s.paging s.kheap_alloc s.cache.devices.device
    s ← mount_all (record s {
      paging = memory.paging;
      kheap_alloc = memory.kheap_alloc;
      idt_table = memory.tables.idt;
      cache = record s.cache { devices = record s.cache.devices { device = d } };
    })
    start_initial at_phys boot temp_page kernel_start sched s
