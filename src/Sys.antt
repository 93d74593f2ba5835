-- ===== src/Sys.antt =====
-- System calls on files, kernel/src/generic/fs/sys.c and kernel/src/generic/syscall.c: each process
-- has a table from its own descriptors to the global ones.
pub mod Isolation
pub mod Descriptors
use fors_kernel.Prelude.{
  ℕ, ◌+◌, ◌%◌, ◌^◌, Bool, not, Option, none, some, List, ltb, if◌then◌else◌, get_elem?, set, Run,
  ok, fault, ◌>>=◌, deref,
}
use fors_kernel.Prelude.Int.{ℤ, pos, negsuc, ltb_ℤ, as_size}
use fors_kernel.Str.{eq_int, strlen, strcpy, at_offset}
use fors_kernel.Vfs.{Vfs, FilesystemType}
use fors_kernel.Vfs.Slots.{first_free}
use fors_kernel.Vfs.Fsops.{vfs_open, vfs_close, vfs_read, vfs_write}

abbrev pub max_procs : ℕ
max_procs = 32

abbrev pub fds_per_proc : ℕ
fds_per_proc = 32

-- `process_t`, less its registers, its name and its status.
pub record Process : Type 0 where
  pub present : Bool
  pub tid : ℤ
  pub gid : ℤ
  pub uid : ℤ
  pub cwd : List ℕ
  pub fdmap : List ℤ

-- The filesystem's state, `procs` and `current_proc`.
pub record Kernel : Type 0 where
  pub vfs : Vfs
  pub procs : List Process
  pub current_proc : ℤ

-- `procs[i]`
abbrev pub proc_at : Kernel → ℤ → Run Process
proc_at k (negsuc i) = fault
proc_at k (pos i) = deref (get_elem? k.procs i)

abbrev pub set_proc : Kernel → ℤ → Process → Kernel
set_proc k (negsuc i) p = k
set_proc k (pos i) p = record k { procs = set k.procs i p }

-- `find_free_tid` of kernel/src/generic/proc/thread.c.
unfoldable pub find_free_tid : Kernel → Option ℕ
unfolding first_free
find_free_tid k = first_free (λ (p : Process). not p.present) k.procs

-- `new_prepend_cwd`: `kalloc` gives the block for a size, or none.
unfoldable pub new_prepend_cwd : (ℕ → Option (List ℕ)) → List ℕ → List ℕ → Run (Option (List ℕ))
unfolding strlen strcpy
new_prepend_cwd kalloc cwd rel = do
  cwd_len ← strlen cwd
  rel_len ← strlen rel
  elim (kalloc (cwd_len + rel_len + 1)) [
    | none ↦ ok none
    | some block ↦ do
      block ← strcpy block cwd
      block ← at_offset cwd_len (λ d. strcpy d rel) block
      ok (some block)
  ]

unfoldable pub find_free_proc_fd : Kernel → ℤ → Run (Option ℕ)
unfolding first_free
find_free_proc_fd k pid =
    if not (ltb_ℤ pid (pos max_procs))
    then ok none
    else (do p ← proc_at k pid; ok (first_free (λ (fd : ℤ). eq_int fd (negsuc 0)) p.fdmap))

-- `PFD_VALID`, with the entry of the current process's table at a valid descriptor.
unfoldable pub mapped : Kernel → ℤ → Run (Option ℕ)
mapped k (negsuc i) = ok none
mapped k (pos i) = if not (ltb i fds_per_proc) then ok none else do
  p ← proc_at k k.current_proc
  fd ← deref (get_elem? p.fdmap i)
  ok (elim fd [ pos n ↦ some n | negsuc n ↦ none ])

-- `procs[current_proc].fdmap[pfd] = fd`
unfoldable pub map_fd : Kernel → ℤ → ℤ → Run Kernel
map_fd k (negsuc i) fd = fault
map_fd k (pos i) fd = do
  p ← proc_at k k.current_proc
  old ← deref (get_elem? p.fdmap i)
  ok (set_proc k k.current_proc (record p { fdmap = set p.fdmap i fd }))

module _ (types : ℕ → FilesystemType) where
  -- `kfree` changes nothing of this state.
  unfoldable pub sys_open : (ℕ → Option (List ℕ)) → Kernel → List ℕ → ℕ → Run (ℤ × Kernel)
  unfolding find_free_proc_fd new_prepend_cwd map_fd
  sys_open kalloc k path mode = do
    pfd ← find_free_proc_fd k k.current_proc
    elim pfd [
      | none ↦ ok (negsuc 0, k)
      | some pfd ↦ do
        p ← proc_at k k.current_proc
        block ← new_prepend_cwd kalloc p.cwd path
        full_path ← deref block
        (fd, vfs') ← vfs_open types k.vfs k.current_proc full_path mode
        let k = record k { vfs = vfs' }
        if ltb_ℤ fd (pos 0)
            then ok (negsuc 0, k)
            else (do k ← map_fd k (pos pfd) fd; ok (pos pfd, k))
    ]

  unfoldable pub sys_close : Kernel → ℤ → Run (ℤ × Kernel)
  unfolding mapped map_fd
  sys_close k pfd = do
    fd ← mapped k pfd
    elim fd [
      | none ↦ ok (negsuc 0, k)
      | some fd ↦ do
        k ← map_fd k pfd (negsuc 0)
        (status, vfs') ← vfs_close types k.vfs fd
        ok (status, record k { vfs = vfs' })
    ]

  unfoldable pub sys_read : Kernel → ℤ → ℤ → List ℕ → Run (ℤ × List ℕ × Kernel)
  unfolding mapped
  sys_read k pfd num buff = do
    fd ← mapped k pfd
    elim fd [
      | none ↦ ok (negsuc 0, buff, k)
      | some fd ↦ do
        (status, buff, vfs') ← vfs_read types k.vfs fd num buff
        ok (status, buff, record k { vfs = vfs' })
    ]

  unfoldable pub sys_write : Kernel → ℤ → ℤ → List ℕ → Run (ℤ × Kernel)
  unfolding mapped
  sys_write k pfd num buff = do
    fd ← mapped k pfd
    elim fd [
      | none ↦ ok (negsuc 0, k)
      | some fd ↦ do
        (status, vfs') ← vfs_write types k.vfs fd num buff
        ok (status, record k { vfs = vfs' })
    ]

  -- `memory` gives the object that a user's pointer points to; the value returned, what is then
  -- in the object at `p_1`, and the state. The mode of a file to open is
  -- `(unsigned) p_2`.
  unfoldable pub syscall_dispatch :
      (ℕ → Option (List ℕ)) → (ℤ → List ℕ) → Kernel → ℤ → ℤ → ℤ → ℤ → Run (ℤ × List ℕ × Kernel)
  unfolding sys_open sys_close sys_read sys_write
  syscall_dispatch kalloc memory k vec p_1 p_2 p_3 =
      if eq_int vec (pos 0)
      then (do
        (r, k) ← sys_open kalloc k (memory p_1) (as_size p_2 % 2 ^ 32)
        ok (r, memory p_1, k))
      else if eq_int vec (pos 1)
      then (do (r, k) ← sys_close k p_2; ok (r, memory p_1, k))
      else if eq_int vec (pos 2)
      then sys_read k p_2 p_3 (memory p_1)
      else if eq_int vec (pos 3)
      then (do (r, k) ← sys_write k p_2 p_3 (memory p_1); ok (r, memory p_1, k))
      else ok (negsuc 0, memory p_1, k)
