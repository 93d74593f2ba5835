-- ===== src/Sys/Descriptors.antt =====
-- A process's table of descriptors over an open and a close, kernel/src/generic/fs/sys.c.
use fors_kernel.Prelude.{
  ℕ, ◌≡◌, ◌<◌, refl, sym, ap, ◌∙◌, true, false, Bool, Option, some, List, length, get_elem?, set,
  set_at, get_elem?-lt, set_back, ltb, ok, arith,
}
use fors_kernel.Prelude.Int.{ℤ, pos, negsuc, ltb_ℤ}
use fors_kernel.Str.{eq_int}
use fors_kernel.Vfs.{Vfs, FilesystemType}
use fors_kernel.Vfs.Slots.{first_free}
use fors_kernel.Vfs.Slots.First.{first_free-some}
use fors_kernel.Vfs.Fsops.{vfs_open, vfs_close}
use fors_kernel.Sys.{
  Process, Kernel, max_procs, fds_per_proc, set_proc, find_free_proc_fd, new_prepend_cwd, mapped,
  map_fd, sys_open, sys_close,
}

abbrev is_unmapped : ℤ → Bool
is_unmapped fd = eq_int fd (negsuc 0)

unmapped : (fd : ℤ) → eq_int fd (negsuc 0) ≡ true → fd ≡ negsuc 0
unmapped (pos n) e = cc
unmapped (negsuc n) e = let q : n ≡ 0 = ground arith in ap negsuc q

module _ (k : Kernel) (c : ℕ) (p : Process) (runs : k.current_proc ≡ pos c)
    (at_c : get_elem? k.procs c ≡ some p) where
  -- The entry of the running process's table that is written, at a slot of it.
  map_fd_lem :
      (i : ℕ) (old fd : ℤ)
      → get_elem? p.fdmap i ≡ some old
      → map_fd k (pos i) fd ≡ ok (set_proc k (pos c) (record p { fdmap = set p.fdmap i fd }))
  unfolding map_fd
  map_fd_lem i old fd at_i = rw (runs, at_c, at_i) refl

  mapped_lem :
      (i fd : ℕ)
      → i < fds_per_proc
      → get_elem? p.fdmap i ≡ some (pos fd)
      → mapped k (pos i) ≡ ok (some fd)
  unfolding mapped
  mapped_lem i fd few at_i =
      let valid : ltb i fds_per_proc ≡ true = ground arith in rw (valid, runs, at_c, at_i) refl

-- A slot of a process's table written twice, the second time with what it held.
map_back :
    (procs : List Process) (c : ℕ) (p : Process) (i : ℕ) (old fd : ℤ)
    → get_elem? procs c ≡ some p
    → get_elem? p.fdmap i ≡ some old
    → set
        (set procs c (record p { fdmap = set p.fdmap i fd }))
        c
        (record p { fdmap = set (set p.fdmap i fd) i old })
      ≡ procs
map_back procs c p i old fd at_c at_i =
    rw (set_back p.fdmap i old fd at_i)
      (set_back procs c p (record p { fdmap = set p.fdmap i fd }) at_c)

-- What the search of a process's table does.
search_lem :
    (k : Kernel) (c : ℕ) (p : Process)
    → c < max_procs
    → get_elem? k.procs c ≡ some p
    → find_free_proc_fd k (pos c) ≡ ok (first_free is_unmapped p.fdmap)
unfolding find_free_proc_fd
search_lem k c p few at_c =
    let in_array : ltb_ℤ (pos c) (pos max_procs) ≡ true = ground arith in rw (in_array, at_c) refl

-- While a process of the array runs, whose table has its size: where the search of that table finds
-- a free descriptor, the full path can be built, vfs_open opens it, and vfs_close of what it gives
-- returns, sys_open returns the free descriptor, which then stands for that open file, and sys_close
-- of it returns what vfs_close returns and leaves every process, its table among it, as it was.
pub sys_close-sys_open :
    (types : ℕ → FilesystemType) (kalloc : ℕ → Option (List ℕ)) (k : Kernel) (c : ℕ) (p : Process)
    (path full_path : List ℕ) (mode pfd fd : ℕ) (v' v'' : Vfs) (status : ℤ)
    → k.current_proc ≡ pos c
    → c < max_procs
    → get_elem? k.procs c ≡ some p
    → length p.fdmap ≡ fds_per_proc
    → find_free_proc_fd k (pos c) ≡ ok (some pfd)
    → new_prepend_cwd kalloc p.cwd path ≡ ok (some full_path)
    → vfs_open types k.vfs (pos c) full_path mode ≡ ok (pos fd, v')
    → vfs_close types v' fd ≡ ok (status, v'')
    → (k' : Kernel) × (sys_open types kalloc k path mode ≡ ok (pos pfd, k'))
      × (mapped k' (pos pfd) ≡ ok (some fd))
      × (sys_close types k' (pos pfd) ≡ ok (status, record k { vfs = v'' }))
unfolding sys_open sys_close mapped find_free_proc_fd
sys_close-sys_open types kalloc k c p path full_path mode pfd fd v' v'' status runs few at_c size
      finds builds opens closes =
    let found = sym (search_lem k c p few at_c) ∙ finds in
    let free : first_free is_unmapped p.fdmap ≡ some pfd = cc in
    let (old, at_pfd, is_free) = first_free-some is_unmapped p.fdmap pfd free in
    let gone = unmapped old is_free in
    let inside : pfd < fds_per_proc = rw size at (get_elem?-lt p.fdmap pfd old at_pfd) in
    let p' : Process = record p { fdmap = set p.fdmap pfd (pos fd) } in
    let opened : ltb_ℤ (pos fd) (pos 0) ≡ false = ground arith in
    let k' = set_proc (record k { vfs = v' }) (pos c) p' in
    let at_c' = set_at k.procs c p p' at_c in
    let at_pfd' = set_at p.fdmap pfd old (pos fd) at_pfd in
    let stands = mapped_lem k' c p' runs at_c' pfd fd inside at_pfd' in
    (
      k',
      rw (runs, finds, runs, at_c, builds, opens, opened, at_pfd) refl,
      stands,
      rw (stands, map_fd_lem k' c p' runs at_c' pfd (pos fd) (negsuc 0) at_pfd', closes, ← gone)
          (ap (λ ps. ok (status, record k { vfs = v''; procs = ps }))
            (map_back k.procs c p pfd old (pos fd) at_c at_pfd)),
    )
