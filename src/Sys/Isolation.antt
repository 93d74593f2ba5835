-- ===== src/Sys/Isolation.antt =====
-- What a system call, sys.c and syscall.c, leaves of the other processes.
use fors_kernel.Prelude.{ℕ, ◌≡◌, ◌≢◌, get_elem?}
use fors_kernel.Prelude.Int.{pos}
use fors_kernel.Prelude.Post.{Post}
use fors_kernel.Vfs.{Vfs}
use fors_kernel.Sys.{Kernel}

-- The same process runs, and the others are as they were.
abbrev pub Isolated : Kernel → Kernel → Type 0
Isolated k k' =
    (k'.current_proc ≡ k.current_proc)
    × ((i : ℕ) → k.current_proc ≢ pos i → get_elem? k'.procs i ≡ get_elem? k.procs i)
