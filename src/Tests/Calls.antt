-- ===== src/Tests/Calls.antt =====
-- A process that opens a file and closes it again, at a concrete state.
use fors_kernel.Prelude.{
  ℕ, ◌≡◌, refl, true, Option, some, List, [], ◌∷◌, replicate, c_string, Run, ok, fault, out_of_fuel,
  arith,
}
use fors_kernel.Prelude.Int.{ℤ, pos, negsuc, ◌-ℤ◌}
use fors_kernel.Vfs.{Vfs, of_read}
use fors_kernel.Vfs.Fsops.{vfs_open, vfs_close}
use fors_kernel.Str.{schar, strncmp}
use fors_kernel.Testfs.{tfs_retrieve_child, tfs_node_from_id, tfs_open, tfs_close}
use fors_kernel.Sys.{
  Process, Kernel, fds_per_proc, mapped, sys_open, sys_close, find_free_proc_fd, new_prepend_cwd,
}
use fors_kernel.Sys.Descriptors.{sys_close-sys_open}
use fors_kernel.Tests.Files.{types, mounted}

abbrev new_block : ℕ → Option (List ℕ)
new_block n = some (replicate n 0)

abbrev process : Process
process = record {
  present = true;
  tid = pos 0;
  gid = pos 0;
  uid = pos 0;
  cwd = c_string "/";
  fdmap = replicate fds_per_proc (negsuc 0);
}

abbrev kernel : Kernel
kernel = record { vfs = mounted; procs = process ∷ []; current_proc = pos 0 }

abbrev state : Run (ℤ × Vfs) → Vfs
state (ok (status, v)) = v
state fault = mounted
state out_of_fuel = mounted

abbrev full_path : List ℕ
full_path = c_string "/test2.txt"

abbrev once_open : Vfs
once_open = state (vfs_open types mounted (pos 0) full_path of_read)

abbrev once_closed : Vfs
once_closed = state (vfs_close types once_open 1)

-- The process opens "test2.txt" in the root and closes it: its table is then as it was.
sys_close-sys_open_example :
    (k' : Kernel) × (sys_open types new_block kernel (c_string "test2.txt") of_read
      ≡ ok (pos 0, k'))
    × (mapped k' (pos 0) ≡ ok (some 1))
    × (sys_close types k' (pos 0) ≡ ok (pos 0, record kernel { vfs = once_closed }))
unfolding vfs_open vfs_close find_free_proc_fd new_prepend_cwd schar tfs_retrieve_child strncmp ◌-ℤ◌
    tfs_node_from_id tfs_open tfs_close
sys_close-sys_open_example =
    sys_close-sys_open types new_block kernel 0 process (c_string "test2.txt") full_path of_read 0 1
      once_open once_closed (pos 0) refl (omega arith) refl refl refl refl refl refl
