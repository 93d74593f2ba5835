-- ===== src/Vfs/Close.antt =====
-- `vfs_close` of fsops.c on an open file.
use fors_kernel.Prelude.{set_at, ℕ, ◌≡◌, ◌+◌, none, some, get_elem?, ok, arith}
use fors_kernel.Prelude.Int.{pos}
use fors_kernel.Vfs.{Fsnode, Openfile, Vfs, FilesystemType, file_at}
use fors_kernel.Vfs.Lookup.{fs_of}
use fors_kernel.Vfs.Fsops.{vfs_close}
use fors_kernel.Vfs.Refs.{IsCounted, opens, hit, opens-set, close-IsCounted}

-- Closing a file that refers to a node of the array, over a filesystem whose `f_close` succeeds and
-- leaves the state alone, returns 0: the slot is then free, the node has one open file less, every
-- other node as many as before, and the reference counts are right.
pub vfs_close_lem :
    (types : ℕ → FilesystemType) (v : Vfs) (fd node : ℕ) (f : Openfile) (n : Fsnode)
    (fs : FilesystemType)
    → IsCounted v
    → get_elem? v.open_files fd ≡ some f
    → f.node ≡ some node
    → get_elem? v.fsnodes node ≡ some n
    → fs_of types v n.mountpoint ≡ ok fs
    → fs.f_close v fd ≡ ok (pos 0, v)
    → (v' : Vfs) × (vfs_close types v fd ≡ ok (pos 0, v'))
      × (file_at v' fd ≡ ok (record f { node = none }))
      × ((i : ℕ) → opens i v'.open_files + hit i f ≡ opens i v.open_files)
      × IsCounted v'
unfolding vfs_close
vfs_close_lem types v fd node f n fs counted at_fd refers at_node of closes = (
  _,
  rw (at_fd, refers, at_node, of, closes, at_fd, refers, at_node),
  rw (set_at v.open_files fd f (record f { node = none }) at_fd),
  λ i. omega (arith, opens-set i fd v.open_files f (record f { node = none }) at_fd),
  close-IsCounted v fd node n f counted at_node at_fd refers,
)
