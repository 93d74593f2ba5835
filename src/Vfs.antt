-- ===== src/Vfs.antt =====
-- The state of the virtual filesystem, kernel/src/include/fors/filesystem.h and
-- kernel/src/include/fors/types.h: nodes, links (names), open files and mounts in static arrays. A
-- pointer into one of the arrays is an index, NULL is `none`. A flag word is a number, and a flag
-- its power of two.
pub mod Slots
pub mod Links
pub mod Lookup
pub mod Walk
pub mod Fsops
pub mod Refs
pub mod Filling
pub mod Paths
pub mod Counting
pub mod Close
pub mod OpenClose
pub mod Fields
pub mod FieldWalk
pub mod Resolve
use fors_kernel.Prelude.{
  ℕ, ◌+◌, ◌-◌, ◌*◌, ◌/◌, ◌%◌, ◌^◌, Bool, Option, List, ◌==◌, if◌then◌else◌, get_elem?, set, Run,
  deref,
}
use fors_kernel.Prelude.Int.{ℤ}

pub data FsnType : Type 0 where
  empty file directory mountpoint : FsnType

abbrev pub is_empty : FsnType → Bool
is_empty FsnType.empty = Bool.true
is_empty _ = Bool.false

abbrev pub is_directory : FsnType → Bool
is_directory FsnType.directory = Bool.true
is_directory _ = Bool.false

abbrev pub is_file : FsnType → Bool
is_file FsnType.file = Bool.true
is_file _ = Bool.false

-- `fsnode_t`
pub record Fsnode : Type 0 where
  pub mountpoint : Option ℕ
  pub internal_id : ℤ
  pub type : FsnType
  pub perms : ℕ
  pub user : ℤ
  pub group : ℤ
  pub access_time : ℤ
  pub mod_time : ℤ
  pub create_time : ℤ
  pub ref_count : ℕ
  pub child : Option ℕ

-- `fslink_t`; `name` is the array with its zero byte.
pub record Fslink : Type 0 where
  pub name : List ℕ
  pub node : Option ℕ
  pub prev : Option ℕ
  pub next : Option ℕ

-- `openfile_t`
pub record Openfile : Type 0 where
  pub node : Option ℕ
  pub cursor : ℤ
  pub mode : ℕ
  pub proc : ℤ

-- `mount_t`; `fs` is the number of a filesystem type.
pub record Mount : Type 0 where
  pub dev : ℤ
  pub fs : Option ℕ
  pub root_fsnode : ℤ

-- The global arrays.
pub record Vfs : Type 0 where
  pub vfs_root : Option ℕ
  pub fsnodes : List Fsnode
  pub fslinks : List Fslink
  pub open_files : List Openfile
  pub mounts : List Mount

abbrev pub filename_size : ℕ
filename_size = 32

abbrev pub num_fsnodes : ℕ
num_fsnodes = 256

abbrev pub num_open_files : ℕ
num_open_files = 512

abbrev pub num_fslinks : ℕ
num_fslinks = 256

abbrev pub fp_rusr : ℕ
fp_rusr = 1

abbrev pub fp_wusr : ℕ
fp_wusr = 2

abbrev pub fp_xusr : ℕ
fp_xusr = 4

abbrev pub fp_rgrp : ℕ
fp_rgrp = 8

abbrev pub fp_xgrp : ℕ
fp_xgrp = 32

abbrev pub fp_roth : ℕ
fp_roth = 64

abbrev pub fp_woth : ℕ
fp_woth = 128

abbrev pub fp_xoth : ℕ
fp_xoth = 256

abbrev pub of_write : ℕ
of_write = 1

abbrev pub of_read : ℕ
of_read = 2

abbrev pub of_append : ℕ
of_append = 4

-- `w & m`, as a test, for a power of two `m`.
unfoldable pub has_flag : ℕ → ℕ → Bool
has_flag w m = (w / m) % 2 == 1

-- `w | m` for a power of two `m`.
unfoldable pub with_flag : ℕ → ℕ → ℕ
unfolding has_flag
with_flag w m = if has_flag w m then w else w + m

-- `x++` and `x--` on an `unsigned`.
abbrev pub inc_u32 : ℕ → ℕ
inc_u32 x = (x + 1) % 2 ^ 32

abbrev pub dec_u32 : ℕ → ℕ
dec_u32 x = (x + 2 ^ 32 - 1) % 2 ^ 32

-- Reads and writes through pointers into the arrays; a write is made behind a read of the same
-- element, so it is in range.
abbrev pub node_at : Vfs → ℕ → Run Fsnode
node_at v i = deref (get_elem? v.fsnodes i)

abbrev pub link_at : Vfs → ℕ → Run Fslink
link_at v i = deref (get_elem? v.fslinks i)

abbrev pub file_at : Vfs → ℕ → Run Openfile
file_at v i = deref (get_elem? v.open_files i)

abbrev pub set_node : Vfs → ℕ → Fsnode → Vfs
set_node v i n = record v { fsnodes = set v.fsnodes i n }

abbrev pub set_link : Vfs → ℕ → Fslink → Vfs
set_link v i l = record v { fslinks = set v.fslinks i l }

abbrev pub set_file : Vfs → ℕ → Openfile → Vfs
set_file v i f = record v { open_files = set v.open_files i f }

-- `filesystem_type_t`: what a filesystem implements. Each operation has the number of the node or
-- of the open file that it is given a pointer to; a name is a pointer into some text, or NULL.
pub record FilesystemType : Type 0 where
  pub retrieve_child : Vfs → ℕ → List ℕ → ℕ → Run ℤ
  pub node_from_id : Vfs → ℤ → ℕ → Run (ℤ × Vfs)
  pub put_node : Vfs → ℕ → Run (ℤ × Vfs)
  pub f_open : Vfs → ℕ → Run (ℤ × Vfs)
  pub f_close : Vfs → ℕ → Run (ℤ × Vfs)
  pub f_seek : Vfs → ℕ → ℤ → ℤ → Run (ℤ × Vfs)
  pub f_read : Vfs → ℕ → ℤ → List ℕ → Run (ℤ × List ℕ × Vfs)
  pub f_write : Vfs → ℕ → ℤ → List ℕ → Run (ℤ × Vfs)
  pub newfile : Vfs → ℕ → Option (List ℕ) → ℕ → ℤ → ℤ → Run (ℤ × Vfs)
  pub newdir : Vfs → ℕ → Option (List ℕ) → ℕ → ℤ → ℤ → Run (ℤ × Vfs)
  pub delnode : Vfs → ℕ → Option (List ℕ) → Run (ℤ × Vfs)
