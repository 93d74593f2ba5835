-- ===== src/Testfs.antt =====
-- The in-memory test filesystem, kernel/src/generic/fs/test.c. Its nodes are numbered from 0; a
-- directory's children have consecutive numbers.
pub mod Tame
use fors_kernel.Prelude.{
  ℕ, zero, suc, ◌+◌, ◌-◌, ◌^◌, Bool, true, false, ◌||◌, Option, none, some, List, [], ◌∷◌, min, ltb,
  leb, ◌==◌, if◌then◌else◌, length, drop, get_elem?, Run, ok, fault, out_of_fuel, ◌>>=◌, deref,
  c_string,
}
use fors_kernel.Prelude.Int.{ℤ, pos, negsuc, as_size}
use fors_kernel.Str.{eq_int, strncmp, strncpy}
use fors_kernel.Vfs.{
  Fsnode, FsnType, Openfile, Mount, Vfs, FilesystemType, fp_roth, fp_rusr, fp_rgrp, fp_wusr,
  fp_xoth, fp_xusr, fp_xgrp, node_at, file_at, set_node,
}

abbrev pub id_root_dir : ℕ
id_root_dir = 0

abbrev pub id_testdir1 : ℕ
id_testdir1 = 4

abbrev pub id_testdir2 : ℕ
id_testdir2 = 5

-- `__ROOT_SENTINAL`, `__DIR1_SENTINAL` and `__DIR2_SENTINAL`.
abbrev pub root_sentinal : ℕ
root_sentinal = 6

abbrev pub dir1_sentinal : ℕ
dir1_sentinal = 8

abbrev pub dir2_sentinal : ℕ
dir2_sentinal = 10

abbrev pub node_names : List (List ℕ)
node_names =
    c_string "."
    ∷ c_string "test.txt"
    ∷ c_string "test2.txt"
    ∷ c_string "test3.txt"
    ∷ c_string "testdir1"
    ∷ c_string "testdir2"
    ∷ c_string "child1"
    ∷ c_string "child2"
    ∷ c_string "child_a"
    ∷ c_string "child_b"
    ∷ []

-- The status and the mount; `self` is the number of this filesystem type.
unfoldable pub tfs_initmnt : ℕ → Mount → ℤ × Mount
tfs_initmnt self mnt = elim mnt.dev [
  | pos d ↦ (negsuc 0, mnt)
  | negsuc d ↦ (pos 0, record mnt { root_fsnode = pos id_root_dir; fs = some self })
]

-- The loop of `tfs_retrieve_child` over the node numbers from `i` on, `n` of them.
unfoldable pub match_name : List ℕ → ℕ → ℕ → ℕ → Run ℤ
match_name name len i zero = ok (negsuc 0)
match_name name len i (suc n) =
    let rest = match_name name len (i + 1) n in
    elim (get_elem? node_names i) [
      | none ↦ fault
      | some s ↦ elim (strncmp name s len) [
        | ok z ↦ if eq_int z (pos 0) then ok (pos i) else rest
        | fault ↦ fault
        | out_of_fuel ↦ out_of_fuel
      ]
    ]

-- The children of the node with that number: the first number, and how many there are.
unfoldable pub child_range : ℤ → Option (ℕ × ℕ)
child_range id =
    if eq_int id (pos id_root_dir)
    then some (0, root_sentinal)
    else if eq_int id (pos id_testdir1)
    then some (root_sentinal, dir1_sentinal - root_sentinal)
    else if eq_int id (pos id_testdir2)
    then some (dir1_sentinal, dir2_sentinal - dir1_sentinal)
    else none

unfoldable pub tfs_retrieve_child : Vfs → ℕ → List ℕ → ℕ → Run ℤ
unfolding match_name child_range
tfs_retrieve_child v parent name name_len = do
  n ← node_at v parent
  elim (child_range n.internal_id) [
    | none ↦ ok (negsuc 0)
    | some (first, number) ↦ match_name name name_len first number
  ]

-- `FP_ROTH | FP_RUSR | FP_RGRP | FP_WUSR`, with the execute bits for a directory.
abbrev pub file_perms : ℕ
file_perms = fp_roth + fp_rusr + fp_rgrp + fp_wusr

abbrev pub dir_perms : ℕ
dir_perms = file_perms + fp_xoth + fp_xusr + fp_xgrp

abbrev pub is_dir_id : ℕ → Bool
is_dir_id i = i == id_root_dir || (i == id_testdir1 || i == id_testdir2)

-- What `tfs_node_from_id` writes; the mount point, the user and the group stay.
unfoldable pub filled : ℕ → Fsnode → Fsnode
filled i n = record n {
  internal_id = pos i;
  perms = if is_dir_id i then dir_perms else file_perms;
  type = if is_dir_id i then FsnType.directory else FsnType.file;
  access_time = pos 0;
  mod_time = pos 0;
  create_time = pos 0;
  ref_count = 0;
  child = none;
}

unfoldable pub tfs_node_from_id : Vfs → ℤ → ℕ → Run (ℤ × Vfs)
unfolding filled
tfs_node_from_id v (negsuc id) node = ok (negsuc 0, v)
tfs_node_from_id v (pos i) node =
    if leb dir2_sentinal i
    then ok (negsuc 0, v)
    else (do n ← node_at v node; ok (pos 0, set_node v node (filled i n)))

abbrev pub msg : List ℕ
msg =
    c_string
      "Hello, world! This is my test string, which is inside all of the files in a testfs filesystem! Wow!!!"

-- The value returned, the buffer, and the state; a negative cursor points before the message.
unfoldable pub tfs_read : Vfs → ℕ → ℤ → List ℕ → Run (ℤ × List ℕ × Vfs)
unfolding strncpy
tfs_read v fd nbytes kbuffer = do
  f ← file_at v fd
  elim f.cursor [
    | negsuc c ↦ fault
    | pos c ↦ if leb (length msg) c then ok (negsuc 0, kbuffer, v) else do
      buffer ← strncpy kbuffer (drop c msg) (as_size nbytes)
      ok (pos (min (as_size nbytes) (length msg)), buffer, v)
  ]

unfoldable pub tfs_save_node : Vfs → ℕ → Run (ℤ × Vfs)
tfs_save_node v node = ok (negsuc 0, v)

unfoldable pub tfs_open : Vfs → ℕ → Run (ℤ × Vfs)
tfs_open v node = ok (pos 0, v)

unfoldable pub tfs_close : Vfs → ℕ → Run (ℤ × Vfs)
tfs_close v fd = ok (pos 0, v)

unfoldable pub tfs_seek : Vfs → ℕ → ℤ → ℤ → Run (ℤ × Vfs)
tfs_seek v fd offset anchor = ok (pos 0, v)

unfoldable pub tfs_write : Vfs → ℕ → ℤ → List ℕ → Run (ℤ × Vfs)
tfs_write v fd nbytes buffer = ok (negsuc 0, v)

unfoldable pub tfs_newfile : Vfs → ℕ → Option (List ℕ) → ℕ → ℤ → ℤ → Run (ℤ × Vfs)
tfs_newfile v parent name perms user group = ok (negsuc 0, v)

unfoldable pub tfs_newdir : Vfs → ℕ → Option (List ℕ) → ℕ → ℤ → ℤ → Run (ℤ × Vfs)
tfs_newdir v parent name perms user group = ok (negsuc 0, v)

unfoldable pub tfs_delnode : Vfs → ℕ → Option (List ℕ) → Run (ℤ × Vfs)
tfs_delnode v parent name = ok (negsuc 0, v)

abbrev pub testfs_type : FilesystemType
testfs_type = record {
  retrieve_child = tfs_retrieve_child;
  node_from_id = tfs_node_from_id;
  put_node = tfs_save_node;
  f_open = tfs_open;
  f_close = tfs_close;
  f_seek = tfs_seek;
  f_read = tfs_read;
  f_write = tfs_write;
  newfile = tfs_newfile;
  newdir = tfs_newdir;
  delnode = tfs_delnode;
}
