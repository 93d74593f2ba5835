-- ===== src/Ext2/Stubs.antt =====
-- The operations of kernel/src/generic/fs/ext2.c that do nothing yet.
use fors_kernel.Prelude.{ℕ, Option, List, Run, ok}
use fors_kernel.Prelude.Int.{ℤ, pos}
use fors_kernel.Vfs.{Vfs, FilesystemType}

unfoldable pub ext2_retrieve_child : Vfs → ℕ → List ℕ → ℕ → Run ℤ
ext2_retrieve_child v parent name name_len = ok (pos 0)

-- The value returned, the buffer, and the state.
unfoldable pub ext2_read : Vfs → ℕ → ℤ → List ℕ → Run (ℤ × List ℕ × Vfs)
ext2_read v fd nbytes kbuffer = ok (pos 0, kbuffer, v)

unfoldable pub ext2_save_node : Vfs → ℕ → Run (ℤ × Vfs)
ext2_save_node v node = ok (pos 0, v)

unfoldable pub ext2_open : Vfs → ℕ → Run (ℤ × Vfs)
ext2_open v node = ok (pos 0, v)

unfoldable pub ext2_close : Vfs → ℕ → Run (ℤ × Vfs)
ext2_close v fd = ok (pos 0, v)

unfoldable pub ext2_seek : Vfs → ℕ → ℤ → ℤ → Run (ℤ × Vfs)
ext2_seek v fd offset anchor = ok (pos 0, v)

unfoldable pub ext2_write : Vfs → ℕ → ℤ → List ℕ → Run (ℤ × Vfs)
ext2_write v fd nbytes buffer = ok (pos 0, v)

unfoldable pub ext2_newfile : Vfs → ℕ → Option (List ℕ) → ℕ → ℤ → ℤ → Run (ℤ × Vfs)
ext2_newfile v parent name perms user group = ok (pos 0, v)

unfoldable pub ext2_newdir : Vfs → ℕ → Option (List ℕ) → ℕ → ℤ → ℤ → Run (ℤ × Vfs)
ext2_newdir v parent name perms user group = ok (pos 0, v)

unfoldable pub ext2_delnode : Vfs → ℕ → Option (List ℕ) → Run (ℤ × Vfs)
ext2_delnode v parent name = ok (pos 0, v)

-- `ext2_type` over its `ext2_node_from_id`, which goes through the cache of blocks.
abbrev pub ext2_type : (Vfs → ℤ → ℕ → Run (ℤ × Vfs)) → FilesystemType
ext2_type node_from_id = record {
  retrieve_child = ext2_retrieve_child;
  node_from_id = node_from_id;
  put_node = ext2_save_node;
  f_open = ext2_open;
  f_close = ext2_close;
  f_seek = ext2_seek;
  f_read = ext2_read;
  f_write = ext2_write;
  newfile = ext2_newfile;
  newdir = ext2_newdir;
  delnode = ext2_delnode;
}
