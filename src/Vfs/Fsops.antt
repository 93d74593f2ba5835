-- ===== src/Vfs/Fsops.antt =====
-- The operations on files behind the system calls, kernel/src/generic/fs/fsops.c. A status is the
-- value returned, with the new state.
use fors_kernel.Prelude.{
  ℕ, not, ◌&&◌, ◌||◌, Option, none, some, List, if◌then◌else◌, Run, ok, ◌>>=◌, deref,
}
use fors_kernel.Prelude.Int.{ℤ, pos, negsuc, ltb_ℤ, ◌+ℤ◌}
use fors_kernel.Str.{eq_int}
use fors_kernel.Vfs.{
  Vfs, Openfile, FilesystemType, is_file, of_write, of_read, of_append, has_flag, with_flag,
  inc_u32, dec_u32, node_at, file_at, set_node, set_file,
}
use fors_kernel.Vfs.Slots.{can_read, can_write, can_exec, find_free_fd}
use fors_kernel.Vfs.Lookup.{fs_of, get_node}
use fors_kernel.Vfs.Walk.{find_parent_checkperm, find_parent, basename}

abbrev pub anch_rel : ℤ
anch_rel = pos 0

abbrev pub anch_start : ℤ
anch_start = pos 1

abbrev pub anch_end : ℤ
anch_end = pos 2

abbrev pub failed : Vfs → Run (ℤ × Vfs)
failed v = ok (negsuc 0, v)

-- `procs[p].uid` and `procs[p].gid`.
pub record Ids : Type 0 where
  pub uid : ℤ
  pub gid : ℤ

-- The open file that `vfs_open` assigns; a file opened to append is opened to write too.
abbrev pub opened : ℕ → ℤ → ℕ → Openfile
opened node p mode = record {
  node = some node;
  cursor = pos 0;
  mode = if has_flag mode of_append then with_flag mode of_write else mode;
  proc = p;
}

-- The assignments at the end of `vfs_open`.
unfoldable pub assign_file : Vfs → ℕ → ℕ → ℤ → ℕ → Run (ℤ × Vfs)
unfolding has_flag with_flag
assign_file v fd node p mode = do
  old ← file_at v fd
  let v = set_file v fd (opened node p mode)
  n ← node_at v node
  ok (pos fd, set_node v node (record n { ref_count = inc_u32 n.ref_count }))

module _ (types : ℕ → FilesystemType) where
  -- The part of `vfs_open` behind the permission checks.
  unfoldable pub open_node : Vfs → ℕ → ℤ → ℕ → Run (ℤ × Vfs)
  unfolding assign_file find_free_fd
  open_node v node p mode = do
    n ← node_at v node
    fs ← fs_of types v n.mountpoint
    (status, v) ← fs.f_open v node
    if ltb_ℤ status (pos 0)
        then failed v
        else elim (find_free_fd v) [ none ↦ failed v | some fd ↦ assign_file v fd node p mode ]

  -- `get_node` may return NULL, which the code follows where it needs the node.
  unfoldable pub vfs_open : Vfs → ℤ → List ℕ → ℕ → Run (ℤ × Vfs)
  unfolding find_parent_checkperm can_exec can_read can_write get_node basename open_node has_flag
  vfs_open v p full_path mode = do
    root ← deref v.vfs_root
    (parent, v) ← find_parent_checkperm types v root full_path p
    elim parent [
      | none ↦ failed v
      | some d ↦ do
        dir ← node_at v d
        if not (can_exec dir p) then failed v else do
          name ← basename full_path
          (found, v) ← get_node types v d name
          node ← deref found
          n ← node_at v node
          if (has_flag mode of_append || has_flag mode of_write) && not (can_write n p)
              then failed v
              else if has_flag mode of_read && not (can_read n p)
              then failed v
              else open_node v node p mode
    ]

  unfoldable pub vfs_close : Vfs → ℕ → Run (ℤ × Vfs)
  vfs_close v fd = do
    f ← file_at v fd
    elim f.node [
      | none ↦ failed v
      | some node ↦ do
        n ← node_at v node
        fs ← fs_of types v n.mountpoint
        (status, v) ← fs.f_close v fd
        if ltb_ℤ status (pos 0) then failed v else do
          f ← file_at v fd
          node ← deref f.node
          n ← node_at v node
          let v = set_node v node (record n { ref_count = dec_u32 n.ref_count })
          ok (pos 0, set_file v fd (record f { node = none }))
    ]

  -- The cursor after a seek of an anchor, `none` where the code returns -1.
  unfoldable pub seek_cursor : ℤ → ℤ → ℤ → Option ℤ
  unfolding ◌+ℤ◌
  seek_cursor cursor offset anchor =
      if eq_int anchor anch_rel
      then some ((if ltb_ℤ cursor (pos 0) then pos 0 else cursor) +ℤ offset)
      else (if eq_int anchor anch_start
          then (if ltb_ℤ offset (pos 0) then none else some offset)
          else (if eq_int anchor anch_end then none else some cursor))

  unfoldable pub vfs_seek : Vfs → ℕ → ℤ → ℤ → Run (ℤ × Vfs)
  unfolding seek_cursor
  vfs_seek v fd offset anchor = do
    f ← file_at v fd
    elim f.node [
      | none ↦ failed v
      | some node ↦ do
        n ← node_at v node
        fs ← fs_of types v n.mountpoint
        (status, v) ← fs.f_seek v fd offset anchor
        if ltb_ℤ status (pos 0) then failed v else do
          f ← file_at v fd
          elim (seek_cursor f.cursor offset anchor) [
            | none ↦ failed v
            | some c ↦ ok (pos 0, set_file v fd (record f { cursor = c }))
          ]
    ]

  -- The status, what is then in the caller's buffer, and the new state.
  unfoldable pub vfs_read : Vfs → ℕ → ℤ → List ℕ → Run (ℤ × List ℕ × Vfs)
  unfolding has_flag
  vfs_read v fd nbytes kbuffer = do
    f ← file_at v fd
    elim f.node [
      | none ↦ ok (negsuc 0, kbuffer, v)
      | some node ↦ do
        n ← node_at v node
        if not (is_file n.type) || not (has_flag f.mode of_read)
            then ok (negsuc 0, kbuffer, v)
            else (do fs ← fs_of types v n.mountpoint; fs.f_read v fd nbytes kbuffer)
    ]

  unfoldable pub vfs_write : Vfs → ℕ → ℤ → List ℕ → Run (ℤ × Vfs)
  unfolding has_flag
  vfs_write v fd nbytes kbuffer = do
    f ← file_at v fd
    elim f.node [
      | none ↦ failed v
      | some node ↦ do
        n ← node_at v node
        if not (is_file n.type) || not (has_flag f.mode of_write)
            then failed v
            else (do fs ← fs_of types v n.mountpoint; fs.f_write v fd nbytes kbuffer)
    ]

  unfoldable pub vfs_mkfile : (ℤ → Run Ids) → Vfs → ℤ → List ℕ → ℕ → Run (ℤ × Vfs)
  unfolding find_parent_checkperm can_write basename
  vfs_mkfile procs v p full_path perms = do
    root ← deref v.vfs_root
    (parent, v) ← find_parent_checkperm types v root full_path p
    elim parent [
      | none ↦ failed v
      | some d ↦ do
        dir ← node_at v d
        if not (can_write dir p) then failed v else do
          fs ← fs_of types v dir.mountpoint
          name ← basename full_path
          ids ← procs p
          fs.newfile v d name perms ids.uid ids.gid
    ]

  unfoldable pub vfs_mkdir : Vfs → ℤ → List ℕ → ℕ → Run (ℤ × Vfs)
  unfolding find_parent_checkperm can_write basename
  vfs_mkdir v p full_path perms = do
    root ← deref v.vfs_root
    (parent, v) ← find_parent_checkperm types v root full_path p
    elim parent [
      | none ↦ failed v
      | some d ↦ do
        dir ← node_at v d
        if not (can_write dir p) then failed v else do
          fs ← fs_of types v dir.mountpoint
          name ← basename full_path
          fs.newdir v d name perms (pos 0) (pos 0)
    ]

  unfoldable pub vfs_delnode : Vfs → List ℕ → Run (ℤ × Vfs)
  unfolding find_parent basename
  vfs_delnode v full_path = do
    root ← deref v.vfs_root
    (parent, v) ← find_parent types v root full_path
    elim parent [
      | none ↦ failed v
      | some d ↦ do
        dir ← node_at v d
        fs ← fs_of types v dir.mountpoint
        name ← basename full_path
        fs.delnode v d name
    ]
