-- ===== src/Vfs/OpenClose.antt =====
-- Opening a node and closing it again, kernel/src/generic/fs/fsops.c.
use fors_kernel.Prelude.{
  set_at, ℕ, ◌≡◌, refl, ◌∙◌, Option, none, some, false, true, get_elem?, ok, arith,
}
use fors_kernel.Prelude.Int.{ℤ, pos}
use fors_kernel.Vfs.{Fsnode, Openfile, Vfs, FilesystemType, is_empty, inc_u32, set_node, set_file}
use fors_kernel.Vfs.Slots.{find_free_fd, is_null}
use fors_kernel.Vfs.Slots.First.{first_free-some}
use fors_kernel.Vfs.Lookup.{fs_of}
use fors_kernel.Vfs.Fsops.{opened, assign_file, open_node, vfs_close}
use fors_kernel.Vfs.Refs.{IsCounted, opens, hit, opens-set, open-IsCounted}
use fors_kernel.Vfs.Close.{vfs_close_lem}

none_of_null : (o : Option ℕ) → is_null o ≡ true → o ≡ none
none_of_null none h = refl
none_of_null (some i) h = cc

-- The mounts stay.
same_fs :
    (types : ℕ → FilesystemType) (v : Vfs) (fd node : ℕ) (f : Openfile) (n : Fsnode) (o : Option ℕ)
    → fs_of types (set_node (set_file v fd f) node n) o ≡ fs_of types v o
same_fs types v fd node f n none = refl
same_fs types v fd node f n (some m) = refl

-- Where a slot of the open files is free and the filesystem's `f_open` and `f_close` succeed and
-- leave the state alone, opening a node in use, which is what `vfs_open` does behind its checks,
-- gives the first free slot; closing that one returns 0, and then each node has as many open files
-- as before, and the reference counts are right.
pub vfs_close-open_node :
    (types : ℕ → FilesystemType) (v : Vfs) (node : ℕ) (p : ℤ) (mode fd : ℕ) (n : Fsnode)
    (fs : FilesystemType)
    → IsCounted v
    → get_elem? v.fsnodes node ≡ some n
    → is_empty n.type ≡ false
    → fs_of types v n.mountpoint ≡ ok fs
    → fs.f_open v node ≡ ok (pos 0, v)
    → ((w : Vfs) → fs.f_close w fd ≡ ok (pos 0, w))
    → find_free_fd v ≡ some fd
    → (v' : Vfs) × (v'' : Vfs) × (open_node types v node p mode ≡ ok (pos fd, v'))
      × (get_elem? v'.open_files fd ≡ some (opened node p mode))
      × (vfs_close types v' fd ≡ ok (pos 0, v''))
      × ((i : ℕ) → opens i v''.open_files ≡ opens i v.open_files)
      × IsCounted v''
unfolding open_node assign_file find_free_fd
vfs_close-open_node types v node p mode fd n fs counted at_node used of f_opens f_closes free =
    let (old, at_fd, null) = first_free-some _ v.open_files fd free in
    let unused : old.node ≡ none = none_of_null old.node null in
    let new = opened node p mode in
    let n' : Fsnode = record n { ref_count = inc_u32 n.ref_count } in
    let v' = set_node (set_file v fd new) node n' in
    let at_fd' = set_at v.open_files fd old new at_fd in
    let (v'', closed, slot, same, right) =
      vfs_close_lem types v' fd node new n' fs
        (open-IsCounted v fd node p mode n old counted at_node used at_fd unused) at_fd' refl
        (set_at v.fsnodes node n n' at_node) (same_fs types v fd node new n' n.mountpoint ∙ of)
        (f_closes v') in
    (
      v',
      v'',
      rw (at_node, of, f_opens, free, at_fd, at_node),
      at_fd',
      closed,
      λ i.
          let not_hit : hit i old ≡ 0 = rw (hit, unused) in
          omega (arith, not_hit, same i, opens-set i fd v.open_files old new at_fd),
      right,
    )
