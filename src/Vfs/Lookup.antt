-- ===== src/Vfs/Lookup.antt =====
-- Finding a node by its name in a directory or by its number in a filesystem,
-- kernel/src/generic/fs/vfs.c.
use fors_kernel.Prelude.{
  ℕ, zero, suc, Bool, true, false, not, ◌&&◌, Option, none, some, List, ◌==◌, if◌then◌else◌, Run,
  ok, fault, out_of_fuel, ◌>>=◌, deref, get_elem?,
}
use fors_kernel.Prelude.Int.{ℤ, pos, ltb_ℤ}
use fors_kernel.Str.{eq_int, strncmp, strnlen}
use fors_kernel.Vfs.{
  Fsnode, FsnType, Vfs, FilesystemType, filename_size, num_fslinks, is_empty, node_at, link_at,
  set_node,
}
use fors_kernel.Vfs.Slots.{first_free, find_free_node}

-- `parent->mountpoint->fs`; the filesystem types are told apart by number.
abbrev pub fs_of : (ℕ → FilesystemType) → Vfs → Option ℕ → Run FilesystemType
fs_of types v none = fault
fs_of types v (some m) = do mount ← deref (get_elem? v.mounts m); f ← deref mount.fs; ok (types f)

-- The loop over the links from `link` on: the node of the first whose name compares equal.
unfoldable pub find_link : ℕ → Vfs → Option ℕ → List ℕ → ℕ → Run (Option ℕ)
find_link zero v link name len = out_of_fuel
find_link (suc k) v none name len = ok none
find_link (suc k) v (some i) name len = do
  l ← link_at v i
  z ← strncmp l.name name len
  let rest = find_link k v l.next name len
  if eq_int z (pos 0) then ok (some i) else rest

abbrev pub eq_ptr : Option ℕ → Option ℕ → Bool
eq_ptr none none = true
eq_ptr (some i) (some j) = i == j
eq_ptr none (some j) = false
eq_ptr (some i) none = false

-- The test of the loop of `get_node_byid`.
abbrev pub is_node : ℕ → ℤ → Fsnode → Bool
is_node mount id n =
    not (is_empty n.type) && (eq_int n.internal_id id && eq_ptr n.mountpoint (some mount))

module _ (types : ℕ → FilesystemType) where
  -- The part of `get_node_with_len` behind the search of the links.
  unfoldable pub retrieve : Vfs → ℕ → List ℕ → ℕ → Run (Option ℕ × Vfs)
  unfolding find_free_node
  retrieve v parent name len = elim (find_free_node v) [
    | none ↦ ok (none, v)
    | some new ↦ do
      p ← node_at v parent
      n ← node_at v new
      let v = set_node v new (record n { mountpoint = p.mountpoint })
      p ← node_at v parent
      fs ← fs_of types v p.mountpoint
      id ← fs.retrieve_child v parent name len
      (status, v) ← fs.node_from_id v id new
      ok (if ltb_ℤ status (pos 0) then none else some new, v)
  ]

  -- The node's number, `none` for NULL, and the new state. At most `num_fslinks` links are in a
  -- list without a cycle.
  unfoldable pub get_node_with_len : Vfs → ℕ → List ℕ → ℕ → Run (Option ℕ × Vfs)
  unfolding retrieve find_link
  get_node_with_len v parent name len = do
    p ← node_at v parent
    found ← find_link (suc num_fslinks) v p.child name len
    elim found [ some i ↦ (do l ← link_at v i; ok (l.node, v)) | none ↦ retrieve v parent name len ]

  -- `strnlen(NULL, …)` is a fault.
  unfoldable pub get_node : Vfs → ℕ → Option (List ℕ) → Run (Option ℕ × Vfs)
  unfolding get_node_with_len
  get_node v parent none = fault
  get_node v parent (some name) = do
    len ← strnlen name filename_size
    get_node_with_len v parent name len

  unfoldable pub put_node : Vfs → ℕ → Run Vfs
  put_node v node = do
    n ← node_at v node
    fs ← fs_of types v n.mountpoint
    (status, v) ← fs.put_node v node
    n ← node_at v node
    ok (set_node v node (record n { type = FsnType.empty }))

  unfoldable pub get_node_byid : Vfs → ℕ → ℤ → Run (Option ℕ × Vfs)
  unfolding first_free find_free_node
  get_node_byid v mount id = elim (first_free (is_node mount id) v.fsnodes) [
    | some i ↦ ok (some i, v)
    | none ↦ elim (find_free_node v) [
      | none ↦ ok (none, v)
      | some new ↦ do
        n ← node_at v new
        let v = set_node v new (record n { mountpoint = some mount })
        fs ← fs_of types v (some mount)
        (status, v) ← fs.node_from_id v id new
        ok (if ltb_ℤ status (pos 0) then none else some new, v)
    ]
  ]
