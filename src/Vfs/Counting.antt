-- ===== src/Vfs/Counting.antt =====
-- Opening and closing over filesystem types that are tame, and the reference counts.
use fors_kernel.Prelude.{
  ℕ, ◌≡◌, inl, inr, true, false, not, ◌&&◌, ◌||◌, Option, none, some, Option-cases, List,
  if◌then◌else◌, arith, get_elem?, ok, ◌>>=◌, deref,
}
use fors_kernel.Prelude.Int.{ℤ, pos, ltb_ℤ}
use fors_kernel.Prelude.Post.{Post, returns, faults, Post-bind, Post-self, Post-deref, Post-if}
use fors_kernel.Vfs.{
  Fsnode, Openfile, Vfs, FilesystemType, is_empty, node_at, file_at, set_node, set_file, dec_u32,
  has_flag, of_append, of_write, of_read,
}
use fors_kernel.Vfs.Slots.First.{first_free-some}
use fors_kernel.Vfs.Slots.{find_free_fd, is_null, can_exec, can_write, can_read}
use fors_kernel.Vfs.Lookup.{fs_of, get_node}
use fors_kernel.Vfs.Walk.{basename}
use fors_kernel.Vfs.Fsops.{failed, assign_file, open_node, vfs_open, vfs_close}
use fors_kernel.Vfs.Refs.{IsCounted, assign_file-IsCounted, close-IsCounted}
use fors_kernel.Vfs.Filling.{FoundUsed, IsUsed, IsTame}
use fors_kernel.Vfs.Paths.{fs_of-IsTame, get_node-FoundUsed, find_parent-IsCounted}

module _ (types : ℕ → FilesystemType) (tame : (m : ℕ) → IsTame (types m)) where
  free_file :
      (v : Vfs) (fd : ℕ)
      → find_free_fd v ≡ some fd
      → (f : Openfile) × (get_elem? v.open_files fd ≡ some f) × (is_null f.node ≡ true)
  unfolding find_free_fd
  free_file v fd e = first_free-some _ v.open_files fd e

  -- The end of `vfs_open`, behind the call of `f_open`.
  assigned-IsCounted :
      (v : Vfs) (node : ℕ) (n : Fsnode) (p : ℤ) (mode : ℕ)
      → IsCounted v
      → get_elem? v.fsnodes node ≡ some n
      → is_empty n.type ≡ false
      → Post
          (λ (r : ℤ × Vfs). IsCounted r.1)
          (elim (find_free_fd v) [ none ↦ failed v | some fd ↦ assign_file v fd node p mode ])
  assigned-IsCounted v node n p mode counted at_node used = elim (Option-cases (find_free_fd v)) [
    | inl e ↦ rw e (returns counted)
    | inr (fd, e) ↦ rw e (assign fd (free_file v fd e))
  ]
    where
      assign :
          (fd : ℕ)
          → (f : Openfile) × (get_elem? v.open_files fd ≡ some f) × (is_null f.node ≡ true)
          → Post (λ (r : ℤ × Vfs). IsCounted r.1) (assign_file v fd node p mode)
      assign fd (f, at_fd, free) =
          let (v', e, c) =
            assign_file-IsCounted v fd node p mode n f counted at_node used at_fd
              (ground (arith, free)) in
          rw e (returns c)

  open_node-IsCounted :
      (v : Vfs) (node : ℕ) (p : ℤ) (mode : ℕ)
      → IsCounted v
      → IsUsed v node
      → Post (λ (r : ℤ × Vfs). IsCounted r.1) (open_node types v node p mode)
  unfolding open_node
  open_node-IsCounted v node p mode counted (n, at_node, used) = rw at_node (
      Post-bind _ (fs_of-IsTame types tame v n.mountpoint) λ fs fs-IsTame.
        Post-bind _ (fs-IsTame.opens_alone v node) λ r e.
          Post-if (ltb_ℤ r.0 (pos 0)) (returns (rw e counted))
            (assigned-IsCounted r.1 node n p mode (rw e counted) (rw e at_node) used))

  -- The part of `vfs_open` behind the lookup of the node.
  found-IsCounted :
      (p : ℤ) (mode : ℕ) (r : Option ℕ × Vfs)
      → FoundUsed r
      → Post
          (λ (r : ℤ × Vfs). IsCounted r.1)
          (do
            let (found, v) = r
            node ← deref found
            n ← node_at v node
            if (has_flag mode of_append || has_flag mode of_write) && not (can_write n p)
                then failed v
                else if has_flag mode of_read && not (can_read n p)
                then failed v
                else open_node types v node p mode)
  found-IsCounted p mode (none, v) c = faults
  found-IsCounted p mode (some node, v) c = Post-bind _ (Post-self (node_at v node)) λ n _.
      Post-if ((has_flag mode of_append || has_flag mode of_write) && not (can_write n p))
        (returns c.0)
        (Post-if (has_flag mode of_read && not (can_read n p)) (returns c.0)
          (open_node-IsCounted v node p mode c.0 c.1))

  -- The part of `vfs_open` behind the walk to the parent.
  parent-IsCounted :
      (p : ℤ) (path : List ℕ) (mode : ℕ) (parent : Option ℕ) (v : Vfs)
      → IsCounted v
      → Post
          (λ (r : ℤ × Vfs). IsCounted r.1)
          (elim parent [
            | none ↦ failed v
            | some d ↦ do
              dir ← node_at v d
              if not (can_exec dir p) then failed v else do
                name ← basename path
                (found, v) ← get_node types v d name
                node ← deref found
                n ← node_at v node
                if (has_flag mode of_append || has_flag mode of_write) && not (can_write n p)
                    then failed v
                    else if has_flag mode of_read && not (can_read n p)
                    then failed v
                    else open_node types v node p mode
          ])
  parent-IsCounted p path mode none v c = returns c
  parent-IsCounted p path mode (some d) v c = Post-bind _ (Post-self (node_at v d)) λ dir _.
      Post-if (not (can_exec dir p)) (returns c) (
        Post-bind _ (Post-self (basename path))
          λ name _. Post-bind _ (get_node-FoundUsed types tame v d name c) (found-IsCounted p mode))

  -- Over filesystem types that are tame, `vfs_open` keeps the invariant wherever it returns, whatever
  -- the path, the mode and the outcome.
  pub vfs_open-IsCounted :
      (v : Vfs) (p : ℤ) (path : List ℕ) (mode : ℕ)
      → IsCounted v
      → Post (λ (r : ℤ × Vfs). IsCounted r.1) (vfs_open types v p path mode)
  unfolding vfs_open
  vfs_open-IsCounted v p path mode counted = Post-bind _ (Post-deref v.vfs_root) λ root _.
      Post-bind _ (find_parent-IsCounted types tame v root path p counted)
        λ r c. parent-IsCounted p path mode r.0 r.1 c

  closed-IsCounted :
      (v : Vfs) (fd : ℕ)
      → IsCounted v
      → Post
          (λ (r : ℤ × Vfs). IsCounted r.1)
          (do
            f ← file_at v fd
            node ← deref f.node
            n ← node_at v node
            let v = set_node v node (record n { ref_count = dec_u32 n.ref_count })
            ok (pos 0, set_file v fd (record f { node = none })))
  closed-IsCounted v fd counted = Post-bind _ (Post-deref (get_elem? v.open_files fd)) λ f at_fd.
      Post-bind _ (Post-deref f.node) λ node refers.
        Post-bind _ (Post-deref (get_elem? v.fsnodes node))
          λ n at_node. returns (close-IsCounted v fd node n f counted at_node at_fd refers)

  -- Over filesystem types that are tame, `vfs_close` keeps the invariant wherever it returns,
  -- whatever the descriptor and the outcome.
  pub vfs_close-IsCounted :
      (v : Vfs) (fd : ℕ)
      → IsCounted v
      → Post (λ (r : ℤ × Vfs). IsCounted r.1) (vfs_close types v fd)
  unfolding vfs_close
  vfs_close-IsCounted v fd counted = Post-bind _ (Post-self (file_at v fd)) λ f _. at_file f.node
    where
      at_file :
          (o : Option ℕ)
          → Post
              (λ (r : ℤ × Vfs). IsCounted r.1)
              (elim o [
                | none ↦ failed v
                | some node ↦ do
                  n ← node_at v node
                  fs ← fs_of types v n.mountpoint
                  (status, v) ← fs.f_close v fd
                  if ltb_ℤ status (pos 0) then failed v else do
                    f ← file_at v fd
                    node ← deref f.node
                    n ← node_at v node
                    let v = set_node v node (record n { ref_count = dec_u32 n.ref_count })
                    ok (pos 0, set_file v fd (record f { node = none }))
              ])
      at_file none = returns counted
      at_file (some node) = Post-bind _ (Post-self (node_at v node)) λ n _.
          Post-bind _ (fs_of-IsTame types tame v n.mountpoint) λ fs fs-IsTame.
            Post-bind _ (fs-IsTame.closes_alone v fd) λ r e.
              Post-if (ltb_ℤ r.0 (pos 0)) (returns (rw e counted))
                (closed-IsCounted r.1 fd (rw e counted))
