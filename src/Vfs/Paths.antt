-- ===== src/Vfs/Paths.antt =====
-- Lookups and the walk along a path, kernel/src/generic/fs/vfs.c, over filesystem types that are tame,
-- and the reference counts.
use fors_kernel.Prelude.{
  set_at, ℕ, zero, suc, ◌+◌, ◌≡◌, refl, inl, inr, Bool, true, false, not, Bool-cases, Option, none,
  some, Option-cases, List, [], ◌∷◌, ◌==◌, if◌then◌else◌, ltb, ◌-◌, drop, get_elem?, Run, ok, ◌>>=◌,
}
use fors_kernel.Prelude.Int.{ℤ, pos, ltb_ℤ}
use fors_kernel.Prelude.Post.{
  Post, returns, faults, spent, Post-bind, Post-self, Post-deref, Post-mono, Post-if,
}
use fors_kernel.Vfs.{
  Fsnode, Fslink, Vfs, FilesystemType, is_empty, is_directory, node_at, link_at, set_node,
}
use fors_kernel.Str.{strnchr, memrchr}
use fors_kernel.Vfs.Slots.First.{first_free-some}
use fors_kernel.Vfs.Slots.{find_free_node, can_exec}
use fors_kernel.Vfs.Lookup.{fs_of, find_link, retrieve, get_node_with_len, get_node}
use fors_kernel.Vfs.Walk.{
  slash, first_of_trailing, is_some_at, Round, enter, round, walk, find_parent_checkperm,
}
use fors_kernel.Vfs.Refs.{IsCounted}
use fors_kernel.Vfs.Filling.{Fills, IsTame, Fills-IsCounted, same-IsCounted, FoundUsed}

module _ (types : ℕ → FilesystemType) (tame : (m : ℕ) → IsTame (types m)) where
  pub fs_of-IsTame : (v : Vfs) (o : Option ℕ) → Post IsTame (fs_of types v o)
  fs_of-IsTame v none = faults
  fs_of-IsTame v (some m) =
      Post-bind _ (Post-deref (get_elem? v.mounts m))
        λ mount e. Post-bind _ (Post-deref mount.fs) λ f e'. returns (tame f)

  -- What `node_from_id` leaves after it was given a free slot.
  Fills-FoundUsed :
      (v : Vfs) (new : ℕ) (s : ℤ) (v' : Vfs) (n : Fsnode)
      → IsCounted v
      → get_elem? v.fsnodes new ≡ some n
      → is_empty n.type ≡ true
      → Fills v new s v'
      → FoundUsed (if ltb_ℤ s (pos 0) then none else some new, v')
  Fills-FoundUsed v new s v' n counted at_new free f = elim (Bool-cases (ltb_ℤ s (pos 0))) [
    | inl bad ↦ rw bad (Fills-IsCounted v new s v' n counted at_new free f)
    | inr good ↦ rw good (
      Fills-IsCounted v new s v' n counted at_new free f,
      let filled = f.filled good in (filled.0, filled.1, filled.2),
    )
  ]

  free_node :
      (v : Vfs) (i : ℕ)
      → find_free_node v ≡ some i
      → (n : Fsnode) × (get_elem? v.fsnodes i ≡ some n) × (is_empty n.type ≡ true)
  unfolding find_free_node
  free_node v i e = first_free-some _ v.fsnodes i e

  retrieve-FoundUsed :
      (v : Vfs) (parent : ℕ) (name : List ℕ) (len : ℕ)
      → IsCounted v
      → Post FoundUsed (retrieve types v parent name len)
  unfolding retrieve
  retrieve-FoundUsed v parent name len counted = elim (Option-cases (find_free_node v)) [
    | inl e ↦ rw (e, retrieve) (returns counted)
    | inr (new, e) ↦ rw (e, retrieve) (fill new (free_node v new e))
  ]
    where
      fill :
          (new : ℕ)
          → (n : Fsnode) × (get_elem? v.fsnodes new ≡ some n) × (is_empty n.type ≡ true)
          → Post FoundUsed (do
            p ← node_at v parent
            n ← node_at v new
            let v = set_node v new (record n { mountpoint = p.mountpoint })
            p ← node_at v parent
            fs ← fs_of types v p.mountpoint
            id ← fs.retrieve_child v parent name len
            (status, v) ← fs.node_from_id v id new
            ok (if ltb_ℤ status (pos 0) then none else some new, v))
      fill new (n, at_new, free) = Post-bind _ (Post-self (node_at v parent)) λ p _. rw at_new (
          let n' : Fsnode = record n { mountpoint = p.mountpoint } in
          let v' : Vfs = set_node v new n' in
          let counted' = same-IsCounted v new n n' counted at_new refl refl in
          Post-bind _ (Post-self (node_at v' parent)) λ p' _.
            Post-bind _ (fs_of-IsTame v' p'.mountpoint) λ fs fs-IsTame.
              Post-bind _ (Post-self (fs.retrieve_child v' parent name len)) λ id _.
                Post-bind _ (fs-IsTame.fills v' id new) λ r f. returns (
                  Fills-FoundUsed v' new r.0 r.1 n' counted' (set_at v.fsnodes new n n' at_new) free
                    f))

  get_node_with_len-FoundUsed :
      (v : Vfs) (parent : ℕ) (name : List ℕ) (len : ℕ)
      → IsCounted v
      → Post FoundUsed (get_node_with_len types v parent name len)
  unfolding get_node_with_len
  get_node_with_len-FoundUsed v parent name len counted =
      Post-bind _ (Post-self (node_at v parent))
        λ p _. Post-bind _ (Post-self (find_link 257 v p.child name len)) λ found _. at_link found
    where
      at_name :
          (i : ℕ) (l : Fslink) (o : Option ℕ)
          → get_elem? v.fslinks i ≡ some l
          → l.node ≡ o
          → FoundUsed (o, v)
      at_name i l none at_i e = counted
      at_name i l (some j) at_i e = (counted, counted.linked i l j at_i e)

      at_link :
          (found : Option ℕ)
          → Post FoundUsed (elim found [
            | some i ↦ (do l ← link_at v i; ok (l.node, v))
            | none ↦ retrieve types v parent name len
          ])
      at_link none = retrieve-FoundUsed v parent name len counted
      at_link (some i) =
          Post-bind _ (Post-deref (get_elem? v.fslinks i))
            λ l at_i. returns (at_name i l l.node at_i refl)

  pub get_node-FoundUsed :
      (v : Vfs) (parent : ℕ) (name : Option (List ℕ))
      → IsCounted v
      → Post FoundUsed (get_node types v parent name)
  unfolding get_node
  get_node-FoundUsed v parent none counted = faults
  get_node-FoundUsed v parent (some name) counted =
      Post-bind _ (Post-self _) λ len _. get_node_with_len-FoundUsed v parent name len counted

  found-IsCounted : (r : Option ℕ × Vfs) → FoundUsed r → IsCounted r.1
  found-IsCounted (none, v) c = c
  found-IsCounted (some i, v) c = c.0

  abbrev RoundCounted : Round → Type 0
  RoundCounted (Round.return r v) = IsCounted v
  RoundCounted (Round.next d v) = IsCounted v

  enter-IsCounted :
      (v : Vfs) (parent : ℕ) (path : List ℕ) (len : ℕ)
      → IsCounted v
      → Post (λ (r : Option ℕ × Vfs). IsCounted r.1) (enter types v parent path len)
  unfolding enter
  enter-IsCounted v parent path len counted =
      Post-if (ltb 0 len)
        (Post-mono (get_node_with_len-FoundUsed v parent path len counted) found-IsCounted)
        (returns counted)

  round-RoundCounted :
      (p : ℤ) (v : Vfs) (parent : ℕ) (path : List ℕ) (len : ℕ) (is_last : Bool)
      → IsCounted v
      → Post RoundCounted (round types p v parent path len is_last)
  unfolding round
  round-RoundCounted p v parent path len is_last counted =
      Post-bind _ (enter-IsCounted v parent path len counted) λ r c. decide r.0 r.1 c
    where
      test :
          (d : ℕ) (v : Vfs) (directory is_last may : Bool)
          → IsCounted v
          → RoundCounted (
              if not directory
              then Round.return none v
              else if is_last
              then Round.return (some d) v
              else if not may
              then Round.return none v
              else Round.next d v)
      test d v false is_last may c = c
      test d v true true may c = c
      test d v true false true c = c
      test d v true false false c = c

      decide :
          (node : Option ℕ) (v : Vfs)
          → IsCounted v
          → Post RoundCounted (elim node [
            | none ↦ ok (Round.return none v)
            | some d ↦ do
              n ← node_at v d
              ok (
                  if not (is_directory n.type)
                  then Round.return none v
                  else if is_last
                  then Round.return (some d) v
                  else if not (can_exec n p)
                  then Round.return none v
                  else Round.next d v)
          ])
      decide none v c = returns c
      decide (some d) v c =
          Post-bind _ (Post-self (node_at v d))
            λ n _. returns (test d v (is_directory n.type) is_last (can_exec n p) c)

  -- The end of a round of the loop, the rest of the walk being `rest`.
  after_round-IsCounted :
      (rest : ℕ → Vfs → Run (Option ℕ × Vfs))
      → ((d : ℕ) (v : Vfs) → IsCounted v → Post (λ (r : Option ℕ × Vfs). IsCounted r.1) (rest d v))
      → (r : Round) → RoundCounted r
      → Post
          (λ (r : Option ℕ × Vfs). IsCounted r.1)
          (elim r [ Round.return r v' ↦ ok (r, v') | Round.next parent' v' ↦ rest parent' v' ])
  after_round-IsCounted rest ih (Round.return r v') c = returns c
  after_round-IsCounted rest ih (Round.next d v') c = ih d v' c

  walk-IsCounted :
      (k : ℕ) (p : ℤ) (v : Vfs) (parent : ℕ) (s : List ℕ) (at end : ℕ) (last : Option ℕ)
      → IsCounted v
      → Post (λ (r : Option ℕ × Vfs). IsCounted r.1) (walk types k p v parent s at end last)
  unfolding walk
  walk-IsCounted zero p v parent s at end last counted = spent
  walk-IsCounted (suc k) p v parent s at end last counted =
      Post-bind _ (Post-self (strnchr (drop at s) slash (end - at))) (elim [
        | none ↦ λ _. returns counted
        | some d ↦ λ _.
            Post-bind _
              (round-RoundCounted p v parent (drop at s) d (is_some_at last (at + d)) counted)
              (after_round-IsCounted _
                λ d' v' c. walk-IsCounted k p v' d' s (suc (at + d)) end last c)
      ])

  pub find_parent-IsCounted :
      (v : Vfs) (root : ℕ) (path : List ℕ) (p : ℤ)
      → IsCounted v
      → Post (λ (r : Option ℕ × Vfs). IsCounted r.1) (find_parent_checkperm types v root path p)
  unfolding find_parent_checkperm
  find_parent-IsCounted v root [] p counted = faults
  find_parent-IsCounted v root (b ∷ s) p counted = Post-if (not (b == b'/')) (returns counted) (
      Post-bind _ (Post-self (first_of_trailing s slash)) λ end _.
        Post-bind _ (Post-self (memrchr s slash end)) λ last _.
          Post-bind _ (Post-self (node_at v root)) λ r _.
            Post-if (not (can_exec r p)) (returns counted)
              (walk-IsCounted (suc end) p v root s 0 end last counted))
