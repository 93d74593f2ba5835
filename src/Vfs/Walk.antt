-- ===== src/Vfs/Walk.antt =====
-- Path resolution, kernel/src/generic/fs/vfs.c. A pointer into a path is its distance from the
-- path's start.
use fors_kernel.Prelude.{
  ℕ, zero, suc, ◌+◌, ◌-◌, Bool, false, not, Option, none, some, List, [], ◌∷◌, ◌==◌, ltb,
  if◌then◌else◌, Run, ok, fault, out_of_fuel, ◌>>=◌, get_elem?, drop,
}
use fors_kernel.Prelude.Int.{ℤ, pos, negsuc}
use fors_kernel.Str.{strlen, strnchr, memrchr}
use fors_kernel.Vfs.{Vfs, FilesystemType, is_directory, node_at}
use fors_kernel.Vfs.Slots.{can_exec}
use fors_kernel.Vfs.Lookup.{get_node_with_len, get_node}

abbrev pub slash : ℤ
slash = pos b'/'

-- The loop of `first_of_trailing`, `end + 1` being `e`; it looks for '/' whatever `c` is.
unfoldable pub trailing_loop : List ℕ → ℕ → Run ℕ
trailing_loop s zero = ok zero
trailing_loop s (suc e) =
    let rest = trailing_loop s e in
    elim (get_elem? s e) [ none ↦ fault | some b ↦ if b == b'/' then rest else ok (suc e) ]

unfoldable pub first_of_trailing : List ℕ → ℤ → Run ℕ
unfolding trailing_loop strlen
first_of_trailing s c = do l ← strlen s; trailing_loop s l

-- A pointer to the last name of the path with what follows it, or NULL.
unfoldable pub basename : List ℕ → Run (Option (List ℕ))
unfolding first_of_trailing memrchr
basename path = do
  end ← first_of_trailing path slash
  last_delim ← memrchr path slash end
  ok (elim last_delim [ none ↦ none | some i ↦ some (drop (suc i) path) ])

abbrev pub is_some_at : Option ℕ → ℕ → Bool
is_some_at none i = false
is_some_at (some j) i = i == j

-- What a round of the loop of `find_parent_checkperm` decides: to return a node, or to go on from
-- a directory.
pub data Round : Type 0 where
  return : Option ℕ → Vfs → Round
  next : ℕ → Vfs → Round

module _ (types : ℕ → FilesystemType) where
  -- The node of a field of the path; an empty field is skipped.
  unfoldable pub enter : Vfs → ℕ → List ℕ → ℕ → Run (Option ℕ × Vfs)
  unfolding get_node_with_len
  enter v parent path len =
      if ltb 0 len then get_node_with_len types v parent path len else ok (some parent, v)

  -- The body of the loop, at a field of `len` bytes; `is_last` is `next_delim == last_delim`.
  unfoldable pub round : ℤ → Vfs → ℕ → List ℕ → ℕ → Bool → Run Round
  unfolding enter can_exec
  round p v parent path len is_last = do
    (node, v) ← enter v parent path len
    elim node [
      | none ↦ ok (Round.return none v)
      | some d ↦ do
        n ← node_at v d
        ok (
            if not (is_directory n.type)
            then Round.return none v
            else if is_last
            then Round.return (some d) v
            else if not (can_exec n p)
            then Round.return none v
            else Round.next d v)
    ]

  -- The loop, from the place `at` in the path `s`. Each round moves on by one byte at least.
  unfoldable pub walk : ℕ → ℤ → Vfs → ℕ → List ℕ → ℕ → ℕ → Option ℕ → Run (Option ℕ × Vfs)
  unfolding round strnchr
  walk zero p v parent s at end last_delim = out_of_fuel
  walk (suc k) p v parent s at end last_delim = do
    next_delim ← strnchr (drop at s) slash (end - at)
    elim next_delim [
      | none ↦ ok (some parent, v)
      | some d ↦ do
        r ← round p v parent (drop at s) d (is_some_at last_delim (at + d))
        elim r [
          | Round.return node v' ↦ ok (node, v')
          | Round.next parent' v' ↦ walk k p v' parent' s (suc (at + d)) end last_delim
        ]
    ]

  unfoldable pub find_parent_checkperm : Vfs → ℕ → List ℕ → ℤ → Run (Option ℕ × Vfs)
  unfolding walk first_of_trailing memrchr can_exec
  find_parent_checkperm v root path p = elim path [
    | [] ↦ fault
    | b ∷ s ↦ if not (b == b'/') then ok (none, v) else do
      end ← first_of_trailing s slash
      last_delim ← memrchr s slash end
      r ← node_at v root
      if not (can_exec r p) then ok (none, v) else walk (suc end) p v root s 0 end last_delim
  ]

  unfoldable pub find_parent : Vfs → ℕ → List ℕ → Run (Option ℕ × Vfs)
  unfolding find_parent_checkperm
  find_parent v root path = find_parent_checkperm v root path (negsuc 0)

  unfoldable pub find_node : Vfs → ℕ → List ℕ → Run (Option ℕ × Vfs)
  unfolding find_parent get_node basename
  find_node v root path = do
    (parent, v) ← find_parent v root path
    elim parent [
      | none ↦ ok (none, v)
      | some d ↦ (do name ← basename path; get_node types v d name)
    ]
