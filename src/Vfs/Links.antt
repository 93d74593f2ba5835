-- ===== src/Vfs/Links.antt =====
-- The children of a directory as a doubly linked list of names, `add_child` and `del_child` of
-- kernel/src/generic/fs/vfs.c.
use fors_kernel.Prelude.{ℕ, Option, none, some, List, leb, if◌then◌else◌, Run, ok, fault, ◌>>=◌}
use fors_kernel.Prelude.Int.{ℤ, pos, negsuc}
use fors_kernel.Str.{strlen, strncpy}
use fors_kernel.Vfs.{Vfs, filename_size, node_at, link_at, set_node, set_link, dec_u32}
use fors_kernel.Vfs.Slots.{find_free_link}

-- `link->prev = p` and `link->next = p` where the link is not NULL.
abbrev pub set_prev : Vfs → Option ℕ → Option ℕ → Run Vfs
set_prev v none p = ok v
set_prev v (some i) p = do l ← link_at v i; ok (set_link v i (record l { prev = p }))

abbrev pub set_next : Vfs → Option ℕ → Option ℕ → Run Vfs
set_next v none p = ok v
set_next v (some i) p = do l ← link_at v i; ok (set_link v i (record l { next = p }))

-- The last part of `add_child`: puts the new link in front of the parent's children.
link_child : Vfs → ℕ → ℕ → Run Vfs
link_child v parent l_i = do
  p ← node_at v parent
  v ← set_prev v p.child (some l_i)
  v ← set_next v (some l_i) p.child
  ok (set_node v parent (record p { child = some l_i }))

-- The status, 0 or -1, and the new state.
unfoldable pub add_child : Vfs → ℕ → ℕ → List ℕ → Run (ℤ × Vfs)
unfolding find_free_link strlen strncpy link_child
add_child v parent new name = elim (find_free_link v) [
  | none ↦ ok (negsuc 0, v)
  | some l_i ↦ do
    len ← strlen name
    if leb filename_size len then ok (negsuc 0, v) else do
      l ← link_at v l_i
      text ← strncpy l.name name filename_size
      let l' = record l { name = text; node = some new; prev = none; next = none }
      v' ← link_child (set_link v l_i l') parent l_i
      ok (pos 0, v')
]

-- The code ends with `parent->child = NULL`, whatever it assigned before.
unfoldable pub del_child : Vfs → ℕ → ℕ → Run (ℤ × Vfs)
del_child v parent to_del = do
  l ← link_at v to_del
  i ← elim l.node [ none ↦ fault | some i ↦ ok i ]
  n ← node_at v i
  let v = set_node v i (record n { ref_count = dec_u32 n.ref_count })
  let v = set_link v to_del (record l { node = none })
  v ← set_next v l.prev l.next
  v ← set_prev v l.next l.prev
  p ← node_at v parent
  ok (pos 0, set_node v parent (record p { child = none }))
