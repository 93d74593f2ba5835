-- ===== src/Vfs/Slots.antt =====
-- Access checks and free slots, kernel/src/generic/fs/vfs.c.
pub mod First
use fors_kernel.Prelude.{
  ℕ, zero, suc, ◌+◌, Bool, true, false, ◌&&◌, ◌||◌, Option, none, some, List, [], ◌∷◌,
  if◌then◌else◌,
}
use mathlib.Core.Option
use fors_kernel.Prelude.Int.{ℤ, negsuc}
use fors_kernel.Str.{eq_int}
use fors_kernel.Vfs.{
  Fsnode, Fslink, Openfile, Vfs, is_empty, has_flag, fp_rusr, fp_wusr, fp_xusr, fp_roth, fp_woth,
  fp_xoth,
}

unfoldable pub can_read : Fsnode → ℤ → Bool
unfolding has_flag
can_read dir p =
    eq_int p (negsuc 0)
    || (has_flag dir.perms fp_roth || (has_flag dir.perms fp_rusr && eq_int dir.user p))

unfoldable pub can_write : Fsnode → ℤ → Bool
unfolding has_flag
can_write dir p =
    eq_int p (negsuc 0)
    || (has_flag dir.perms fp_woth || (has_flag dir.perms fp_wusr && eq_int dir.user p))

unfoldable pub can_exec : Fsnode → ℤ → Bool
unfolding has_flag
can_exec dir p =
    eq_int p (negsuc 0)
    || (has_flag dir.perms fp_xoth || (has_flag dir.perms fp_xusr && eq_int dir.user p))

abbrev pub is_null : {A : Type 0} → Option A → Bool
is_null none = true
is_null (some a) = false

-- The loop over an array for the first element that passes a test; `none` is the code's -1.
unfoldable pub first_free : {A : Type 0} → (A → Bool) → List A → Option ℕ
first_free free [] = none
first_free free (x ∷ xs) = if free x then some 0 else Option.map suc (first_free free xs)

unfoldable pub find_free_link : Vfs → Option ℕ
unfolding first_free
find_free_link v = first_free (λ (l : Fslink). is_null l.node) v.fslinks

unfoldable pub find_free_node : Vfs → Option ℕ
unfolding first_free
find_free_node v = first_free (λ (n : Fsnode). is_empty n.type) v.fsnodes

-- `find_free_fd_in`, over any array of open files.
unfoldable pub find_free_fd_in : List Openfile → Option ℕ
unfolding first_free
find_free_fd_in files = first_free (λ (f : Openfile). is_null f.node) files

unfoldable pub find_free_fd : Vfs → Option ℕ
unfolding find_free_fd_in
find_free_fd v = find_free_fd_in v.open_files
