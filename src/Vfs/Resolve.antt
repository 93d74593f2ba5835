-- ===== src/Vfs/Resolve.antt =====
-- `find_parent_checkperm` and `basename` of vfs.c against a walk over the fields of the path.
use fors_kernel.Prelude.{
  ℕ, suc, ◌+◌, ◌≡◌, refl, sym, ap, ◌∙◌, not, Option, none, some, List, [], ◌∷◌, ◌++◌, if◌then◌else◌,
  arith, length, length-append, drop, replicate, Run, ok, ◌>>=◌,
}
use mathlib.Core.List.{append_assoc}
use fors_kernel.Prelude.Int.{ℤ}
use fors_kernel.Str.{memrchr}
use fors_kernel.Vfs.{Vfs, FilesystemType, node_at}
use fors_kernel.Vfs.Slots.{can_exec}
use fors_kernel.Vfs.Walk.{slash, first_of_trailing, basename, find_parent_checkperm}
use fors_kernel.Vfs.Fields.{
  IsField, AreFields, join, join-NoNul, memrchr_last_field, memrchr_no_field,
}
use fors_kernel.Vfs.Fields.Trailing.{first_of_trailing_field}
use fors_kernel.Vfs.FieldWalk.{resolve, walk_end, walk_fields}
use fors_kernel.Vfs.FieldWalk.Joined.{
  last_name, join-append, length-join, length-le-join, drop-add, drop-length,
}

-- The last '/' in front of the name.
join_snoc :
    (g : List ℕ) (fs : List (List ℕ))
    → (y : List ℕ) × ((t : List ℕ) → join (g ∷ fs) t ≡ y ++ (b'/' ∷ t))
join_snoc g [] = (g, λ t. refl)
join_snoc g (h ∷ fs) =
    let (y, e) = join_snoc h fs in
    (g ++ (b'/' ∷ y), λ t. rw (e t) (sym (append_assoc g (b'/' ∷ y) (b'/' ∷ t))))

-- The check of the root that the loop stands behind.
enter_root :
    (p : ℤ) (v : Vfs) (root : ℕ) (x y : Run (Option ℕ × Vfs))
    → x ≡ y
    → (do n ← node_at v root; if not (can_exec n p) then ok (none, v) else x)
      ≡ (do n ← node_at v root; if not (can_exec n p) then ok (none, v) else y)
enter_root p v root x y e = rw e

module _ (b : ℕ) (f : List ℕ) (k : ℕ) (r : List ℕ) (hf : IsField (b ∷ f)) where
  end_of_path :
      (fs : List (List ℕ))
      → AreFields fs
      → first_of_trailing (join fs (last_name b f k r)) slash ≡ ok (length (join fs (b ∷ f)))
  end_of_path fs hfs = rw (join-append fs [] (last_name b f k r)) (
      first_of_trailing_field (join fs []) b f k r (join-NoNul fs [] hfs tt) hf
      ∙ ap ok (sym (length-join fs (b ∷ f))))

  last_delim :
      (g : List ℕ) (fs : List (List ℕ))
      → (j : ℕ) × (memrchr
            (join (g ∷ fs) (last_name b f k r))
            slash
            (length (join (g ∷ fs) (b ∷ f)))
          ≡ ok (some j))
        × (length (join (g ∷ fs) (b ∷ f)) ≡ suc j + length (b ∷ f))
        × (drop (suc j) (join (g ∷ fs) (last_name b f k r)) ≡ last_name b f k r)
  last_delim g fs =
      let (y, e) = join_snoc g fs in
      let u = replicate k b'/' ++ (0 ∷ r) in
      let l : length (join (g ∷ fs) (b ∷ f)) ≡ suc (length y + length (b ∷ f)) =
        ap length (e (b ∷ f)) ∙ omega (arith, length-append y (b'/' ∷ (b ∷ f))) in
      let m : suc (length y) ≡ length y + 1 = omega arith in
      (
        length y,
        rw (l, e (last_name b f k r)) (memrchr_last_field y (b ∷ f) u hf),
        omega arith,
        rw (e (last_name b f k r), m, drop-add (length y) 1, drop-length y) refl,
      )

  -- `basename` of an absolute path with a nonempty last name gives a pointer to that name, the
  -- slashes behind it included.
  pub basename_lem :
      (fs : List (List ℕ))
      → AreFields fs
      → basename (b'/' ∷ join fs (last_name b f k r)) ≡ ok (some (last_name b f k r))
  unfolding basename
  basename_lem fs hfs =
      let (j, m, l, d) = last_delim [] fs in rw (end_of_path ([] ∷ fs) (tt, hfs), m, d)

  -- On an absolute path whose last name is not empty, `find_parent_checkperm` is the walk over the
  -- fields in front of that name, after the check that the process may enter the root: the loop
  -- ends, it enters the fields in order and skips the empty ones, and slashes behind the last name
  -- make no difference.
  pub find_parent_checkperm-resolve :
      (types : ℕ → FilesystemType) (p : ℤ) (v : Vfs) (root : ℕ) (fs : List (List ℕ))
      → AreFields fs
      → find_parent_checkperm types v root (b'/' ∷ join fs (last_name b f k r)) p ≡ (do
        n ← node_at v root
        if not (can_exec n p) then ok (none, v) else resolve types p v root fs (last_name b f k r))
  unfolding find_parent_checkperm resolve
  find_parent_checkperm-resolve types p v root [] hfs =
      rw (end_of_path [] tt, memrchr_no_field (b ∷ f) (replicate k b'/' ++ (0 ∷ r)) hf)
        (enter_root p v root _ _ (
          walk_end types p b f k r hf (length (b ∷ f)) v root (last_name b f k r) 0 (length (b ∷ f))
            none refl (omega arith)))
  find_parent_checkperm-resolve types p v root (g ∷ fs) hfs =
      let (j, m, l, d) = last_delim g fs in
      rw (end_of_path (g ∷ fs) hfs, m)
        (enter_root p v root _ _ (
          walk_fields types p b f k r hf (g ∷ fs) (suc (length (join (g ∷ fs) (b ∷ f)))) v root
            (join (g ∷ fs) (last_name b f k r)) 0 (length (join (g ∷ fs) (b ∷ f))) j hfs
            (omega (arith, length-le-join (g ∷ fs) (b ∷ f))) refl (omega arith) l))
