-- ===== src/Vfs/FieldWalk.antt =====
-- The walk over the fields of a path, and the loop of `find_parent_checkperm` of vfs.c against it.
pub mod Joined
use fors_kernel.Prelude.{
  fault, out_of_fuel, ltb, true, false, ℕ, zero, suc, ◌+◌, ◌-◌, ◌<◌, ◌≤◌, ◌≡◌, refl, sym, ap, ◌∙◌,
  Bool, true, false, not, Option, none, some, List, [], ◌∷◌, ◌++◌, if◌then◌else◌, arith, length,
  length-append, drop, replicate, Run, ok, ◌>>=◌,
}
use mathlib.Core.Path.{ap₂, fun_ext}
use mathlib.Core.List.{append_assoc}
use fors_kernel.Prelude.Int.{ℤ}
use fors_kernel.Str.{strnlen, strnchr}
use fors_kernel.Str.Length.{NoNul, strnlen_lem}
use fors_kernel.Vfs.{Vfs, Fsnode, FilesystemType, is_directory, node_at}
use fors_kernel.Vfs.Lookup.{get_node_with_len}
use fors_kernel.Vfs.Slots.{can_exec}
use fors_kernel.Vfs.Walk.{slash, Round, enter, round, walk, is_some_at}
use fors_kernel.Vfs.Fields.{
  IsField, AreFields, join, NoNul-append, IsField-NoNul, join-NoNul, memchr_field, memchr-none,
}
use fors_kernel.Vfs.Fields.Trailing.{NoNul-slashes}
use fors_kernel.Vfs.FieldWalk.Joined.{
  last_name, join-append, length-join, length-le-join, drop-add, drop-length, strnchr-join,
  strnchr_last,
}

abbrev pub is_nil : List (List ℕ) → Bool
is_nil [] = true
is_nil (f ∷ fs) = false

-- The node that a field names, the directory itself for the empty field.
abbrev pub child : (ℕ → FilesystemType) → Vfs → ℕ → List ℕ → List ℕ → Run (Option ℕ × Vfs)
child types v parent [] path = ok (some parent, v)
child types v parent (b ∷ f) path = get_node_with_len types v parent path (length (b ∷ f))

-- The walk over the directories that the path names, the text `t` behind them: each field is
-- entered in turn, the last without the check that the process may go on from it.
unfoldable pub resolve :
    (ℕ → FilesystemType) → ℤ → Vfs → ℕ → List (List ℕ) → List ℕ → Run (Option ℕ × Vfs)
unfolding get_node_with_len can_exec
resolve types p v parent [] t = ok (some parent, v)
resolve types p v parent (f ∷ fs) t = do
  (found, v') ← child types v parent f (join (f ∷ fs) t)
  elim found [
    | none ↦ ok (none, v')
    | some d ↦ do
      n ← node_at v' d
      if not (is_directory n.type)
          then ok (none, v')
          else if is_nil fs
          then ok (some d, v')
          else if not (can_exec n p)
          then ok (none, v')
          else resolve types p v' d fs t
  ]

-- What the loop does with a round.
abbrev go_on : (ℕ → Vfs → Run (Option ℕ × Vfs)) → Round → Run (Option ℕ × Vfs)
go_on k (Round.return found v) = ok (found, v)
go_on k (Round.next d v) = k d v

go_on_if :
    (k : ℕ → Vfs → Run (Option ℕ × Vfs)) (other last shut : Bool) (d : ℕ) (v : Vfs)
    → (if other
        then ok (none, v)
        else if last
        then ok (some d, v)
        else if shut
        then ok (none, v)
        else k d v)
      ≡ go_on k (
          if other
          then Round.return none v
          else if last
          then Round.return (some d) v
          else if shut
          then Round.return none v
          else Round.next d v)
go_on_if k true last shut d v = refl
go_on_if k false true shut d v = refl
go_on_if k false false true d v = refl
go_on_if k false false false d v = refl

module _ (p : ℤ) (last : Bool) (k : ℕ → Vfs → Run (Option ℕ × Vfs)) where
  go_on_node :
      (d : ℕ) (v : Vfs) (m : Run Fsnode)
      → (m >>= λ n.
          if not (is_directory n.type)
          then ok (none, v)
          else if last
          then ok (some d, v)
          else if not (can_exec n p)
          then ok (none, v)
          else k d v)
        ≡ ((m >>= λ n. ok (
              if not (is_directory n.type)
              then Round.return none v
              else if last
              then Round.return (some d) v
              else if not (can_exec n p)
              then Round.return none v
              else Round.next d v))
            >>= go_on k)
  go_on_node d v (ok n) = go_on_if k (not (is_directory n.type)) last (not (can_exec n p)) d v
  go_on_node d v fault = refl
  go_on_node d v out_of_fuel = refl

  go_on_found :
      (m : Run (Option ℕ × Vfs))
      → (do
        (found, v) ← m
        elim found [
          | none ↦ ok (none, v)
          | some d ↦ do
            n ← node_at v d
            if not (is_directory n.type)
                then ok (none, v)
                else if last
                then ok (some d, v)
                else if not (can_exec n p)
                then ok (none, v)
                else k d v
        ])
        ≡ ((do
          (found, v) ← m
          elim found [
            | none ↦ ok (Round.return none v)
            | some d ↦ do
              n ← node_at v d
              ok (
                  if not (is_directory n.type)
                  then Round.return none v
                  else if last
                  then Round.return (some d) v
                  else if not (can_exec n p)
                  then Round.return none v
                  else Round.next d v)
          ])
            >>= go_on k)
  go_on_found (ok (none, v)) = refl
  go_on_found (ok (some d, v)) = go_on_node d v (node_at v d)
  go_on_found fault = refl
  go_on_found out_of_fuel = refl

-- One field is one round.
resolve-cons :
    (types : ℕ → FilesystemType) (p : ℤ) (v : Vfs) (parent : ℕ) (f : List ℕ) (fs : List (List ℕ))
    (t : List ℕ)
    → resolve types p v parent (f ∷ fs) t ≡ (
        round types p v parent (join (f ∷ fs) t) (length f) (is_nil fs)
        >>= go_on (λ d v'. resolve types p v' d fs t))
unfolding resolve round enter
resolve-cons types p v parent [] fs t =
    go_on_found p (is_nil fs) (λ d v'. resolve types p v' d fs t) (ok (some parent, v))
resolve-cons types p v parent (b ∷ f) fs t =
    let some_text : ltb 0 (suc (length f)) ≡ true = ground arith in
    rw some_text (
      go_on_found p (is_nil fs) (λ d v'. resolve types p v' d fs t)
        (get_node_with_len types v parent (join ((b ∷ f) ∷ fs) t) (length (b ∷ f))))

>>=-cong :
    {A B : Type 0} {m m' : Run A} {f g : A → Run B}
    → m ≡ m'
    → ((a : A) → f a ≡ g a)
    → (m >>= f) ≡ (m' >>= g)
>>=-cong {m' = m'} {g = g} e h = ap₂ ◌>>=◌ e (fun_ext h)

-- Whether the '/' behind the next field is the last one before the name.
is_last_field :
    (g : List ℕ) (fs : List (List ℕ)) (n at end j : ℕ)
    → end ≡ at + (length g + suc (length (join fs []) + n))
    → end ≡ suc j + n
    → is_some_at (some j) (at + length g) ≡ is_nil fs
is_last_field g [] n at end j p q = ground arith
is_last_field g (h ∷ fs) n at end j p q = ground (arith, length-append h (b'/' ∷ join fs []))

module _ (types : ℕ → FilesystemType) (p : ℤ) (b : ℕ) (f : List ℕ) (k : ℕ) (r : List ℕ)
    (hf : IsField (b ∷ f)) where
  pub walk_end :
      (fuel : ℕ) (v : Vfs) (parent : ℕ) (s : List ℕ) (at end : ℕ) (last : Option ℕ)
      → drop at s ≡ last_name b f k r
      → end ≡ at + length (b ∷ f)
      → walk types (suc fuel) p v parent s at end last ≡ ok (some parent, v)
  unfolding walk
  walk_end fuel v parent s at end last e q =
      let d : end - at ≡ length (b ∷ f) = omega arith in rw (e, d, strnchr_last b f k r hf)

  -- With more rounds than there are fields the loop does what the walk over the fields does.
  pub walk_fields :
      (fs : List (List ℕ)) (fuel : ℕ) (v : Vfs) (parent : ℕ) (s : List ℕ) (at end j : ℕ)
      → AreFields fs
      → length fs < fuel
      → drop at s ≡ join fs (last_name b f k r)
      → end ≡ at + length (join fs (b ∷ f))
      → end ≡ suc j + length (b ∷ f)
      → walk types fuel p v parent s at end (some j)
        ≡ resolve types p v parent fs (last_name b f k r)
  unfolding walk resolve
  walk_fields fs zero v parent s at end j hfs lt e q l = absurd (omega arith)
  walk_fields [] (suc fuel) v parent s at end j hfs lt e q l =
      walk_end fuel v parent s at end (some j) e q
  walk_fields (g ∷ fs) (suc fuel) v parent s at end j hfs lt e q l =
      let lj = length-join fs (b ∷ f) in
      let lg = length-append g (b'/' ∷ join fs (b ∷ f)) in
      let d : end - at ≡ length (join (g ∷ fs) (b ∷ f)) = omega arith in
      let last = is_last_field g fs (length (b ∷ f)) at end j (omega arith) l in
      let from : drop (suc (at + length g)) s ≡ join fs (last_name b f k r) =
        let e' : suc (at + length g) ≡ at + (length g + 1) = omega arith in
        rw (e', drop-add at (length g + 1) s, e, drop-add (length g) 1, drop-length g) refl in
      let found : strnchr (drop at s) slash (end - at) ≡ ok (some (length g)) =
        rw (e, d) (strnchr-join g fs b f k r hfs hf) in
      rw found (
        >>=-cong
          (ap₂ (λ (path : List ℕ) (is_last : Bool). round types p v parent path (length g) is_last)
            e last)
          (elim [
            | Round.return r' v' ↦ refl
            | Round.next d' v' ↦
                walk_fields fs fuel v' d' s (suc (at + length g)) end j hfs.1 (omega arith) from
                  (omega arith) l
          ])
        ∙ sym (resolve-cons types p v parent g fs (last_name b f k r)))
