-- ===== src/Testfs/Tame.antt =====
-- The nodes that the test filesystem of test.c fills, and what it leaves alone.
use fors_kernel.Prelude.{
  set_at, ℕ, ◌≡◌, ◌==◌, ◌||◌, refl, sym, true, false, inl, inr, Bool-cases, Option, none, some,
  if◌then◌else◌, Run, ok, ltb, leb, arith, get_elem?, get_elem?-set_ne,
}
use fors_kernel.Prelude.Int.{ℤ, pos, negsuc}
use fors_kernel.Prelude.Post.{Post, returns, Post-bind, Post-deref, Post-if}
use fors_kernel.Vfs.{Fsnode, FsnType, Vfs, is_empty, set_node}
use fors_kernel.Vfs.Filling.{Fills, IsTame}
use fors_kernel.Testfs.{testfs_type, tfs_node_from_id, filled, tfs_open, tfs_close, dir2_sentinal}

filled_used :
    (i : ℕ) (n : Fsnode) → (is_empty (filled i n).type ≡ false) × ((filled i n).ref_count ≡ 0)
unfolding filled
filled_used i n = (ground arith, refl)

Fills-nothing : (v : Vfs) (node : ℕ) → Fills v node (negsuc 0) v
Fills-nothing v node = record {
  files = refl;
  links = refl;
  others = λ i ne. refl;
  unfilled = λ e. refl;
  filled = λ e. absurd (cc);
}

tfs_node_from_id-Fills :
    (v : Vfs) (id : ℤ) (node : ℕ) → Post (λ (s, v'). Fills v node s v') (tfs_node_from_id v id node)
unfolding tfs_node_from_id
tfs_node_from_id-Fills v (negsuc i) node = returns (Fills-nothing v node)
tfs_node_from_id-Fills v (pos i) node =
    Post-if (leb dir2_sentinal i) (returns (Fills-nothing v node)) (
      Post-bind _ (Post-deref (get_elem? v.fsnodes node)) λ n at_node. returns record {
        files = refl;
        links = refl;
        others = λ j ne. get_elem?-set_ne v.fsnodes (filled i n) (λ e. ne (sym e));
        unfilled = λ e. absurd (cc);
        filled = λ e. (
          filled i n,
          set_at v.fsnodes node n (filled i n) at_node,
          (filled_used i n).0,
          (filled_used i n).1,
        );
      })

-- Filling a node writes that node alone and makes it a used node with no reference, or leaves it as it
-- was where the status is negative; opening and closing a file change nothing.
pub testfs_type-IsTame : IsTame testfs_type
unfolding tfs_open tfs_close
testfs_type-IsTame = record {
  fills = tfs_node_from_id-Fills;
  opens_alone = λ v node. returns refl;
  closes_alone = λ v fd. returns refl;
}

-- The filesystem's ten numbers.
abbrev pub number_of : ℤ → Option ℕ
number_of (pos i) = if ltb i 10 then some i else none
number_of (negsuc i) = none

-- A status of -1 with nothing changed where there is no number, and else a status of 0 with the node
-- written: it has the number, is a directory for 0, 4 and 5 and else a file, and has no reference and
-- no children.
abbrev pub FillsAs : Vfs → ℕ → Option ℕ → Run (ℤ × Vfs) → Type 0
FillsAs v node none r = r ≡ ok (negsuc 0, v)
FillsAs v node (some i) r =
    (n : Fsnode) × (r ≡ ok (pos 0, set_node v node n))
    × (n.internal_id ≡ pos i)
    × (n.type ≡ (if i == 0 || (i == 4 || i == 5) then FsnType.directory else FsnType.file))
    × (n.ref_count ≡ 0)
    × (n.child ≡ none)

-- The test filesystem is tame: filling a node writes that node alone, opening and closing a file
-- change nothing. A node of the array is filled for each of the numbers 0 to 9, as a directory for 0,
-- 4 and 5 and else as a file, with no reference and no children, and refused for every other number.
pub testfs_type_lem :
    (v : Vfs) (id : ℤ) (node : ℕ) (n : Fsnode)
    → get_elem? v.fsnodes node ≡ some n
    → IsTame testfs_type × FillsAs v node (number_of id) (testfs_type.node_from_id v id node)
unfolding tfs_node_from_id filled
testfs_type_lem v (negsuc i) node n at_node = (testfs_type-IsTame, refl)
testfs_type_lem v (pos i) node n at_node = elim (Bool-cases (ltb i 10)) [
  | inl e ↦
      let known : leb dir2_sentinal i ≡ false = ground arith in
      (testfs_type-IsTame, rw e (filled i n, rw (known, at_node) refl, refl, refl, refl, refl))
  | inr e ↦
      let unknown : leb dir2_sentinal i ≡ true = ground arith in
      (testfs_type-IsTame, rw (e, unknown) refl)
]
