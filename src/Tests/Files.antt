-- ===== src/Tests/Files.antt =====
-- A mounted test filesystem with an open file, kernel/src/generic/fs.
use fors_kernel.Prelude.{
  get_elem?, ℕ, zero, suc, ◌+◌, ◌≡◌, refl, sym, ap, Bool, true, not, ◌&&◌, ◌==◌, none, some, List,
  [], ◌∷◌, if◌then◌else◌, arith, codes, c_string, ok, ◌>>=◌,
}
use fors_kernel.Prelude.Int.{ℤ, pos, negsuc}
use fors_kernel.Prelude.Post.{Post}
use fors_kernel.Vfs.{
  Fsnode, FsnType, Openfile, Vfs, FilesystemType, is_empty, node_at, file_at, of_read,
}
use fors_kernel.Vfs.Slots.{find_free_fd, can_exec}
use fors_kernel.Vfs.Walk.{find_parent_checkperm}
use fors_kernel.Vfs.Fsops.{open_node, opened, vfs_open, vfs_close}
use fors_kernel.Vfs.Refs.{IsCounted, opens, hit}
use fors_kernel.Vfs.Filling.{IsTame}
use fors_kernel.Vfs.Counting.{vfs_open-IsCounted, vfs_close-IsCounted}
use fors_kernel.Vfs.OpenClose.{vfs_close-open_node}
use fors_kernel.Vfs.Close.{vfs_close_lem}
use fors_kernel.Vfs.Fields.{IsField, AreFields}
use fors_kernel.Vfs.FieldWalk.{resolve}
use fors_kernel.Vfs.FieldWalk.Joined.{last_name}
use fors_kernel.Vfs.Resolve.{find_parent_checkperm-resolve}
use fors_kernel.Testfs.{tfs_open, testfs_type, tfs_close}
use fors_kernel.Testfs.Tame.{testfs_type-IsTame, FillsAs, testfs_type_lem}

abbrev pub types : ℕ → FilesystemType
types m = testfs_type

types-IsTame : (m : ℕ) → IsTame (types m)
types-IsTame m = testfs_type-IsTame

abbrev free_node : Fsnode
free_node = record {
  mountpoint = none;
  internal_id = pos 0;
  type = FsnType.empty;
  perms = 0;
  user = pos 0;
  group = pos 0;
  access_time = pos 0;
  mod_time = pos 0;
  create_time = pos 0;
  ref_count = 0;
  child = none;
}

abbrev root_node : Fsnode
root_node = record free_node { mountpoint = some 0; type = FsnType.directory; perms = 511 }

abbrev file_node : Fsnode
file_node = record free_node {
  mountpoint = some 0;
  internal_id = pos 1;
  type = FsnType.file;
  perms = 64;
  ref_count = 1;
}

abbrev free_file : Openfile
free_file = record { node = none; cursor = pos 0; mode = 0; proc = pos 0 }

abbrev open_file : Openfile
open_file = record free_file { node = some 1; mode = of_read }

-- The root directory, one of its files, which is open, and a free node.
abbrev pub mounted : Vfs
mounted = record {
  vfs_root = some 0;
  fsnodes = root_node ∷ file_node ∷ free_node ∷ [];
  fslinks = [];
  open_files = open_file ∷ free_file ∷ [];
  mounts = record { dev = negsuc 0; fs = some 0; root_fsnode = pos 0 } ∷ [];
}

type_of : {n m : Fsnode} → n ≡ m → is_empty n.type ≡ is_empty m.type
type_of q = ap (λ (x : Fsnode). is_empty x.type) q

count_of : {n m : Fsnode} → n ≡ m → n.ref_count ≡ m.ref_count
count_of q = ap (λ (x : Fsnode). x.ref_count) q

mounted-IsCounted : IsCounted mounted
mounted-IsCounted = record {
  few = omega arith;
  free_unused = elim [
    | zero ↦ λ n h e. let q : root_node ≡ n = cc in absurd (cc (type_of q))
    | suc zero ↦ λ n h e. let q : file_node ≡ n = cc in absurd (cc (type_of q))
    | suc (suc i) ↦ λ n h e. ground arith
  ];
  used_counted = elim [
    | zero ↦ λ n h e. let q : root_node ≡ n = cc in sym (count_of q)
    | suc zero ↦ λ n h e. let q : file_node ≡ n = cc in sym (count_of q)
    | suc (suc zero) ↦ λ n h e. let q : free_node ≡ n = cc in absurd (cc (type_of q))
    | suc (suc (suc i)) ↦ λ n h e. cc
  ];
  linked = λ j l i h. cc;
}

vfs_open-IsCounted_example :
    Post
      (λ (r : ℤ × Vfs). IsCounted r.1)
      (vfs_open types mounted (negsuc 0) (c_string "/test2.txt") of_read)
vfs_open-IsCounted_example =
    vfs_open-IsCounted types types-IsTame mounted (negsuc 0) (c_string "/test2.txt") of_read
      mounted-IsCounted

vfs_close-IsCounted_example : Post (λ (r : ℤ × Vfs). IsCounted r.1) (vfs_close types mounted 0)
vfs_close-IsCounted_example = vfs_close-IsCounted types types-IsTame mounted 0 mounted-IsCounted

vfs_close_lem_example :
    (v' : Vfs) × (vfs_close types mounted 0 ≡ ok (pos 0, v'))
    × (file_at v' 0 ≡ ok (record open_file { node = none }))
    × ((i : ℕ) → opens i v'.open_files + hit i open_file ≡ opens i mounted.open_files)
    × IsCounted v'
unfolding tfs_close
vfs_close_lem_example =
    vfs_close_lem types mounted 0 1 open_file file_node testfs_type mounted-IsCounted refl refl refl
      refl refl

-- The test filesystem leaves the state alone, so the file can be opened again and closed.
vfs_close-open_node_example :
    (v' : Vfs) × (v'' : Vfs) × (open_node types mounted 1 (pos 3) of_read ≡ ok (pos 1, v'))
    × (get_elem? v'.open_files 1 ≡ some (opened 1 (pos 3) of_read))
    × (vfs_close types v' 1 ≡ ok (pos 0, v''))
    × ((i : ℕ) → opens i v''.open_files ≡ opens i mounted.open_files)
    × IsCounted v''
unfolding tfs_open tfs_close find_free_fd
vfs_close-open_node_example =
    vfs_close-open_node types mounted 1 (pos 3) of_read 1 file_node testfs_type mounted-IsCounted
      refl refl refl refl (λ w. refl) refl

abbrev is_field : List ℕ → Bool
is_field [] = true
is_field (b ∷ f) = not (b == b'/') && (not (b == 0) && is_field f)

is_field-IsField : (f : List ℕ) → is_field f ≡ true → IsField f
is_field-IsField [] h = tt
is_field-IsField (b ∷ f) h = (ground arith, ground arith, is_field-IsField f (ground arith))

-- The fields of "/testdir1//child2/".
abbrev dirs : List (List ℕ)
dirs = codes "testdir1" ∷ [] ∷ []

dirs-AreFields : AreFields dirs
dirs-AreFields = (is_field-IsField (codes "testdir1") refl, (tt, tt))

child2-IsField : IsField (b'c' ∷ codes "hild2")
child2-IsField = is_field-IsField (b'c' ∷ codes "hild2") refl

find_parent_checkperm-resolve_example :
    find_parent_checkperm types mounted 0 (c_string "/testdir1//child2/") (pos 3) ≡ (do
      n ← node_at mounted 0
      if not (can_exec n (pos 3))
          then ok (none, mounted)
          else resolve types (pos 3) mounted 0 dirs (last_name b'c' (codes "hild2") 1 []))
find_parent_checkperm-resolve_example =
    find_parent_checkperm-resolve b'c' (codes "hild2") 1 [] child2-IsField types (pos 3) mounted 0
      dirs dirs-AreFields

-- The free node is filled for the file with the number 2.
testfs_type_lem_example :
    IsTame testfs_type × FillsAs mounted 2 (some 2) (testfs_type.node_from_id mounted (pos 2) 2)
testfs_type_lem_example = testfs_type_lem mounted (pos 2) 2 free_node refl
