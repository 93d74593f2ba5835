-- ===== src/Vfs/Refs.antt =====
-- The reference counts of kernel/src/generic/fs/fsops.c: each node that is in use counts the open
-- files that refer to it, and no open file refers to a free node.
use fors_kernel.Prelude.{
  ℕ, zero, suc, ◌+◌, ◌^◌, ◌≤◌, ◌<◌, ◌≡◌, refl, sym, ap, ◌∙◌, ◌≢◌, inl, inr, true, false, Bool-cases,
  none, some, List, [], ◌∷◌, ◌==◌, if◌then◌else◌, arith, length, length-set, get_elem?, set,
  get_elem?-set_self, get_elem?-lt, get_elem?-set_ne, ok,
}
use fors_kernel.Prelude.Int.{ℤ, pos}
use native.Mathlib.Decide.{ℕ_discrete}
use fors_kernel.Vfs.{Fsnode, Fslink, Openfile, Vfs, is_empty, inc_u32, dec_u32, set_node, set_file}
use fors_kernel.Vfs.Fsops.{opened, assign_file}

-- 1 where the open file refers to node `i`, or 0.
abbrev pub hit : ℕ → Openfile → ℕ
hit i f = elim f.node [ none ↦ 0 | some j ↦ if j == i then 1 else 0 ]

-- The number of open files that refer to node `i`.
abbrev pub opens : ℕ → List Openfile → ℕ
opens i [] = 0
opens i (f ∷ fs) = hit i f + opens i fs

-- The invariant of the reference counts.
pub record IsCounted (v : Vfs) : Type 0 where
  pub few : length v.open_files < 2 ^ 32
  pub free_unused :
      (i : ℕ) (n : Fsnode)
      → get_elem? v.fsnodes i ≡ some n
      → is_empty n.type ≡ true
      → opens i v.open_files ≡ 0
  pub used_counted :
      (i : ℕ) (n : Fsnode)
      → get_elem? v.fsnodes i ≡ some n
      → is_empty n.type ≡ false
      → n.ref_count ≡ opens i v.open_files
  pub linked :
      (j : ℕ) (l : Fslink) (i : ℕ)
      → get_elem? v.fslinks j ≡ some l
      → l.node ≡ some i
      → (n : Fsnode) × (get_elem? v.fsnodes i ≡ some n) × (is_empty n.type ≡ false)

opens-le : (i : ℕ) (fs : List Openfile) → opens i fs ≤ length fs
opens-le i [] = omega arith
opens-le i (f ∷ fs) = ground (arith, opens-le i fs)

-- Replacing one open file changes the count by what the two refer to.
pub opens-set :
    (i fd : ℕ) (fs : List Openfile) (old new : Openfile)
    → get_elem? fs fd ≡ some old
    → opens i (set fs fd new) + hit i old ≡ opens i fs + hit i new
opens-set i fd [] old new h = cc
opens-set i zero (f ∷ fs) old new h = ground arith
opens-set i (suc fd) (f ∷ fs) old new h = omega (arith, opens-set i fd fs old new h)

-- `opens` is positive where an open file refers to the node.
opens_pos :
    (i fd : ℕ) (fs : List Openfile) (f : Openfile) → get_elem? fs fd ≡ some f → hit i f ≤ opens i fs
opens_pos i fd [] f h = cc
opens_pos i zero (g ∷ fs) f h = ground arith
opens_pos i (suc fd) (g ∷ fs) f h = omega (arith, opens_pos i fd fs f h)

-- What is at an index after a write.
pub data Written {ℓ} {A : Type ℓ} (xs : List A) (i : ℕ) (a : A) (j : ℕ) (b : A) : Type ℓ where
  here : i ≡ j → b ≡ a → Written xs i a j b
  else_where : i ≢ j → get_elem? xs j ≡ some b → Written xs i a j b

pub Written-at {ℓ} :
    {A : Type ℓ} (xs : List A) (i : ℕ) (o a : A) (j : ℕ) (b : A)
    → get_elem? xs i ≡ some o
    → get_elem? (set xs i a) j ≡ some b
    → Written xs i a j b
Written-at xs i o a j b ho h = elim (ℕ_discrete i j) [
  | yes e ↦
      Written.here e
        (cc (get_elem?-set_self xs i a (get_elem?-lt xs i o ho), ap (get_elem? (set xs i a)) e))
  | no ne ↦ Written.else_where ne (sym (get_elem?-set_ne xs a ne) ∙ h)
]

-- A write of one open file and of one used node keeps the invariant, if the node's new count is
-- right and no other node's count changes.
module _ (v : Vfs) (counted : IsCounted v) (fd : ℕ) (old new : Openfile) (node : ℕ) (n n' : Fsnode)
    (at_fd : get_elem? v.open_files fd ≡ some old) (at_node : get_elem? v.fsnodes node ≡ some n)
    (used : is_empty n.type ≡ false) (same_type : n'.type ≡ n.type)
    (others : (i : ℕ) → i ≢ node → hit i old ≡ hit i new)
    (right : n'.ref_count ≡ opens node (set v.open_files fd new)) where
  used' : is_empty n'.type ≡ false
  used' = rw same_type used

  same_opens : (i : ℕ) → i ≢ node → opens i (set v.open_files fd new) ≡ opens i v.open_files
  same_opens i ne = omega (arith, opens-set i fd v.open_files old new at_fd, others i ne)

  update-IsCounted : IsCounted (set_node (set_file v fd new) node n')
  update-IsCounted = record {
    few = omega (arith, counted.few, length-set v.open_files fd new);
    free_unused = λ i m h e. elim (Written-at v.fsnodes node n n' i m at_node h) [
      | Written.here q r ↦ absurd (cc (used', ap (λ (x : Fsnode). is_empty x.type) r))
      | Written.else_where ne g ↦ same_opens i (λ q. ne (sym q)) ∙ counted.free_unused i m g e
    ];
    used_counted = λ i m h e. elim (Written-at v.fsnodes node n n' i m at_node h) [
      | Written.here q r ↦ rw (r, ← q) right
      | Written.else_where ne g ↦
          counted.used_counted i m g e ∙ sym (same_opens i (λ q. ne (sym q)))
    ];
    linked = λ j l i h e. still i (counted.linked j l i h e);
  }
    where
      still :
          (i : ℕ)
          → (m : Fsnode) × (get_elem? v.fsnodes i ≡ some m) × (is_empty m.type ≡ false)
          → (m : Fsnode) × (get_elem? (set v.fsnodes node n') i ≡ some m)
            × (is_empty m.type ≡ false)
      still i (m, g, u) = elim (ℕ_discrete node i) [
        | yes e ↦ (
          n',
          rw (← e) (get_elem?-set_self v.fsnodes node n' (get_elem?-lt v.fsnodes node n at_node)),
          used',
        )
        | no ne ↦ (m, get_elem?-set_ne v.fsnodes n' ne ∙ g, u)
      ]

-- What `vfs_open` writes at its end, the open file and the increment, keeps the invariant.
pub open-IsCounted :
    (v : Vfs) (fd node : ℕ) (p : ℤ) (mode : ℕ) (n : Fsnode) (old : Openfile)
    → IsCounted v
    → get_elem? v.fsnodes node ≡ some n
    → is_empty n.type ≡ false
    → get_elem? v.open_files fd ≡ some old
    → old.node ≡ none
    → IsCounted (
        set_node
          (set_file v fd (opened node p mode))
          node
          (record n { ref_count = inc_u32 n.ref_count }))
open-IsCounted v fd node p mode n old counted at_node used at_fd free =
    let new = opened node p mode in
    let n' : Fsnode = record n { ref_count = inc_u32 n.ref_count } in
    update-IsCounted v counted fd old new node n n' at_fd at_node used refl
      (λ i ne. ground (arith, free))
      (ground (
        arith,
        free,
        opens-set node fd v.open_files old new at_fd,
        counted.used_counted node n at_node used,
        opens-le node (set v.open_files fd new),
        length-set v.open_files fd new,
        counted.few,
      ))

-- Assigning a free slot of the open files to a used node, as `vfs_open` does at its end, keeps the
-- invariant.
pub assign_file-IsCounted :
    (v : Vfs) (fd node : ℕ) (p : ℤ) (mode : ℕ) (n : Fsnode) (old : Openfile)
    → IsCounted v
    → get_elem? v.fsnodes node ≡ some n
    → is_empty n.type ≡ false
    → get_elem? v.open_files fd ≡ some old
    → old.node ≡ none
    → (v' : Vfs) × (assign_file v fd node p mode ≡ ok (pos fd, v')) × IsCounted v'
unfolding assign_file
assign_file-IsCounted v fd node p mode n old counted at_node used at_fd free = (
  set_node (set_file v fd (opened node p mode)) node (record n { ref_count = inc_u32 n.ref_count }),
  rw (at_fd, at_node),
  open-IsCounted v fd node p mode n old counted at_node used at_fd free,
)

-- What `vfs_close` writes, the decrement and then the cleared slot, keeps the invariant.
pub close-IsCounted :
    (v : Vfs) (fd node : ℕ) (n : Fsnode) (f : Openfile)
    → IsCounted v
    → get_elem? v.fsnodes node ≡ some n
    → get_elem? v.open_files fd ≡ some f
    → f.node ≡ some node
    → IsCounted (
        set_file
          (set_node v node (record n { ref_count = dec_u32 n.ref_count }))
          fd
          (record f { node = none }))
close-IsCounted v fd node n f counted at_node at_fd refers =
    let new : Openfile = record f { node = none } in
    let n' : Fsnode = record n { ref_count = dec_u32 n.ref_count } in
    let one : hit node f ≡ 1 = ground (arith, refers) in
    let some_open = opens_pos node fd v.open_files f at_fd in
    let used : is_empty n.type ≡ false = elim (Bool-cases (is_empty n.type)) [
      | inl e ↦ absurd (omega (arith, one, some_open, counted.free_unused node n at_node e))
      | inr e ↦ e
    ] in
    update-IsCounted v counted fd f new node n n' at_fd at_node used refl
      (λ i ne. ground (arith, refers))
      (ground (
        arith,
        one,
        some_open,
        opens-set node fd v.open_files f new at_fd,
        counted.used_counted node n at_node used,
        opens-le node v.open_files,
        counted.few,
      ))
