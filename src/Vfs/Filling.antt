-- ===== src/Vfs/Filling.antt =====
-- What a filesystem type may do to the nodes, so that the reference counts of vfs.c and fsops.c stay
-- right, and writes of single nodes that keep them right.
use fors_kernel.Prelude.{
  set_at, ℕ, ◌≡◌, sym, ap, ◌∙◌, ◌≢◌, inl, inr, true, false, Bool-cases, Option, none, some,
  get_elem?, get_elem?-set_ne,
}
use fors_kernel.Prelude.Int.{ℤ, pos, ltb_ℤ}
use fors_kernel.Prelude.Post.{Post}
use native.Mathlib.Decide.{ℕ_discrete}
use fors_kernel.Vfs.{Fsnode, Vfs, FilesystemType, is_empty, set_node}
use fors_kernel.Vfs.Refs.{IsCounted, here, else_where, Written-at}

-- The node is in use.
abbrev pub IsUsed : Vfs → ℕ → Type 0
IsUsed v i = (n : Fsnode) × (get_elem? v.fsnodes i ≡ some n) × (is_empty n.type ≡ false)

-- What a filesystem may do when it fills a node: nothing where it fails, and else it makes a node
-- in use, with no reference yet, of that slot alone.
pub record Fills (v : Vfs) (node : ℕ) (status : ℤ) (v' : Vfs) : Type 0 where
  pub files : v'.open_files ≡ v.open_files
  pub links : v'.fslinks ≡ v.fslinks
  pub others : (i : ℕ) → i ≢ node → get_elem? v'.fsnodes i ≡ get_elem? v.fsnodes i
  pub unfilled : ltb_ℤ status (pos 0) ≡ true → get_elem? v'.fsnodes node ≡ get_elem? v.fsnodes node
  pub filled :
      ltb_ℤ status (pos 0) ≡ false
      → (n : Fsnode) × (get_elem? v'.fsnodes node ≡ some n)
        × (is_empty n.type ≡ false)
        × (n.ref_count ≡ 0)

-- A filesystem type that fills nodes so, and whose `f_open` and `f_close` leave the state alone.
pub record IsTame (fs : FilesystemType) : Type 0 where
  pub fills :
      (v : Vfs) (id : ℤ) (node : ℕ)
      → Post (λ (s, v'). Fills v node s v') (fs.node_from_id v id node)
  pub opens_alone : (v : Vfs) (node : ℕ) → Post (λ (s, v'). v' ≡ v) (fs.f_open v node)
  pub closes_alone : (v : Vfs) (fd : ℕ) → Post (λ (s, v'). v' ≡ v) (fs.f_close v fd)

pub type_at_eq :
    {o : Option Fsnode} {n m : Fsnode} → o ≡ some n → o ≡ some m → is_empty n.type ≡ is_empty m.type
type_at_eq {n} {m} g h = let q : n ≡ m = cc in ap (λ (x : Fsnode). is_empty x.type) q

-- What a filled slot holds where it is in use.
pub filled_count :
    (v : Vfs) (node : ℕ) (s : ℤ) (v' : Vfs) (n m : Fsnode)
    → get_elem? v.fsnodes node ≡ some n
    → is_empty n.type ≡ true
    → Fills v node s v'
    → get_elem? v'.fsnodes node ≡ some m
    → is_empty m.type ≡ false
    → m.ref_count ≡ 0
filled_count v node s v' n m at_node free f h e = elim (Bool-cases (ltb_ℤ s (pos 0))) [
  | inl bad ↦ absurd (cc (type_at_eq at_node (sym (f.unfilled bad) ∙ h)))
  | inr good ↦ fresh (f.filled good)
]
  where
    fresh :
        (k : Fsnode) × (get_elem? v'.fsnodes node ≡ some k)
          × (is_empty k.type ≡ false)
          × (k.ref_count ≡ 0)
        → m.ref_count ≡ 0
    fresh (k, g, u, r) = let q : m ≡ k = cc in rw q r

-- Filling a free node keeps the invariant.
pub Fills-IsCounted :
    (v : Vfs) (node : ℕ) (s : ℤ) (v' : Vfs) (n : Fsnode)
    → IsCounted v
    → get_elem? v.fsnodes node ≡ some n
    → is_empty n.type ≡ true
    → Fills v node s v'
    → IsCounted v'
Fills-IsCounted v node s v' n counted at_node free f = record {
  few = rw f.files counted.few;
  free_unused = λ i m h e. rw f.files (elim (ℕ_discrete i node) [
    | yes q ↦ rw q (counted.free_unused node n at_node free)
    | no ne ↦ counted.free_unused i m (sym (f.others i ne) ∙ h) e
  ]);
  used_counted = λ i m h e. rw f.files (elim (ℕ_discrete i node) [
    | yes q ↦
        filled_count v node s v' n m at_node free f (rw q at h) e
        ∙ sym (rw q (counted.free_unused node n at_node free))
    | no ne ↦ counted.used_counted i m (sym (f.others i ne) ∙ h) e
  ]);
  linked = λ j l i h e. still i (counted.linked j l i (rw f.links at h) e);
}
  where
    still : (i : ℕ) → IsUsed v i → IsUsed v' i
    still i (m, g, u) = elim (ℕ_discrete i node) [
      | yes q ↦ absurd (cc (type_at_eq at_node (rw q at g)))
      | no ne ↦ (m, f.others i ne ∙ g, u)
    ]

-- A write of a node that keeps its type and its count keeps the invariant.
pub same-IsCounted :
    (v : Vfs) (node : ℕ) (n n' : Fsnode)
    → IsCounted v
    → get_elem? v.fsnodes node ≡ some n
    → n'.type ≡ n.type
    → n'.ref_count ≡ n.ref_count
    → IsCounted (set_node v node n')
same-IsCounted v node n n' counted at_node same_type same_count = record {
  few = counted.few;
  free_unused = λ i m h e. elim (Written-at v.fsnodes node n n' i m at_node h) [
    | here q r ↦ counted.free_unused i n (rw (← q) at_node) (rw (← same_type, ← r) e)
    | else_where ne g ↦ counted.free_unused i m g e
  ];
  used_counted = λ i m h e. elim (Written-at v.fsnodes node n n' i m at_node h) [
    | here q r ↦
        rw (r, same_count) (counted.used_counted i n (rw (← q) at_node) (rw (← same_type, ← r) e))
    | else_where ne g ↦ counted.used_counted i m g e
  ];
  linked = λ j l i h e. still i (counted.linked j l i h e);
}
  where
    still : (i : ℕ) → IsUsed v i → IsUsed (set_node v node n') i
    still i (m, g, u) = elim (ℕ_discrete node i) [
      | yes q ↦ (
        n',
        rw (← q) (set_at v.fsnodes node n n' at_node),
        rw same_type (type_at_eq at_node (rw (← q) at g) ∙ u),
      )
      | no ne ↦ (m, get_elem?-set_ne v.fsnodes n' ne ∙ g, u)
    ]

-- A node that a lookup may return: none, or one in use.
abbrev pub FoundUsed : Option ℕ × Vfs → Type 0
FoundUsed (none, v) = IsCounted v
FoundUsed (some i, v) = IsCounted v × IsUsed v i
