-- ===== src/Sched/Abstract.antt =====
-- The scheduler of thread.c up to where its numbers stand in the ring.
use fors_kernel.Prelude.{
  ℕ, zero, suc, ◌+◌, ◌-◌, ◌%◌, ◌≤◌, ◌≡◌, refl, ap, sym, ◌∙◌, List, [], ◌∷◌, ◌++◌, arith, length,
  get_or, replicate,
}
use mathlib.Core.Path.{ap₂}
use mathlib.Core.List.{append_assoc}
use mathlib.Core.Quot
use mathlib.Core.Quot.{Quot, Quot-set}
use mathlib.Core.HLevel.{Σ_prop_path}
use native.Mathlib.Bridge.{le_prop}
use fors_kernel.Prelude.Int.{ℤ, pos, negsuc}
use fors_kernel.Sched.{Queue, max_procs, enqueue_proc, dequeue_proc}
use fors_kernel.Sched.Fifo.{
  IsValid, contents, window, length-window, fifo_enqueue, fifo_dequeue, enqueue_proc-IsValid,
  dequeue_proc-IsValid, enqueue_proc_refines, dequeue_proc_refines,
}

-- A valid ring.
abbrev pub Ring : Type 0
Ring = (q : Queue) × IsValid q

-- The same numbers wait, in the same order.
abbrev pub SameContents : Ring → Ring → Type 0
SameContents r s = contents r.0 ≡ contents s.0

-- A ring of which only the numbers that wait count.
abbrev pub Waiting : Type 0
Waiting = Quot SameContents

-- What a bounded queue can hold.
abbrev pub Bounded : Type 0
Bounded = (xs : List ℤ) × (length xs ≤ max_procs)

Bounded-set : IsSet Bounded
Bounded-set = hlevel (le_prop)

Bounded-ext : (a b : Bounded) → a.0 ≡ b.0 → a ≡ b
Bounded-ext a b h = Σ_prop_path (λ xs. le_prop) h

contents_bounded : Ring → Bounded
contents_bounded (q, v) = (
  contents q,
  rw (length-window q.sched_queue q.sq_head (max_procs - q.sq_space_left)) (omega arith),
)

pub waiting_list : Waiting → Bounded
unfolding contents_bounded
waiting_list = Quot.lift Bounded-set contents_bounded (λ r s h. Bounded-ext _ _ h)

-- `enqueue_proc` and `dequeue_proc` on what waits.
pub enqueue : ℤ → Waiting → ℤ × Waiting
enqueue x =
    Quot.lift (hlevel Quot-set)
      (λ (r : Ring).
        ((enqueue_proc r.0 x).0, Quot.mk ((enqueue_proc r.0 x).1, enqueue_proc-IsValid x r.1)))
      (λ r s h.
        let e : ((enqueue_proc r.0 x).0, contents (enqueue_proc r.0 x).1)
            ≡ ((enqueue_proc s.0 x).0, contents (enqueue_proc s.0 x).1) =
          enqueue_proc_refines x r.1
          ∙ ap (λ xs. fifo_enqueue xs x) h
          ∙ sym (enqueue_proc_refines x s.1) in
        ap₂ (λ a b. (a, b)) (ap (λ p. p.0) e) (Quot.sound (ap (λ p. p.1) e)))

pub dequeue : Waiting → ℤ × Waiting
dequeue =
    Quot.lift (hlevel Quot-set)
      (λ (r : Ring).
        ((dequeue_proc r.0).0, Quot.mk ((dequeue_proc r.0).1, dequeue_proc-IsValid r.1)))
      (λ r s h.
        let e : ((dequeue_proc r.0).0, contents (dequeue_proc r.0).1)
            ≡ ((dequeue_proc s.0).0, contents (dequeue_proc s.0).1) =
          dequeue_proc_refines r.1 ∙ ap fifo_dequeue h ∙ sym (dequeue_proc_refines s.1) in
        ap₂ (λ a b. (a, b)) (ap (λ p. p.0) e) (Quot.sound (ap (λ p. p.1) e)))

-- A ring that holds the numbers from its first place on.
abbrev pub fill : List ℤ → Queue
fill xs = record {
  sched_queue = xs ++ replicate (max_procs - length xs) (pos 0);
  sq_head = 0;
  sq_tail = length xs % max_procs;
  sq_space_left = max_procs - length xs;
}

length-padded : (xs : List ℤ) (n : ℕ) → length (xs ++ replicate n (pos 0)) ≡ length xs + n
length-padded [] zero = refl
length-padded [] (suc n) = omega (arith, length-padded [] n)
length-padded (x ∷ xs) n = omega (arith, length-padded xs n)

fill-IsValid : (b : Bounded) → IsValid (fill b.0)
fill-IsValid (xs, le) = record {
  storage = omega (arith, length-padded xs (max_procs - length xs));
  head_in = omega arith;
  space_in = omega arith;
  tail_at = ap (λ n. n % max_procs) (omega arith);
}

get_or-behind : (ys : List ℤ) (x d : ℤ) (zs : List ℤ) → get_or (ys ++ (x ∷ zs)) (length ys) d ≡ x
get_or-behind [] x d zs = refl
get_or-behind (y ∷ ys) x d zs = get_or-behind ys x d zs

length-snoc : (ys : List ℤ) (x : ℤ) → length (ys ++ (x ∷ [])) ≡ length ys + 1
length-snoc [] x = refl
length-snoc (y ∷ ys) x = omega (arith, length-snoc ys x)

-- The window behind `ys` of a buffer that is no longer than the ring.
window-behind :
    (ys xs zs : List ℤ) (h : ℕ)
    → length ys + length xs ≤ max_procs
    → h ≡ length ys % max_procs
    → window (ys ++ (xs ++ zs)) h (length xs) ≡ xs
window-behind ys [] zs h le e = refl
window-behind ys (x ∷ xs) zs h le e =
    let at : h ≡ length ys = omega arith in
    let len = length-snoc ys x in
    let assoc = append_assoc ys (x ∷ []) (xs ++ zs) in
    ap₂ ◌∷◌ (rw at (get_or-behind ys x (negsuc 0) (xs ++ zs))) (
      ap (λ buf. window buf ((h + 1) % max_procs) (length xs)) (sym assoc)
      ∙ window-behind (ys ++ (x ∷ [])) xs zs ((h + 1) % max_procs) (omega arith) (omega arith))

contents-fill : (b : Bounded) → contents (fill b.0) ≡ b.0
contents-fill (xs, le) =
    let n : max_procs - (max_procs - length xs) ≡ length xs = omega arith in
    rw n (window-behind [] xs (replicate (max_procs - length xs) (pos 0)) 0 (omega arith) refl)

pub ring_of : Bounded → Waiting
ring_of b = Quot.mk (fill b.0, fill-IsValid b)

-- Valid rings, up to which numbers wait in which order, are the same as lists of at most as many
-- numbers as there can be processes: each ring is one that holds its list from the first place on, each
-- list is the list of such a ring; and on these classes of rings enqueue_proc and dequeue_proc are
-- functions, which do what a bounded queue does.
pub waiting_list-ring_of :
    ((w : Waiting) → ring_of (waiting_list w) ≡ w)
    × ((b : Bounded) → waiting_list (ring_of b) ≡ b)
    × ((w : Waiting) (x : ℤ)
        → let (s, w') = enqueue x w in (s, (waiting_list w').0) ≡ fifo_enqueue (waiting_list w).0 x)
    × ((w : Waiting)
        → let (x, w') = dequeue w in (x, (waiting_list w').0) ≡ fifo_dequeue (waiting_list w).0)
unfolding waiting_list ring_of enqueue dequeue contents_bounded
waiting_list-ring_of = (
  Quot.ind (λ w. Quot-set _ _) (λ r. Quot.sound (contents-fill (contents_bounded r))),
  λ b. Bounded-ext _ _ (contents-fill b),
  Quot.ind (λ w. hlevel) (λ r x. enqueue_proc_refines x r.1),
  Quot.ind (λ w. hlevel) (λ r. dequeue_proc_refines r.1),
)
