-- ===== src/Sched/Fifo.antt =====
-- The ring of thread.c against a first-in first-out queue of at most `max_procs` numbers.
use fors_kernel.Prelude.{
  ℕ, zero, suc, ◌+◌, ◌-◌, ◌%◌, ◌≤◌, ◌<◌, ◌≡◌, refl, ap, ◌≢◌, List, [], ◌∷◌, ◌++◌, arith, ◌==◌,
  if◌then◌else◌, length, get_or, set, length-set, get_or-set_self, get_or-set_ne,
}
use mathlib.Core.Path.{ap₂}
use fors_kernel.Prelude.Int.{ℤ, pos, negsuc}
use fors_kernel.Sched.{Queue, max_procs, enqueue_proc, dequeue_proc}

-- The representation invariant of the ring.
pub record IsValid (q : Queue) : Type 0 where
  pub storage : length q.sched_queue ≡ max_procs
  pub head_in : q.sq_head < max_procs
  pub space_in : q.sq_space_left ≤ max_procs
  pub tail_at : q.sq_tail ≡ (q.sq_head + (max_procs - q.sq_space_left)) % max_procs

-- The `n` numbers from index `h` on, going round at the end.
abbrev pub window : List ℤ → ℕ → ℕ → List ℤ
window buf h zero = []
window buf h (suc n) = get_or buf h (negsuc 0) ∷ window buf ((h + 1) % max_procs) n

-- The numbers that wait in the ring, the next to run first.
abbrev pub contents : Queue → List ℤ
contents q = window q.sched_queue q.sq_head (max_procs - q.sq_space_left)

pub length-window : (buf : List ℤ) (h n : ℕ) → length (window buf h n) ≡ n
length-window buf h zero = refl
length-window buf h (suc n) = ap suc (length-window buf ((h + 1) % max_procs) n)

window_of_ne_zero :
    (buf : List ℤ) (h n : ℕ)
    → n ≢ 0
    → window buf h n ≡ get_or buf h (negsuc 0) ∷ window buf ((h + 1) % max_procs) (n - 1)
window_of_ne_zero buf h zero p = absurd (p refl)
window_of_ne_zero buf h (suc n) p = ap (λ k. window buf h (suc k)) (omega arith)

-- A write just behind a window makes it longer by that number.
window-set :
    (buf : List ℤ) (x : ℤ) (n h i : ℕ)
    → length buf ≡ max_procs
    → h < max_procs
    → n < max_procs
    → i ≡ (h + n) % max_procs
    → window (set buf i x) h (suc n) ≡ window buf h n ++ (x ∷ [])
window-set buf x zero h i hs hh hn e =
    let e' : i ≡ h = omega arith in
    rw e' (ap (λ y. y ∷ []) (get_or-set_self buf h x (negsuc 0) (omega arith)))
window-set buf x (suc n) h i hs hh hn e =
    ap₂ ◌∷◌ (get_or-set_ne buf x (negsuc 0) (omega arith))
      (window-set buf x n ((h + 1) % max_procs) i hs (omega arith) (omega arith) (omega arith))

-- What a bounded queue does.
unfoldable pub fifo_enqueue : List ℤ → ℤ → ℤ × List ℤ
fifo_enqueue xs x = if length xs == max_procs then (negsuc 0, xs) else (pos 0, xs ++ (x ∷ []))

unfoldable pub fifo_dequeue : List ℤ → ℤ × List ℤ
fifo_dequeue [] = (negsuc 0, [])
fifo_dequeue (x ∷ xs) = (x, xs)

-- `enqueue_proc` keeps the ring's invariant.
pub enqueue_proc-IsValid : {q : Queue} (x : ℤ) → IsValid q → IsValid (enqueue_proc q x).1
unfolding enqueue_proc
enqueue_proc-IsValid {q} x v = ground (arith, length-set q.sched_queue q.sq_tail x)

-- `dequeue_proc` keeps the ring's invariant.
pub dequeue_proc-IsValid : {q : Queue} → IsValid q → IsValid (dequeue_proc q).1
unfolding dequeue_proc
dequeue_proc-IsValid v = ground arith

-- On a valid ring `enqueue_proc` returns what the bounded queue returns, and the ring then holds
-- the bounded queue's numbers.
pub enqueue_proc_refines :
    {q : Queue} (x : ℤ)
    → IsValid q
    → let (s, q') = enqueue_proc q x in (s, contents q') ≡ fifo_enqueue (contents q) x
unfolding enqueue_proc fifo_enqueue
enqueue_proc_refines {q} x v = ground (
  arith,
  length-window q.sched_queue q.sq_head (max_procs - q.sq_space_left),
  window-set q.sched_queue x (max_procs - q.sq_space_left) q.sq_head q.sq_tail,
)

-- On a valid ring `dequeue_proc` returns the number that has waited longest, or -1 where none
-- waits, and the ring then holds the rest.
pub dequeue_proc_refines :
    {q : Queue}
    → IsValid q
    → let (x, q') = dequeue_proc q in (x, contents q') ≡ fifo_dequeue (contents q)
unfolding dequeue_proc fifo_dequeue
dequeue_proc_refines {q} v = ground (
  arith,
  window_of_ne_zero q.sched_queue q.sq_head (max_procs - q.sq_space_left),
  length-window q.sched_queue q.sq_head (max_procs - q.sq_space_left),
)
