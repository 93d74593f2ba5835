-- ===== src/Sched/RoundRobin.antt =====
-- Repeated calls of `schedule` of thread.c.
use fors_kernel.Prelude.{ℕ, zero, suc, ◌-◌, ◌≡◌, refl, ◌∙◌, List, [], ◌∷◌, ◌++◌, arith, length}
use mathlib.Core.List.{append_assoc, append-nil}
use fors_kernel.Prelude.Int.{ℤ, negsuc}
use fors_kernel.Sched.{Queue, max_procs, enqueue_proc, dequeue_proc, schedule}
use fors_kernel.Sched.Fifo.{
  IsValid, contents, length-window, fifo_enqueue, fifo_dequeue, enqueue_proc-IsValid,
  dequeue_proc-IsValid, enqueue_proc_refines, dequeue_proc_refines,
}

-- `schedule` keeps the ring's invariant.
pub schedule-IsValid : {q : Queue} → IsValid q → IsValid (schedule q).1
unfolding schedule
schedule-IsValid {q} v = enqueue_proc-IsValid (dequeue_proc q).0 (dequeue_proc-IsValid v)

-- `enqueue_proc`, `dequeue_proc` and `schedule` keep the ring's invariant.
pub ring_steps-IsValid :
    {q : Queue} (x : ℤ)
    → IsValid q
    → IsValid (enqueue_proc q x).1 × IsValid (dequeue_proc q).1 × IsValid (schedule q).1
ring_steps-IsValid x v = (enqueue_proc-IsValid x v, dequeue_proc-IsValid v, schedule-IsValid v)

length-contents : {q : Queue} → IsValid q → length (contents q) ≡ max_procs - q.sq_space_left
length-contents {q} v = length-window q.sched_queue q.sq_head (max_procs - q.sq_space_left)

-- `schedule` on a ring that holds `x` and then `xs` returns `x` and leaves `xs` and then `x`.
pub schedule-cons :
    {q : Queue} (x : ℤ) (xs : List ℤ)
    → IsValid q
    → contents q ≡ x ∷ xs
    → let (r, q') = schedule q in (r ≡ x) × (contents q' ≡ xs ++ (x ∷ []))
unfolding schedule fifo_enqueue fifo_dequeue
schedule-cons {q} x xs v e = ground (
  arith,
  dequeue_proc_refines v,
  enqueue_proc_refines (dequeue_proc q).0 (dequeue_proc-IsValid v),
  length-contents v,
)

-- `schedule` on a valid ring that is empty returns -1 and leaves -1 in the ring, as if it were a process.
pub schedule-nil :
    {q : Queue}
    → IsValid q
    → contents q ≡ []
    → let (r, q') = schedule q in (r ≡ negsuc 0) × (contents q' ≡ negsuc 0 ∷ [])
unfolding schedule fifo_enqueue fifo_dequeue
schedule-nil {q} v e = ground (
  arith,
  dequeue_proc_refines v,
  enqueue_proc_refines (dequeue_proc q).0 (dequeue_proc-IsValid v),
)

-- `n` calls of `schedule` in a row, with what each returns.
pub schedule_times : ℕ → Queue → List ℤ × Queue
schedule_times zero q = ([], q)
schedule_times (suc n) q =
    let (r, q') = schedule q in let (rs, q'') = schedule_times n q' in (r ∷ rs, q'')

-- If a valid ring holds `xs` and then `ys`, as many calls of `schedule` as `xs` is long return `xs` in
-- order and leave `ys` and then `xs`; with no `ys` this is one round, which gives every process
-- that waits one turn and leaves the ring's order as it was.
pub schedule_times-append :
    (xs ys : List ℤ) {q : Queue}
    → IsValid q
    → contents q ≡ xs ++ ys
    → let (rs, q') = schedule_times (length xs) q in (rs ≡ xs) × (contents q' ≡ ys ++ xs)
unfolding schedule_times
schedule_times-append [] ys v e = (refl, e ∙ simp append-nil)
schedule_times-append (x ∷ xs) ys {q} v e =
    let head = schedule-cons x (xs ++ ys) v e in
    let rest =
      schedule_times-append xs (ys ++ (x ∷ [])) (schedule-IsValid v)
        (head.1 ∙ append_assoc xs ys (x ∷ [])) in
    (ground (arith, head, rest), rest.1 ∙ append_assoc ys (x ∷ []) xs)
