-- ===== src/Sched.antt =====
-- The scheduler's queue, kernel/src/generic/proc/thread.c: a ring of `MAX_PROCS` process numbers
-- with a head, a tail and the space that is left.
pub mod Abstract
pub mod Fifo
pub mod RoundRobin
use fors_kernel.Prelude.{ℕ, ◌+◌, ◌-◌, ◌%◌, Bool, List, ◌==◌, if◌then◌else◌, get_or, set}
use fors_kernel.Prelude.Int.{ℤ, pos, negsuc}

abbrev pub max_procs : ℕ
max_procs = 32

-- `sched_queue`, `sq_head`, `sq_tail` and `sq_space_left`.
pub record Queue : Type 0 where
  pub sched_queue : List ℤ
  pub sq_head : ℕ
  pub sq_tail : ℕ
  pub sq_space_left : ℕ

pub sq_full : Queue → Bool
sq_full q = q.sq_space_left == 0

pub sq_empty : Queue → Bool
sq_empty q = q.sq_space_left == max_procs

-- The status (0 or -1) and the new queue.
pub enqueue_proc : Queue → ℤ → ℤ × Queue
unfolding sq_full
enqueue_proc q tid = if sq_full q then (negsuc 0, q) else (
  pos 0,
  record q {
    sched_queue = set q.sched_queue q.sq_tail tid;
    sq_tail = (q.sq_tail + 1) % max_procs;
    sq_space_left = q.sq_space_left - 1;
  },
)

-- The number taken (-1 from an empty queue) and the new queue.
pub dequeue_proc : Queue → ℤ × Queue
unfolding sq_empty
dequeue_proc q = if sq_empty q then (negsuc 0, q) else (
  get_or q.sched_queue q.sq_head (negsuc 0),
  record q { sq_head = (q.sq_head + 1) % max_procs; sq_space_left = q.sq_space_left + 1 },
)

-- The status of the second call is dropped, as the code does.
pub schedule : Queue → ℤ × Queue
unfolding enqueue_proc dequeue_proc
schedule q = let (to_run, q') = dequeue_proc q in (to_run, (enqueue_proc q' to_run).1)
