-- ===== src/Tests/Queue.antt =====
-- The scheduler's ring at concrete contents, kernel/src/generic/proc/thread.c.
use fors_kernel.Prelude.{◌≡◌, refl, [], ◌∷◌, replicate, set, arith}
use fors_kernel.Prelude.Int.{pos}
use fors_kernel.Sched.{Queue, max_procs, enqueue_proc, dequeue_proc}
use fors_kernel.Sched.Fifo.{
  IsValid, contents, fifo_enqueue, fifo_dequeue, enqueue_proc_refines, dequeue_proc_refines,
}
use fors_kernel.Sched.RoundRobin.{schedule_times, schedule_times-append}

-- The ring as the kernel starts.
abbrev empty_queue : Queue
empty_queue = record {
  sched_queue = replicate max_procs (pos 0);
  sq_head = 0;
  sq_tail = 0;
  sq_space_left = max_procs;
}

-- Processes 3, 5 and 7, round the end of the array.
abbrev three_procs : Queue
three_procs = record {
  sched_queue = set (set (set (replicate max_procs (pos 0)) 30 (pos 3)) 31 (pos 5)) 0 (pos 7);
  sq_head = 30;
  sq_tail = 1;
  sq_space_left = 29;
}

empty_queue-IsValid : IsValid empty_queue
empty_queue-IsValid = record {
  storage = refl;
  head_in = omega arith;
  space_in = omega arith;
  tail_at = refl;
}

three_procs-IsValid : IsValid three_procs
three_procs-IsValid = record {
  storage = refl;
  head_in = omega arith;
  space_in = omega arith;
  tail_at = refl;
}

enqueue_proc_refines_example :
    let (s, q') = enqueue_proc three_procs (pos 9) in
    (s, contents q') ≡ fifo_enqueue (contents three_procs) (pos 9)
enqueue_proc_refines_example = enqueue_proc_refines (pos 9) three_procs-IsValid

dequeue_proc_refines_example :
    let (x, q') = dequeue_proc three_procs in (x, contents q') ≡ fifo_dequeue (contents three_procs)
dequeue_proc_refines_example = dequeue_proc_refines three_procs-IsValid

schedule_times-append_example :
    let (rs, q') = schedule_times 2 three_procs in
    (rs ≡ pos 3 ∷ pos 5 ∷ []) × (contents q' ≡ pos 7 ∷ pos 3 ∷ pos 5 ∷ [])
schedule_times-append_example =
    schedule_times-append (pos 3 ∷ pos 5 ∷ []) (pos 7 ∷ []) three_procs-IsValid refl
