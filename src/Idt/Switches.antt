-- ===== src/Idt/Switches.antt =====
-- What `interrupt_dispatch` of idt.c does on a tick of the timer, with `schedule_set_current_proc` of
-- process.c called on each tick.
use fors_kernel.Prelude.{
  set_at, ℕ, ◌+◌, ◌%◌, ◌^◌, ◌<◌, ◌≡◌, refl, sym, ◌∙◌, ◌≢◌, true, false, Option, some, List, [], ◌∷◌,
  ◌++◌, ltb, ◌==◌, arith, get_elem?, set, take, ok, get_elem?-set_ne,
}
use fors_kernel.Prelude.Int.{ℤ, pos, negsuc}
use fors_kernel.Str.{eq_int}
use fors_kernel.Vfs.{FilesystemType}
use fors_kernel.Sched.{schedule}
use fors_kernel.Sched.Fifo.{IsValid, contents}
use fors_kernel.Sched.RoundRobin.{schedule-IsValid, schedule-cons}
use fors_kernel.Timer.{timer_tick, call_due}
use fors_kernel.Ports.{Bus}
use fors_kernel.Pic.{pic_eoi}
use fors_kernel.Procs.{schedule_set_current_proc}
use fors_kernel.Idt.{Ctx, Machine, upper_half, run_callbacks, pit_tick, interrupt_dispatch}

module _ {D : Type 0} (bus : Bus D) (sched : ℕ) where
  -- The scheduler is the one callback, called on each tick.
  abbrev pub Schedules : Machine D → Type 0
  Schedules m = take m.timer.next_handle_ind m.timer.handles ≡ record { cbk = sched; n = 1 } ∷ []

  -- The state where process `x` goes on and process `p` has the registers `ctx`.
  abbrev pub switched : Ctx → ℕ → ℕ → Machine D → Machine D
  switched ctx p x m = record m {
    kernel = record m.kernel { current_proc = pos x };
    ctxs = set m.ctxs p ctx;
    queue = (schedule m.queue).1;
    timer = record m.timer { ticks = (m.timer.ticks + 1) % 2 ^ 64 };
    device = pic_eoi bus m.device 0;
  }

  tick-sched :
      (m : Machine D)
      → Schedules m
      → timer_tick m.timer
        ≡ ok (sched ∷ [], record m.timer { ticks = (m.timer.ticks + 1) % 2 ^ 64 })
  unfolding timer_tick call_due
  tick-sched m every =
      let due : ((m.timer.ticks + 1) % 2 ^ 64 % 1 == 0) ≡ true = ground arith in
      rw (timer_tick, every, call_due, due) refl

  callbacks-sched :
      (m : Machine D)
      → run_callbacks bus sched (sched ∷ []) m
        ≡ ok (record m {
          kernel = record m.kernel { current_proc = (schedule m.queue).0 };
          queue = (schedule m.queue).1;
        })
  unfolding run_callbacks schedule_set_current_proc
  callbacks-sched m =
      let same : (sched == sched) ≡ true = ground arith in rw (run_callbacks, same) refl

  pub pit_tick-switched :
      (ctx next : Ctx) (p x : ℕ) (m : Machine D)
      → Schedules m
      → m.kernel.current_proc ≡ pos p
      → (schedule m.queue).0 ≡ pos x
      → p ≢ x
      → ctx.rip < upper_half
      → get_elem? m.ctxs x ≡ some next
      → pit_tick bus sched ctx m ≡ ok (next, switched ctx p x m)
  unfolding pit_tick
  pit_tick-switched ctx next p x m every runs turn ne user at =
      let other : eq_int (pos p) (pos x) ≡ false = ground arith in
      let low : ltb ctx.rip upper_half ≡ true = ground arith in
      let found : get_elem? (set m.ctxs p ctx) x ≡ some next =
        get_elem?-set_ne m.ctxs ctx ne ∙ at in
      rw (pit_tick, tick-sched m every, callbacks-sched, turn, runs, other, low, found) refl

  -- A tick that finds no process running, or the one that is to run next.
  pub pit_tick-idle :
      (ctx next : Ctx) (x : ℕ) (m : Machine D)
      → Schedules m
      → m.kernel.current_proc ≡ negsuc 0
      → (schedule m.queue).0 ≡ pos x
      → get_elem? m.ctxs x ≡ some next
      → pit_tick bus sched ctx m ≡ ok (next, record (switched ctx x x m) { ctxs = m.ctxs })
  unfolding pit_tick
  pit_tick-idle ctx next x m every runs turn at =
      rw (pit_tick, tick-sched m every, callbacks-sched, turn, runs, at) refl

  pub pit_tick-same :
      (ctx : Ctx) (x : ℕ) (m : Machine D)
      → Schedules m
      → m.kernel.current_proc ≡ pos x
      → (schedule m.queue).0 ≡ pos x
      → pit_tick bus sched ctx m ≡ ok (ctx, record (switched ctx x x m) { ctxs = m.ctxs })
  unfolding pit_tick
  pit_tick-same ctx x m every runs turn =
      let same : (x == x) ≡ true = ground arith in
      rw (pit_tick, tick-sched m every, callbacks-sched, turn, runs, same) refl

pub dispatch-tick :
    {D : Type 0} (bus : Bus D) (sched : ℕ) (types : ℕ → FilesystemType)
    (kalloc : ℕ → Option (List ℕ)) (ctx : Ctx) (m : Machine D)
    → ctx.vector ≡ 0x20
    → interrupt_dispatch bus sched types kalloc ctx m ≡ pit_tick bus sched ctx m
unfolding interrupt_dispatch
dispatch-tick bus sched types kalloc ctx m e =
    let not_pf : (ctx.vector == 14) ≡ false = ground arith in
    let not_gp : (ctx.vector == 13) ≡ false = ground arith in
    let not_de : (ctx.vector == 0) ≡ false = ground arith in
    let tick : (ctx.vector == 0x20) ≡ true = ground arith in
    rw (interrupt_dispatch, not_pf, not_gp, not_de, tick) refl

-- With the scheduler as the one callback, called on each tick, and a valid ring that holds `x` and
-- then `p`, where both are processes of the array and differ: a tick while `p` runs in the lower half
-- goes on with the registers of `x`, and a tick while `x` then runs there goes on with exactly the
-- registers that `p` was interrupted with, while `x` has its own saved.
pub interrupt_dispatch_resumes :
    {D : Type 0} (bus : Bus D) (sched : ℕ) (types : ℕ → FilesystemType)
    (kalloc : ℕ → Option (List ℕ)) (ctx old next ctx' : Ctx) (p x : ℕ) (xs : List ℤ) (m : Machine D)
    → Schedules bus sched m
    → m.kernel.current_proc ≡ pos p
    → IsValid m.queue
    → contents m.queue ≡ pos x ∷ pos p ∷ xs
    → p ≢ x
    → get_elem? m.ctxs p ≡ some old
    → get_elem? m.ctxs x ≡ some next
    → ctx.vector ≡ 0x20
    → ctx'.vector ≡ 0x20
    → ctx.rip < upper_half
    → ctx'.rip < upper_half
    → (m1 m2 : Machine D) × (interrupt_dispatch bus sched types kalloc ctx m ≡ ok (next, m1))
      × (m1.kernel.current_proc ≡ pos x)
      × (interrupt_dispatch bus sched types kalloc ctx' m1 ≡ ok (ctx, m2))
      × (m2.kernel.current_proc ≡ pos p)
      × (get_elem? m2.ctxs x ≡ some ctx')
interrupt_dispatch_resumes bus sched types kalloc ctx old next ctx' p x xs m every runs v e ne at_p
      at_x is_tick is_tick' user user' =
    let (turn, rest) = schedule-cons (pos x) (pos p ∷ xs) v e in
    let m1 = switched bus sched ctx p x m in
    let (turn', _) = schedule-cons (pos p) (xs ++ (pos x ∷ [])) (schedule-IsValid v) rest in
    let saved : get_elem? m1.ctxs p ≡ some ctx = set_at m.ctxs p old ctx at_p in
    let kept : get_elem? m1.ctxs x ≡ some next = get_elem?-set_ne m.ctxs ctx ne ∙ at_x in
    (
      m1,
      switched bus sched ctx' x p m1,
      dispatch-tick bus sched types kalloc ctx m is_tick
          ∙ pit_tick-switched bus sched ctx next p x m every runs turn ne user at_x,
      refl,
      dispatch-tick bus sched types kalloc ctx' m1 is_tick'
          ∙ pit_tick-switched bus sched ctx' ctx x p m1 every refl turn' (λ q. ne (sym q)) user'
              saved,
      refl,
      set_at m1.ctxs x next ctx' kept,
    )
