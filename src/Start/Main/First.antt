-- ===== src/Start/Main/First.antt =====
-- The end of `_start` of main.c, and the ticks of the timer after it, in idt.c.
use fors_kernel.Prelude.{ℕ, ◌≡◌, refl, ap, ◌∙◌, Option, some, List, [], ◌∷◌, take, get_elem?, ok}
use fors_kernel.Prelude.Int.{pos, negsuc}
use fors_kernel.Vfs.{FilesystemType}
use fors_kernel.Sched.Fifo.{
  IsValid, contents, fifo_enqueue, enqueue_proc-IsValid, enqueue_proc_refines,
}
use fors_kernel.Sched.RoundRobin.{schedule-IsValid, schedule-cons}
use fors_kernel.Timer.{TimerHandle, add_timer_handle}
use fors_kernel.Ports.{Bus}
use fors_kernel.Procs.{arch_start_running_procs}
use fors_kernel.Idt.{Ctx, Machine, interrupt_dispatch}
use fors_kernel.Idt.Switches.{Schedules, switched, pit_tick-idle, pit_tick-same, dispatch-tick}
use fors_kernel.Start.Main.{System, start_running}

module _ {D : Type 0} (bus : Bus D) (sched : ℕ) (s : System D) (tid : ℕ) where
  -- The process waits alone.
  queue_holds :
      IsValid s.queue
      → contents s.queue ≡ []
      → let q = (start_running bus sched s (pos tid)).queue in
        IsValid q × (contents q ≡ pos tid ∷ [])
  unfolding start_running fifo_enqueue
  queue_holds v e =
      let refined = enqueue_proc_refines (pos tid) v in
      (enqueue_proc-IsValid (pos tid) v, ap (λ r. r.1) refined ∙ rw e refl)

  -- The scheduler is the one callback.
  timer_holds :
      (h : TimerHandle) (hs : List TimerHandle)
      → s.timer.handles ≡ h ∷ hs
      → s.timer.next_handle_ind ≡ 0
      → let t = (start_running bus sched s (pos tid)).timer in
        take t.next_handle_ind t.handles ≡ record { cbk = sched; n = 1 } ∷ []
  unfolding start_running arch_start_running_procs add_timer_handle
  timer_holds h hs at none_yet = rw (at, none_yet) refl

-- Interrupts of the timer.
abbrev pub AreTicks : List Ctx → Type 0
AreTicks [] = Unit
AreTicks (ctx ∷ ctxs) = (ctx.vector ≡ 0x20) × AreTicks ctxs

module _ {E : Type 0} (bus : Bus E) (sched : ℕ) (types : ℕ → FilesystemType)
    (kalloc : ℕ → Option (List ℕ)) (tid : ℕ) where
  -- The process runs, and waits alone in the ring.
  abbrev RunsAlone : Machine E → Type 0
  RunsAlone m =
      Schedules bus sched m
      × (m.kernel.current_proc ≡ pos tid)
      × IsValid m.queue
      × (contents m.queue ≡ pos tid ∷ [])

  -- Ticks with these registers, one after the other, each go on with the registers that were
  -- interrupted, and the process runs on.
  abbrev pub GoesOn : List Ctx → Machine E → Type 0
  GoesOn [] m = Unit
  GoesOn (ctx ∷ ctxs) m =
      (m' : Machine E) × (interrupt_dispatch bus sched types kalloc ctx m ≡ ok (ctx, m'))
      × (m'.kernel.current_proc ≡ pos tid)
      × GoesOn ctxs m'

  ticks-GoesOn : (ctxs : List Ctx) (m : Machine E) → AreTicks ctxs → RunsAlone m → GoesOn ctxs m
  ticks-GoesOn [] m ticks alone = tt
  ticks-GoesOn (ctx ∷ ctxs) m (tick, ticks) (every, runs, valid, holds) =
      let (turn, rest) = schedule-cons (pos tid) [] valid holds in
      let m' = record (switched bus sched ctx tid tid m) { ctxs = m.ctxs } in
      (
        m',
        dispatch-tick bus sched types kalloc ctx m tick
            ∙ pit_tick-same bus sched ctx tid m every runs turn,
        refl,
        ticks-GoesOn ctxs m' ticks (every, refl, schedule-IsValid valid, rest),
      )

-- `start_running` is the end of `_start`: it makes the process `tid` wait and attaches the scheduler to
-- the timer. Where no process waited in a valid ring and the timer had no handle but room for one:
-- the first tick of the timer behind it, while no process runs, goes on with the registers that are
-- saved for `tid`, and each of the ticks after it, however many, with the registers that were
-- interrupted; `tid` runs from the first one on.
pub start_running-interrupt_dispatch :
    {D E : Type 0} (bus : Bus D) (sched : ℕ) (s : System D) (tid : ℕ) (h : TimerHandle)
    (hs : List TimerHandle) (bus' : Bus E) (types : ℕ → FilesystemType)
    (kalloc : ℕ → Option (List ℕ)) (m : Machine E) (ctx saved : Ctx) (ctxs : List Ctx)
    → IsValid s.queue
    → contents s.queue ≡ []
    → s.timer.handles ≡ h ∷ hs
    → s.timer.next_handle_ind ≡ 0
    → m.queue ≡ (start_running bus sched s (pos tid)).queue
    → m.timer ≡ (start_running bus sched s (pos tid)).timer
    → m.kernel.current_proc ≡ negsuc 0
    → get_elem? m.ctxs tid ≡ some saved
    → ctx.vector ≡ 0x20
    → AreTicks ctxs
    → (m' : Machine E) × (interrupt_dispatch bus' sched types kalloc ctx m ≡ ok (saved, m'))
      × (m'.kernel.current_proc ≡ pos tid)
      × GoesOn bus' sched types kalloc tid ctxs m'
start_running-interrupt_dispatch bus sched s tid h hs bus' types kalloc m ctx saved ctxs v e at
      none_yet same_queue same_timer idle at_tid tick ticks =
    let (valid, holds) = queue_holds bus sched s tid v e in
    let valid_m : IsValid m.queue = rw same_queue valid in
    let holds_m : contents m.queue ≡ pos tid ∷ [] = rw same_queue holds in
    let every : Schedules bus' sched m =
      rw same_timer (timer_holds bus sched s tid h hs at none_yet) in
    let (turn, rest) = schedule-cons (pos tid) [] valid_m holds_m in
    let m' = record (switched bus' sched ctx tid tid m) { ctxs = m.ctxs } in
    (
      m',
      dispatch-tick bus' sched types kalloc ctx m tick
          ∙ pit_tick-idle bus' sched ctx saved tid m every idle turn at_tid,
      refl,
      ticks-GoesOn bus' sched types kalloc tid ctxs m' ticks
          (every, refl, schedule-IsValid valid_m, rest),
    )
