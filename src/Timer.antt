-- ===== src/Timer.antt =====
-- The timer, kernel/src/generic/timer.c: callbacks that are called every so many ticks. What a tick
-- calls is a list of callbacks, in order; a callback is a number.
pub mod Period
use fors_kernel.Prelude.{
  ℕ, zero, suc, ◌+◌, ◌%◌, ◌^◌, List, [], ◌∷◌, ◌==◌, leb, if◌then◌else◌, take, set, Run, ok, fault,
  ◌>>=◌,
}
use fors_kernel.Prelude.Int.{ℤ, pos, negsuc}

abbrev pub max_timer_handles : ℕ
max_timer_handles = 8

-- `timer_handle`
pub record TimerHandle : Type 0 where
  pub cbk : ℕ
  pub n : ℕ

-- `ticks`, `handles` and `next_handle_ind`.
pub record Timer : Type 0 where
  pub ticks : ℕ
  pub handles : List TimerHandle
  pub next_handle_ind : ℕ

-- The handle's number, or -1, and the timer.
unfoldable pub add_timer_handle : Timer → ℕ → ℕ → ℤ × Timer
add_timer_handle t cbk n = if leb max_timer_handles t.next_handle_ind then (negsuc 0, t) else (
  pos t.next_handle_ind,
  record t {
    handles = set t.handles t.next_handle_ind (record { cbk = cbk; n = n });
    next_handle_ind = t.next_handle_ind + 1;
  },
)

-- The loop of `timer_tick` over the handles; a remainder by zero is a fault.
unfoldable pub call_due : ℕ → List TimerHandle → Run (List ℕ)
call_due ticks [] = ok []
call_due ticks (h ∷ hs) =
    if h.n == 0
    then fault
    else (do called ← call_due ticks hs; ok (if ticks % h.n == 0 then h.cbk ∷ called else called))

unfoldable pub timer_tick : Timer → Run (List ℕ × Timer)
unfolding call_due
timer_tick t = do
  let ticks = (t.ticks + 1) % 2 ^ 64
  called ← call_due ticks (take t.next_handle_ind t.handles)
  ok (called, record t { ticks = ticks })
