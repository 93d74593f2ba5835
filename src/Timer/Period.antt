-- ===== src/Timer/Period.antt =====
-- How often `timer_tick` of timer.c calls each callback.
use fors_kernel.Prelude.{
  ℕ, zero, suc, ◌+◌, ◌*◌, ◌/◌, ◌%◌, ◌^◌, ◌<◌, ◌≡◌, refl, ◌≢◌, false, List, [], ◌∷◌, ◌++◌, ◌==◌,
  if◌then◌else◌, arith, take, Run, ok, ◌>>=◌,
}
use native.Mathlib.Nat.{div-eq_of_lt-le, div-add-mod', mod-lt}
use native.Mathlib.Decide.{ℕ_discrete}
use fors_kernel.Timer.{TimerHandle, Timer, call_due, timer_tick}

div_suc : (t n : ℕ) → n ≢ 0 → suc t / n ≡ (if suc t % n == 0 then 1 else 0) + t / n
div_suc t n ne =
    let q = t / n in
    let split : q * n + t % n ≡ t = div-add-mod' t n in
    let small : t % n < n = mod-lt t {m = n} (omega arith) in
    let split' : suc t / n * n + suc t % n ≡ suc t = div-add-mod' (suc t) n in
    let next : (q + 1) * n ≡ q * n + n = omega arith in
    let next' : (suc q + 1) * n ≡ q * n + n + n = omega arith in
    elim (ℕ_discrete (suc (t % n)) n) [
      | yes e ↦
          let d : suc t / n ≡ suc q = div-eq_of_lt-le n (omega arith) (omega arith) in
          let m : suc t % n ≡ 0 = let s = rw d at split' in omega arith in ground (arith, d, m)
      | no e ↦
          let d : suc t / n ≡ q = div-eq_of_lt-le n (omega arith) (omega arith) in
          let m : suc t % n ≢ 0 = let s = rw d at split' in omega arith in ground (arith, d, m)
    ]

-- No handle has a period of zero.
abbrev pub ArePeriodic : List TimerHandle → Type 0
ArePeriodic [] = Unit
ArePeriodic (h ∷ hs) = (h.n ≢ 0) × ArePeriodic hs

-- How often `c` is in the list.
abbrev pub count : ℕ → List ℕ → ℕ
count c [] = 0
count c (x ∷ xs) = (if x == c then 1 else 0) + count c xs

-- How often the handles have called `c` after `t` ticks: each once in `n` ticks.
abbrev pub calls_by : ℕ → ℕ → List TimerHandle → ℕ
calls_by c t [] = 0
calls_by c t (h ∷ hs) = (if h.cbk == c then t / h.n else 0) + calls_by c t hs

call_due_lem :
    (t : ℕ) (hs : List TimerHandle)
    → ArePeriodic hs
    → (called : List ℕ) × (call_due (suc t) hs ≡ ok called)
      × ((c : ℕ) → count c called + calls_by c t hs ≡ calls_by c (suc t) hs)
unfolding call_due
call_due_lem t [] ps = ([], refl, λ c. refl)
call_due_lem t (h ∷ hs) ps =
    let (called, e, f) = call_due_lem t hs ps.1 in
    let nz : (h.n == 0) ≡ false = ground (arith, ps.0) in
    (
      if suc t % h.n == 0 then h.cbk ∷ called else called,
      rw (nz, e),
      λ c. ground (arith, f c, div_suc t h.n ps.0),
    )

count-append : (c : ℕ) (xs ys : List ℕ) → count c (xs ++ ys) ≡ count c xs + count c ys
count-append c [] ys = omega arith
count-append c (x ∷ xs) ys = omega (arith, count-append c xs ys)

-- `k` ticks in a row, with all that they call.
pub tick_times : ℕ → Timer → Run (List ℕ × Timer)
tick_times zero t = ok ([], t)
tick_times (suc k) t = do
  (called, t) ← timer_tick t
  (later, t) ← tick_times k t
  ok (called ++ later, t)

tick_times-suc :
    (k : ℕ) (t : Timer) (called later : List ℕ) (t' : Timer)
    → (t.ticks + 1) % 2 ^ 64 ≡ suc t.ticks
    → call_due (suc t.ticks) (take t.next_handle_ind t.handles) ≡ ok called
    → tick_times k (record t { ticks = suc t.ticks }) ≡ ok (later, t')
    → tick_times (suc k) t ≡ ok (called ++ later, t')
unfolding tick_times timer_tick
tick_times-suc k t called later t' w e e' = rw (w, e, e')

-- Where no registered handle has a period of zero, `k` ticks succeed and change the tick count
-- alone, and from tick `s` to tick `s + k` each callback is called as often as the periods of its
-- handles divide a tick on the way, while the count does not wrap round.
pub tick_times_lem :
    (k : ℕ) (t : Timer)
    → ArePeriodic (take t.next_handle_ind t.handles)
    → t.ticks + k < 2 ^ 64
    → let hs = take t.next_handle_ind t.handles in
      (called : List ℕ) × (tick_times k t ≡ ok (called, record t { ticks = t.ticks + k }))
      × ((c : ℕ) → count c called + calls_by c t.ticks hs ≡ calls_by c (t.ticks + k) hs)
unfolding tick_times
tick_times_lem zero t ps lt =
    let e : t.ticks + 0 ≡ t.ticks = omega arith in rw e ([], refl, λ c. omega arith)
tick_times_lem (suc k) t ps lt =
    let w : (t.ticks + 1) % 2 ^ 64 ≡ suc t.ticks = omega arith in
    let (called, e, f) = call_due_lem t.ticks (take t.next_handle_ind t.handles) ps in
    let (later, e', f') = tick_times_lem k (record t { ticks = suc t.ticks }) ps (omega arith) in
    let s : t.ticks + suc k ≡ suc t.ticks + k = omega arith in
    (
      called ++ later,
      rw s (tick_times-suc k t called later _ w e e'),
      λ c. rw s (omega (arith, f c, f' c, count-append c called later)),
    )
