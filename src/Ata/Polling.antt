-- ===== src/Ata/Polling.antt =====
-- How often the waiting loops of ata.c read the status, and how they end.
use fors_kernel.Prelude.{ℕ, zero, suc, ◌<◌, ◌≡◌, inl, inr, true, false, Bool-cases, arith}
use fors_kernel.Ports.{Bus}
use fors_kernel.Ata.{
  AtaDevice, Reply, failed, done, err_timeout, is_busy, register, max_polls, ready_loop,
  ata_wait_ready,
}

module _ {D : Type 0} (bus : Bus D) (port : ℕ) where
  -- The state after `k` reads of the port, and what the next one gives.
  abbrev pub polled : ℕ → D → D
  polled zero d = d
  polled (suc k) d = polled k (bus.inb d port).1

  abbrev pub status_after : ℕ → D → ℕ
  status_after k d = (bus.inb (polled k d) port).0

  -- A loop that reads the status until it is not busy, `left` times at most.
  pub data Waited (left : ℕ) (d : D) : Reply D Unit → Type 0 where
    ready :
        (k : ℕ)
        → k < left
        → ((i : ℕ) → i < k → is_busy (status_after i d) ≡ true)
        → is_busy (status_after k d) ≡ false
        → Waited left d (done tt (polled (suc k) d))
    timed_out :
        ((i : ℕ) → i < left → is_busy (status_after i d) ≡ true)
        → Waited left d (failed err_timeout (polled left d))

  busy_before :
      (n : ℕ) (d : D)
      → is_busy (status_after 0 d) ≡ true
      → ((i : ℕ) → i < n → is_busy (status_after i (polled 1 d)) ≡ true)
      → (i : ℕ) → i < suc n
      → is_busy (status_after i d) ≡ true
  busy_before n d first later zero lt = first
  busy_before n d first later (suc i) lt = later i (omega arith)

  Waited-later :
      (left : ℕ) (d : D) (r : Reply D Unit)
      → is_busy (status_after 0 d) ≡ true
      → Waited left (polled 1 d) r
      → Waited (suc left) d r
  Waited-later left d _ busy (ready k lt before now) =
      ready (suc k) (omega arith) (busy_before k d busy before) now
  Waited-later left d _ busy (timed_out before) = timed_out (busy_before left d busy before)

  ready_loop-Waited : (left : ℕ) (d : D) → Waited left d (ready_loop bus left port d)
  unfolding ready_loop
  ready_loop-Waited zero d = timed_out (λ i li. absurd (omega arith))
  ready_loop-Waited (suc left) d = elim (Bool-cases (is_busy (status_after 0 d))) [
    | inl b ↦ rw b (Waited-later left d _ b (ready_loop-Waited left (polled 1 d)))
    | inr b ↦ rw b (ready 0 (omega arith) (λ i li. absurd (omega arith)) b)
  ]

-- Whatever the device answers, `ata_wait_ready` succeeds with the first status that is not busy
-- among the first million, after reading no more, and where all of them are busy it reads just
-- these and returns ATA_ERR_TIMEOUT.
pub ata_wait_ready-Waited :
    {D : Type 0} (bus : Bus D) (dev : AtaDevice) (d : D)
    → Waited bus (register dev 7) 1000000 d (ata_wait_ready bus dev d)
unfolding ata_wait_ready
ata_wait_ready-Waited bus dev d = ready_loop-Waited bus (register dev 7) max_polls d
