-- ===== src/Uart/Sending.antt =====
-- What `com_sends` of uart.c sends.
use fors_kernel.Prelude.{
  ℕ, suc, ◌≡◌, refl, ap, sym, ◌∙◌, ◌/◌, ◌%◌, ◌≢◌, false, List, [], ◌∷◌, ◌++◌, ◌==◌, arith, ok,
}
use mathlib.Core.List.{append-nil, append_assoc}
use fors_kernel.Ports.{Bus}
use fors_kernel.Uart.{UartComPort, port_register, status_ready, wait_send, com_send, com_sends}

abbrev pub HasNoNul : List ℕ → Type 0
HasNoNul [] = Unit
HasNoNul (c ∷ cs) = (c ≢ 0) × HasNoNul cs

-- A device that is always ready to send, and that keeps what was written to its data port.
pub record Transmits {D : Type 0} (bus : Bus D) (port : UartComPort) (sent : D → List ℕ)
    : Type 0 where
  pub ready : (d : D) → (bus.inb d (port_register port 5)).0 / 32 % 2 ≡ 1
  pub polled : (d : D) → sent (bus.inb d (port_register port 5)).1 ≡ sent d
  pub written : (d : D) (c : ℕ) → sent (bus.outb d (port_register port 0) c) ≡ sent d ++ (c ∷ [])

module _ {D : Type 0} (bus : Bus D) (port : UartComPort) (sent : D → List ℕ)
    (t : Transmits bus port sent) (r : port.status ≡ status_ready) where
  com_send_lem :
      (rounds c : ℕ) (d : D)
      → (d' : D) × (com_send bus (suc rounds) port c d ≡ ok d') × (sent d' ≡ sent d ++ (c ∷ []))
  unfolding com_send wait_send
  com_send_lem rounds c d =
      let d1 = (bus.inb d (port_register port 5)).1 in
      (
        bus.outb d1 (port_register port 0) c,
        rw (r, t.ready d) refl,
        t.written d1 c ∙ ap (λ s. s ++ (c ∷ [])) (t.polled d),
      )

  -- Over a device that is always ready to send, `com_sends` on a port that works sends the bytes of
  -- the text in order, up to its zero byte, and ends.
  pub com_sends_lem :
      (rounds : ℕ) (text rest : List ℕ) (d : D)
      → HasNoNul text
      → (d' : D) × (com_sends bus (suc rounds) port (text ++ (0 ∷ rest)) d ≡ ok d')
        × (sent d' ≡ sent d ++ text)
  unfolding com_sends
  com_sends_lem rounds [] rest d h = (d, refl, sym (append-nil (sent d)))
  com_sends_lem rounds (c ∷ text) rest d (nz, h) =
      let z : (c == 0) ≡ false = ground arith in
      let (d1, e1, s1) = com_send_lem rounds c d in
      let (d2, e2, s2) = com_sends_lem rounds text rest d1 h in
      (d2, rw (z, e1) e2, s2 ∙ ap (λ s. s ++ text) s1 ∙ append_assoc (sent d) (c ∷ []) text)
