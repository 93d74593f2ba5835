-- ===== src/Tests/Serial.antt =====
-- A serial port whose device is always ready.
use fors_kernel.Prelude.{ℕ, ◌≡◌, refl, List, [], ◌∷◌, ◌++◌, ok}
use fors_kernel.Ports.{Bus}
use fors_kernel.Uart.{UartComPort, com_sends}
use fors_kernel.Uart.Sending.{Transmits, com_sends_lem}

-- The device keeps the bytes written to any of its ports.
abbrev line_bus : Bus (List ℕ)
line_bus = record {
  inb = λ d port. (0x60, d);
  inw = λ d port. (0, d);
  outb = λ d port v. d ++ (v ∷ []);
  outw = λ d port v. d;
}

abbrev line_port : UartComPort
line_port = record { io_port_base = 0x3f8; status = 0 }

line_bus-Transmits : Transmits line_bus line_port (λ d. d)
line_bus-Transmits = record { ready = λ d. refl; polled = λ d. refl; written = λ d c. refl }

com_sends_lem_example :
    (d' : List ℕ) × (com_sends line_bus 1 line_port (b'o' ∷ b'k' ∷ 0 ∷ []) [] ≡ ok d')
    × (d' ≡ b'o' ∷ b'k' ∷ [])
com_sends_lem_example =
    com_sends_lem line_bus line_port (λ d. d) line_bus-Transmits refl 0 (b'o' ∷ b'k' ∷ []) [] []
      (λ e. cc, (λ e. cc, tt))
