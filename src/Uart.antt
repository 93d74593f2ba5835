-- ===== src/Uart.antt =====
-- The serial ports, kernel/src/arch/x64/uart/uart.c, over any bus.
pub mod Sending
use fors_kernel.Prelude.{
  ℕ, zero, suc, ◌+◌, ◌/◌, ◌%◌, ◌^◌, Bool, true, false, Option, none, some, List, [], ◌∷◌, ◌==◌,
  if◌then◌else◌, Run, ok, fault, out_of_fuel, ◌>>=◌,
}
use fors_kernel.Prelude.Int.{ℤ, pos, negsuc}
use fors_kernel.Ports.{Bus, outs}

-- COM_PORT_STATUS_READY, COM_PORT_STATUS_BROKEN and COM_PORT_STATUS_BUSY.
abbrev pub status_ready : ℕ
status_ready = 0

abbrev pub status_broken : ℕ
status_broken = 1

abbrev pub status_busy : ℕ
status_busy = 2

-- `uart_com_port`
pub record UartComPort : Type 0 where
  pub io_port_base : ℕ
  pub status : ℕ

-- A register of a port.
abbrev pub port_register : UartComPort → ℕ → ℕ
port_register port offset = (port.io_port_base + offset) % 2 ^ 16

-- `com_ports`, as INIT_COM_PORT makes them.
abbrev pub init_com_port : ℕ → UartComPort
init_com_port base = record { io_port_base = base; status = status_busy }

abbrev pub com_ports : List UartComPort
com_ports =
    init_com_port 0x3f8
    ∷ init_com_port 0x2f8
    ∷ init_com_port 0x3e8
    ∷ init_com_port 0x2e8
    ∷ init_com_port 0x5f8
    ∷ init_com_port 0x4f8
    ∷ init_com_port 0x5e8
    ∷ init_com_port 0x4e8
    ∷ []

-- What `com_port_setup` writes before the byte that it reads back.
abbrev pub setup_writes : UartComPort → ℕ → List (ℕ × ℕ)
setup_writes port divisor =
    (port_register port 1, 0)
    ∷ (port_register port 3, 0x80)
    ∷ (port_register port 0, divisor % 256)
    ∷ (port_register port 1, divisor / 256 % 256)
    ∷ (port_register port 3, 3)
    ∷ (port_register port 2, 0xc7)
    ∷ (port_register port 4, 0x0b)
    ∷ (port_register port 4, 0x1e)
    ∷ (port_register port 0, 0xc4)
    ∷ []

-- `if (!uart_port) uart_port = ...`
abbrev pub first_port : Option UartComPort → UartComPort → Option UartComPort
first_port none port = some port
first_port (some first) port = some first

module _ {D : Type 0} (bus : Bus D) where
  -- The code that is returned, the port with its status, and the devices.
  unfoldable pub com_port_setup : UartComPort → ℕ → D → ℤ × UartComPort × D
  com_port_setup port divisor d =
      let (echo, d) = bus.inb (outs bus d (setup_writes port divisor)) (port_register port 0) in
      if echo == 0xc4
      then (pos 0, record port { status = status_ready }, bus.outb d (port_register port 4) 0x0f)
      else (negsuc 0, record port { status = status_broken }, d)

  -- LINE_STAT_THRE and LINE_STAT_DR of the line's status.
  abbrev pub can_send : UartComPort → D → Bool × D
  can_send port d = let (line, d) = bus.inb d (port_register port 5) in (line / 32 % 2 == 1, d)

  abbrev pub can_read : UartComPort → D → Bool × D
  can_read port d = let (line, d) = bus.inb d (port_register port 5) in (line % 2 == 1, d)

  -- `while (!can_send(port));`, which ends only if the device says so.
  unfoldable pub wait_send : ℕ → UartComPort → D → Run D
  wait_send zero port d = out_of_fuel
  wait_send (suc rounds) port d =
      let (ready, d) = can_send port d in
      let rest = wait_send rounds port d in if ready then ok d else rest

  unfoldable pub wait_read : ℕ → UartComPort → D → Run D
  wait_read zero port d = out_of_fuel
  wait_read (suc rounds) port d =
      let (ready, d) = can_read port d in
      let rest = wait_read rounds port d in if ready then ok d else rest

  unfoldable pub com_send : ℕ → UartComPort → ℕ → D → Run D
  com_send rounds port c d =
      if port.status == status_ready
      then (do d ← wait_send rounds port d; ok (bus.outb d (port_register port 0) c))
      else ok d

  unfoldable pub com_sends : ℕ → UartComPort → List ℕ → D → Run D
  com_sends rounds port [] d = fault
  com_sends rounds port (c ∷ text) d =
      if c == 0 then ok d else (do d ← com_send rounds port c d; com_sends rounds port text d)

  unfoldable pub com_read : ℕ → UartComPort → D → Run (ℕ × D)
  com_read rounds port d =
      if port.status == status_ready
      then (do d ← wait_read rounds port d; ok (bus.inb d (port_register port 0)))
      else ok (0, d)

  -- The bytes up to `delim`, at most `bytes` of them, which the caller's buffer must hold.
  unfoldable pub com_reads : ℕ → ℕ → UartComPort → ℕ → D → Run (List ℕ × D)
  com_reads zero rounds port delim d = out_of_fuel
  com_reads (suc bytes) rounds port delim d = do
    (c, d) ← com_read rounds port d
    if c == delim
        then ok ([], d)
        else (do (cs, d) ← com_reads bytes rounds port delim d; ok (c ∷ cs, d))

  -- The loop of `x64_uart_init` over the ports, on the two lines that it sends: the ports with
  -- their status, `uart_port`, and the devices.
  unfoldable pub init_ports :
      ℕ
      → List ℕ
      → List ℕ
      → List UartComPort
      → Option UartComPort
      → D
      → Run (List UartComPort × Option UartComPort × D)
  init_ports rounds build detected [] uart_port d = ok ([], uart_port, d)
  init_ports rounds build detected (port ∷ ports) uart_port d =
      let (code, port', d) = com_port_setup port 3 d in
      elim code [
        | pos zero ↦ do
          d ← com_sends rounds port' build d
          d ← com_sends rounds port' detected d
          (others, first, d) ← init_ports rounds build detected ports (first_port uart_port port') d
          ok (port' ∷ others, first, d)
        | _ ↦ do
          (others, first, d) ← init_ports rounds build detected ports uart_port d
          ok (port' ∷ others, first, d)
      ]

  -- The code, the ports, `uart_port`, and the devices.
  unfoldable pub x64_uart_init :
      ℕ → List ℕ → List ℕ → D → Run (ℤ × List UartComPort × Option UartComPort × D)
  x64_uart_init rounds build detected d = do
    (ports, first, d) ← init_ports rounds build detected com_ports none d
    ok (elim first [ none ↦ negsuc 0 | some p ↦ pos 0 ], ports, first, d)

  -- `kputc` and `kputs`; without a port they follow a null pointer.
  unfoldable pub kputc : ℕ → Option UartComPort → ℕ → D → Run D
  kputc rounds none c d = fault
  kputc rounds (some port) c d = com_send rounds port c d

  unfoldable pub kputs : ℕ → Option UartComPort → List ℕ → D → Run D
  kputs rounds none text d = fault
  kputs rounds (some port) text d = com_sends rounds port text d
