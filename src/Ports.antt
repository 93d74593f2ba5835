-- ===== src/Ports.antt =====
-- The ports of the processor, kernel/src/arch/x64/io/io.c: what a device answers and how it changes
-- is the parameter `Bus`, on a state `D` of the devices.
use fors_kernel.Prelude.{ℕ, List, [], ◌∷◌}

-- `inb`, `inw`, `outb` and `outw`.
pub record Bus (D : Type 0) : Type 0 where
  pub inb : D → ℕ → ℕ × D
  pub inw : D → ℕ → ℕ × D
  pub outb : D → ℕ → ℕ → D
  pub outw : D → ℕ → ℕ → D

module _ {D : Type 0} (bus : Bus D) where
  -- Bytes written to ports, in order.
  abbrev pub outs : D → List (ℕ × ℕ) → D
  outs d [] = d
  outs d ((port, val) ∷ rest) = outs (bus.outb d port val) rest
