-- ===== src/Pic.antt =====
-- The interrupt controllers, kernel/src/arch/x64/int/pic.c, over any bus.
pub mod Masks
use Prim.Native.Nat.{bit_or, bit_and}
use fors_kernel.Prelude.{ℕ, ◌+◌, ◌-◌, ◌%◌, ◌^◌, List, [], ◌∷◌, ltb, if◌then◌else◌}
use fors_kernel.Prelude.Bits.{doubled}
use fors_kernel.Ports.{Bus, outs}

-- PIC_MASTER_CMD, PIC_MASTER_DAT, PIC_SLAVE_CMD and PIC_SLAVE_DAT.
abbrev pub master_cmd : ℕ
master_cmd = 0x20

abbrev pub master_dat : ℕ
master_dat = 0x21

abbrev pub slave_cmd : ℕ
slave_cmd = 0xa0

abbrev pub slave_dat : ℕ
slave_dat = 0xa1

-- SMALL_WAIT
abbrev pub small_wait : ℕ × ℕ
small_wait = (0x80, 0)

-- The port and the line of an interrupt.
abbrev pub port_of : ℕ → ℕ
port_of irq = if ltb irq 8 then master_dat else slave_dat

abbrev pub line_of : ℕ → ℕ
line_of irq = if ltb irq 8 then irq else irq - 8

-- `1 << irq`
abbrev pub line_bit : ℕ → ℕ
line_bit irq = doubled (line_of irq) 1

module _ {D : Type 0} (bus : Bus D) where
  -- Up to `sti`, which enables interrupts.
  unfoldable pub pic_map : D → ℕ → ℕ → D
  pic_map d offset_master offset_slave = outs bus d (
      (master_cmd, 0x11)
      ∷ small_wait
      ∷ (slave_cmd, 0x11)
      ∷ small_wait
      ∷ (master_dat, offset_master)
      ∷ small_wait
      ∷ (slave_dat, offset_slave)
      ∷ small_wait
      ∷ (master_dat, 4)
      ∷ small_wait
      ∷ (slave_dat, 2)
      ∷ small_wait
      ∷ (master_dat, 1)
      ∷ small_wait
      ∷ (master_dat, 1)
      ∷ small_wait
      ∷ (master_dat, 0xfb)
      ∷ (slave_dat, 0xff)
      ∷ (slave_dat, 0xff)
      ∷ [])

  unfoldable pub pic_block_irq : D → ℕ → D
  pic_block_irq d irq =
      let (mask, d) = bus.inb d (port_of irq) in
      bus.outb d (port_of irq) (bit_or mask (line_bit irq) % 2 ^ 8)

  -- `~(1 << irq)` as a byte.
  unfoldable pub pic_unblock_irq : D → ℕ → D
  pic_unblock_irq d irq =
      let (mask, d) = bus.inb d (port_of irq) in
      bus.outb d (port_of irq) (bit_and mask (0xff - line_bit irq))

  unfoldable pub pic_eoi : D → ℕ → D
  pic_eoi d irq =
      let acknowledged = if ltb irq 8 then d else bus.outb d slave_cmd 0x20 in
      bus.outb acknowledged master_cmd 0x20
