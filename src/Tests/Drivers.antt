-- ===== src/Tests/Drivers.antt =====
-- The drivers on a bus whose ports are a memory: a read gives the byte that was written last, and
-- the status of the disk is ready with data wanted.
use fors_kernel.Prelude.{ℕ, ◌%◌, ◌≡◌, refl, ◌==◌, if◌then◌else◌, arith, length}
use fors_kernel.Ports.{Bus}
use fors_kernel.Pic.{pic_block_irq, pic_unblock_irq}
use fors_kernel.Pic.Masks.{HasMasks, masked, pic_irq-masks}
use fors_kernel.Ata.{AtaDevice, register, ata_wait_ready, ata_read_sector}
use fors_kernel.Ata.Polling.{Waited, ata_wait_ready-Waited}
use fors_kernel.Ata.Addressing.{Latches, Replies, Addressed, ata_read_sector-Addressed}

-- A port as a memory of bytes.
abbrev memory_bus : Bus (ℕ → ℕ)
memory_bus = record {
  inb = λ d port. (d port % 256, d);
  inw = λ d port. (d port, d);
  outb = λ d port v p. if p == port then v else d p;
  outw = λ d port v p. if p == port then v else d p;
}

abbrev byte_at : (ℕ → ℕ) → ℕ → ℕ
byte_at d p = d p % 256

memory_bus-HasMasks : HasMasks memory_bus byte_at
memory_bus-HasMasks = record {
  read = λ d q port. refl;
  kept = λ d q r port port'. refl;
  written = λ d q v r port port' lt. ground arith;
  byte = λ d r port. omega arith;
}

-- All of the master's interrupts masked but the second.
abbrev all_masked : ℕ → ℕ
all_masked p = 0xfb

pic_irq-masks_example :
    (masked byte_at (pic_block_irq memory_bus all_masked 2) 2 ≡ 1)
    × (masked byte_at (pic_unblock_irq memory_bus all_masked 2) 2 ≡ 0)
pic_irq-masks_example =
    pic_irq-masks memory_bus byte_at all_masked 2 2 memory_bus-HasMasks (omega arith) (omega arith)

abbrev primary_master : AtaDevice
primary_master = record { base_port = 0x1f0; ctrl_port = 0x3f6; drive = 0 }

abbrev idle : ℕ → ℕ
idle p = 0x48

ata_wait_ready-Waited_example :
    Waited memory_bus
      (register primary_master 7)
      1000000
      idle
      (ata_wait_ready memory_bus primary_master idle)
ata_wait_ready-Waited_example = ata_wait_ready-Waited memory_bus primary_master idle

-- A bus whose status is ready with data wanted whatever was written.
abbrev eager_bus : Bus (ℕ → ℕ)
eager_bus = record {
  inb = λ d port. (0x48, d);
  inw = λ d port. (0xabcd, d);
  outb = λ d port v p. if p == port then v else d p;
  outw = λ d port v. d;
}

abbrev latched : (ℕ → ℕ) → ℕ → ℕ
latched d p = d p

eager_bus-Latches : Latches eager_bus latched
eager_bus-Latches = record {
  written = λ d port v p. refl;
  inb_kept = λ d port p. refl;
  inw_kept = λ d port p. refl;
}

ata_read_sector-Addressed_example :
    Replies
      (λ words d'. (length words ≡ 256) × Addressed latched primary_master 0x1234567 0x20 d')
      (ata_read_sector eager_bus primary_master 0x1234567 idle)
ata_read_sector-Addressed_example =
    ata_read_sector-Addressed eager_bus latched eager_bus-Latches primary_master 0x1234567 idle
