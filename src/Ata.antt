-- ===== src/Ata.antt =====
-- The disk driver, kernel/src/arch/x64/ata.c, over any bus.
pub mod Polling
pub mod Addressing
pub mod Disks
use Prim.Native.Nat.{bit_or}
use fors_kernel.Prelude.{
  ℕ, zero, suc, ◌+◌, ◌*◌, ◌/◌, ◌%◌, ◌^◌, Bool, true, false, List, [], ◌∷◌, ◌++◌, ◌==◌,
  if◌then◌else◌, take, drop,
}
use fors_kernel.Prelude.Int.{ℤ, pos, negsuc}
use fors_kernel.Ports.{Bus, outs}
use fors_kernel.Pic.{pic_unblock_irq}

abbrev pub err_timeout : ℤ
err_timeout = negsuc 0

abbrev pub err_drive_error : ℤ
err_drive_error = negsuc 1

abbrev pub err_invalid_drive : ℤ
err_invalid_drive = negsuc 2

-- `ata_device_t`
pub record AtaDevice : Type 0 where
  pub base_port : ℕ
  pub ctrl_port : ℕ
  pub drive : ℕ

-- ATA_STATUS_BSY, ATA_STATUS_DRQ and ATA_STATUS_ERR of a status byte.
abbrev pub is_busy : ℕ → Bool
is_busy status = status / 128 % 2 == 1

abbrev pub wants_data : ℕ → Bool
wants_data status = status / 8 % 2 == 1

abbrev pub has_error : ℕ → Bool
has_error status = status % 2 == 1

-- A register of the device, from its base port on.
abbrev pub register : AtaDevice → ℕ → ℕ
register dev offset = (dev.base_port + offset) % 2 ^ 16

-- How often a status is read before the driver gives up.
abbrev pub max_polls : ℕ
max_polls = 1000000

-- What an operation returns: ATA_OK, with what it puts into the caller's buffer, or an error.
pub data Reply (D A : Type 0) : Type 0 where
  failed : ℤ → D → Reply D A
  done : A → D → Reply D A

-- `if (ret != ATA_OK) return ret;`
infixl 5 ◌then_on◌
abbrev pub ◌then_on◌ : {D A B : Type 0} → Reply D A → (A → D → Reply D B) → Reply D B
failed e d then_on next = failed e d
done a d then_on next = next a d

-- The byte that selects the drive, with bits 24 to 27 of the address.
abbrev pub drive_select : AtaDevice → ℕ → ℕ
drive_select dev lba =
    bit_or (bit_or (if dev.drive == 0 then 0xa0 else 0xb0) 0x40) (lba / 0x1000000 % 16)

-- The registers of a command on one sector, and the command.
abbrev pub command_block : AtaDevice → ℕ → ℕ → List (ℕ × ℕ)
command_block dev lba command =
    (register dev 1, 0)
    ∷ (register dev 2, 1)
    ∷ (register dev 3, lba % 256)
    ∷ (register dev 4, lba / 256 % 256)
    ∷ (register dev 5, lba / 65536 % 256)
    ∷ (register dev 7, command)
    ∷ []

module _ {D : Type 0} (bus : Bus D) where
  -- The loop of `ata_wait_ready`, `left` rounds.
  unfoldable pub ready_loop : ℕ → ℕ → D → Reply D Unit
  ready_loop zero port d = failed err_timeout d
  ready_loop (suc left) port d =
      let (status, d) = bus.inb d port in
      let rest = ready_loop left port d in if is_busy status then rest else done tt d

  unfoldable pub ata_wait_ready : AtaDevice → D → Reply D Unit
  ata_wait_ready dev d = ready_loop max_polls (register dev 7) d

  -- The loop of `ata_wait_drq`.
  unfoldable pub drq_loop : ℕ → ℕ → D → Reply D Unit
  drq_loop zero port d = failed err_timeout d
  drq_loop (suc left) port d =
      let (status, d) = bus.inb d port in
      let rest = drq_loop left port d in
      if wants_data status
      then done tt d
      else if has_error status
      then failed err_drive_error d
      else rest

  unfoldable pub ata_wait_drq : AtaDevice → D → Reply D Unit
  ata_wait_drq dev d = drq_loop max_polls (register dev 7) d

  -- `n` reads of a port whose values are dropped.
  unfoldable pub delay : ℕ → ℕ → D → D
  delay zero port d = d
  delay (suc n) port d = delay n port (bus.inb d port).1

  unfoldable pub ata_select_drive : AtaDevice → ℕ → D → Reply D Unit
  unfolding delay
  ata_select_drive dev lba d =
      ata_wait_ready dev
        (delay 4 dev.ctrl_port (bus.outb d (register dev 6) (drive_select dev lba)))

  unfoldable pub send_command : AtaDevice → ℕ → ℕ → D → D
  send_command dev lba command d = outs bus d (command_block dev lba command)

  -- `n` words read from, or written to, the data port.
  unfoldable pub read_words : ℕ → ℕ → D → List ℕ × D
  read_words zero port d = ([], d)
  read_words (suc n) port d =
      let (word, d) = bus.inw d port in let (words, d) = read_words n port d in (word ∷ words, d)

  unfoldable pub write_words : List ℕ → ℕ → D → D
  write_words [] port d = d
  write_words (word ∷ words) port d = write_words words port (bus.outw d port word)

  -- The sector's words.
  unfoldable pub ata_read_sector : AtaDevice → ℕ → D → Reply D (List ℕ)
  ata_read_sector dev lba d = ata_wait_ready dev d then_on λ _ d.
      ata_select_drive dev lba d then_on λ _ d.
      ata_wait_drq dev (send_command dev lba 0x20 d) then_on λ _ d.
      let (words, d) = read_words 256 (register dev 0) d in done words d

  -- On the words of the buffer.
  unfoldable pub ata_write_sector : AtaDevice → ℕ → List ℕ → D → Reply D Unit
  ata_write_sector dev lba buf d = ata_wait_ready dev d then_on λ _ d.
      ata_select_drive dev lba d then_on λ _ d.
      ata_wait_drq dev (send_command dev lba 0x30 d) then_on λ _ d.
      ata_wait_ready dev (write_words (take 256 buf) (register dev 0) d) then_on λ _ d.
      let (status, d) = bus.inb d (register dev 7) in
      if has_error status then failed err_drive_error d else done tt d

  -- The words of `count` sectors; those read before an error stand in the buffer too, but the caller
  -- cannot tell how many they are.
  unfoldable pub ata_read_sectors : AtaDevice → ℕ → ℕ → D → Reply D (List ℕ)
  ata_read_sectors dev start_lba zero d = done [] d
  ata_read_sectors dev start_lba (suc count) d = ata_read_sector dev start_lba d then_on λ words d.
      ata_read_sectors dev ((start_lba + 1) % 2 ^ 64) count d then_on λ rest d.
      done (words ++ rest) d

  unfoldable pub ata_write_sectors : AtaDevice → ℕ → ℕ → List ℕ → D → Reply D Unit
  ata_write_sectors dev start_lba zero buf d = done tt d
  ata_write_sectors dev start_lba (suc count) buf d =
      ata_write_sector dev start_lba buf d then_on λ _ d.
      ata_write_sectors dev ((start_lba + 1) % 2 ^ 64) count (drop 256 buf) d

  unfoldable pub ata_identify : AtaDevice → D → Reply D (List ℕ)
  ata_identify dev d = ata_wait_ready dev d then_on λ _ d. ata_select_drive dev 0 d then_on λ _ d.
      let (status, d) = bus.inb (bus.outb d (register dev 7) 0xec) (register dev 7) in
      if status == 0
      then failed err_invalid_drive d
      else (ata_wait_drq dev d then_on λ _ d.
          let (words, d) = read_words 256 (register dev 0) d in done words d)

  unfoldable pub ata_init_device : Bool → Bool → D → AtaDevice × D
  unfolding pic_unblock_irq
  ata_init_device primary master d = (
    record {
      base_port = if primary then 0x1f0 else 0x170;
      ctrl_port = if primary then 0x3f6 else 0x376;
      drive = if master then 0 else 1;
    },
    pic_unblock_irq bus d (if master then 0x0e else 0x0f),
  )

  -- On the first two characters of the configuration.
  unfoldable pub st_init : ℕ → ℕ → D → AtaDevice × D
  unfolding ata_init_device
  st_init c0 c1 d = ata_init_device (c0 == 0x70) (c1 == 0x6d) d

  -- `ATA_OK == ...` as a number, with the buffer.
  unfoldable pub st_rd : AtaDevice → ℕ → D → ℕ × List ℕ × D
  unfolding ata_read_sector
  st_rd dev addr d = elim (ata_read_sector dev addr d) [
    | failed e d' ↦ (0, [], d')
    | done words d' ↦ (1, words, d')
  ]

  unfoldable pub st_wr : AtaDevice → ℕ → List ℕ → D → ℕ × D
  unfolding ata_write_sector
  st_wr dev addr buf d = elim (ata_write_sector dev addr buf d) [
    | failed e d' ↦ (0, d')
    | done _ d' ↦ (1, d')
  ]

  unfoldable pub ata_num_blocks : AtaDevice → ℕ
  ata_num_blocks dev = 0

  unfoldable pub st_nb : AtaDevice → ℕ
  unfolding ata_num_blocks
  st_nb dev = ata_num_blocks dev
