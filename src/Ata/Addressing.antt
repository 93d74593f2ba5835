-- ===== src/Ata/Addressing.antt =====
-- What `ata_read_sector` of ata.c tells the drive, and what it reads.
use Prim.Native.Nat.{bit_or}
use fors_kernel.Prelude.{
  ℕ, zero, suc, ◌+◌, ◌*◌, ◌/◌, ◌%◌, ◌^◌, ◌≡◌, refl, ap, ◌∙◌, ◌⊎◌, inl, inr, Bool-cases, ==_iff,
  List, [], ◌∷◌, ◌==◌, if◌then◌else◌, arith, length,
}
use fors_kernel.Prelude.Bits.{each_under, each_under-passes, bit}
use fors_kernel.Prelude.Int.{ℤ}
use fors_kernel.Ports.{Bus, outs}
use fors_kernel.Ata.{
  AtaDevice, Reply, failed, done, ◌then_on◌, err_timeout, err_drive_error, is_busy, wants_data,
  has_error, register, drive_select, command_block, max_polls, ready_loop, ata_wait_ready, drq_loop,
  ata_wait_drq, delay, ata_select_drive, send_command, read_words, ata_read_sector,
}

-- The device keeps the byte last written to each of its ports; reading changes none.
pub record Latches {D : Type 0} (bus : Bus D) (latch : D → ℕ → ℕ) : Type 0 where
  pub written :
      (d : D) (port v p : ℕ) → latch (bus.outb d port v) p ≡ (if p == port then v else latch d p)
  pub inb_kept : (d : D) (port p : ℕ) → latch (bus.inb d port).1 p ≡ latch d p
  pub inw_kept : (d : D) (port p : ℕ) → latch (bus.inw d port).1 p ≡ latch d p

-- What holds of a reply: of the result and the state if it succeeds, and of the error code if not.
pub data Replies {D A : Type 0} (P : A → D → Type 0) : Reply D A → Type 0 where
  succeeds : {a : A} {d : D} → P a d → Replies P (done a d)
  fails : {e : ℤ} {d : D} → (e ≡ err_timeout) ⊎ (e ≡ err_drive_error) → Replies P (failed e d)

Replies-then_on :
    {D A B : Type 0} {P : A → D → Type 0} {Q : B → D → Type 0} {r : Reply D A}
    (next : A → D → Reply D B)
    → Replies P r
    → ((a : A) (d : D) → P a d → Replies Q (next a d))
    → Replies Q (r then_on next)
Replies-then_on next (succeeds p) go = go _ _ p
Replies-then_on next (fails w) go = fails w

Replies-mono :
    {D A : Type 0} {P Q : A → D → Type 0} {r : Reply D A}
    → ((a : A) (d : D) → P a d → Q a d)
    → Replies P r
    → Replies Q r
Replies-mono f (succeeds p) = succeeds (f _ _ p)
Replies-mono f (fails w) = fails w

module _ {D : Type 0} (bus : Bus D) (latch : D → ℕ → ℕ) (h : Latches bus latch) where
  -- Two states with the same latches.
  abbrev Same : D → D → Type 0
  Same d d' = (p : ℕ) → latch d' p ≡ latch d p

  ready_loop-Same :
      (left port : ℕ) (d : D) → Replies (λ _ d'. Same d d') (ready_loop bus left port d)
  unfolding ready_loop
  ready_loop-Same zero port d = fails (inl refl)
  ready_loop-Same (suc left) port d = elim (Bool-cases (is_busy (bus.inb d port).0)) [
    | inl b ↦ rw b (
        Replies-mono (λ a d' s p. s p ∙ h.inb_kept d port p)
          (ready_loop-Same left port (bus.inb d port).1))
    | inr b ↦ rw b (succeeds (λ p. h.inb_kept d port p))
  ]

  drq_loop-Same : (left port : ℕ) (d : D) → Replies (λ _ d'. Same d d') (drq_loop bus left port d)
  unfolding drq_loop
  drq_loop-Same zero port d = fails (inl refl)
  drq_loop-Same (suc left) port d = elim (Bool-cases (wants_data (bus.inb d port).0)) [
    | inl b ↦ rw b (succeeds (λ p. h.inb_kept d port p))
    | inr b ↦ elim (Bool-cases (has_error (bus.inb d port).0)) [
      | inl e ↦ rw (b, e) (fails (inr refl))
      | inr e ↦
          rw (b, e)
            (Replies-mono (λ a d' s p. s p ∙ h.inb_kept d port p)
              (drq_loop-Same left port (bus.inb d port).1))
    ]
  ]

  delay-Same : (n port : ℕ) (d : D) → Same d (delay bus n port d)
  unfolding delay
  delay-Same zero port d p = refl
  delay-Same (suc n) port d p = delay-Same n port (bus.inb d port).1 p ∙ h.inb_kept d port p

  read_words-Same :
      (n port : ℕ) (d : D)
      → let (words, d') = read_words bus n port d in (length words ≡ n) × Same d d'
  unfolding read_words
  read_words-Same zero port d = (refl, λ p. refl)
  read_words-Same (suc n) port d =
      let (l, s) = read_words-Same n port (bus.inw d port).1 in
      (ap suc l, λ p. s p ∙ h.inw_kept d port p)

  -- The byte that a list of writes leaves at a port.
  abbrev latest : List (ℕ × ℕ) → ℕ → ℕ → ℕ
  latest [] p v = v
  latest ((port, val) ∷ rest) p v = latest rest p (if p == port then val else v)

  latch-outs :
      (ws : List (ℕ × ℕ)) (d : D) (p : ℕ) → latch (outs bus d ws) p ≡ latest ws p (latch d p)
  latch-outs [] d p = refl
  latch-outs ((port, val) ∷ rest) d p =
      latch-outs rest (bus.outb d port val) p ∙ ap (latest rest p) (h.written d port val p)

-- The command block of a sector: the address in 28 bits, the drive, a count of 1, and the command.
pub record Addressed {D : Type 0} (latch : D → ℕ → ℕ) (dev : AtaDevice) (lba command : ℕ) (d : D)
    : Type 0 where
  pub sector :
      latch d (register dev 3)
        + 256 * latch d (register dev 4)
        + 65536 * latch d (register dev 5)
        + 16777216 * (latch d (register dev 6) % 16)
      ≡ lba % 2 ^ 28
  pub drive : bit 4 (latch d (register dev 6)) ≡ (if dev.drive == 0 then 0 else 1)
  pub count : latch d (register dev 2) ≡ 1
  pub issued : latch d (register dev 7) ≡ command

drive_select_parts :
    (dev : AtaDevice) (lba : ℕ)
    → (drive_select dev lba % 16 ≡ lba / 0x1000000 % 16)
      × (bit 4 (drive_select dev lba) ≡ (if dev.drive == 0 then 0 else 1))
unfolding each_under
drive_select_parts dev lba =
    let x = lba / 0x1000000 % 16 in
    elim (Bool-cases (dev.drive == 0)) [
      | inl z ↦
          let c = each_under-passes 16 (λ x. bit_or 0xe0 x == 0xe0 + x) refl x (omega arith) in
          let e : bit_or 0xe0 x ≡ 0xe0 + x = (==_iff (bit_or 0xe0 x) (0xe0 + x)).0 c in
          rw (z, e) (omega arith, omega arith)
      | inr z ↦
          let c = each_under-passes 16 (λ x. bit_or 0xf0 x == 0xf0 + x) refl x (omega arith) in
          let e : bit_or 0xf0 x ≡ 0xf0 + x = (==_iff (bit_or 0xf0 x) (0xf0 + x)).0 c in
          rw (z, e) (omega arith, omega arith)
    ]

module _ {D : Type 0} (bus : Bus D) (latch : D → ℕ → ℕ) (h : Latches bus latch) where
  send_command-latch :
      (dev : AtaDevice) (lba command : ℕ) (d : D)
      → let d' = send_command bus dev lba command d in
        (latch d' (register dev 2) ≡ 1)
        × (latch d' (register dev 3) ≡ lba % 256)
        × (latch d' (register dev 4) ≡ lba / 256 % 256)
        × (latch d' (register dev 5) ≡ lba / 65536 % 256)
        × (latch d' (register dev 6) ≡ latch d (register dev 6))
        × (latch d' (register dev 7) ≡ command)
  unfolding send_command
  send_command-latch dev lba command d = (
    latch-outs bus latch h (command_block dev lba command) d (register dev 2) ∙ ground arith,
    latch-outs bus latch h (command_block dev lba command) d (register dev 3) ∙ ground arith,
    latch-outs bus latch h (command_block dev lba command) d (register dev 4) ∙ ground arith,
    latch-outs bus latch h (command_block dev lba command) d (register dev 5) ∙ ground arith,
    latch-outs bus latch h (command_block dev lba command) d (register dev 6) ∙ ground arith,
    latch-outs bus latch h (command_block dev lba command) d (register dev 7) ∙ ground arith,
  )

  wait_ready-Same :
      (dev : AtaDevice) (d : D) → Replies (λ _ d'. Same bus latch h d d') (ata_wait_ready bus dev d)
  unfolding ata_wait_ready
  wait_ready-Same dev d = ready_loop-Same bus latch h max_polls (register dev 7) d

  wait_drq-Same :
      (dev : AtaDevice) (d : D) → Replies (λ _ d'. Same bus latch h d d') (ata_wait_drq bus dev d)
  unfolding ata_wait_drq
  wait_drq-Same dev d = drq_loop-Same bus latch h max_polls (register dev 7) d

  ata_select_drive-latch :
      (dev : AtaDevice) (lba : ℕ) (d : D)
      → Replies
          (λ _ d'. latch d' (register dev 6) ≡ drive_select dev lba)
          (ata_select_drive bus dev lba d)
  unfolding ata_select_drive ata_wait_ready
  ata_select_drive-latch dev lba d =
      let r = register dev 6 in
      let d1 = bus.outb d r (drive_select dev lba) in
      let e : latch d1 r ≡ drive_select dev lba =
        h.written d r (drive_select dev lba) r ∙ ground arith in
      Replies-mono (λ _ d' s. s r ∙ delay-Same bus latch h 4 dev.ctrl_port d1 r ∙ e)
        (ready_loop-Same bus latch h max_polls (register dev 7) (delay bus 4 dev.ctrl_port d1))

  -- Over a device that keeps the bytes written to its ports, where `ata_read_sector` succeeds it
  -- gives 256 words, and the device was told the address modulo 2 ^ 28, the drive, a count of 1 and
  -- the command to read; where it fails the error is ATA_ERR_TIMEOUT or ATA_ERR_DRIVE_ERROR.
  pub ata_read_sector-Addressed :
      (dev : AtaDevice) (lba : ℕ) (d : D)
      → Replies
          (λ words d'. (length words ≡ 256) × Addressed latch dev lba 0x20 d')
          (ata_read_sector bus dev lba d)
  unfolding ata_read_sector
  ata_read_sector-Addressed dev lba d = Replies-then_on _ (wait_ready-Same dev d) (λ _ d1 _.
      Replies-then_on _ (ata_select_drive-latch dev lba d1) (λ _ d2 e.
        Replies-then_on _ (wait_drq-Same dev (send_command bus dev lba 0x20 d2)) (λ _ d3 s3.
          let (l, s4) = read_words-Same bus latch h 256 (register dev 0) d3 in
          let (c2, c3, c4, c5, c6, c7) = send_command-latch dev lba 0x20 d2 in
          let d4 = (read_words bus 256 (register dev 0) d3).1 in
          let kept : Same bus latch h (send_command bus dev lba 0x20 d2) d4 = λ p. s4 p ∙ s3 p in
          let (low, drv) = drive_select_parts dev lba in
          let k6 = kept (register dev 6) ∙ c6 ∙ e in
          succeeds (
            l,
            record {
              sector = omega (
                arith,
                kept (register dev 3),
                kept (register dev 4),
                kept (register dev 5),
                k6,
                low,
                c3,
                c4,
                c5,
              );
              drive = ap (bit 4) k6 ∙ drv;
              count = kept (register dev 2) ∙ c2;
              issued = kept (register dev 7) ∙ c7;
            },
          ))))
