-- ===== src/Pic/Masks.antt =====
-- Which interrupts are masked after `pic_block_irq` and `pic_unblock_irq` of pic.c.
use Prim.Native.Nat.{bit_or, bit_and, bit_and-bitwise}
use fors_kernel.Prelude.{
  ℕ, ◌-◌, ◌%◌, ◌^◌, ◌<◌, ◌≡◌, refl, ap, sym, ◌∙◌, inl, inr, true, false, Bool-cases, ltb, ◌==◌,
  ◌&&◌, ◌⊎◌, ==_iff, if◌then◌else◌, arith,
}
use fors_kernel.Prelude.Bits.{
  each_under, each_under-passes, halved, doubled, halved-bit_or, halved-bit_and, bit, bit-bit_or,
  bit-bit_and,
}
use fors_kernel.Ports.{Bus}
use fors_kernel.Pic.{port_of, line_of, line_bit, pic_block_irq, pic_unblock_irq}

-- The data ports of the two controllers, 0x21 of the master and 0xa1 of the slave.
abbrev pub IsDataPort : ℕ → Type 0
IsDataPort q = (q ≡ 0x21) ⊎ (q ≡ 0xa1)

-- The controllers' mask registers: reading a data port gives its register and leaves both, and a byte
-- written there goes into it; the other controller's stays.
pub record HasMasks {D : Type 0} (bus : Bus D) (mask : D → ℕ → ℕ) : Type 0 where
  pub read : (d : D) (q : ℕ) → IsDataPort q → (bus.inb d q).0 ≡ mask d q
  pub kept : (d : D) (q r : ℕ) → IsDataPort q → IsDataPort r → mask (bus.inb d q).1 r ≡ mask d r
  pub written :
      (d : D) (q v r : ℕ)
      → IsDataPort q
      → IsDataPort r
      → v < 2 ^ 8
      → mask (bus.outb d q v) r ≡ (if r == q then v else mask d r)
  pub byte : (d : D) (r : ℕ) → IsDataPort r → mask d r < 2 ^ 8

-- Whether an interrupt of the sixteen is masked, 1 if so: the bits of the master's register are the
-- first eight, those of the slave's the others.
abbrev pub masked : {D : Type 0} → (D → ℕ → ℕ) → D → ℕ → ℕ
masked mask d j = if ltb j 8 then bit j (mask d 0x21) else bit (j - 8) (mask d 0xa1)

-- The same through the port and the line that the code finds.
abbrev masked_at : {D : Type 0} → (D → ℕ → ℕ) → D → ℕ → ℕ
masked_at mask d j = bit (line_of j) (mask d (port_of j))

port_of-IsDataPort : (j : ℕ) → IsDataPort (port_of j)
port_of-IsDataPort j = elim (Bool-cases (ltb j 8)) [
  | inl e ↦ rw e (inl refl)
  | inr e ↦ rw e (inr refl)
]

masked-masked_at :
    {D : Type 0} (mask : D → ℕ → ℕ) (d : D) (j : ℕ) → masked mask d j ≡ masked_at mask d j
masked-masked_at mask d j = elim (Bool-cases (ltb j 8)) [ inl e ↦ rw e refl | inr e ↦ rw e refl ]

-- A line's bit as a mask, and the rest of the byte.
lines_checked :
    each_under 8 (λ k. each_under 8 (λ j.
      (bit j (doubled k 1) == (if j == k then 1 else 0))
      && (bit j (0xff - doubled k 1) == (if j == k then 0 else 1))
      && ltb (doubled k 1) 256))
    ≡ true
unfolding each_under
lines_checked = refl

line_bits :
    (k j : ℕ)
    → k < 8
    → j < 8
    → (bit j (doubled k 1) ≡ (if j == k then 1 else 0))
      × (bit j (0xff - doubled k 1) ≡ (if j == k then 0 else 1))
      × (doubled k 1 < 256)
line_bits k j lk lj =
    let a = each_under-passes 8 _ lines_checked k lk in
    let b = each_under-passes 8 _ a j lj in (ground arith, ground arith, ground arith)

-- The two masks put together.
bytes-or : (a b : ℕ) → a < 256 → b < 256 → bit_or a b < 256
bytes-or a b la lb =
    let ea : halved 8 a ≡ 0 = omega arith in
    let eb : halved 8 b ≡ 0 = omega arith in
    let h : halved 8 (bit_or a b) ≡ 0 = halved-bit_or 8 a b ∙ rw (ea, eb) refl in omega (arith, h)

bytes-and : (a b : ℕ) → a < 256 → bit_and a b < 256
bytes-and a b la =
    let ea : halved 8 a ≡ 0 = omega arith in
    let h : halved 8 (bit_and a b) ≡ 0 =
      halved-bit_and 8 a b ∙ rw ea (bit_and-bitwise 0 (halved 8 b)) in
    omega (arith, h)

same_line :
    (irq j : ℕ)
    → irq < 16
    → j < 16
    → (j == irq) ≡ (port_of j == port_of irq && line_of j == line_of irq)
same_line irq j li lj = ground arith

-- A byte written to the mask of an interrupt's controller.
written_masks :
    {D : Type 0} (bus : Bus D) (mask : D → ℕ → ℕ) (d : D) (irq j v b : ℕ)
    → HasMasks bus mask
    → irq < 16
    → j < 16
    → v < 2 ^ 8
    → ((l : ℕ) → l < 8 → bit l v ≡ (if l == line_of irq then b else bit l (mask d (port_of irq))))
    → masked_at mask (bus.outb (bus.inb d (port_of irq)).1 (port_of irq) v) j
      ≡ (if j == irq then b else masked_at mask d j)
written_masks bus mask d irq j v b h li lj lv bits =
    let d' = (bus.inb d (port_of irq)).1 in
    let w =
      h.written d' (port_of irq) v (port_of j) (port_of-IsDataPort irq) (port_of-IsDataPort j) lv in
    let s = same_line irq j li lj in
    elim (Bool-cases (port_of j == port_of irq)) [
      | inl same ↦
          let p : port_of j ≡ port_of irq = (==_iff (port_of j) (port_of irq)).0 same in
          let w' : mask (bus.outb d' (port_of irq) v) (port_of j) ≡ v =
            w ∙ ap (λ c. if c then v else mask d' (port_of j)) same in
          let s' : (j == irq) ≡ (line_of j == line_of irq) =
            s ∙ ap (λ c. c && line_of j == line_of irq) same in
          ap (bit (line_of j)) w'
          ∙ bits (line_of j) (ground arith)
          ∙ ap (λ c. if c then b else bit (line_of j) (mask d (port_of irq))) (sym s')
          ∙ ap (λ q. if j == irq then b else bit (line_of j) (mask d q)) (sym p)
      | inr other ↦
          let w' : mask (bus.outb d' (port_of irq) v) (port_of j) ≡ mask d (port_of j) =
            w
            ∙ ap (λ c. if c then v else mask d' (port_of j)) other
            ∙ h.kept d (port_of irq) (port_of j) (port_of-IsDataPort irq) (port_of-IsDataPort j) in
          let s' : (j == irq) ≡ false = s ∙ ap (λ c. c && line_of j == line_of irq) other in
          ap (bit (line_of j)) w' ∙ ap (λ c. if c then b else masked_at mask d j) (sym s')
    ]

-- Over controllers whose data ports read and write their mask, `pic_block_irq` masks its interrupt
-- of the sixteen, `pic_unblock_irq` unmasks it, and both leave every other interrupt as it was.
pub pic_irq-masks :
    {D : Type 0} (bus : Bus D) (mask : D → ℕ → ℕ) (d : D) (irq j : ℕ)
    → HasMasks bus mask
    → irq < 16
    → j < 16
    → (masked mask (pic_block_irq bus d irq) j ≡ (if j == irq then 1 else masked mask d j))
      × (masked mask (pic_unblock_irq bus d irq) j ≡ (if j == irq then 0 else masked mask d j))
unfolding pic_block_irq pic_unblock_irq
pic_irq-masks bus mask d irq j h li lj =
    let p = port_of irq in
    let read = h.read d p (port_of-IsDataPort irq) in
    let lb = line_bit irq in
    let small = (line_bits (line_of irq) 0 (ground arith) (omega arith)).2 in
    let byte : (bus.inb d p).0 < 256 = omega (arith, read, h.byte d p (port_of-IsDataPort irq)) in
    let over = bytes-or (bus.inb d p).0 lb byte small in
    let e : bit_or (bus.inb d p).0 lb % 2 ^ 8 ≡ bit_or (bus.inb d p).0 lb = omega arith in
    let as_found = masked-masked_at mask in
    let blocked = written_masks bus mask d irq j _ 1 h li lj (omega arith) (λ l ll.
      ap (bit l) e
      ∙ bit-bit_or l (bus.inb d p).0 lb
      ∙ ground (arith, read, (line_bits (line_of irq) l (ground arith) ll).0)) in
    let unblocked =
      written_masks bus mask d irq j _ 0 h li lj (bytes-and (bus.inb d p).0 (0xff - lb) byte)
        (λ l ll.
          bit-bit_and l (bus.inb d p).0 (0xff - lb)
          ∙ ground (arith, read, (line_bits (line_of irq) l (ground arith) ll).1)) in
    (
      as_found _ j ∙ blocked ∙ ap (λ x. if j == irq then 1 else x) (sym (as_found d j)),
      as_found _ j ∙ unblocked ∙ ap (λ x. if j == irq then 0 else x) (sym (as_found d j)),
    )
