-- ===== src/Paging/Entries.antt =====
-- The macros of include/arch/x64/memory.h on an entry that a flag word is put into.
use Prim.Native.Nat.{bit_or, max}
use fors_kernel.Prelude.{ℕ, ◌/◌, ◌%◌, ◌≡◌, ap, ◌∙◌, ◌<◌, true, false, arith}
use fors_kernel.Prelude.Bits.{halved, bit_or-mod2, halved-bit_or, bit_or-zero}
use fors_kernel.Paging.{pse_ptr, is_present, is_large}

bit_or-div4096 : (v f : ℕ) → f < 4096 → bit_or v f / 4096 ≡ v / 4096
bit_or-div4096 v f lt =
    let e : halved 12 f ≡ 0 = omega arith in
    let h : halved 12 (bit_or v f) ≡ halved 12 v =
      halved-bit_or 12 v f ∙ ap (bit_or (halved 12 v)) e ∙ bit_or-zero (halved 12 v) in
    omega (arith, h)

-- Flags below the address leave the address.
pub pse_ptr-bit_or : (v f : ℕ) → f < 4096 → pse_ptr (bit_or v f) ≡ pse_ptr v
pse_ptr-bit_or v f lt = omega (arith, bit_or-div4096 v f lt)

pub bit_or-IsBelow : (a f : ℕ) → a < 4096 → f < 4096 → bit_or a f < 4096
bit_or-IsBelow a f la lf = omega (arith, bit_or-div4096 a f lf)

pub is_present-flags : (v f : ℕ) → is_present (bit_or v (bit_or f 1)) ≡ true
is_present-flags v f = ground (arith, bit_or-mod2 v (bit_or f 1), bit_or-mod2 f 1)

bit_or-bit7 : (v f : ℕ) → bit_or v f / 128 % 2 ≡ max (v / 128 % 2) (f / 128 % 2)
bit_or-bit7 v f = omega (arith, halved-bit_or 7 v f, bit_or-mod2 (halved 7 v) (halved 7 f))

pub is_large-flags : (v f : ℕ) → is_large f ≡ false → is_large (bit_or v (bit_or f 1)) ≡ is_large v
is_large-flags v f e = ground (arith, bit_or-bit7 v (bit_or f 1), bit_or-bit7 f 1)
