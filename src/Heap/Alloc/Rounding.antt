-- ===== src/Heap/Alloc/Rounding.antt =====
-- The order that balloc.c chooses for a size.
use fors_kernel.Prelude.{
  ℕ, zero, suc, ◌+◌, ◌-◌, ◌*◌, ◌/◌, ◌%◌, ◌^◌, ◌≤◌, ◌<◌, ◌≡◌, refl, ap, ◌∙◌, inl, inr, false,
  Bool-cases, leb, ltb, ◌==◌, if◌then◌else◌, arith, Run, ok,
}
use native.Mathlib.Nat.{le_trans, pow-suc, pow-le-pow_right}
use fors_kernel.Heap.{BuddyAllocator}
use fors_kernel.Heap.Alloc.{header_size, top_bit, clz, zeros_below, ctz, round_up, order_for}

-- The highest bit below `n` of a number below `2 ^ n`.
top_bit-bounds : (n x : ℕ) → 0 < x → x < 2 ^ n → (top_bit n x < n) × (x < 2 ^ (top_bit n x + 1))
unfolding top_bit
top_bit-bounds zero x pos lt = absurd (omega arith)
top_bit-bounds (suc n) x pos lt = elim (Bool-cases (leb (2 ^ n) x)) [
  | inl e ↦ let q : n + 1 ≡ suc n = omega arith in rw e (omega arith, rw q lt)
  | inr e ↦ let ih = top_bit-bounds n x pos (ground arith) in rw e (omega (arith, ih.0), ih.1)
]

top_bit-least : (n x : ℕ) → 0 < x → 2 ^ top_bit n x ≤ x
unfolding top_bit
top_bit-least zero x pos = omega arith
top_bit-least (suc n) x pos = elim (Bool-cases (leb (2 ^ n) x)) [
  | inl e ↦ rw e (ground arith)
  | inr e ↦ rw e (top_bit-least n x pos)
]

power-under : (k n : ℕ) → 2 ^ k < 2 ^ n → k < n
power-under k n lt = elim (Bool-cases (ltb k n)) [
  | inl e ↦ ground arith
  | inr e ↦
      let le : 2 ^ n ≤ 2 ^ k = pow-le-pow_right {n = 2} (omega arith) (ground arith) in
      absurd (omega arith)
]

clz-bit :
    (x : ℕ)
    → 0 < x
    → x < 2 ^ 32
    → (t : ℕ) × (clz x ≡ ok (31 - t)) × (t < 32) × (2 ^ t ≤ x) × (x < 2 ^ (t + 1))
unfolding clz
clz-bit x pos lt =
    let small : x % 2 ^ 32 ≡ x = omega arith in
    let nz : (x == 0) ≡ false = ground arith in
    let bounds = top_bit-bounds 32 x pos lt in
    (top_bit 32 x, rw (clz, small, nz) refl, bounds.0, top_bit-least 32 x pos, bounds.1)

zeros_below-power : (n k : ℕ) → k < n → zeros_below n (2 ^ k) ≡ ok k
unfolding zeros_below
zeros_below-power zero k lt = absurd (omega arith)
zeros_below-power (suc n) zero lt = refl
zeros_below-power (suc n) (suc k) lt =
    let e : 2 ^ suc k ≡ 2 ^ k * 2 = pow-suc 2 k in
    let even : (2 ^ suc k % 2 == 1) ≡ false = ground (arith, e) in
    let half : 2 ^ suc k / 2 ≡ 2 ^ k = omega (arith, e) in
    rw (zeros_below, even, half, zeros_below-power n k (omega arith)) (ap ok (omega arith))

-- The larger of two powers of two, and its bit.
ctz-larger :
    (k m : ℕ)
    → k < 32
    → m < 32
    → (j : ℕ) × (ctz (if ltb (2 ^ k) (2 ^ m) then 2 ^ m else 2 ^ k) ≡ ok j)
      × (2 ^ k ≤ 2 ^ j)
      × (m ≤ j)
      × (j < 32)
unfolding ctz
ctz-larger k m k_in m_in = elim (Bool-cases (ltb (2 ^ k) (2 ^ m))) [
  | inl e ↦ (m, rw e (zeros_below-power 32 m m_in), ground arith, omega arith, m_in)
  | inr e ↦
      let le : 2 ^ m ≤ 2 ^ k = ground arith in
      let some_bit : 1 ≤ 2 ^ m = pow-le-pow_right {n = 2} (omega arith) {i = 0} (omega arith) in
      let under = power-under m (suc k) (omega (arith, pow-suc 2 k)) in
      (k, rw e (zeros_below-power 32 k k_in), omega arith, omega arith, k_in)
]

-- What `1 << n` gives on a machine that takes the count modulo 32, where the result fits an `int`.
abbrev pub TakesMod32 : (ℕ → Run ℕ) → Type 0
TakesMod32 shifted = (n : ℕ) → 32 ≤ n → n < 63 → shifted n ≡ ok (2 ^ (n - 32))

module _ (shifted : ℕ → Run ℕ) (machine : TakesMod32 shifted) where
  -- The power of two that `round_up` gives for a size of 2 to `2 ^ 30`.
  round_up-power :
      (size : ℕ)
      → 2 ≤ size
      → size ≤ 2 ^ 30
      → (k : ℕ) × (round_up shifted size ≡ ok (2 ^ k)) × (k ≤ 30) × (size ≤ 2 ^ k)
  unfolding round_up
  round_up-power size low high =
      let no : (size == 1) ≡ false = ground arith in
      let (t, e, in_word, least, bound) = clz-bit (size - 1) (omega arith) (omega arith) in
      let t_small : t < 30 = power-under t 30 (omega arith) in
      let count : 64 - (31 - t) - 32 ≡ t + 1 = omega arith in
      (
        t + 1,
        rw (round_up, no, e) (machine (64 - (31 - t)) (omega arith) (omega arith) ∙ rw count refl),
        omega arith,
        omega arith,
      )

  order_for-at :
      (a : BuddyAllocator) (size rounded j : ℕ)
      → a.min_order < 32
      → size + header_size < 2 ^ 64
      → round_up shifted (size + header_size) ≡ ok rounded
      → ctz (if ltb rounded (2 ^ a.min_order) then 2 ^ a.min_order else rounded) ≡ ok j
      → order_for shifted a size ≡ ok j
  unfolding order_for
  order_for-at a size rounded j min high e e' =
      let whole : (size + header_size) % 2 ^ 64 ≡ size + header_size = omega arith in
      let least : leb 32 a.min_order ≡ false = ground arith in rw (order_for, whole, e, least) e'

  pub order_for-fits :
      (a : BuddyAllocator) (size : ℕ)
      → a.min_order < 32
      → 0 < size
      → size + header_size ≤ 2 ^ 30
      → (k : ℕ) × (order_for shifted a size ≡ ok k)
        × (size + header_size ≤ 2 ^ k)
        × (a.min_order ≤ k)
        × (k < 32)
  order_for-fits a size min pos high =
      let (k, e, le, fits) = round_up-power (size + header_size) (omega arith) high in
      let (j, e', more, over, word) = ctz-larger k a.min_order (omega arith) min in
      (j, order_for-at a size (2 ^ k) j min (omega arith) e e', le_trans fits more, over, word)
