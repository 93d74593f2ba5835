-- ===== src/Prelude/Bits.antt =====
-- The words' bits: the or of two numbers digit by digit, for the entries, masks and command bytes
-- that the drivers put together.
use Prim.Native.Nat.{
  ℕ, zero, suc, ◌+◌, ◌*◌, ◌/◌, ◌%◌, ◌≤◌, ◌<◌, min, max, bit_and, bit_or, digits, bit_and-bitwise,
  bit_or-bitwise,
}
use mathlib.Core.Path.{◌≡◌, refl, sym, ap, ◌∙◌}
use mathlib.Core.Bool.{Bool, true, false}
use mathlib.Core.Logic.{inl, inr}
use native.Mathlib.Omega.{arith}
use fors_kernel.Prelude.Tests.{◌==◌, if◌then◌else◌, Bool-cases}

-- An operation digit by digit does not depend on the count of digits to go, when that is enough.
module _ (rest : ℕ → ℕ) (op : ℕ → ℕ → ℕ) where
  digits_enough : (n m a b : ℕ) → a ≤ n → a ≤ m → digits rest op n a b ≡ digits rest op m a b
  digits_enough n m zero b le le' = digits_none n b ∙ sym (digits_none m b)
    where
      digits_none : (k b : ℕ) → digits rest op k zero b ≡ rest b
      digits_none zero b = refl
      digits_none (suc k) b = refl
  digits_enough (suc n) (suc m) (suc a) b le le' =
      let less = digits_enough n m (suc a / 2) (b / 2) (omega arith) (omega arith) in
      ap (λ d. d * 2 + op (suc a % 2) (b % 2)) less
  digits_enough zero m (suc a) b le le' = absurd (omega arith)
  digits_enough (suc n) zero (suc a) b le le' = absurd (omega arith)

pub zero-bit_or : (b : ℕ) → bit_or 0 b ≡ b
zero-bit_or b = bit_or-bitwise 0 b

pub bit_or_step : (a b : ℕ) → bit_or a b ≡ bit_or (a / 2) (b / 2) * 2 + max (a % 2) (b % 2)
bit_or_step zero b = omega (arith, zero-bit_or b, zero-bit_or (b / 2))
bit_or_step (suc a) b = omega (
  arith,
  bit_or-bitwise (suc a) b,
  bit_or-bitwise (suc a / 2) (b / 2),
  digits_enough (λ r. r) max a (suc a / 2) (suc a / 2) (b / 2) (omega arith) (omega arith),
)

bit_or-zero_enough : (n a : ℕ) → a ≤ n → bit_or a 0 ≡ a
bit_or-zero_enough n zero le = refl
bit_or-zero_enough zero (suc a) le = absurd (omega arith)
bit_or-zero_enough (suc n) (suc a) le =
    omega (arith, bit_or_step (suc a) 0, bit_or-zero_enough n (suc a / 2) (omega arith))

pub bit_or-zero : (a : ℕ) → bit_or a 0 ≡ a
bit_or-zero a = bit_or-zero_enough a a (omega arith)

-- The digits from a place on are the or of the digits from there on.
pub bit_or-half : (a b : ℕ) → bit_or a b / 2 ≡ bit_or (a / 2) (b / 2)
bit_or-half a b = omega (arith, bit_or_step a b)

-- `a >> k`, a place at a time.
abbrev pub halved : ℕ → ℕ → ℕ
halved zero a = a
halved (suc k) a = halved k (a / 2)

pub halved-bit_or : (k a b : ℕ) → halved k (bit_or a b) ≡ bit_or (halved k a) (halved k b)
halved-bit_or zero a b = refl
halved-bit_or (suc k) a b = ap (halved k) (bit_or-half a b) ∙ halved-bit_or k (a / 2) (b / 2)

pub bit_or-mod2 : (a b : ℕ) → bit_or a b % 2 ≡ max (a % 2) (b % 2)
bit_or-mod2 a b = omega (arith, bit_or_step a b)

-- `a << k`, a place at a time.
abbrev pub doubled : ℕ → ℕ → ℕ
doubled zero a = a
doubled (suc k) a = doubled k a * 2

-- A number below `1 << k` and one shifted by `k` places share no digit.
pub bit_or-doubled : (k a c : ℕ) → a < doubled k 1 → bit_or a (doubled k c) ≡ a + doubled k c
bit_or-doubled zero a c lt = let e : a ≡ 0 = omega arith in rw e (omega (arith, zero-bit_or c))
bit_or-doubled (suc k) a c lt =
    let half : doubled k c * 2 / 2 ≡ doubled k c = omega arith in
    let ih = bit_or-doubled k (a / 2) c (omega arith) in
    let step = bit_or_step a (doubled k c * 2) in
    let step' = rw half at step in omega (arith, ih, step')

bit_and-step : (a b : ℕ) → bit_and a b ≡ bit_and (a / 2) (b / 2) * 2 + min (a % 2) (b % 2)
bit_and-step zero b = omega (arith, bit_and-bitwise 0 b, bit_and-bitwise 0 (b / 2))
bit_and-step (suc a) b = omega (
  arith,
  bit_and-bitwise (suc a) b,
  bit_and-bitwise (suc a / 2) (b / 2),
  digits_enough (λ r. 0) min a (suc a / 2) (suc a / 2) (b / 2) (omega arith) (omega arith),
)

pub halved-bit_and : (k a b : ℕ) → halved k (bit_and a b) ≡ bit_and (halved k a) (halved k b)
halved-bit_and zero a b = refl
halved-bit_and (suc k) a b =
    let half : bit_and a b / 2 ≡ bit_and (a / 2) (b / 2) = omega (arith, bit_and-step a b) in
    ap (halved k) half ∙ halved-bit_and k (a / 2) (b / 2)

-- The digit at a place.
abbrev pub bit : ℕ → ℕ → ℕ
bit k a = halved k a % 2

pub bit-bit_or : (k a b : ℕ) → bit k (bit_or a b) ≡ max (bit k a) (bit k b)
bit-bit_or k a b = ap (λ h. h % 2) (halved-bit_or k a b) ∙ bit_or-mod2 (halved k a) (halved k b)

pub bit-bit_and : (k a b : ℕ) → bit k (bit_and a b) ≡ min (bit k a) (bit k b)
bit-bit_and k a b =
    ap (λ h. h % 2) (halved-bit_and k a b) ∙ omega (arith, bit_and-step (halved k a) (halved k b))

-- A test passed by each number under a bound.
unfoldable pub each_under : ℕ → (ℕ → Bool) → Bool
each_under zero test = true
each_under (suc n) test = if test n then each_under n test else false

pub each_under-passes :
    (n : ℕ) (test : ℕ → Bool) → each_under n test ≡ true → (k : ℕ) → k < n → test k ≡ true
unfolding each_under
each_under-passes zero test e k lt = absurd (omega arith)
each_under-passes (suc n) test e k lt = elim (Bool-cases (test n)) [
  | inl here ↦ elim (Bool-cases (k == n)) [
    | inl k_n ↦ let q : k ≡ n = ground arith in ap test q ∙ here
    | inr less ↦
        let e' : each_under n test ≡ true = rw (here, each_under) at e in
        each_under-passes n test e' k (ground arith)
  ]
  | inr fails ↦ absurd (let e' : false ≡ true = rw (fails, each_under) at e in cc)
]
