-- ===== src/Printk/Numbers/Hex.antt =====
-- What `print_u64_hex` of kernel/src/generic/printk.c prints.
use fors_kernel.Prelude.{
  ℕ, zero, suc, ◌+◌, ◌-◌, ◌/◌, ◌%◌, ◌^◌, ◌≤◌, ◌≡◌, refl, ap, ◌∙◌, Bool, true, false, ◌&&◌, ◌||◌,
  not, inl, inr, Bool-cases, List, [], ◌∷◌, ◌++◌, map, take, drop, ◌==◌, ltb, leb, if◌then◌else◌,
  arith, codes,
}
use Prim.Native.Nat.{min}
use native.Mathlib.Decide.{dec_le}
use fors_kernel.Printk.{ConversionSpecifier}
use fors_kernel.Printk.Numbers.{hex_digit, emit_hex, print_u64_hex}

-- The last `i` hexadecimal digits of a number, the highest first.
abbrev pub nibbles : ℕ → ℕ → List ℕ
nibbles x zero = []
nibbles x (suc i) = x / 16 ^ i % 16 ∷ nibbles x i

abbrev pub hex_char : ℕ → ℕ
hex_char d = if ltb d 10 then 48 + d else 87 + d

-- The digits without the zeros in front of them; the last digit stays.
abbrev pub stripped : List ℕ → List ℕ
stripped [] = []
stripped (d ∷ []) = d ∷ []
stripped (d ∷ e ∷ ds) = if d == 0 then stripped (e ∷ ds) else d ∷ e ∷ ds

abbrev pub all_zero : List ℕ → Bool
all_zero [] = true
all_zero (d ∷ ds) = d == 0 && all_zero ds

-- The sixteen digits of a number, of which the first `prec` are kept and the zeros that are then in
-- front are not.
abbrev pub hex_text : ℕ → ℕ → List ℕ
hex_text x prec =
    let p = min prec 16 in
    let front = take p (nibbles x 16) in
    let back = drop p (nibbles x 16) in
    map hex_char (front ++ (if all_zero front then stripped back else back))

hex_digit-hex_char : (d : ℕ) → hex_digit d ≡ hex_char d
unfolding hex_digit
hex_digit-hex_char d = ground arith

-- One round that prints its digit, and one that does not.
emit_hex_prints :
    (spec : ConversionSpecifier) (done done' : Bool) (x i : ℕ)
    → (if x / 16 ^ i % 16 == 0 then done else true) ≡ done'
    → (leb (16 - i) spec.prec || (done' || i == 0)) ≡ true
    → emit_hex spec done x (suc i) ≡ hex_char (x / 16 ^ i % 16) ∷ emit_hex spec done' x i
unfolding emit_hex
emit_hex_prints spec done done' x i e t = rw (e, t, hex_digit-hex_char (x / 16 ^ i % 16)) refl

emit_hex_skips :
    (spec : ConversionSpecifier) (done done' : Bool) (x i : ℕ)
    → (if x / 16 ^ i % 16 == 0 then done else true) ≡ done'
    → (leb (16 - i) spec.prec || (done' || i == 0)) ≡ false
    → emit_hex spec done x (suc i) ≡ emit_hex spec done' x i
unfolding emit_hex
emit_hex_skips spec done done' x i e t = rw (e, t) refl

emit_hex-zero : (spec : ConversionSpecifier) (done : Bool) (x : ℕ) → emit_hex spec done x 0 ≡ []
unfolding emit_hex
emit_hex-zero spec done x = refl

emit_hex_done :
    (spec : ConversionSpecifier) (x i : ℕ) → emit_hex spec true x i ≡ map hex_char (nibbles x i)
emit_hex_done spec x zero = emit_hex-zero spec true x
emit_hex_done spec x (suc i) =
    emit_hex_prints spec true true x i (ground arith) (ground arith)
    ∙ ap (λ ds. hex_char (x / 16 ^ i % 16) ∷ ds) (emit_hex_done spec x i)

-- Behind the precision.
emit_hex-stripped :
    (spec : ConversionSpecifier) (x i : ℕ)
    → spec.prec + i ≤ 16
    → emit_hex spec false x i ≡ map hex_char (stripped (nibbles x i))
emit_hex-stripped spec x zero le = emit_hex-zero spec false x
emit_hex-stripped spec x (suc zero) le =
    emit_hex_prints spec false _ x 0 refl (ground arith)
    ∙ ap (λ ds. hex_char (x / 16 ^ 0 % 16) ∷ ds) (emit_hex-zero spec _ x)
emit_hex-stripped spec x (suc (suc i)) le =
    let d = x / 16 ^ suc i % 16 in
    elim (Bool-cases (d == 0)) [
      | inl z ↦
          emit_hex_skips spec false false x (suc i) (ground arith) (ground arith)
          ∙ (emit_hex-stripped spec x (suc i) (omega arith) ∙ rw z refl)
      | inr n ↦
          emit_hex_prints spec false true x (suc i) (ground arith) (ground arith)
          ∙ (ap (λ ds. hex_char d ∷ ds) (emit_hex_done spec x (suc i)) ∙ rw n refl)
    ]

-- The rest behind `front`, where `done` says whether a digit came before.
abbrev rest_of : Bool → List ℕ → List ℕ → List ℕ
rest_of done front back = if not done && all_zero front then stripped back else back

rest_step :
    (done : Bool) (d : ℕ) (front back : List ℕ)
    → rest_of (if d == 0 then done else true) front back ≡ rest_of done (d ∷ front) back
rest_step true d front back =
    let e : (if d == 0 then true else true) ≡ true = ground arith in rw e refl
rest_step false d front back = elim (Bool-cases (d == 0)) [ inl z ↦ rw z refl | inr n ↦ rw n refl ]

emit_hex-front :
    (spec : ConversionSpecifier) (done : Bool) (x j i : ℕ)
    → 16 ≤ spec.prec + i
    → emit_hex spec false x i ≡ map hex_char (stripped (nibbles x i))
    → let ds = nibbles x (j + i) in
      emit_hex spec done x (j + i)
      ≡ map hex_char (take j ds ++ rest_of done (take j ds) (drop j ds))
emit_hex-front spec true x zero i le base =
    let e : 0 + i ≡ i = omega arith in rw e (emit_hex_done spec x i)
emit_hex-front spec false x zero i le base = let e : 0 + i ≡ i = omega arith in rw e base
emit_hex-front spec done x (suc j) i le base =
    let e : suc j + i ≡ suc (j + i) = omega arith in
    let d = x / 16 ^ (j + i) % 16 in
    let ds = nibbles x (j + i) in
    let done' = if d == 0 then done else true in
    rw e (
      emit_hex_prints spec done done' x (j + i) refl (ground arith)
      ∙ (ap (λ r. hex_char d ∷ r) (emit_hex-front spec done' x j i le base)
          ∙ ap (λ r. hex_char d ∷ map hex_char (take j ds ++ r))
              (rest_step done d (take j ds) (drop j ds))))

emit_hex_from :
    (spec : ConversionSpecifier) (x j i : ℕ)
    → j ≡ min spec.prec 16
    → j + i ≡ 16
    → emit_hex spec false x 16 ≡ hex_text x spec.prec
emit_hex_from spec x j i q e =
    let base : emit_hex spec false x i ≡ map hex_char (stripped (nibbles x i)) =
      elim (dec_le spec.prec 16) [
        | yes le ↦ emit_hex-stripped spec x i (omega arith)
        | no gt ↦ let z : i ≡ 0 = omega arith in rw z (emit_hex-zero spec false x)
      ] in
    let whole = rw e at (emit_hex-front spec false x j i (omega arith) base) in rw (← q) whole

-- `print_u64_hex` without capitals prints "0x" for the alternate form, and then of the sixteen
-- hexadecimal digits the first ones up to the precision and those behind, less the zeros that stand in
-- front where no other digit does; the last digit stays.
pub print_u64_hex_lem :
    (x : ℕ) (spec : ConversionSpecifier)
    → print_u64_hex x false spec
      ≡ (if spec.alternate_form then codes "0x" else []) ++ hex_text x spec.prec
unfolding print_u64_hex
print_u64_hex_lem x spec =
    let j = min spec.prec 16 in
    ap (λ r. (if spec.alternate_form then codes "0x" else []) ++ r)
      (emit_hex_from spec x j (16 - j) refl (omega arith))
