-- ===== src/Printk/Numbers.antt =====
-- The printers of numbers of kernel/src/generic/printk.c, and what they print.
pub mod Hex
use fors_kernel.Prelude.{
  ℕ, zero, suc, ◌+◌, ◌-◌, ◌*◌, ◌/◌, ◌%◌, ◌^◌, ◌<◌, ◌≤◌, ◌≡◌, refl, ap, ◌∙◌, ◌≢◌, Bool, true, false,
  ◌||◌, inl, inr, Bool-cases, List, [], ◌∷◌, ◌++◌, map, ◌==◌, ltb, leb, if◌then◌else◌, arith,
  length, length-append, set, replicate, length-replicate, Run, ok, fault, ◌>>=◌,
}
use Prim.Native.Nat.{max, min}
use mathlib.Core.List.{append-nil}
use native.Mathlib.Nat.{pow-suc}
use native.Mathlib.Decide.{dec_le}
use fors_kernel.Prelude.Int.{ℤ, pos, negsuc}
use fors_kernel.Printk.{ConversionSpecifier}

abbrev pub i64_buf_len : ℕ
i64_buf_len = 64

-- `for (i = …; x; x /= 10, i--) buf[i] = x % 10`, where `left` is `i + 1`.
unfoldable pub fill : ℕ → ℕ → List ℕ → Run (List ℕ)
fill zero x buf = if x == 0 then ok buf else fault
fill (suc i) x buf =
    let rest = fill i (x / 10) (set buf i (x % 10)) in if x == 0 then ok buf else rest

-- The loop over the buffer, of which `left` entries are left: what it prints.
unfoldable pub emit : ConversionSpecifier → Bool → List ℕ → List ℕ
emit spec done [] = []
emit spec done (d ∷ ds) =
    let left = length (d ∷ ds) in
    let done' = if d == 0 then done else true in
    let rest = emit spec done' ds in
    if leb left spec.prec || (done' || left == 1)
    then (b'0' + d) ∷ rest
    else if leb left spec.width
    then b' ' ∷ rest
    else rest

-- What is printed in front of the number.
unfoldable pub sign : ℤ → ConversionSpecifier → List ℕ
sign (negsuc n) spec = b'-' ∷ []
sign (pos n) spec = if spec.always_sign then b'+' ∷ [] else []

-- The argument without its sign; `x *= -1` overflows at the least value.
unfoldable pub magnitude : ℤ → Run ℕ
magnitude (pos n) = ok n
magnitude (negsuc n) = if n == 2 ^ 63 - 1 then fault else ok (suc n)

unfoldable pub print_i64 : ℤ → ConversionSpecifier → Run (List ℕ)
print_i64 x spec = do
  n ← magnitude x
  buf ← fill i64_buf_len n (replicate i64_buf_len 0)
  ok (sign x spec ++ emit spec false buf)

unfoldable pub hex_digit : ℕ → ℕ
hex_digit d = if ltb d 10 then b'0' + d else b'a' + (d - 10)

-- The loop of `print_u64_hex` for `i` from `left - 1` down to 0.
unfoldable pub emit_hex : ConversionSpecifier → Bool → ℕ → ℕ → List ℕ
unfolding hex_digit
emit_hex spec done x zero = []
emit_hex spec done x (suc i) =
    let d = (x / 16 ^ i) % 16 in
    let done' = if d == 0 then done else true in
    let rest = emit_hex spec done' x i in
    if leb (16 - i) spec.prec || (done' || i == 0) then hex_digit d ∷ rest else rest

unfoldable pub print_u64_hex : ℕ → Bool → ConversionSpecifier → List ℕ
unfolding emit_hex
print_u64_hex x uppercase spec =
    (if spec.alternate_form then (if uppercase then b'0' ∷ b'X' ∷ [] else b'0' ∷ b'x' ∷ []) else [])
    ++ emit_hex spec false x 16

-- The number that digits stand for, behind a number.
abbrev pub value : ℕ → List ℕ → ℕ
value n [] = n
value n (d ∷ ds) = value (n * 10 + d) ds

abbrev pub AreSmall : List ℕ → Type 0
AreSmall [] = Unit
AreSmall (d ∷ ds) = (d < 10) × AreSmall ds

abbrev pub Leads : List ℕ → Type 0
Leads [] = Unit
Leads (d ∷ ds) = d ≢ 0

-- The decimal digits of a number, none for 0: each below ten, the first not zero, and they stand
-- for the number.
pub record AreDigits (n : ℕ) (ds : List ℕ) : Type 0 where
  pub small : AreSmall ds
  pub leads : Leads ds
  pub stand : value 0 ds ≡ n

set-zeros :
    (i : ℕ) (d : ℕ) (ds : List ℕ) → set (replicate (suc i) 0 ++ ds) i d ≡ replicate i 0 ++ (d ∷ ds)
set-zeros zero d ds = refl
set-zeros (suc i) d ds = ap (λ l. 0 ∷ l) (set-zeros i d ds)

-- The loop fills the end of the buffer with the number's digits, in front of those that are there.
fill_lem :
    (i x : ℕ) (ds : List ℕ)
    → x < 10 ^ i
    → AreSmall ds
    → (x ≡ 0 → Leads ds)
    → (j : ℕ) × (es : List ℕ) × (fill i x (replicate i 0 ++ ds) ≡ ok (replicate j 0 ++ es))
      × AreSmall es
      × Leads es
      × (value 0 es ≡ value x ds)
      × (j + length es ≡ i + length ds)
unfolding fill
fill_lem zero x ds lt small leads =
    let e : x ≡ 0 = omega arith in (0, ds, rw e, small, leads e, rw e, omega arith)
fill_lem (suc i) x ds lt small leads = elim (Bool-cases (x == 0)) [
  | inl e ↦ let q : x ≡ 0 = ground arith in (suc i, ds, rw e, small, leads q, rw q, refl)
  | inr ne ↦
      let bound : x / 10 < 10 ^ i = omega (arith, pow-suc 10 i) in
      let ne' : x ≢ 0 = ground arith in
      let (j, es, q, s, l, v, n) =
        fill_lem i (x / 10) (x % 10 ∷ ds) bound (omega arith, small) (λ z h. ne' (omega arith)) in
      (
        j,
        es,
        rw (ne, set-zeros i (x % 10) ds) q,
        s,
        l,
        v ∙ ap (λ n. value n ds) (omega arith),
        omega arith,
      )
]

abbrev pub as_chars : List ℕ → List ℕ
as_chars ds = map (λ d. b'0' + d) ds

emit_done : (spec : ConversionSpecifier) (ds : List ℕ) → emit spec true ds ≡ as_chars ds
unfolding emit
emit_done spec [] = refl
emit_done spec (d ∷ ds) =
    let e : (if d == 0 then true else true) ≡ true = ground arith in
    rw (e, emit_done spec ds) (ground arith)

emit-Leads :
    (spec : ConversionSpecifier) (ds : List ℕ) → Leads ds → emit spec false ds ≡ as_chars ds
unfolding emit
emit-Leads spec [] h = refl
emit-Leads spec (d ∷ ds) h =
    let e : (if d == 0 then false else true) ≡ true = ground arith in
    rw (e, emit_done spec ds) (ground arith)

-- How many zeros and how many blanks stand in front of `k` digits in a buffer of `n`.
abbrev pub zeros_of : ℕ → ℕ → ℕ → ℕ
zeros_of prec n k = min n (max prec 1) - k

abbrev pub blanks_of : ℕ → ℕ → ℕ → ℕ → ℕ
blanks_of width prec n k = min width n - max k (min n (max prec 1))

emit_lem :
    (spec : ConversionSpecifier) (j : ℕ) (ds : List ℕ)
    → Leads ds
    → let n = j + length ds in
      let k = length ds in
      emit spec false (replicate j 0 ++ ds)
      ≡ replicate (blanks_of spec.width spec.prec n k) b' '
        ++ (replicate (zeros_of spec.prec n k) b'0' ++ as_chars ds)
unfolding emit
emit_lem spec zero ds h =
    let z : zeros_of spec.prec (0 + length ds) (length ds) ≡ 0 = omega arith in
    let s : blanks_of spec.width spec.prec (0 + length ds) (length ds) ≡ 0 = omega arith in
    rw (z, s) (emit-Leads spec ds h)
emit_lem spec (suc j) ds h =
    let k = length ds in
    let n = j + k in
    let l : length (replicate j 0 ++ ds) ≡ n =
      omega (arith, length-append (replicate j 0) ds, length-replicate {A = ℕ} j 0) in
    let q : suc j + k ≡ suc n = omega arith in
    let ih = emit_lem spec j ds h in
    elim (dec_le (suc n) (max spec.prec 1)) [
      | yes le ↦
          let z : zeros_of spec.prec (suc n) k ≡ suc (zeros_of spec.prec n k) = omega arith in
          let s : blanks_of spec.width spec.prec (suc n) k ≡ 0 = omega arith in
          let s' : blanks_of spec.width spec.prec n k ≡ 0 = omega arith in
          let t : (leb (suc n) spec.prec || (suc n == 1)) ≡ true = ground arith in
          rw (q, z, s, l, t, ih, s') refl
      | no gt ↦
          let z : zeros_of spec.prec (suc n) k ≡ zeros_of spec.prec n k = omega arith in
          let t : (leb (suc n) spec.prec || (suc n == 1)) ≡ false = ground arith in
          elim (Bool-cases (leb (suc n) spec.width)) [
            | inl w ↦
                let s : blanks_of spec.width spec.prec (suc n) k
                    ≡ suc (blanks_of spec.width spec.prec n k) =
                  let w' : suc n ≤ spec.width = ground arith in omega arith in
                rw (q, z, s, l, t, w, ih) refl
            | inr w ↦
                let s : blanks_of spec.width spec.prec (suc n) k
                    ≡ blanks_of spec.width spec.prec n k =
                  let w' : spec.width < suc n = ground arith in omega arith in
                rw (q, z, s, l, t, w, ih) refl
          ]
    ]

print_run :
    (x : ℤ) (spec : ConversionSpecifier) (n : ℕ) (buf out : List ℕ)
    → magnitude x ≡ ok n
    → fill i64_buf_len n (replicate i64_buf_len 0) ≡ ok buf
    → emit spec false buf ≡ out
    → print_i64 x spec ≡ ok (sign x spec ++ out)
unfolding print_i64
print_run x spec n buf out m f e = rw (m, f, e) refl

-- The same over what the code takes as the sign and the magnitude.
print_magnitude :
    (x : ℤ) (spec : ConversionSpecifier) (n : ℕ)
    → magnitude x ≡ ok n
    → n ≤ 2 ^ 63
    → (ds : List ℕ) × AreDigits n ds
      × (print_i64 x spec
          ≡ ok (
              sign x spec
              ++ (replicate (blanks_of spec.width spec.prec 64 (length ds)) b' '
                  ++ (replicate (zeros_of spec.prec 64 (length ds)) b'0' ++ as_chars ds))))
print_magnitude x spec n m lt =
    let (j, ds, q, s, l, v, total) = fill_lem 64 n [] (omega arith) tt (λ e. tt) in
    let q' : fill i64_buf_len n (replicate i64_buf_len 0) ≡ ok (replicate j 0 ++ ds) =
      rw append-nil at q in
    let e : j + length ds ≡ 64 = omega arith in
    (
      ds,
      record { small = s; leads = l; stand = v },
      print_run x spec n (replicate j 0 ++ ds) _ m q' (rw e at (emit_lem spec j ds l)),
    )

-- The absolute value, and what stands for the sign: '-' below zero, and else '+' where it is wanted.
abbrev pub absolute : ℤ → ℕ
absolute (pos n) = n
absolute (negsuc n) = n + 1

abbrev pub sign_text : ℤ → Bool → List ℕ
sign_text (pos n) plus = if plus then 43 ∷ [] else []
sign_text (negsuc n) plus = 45 ∷ []

-- `print_i64` of every value but the least prints the sign, '-' for a negative number and for the
-- others '+' where the flag for it is set, then blanks up to the field width, then zeros up to the
-- precision (at least one digit), then the decimal digits of the absolute value; the width and the
-- precision count no further than the 64 places of the buffer.
pub print_i64_lem :
    (x : ℤ) (spec : ConversionSpecifier)
    → absolute x < 2 ^ 63
    → (ds : List ℕ) × AreDigits (absolute x) ds
      × (print_i64 x spec
          ≡ ok (
              sign_text x spec.always_sign
              ++ (replicate (blanks_of spec.width spec.prec 64 (length ds)) b' '
                  ++ (replicate (zeros_of spec.prec 64 (length ds)) b'0' ++ as_chars ds))))
unfolding sign magnitude
print_i64_lem (pos n) spec lt = print_magnitude (pos n) spec n refl (omega arith)
print_i64_lem (negsuc n) spec lt =
    let fits : (n == 2 ^ 63 - 1) ≡ false = ground arith in
    print_magnitude (negsuc n) spec (n + 1) (rw fits (ap ok (omega arith))) (omega arith)
