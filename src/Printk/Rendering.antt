-- ===== src/Printk/Rendering.antt =====
-- `printk` of printk.c against a format that is read as a list of its pieces.
use fors_kernel.Prelude.{
  ℕ, zero, suc, ◌+◌, ◌<◌, ◌≡◌, refl, ap, ◌∙◌, ◌≢◌, true, false, Bool-cases, inl, inr, Option, none,
  some, List, [], ◌∷◌, ◌==◌, ◌++◌, ◌-◌, ◌%◌, ◌^◌, ◌||◌, ltb, codes, if◌then◌else◌, arith, length,
  Run, ok, fault, ◌>>=◌,
}
use fors_kernel.Prelude.Post.{Post, returns, faults, spent, Post-ok}
use fors_kernel.Printk.{ConversionSpecifier, LenModifier}
use fors_kernel.Printk.Rounds.{All}
use fors_kernel.Printk.Roundtrip.{
  among, or_false, is_flag, is_letter, spec_of, conversion_text, IsWidth, IsPrecision,
  parse_conversion_roundtrip,
}
use fors_kernel.Printk.Output.{Arg, chars, word, kputs, highlighted, print_arg, printk_loop, printk}
use fors_kernel.Printk.Numbers.{print_i64}
use fors_kernel.Printk.Numbers.Hex.{hex_text, print_u64_hex_lem}
use fors_kernel.Prelude.Int.{pos, negsuc}
use fors_kernel.Printk.Shrinks.{IsShorter, parse_conversion-IsShorter}

-- What `printk` does with what the parser returns.
abbrev converted :
    (List ℕ → List Arg → Run (List ℕ))
    → List Arg
    → Option (ConversionSpecifier × List ℕ)
    → Run (List ℕ)
converted loop args r = elim r [
  | none ↦ fault
  | some (spec, rest) ↦ do
    (out, args) ← print_arg spec args
    tail ← loop rest args
    ok (highlighted out tail)
]

converted_same :
    (loop loop' : List ℕ → List Arg → Run (List ℕ)) (args : List Arg) (n : ℕ)
    (r : Run (Option (ConversionSpecifier × List ℕ)))
    → Post (IsShorter n) r
    → ((u : List ℕ) → length u < n → (xs : List Arg) → loop u xs ≡ loop' u xs)
    → (r >>= converted loop args) ≡ (r >>= converted loop' args)
converted_same loop loop' args n _ faults same = refl
converted_same loop loop' args n _ spent same = refl
converted_same loop loop' args n _ (returns {a = none} lt) same = refl
converted_same loop loop' args n _ (returns {a = some (spec, rest)} lt) same =
    λ i. print_arg spec args >>= λ r. same rest lt r.1 i >>= λ tail. ok (highlighted r.0 tail)

-- Rounds beyond the format's length make no difference.
printk_loop_enough :
    (k k' : ℕ) (fmt : List ℕ) (args : List Arg)
    → length fmt < k
    → length fmt < k'
    → printk_loop k fmt args ≡ printk_loop k' fmt args
unfolding printk_loop
printk_loop_enough zero k' fmt args lt lt' = absurd (omega arith)
printk_loop_enough (suc k) zero fmt args lt lt' = absurd (omega arith)
printk_loop_enough (suc k) (suc k') [] args lt lt' = refl
printk_loop_enough (suc k) (suc k') (c ∷ fmt) args lt lt' = elim (Bool-cases (c == 0)) [
  | inl z ↦ rw z refl
  | inr z ↦ elim (Bool-cases (c == b'%')) [
    | inl p ↦
        rw (z, p)
          (converted_same (printk_loop k) (printk_loop k') args (length (c ∷ fmt)) _
            (parse_conversion-IsShorter (length (c ∷ fmt) + 6) (c ∷ fmt))
            (λ u lu xs. printk_loop_enough k k' u xs (omega arith) (omega arith)))
    | inr p ↦
        rw (z, p)
          (ap (λ r. r >>= λ tail. ok (c ∷ tail))
            (printk_loop_enough k k' fmt args (omega arith) (omega arith)))
  ]
]

-- A piece of a format: a byte printed as it is, or a conversion of its flags, width, precision,
-- length modifier and character.
pub data Piece : Type 0 where
  literal : ℕ → Piece
  conversion : List ℕ → List ℕ → Option (List ℕ) → LenModifier → ℕ → Piece

abbrev pub format_text : List Piece → List ℕ
format_text [] = 0 ∷ []
format_text (literal c ∷ ps) = c ∷ format_text ps
format_text (conversion fl ws pr m c ∷ ps) = conversion_text fl ws pr m c (format_text ps)

abbrev pub ArePieces : List Piece → Type 0
ArePieces [] = Unit
ArePieces (literal c ∷ ps) = (c ≢ 0) × (c ≢ b'%') × ArePieces ps
ArePieces (conversion fl ws pr m c ∷ ps) =
    All is_flag fl × IsWidth ws × IsPrecision pr × (is_letter c ≡ true) × ArePieces ps

-- A text in memory up to its zero byte; a fault where it has none.
abbrev pub before_nul : List ℕ → Run (List ℕ)
before_nul [] = fault
before_nul (c ∷ text) = if c == 0 then ok [] else (do rest ← before_nul text; ok (c ∷ rest))

-- What an argument is shown as: text for 's', its low byte for 'c', its 64 bits as `print_i64`
-- prints them for 'd' and 'u' and as hexadecimal digits for 'x' and 'p'; a fault where it is of another
-- kind.
abbrev pub shown : ConversionSpecifier → Arg → Run (List ℕ)
shown spec (chars text) = if spec.spec == b's' then before_nul text else fault
shown spec (word w) =
    if spec.spec == b'c'
    then ok (w % 256 ∷ [])
    else if among spec.spec (codes "du")
    then print_i64 (if ltb w (2 ^ 63) then pos w else negsuc (2 ^ 64 - 1 - w)) spec
    else if among spec.spec (codes "xp")
    then ok ((if spec.alternate_form then codes "0x" else []) ++ hex_text w spec.prec)
    else fault

-- What a conversion shows of the arguments, and those that are left: 'X' and '%' show nothing and
-- take none, the others take the next one.
abbrev pub taken : ConversionSpecifier → List Arg → Run (List ℕ × List Arg)
taken spec [] = if among spec.spec (codes "X%") then ok ([], []) else fault
taken spec (a ∷ args) =
    if among spec.spec (codes "X%")
    then ok ([], a ∷ args)
    else (do out ← shown spec a; ok (out, args))

-- The escape sequences for a colour and for the usual one.
abbrev pub colour : List ℕ
colour = 27 ∷ codes "[36m"

abbrev pub usual : List ℕ
usual = 27 ∷ codes "[37m"

-- What the pieces print.
abbrev pub rendered : List Piece → List Arg → Run (List ℕ)
rendered [] args = ok []
rendered (literal c ∷ ps) args = do tail ← rendered ps args; ok (c ∷ tail)
rendered (conversion fl ws pr m c ∷ ps) args = do
  (out, args) ← taken (spec_of fl ws pr m c) args
  tail ← rendered ps args
  ok (colour ++ (out ++ (usual ++ tail)))

kputs-before_nul : (text : List ℕ) → kputs text ≡ before_nul text
unfolding kputs
kputs-before_nul [] = refl
kputs-before_nul (c ∷ text) = rw (kputs-before_nul text) refl

among_two : (a b c : ℕ) → among c (a ∷ b ∷ []) ≡ (c == a || c == b)
among_two a b c = ap (λ r. c == a || r) (or_false (c == b))

print_arg-taken :
    (spec : ConversionSpecifier) (args : List Arg) → print_arg spec args ≡ taken spec args
unfolding print_arg
print_arg-taken spec [] = rw (among_two b'X' b'%' spec.spec) refl
print_arg-taken spec (chars text ∷ args) =
    rw (among_two b'X' b'%' spec.spec) (elim (Bool-cases (spec.spec == b'X' || spec.spec == b'%')) [
      | inl n ↦ rw n refl
      | inr n ↦ elim (Bool-cases (spec.spec == b's')) [
        | inl t ↦ rw (n, t, kputs-before_nul text) refl
        | inr t ↦ rw (n, t) refl
      ]
    ])
print_arg-taken spec (word w ∷ args) =
    rw (among_two b'X' b'%' spec.spec, among_two b'd' b'u' spec.spec, among_two b'x' b'p' spec.spec)
      (elim (Bool-cases (spec.spec == b'X' || spec.spec == b'%')) [
        | inl n ↦ rw n refl
        | inr n ↦ elim (Bool-cases (spec.spec == b'c')) [
          | inl c ↦ rw (n, c) refl
          | inr c ↦ elim (Bool-cases (spec.spec == b'd' || spec.spec == b'u')) [
            | inl d ↦ rw (n, c, d) refl
            | inr d ↦ elim (Bool-cases (spec.spec == b'x' || spec.spec == b'p')) [
              | inl x ↦ rw (n, c, d, x, print_u64_hex_lem w spec) refl
              | inr x ↦ rw (n, c, d, x) refl
            ]
          ]
        ]
      ])

-- `printk` of a format of literal bytes, neither zero nor a percent sign, and of conversions whose
-- numbers fit an `int` prints the pieces in order: a literal as it is, a conversion as what its
-- specifier shows of the next argument, between the sequences that switch a colour on and off. It
-- faults exactly where an argument is missing, of another kind, a text without an end or a number
-- that `print_i64` cannot print.
pub printk-rendered :
    (ps : List Piece) (args : List Arg)
    → ArePieces ps
    → printk (format_text ps) args ≡ rendered ps args
unfolding printk printk_loop
printk-rendered [] args h = refl
printk-rendered (literal c ∷ ps) args (nz, np, h) =
    let z : (c == 0) ≡ false = ground arith in
    let p : (c == b'%') ≡ false = ground arith in
    rw (z, p) (ap (λ r. r >>= λ tail. ok (c ∷ tail)) (printk-rendered ps args h))
printk-rendered (conversion fl ws pr m c ∷ ps) args (hfl, hws, hpr, hc, h) =
    let rest = format_text ps in
    let text = conversion_text fl ws pr m c rest in
    let e = parse_conversion_roundtrip fl ws pr m c rest hfl hws hpr hc in
    let lt : length rest < length text =
      Post-ok (parse_conversion-IsShorter (length text + 6) text) e in
    let same : (xs : List Arg) → printk_loop (length text) rest xs ≡ rendered ps xs = λ xs.
      printk_loop_enough (length text) (suc (length rest)) rest xs lt (omega arith)
      ∙ printk-rendered ps xs h in
    ap (λ r. r >>= converted (printk_loop (length text)) args) e ∙ λ i.
    print_arg-taken (spec_of fl ws pr m c) args i >>= λ r.
    same r.1 i >>= λ tail. ok (highlighted r.0 tail)
