-- ===== src/Printk/Roundtrip.antt =====
-- The parser of conversions of printk.c on conversions that are written out from their parts.
use fors_kernel.Prelude.{
  ℕ, suc, ◌+◌, ◌^◌, ◌<◌, ◌≡◌, refl, sym, ap, ◌∙◌, Bool-cases, inl, inr, Bool, ◌||◌, ◌&&◌, ◌==◌, leb,
  if◌then◌else◌, codes, true, false, Option, none, some, List, [], ◌∷◌, ◌++◌, arith, length,
  length-append, ok,
}
use fors_kernel.Printk.{
  ConvState, LenModifier, ConversionSpecifier, blank, char_is_flag, char_is_digit,
  char_is_specifier, parse_loop, parse_conversion, defaults_from_convspec, set_flag,
}
use fors_kernel.Printk.Rounds.{
  All, flags_of, decimal, precision_text, modifier_text, not_nul_of_digit, GoesOn-append,
  not_nul_of_flag, parse_flags, parse_width, parse_digits, Stops, begin_flags, leave_flags,
  leave_width, leave_digits, leave_precision, begin_precision, flags_of_keeps,
}
use fors_kernel.Printk.Rounds.Modifier.{
  parse_modifier, parse_convspec, after_width, after_precision,
}

-- Whether a byte is one of a text's, or a decimal digit.
abbrev pub among : ℕ → List ℕ → Bool
among c [] = false
among c (d ∷ ds) = c == d || among c ds

abbrev pub is_flag : ℕ → Bool
is_flag c = among c (codes "#0- +")

abbrev pub is_digit : ℕ → Bool
is_digit c = leb 48 c && leb c 57

abbrev pub is_letter : ℕ → Bool
is_letter c = among c (codes "duxXcsp%")

flag_code : (c : ℕ) → char_is_flag c ≡ is_flag c
unfolding char_is_flag
flag_code c = ground arith

digit_code : (c : ℕ) → char_is_digit c ≡ is_digit c
unfolding char_is_digit
digit_code c = refl

letter_code : (c : ℕ) → char_is_specifier c ≡ is_letter c
unfolding char_is_specifier
letter_code c = ground arith

All-same : (p q : ℕ → Bool) (xs : List ℕ) → ((c : ℕ) → p c ≡ q c) → All q xs → All p xs
All-same p q [] e h = tt
All-same p q (c ∷ cs) e h = (e c ∙ h.0, All-same p q cs e h.1)

-- The digits of a precision that fits an `int`, and the number.
abbrev pub IsPrecision : Option (List ℕ) → Type 0
IsPrecision none = Unit
IsPrecision (some ds) = All is_digit ds × (decimal 0 ds < 2 ^ 31)

abbrev pub precision_of : Option (List ℕ) → ℕ
precision_of none = 0
precision_of (some ds) = decimal 0 ds

-- The rounds that a precision takes.
abbrev precision_rounds : Option (List ℕ) → ℕ
precision_rounds none = 1
precision_rounds (some ds) = length ds + 2

abbrev begins : Option (List ℕ) → Bool
begins none = false
begins (some ds) = true

parse_precision :
    (k : ℕ) (pr : Option (List ℕ)) (m : LenModifier) (c : ℕ) (rest : List ℕ)
    (s : ConversionSpecifier)
    → char_is_specifier c ≡ true
    → IsPrecision pr
    → s.prec ≡ 0
    → parse_loop
        (precision_rounds pr + k)
        ConvState.precision
        false
        s
        (precision_text pr ++ (modifier_text m ++ (c ∷ rest)))
      ≡ parse_loop k ConvState.length_modifier
          (begins pr)
          (record s { prec = precision_of pr })
          (modifier_text m ++ (c ∷ rest))
parse_precision k none m c rest s h hp e =
    let q : 1 + k ≡ suc k = omega arith in
    let (go_on, no_flag, no_digit) = after_width none m c rest h in
    rw q (
      leave_precision k s (modifier_text m ++ (c ∷ rest)) go_on (after_precision m c rest h)
      ∙ ap
          (λ n.
            parse_loop k ConvState.length_modifier false (record s { prec = n })
              (modifier_text m ++ (c ∷ rest)))
          e)
parse_precision k (some ds) m c rest s h hp e =
    let q : length ds + 2 + k ≡ suc (length ds + suc k) = omega arith in
    let digits = All-same char_is_digit is_digit ds digit_code hp.0 in
    let u = modifier_text m ++ (c ∷ rest) in
    let (go_on, no_flag, no_digit) = after_width none m c rest h in
    rw q (
      begin_precision (length ds + suc k) s (ds ++ u)
        (GoesOn-append char_is_digit ds u not_nul_of_digit digits go_on)
      ∙ (parse_digits (suc k) u go_on ds (record s { prec = 0 }) digits hp.1
          ∙ leave_digits k (record s { prec = decimal 0 ds }) u go_on no_digit))

-- The specifier that a conversion stands for: a flag is set where its character is among the flags,
-- and 'p' brings the alternate form and a precision of 16.
abbrev pub spec_of : List ℕ → List ℕ → Option (List ℕ) → LenModifier → ℕ → ConversionSpecifier
spec_of fl ws pr m c = record {
  alternate_form = among b'#' fl || c == b'p';
  zero_padded = among b'0' fl;
  left_adjusted = among b'-' fl;
  positive_pad = among b' ' fl;
  always_sign = among b'+' fl;
  width = decimal 0 ws;
  prec = if c == b'p' then 16 else precision_of pr;
  lenmod = m;
  spec = c;
}

-- The specifier that the code arrives at.
abbrev parsed_spec : List ℕ → List ℕ → Option (List ℕ) → LenModifier → ℕ → ConversionSpecifier
parsed_spec fl ws pr m c = defaults_from_convspec c (record (flags_of fl blank) {
  width = decimal 0 ws;
  prec = precision_of pr;
  lenmod = m;
  spec = c;
})

flags_set :
    (fl : List ℕ) (s : ConversionSpecifier)
    → ((flags_of fl s).alternate_form ≡ (among b'#' fl || s.alternate_form))
      × ((flags_of fl s).zero_padded ≡ (among b'0' fl || s.zero_padded))
      × ((flags_of fl s).left_adjusted ≡ (among b'-' fl || s.left_adjusted))
      × ((flags_of fl s).positive_pad ≡ (among b' ' fl || s.positive_pad))
      × ((flags_of fl s).always_sign ≡ (among b'+' fl || s.always_sign))
unfolding set_flag
flags_set [] s = (refl, refl, refl, refl, refl)
flags_set (c ∷ fl) s =
    let (a, z, l, p, g) = flags_set fl (set_flag c s) in
    (a ∙ ground arith, z ∙ ground arith, l ∙ ground arith, p ∙ ground arith, g ∙ ground arith)

pub or_false : (b : Bool) → (b || false) ≡ b
or_false true = refl
or_false false = refl

or_true : (b : Bool) → (b || true) ≡ true
or_true true = refl
or_true false = refl

parsed_spec-spec_of :
    (fl ws : List ℕ) (pr : Option (List ℕ)) (m : LenModifier) (c : ℕ)
    → parsed_spec fl ws pr m c ≡ spec_of fl ws pr m c
unfolding defaults_from_convspec
parsed_spec-spec_of fl ws pr m c =
    let (a, z, l, p, g) = flags_set fl blank in
    elim (Bool-cases (c == b'p')) [
      | inl e ↦ rw e (λ i. record {
        alternate_form = sym (or_true (among b'#' fl)) i;
        zero_padded = (z ∙ or_false (among b'0' fl)) i;
        left_adjusted = (l ∙ or_false (among b'-' fl)) i;
        positive_pad = (p ∙ or_false (among b' ' fl)) i;
        always_sign = (g ∙ or_false (among b'+' fl)) i;
        width = decimal 0 ws;
        prec = 16;
        lenmod = m;
        spec = c;
      })
      | inr e ↦ rw e (λ i. record {
        alternate_form = a i;
        zero_padded = (z ∙ or_false (among b'0' fl)) i;
        left_adjusted = (l ∙ or_false (among b'-' fl)) i;
        positive_pad = (p ∙ or_false (among b' ' fl)) i;
        always_sign = (g ∙ or_false (among b'+' fl)) i;
        width = decimal 0 ws;
        prec = precision_of pr;
        lenmod = m;
        spec = c;
      })
    ]

-- The text of a conversion, with `rest` behind it.
abbrev pub conversion_text : List ℕ → List ℕ → Option (List ℕ) → LenModifier → ℕ → List ℕ → List ℕ
conversion_text fl ws pr m c rest =
    b'%' ∷ (fl ++ (ws ++ (precision_text pr ++ (modifier_text m ++ (c ∷ rest)))))

-- A width: digits that fit an `int` and do not begin with a zero, which would be a flag.
abbrev pub IsWidth : List ℕ → Type 0
IsWidth [] = Unit
IsWidth (d ∷ ds) = All is_digit (d ∷ ds) × (is_flag d ≡ false) × (decimal 0 (d ∷ ds) < 2 ^ 31)

width_digits : (ws : List ℕ) → IsWidth ws → All char_is_digit ws × (decimal 0 ws < 2 ^ 31)
width_digits [] h = (tt, omega arith)
width_digits (d ∷ ds) h = (All-same char_is_digit is_digit (d ∷ ds) digit_code h.0, h.2)

width-Stops : (ws u : List ℕ) → IsWidth ws → Stops char_is_flag u → Stops char_is_flag (ws ++ u)
width-Stops [] u h s = s
width-Stops (d ∷ ds) u h s = flag_code d ∙ h.1

length-precision : (pr : Option (List ℕ)) → precision_rounds pr ≡ length (precision_text pr) + 1
length-precision none = refl
length-precision (some ds) = omega arith

rounds :
    (fl ws : List ℕ) (pr : Option (List ℕ)) (ms : List ℕ) (c : ℕ) (rest : List ℕ)
    → length (b'%' ∷ (fl ++ (ws ++ (precision_text pr ++ (ms ++ (c ∷ rest)))))) + 6
      ≡ suc (
          length fl
          + suc (
              length ws
              + suc (precision_rounds pr + suc (suc (suc (suc (length ms + length rest)))))))
rounds fl ws pr ms c rest = omega (
  arith,
  length-precision pr,
  length-append fl (ws ++ (precision_text pr ++ (ms ++ (c ∷ rest)))),
  length-append ws (precision_text pr ++ (ms ++ (c ∷ rest))),
  length-append (precision_text pr) (ms ++ (c ∷ rest)),
  length-append ms (c ∷ rest),
)

module _ (fl ws : List ℕ) (pr : Option (List ℕ)) (m : LenModifier) (c : ℕ) (rest : List ℕ)
    (hfl : All is_flag fl) (hws : IsWidth ws) (hpr : IsPrecision pr) (hc : is_letter c ≡ true) where
  parse_rounds :
      (k : ℕ)
      → parse_conversion
          (suc (length fl + suc (length ws + suc (precision_rounds pr + suc (suc k)))))
          (conversion_text fl ws pr m c rest)
        ≡ ok (some (parsed_spec fl ws pr m c, rest))
  unfolding parse_conversion
  parse_rounds k =
      let hf = All-same char_is_flag is_flag fl flag_code hfl in
      let hs : char_is_specifier c ≡ true = letter_code c ∙ hc in
      let u = precision_text pr ++ (modifier_text m ++ (c ∷ rest)) in
      let (go_on, no_flag, no_digit) = after_width pr m c rest hs in
      let (digits, fits) = width_digits ws hws in
      let s = flags_of fl blank in
      let (same_width, same_prec, same_lenmod) = flags_of_keeps fl blank in
      let wide = GoesOn-append char_is_digit ws u not_nul_of_digit digits go_on in
      let s' : ConversionSpecifier = record s { width = decimal s.width ws } in
      begin_flags _ (fl ++ (ws ++ u))
        (GoesOn-append char_is_flag fl (ws ++ u) not_nul_of_flag hf wide)
      ∙ (parse_flags _ (ws ++ u) wide fl blank hf
          ∙ (leave_flags _ s (ws ++ u) wide (width-Stops ws u hws no_flag)
              ∙ (parse_width _ u go_on ws s digits (rw same_width fits)
                  ∙ (leave_width _ s' u go_on no_digit
                      ∙ (parse_precision (suc (suc k)) pr m c rest s' hs hpr same_prec
                          ∙ (parse_modifier (suc k) (begins pr) m
                                (record s' { prec = precision_of pr }) c rest hs same_lenmod
                              ∙ (parse_convspec k (begins pr)
                                    (record s' { prec = precision_of pr; lenmod = m }) c rest hs
                                  ∙ rw same_width)))))))

  -- A conversion of flags, a width, a precision, a length modifier and a conversion character, each
  -- as the source's comment orders them and each but the last optional, is read back: the parser
  -- returns the place behind it, and the specifier whose flags are set where their characters occur,
  -- with the numbers that the digits stand for, the modifier and the character; for 'p' it has the
  -- alternate form and the precision 16.
  pub parse_conversion_roundtrip :
      let text = conversion_text fl ws pr m c rest in
      parse_conversion (length text + 6) text ≡ ok (some (spec_of fl ws pr m c, rest))
  parse_conversion_roundtrip =
      let k = length (modifier_text m) + length rest in
      let e : length (conversion_text fl ws pr m c rest) + 6
          ≡ suc
              (length fl + suc (length ws + suc (precision_rounds pr + suc (suc (suc (suc k)))))) =
        rounds fl ws pr (modifier_text m) c rest in
      rw e (parse_rounds (suc (suc k)))
      ∙ ap (λ s. ok (some (s, rest))) (parsed_spec-spec_of fl ws pr m c)
