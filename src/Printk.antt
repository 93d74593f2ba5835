-- ===== src/Printk.antt =====
-- Formatted output, kernel/src/generic/printk.c: the parser of conversions and the printers of
-- numbers. Text is a list of bytes; what a function prints is the list of bytes that it gives to
-- `kputc`.
pub mod Parse
pub mod Rounds
pub mod Roundtrip
pub mod Numbers
pub mod Output
pub mod Shrinks
pub mod Rendering
use fors_kernel.Prelude.{
  ℕ, zero, suc, ◌+◌, ◌-◌, ◌*◌, ◌^◌, Bool, true, false, not, ◌&&◌, ◌||◌, Option, none, some, List,
  [], ◌∷◌, ltb, leb, ◌==◌, if◌then◌else◌, Run, ok, fault, out_of_fuel, ◌>>=◌,
}

-- `conv_state`
pub data ConvState : Type 0 where
  start flags field_width precision length_modifier convspec : ConvState

-- `len_modifier`
pub data LenModifier : Type 0 where
  lm_none lm_hh lm_h lm_l lm_ll lm_z : LenModifier

-- `conversion_specifier`
pub record ConversionSpecifier : Type 0 where
  pub alternate_form : Bool
  pub zero_padded : Bool
  pub left_adjusted : Bool
  pub positive_pad : Bool
  pub always_sign : Bool
  pub width : ℕ
  pub prec : ℕ
  pub lenmod : LenModifier
  pub spec : ℕ

unfoldable pub char_is_specifier : ℕ → Bool
char_is_specifier c =
    c == b'd'
    || (c == b'u'
        || (c == b'x' || (c == b'X' || (c == b'c' || (c == b's' || (c == b'p' || c == b'%'))))))

unfoldable pub char_is_flag : ℕ → Bool
char_is_flag c = c == b'#' || (c == b'0' || (c == b'-' || (c == b' ' || c == b'+')))

unfoldable pub char_is_digit : ℕ → Bool
char_is_digit c = leb b'0' c && leb c b'9'

unfoldable pub defaults_from_convspec : ℕ → ConversionSpecifier → ConversionSpecifier
defaults_from_convspec c s = if c == b'p' then record s { prec = 16; alternate_form = true } else s

-- The specifier before the first character.
abbrev pub blank : ConversionSpecifier
blank = record {
  alternate_form = false;
  zero_padded = false;
  left_adjusted = false;
  positive_pad = false;
  always_sign = false;
  width = 0;
  prec = 0;
  lenmod = LenModifier.lm_none;
  spec = 0;
}

unfoldable pub set_flag : ℕ → ConversionSpecifier → ConversionSpecifier
set_flag c s =
    if c == b'#'
    then record s { alternate_form = true }
    else if c == b'0'
    then record s { zero_padded = true }
    else if c == b'-'
    then record s { left_adjusted = true }
    else if c == b' '
    then record s { positive_pad = true }
    else if c == b'+'
    then record s { always_sign = true }
    else s

-- `n *= 10; n += c - '0'` on an `int`; an overflow is undefined.
unfoldable pub add_digit : ℕ → ℕ → Run ℕ
add_digit n c = if ltb (n * 10 + (c - b'0')) (2 ^ 31) then ok (n * 10 + (c - b'0')) else fault

-- What a round of the loop of `parse_conversion` decides: to go on, in a state and at a place of
-- the text, or to return NULL or a place with the specifier.
pub data Turn : Type 0 where
  go : ConvState → Bool → ConversionSpecifier → List ℕ → Turn
  give_up : Turn
  finish : ConversionSpecifier → List ℕ → Turn

-- The length modifier at `c`, followed by `t`, with the place of its last character; none where
-- there is no modifier.
unfoldable pub modifier : ℕ → List ℕ → Option (LenModifier × List ℕ)
modifier c [] =
    if c == b'h'
    then some (LenModifier.lm_h, [])
    else if c == b'l'
    then some (LenModifier.lm_l, [])
    else if c == b'z'
    then some (LenModifier.lm_z, [])
    else none
modifier c (d ∷ t) =
    if c == b'h'
    then some (if d == b'h' then (LenModifier.lm_hh, t) else (LenModifier.lm_h, d ∷ t))
    else if c == b'l'
    then some (if d == b'l' then (LenModifier.lm_ll, t) else (LenModifier.lm_l, d ∷ t))
    else if c == b'z'
    then some (LenModifier.lm_z, d ∷ t)
    else none

-- One round at the character `c`, followed by `t`; `begun` is `precision_begun`.
unfoldable pub turn : ConvState → Bool → ConversionSpecifier → ℕ → List ℕ → Run Turn
unfolding char_is_flag char_is_digit char_is_specifier set_flag add_digit modifier
    defaults_from_convspec
turn ConvState.start begun s c t =
    ok (if c == b'%' then Turn.go ConvState.flags begun s t else Turn.give_up)
turn ConvState.flags begun s c t = ok (
    if not (char_is_flag c)
    then Turn.go ConvState.field_width begun s (c ∷ t)
    else Turn.go ConvState.flags begun (set_flag c s) t)
turn ConvState.field_width begun s c t =
    if not (char_is_digit c) then ok (Turn.go ConvState.precision begun s (c ∷ t)) else (do
      n ← add_digit s.width c
      ok (Turn.go ConvState.field_width begun (record s { width = n }) t))
turn ConvState.precision true s c t =
    if not (char_is_digit c) then ok (Turn.go ConvState.length_modifier true s (c ∷ t)) else (do
      n ← add_digit s.prec c
      ok (Turn.go ConvState.precision true (record s { prec = n }) t))
turn ConvState.precision false s c t = ok (
    if c == b'.'
    then Turn.go ConvState.precision true (record s { prec = 0 }) t
    else Turn.go ConvState.length_modifier false s (c ∷ t))
turn ConvState.length_modifier begun s c t = ok (elim (modifier c t) [
  | none ↦ Turn.go ConvState.convspec begun s (c ∷ t)
  | some (m, u) ↦ Turn.go ConvState.convspec begun (record s { lenmod = m }) u
])
turn ConvState.convspec begun s c t = ok (
    if char_is_specifier c
    then Turn.finish (defaults_from_convspec c (record s { spec = c })) t
    else Turn.give_up)

-- The `do … while (*c)` loop; reading past the end of the text is a fault.
unfoldable pub parse_loop :
    ℕ
    → ConvState
    → Bool
    → ConversionSpecifier
    → List ℕ
    → Run (Option (ConversionSpecifier × List ℕ))
unfolding turn
parse_loop zero state begun s text = out_of_fuel
parse_loop (suc k) state begun s [] = fault
parse_loop (suc k) state begun s (c ∷ t) = do
  r ← turn state begun s c t
  elim r [
    | Turn.give_up ↦ ok none
    | Turn.finish s' u ↦ ok (some (s', u))
    | Turn.go state' begun' s' u ↦ elim u [
      | [] ↦ fault
      | d ∷ u' ↦
          let rest = parse_loop k state' begun' s' (d ∷ u') in if d == 0 then ok none else rest
    ]
  ]

-- The specifier and the place behind the conversion, or none for NULL; each round reads on or
-- moves to a later state, so the text's length and six rounds are enough.
unfoldable pub parse_conversion : ℕ → List ℕ → Run (Option (ConversionSpecifier × List ℕ))
unfolding parse_loop
parse_conversion fuel text = parse_loop fuel ConvState.start false blank text
