-- ===== src/Printk/Rounds/Modifier.antt =====
-- The end of a conversion in printk.c: the length modifier and the conversion character.
use fors_kernel.Prelude.{
  ℕ, suc, ◌≡◌, refl, ap, ◌∙◌, Bool, true, false, Option, none, some, List, [], ◌∷◌, ◌++◌, ◌==◌,
  arith, ok,
}
use fors_kernel.Printk.{
  ConvState, LenModifier, ConversionSpecifier, char_is_flag, char_is_digit, char_is_specifier,
  modifier, turn, parse_loop, defaults_from_convspec,
}
use fors_kernel.Printk.Rounds.{precision_text, modifier_text, GoesOn, round_go, Stops}

-- A conversion character is no modifier, and no second letter of one.
modifier-none : (c : ℕ) (rest : List ℕ) → char_is_specifier c ≡ true → modifier c rest ≡ none
unfolding modifier char_is_specifier
modifier-none c [] h = ground arith
modifier-none c (d ∷ rest) h = ground arith

second_letter : (c : ℕ) → char_is_specifier c ≡ true → ((c == b'h') ≡ false) × ((c == b'l') ≡ false)
unfolding char_is_specifier
second_letter c h = (ground arith, ground arith)

specifier_go : (c : ℕ) (rest : List ℕ) → char_is_specifier c ≡ true → GoesOn (c ∷ rest)
unfolding char_is_specifier
specifier_go c rest h = ground arith

pub parse_modifier :
    (k : ℕ) (begun : Bool) (m : LenModifier) (s : ConversionSpecifier) (c : ℕ) (rest : List ℕ)
    → char_is_specifier c ≡ true
    → s.lenmod ≡ LenModifier.lm_none
    → parse_loop (suc k) ConvState.length_modifier begun s (modifier_text m ++ (c ∷ rest))
      ≡ parse_loop k ConvState.convspec begun (record s { lenmod = m }) (c ∷ rest)
unfolding turn
parse_modifier k begun LenModifier.lm_none s c rest h e =
    round_go k _ _ begun begun s s c rest (c ∷ rest) (rw (modifier-none c rest h))
      (specifier_go c rest h)
    ∙ ap
        (λ (m : LenModifier).
          parse_loop k ConvState.convspec begun (record s { lenmod = m }) (c ∷ rest))
        e
parse_modifier k begun LenModifier.lm_hh s c rest h e =
    round_go k _ _ begun begun s _ b'h' _ (c ∷ rest) refl (specifier_go c rest h)
parse_modifier k begun LenModifier.lm_h s c rest h e =
    round_go k _ _ begun begun s _ b'h' _ (c ∷ rest) (rw ((second_letter c h).0, modifier))
      (specifier_go c rest h)
parse_modifier k begun LenModifier.lm_l s c rest h e =
    round_go k _ _ begun begun s _ b'l' _ (c ∷ rest) (rw ((second_letter c h).1, modifier))
      (specifier_go c rest h)
parse_modifier k begun LenModifier.lm_ll s c rest h e =
    round_go k _ _ begun begun s _ b'l' _ (c ∷ rest) refl (specifier_go c rest h)
parse_modifier k begun LenModifier.lm_z s c rest h e =
    round_go k _ _ begun begun s _ b'z' _ (c ∷ rest) refl (specifier_go c rest h)

pub parse_convspec :
    (k : ℕ) (begun : Bool) (s : ConversionSpecifier) (c : ℕ) (rest : List ℕ)
    → char_is_specifier c ≡ true
    → parse_loop (suc k) ConvState.convspec begun s (c ∷ rest)
      ≡ ok (some (defaults_from_convspec c (record s { spec = c }), rest))
unfolding parse_loop
parse_convspec k begun s c rest h = rw h

-- What follows the width begins with a character that no field takes.
pub after_width :
    (pr : Option (List ℕ)) (m : LenModifier) (c : ℕ) (rest : List ℕ)
    → char_is_specifier c ≡ true
    → let u = precision_text pr ++ (modifier_text m ++ (c ∷ rest)) in
      GoesOn u × Stops char_is_flag u × Stops char_is_digit u
unfolding char_is_specifier char_is_flag char_is_digit
after_width (some ds) m c rest h = (refl, refl, refl)
after_width none LenModifier.lm_none c rest h = (ground arith, ground arith, ground arith)
after_width none LenModifier.lm_hh c rest h = (refl, refl, refl)
after_width none LenModifier.lm_h c rest h = (refl, refl, refl)
after_width none LenModifier.lm_l c rest h = (refl, refl, refl)
after_width none LenModifier.lm_ll c rest h = (refl, refl, refl)
after_width none LenModifier.lm_z c rest h = (refl, refl, refl)

pub after_precision :
    (m : LenModifier) (c : ℕ) (rest : List ℕ)
    → char_is_specifier c ≡ true
    → let u = modifier_text m ++ (c ∷ rest) in Stops (λ c. c == b'.') u
unfolding char_is_specifier
after_precision LenModifier.lm_none c rest h = ground arith
after_precision LenModifier.lm_hh c rest h = refl
after_precision LenModifier.lm_h c rest h = refl
after_precision LenModifier.lm_l c rest h = refl
after_precision LenModifier.lm_ll c rest h = refl
after_precision LenModifier.lm_z c rest h = refl
