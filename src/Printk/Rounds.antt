-- ===== src/Printk/Rounds.antt =====
-- Rounds of the parser of conversions of printk.c, and runs of rounds in one state.
pub mod Modifier
use fors_kernel.Prelude.{
  ℕ, suc, ◌+◌, ◌-◌, ◌*◌, ◌^◌, ◌<◌, ◌≤◌, ◌≡◌, refl, ap, ◌∙◌, Bool, true, false, Option, none, some,
  List, [], ◌∷◌, ◌++◌, ◌==◌, ltb, arith, length, Run, ok,
}
use fors_kernel.Printk.{
  ConvState, LenModifier, ConversionSpecifier, Turn, blank, char_is_flag, char_is_digit,
  char_is_specifier, set_flag, modifier, turn, parse_loop, defaults_from_convspec,
}

abbrev pub All {ℓ} : {A : Type ℓ} → (A → Bool) → List A → Type 0
All p [] = Unit
All p (x ∷ xs) = (p x ≡ true) × All p xs

-- The flags that a run of flag characters sets.
abbrev pub flags_of : List ℕ → ConversionSpecifier → ConversionSpecifier
flags_of [] s = s
flags_of (c ∷ cs) s = flags_of cs (set_flag c s)

-- The number that digits stand for, behind a number.
abbrev pub decimal : ℕ → List ℕ → ℕ
decimal n [] = n
decimal n (c ∷ cs) = decimal (n * 10 + (c - b'0')) cs

-- The text of a precision, if there is one.
abbrev pub precision_text : Option (List ℕ) → List ℕ
precision_text none = []
precision_text (some ds) = b'.' ∷ ds

abbrev pub modifier_text : LenModifier → List ℕ
modifier_text LenModifier.lm_none = []
modifier_text LenModifier.lm_hh = b'h' ∷ b'h' ∷ []
modifier_text LenModifier.lm_h = b'h' ∷ []
modifier_text LenModifier.lm_l = b'l' ∷ []
modifier_text LenModifier.lm_ll = b'l' ∷ b'l' ∷ []
modifier_text LenModifier.lm_z = b'z' ∷ []

-- The result of the parser from a state on.
abbrev Parsed : Type 0
Parsed = Run (Option (ConversionSpecifier × List ℕ))

pub not_nul_of_digit : (c : ℕ) → char_is_digit c ≡ true → (c == 0) ≡ false
unfolding char_is_digit
not_nul_of_digit c h = ground arith

decimal-le : (n : ℕ) (cs : List ℕ) → n ≤ decimal n cs
decimal-le n [] = omega arith
decimal-le n (c ∷ cs) = omega (arith, decimal-le (n * 10 + (c - b'0')) cs)

digit_fits :
    (n c : ℕ) (cs : List ℕ)
    → decimal (n * 10 + (c - b'0')) cs < 2 ^ 31
    → ltb (n * 10 + (c - b'0')) (2 ^ 31) ≡ true
digit_fits n c cs h = ground (arith, decimal-le (n * 10 + (c - b'0')) cs)

-- The text goes on, so the loop does.
abbrev pub GoesOn : List ℕ → Type 0
GoesOn [] = ⊥
GoesOn (d ∷ u) = (d == 0) ≡ false

pub GoesOn-append :
    (p : ℕ → Bool) (cs u : List ℕ)
    → ((c : ℕ) → p c ≡ true → (c == 0) ≡ false)
    → All p cs
    → GoesOn u
    → GoesOn (cs ++ u)
GoesOn-append p [] u nz h g = g
GoesOn-append p (c ∷ cs) u nz h g = nz c h.0

pub not_nul_of_flag : (c : ℕ) → char_is_flag c ≡ true → (c == 0) ≡ false
unfolding char_is_flag
not_nul_of_flag c h = ground arith

-- One round that reads a character or only moves on to another state.
pub round_go :
    (k : ℕ) (state state' : ConvState) (begun begun' : Bool) (s s' : ConversionSpecifier) (c : ℕ)
    (t u : List ℕ)
    → turn state begun s c t ≡ ok (Turn.go state' begun' s' u)
    → GoesOn u
    → parse_loop (suc k) state begun s (c ∷ t) ≡ parse_loop k state' begun' s' u
unfolding parse_loop
round_go k state state' begun begun' s s' c t [] e g = absurd g
round_go k state state' begun begun' s s' c t (d ∷ u) e g = rw (e, g)

module _ (k : ℕ) (u : List ℕ) (g : GoesOn u) where
  pub parse_flags :
      (cs : List ℕ) (s : ConversionSpecifier)
      → All char_is_flag cs
      → parse_loop (length cs + k) ConvState.flags false s (cs ++ u)
        ≡ parse_loop k ConvState.flags false (flags_of cs s) u
  unfolding turn
  parse_flags [] s h = let e : 0 + k ≡ k = omega arith in rw e
  parse_flags (c ∷ cs) s h =
      let e : suc (length cs) + k ≡ suc (length cs + k) = omega arith in
      rw e (
        round_go (length cs + k) _ ConvState.flags false false s (set_flag c s) c (cs ++ u)
          (cs ++ u) (rw h.0) (GoesOn-append char_is_flag cs u not_nul_of_flag h.1 g)
        ∙ parse_flags cs (set_flag c s) h.1)

  pub parse_width :
      (cs : List ℕ) (s : ConversionSpecifier)
      → All char_is_digit cs
      → decimal s.width cs < 2 ^ 31
      → parse_loop (length cs + k) ConvState.field_width false s (cs ++ u)
        ≡ parse_loop k ConvState.field_width false (record s { width = decimal s.width cs }) u
  unfolding turn
  parse_width [] s h lt = let e : 0 + k ≡ k = omega arith in rw e
  parse_width (c ∷ cs) s h lt =
      let e : suc (length cs) + k ≡ suc (length cs + k) = omega arith in
      let s' : ConversionSpecifier = record s { width = s.width * 10 + (c - b'0') } in
      rw e (
        round_go (length cs + k) _ ConvState.field_width false false s s' c (cs ++ u) (cs ++ u)
          (rw (h.0, digit_fits s.width c cs lt))
          (GoesOn-append char_is_digit cs u not_nul_of_digit h.1 g)
        ∙ parse_width cs s' h.1 lt)

  pub parse_digits :
      (cs : List ℕ) (s : ConversionSpecifier)
      → All char_is_digit cs
      → decimal s.prec cs < 2 ^ 31
      → parse_loop (length cs + k) ConvState.precision true s (cs ++ u)
        ≡ parse_loop k ConvState.precision true (record s { prec = decimal s.prec cs }) u
  unfolding turn
  parse_digits [] s h lt = let e : 0 + k ≡ k = omega arith in rw e
  parse_digits (c ∷ cs) s h lt =
      let e : suc (length cs) + k ≡ suc (length cs + k) = omega arith in
      let s' : ConversionSpecifier = record s { prec = s.prec * 10 + (c - b'0') } in
      rw e (
        round_go (length cs + k) _ ConvState.precision true true s s' c (cs ++ u) (cs ++ u)
          (rw (h.0, digit_fits s.prec c cs lt))
          (GoesOn-append char_is_digit cs u not_nul_of_digit h.1 g)
        ∙ parse_digits cs s' h.1 lt)

-- The text goes on with a character that does not pass the test.
abbrev pub Stops : (ℕ → Bool) → List ℕ → Type 0
Stops p [] = ⊥
Stops p (d ∷ u) = p d ≡ false

pub begin_flags :
    (k : ℕ) (u : List ℕ)
    → GoesOn u
    → parse_loop (suc k) ConvState.start false blank (b'%' ∷ u)
      ≡ parse_loop k ConvState.flags false blank u
unfolding turn
begin_flags k u g = round_go k _ _ false false blank blank b'%' u u refl g

pub leave_flags :
    (k : ℕ) (s : ConversionSpecifier) (u : List ℕ)
    → GoesOn u
    → Stops char_is_flag u
    → parse_loop (suc k) ConvState.flags false s u ≡ parse_loop k ConvState.field_width false s u
unfolding turn
leave_flags k s [] g h = absurd g
leave_flags k s (c ∷ u) g h = round_go k _ _ false false s s c u (c ∷ u) (rw h) g

pub leave_width :
    (k : ℕ) (s : ConversionSpecifier) (u : List ℕ)
    → GoesOn u
    → Stops char_is_digit u
    → parse_loop (suc k) ConvState.field_width false s u
      ≡ parse_loop k ConvState.precision false s u
unfolding turn
leave_width k s [] g h = absurd g
leave_width k s (c ∷ u) g h = round_go k _ _ false false s s c u (c ∷ u) (rw h) g

pub leave_digits :
    (k : ℕ) (s : ConversionSpecifier) (u : List ℕ)
    → GoesOn u
    → Stops char_is_digit u
    → parse_loop (suc k) ConvState.precision true s u
      ≡ parse_loop k ConvState.length_modifier true s u
unfolding turn
leave_digits k s [] g h = absurd g
leave_digits k s (c ∷ u) g h = round_go k _ _ true true s s c u (c ∷ u) (rw h) g

pub leave_precision :
    (k : ℕ) (s : ConversionSpecifier) (u : List ℕ)
    → GoesOn u
    → Stops (λ c. c == b'.') u
    → parse_loop (suc k) ConvState.precision false s u
      ≡ parse_loop k ConvState.length_modifier false s u
unfolding turn
leave_precision k s [] g h = absurd g
leave_precision k s (c ∷ u) g h = round_go k _ _ false false s s c u (c ∷ u) (rw h) g

pub begin_precision :
    (k : ℕ) (s : ConversionSpecifier) (u : List ℕ)
    → GoesOn u
    → parse_loop (suc k) ConvState.precision false s (b'.' ∷ u)
      ≡ parse_loop k ConvState.precision true (record s { prec = 0 }) u
unfolding turn
begin_precision k s u g = round_go k _ _ false true s (record s { prec = 0 }) b'.' u u refl g

-- The fields that the flags leave alone.
pub flags_of_keeps :
    (cs : List ℕ) (s : ConversionSpecifier)
    → ((flags_of cs s).width ≡ s.width)
      × ((flags_of cs s).prec ≡ s.prec)
      × ((flags_of cs s).lenmod ≡ s.lenmod)
unfolding set_flag
flags_of_keeps [] s = (refl, refl, refl)
flags_of_keeps (c ∷ cs) s = ground (arith, flags_of_keeps cs (set_flag c s))
