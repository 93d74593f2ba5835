-- ===== src/Printk/Parse.antt =====
-- The rounds of the parser of conversions of printk.c.
use fors_kernel.Prelude.{
  ℕ, zero, suc, ◌+◌, ◌-◌, ◌*◌, ◌^◌, ◌<◌, ◌≢◌, Bool, true, false, not, ltb, Bool-cases, inl, inr,
  Option, none, some, List, [], ◌∷◌, ◌==◌, if◌then◌else◌, arith, length, Run, ok, fault,
  out_of_fuel, ◌>>=◌,
}
use fors_kernel.Printk.{
  ConvState, start, flags, field_width, precision, length_modifier, convspec, ConversionSpecifier,
  LenModifier, char_is_digit, char_is_flag, Turn, turn, add_digit, modifier, parse_loop,
  parse_conversion,
}

-- The number of states that the parser has still to come to.
abbrev rank : ConvState → ℕ
rank start = 5
rank flags = 4
rank field_width = 3
rank precision = 2
rank length_modifier = 1
rank convspec = 0

-- What a round leaves is less than what it had.
abbrev IsLess : ℕ → Run Turn → Type 0
IsLess n (ok (Turn.go state begun s u)) = length u + rank state < n
IsLess n (ok Turn.give_up) = Unit
IsLess n (ok (Turn.finish s u)) = Unit
IsLess n fault = Unit
IsLess n out_of_fuel = ⊥

IsLess-if :
    (n : ℕ) (b : Bool) (x y : Run Turn) → IsLess n x → IsLess n y → IsLess n (if b then x else y)
IsLess-if n true x y p q = p
IsLess-if n false x y p q = q

IsLess-ok-if :
    (n : ℕ) (b : Bool) (x y : Turn)
    → IsLess n (ok x)
    → IsLess n (ok y)
    → IsLess n (ok (if b then x else y))
IsLess-ok-if n true x y p q = p
IsLess-ok-if n false x y p q = q

IsLess-digit :
    (n m c : ℕ) (state : ConvState) (begun : Bool) (s : ℕ → ConversionSpecifier) (t : List ℕ)
    → length t + rank state < n
    → IsLess n (do k ← add_digit m c; ok (Turn.go state begun (s k) t))
unfolding add_digit
IsLess-digit n m c state begun s t h = elim (Bool-cases (ltb (m * 10 + (c - b'0')) (2 ^ 31))) [
  | inl e ↦ rw e h
  | inr e ↦ rw e tt
]

abbrev after_modifier :
    Bool → ConversionSpecifier → ℕ → List ℕ → Option (LenModifier × List ℕ) → Turn
after_modifier begun s c t o = elim o [
  | none ↦ Turn.go ConvState.convspec begun s (c ∷ t)
  | some (m, u) ↦ Turn.go ConvState.convspec begun (record s { lenmod = m }) u
]

modifier-IsLess :
    (begun : Bool) (s : ConversionSpecifier) (c : ℕ) (t : List ℕ)
    → IsLess (suc (length t) + 1) (ok (after_modifier begun s c t (modifier c t)))
unfolding modifier
modifier-IsLess begun s c [] = ground arith
modifier-IsLess begun s c (d ∷ t) = ground arith

turn-IsLess :
    (state : ConvState) (begun : Bool) (s : ConversionSpecifier) (c : ℕ) (t : List ℕ)
    → IsLess (suc (length t) + rank state) (turn state begun s c t)
unfolding turn
turn-IsLess start begun s c t = ground arith
turn-IsLess flags begun s c t =
    IsLess-ok-if _ (not (char_is_flag c)) _ _ (omega arith) (omega arith)
turn-IsLess field_width begun s c t =
    IsLess-if _ (not (char_is_digit c)) _ _ (omega arith)
      (IsLess-digit _ s.width c field_width begun (λ n. record s { width = n }) t (omega arith))
turn-IsLess precision true s c t =
    IsLess-if _ (not (char_is_digit c)) _ _ (omega arith)
      (IsLess-digit _ s.prec c precision true (λ n. record s { prec = n }) t (omega arith))
turn-IsLess precision false s c t = ground arith
turn-IsLess length_modifier begun s c t = modifier-IsLess begun s c t
turn-IsLess convspec begun s c t = ground arith

-- What follows a round of the loop.
abbrev pub follow :
    (ConvState → Bool → ConversionSpecifier → List ℕ → Run (Option (ConversionSpecifier × List ℕ)))
    → Turn
    → Run (Option (ConversionSpecifier × List ℕ))
follow loop r = elim r [
  | Turn.give_up ↦ ok none
  | Turn.finish s' u ↦ ok (some (s', u))
  | Turn.go state' begun' s' u ↦ elim u [
    | [] ↦ fault
    | d ∷ u' ↦ let rest = loop state' begun' s' (d ∷ u') in if d == 0 then ok none else rest
  ]
]

follow-ne :
    (loop : ConvState
      → Bool
      → ConversionSpecifier
      → List ℕ
      → Run (Option (ConversionSpecifier × List ℕ)))
    (n : ℕ)
    → ((state : ConvState) (begun : Bool) (s : ConversionSpecifier) (u : List ℕ)
        → length u + rank state < n
        → loop state begun s u ≢ out_of_fuel)
    → (r : Run Turn) → IsLess n r
    → (r >>= follow loop) ≢ out_of_fuel
follow-ne loop n ih fault h = λ e. cc
follow-ne loop n ih out_of_fuel h = absurd h
follow-ne loop n ih (ok Turn.give_up) h = λ e. cc
follow-ne loop n ih (ok (Turn.finish s u)) h = λ e. cc
follow-ne loop n ih (ok (Turn.go state begun s [])) h = λ e. cc
follow-ne loop n ih (ok (Turn.go state begun s (d ∷ u))) h = elim (Bool-cases (d == 0)) [
  | inl z ↦ rw z (λ e. cc)
  | inr z ↦ rw z (ih state begun s (d ∷ u) h)
]

parse_loop-ne :
    (k : ℕ) (state : ConvState) (begun : Bool) (s : ConversionSpecifier) (text : List ℕ)
    → length text + rank state < k
    → parse_loop k state begun s text ≢ out_of_fuel
unfolding parse_loop
parse_loop-ne zero state begun s text h = absurd (omega arith)
parse_loop-ne (suc k) state begun s [] h = λ e. cc
parse_loop-ne (suc k) state begun s (c ∷ t) h =
    follow-ne (parse_loop k) (suc (length t) + rank state)
      (λ state' begun' s' u lt. parse_loop-ne k state' begun' s' u (omega arith))
      (turn state begun s c t) (turn-IsLess state begun s c t)

-- `parse_conversion` ends on every text: the text's length and six rounds are enough.
pub parse_conversion-ends : (text : List ℕ) → parse_conversion (length text + 6) text ≢ out_of_fuel
unfolding parse_conversion
parse_conversion-ends text = parse_loop-ne (length text + 6) start false _ text (omega arith)
