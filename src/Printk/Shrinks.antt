-- ===== src/Printk/Shrinks.antt =====
-- The place behind a conversion that `parse_conversion` of printk.c returns.
use fors_kernel.Prelude.{
  ℕ, zero, suc, ◌<◌, ◌≤◌, Bool, true, false, not, Option, none, some, List, [], ◌∷◌, ◌==◌,
  if◌then◌else◌, arith, length, Run, ok,
}
use fors_kernel.Prelude.Post.{Post, returns, faults, spent, Post-bind, Post-if, Post-self}
use fors_kernel.Printk.Parse.{follow}
use fors_kernel.Printk.{
  ConvState, start, flags, field_width, precision, length_modifier, convspec, ConversionSpecifier,
  char_is_digit, char_is_flag, char_is_specifier, Turn, turn, add_digit, modifier, parse_loop,
  parse_conversion,
}

-- A round at a place with `n` bytes left leaves no more, and fewer where it ends.
abbrev Shrinks : ℕ → Turn → Type 0
Shrinks n (Turn.go state begun s u) = length u ≤ n
Shrinks n (Turn.finish s u) = length u < n
Shrinks n Turn.give_up = Unit

-- What the parser returns has fewer bytes left.
abbrev pub IsShorter : ℕ → Option (ConversionSpecifier × List ℕ) → Type 0
IsShorter n none = Unit
IsShorter n (some (s, u)) = length u < n

turn_ok :
    (n : ℕ) (b : Bool) (x y : Turn)
    → Shrinks n x
    → Shrinks n y
    → Post (Shrinks n) (ok (if b then x else y))
turn_ok n true x y p q = returns p
turn_ok n false x y p q = returns q

modifier-Shrinks :
    (begun : Bool) (s : ConversionSpecifier) (c : ℕ) (t : List ℕ)
    → Post (Shrinks (suc (length t))) (turn length_modifier begun s c t)
unfolding turn modifier
modifier-Shrinks begun s c [] = returns (ground arith)
modifier-Shrinks begun s c (d ∷ t) = returns (ground arith)

turn-Shrinks :
    (state : ConvState) (begun : Bool) (s : ConversionSpecifier) (c : ℕ) (t : List ℕ)
    → Post (Shrinks (suc (length t))) (turn state begun s c t)
unfolding turn
turn-Shrinks start begun s c t = turn_ok _ (c == b'%') _ _ (omega arith) tt
turn-Shrinks flags begun s c t = turn_ok _ (not (char_is_flag c)) _ _ (omega arith) (omega arith)
turn-Shrinks field_width begun s c t =
    Post-if (not (char_is_digit c)) (returns (omega arith))
      (Post-bind _ (Post-self (add_digit s.width c)) (λ n e. returns (omega arith)))
turn-Shrinks precision true s c t =
    Post-if (not (char_is_digit c)) (returns (omega arith))
      (Post-bind _ (Post-self (add_digit s.prec c)) (λ n e. returns (omega arith)))
turn-Shrinks precision false s c t = turn_ok _ (c == b'.') _ _ (omega arith) (omega arith)
turn-Shrinks length_modifier begun s c t = modifier-Shrinks begun s c t
turn-Shrinks convspec begun s c t = turn_ok _ (char_is_specifier c) _ _ (omega arith) tt

follow-IsShorter :
    (loop : ConvState
      → Bool
      → ConversionSpecifier
      → List ℕ
      → Run (Option (ConversionSpecifier × List ℕ)))
    (n len : ℕ)
    → len ≤ n
    → ((state : ConvState) (begun : Bool) (s : ConversionSpecifier) (u : List ℕ)
        → length u ≤ n
        → Post (IsShorter n) (loop state begun s u))
    → (r : Turn) → Shrinks len r
    → Post (IsShorter n) (follow loop r)
follow-IsShorter loop n len le ih Turn.give_up h = returns tt
follow-IsShorter loop n len le ih (Turn.finish s' u) h = returns (omega arith)
follow-IsShorter loop n len le ih (Turn.go state' begun' s' []) h = faults
follow-IsShorter loop n len le ih (Turn.go state' begun' s' (d ∷ u)) h =
    Post-if (d == 0) (returns tt) (ih state' begun' s' (d ∷ u) (omega arith))

parse_loop-IsShorter :
    (k : ℕ) (state : ConvState) (begun : Bool) (s : ConversionSpecifier) (text : List ℕ) (n : ℕ)
    → length text ≤ n
    → Post (IsShorter n) (parse_loop k state begun s text)
unfolding parse_loop
parse_loop-IsShorter zero state begun s text n le = spent
parse_loop-IsShorter (suc k) state begun s [] n le = faults
parse_loop-IsShorter (suc k) state begun s (c ∷ t) n le =
    Post-bind (follow (parse_loop k)) (turn-Shrinks state begun s c t) (
      follow-IsShorter (parse_loop k) n (suc (length t)) le
        (λ state' begun' s' u lu. parse_loop-IsShorter k state' begun' s' u n lu))

pub parse_conversion-IsShorter :
    (fuel : ℕ) (text : List ℕ) → Post (IsShorter (length text)) (parse_conversion fuel text)
unfolding parse_conversion
parse_conversion-IsShorter fuel text =
    parse_loop-IsShorter fuel start false _ text (length text) (omega arith)
