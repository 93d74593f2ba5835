-- ===== src/Printk/Output.antt =====
-- The loop of `printk` of kernel/src/generic/printk.c. A `va_list` is the list of the arguments that
-- are left; what is printed is the list of bytes that `kputc` is given.
use fors_kernel.Prelude.{
  ℕ, zero, suc, ◌+◌, ◌-◌, ◌%◌, ◌^◌, false, ◌||◌, List, [], ◌∷◌, ◌++◌, ltb, ◌==◌, if◌then◌else◌,
  none, some, length, Run, ok, fault, out_of_fuel, ◌>>=◌,
}
use fors_kernel.Prelude.Int.{ℤ, pos, negsuc}
use fors_kernel.Printk.{ConversionSpecifier, parse_conversion}
use fors_kernel.Printk.Numbers.{print_i64, print_u64_hex}

-- An argument: what a pointer to text points to, or the 64 bits of a number.
pub data Arg : Type 0 where
  chars : List ℕ → Arg
  word : ℕ → Arg

-- 64 bits as an `int64_t`.
abbrev pub as_i64 : ℕ → ℤ
as_i64 w = if ltb w (2 ^ 63) then pos w else negsuc (2 ^ 64 - 1 - w)

-- `kputs`, up to the zero byte.
unfoldable pub kputs : List ℕ → Run (List ℕ)
kputs [] = fault
kputs (c ∷ text) = if c == 0 then ok [] else (do rest ← kputs text; ok (c ∷ rest))

-- The strings that switch a colour on and off again around an argument.
abbrev pub highlight : List ℕ
highlight = 0x1b ∷ b'[' ∷ b'3' ∷ b'6' ∷ b'm' ∷ []

abbrev pub plain : List ℕ
plain = 0x1b ∷ b'[' ∷ b'3' ∷ b'7' ∷ b'm' ∷ []

-- The `switch` of `printk`: what is printed, and the arguments that are left. An argument that is
-- missing or of another kind is undefined; for 'X' and '%' there is no case.
unfoldable pub print_arg : ConversionSpecifier → List Arg → Run (List ℕ × List Arg)
print_arg spec [] = if spec.spec == b'X' || spec.spec == b'%' then ok ([], []) else fault
print_arg spec (chars text ∷ args) =
    if spec.spec == b'X' || spec.spec == b'%'
    then ok ([], chars text ∷ args)
    else if spec.spec == b's'
    then (do out ← kputs text; ok (out, args))
    else fault
print_arg spec (word w ∷ args) =
    if spec.spec == b'X' || spec.spec == b'%'
    then ok ([], word w ∷ args)
    else if spec.spec == b'c'
    then ok (w % 256 ∷ [], args)
    else if spec.spec == b'd' || spec.spec == b'u'
    then (do out ← print_i64 (as_i64 w) spec; ok (out, args))
    else if spec.spec == b'x' || spec.spec == b'p'
    then ok (print_u64_hex w false spec, args)
    else fault

-- What is printed around an argument.
abbrev pub highlighted : List ℕ → List ℕ → List ℕ
highlighted out rest = highlight ++ (out ++ (plain ++ rest))

-- The loop over the format. Where `parse_conversion` gives NULL the code goes on with a specifier
-- that is not set, and then reads through the NULL.
unfoldable pub printk_loop : ℕ → List ℕ → List Arg → Run (List ℕ)
printk_loop zero fmt args = out_of_fuel
printk_loop (suc k) [] args = fault
printk_loop (suc k) (c ∷ fmt) args =
    if c == 0
    then ok []
    else if c == b'%'
    then (do
      r ← parse_conversion (length (c ∷ fmt) + 6) (c ∷ fmt)
      elim r [
        | none ↦ fault
        | some (spec, rest) ↦ do
          (out, args) ← print_arg spec args
          tail ← printk_loop k rest args
          ok (highlighted out tail)
      ])
    else (do tail ← printk_loop k fmt args; ok (c ∷ tail))

-- Each round goes on by one byte at least.
unfoldable pub printk : List ℕ → List Arg → Run (List ℕ)
printk fmt args = printk_loop (suc (length fmt)) fmt args
