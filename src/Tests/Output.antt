-- ===== src/Tests/Output.antt =====
-- Conversions and numbers of kernel/src/generic/printk.c at concrete inputs.
use fors_kernel.Prelude.{
  ℕ, ◌+◌, ◌≡◌, refl, ◌≢◌, none, some, List, [], ◌∷◌, ◌++◌, arith, length, replicate, ok,
  out_of_fuel,
}
use fors_kernel.Prelude.Int.{negsuc}
use fors_kernel.Printk.{
  ConversionSpecifier, LenModifier, blank, parse_conversion, char_is_flag, char_is_digit,
  char_is_specifier,
}
use fors_kernel.Printk.Output.{word, printk}
use fors_kernel.Printk.Rendering.{Piece, literal, conversion, rendered, printk-rendered}
use fors_kernel.Printk.Parse.{parse_conversion-ends}
use fors_kernel.Printk.Roundtrip.{spec_of, conversion_text, parse_conversion_roundtrip}
use fors_kernel.Printk.Numbers.{print_i64, print_i64_lem, AreDigits, blanks_of, zeros_of, as_chars}

parse_conversion-ends_example : parse_conversion 9 (b'%' ∷ b'l' ∷ b'd' ∷ []) ≢ out_of_fuel
parse_conversion-ends_example = parse_conversion-ends (b'%' ∷ b'l' ∷ b'd' ∷ [])

-- `%+8.3lld!`
parse_conversion_roundtrip_example :
    let text =
      conversion_text
        (b'+' ∷ [])
        (b'8' ∷ [])
        (some (b'3' ∷ []))
        LenModifier.lm_ll
        b'd'
        (b'!' ∷ []) in
    parse_conversion (length text + 6) text
    ≡ ok (
        some (spec_of (b'+' ∷ []) (b'8' ∷ []) (some (b'3' ∷ [])) LenModifier.lm_ll b'd', b'!' ∷ []))
unfolding char_is_flag char_is_digit char_is_specifier
parse_conversion_roundtrip_example =
    parse_conversion_roundtrip (b'+' ∷ []) (b'8' ∷ []) (some (b'3' ∷ [])) LenModifier.lm_ll b'd'
      (b'!' ∷ []) (refl, tt) ((refl, tt), refl, omega arith) ((refl, tt), omega arith) refl

abbrev wide : ConversionSpecifier
wide = record blank { width = 6; prec = 4 }

print_i64_lem_example :
    (ds : List ℕ) × AreDigits 42 ds
    × (print_i64 (negsuc 41) wide
        ≡ ok (
            (45 ∷ [])
            ++ (replicate (blanks_of 6 4 64 (length ds)) b' '
                ++ (replicate (zeros_of 4 64 (length ds)) b'0' ++ as_chars ds))))
print_i64_lem_example = print_i64_lem (negsuc 41) wide (omega arith)

-- "n=%d!" with a number.
abbrev one_number : List Piece
one_number =
    literal b'n' ∷ literal b'=' ∷ conversion [] [] none LenModifier.lm_none b'd' ∷ literal b'!' ∷ []

printk-rendered_example :
    printk (b'n' ∷ b'=' ∷ b'%' ∷ b'd' ∷ b'!' ∷ 0 ∷ []) (word 42 ∷ [])
    ≡ rendered one_number (word 42 ∷ [])
unfolding char_is_specifier
printk-rendered_example =
    printk-rendered one_number (word 42 ∷ [])
      (λ e. cc, λ e. cc, (λ e. cc, λ e. cc, (tt, tt, tt, refl, (λ e. cc, λ e. cc, tt))))
