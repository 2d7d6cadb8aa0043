-- ===== src/Lsn/Tests.antt =====
-- The unit test of src/lsn.rs, and the theorems at concrete inputs.
use nabla.Base.{◌≡◌, refl, ◌++◌, ◌∷◌, ◌+◌, ◌*◌, ◌^◌, ◌%◌, none, some, arith, codes}
use nabla.Lsn.{
  is_whitespace, trim_start, keep_ink, trim_end, trim, split_once, digit_value, hex_digits,
  from_str_radix, parse, hex_char, hex_loop, hex, format,
}
use nabla.Lsn.RoundTrip.{parse-format, parse_drops_upper_bits}

round_trips : format 0x16b3748 ≡ codes "0/16B3748"
unfolding format hex hex_loop hex_char
round_trips = refl

parses_lower_case : parse (codes "  fF/10 ") ≡ some 0xff_0000_0010
unfolding parse trim trim_end keep_ink trim_start is_whitespace split_once from_str_radix hex_digits
    digit_value
parses_lower_case = refl

refuses_garbage : parse (codes "garbage") ≡ none
unfolding parse trim trim_end keep_ink trim_start is_whitespace split_once
refuses_garbage = refl

parse-format_example : parse (format 0x5_0000_00ff) ≡ some 0x5_0000_00ff
parse-format_example = parse-format 0x5_0000_00ff (omega arith)

parse_drops_upper_bits_example :
    (parse (hex 0x1_0000_0002 ++ (b'/' ∷ hex 7)) ≡ some (0x1_0000_0002 % 2 ^ 32 * 2 ^ 32 + 7))
    × (parse (hex 0x1_0000_0002 ++ (b'/' ∷ hex 7))
        ≡ parse (hex (0x1_0000_0002 % 2 ^ 32) ++ (b'/' ∷ hex 7)))
parse_drops_upper_bits_example =
    parse_drops_upper_bits 0x1_0000_0002 7 (omega arith) (omega arith) (omega arith)
