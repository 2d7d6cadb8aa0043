-- ===== src/Lsn.antt =====
-- src/lsn.rs: log positions as text "X/Y" and as 64-bit words.
use nabla.Base.{
  ℕ, zero, suc, ◌+◌, ◌-◌, ◌*◌, ◌/◌, ◌%◌, ◌^◌, List, [], ◌∷◌, ◌++◌, Option, none, some, Bool, true,
  false, ◌&&◌, ◌||◌, ltb, leb, ◌==◌, if◌then◌else◌, Text,
}
use Prim.Native.Nat.{bit_or, bit_and}
pub mod Bits
pub mod RoundTrip
mod Tests

-- `char::is_whitespace`.
unfoldable pub is_whitespace : ℕ → Bool
is_whitespace c =
    (leb 9 c && leb c 13)
    || c == 32
    || c == 0x85
    || c == 0xa0
    || c == 0x1680
    || (leb 0x2000 c && leb c 0x200a)
    || c == 0x2028
    || c == 0x2029
    || c == 0x202f
    || c == 0x205f
    || c == 0x3000

unfoldable pub trim_start : Text → Text
trim_start [] = []
trim_start (c ∷ s) = let rest = trim_start s in if is_whitespace c then rest else c ∷ s

-- A character in front of what `trim_end` has left of the rest.
unfoldable pub keep_ink : ℕ → Text → Text
keep_ink c [] = if is_whitespace c then [] else c ∷ []
keep_ink c (d ∷ s) = c ∷ d ∷ s

unfoldable pub trim_end : Text → Text
trim_end [] = []
trim_end (c ∷ s) = keep_ink c (trim_end s)

unfoldable pub trim : Text → Text
trim s = trim_end (trim_start s)

-- `split_once('/')`: what stands before the first slash, and what behind it.
unfoldable pub split_once : ℕ → Text → Option (Text × Text)
split_once sep [] = none
split_once sep (c ∷ s) =
    let rest : Option (Text × Text) = elim (split_once sep s) [
      | none ↦ none
      | some (before, after) ↦ some (c ∷ before, after)
    ] in
    if c == sep then some ([], s) else rest

-- A hexadecimal digit of either case.
unfoldable pub digit_value : ℕ → Option ℕ
digit_value c =
    if leb b'0' c && leb c b'9'
    then some (c - b'0')
    else if leb b'A' c && leb c b'F'
    then some (c - b'A' + 10)
    else if leb b'a' c && leb c b'f'
    then some (c - b'a' + 10)
    else none

-- The digits after `acc`; `none` when one is no digit or the value passes 64 bits.
unfoldable pub hex_digits : ℕ → Text → Option ℕ
hex_digits acc [] = some acc
hex_digits acc (c ∷ s) = elim (digit_value c) [
  | none ↦ none
  | some d ↦
      let rest = hex_digits (acc * 16 + d) s in if ltb (acc * 16 + d) (2 ^ 64) then rest else none
]

-- `u64::from_str_radix(s, 16)`: one plus sign is accepted, and there is a digit at least.
unfoldable pub from_str_radix : Text → Option ℕ
from_str_radix [] = none
from_str_radix (c ∷ []) = hex_digits 0 (c ∷ [])
from_str_radix (c ∷ d ∷ s) = if c == b'+' then hex_digits 0 (d ∷ s) else hex_digits 0 (c ∷ d ∷ s)

-- `(hi << 32) | lo`; the shift drops what leaves the 64 bits.
unfoldable pub parse : Text → Option ℕ
parse text = elim (split_once b'/' (trim text)) [
  | none ↦ none
  | some (hi, lo) ↦ elim (from_str_radix hi) [
    | none ↦ none
    | some h ↦ elim (from_str_radix lo) [
      | none ↦ none
      | some l ↦ some (bit_or (h * 2 ^ 32 % 2 ^ 64) l)
    ]
  ]
]

unfoldable pub hex_char : ℕ → ℕ
hex_char d = if ltb d 10 then b'0' + d else b'A' + (d - 10)

-- `{:X}`: upper case, no leading zeros; `fuel` is the number of digits that may follow the last.
unfoldable pub hex_loop : ℕ → ℕ → Text → Text
hex_loop zero n out = hex_char (n % 16) ∷ out
hex_loop (suc fuel) n out =
    let more = hex_loop fuel (n / 16) (hex_char (n % 16) ∷ out) in
    if n / 16 == 0 then hex_char (n % 16) ∷ out else more

-- A 64-bit word has sixteen digits at most.
unfoldable pub hex : ℕ → Text
hex n = hex_loop 15 n []

unfoldable pub format : ℕ → Text
format lsn = hex (lsn / 2 ^ 32) ++ (b'/' ∷ hex (bit_and lsn 0xffff_ffff))
