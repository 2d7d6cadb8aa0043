-- ===== src/Lsn/RoundTrip.antt =====
-- `parse` and `format` of src/lsn.rs, one after the other.
use Prim.Native.Nat.{bit_or}
use native.Mathlib.Nat.{pow-suc}
use nabla.Base.{
  ℕ, zero, suc, ◌+◌, ◌*◌, ◌/◌, ◌%◌, ◌^◌, ◌≤◌, ◌<◌, ◌≡◌, ◌≢◌, refl, sym, ap, ◌∙◌, [], ◌∷◌, ◌++◌,
  some, true, false, ◌&&◌, ◌||◌, leb, ◌==◌, Text, All, arith, Bool-cases, inl, inr,
}
use nabla.Lsn.{
  is_whitespace, trim_start, trim_end, keep_ink, trim, split_once, digit_value, hex_digits,
  from_str_radix, parse, hex_char, hex_loop, hex, format,
}
use nabla.Lsn.Bits.{or_words, and_word}

-- A digit as `{:X}` prints it.
abbrev IsHex : ℕ → Type 0
IsHex c = ((leb b'0' c && leb c b'9') || (leb b'A' c && leb c b'F')) ≡ true

hex_char-IsHex : (d : ℕ) → d < 16 → IsHex (hex_char d)
unfolding hex_char
hex_char-IsHex d h = ground arith

digit_value-hex_char : (d : ℕ) → d < 16 → digit_value (hex_char d) ≡ some d
unfolding digit_value hex_char
digit_value-hex_char d h = ground arith

hex_loop-IsHex : (fuel n : ℕ) (out : Text) → All IsHex out → All IsHex (hex_loop fuel n out)
unfolding hex_loop
hex_loop-IsHex zero n out h = (hex_char-IsHex (n % 16) (omega arith), h)
hex_loop-IsHex (suc fuel) n out h = elim (Bool-cases (n / 16 == 0)) [
  | inl last ↦ rw last (hex_char-IsHex (n % 16) (omega arith), h)
  | inr more ↦ rw more (
      hex_loop-IsHex fuel (n / 16) (hex_char (n % 16) ∷ out)
        (hex_char-IsHex (n % 16) (omega arith), h))
]

hex_loop-ne-nil : (fuel n : ℕ) (out : Text) → hex_loop fuel n out ≢ []
unfolding hex_loop
hex_loop-ne-nil zero n out h = cc
hex_loop-ne-nil (suc fuel) n out h =
    ground (arith, hex_loop-ne-nil fuel (n / 16) (hex_char (n % 16) ∷ out))

one_digit :
    (acc n : ℕ) (out : Text)
    → acc * 16 + n % 16 < 2 ^ 64
    → hex_digits acc (hex_char (n % 16) ∷ out) ≡ hex_digits (acc * 16 + n % 16) out
unfolding hex_digits
one_digit acc n out h = ground (arith, digit_value-hex_char (n % 16))

hex_digits-hex_loop :
    (fuel n : ℕ) (out : Text)
    → n < 16 ^ suc fuel
    → n < 2 ^ 64
    → hex_digits 0 (hex_loop fuel n out) ≡ hex_digits n out
unfolding hex_loop
hex_digits-hex_loop zero n out h k =
    one_digit 0 n out (omega arith) ∙ ap (λ t. hex_digits t out) (omega arith)
hex_digits-hex_loop (suc fuel) n out h k = elim (Bool-cases (n / 16 == 0)) [
  | inl last ↦ rw last (one_digit 0 n out (omega arith) ∙ ap (λ t. hex_digits t out) (ground arith))
  | inr more ↦ rw more (
      hex_digits-hex_loop fuel (n / 16) (hex_char (n % 16) ∷ out)
        (omega (arith, pow-suc 16 (suc fuel))) (omega arith)
      ∙ one_digit (n / 16) n out (omega arith)
      ∙ ap (λ t. hex_digits t out) (omega arith))
]

from_str_radix-digits : (s : Text) → All IsHex s → s ≢ [] → from_str_radix s ≡ hex_digits 0 s
unfolding from_str_radix
from_str_radix-digits [] h ne = absurd (ne refl)
from_str_radix-digits (c ∷ []) h ne = refl
from_str_radix-digits (c ∷ d ∷ s) h ne = ground (arith, h.0)

pub from_str_radix-hex : (n : ℕ) → n < 2 ^ 64 → from_str_radix (hex n) ≡ some n
unfolding hex
from_str_radix-hex n h =
    from_str_radix-digits (hex_loop 15 n []) (hex_loop-IsHex 15 n [] tt) (hex_loop-ne-nil 15 n [])
    ∙ hex_digits-hex_loop 15 n [] (omega arith) h
    ∙ unfold hex_digits in refl

hex-IsHex : (n : ℕ) → All IsHex (hex n)
unfolding hex
hex-IsHex n = hex_loop-IsHex 15 n [] tt

split_once-append : (s t : Text) → All IsHex s → split_once b'/' (s ++ (b'/' ∷ t)) ≡ some (s, t)
unfolding split_once
split_once-append [] t h = refl
split_once-append (c ∷ s) t h = ground (arith, h.0, split_once-append s t h.1)

abbrev IsInk : ℕ → Type 0
IsInk c = is_whitespace c ≡ false

IsInk-of_hex : (c : ℕ) → IsHex c → IsInk c
unfolding is_whitespace
IsInk-of_hex c h = ground arith

inks_of_hex : (s : Text) → All IsHex s → All IsInk s
inks_of_hex [] h = tt
inks_of_hex (c ∷ s) h = (IsInk-of_hex c h.0, inks_of_hex s h.1)

All-append : (P : ℕ → Type 0) (s t : Text) → All P s → All P t → All P (s ++ t)
All-append P [] t h k = k
All-append P (c ∷ s) t h k = (h.0, All-append P s t h.1 k)

keep_ink-ink : (c : ℕ) (s : Text) → IsInk c → keep_ink c s ≡ c ∷ s
unfolding keep_ink
keep_ink-ink c [] h = rw h
keep_ink-ink c (d ∷ s) h = refl

trim_end-ink : (s : Text) → All IsInk s → trim_end s ≡ s
unfolding trim_end
trim_end-ink [] h = refl
trim_end-ink (c ∷ s) h = ap (keep_ink c) (trim_end-ink s h.1) ∙ keep_ink-ink c s h.0

trim_start-ink : (s : Text) → All IsInk s → trim_start s ≡ s
unfolding trim_start
trim_start-ink [] h = refl
trim_start-ink (c ∷ s) h = rw h.0

pub trim-ink : (s : Text) → All IsInk s → trim s ≡ s
unfolding trim
trim-ink s h = ap trim_end (trim_start-ink s h) ∙ trim_end-ink s h

-- The two halves of a printed position are read, and joined as the code joins them.
parse-halves :
    (hi lo : ℕ)
    → hi < 2 ^ 64
    → lo < 2 ^ 64
    → parse (hex hi ++ (b'/' ∷ hex lo)) ≡ some (bit_or (hi * 2 ^ 32 % 2 ^ 64) lo)
unfolding parse
parse-halves hi lo h l =
    let printed = hex hi ++ (b'/' ∷ hex lo) in
    let clean : trim printed ≡ printed = trim-ink printed (
      All-append IsInk (hex hi) (b'/' ∷ hex lo) (inks_of_hex (hex hi) (hex-IsHex hi))
        (slash, inks_of_hex (hex lo) (hex-IsHex lo))) in
    rw (
      clean,
      split_once-append (hex hi) (hex lo) (hex-IsHex hi),
      from_str_radix-hex hi h,
      from_str_radix-hex lo l,
      parse,
    )
  where
    slash : IsInk b'/'
    slash = unfold is_whitespace in refl

-- Every 64-bit position is read back from its text.
pub parse-format : (lsn : ℕ) → lsn < 2 ^ 64 → parse (format lsn) ≡ some lsn
unfolding format
parse-format lsn h = rw and_word (
    parse-halves (lsn / 2 ^ 32) (lsn % 2 ^ 32) (omega arith) (omega arith)
    ∙ ap some (or_words (lsn / 2 ^ 32) (lsn % 2 ^ 32) (omega arith) (omega arith) ∙ omega arith))

-- A first half that does not fit 32 bits is not refused: it is read as if its upper bits were not
-- there, so it gives the position of another text.
pub parse_drops_upper_bits :
    (hi lo : ℕ)
    → 2 ^ 32 ≤ hi
    → hi < 2 ^ 64
    → lo < 2 ^ 32
    → (parse (hex hi ++ (b'/' ∷ hex lo)) ≡ some (hi % 2 ^ 32 * 2 ^ 32 + lo))
      × (parse (hex hi ++ (b'/' ∷ hex lo)) ≡ parse (hex (hi % 2 ^ 32) ++ (b'/' ∷ hex lo)))
parse_drops_upper_bits hi lo wide h l =
    let value : parse (hex hi ++ (b'/' ∷ hex lo)) ≡ some (hi % 2 ^ 32 * 2 ^ 32 + lo) =
      parse-halves hi lo h (omega arith)
      ∙ ap some (ap (λ t. bit_or t lo) (omega arith) ∙ or_words (hi % 2 ^ 32) lo (omega arith) l) in
    (
      value,
      value
          ∙ sym (
              parse-halves (hi % 2 ^ 32) lo (omega arith) (omega arith)
              ∙ ap some (or_words (hi % 2 ^ 32) lo (omega arith) l)),
    )
