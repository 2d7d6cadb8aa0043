-- ===== src/Base/Utf8.antt =====
-- `String::from_utf8_lossy` of Rust's standard library, with the encoding that it inverts.
-- Bytes are numbers below 256, and the characters of the result are code points.
use Prim.Native.Nat.{ℕ, ◌+◌, ◌-◌, ◌*◌, ◌/◌, ◌%◌, ◌≤◌, ◌<◌}
use mathlib.Core.Path.{◌≡◌, refl, ap, ◌∙◌}
use mathlib.Core.Logic.{◌≢◌, ◌⊎◌, inl, inr}
use mathlib.Core.Bool.{true, ◌&&◌}
use mathlib.Core.List.{List, [], ◌∷◌, ◌++◌}
use native.Mathlib.Omega.{arith}
use nabla.Base.Tests.{Text, ltb, leb, ◌==◌, if◌then◌else◌, Bool-cases}
use nabla.Base.Lists.{All}

-- U+FFFD, which stands for each maximal piece that is no UTF-8.
abbrev pub replacement : ℕ
replacement = 0xfffd

-- Between two characters, or inside one: the bytes still wanted, the range of the next byte,
-- and the bits read so far.
pub data Utf8State : Type 0 where
  ready : Utf8State
  want : ℕ → ℕ → ℕ → ℕ → Utf8State

-- A byte at the start of a character.
unfoldable pub utf8_start : ℕ → Text × Utf8State
utf8_start b =
    if ltb b 0x80
    then (b ∷ [], ready)
    else if ltb b 0xc2
    then (replacement ∷ [], ready)
    else if ltb b 0xe0
    then ([], want 1 0x80 0xbf (b - 0xc0))
    else if b == 0xe0
    then ([], want 2 0xa0 0xbf 0)
    else if b == 0xed
    then ([], want 2 0x80 0x9f 13)
    else if ltb b 0xf0
    then ([], want 2 0x80 0xbf (b - 0xe0))
    else if b == 0xf0
    then ([], want 3 0x90 0xbf 0)
    else if ltb b 0xf4
    then ([], want 3 0x80 0xbf (b - 0xf0))
    else if b == 0xf4
    then ([], want 3 0x80 0x8f 4)
    else (replacement ∷ [], ready)

-- A byte out of range ends the piece before it, and is read again as a start.
unfoldable pub utf8_byte : Utf8State → ℕ → Text × Utf8State
utf8_byte ready b = utf8_start b
utf8_byte (want left lo hi acc) b =
    if leb lo b && leb b hi
    then (if left == 1
        then ((acc * 64 + (b - 0x80)) ∷ [], ready)
        else ([], want (left - 1) 0x80 0xbf (acc * 64 + (b - 0x80))))
    else (replacement ∷ (utf8_start b).0, (utf8_start b).1)

unfoldable pub utf8_lossy : Utf8State → List ℕ → Text
utf8_lossy ready [] = []
utf8_lossy (want left lo hi acc) [] = replacement ∷ []
utf8_lossy s (b ∷ bs) = (utf8_byte s b).0 ++ utf8_lossy (utf8_byte s b).1 bs

unfoldable pub from_utf8_lossy : List ℕ → Text
from_utf8_lossy = utf8_lossy ready

-- A Unicode scalar value, as a Rust `char` is.
abbrev pub IsScalar : ℕ → Type 0
IsScalar c = (c < 0xd800) ⊎ ((0xdfff < c) × (c < 0x110000))

-- The bytes of a character.
unfoldable pub utf8_char : ℕ → List ℕ
utf8_char c =
    if ltb c 0x80
    then c ∷ []
    else if ltb c 0x800
    then (0xc0 + c / 64) ∷ (0x80 + c % 64) ∷ []
    else if ltb c 0x10000
    then (0xe0 + c / 4096) ∷ (0x80 + c / 64 % 64) ∷ (0x80 + c % 64) ∷ []
    else (0xf0 + c / 262144) ∷ (0x80 + c / 4096 % 64) ∷ (0x80 + c / 64 % 64) ∷ (0x80 + c % 64) ∷ []

-- The bytes of a text, `s.as_bytes()`.
unfoldable pub to_utf8 : Text → List ℕ
to_utf8 [] = []
to_utf8 (c ∷ s) = utf8_char c ++ to_utf8 s

next_byte :
    (s : Utf8State) (b : ℕ) (bs out : List ℕ) (s' : Utf8State)
    → utf8_byte s b ≡ (out, s')
    → utf8_lossy s (b ∷ bs) ≡ out ++ utf8_lossy s' bs
unfolding utf8_lossy
next_byte ready b bs out s' e = rw e
next_byte (want left lo hi acc) b bs out s' e = rw e

-- The last byte of a character, and one before it.
last_byte :
    (lo hi acc d : ℕ) (bs : List ℕ)
    → lo ≤ 0x80 + d
    → 0x80 + d ≤ hi
    → utf8_lossy (want 1 lo hi acc) ((0x80 + d) ∷ bs) ≡ (acc * 64 + d) ∷ utf8_lossy ready bs
last_byte lo hi acc d bs h k = next_byte (want 1 lo hi acc) (0x80 + d) bs _ ready step
  where
    step : utf8_byte (want 1 lo hi acc) (0x80 + d) ≡ ((acc * 64 + d) ∷ [], ready)
    step = unfold utf8_byte in ground arith

inner_byte :
    (left lo hi acc d : ℕ) (bs : List ℕ)
    → left ≢ 1
    → lo ≤ 0x80 + d
    → 0x80 + d ≤ hi
    → utf8_lossy (want left lo hi acc) ((0x80 + d) ∷ bs)
      ≡ utf8_lossy (want (left - 1) 0x80 0xbf (acc * 64 + d)) bs
inner_byte left lo hi acc d bs ne h k = next_byte (want left lo hi acc) (0x80 + d) bs [] _ step
  where
    step :
        utf8_byte (want left lo hi acc) (0x80 + d) ≡ ([], want (left - 1) 0x80 0xbf (acc * 64 + d))
    step = unfold utf8_byte in ground arith

-- What the first byte of a wide character makes the reader want.
start_two : (c : ℕ) → 2 ≤ c → c < 32 → utf8_byte ready (0xc0 + c) ≡ ([], want 1 0x80 0xbf c)
unfolding utf8_byte utf8_start
start_two c h k = ground arith

abbrev three_lo : ℕ → ℕ
three_lo a = if a == 0 then 0xa0 else 0x80

abbrev three_hi : ℕ → ℕ
three_hi a = if a == 13 then 0x9f else 0xbf

start_three :
    (a : ℕ) → a < 16 → utf8_byte ready (0xe0 + a) ≡ ([], want 2 (three_lo a) (three_hi a) a)
unfolding utf8_byte utf8_start
start_three a h = ground arith

abbrev four_lo : ℕ → ℕ
four_lo a = if a == 0 then 0x90 else 0x80

abbrev four_hi : ℕ → ℕ
four_hi a = if a == 4 then 0x8f else 0xbf

start_four : (a : ℕ) → a < 5 → utf8_byte ready (0xf0 + a) ≡ ([], want 3 (four_lo a) (four_hi a) a)
unfolding utf8_byte utf8_start
start_four a h = ground arith

start_one : (c : ℕ) → ltb c 0x80 ≡ true → utf8_byte ready c ≡ (c ∷ [], ready)
unfolding utf8_byte utf8_start
start_one c h = rw h

-- One lemma for each width.
lossy_two :
    (a d : ℕ) (bs : List ℕ)
    → 2 ≤ a
    → a < 32
    → d < 64
    → utf8_lossy ready ((0xc0 + a) ∷ (0x80 + d) ∷ bs) ≡ (a * 64 + d) ∷ utf8_lossy ready bs
lossy_two a d bs h k l =
    next_byte ready (0xc0 + a) _ [] _ (start_two a h k)
    ∙ last_byte 0x80 0xbf a d bs (omega arith) (omega arith)

lossy_three :
    (a d e : ℕ) (bs : List ℕ)
    → a < 16
    → d < 64
    → e < 64
    → 0x800 ≤ a * 4096 + d * 64 + e
    → IsScalar (a * 4096 + d * 64 + e)
    → utf8_lossy ready ((0xe0 + a) ∷ (0x80 + d) ∷ (0x80 + e) ∷ bs)
      ≡ ((a * 64 + d) * 64 + e) ∷ utf8_lossy ready bs
lossy_three a d e bs ha hd he low scalar =
    next_byte ready (0xe0 + a) _ [] _ (start_three a ha)
    ∙ inner_byte 2 (three_lo a) (three_hi a) a d _ (omega arith) (ground arith) (ground arith)
    ∙ last_byte 0x80 0xbf (a * 64 + d) e bs (omega arith) (omega arith)

lossy_four :
    (a d e f : ℕ) (bs : List ℕ)
    → a < 5
    → d < 64
    → e < 64
    → f < 64
    → 0x10000 ≤ a * 262144 + d * 4096 + e * 64 + f
    → a * 262144 + d * 4096 + e * 64 + f < 0x110000
    → utf8_lossy ready ((0xf0 + a) ∷ (0x80 + d) ∷ (0x80 + e) ∷ (0x80 + f) ∷ bs)
      ≡ (((a * 64 + d) * 64 + e) * 64 + f) ∷ utf8_lossy ready bs
lossy_four a d e f bs ha hd he hf low high =
    next_byte ready (0xf0 + a) _ [] _ (start_four a ha)
    ∙ inner_byte 3 (four_lo a) (four_hi a) a d _ (omega arith) (ground arith) (ground arith)
    ∙ inner_byte 2 0x80 0xbf (a * 64 + d) e _ (omega arith) (omega arith) (omega arith)
    ∙ last_byte 0x80 0xbf ((a * 64 + d) * 64 + e) f bs (omega arith) (omega arith)

lossy-utf8_char :
    (c : ℕ) (bs : List ℕ)
    → IsScalar c
    → utf8_lossy ready (utf8_char c ++ bs) ≡ c ∷ utf8_lossy ready bs
unfolding utf8_char
lossy-utf8_char c bs h = elim (Bool-cases (ltb c 0x80)) [
  | inl one ↦ rw one (next_byte ready c bs (c ∷ []) ready (start_one c one))
  | inr more ↦ rw more (elim (Bool-cases (ltb c 0x800)) [
    | inl two ↦ rw two (
        lossy_two (c / 64) (c % 64) bs (ground arith) (ground arith) (omega arith)
        ∙ ap (λ x. x ∷ utf8_lossy ready bs) (omega arith))
    | inr wide ↦ rw wide (elim (Bool-cases (ltb c 0x10000)) [
      | inl three ↦ rw three (
          lossy_three (c / 4096) (c / 64 % 64) (c % 64) bs (ground arith) (omega arith)
            (omega arith) (ground arith) (ground arith)
          ∙ ap (λ x. x ∷ utf8_lossy ready bs) (omega arith))
      | inr four ↦ rw four (
          lossy_four (c / 262144) (c / 4096 % 64) (c / 64 % 64) (c % 64) bs (ground arith)
            (omega arith) (omega arith) (omega arith) (ground arith) (ground arith)
          ∙ ap (λ x. x ∷ utf8_lossy ready bs) (omega arith))
    ])
  ])
]

-- Decoding what a text encodes to gives the text back.
pub from_utf8_lossy-to_utf8 : (t : Text) → All IsScalar t → from_utf8_lossy (to_utf8 t) ≡ t
unfolding from_utf8_lossy to_utf8
from_utf8_lossy-to_utf8 [] h = unfold utf8_lossy in refl
from_utf8_lossy-to_utf8 (c ∷ t) (hc, ht) =
    lossy-utf8_char c (to_utf8 t) hc ∙ ap (λ x. c ∷ x) (from_utf8_lossy-to_utf8 t ht)

-- A character other than NUL has no zero byte.
pub utf8_char-ne-zero : (c : ℕ) → c ≢ 0 → All (λ b. b ≢ 0) (utf8_char c)
unfolding utf8_char
utf8_char-ne-zero c h = ground arith
