-- ===== src/Errors/RoundTrip.antt =====
-- `make_sqlstate` of src/errors.rs, and the reading of what it packs.
use mathlib.Core.Option
use nabla.Base.{
  ℕ, zero, suc, ◌+◌, ◌*◌, ◌/◌, ◌%◌, ◌≤◌, ◌<◌, ◌≡◌, refl, ap, ◌∙◌, List, [], ◌∷◌, some, length, All,
  arith,
}
use nabla.Errors.{six_bits, packed, make_sqlstate}

-- PostgreSQL's reading of a packed code: one character for each six bits, the lowest first.
abbrev pub unpack : ℕ → ℕ → List ℕ
unpack zero v = []
unpack (suc n) v = (48 + v % 64) ∷ unpack n (v / 64)

-- The characters that six bits can tell apart: from '0' to 'o'.
abbrev pub IsPackable : ℕ → Type 0
IsPackable b = (48 ≤ b) × (b < 112)

six_bits-IsPackable : (b : ℕ) → IsPackable b → (48 + six_bits b ≡ b) × (six_bits b < 64)
unfolding six_bits
six_bits-IsPackable b (lo, hi) = (omega arith, omega arith)

unpack-step : (n x w : ℕ) → x < 64 → unpack (suc n) (x + 64 * w) ≡ ((48 + x) ∷ unpack n w)
unpack-step n x w h =
    let low : (x + 64 * w) % 64 ≡ x = omega arith in
    let high : (x + 64 * w) / 64 ≡ w = omega arith in
    ap (λ t. (48 + t) ∷ unpack n ((x + 64 * w) / 64)) low ∙ ap (λ t. (48 + x) ∷ unpack n t) high

-- The characters as digits in base 64, the lowest first.
abbrev digits : List ℕ → ℕ
digits [] = 0
digits (b ∷ bs) = six_bits b + 64 * digits bs

unpack-digits : (bs : List ℕ) → All IsPackable bs → unpack (length bs) (digits bs) ≡ bs
unpack-digits [] h = refl
unpack-digits (b ∷ bs) (h, hs) =
    unpack-step (length bs) (six_bits b) (digits bs) (six_bits-IsPackable b h).1
    ∙ (ap (λ t. t ∷ unpack (length bs) (digits bs)) (six_bits-IsPackable b h).0
        ∙ ap (λ t. b ∷ t) (unpack-digits bs hs))

make_sqlstate-digits :
    (a b c d e : ℕ)
    → make_sqlstate (a ∷ b ∷ c ∷ d ∷ e ∷ []) ≡ some (digits (a ∷ b ∷ c ∷ d ∷ e ∷ []))
unfolding make_sqlstate packed
make_sqlstate-digits a b c d e = ap some (omega arith)

-- A code of five characters from '0' to 'o' is packed into a number from which PostgreSQL reads the same characters.
pub unpack-make_sqlstate :
    (a b c d e : ℕ)
    → All IsPackable (a ∷ b ∷ c ∷ d ∷ e ∷ [])
    → Option.map (unpack 5) (make_sqlstate (a ∷ b ∷ c ∷ d ∷ e ∷ [])) ≡ some (a ∷ b ∷ c ∷ d ∷ e ∷ [])
unpack-make_sqlstate a b c d e h =
    ap (Option.map (unpack 5)) (make_sqlstate-digits a b c d e)
    ∙ ap some (unpack-digits (a ∷ b ∷ c ∷ d ∷ e ∷ []) h)
