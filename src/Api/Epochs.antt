-- ===== src/Api/Epochs.antt =====
-- The new epoch that the client reads from the detail of the server's report (src/errors.rs, `epoch_changed`, and
-- `classify` of the client).
use nabla.Base.{
  ℕ, zero, suc, ◌+◌, ◌-◌, ◌*◌, ◌/◌, ◌%◌, ◌^◌, ◌≤◌, ◌<◌, ◌≡◌, refl, ap, sym, ◌∙◌, inl, inr, [], ◌∷◌,
  ◌++◌, ◌>>=◌, append-nil, append_assoc, All, none, some, true, false, leb, ltb, ◌==◌, ==_iff, Text,
  ok, codes, decimal, decimal_loop, concat, Bool-cases, arith,
}
use nabla.Base.Int.{ℤ, pos}
use nabla.Errors
use nabla.Errors.{integer}
use nabla.Apply.Execute.{rsplit_once, is_digit, parse_digits, parse_positive, parse_int}
use nabla.Client.Events.{last_word, new_epoch}

abbrev IsDigit : ℕ → Type 0
IsDigit c = (b'0' ≤ c) × (c ≤ b'9')

-- One digit is read.
parse_digits-digit :
    (bound acc d : ℕ) (large out : Text)
    → d < 10
    → acc * 10 + d ≤ bound
    → parse_digits bound large acc ((b'0' + d) ∷ out) ≡ parse_digits bound large (acc * 10 + d) out
unfolding parse_digits is_digit
parse_digits-digit bound acc d large out h k =
    let a : leb b'0' (b'0' + d) ≡ true = ground arith in
    let b : leb (b'0' + d) b'9' ≡ true = ground arith in
    let c : acc * 10 + (b'0' + d - b'0') ≡ acc * 10 + d = omega arith in
    let e : ltb bound (acc * 10 + d) ≡ false = ground arith in rw (a, b, c, e) refl

parse_digits-decimal_loop :
    (bound fuel n : ℕ) (large out : Text)
    → n ≤ fuel
    → n ≤ bound
    → parse_digits bound large 0 (decimal_loop fuel n out) ≡ parse_digits bound large n out
unfolding decimal_loop
parse_digits-decimal_loop bound zero n large out h k =
    let e : 0 * 10 + n % 10 ≡ n = omega arith in
    parse_digits-digit bound 0 (n % 10) large out (omega arith) (omega arith)
    ∙ ap (λ m. parse_digits bound large m out) e
parse_digits-decimal_loop bound (suc fuel) n large out h k = elim (Bool-cases (n / 10 == 0)) [
  | inl e ↦
      let small : n / 10 ≡ 0 = (==_iff (n / 10) 0).0 e in
      let same : 0 * 10 + n % 10 ≡ n = omega arith in
      rw e (
        parse_digits-digit bound 0 (n % 10) large out (omega arith) (omega arith)
        ∙ ap (λ m. parse_digits bound large m out) same)
  | inr e ↦
      let same : n / 10 * 10 + n % 10 ≡ n = omega arith in
      rw e (
        parse_digits-decimal_loop bound fuel (n / 10) large ((b'0' + n % 10) ∷ out) (ground arith)
          (omega arith)
        ∙ (parse_digits-digit bound (n / 10) (n % 10) large out (omega arith) (omega arith)
            ∙ ap (λ m. parse_digits bound large m out) same))
]

-- A number in decimal is digits, and at least one.
AreDigits-decimal_loop :
    (fuel n : ℕ) (out : Text)
    → All IsDigit out
    → (c : ℕ) × (cs : Text) × (decimal_loop fuel n out ≡ c ∷ cs) × IsDigit c × All IsDigit cs
unfolding decimal_loop
AreDigits-decimal_loop zero n out h = (b'0' + n % 10, out, refl, omega arith, h)
AreDigits-decimal_loop (suc fuel) n out h = elim (Bool-cases (n / 10 == 0)) [
  | inl e ↦ (b'0' + n % 10, out, rw e refl, omega arith, h)
  | inr e ↦
      let (c, cs, same, d, ds) =
        AreDigits-decimal_loop fuel (n / 10) ((b'0' + n % 10) ∷ out) (omega arith, h) in
      (c, cs, rw e same, d, ds)
]

-- A text that starts with a digit is read as a positive number.
parse_int-digits :
    (bits c : ℕ) (cs : Text) → IsDigit c → parse_int bits (c ∷ cs) ≡ parse_positive bits (c ∷ cs)
unfolding parse_int
parse_int-digits bits c [] h =
    let p : (c == b'+') ≡ false = ground arith in
    let m : (c == b'-') ≡ false = ground arith in rw (p, m) refl
parse_int-digits bits c (d ∷ cs) h =
    let p : (c == b'+') ≡ false = ground arith in
    let m : (c == b'-') ≡ false = ground arith in rw (m, p) refl

parse_positive-decimal : (n : ℕ) → n < 2 ^ 31 → parse_positive 32 (decimal n) ≡ ok (pos n)
unfolding decimal parse_positive parse_digits
parse_positive-decimal n h =
    ap (λ r. r >>= λ m. ok (pos m))
      (parse_digits-decimal_loop (2 ^ 31 - 1) n n (codes "number too large to fit in target type")
        [] (omega arith) (omega arith))

decimal_digits : (n : ℕ) → (c : ℕ) × (cs : Text) × (decimal n ≡ c ∷ cs) × IsDigit c × All IsDigit cs
unfolding decimal
decimal_digits n = AreDigits-decimal_loop n n [] tt

parse_int-decimal : (n : ℕ) → n < 2 ^ 31 → parse_int 32 (decimal n) ≡ ok (pos n)
parse_int-decimal n h =
    let (c, cs, e, d, ds) = decimal_digits n in
    ap (parse_int 32) e
    ∙ (parse_int-digits 32 c cs d ∙ (ap (parse_positive 32) (sym e) ∙ parse_positive-decimal n h))

rsplit_once-digits : (cs : Text) → All IsDigit cs → rsplit_once b' ' cs ≡ none
unfolding rsplit_once
rsplit_once-digits [] h = refl
rsplit_once-digits (c ∷ cs) (h, hs) =
    let t : (c == b' ') ≡ false = ground arith in rw (rsplit_once-digits cs hs, t) refl

rsplit_once-append :
    (xs ys : Text) → rsplit_once b' ' ys ≡ none → rsplit_once b' ' (xs ++ b' ' ∷ ys) ≡ some (xs, ys)
unfolding rsplit_once
rsplit_once-append [] ys h = rw h refl
rsplit_once-append (x ∷ xs) ys h = rw (rsplit_once-append xs ys h) refl

last_word-append : (xs ys : Text) → rsplit_once b' ' ys ≡ none → last_word (xs ++ b' ' ∷ ys) ≡ ys
unfolding last_word
last_word-append xs ys h = rw (rsplit_once-append xs ys h, last_word) refl

-- The detail of the report, up to its last space.
detail_splits :
    (old new : Text)
    → concat (codes "epoch " ∷ old ∷ codes " -> " ∷ new ∷ [])
      ≡ (codes "epoch " ++ (old ++ codes " ->")) ++ b' ' ∷ new
unfolding concat
detail_splits old new = rw (append-nil new) (
    ap (λ l. codes "epoch " ++ l) (sym (append_assoc old (codes " ->") (b' ' ∷ new)))
    ∙ sym (append_assoc (codes "epoch ") (old ++ codes " ->") (b' ' ∷ new)))

new_epoch-some :
    (detail : Text) (own m : ℤ)
    → parse_int 32 (last_word detail) ≡ ok m
    → new_epoch (some detail) own ≡ m
unfolding new_epoch
new_epoch-some detail own m e = rw (e, new_epoch) refl

-- The client reads from the report of a changed epoch the epoch that the view has, whatever it had itself.
pub new_epoch-epoch_changed :
    (name : Text) (from own : ℤ) (n : ℕ)
    → n < 2 ^ 31
    → new_epoch (Errors.epoch_changed name from (pos n)).detail own ≡ pos n
unfolding Errors.epoch_changed Errors.raise_sqlstate integer
new_epoch-epoch_changed name from own n h =
    let (c, cs, e, d, ds) = decimal_digits n in
    let no_space = ap (rsplit_once b' ') e ∙ rsplit_once-digits (c ∷ cs) (d, ds) in
    let word =
      ap last_word (detail_splits (integer from) (decimal n))
      ∙ last_word-append (codes "epoch " ++ (integer from ++ codes " ->")) (decimal n) no_space in
    new_epoch-some _ own (pos n) (ap (parse_int 32) word ∙ parse_int-decimal n h)
