-- ===== src/Pgoutput/Reads.antt =====
-- What a reading method does when the wanted bytes are next.
use nabla.Base.{
  ℕ, zero, suc, ◌+◌, ◌-◌, ◌*◌, ◌/◌, ◌%◌, ◌^◌, ◌≤◌, ◌<◌, ◌≡◌, ◌≢◌, refl, sym, ap, ◌∙◌, List, [], ◌∷◌,
  ◌++◌, append_assoc, append-nil, arith, length, drop, length-append, take-append, drop-append,
  drop-drop, length-drop, position, ◌==◌, All, ok, some, ltb, false, subst, Text,
}
use native.Mathlib.Nat.{pow-suc}
use nabla.Base.Int.{ℤ, pos, negsuc, signed}
use nabla.Base.Utf8.{
  IsScalar, to_utf8, utf8_char, from_utf8_lossy, from_utf8_lossy-to_utf8, utf8_char-ne-zero,
}
use nabla.Pgoutput.Reader.{Reader, M, pure, ◌>>>◌, take, from_be, word, repeat, i16, i32, cstring}

-- The cursor is inside the message and `bs` is what follows it.
pub record IsAt (r : Reader) (bs : List ℕ) : Type 0 where
  pub within : r.pos ≤ length r.data_
  pub rest : drop r.pos r.data_ ≡ bs

-- With `xs` next, `m` takes exactly `xs` and returns `a`.
pub data Reads {A : Type 0} (m : M A) (xs : List ℕ) (a : A) : Type 0 where
  reads :
      ((r : Reader) (ys : List ℕ)
        → IsAt r (xs ++ ys)
        → (r' : Reader) × (m r ≡ ok (a, r')) × IsAt r' ys)
      → Reads m xs a

pub run-Reads :
    {A : Type 0} {m : M A} {xs : List ℕ} {a : A}
    → Reads m xs a
    → (r : Reader) (ys : List ℕ) → IsAt r (xs ++ ys)
    → (r' : Reader) × (m r ≡ ok (a, r')) × IsAt r' ys
run-Reads (reads f) = f

pub Reads-pure : {A : Type 0} (a : A) → Reads (pure a) [] a
unfolding pure
Reads-pure a = reads (λ r ys h. (r, refl, h))

pub Reads->>> :
    {A B : Type 0} {m : M A} (f : A → M B) {xs zs : List ℕ} {a : A} {b : B}
    → Reads m xs a
    → Reads (f a) zs b
    → Reads (m >>> f) (xs ++ zs) b
unfolding ◌>>>◌
Reads->>> f {xs = xs} {zs = zs} p q = reads (λ r ys h.
    let (r1, e1, h1) = run-Reads p r (zs ++ ys) (rw append_assoc at h) in
    let (r2, e2, h2) = run-Reads q r1 ys h1 in (r2, rw e1 e2, h2))

pub Reads-last :
    {A B : Type 0} {m : M A} (f : A → B) {xs : List ℕ} {a : A}
    → Reads m xs a
    → Reads (m >>> λ x. pure (f x)) xs (f a)
Reads-last f {xs = xs} {a = a} p =
    rw append-nil at (Reads->>> (λ x. pure (f x)) p (Reads-pure (f a)))

length-le-append : (xs ys : List ℕ) → length xs ≤ length (xs ++ ys)
length-le-append xs ys = omega (arith, length-append xs ys)

-- A cursor that skips what is next.
skip-IsAt :
    (r : Reader) (xs ys : List ℕ)
    → IsAt r (xs ++ ys)
    → IsAt (record r { pos = r.pos + length xs }) ys
skip-IsAt r xs ys h = record {
  within = omega (arith, length-drop r.pos r.data_, ap length h.rest, length-append xs ys);
  rest = sym (drop-drop r.pos (length xs) r.data_) ∙ rw h.rest (drop-append xs ys);
}

take_lem :
    (r : Reader) (xs ys : List ℕ)
    → IsAt r (xs ++ ys)
    → take (length xs) r ≡ ok (xs, record r { pos = r.pos + length xs })
unfolding take
take_lem r xs ys h =
    let fits : ltb (length r.data_) (r.pos + length xs) ≡ false =
      ground (arith, skip-IsAt r xs ys h) in
    rw (fits, h.rest, take-append)

pub Reads-take : (xs : List ℕ) → Reads (take (length xs)) xs xs
Reads-take xs =
    reads
      (λ r ys h. (record r { pos = r.pos + length xs }, take_lem r xs ys h, skip-IsAt r xs ys h))

-- An unsigned word in `n` bytes, most significant first.
unfoldable pub be : ℕ → ℕ → List ℕ
be zero u = []
be (suc n) u = be n (u / 256) ++ (u % 256 ∷ [])

pub length-be : (n u : ℕ) → length (be n u) ≡ n
unfolding be
length-be zero u = refl
length-be (suc n) u =
    length-append (be n (u / 256)) (u % 256 ∷ []) ∙ omega (arith, length-be n (u / 256))

from_be-append : (xs : List ℕ) (acc b : ℕ) → from_be acc (xs ++ (b ∷ [])) ≡ from_be acc xs * 256 + b
unfolding from_be
from_be-append [] acc b = refl
from_be-append (x ∷ xs) acc b = from_be-append xs (acc * 256 + x) b

from_be-be : (n u : ℕ) → u < 256 ^ n → from_be 0 (be n u) ≡ u
unfolding be
from_be-be zero u h = unfold from_be in omega arith
from_be-be (suc n) u h =
    from_be-append (be n (u / 256)) 0 (u % 256)
    ∙ rw (from_be-be n (u / 256) (quotient n u h)) (omega arith)
  where
    quotient : (k v : ℕ) → v < 256 ^ suc k → v / 256 < 256 ^ k
    quotient k v p = omega (arith, pow-suc 256 k)

pub Reads-word : (n u : ℕ) → u < 256 ^ n → Reads (word n) (be n u) u
unfolding word
Reads-word n u h =
    let bytes : Reads (take n) (be n u) (be n u) =
      subst (λ k. Reads (take k) (be n u) (be n u)) (length-be n u) (Reads-take (be n u)) in
    subst (Reads _ _) (from_be-be n u h) (Reads-last (from_be 0) bytes)

-- A signed word: the bit pattern of an integer, and the range in which it is unique.
unfoldable pub pattern_of : ℕ → ℤ → ℕ
pattern_of bits (pos n) = n
pattern_of bits (negsuc n) = 2 ^ bits - n - 1

abbrev pub IsSigned : ℕ → ℤ → Type 0
IsSigned bits (pos n) = n < 2 ^ (bits - 1)
IsSigned bits (negsuc n) = n < 2 ^ (bits - 1)

pub Reads-i16 : (z : ℤ) → IsSigned 16 z → Reads i16 (be 2 (pattern_of 16 z)) z
unfolding i16 pattern_of
Reads-i16 (pos n) h =
    subst (Reads _ _) (ground arith) (Reads-last (signed 16) (Reads-word 2 n (omega arith)))
Reads-i16 (negsuc n) h =
    subst (Reads _ _) (ground arith)
      (Reads-last (signed 16) (Reads-word 2 (2 ^ 16 - n - 1) (omega arith)))

pub Reads-i32 : (z : ℤ) → IsSigned 32 z → Reads i32 (be 4 (pattern_of 32 z)) z
unfolding i32 pattern_of
Reads-i32 (pos n) h =
    subst (Reads _ _) (ground arith) (Reads-last (signed 32) (Reads-word 4 n (omega arith)))
Reads-i32 (negsuc n) h =
    subst (Reads _ _) (ground arith)
      (Reads-last (signed 32) (Reads-word 4 (2 ^ 32 - n - 1) (omega arith)))

-- A list, one element after the other.
unfoldable pub encode_all : {A : Type 0} → (A → List ℕ) → List A → List ℕ
encode_all enc [] = []
encode_all enc (x ∷ xs) = enc x ++ encode_all enc xs

pub Reads-repeat :
    {A : Type 0} (m : M A) (enc : A → List ℕ) (P : A → Type 0)
    → ((x : A) → P x → Reads m (enc x) x)
    → (xs : List A) → All P xs
    → Reads (repeat (length xs) m) (encode_all enc xs) xs
unfolding repeat encode_all
Reads-repeat m enc P one [] h = Reads-pure []
Reads-repeat m enc P one (x ∷ xs) (hx, hxs) =
    Reads->>> _ (one x hx) (Reads-last (λ ys. x ∷ ys) (Reads-repeat m enc P one xs hxs))

-- A text that a NUL ends.
position-append :
    (bs ys : List ℕ)
    → All (λ b. b ≢ 0) bs
    → position (λ b. b == 0) (bs ++ (0 ∷ ys)) ≡ some (length bs)
unfolding position
position-append [] ys h = refl
position-append (b ∷ bs) ys (hb, hbs) = ground (arith, position-append bs ys hbs)

abbrev pub IsName : Text → Type 0
IsName t = All (λ c. IsScalar c × (c ≢ 0)) t

All-append {κ} :
    {A : Type 0} (P : A → Type κ) (xs ys : List A) → All P xs → All P ys → All P (xs ++ ys)
All-append P [] ys h k = k
All-append P (x ∷ xs) ys h k = (h.0, All-append P xs ys h.1 k)

name-IsScalar : (t : Text) → IsName t → All IsScalar t
name-IsScalar [] h = tt
name-IsScalar (c ∷ t) h = (h.0.0, name-IsScalar t h.1)

name-ne-zero : (t : Text) → IsName t → All (λ b. b ≢ 0) (to_utf8 t)
unfolding to_utf8
name-ne-zero [] h = tt
name-ne-zero (c ∷ t) h =
    All-append _ (utf8_char c) (to_utf8 t) (utf8_char-ne-zero c h.0.1) (name-ne-zero t h.1)

cstring_lem :
    (r : Reader) (bs ys : List ℕ)
    → All (λ b. b ≢ 0) bs
    → IsAt r (bs ++ (0 ∷ ys))
    → cstring r ≡ ok (from_utf8_lossy bs, record r { pos = r.pos + length bs + 1 })
unfolding cstring
cstring_lem r bs ys hb h = rw (h.rest, position-append bs ys hb, take-append)

pub Reads-cstring : (t : Text) → IsName t → Reads cstring (to_utf8 t ++ (0 ∷ [])) t
Reads-cstring t h = reads (λ r ys at.
    let bs = to_utf8 t in
    let here : IsAt r (bs ++ (0 ∷ ys)) = rw append_assoc at at in
    let moved : r.pos + length (bs ++ (0 ∷ [])) ≡ r.pos + length bs + 1 =
      omega (arith, length-append bs (0 ∷ [])) in
    (
      record r { pos = r.pos + length bs + 1 },
      cstring_lem r bs ys (name-ne-zero t h) here
          ∙ ap (λ s. ok (s, record r { pos = r.pos + length bs + 1 }))
              (from_utf8_lossy-to_utf8 t (name-IsScalar t h)),
      subst (λ p. IsAt (record r { pos = p }) ys) moved (skip-IsAt r (bs ++ (0 ∷ [])) ys at),
    ))
