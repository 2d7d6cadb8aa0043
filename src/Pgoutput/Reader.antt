-- ===== src/Pgoutput/Reader.antt =====
-- `struct Reader` of src/pgoutput.rs: a cursor over the bytes of one message.
-- `pos + n` cannot wrap: a message is shorter than 2 ^ 62 bytes and `n` is below 2 ^ 31.
use nabla.Base.{
  ℕ, zero, suc, ◌+◌, ◌*◌, List, [], ◌∷◌, ltb, ◌==◌, if◌then◌else◌, length, take as list_take, drop,
  position, Result, ok, err, ok_or, ◌>>=◌, Text,
}
use nabla.Base.Int.{ℤ, pos_part, signed}
use nabla.Base.Utf8.{from_utf8_lossy}
use nabla.Pgoutput.Types.{Error, truncated, unterminated, unknown_tag, ColumnValue, Tuple}

pub record Reader : Type 0 where
  pub data_ : List ℕ
  pub pos : ℕ

-- A method that reads: it may fail, and moves the cursor.
abbrev pub M : Type 0 → Type 0
M A = Reader → Result Error (A × Reader)

unfoldable pub pure : {A : Type 0} → A → M A
pure a r = ok (a, r)

unfoldable pub fail : {A : Type 0} → Error → M A
fail e r = err e

infixl 5 ◌>>>◌
unfoldable pub ◌>>>◌ : {A B : Type 0} → M A → (A → M B) → M B
◌>>>◌ m f r = m r >>= λ p. f p.0 p.1

unfoldable pub take : ℕ → M (List ℕ)
take n r =
    if ltb (length r.data_) (r.pos + n)
    then err (truncated n r.pos (length r.data_))
    else ok (list_take n (drop r.pos r.data_), record r { pos = r.pos + n })

-- `from_be_bytes` of an unsigned word.
unfoldable pub from_be : ℕ → List ℕ → ℕ
from_be acc [] = acc
from_be acc (b ∷ bs) = from_be (acc * 256 + b) bs

unfoldable pub word : ℕ → M ℕ
word n = take n >>> λ bs. pure (from_be 0 bs)

unfoldable pub u8 : M ℕ
u8 = word 1

unfoldable pub i16 : M ℤ
i16 = word 2 >>> λ u. pure (signed 16 u)

unfoldable pub i32 : M ℤ
i32 = word 4 >>> λ u. pure (signed 32 u)

unfoldable pub u32 : M ℕ
u32 = word 4

unfoldable pub u64 : M ℕ
u64 = word 8

unfoldable pub cstring : M Text
cstring r =
    let rest = drop r.pos r.data_ in
    ok_or (position (λ b. b == 0) rest) unterminated >>= λ n.
    ok (from_utf8_lossy (list_take n rest), record r { pos = r.pos + n + 1 })

-- One column of a tuple, by its tag.
unfoldable pub column_value : ℕ → M ColumnValue
column_value tag =
    if tag == b'n'
    then pure ColumnValue.null
    else if tag == b'u'
    then pure ColumnValue.unchanged
    else if tag == b't'
    then (i32 >>> λ len.
        take (pos_part len) >>> λ bytes. pure (ColumnValue.text (from_utf8_lossy bytes)))
    else fail (unknown_tag tag)

-- `for _ in 0..n` with a `push` of what the body reads.
unfoldable pub repeat : {A : Type 0} → ℕ → M A → M (List A)
repeat zero m = pure []
repeat (suc n) m = m >>> λ x. repeat n m >>> λ xs. pure (x ∷ xs)

unfoldable pub tuple : M Tuple
tuple = i16 >>> λ ncols. repeat (pos_part ncols) (u8 >>> column_value)
