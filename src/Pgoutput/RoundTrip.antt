-- ===== src/Pgoutput/RoundTrip.antt =====
-- `decode` of src/pgoutput.rs on the messages of the documented layout.
use nabla.Base.{
  ℕ, ◌^◌, ◌%◌, ◌==◌, append_assoc, ◌<◌, ◌≡◌, refl, ap, subst, inl, inr, List, [], ◌∷◌, ◌++◌, Option,
  none, some, Bool, true, false, if◌then◌else◌, length, Text, arith, ok, append-nil,
}
use nabla.Base.Int.{pos, pos_part}
use nabla.Base.Utf8.{to_utf8, from_utf8_lossy, from_utf8_lossy-to_utf8}
use nabla.Pgoutput.Types.{
  RelationColumn, Relation, ColumnValue, null, unchanged, text, Tuple, Message,
}
use nabla.Pgoutput.Reader.{M, ◌>>>◌, pure, u8, u32, u64, i16, i32, tuple, column_value, take}
use nabla.Pgoutput.Decode.{
  decode_begin, decode_commit, decode_column, decode_relation, decode_insert, decode_old,
  decode_update, decode_delete, decode_truncate, decode_kind, decode,
}
use nabla.Pgoutput.Reads.{
  Reads, IsAt, run-Reads, Reads->>>, Reads-last, Reads-pure, Reads-take, Reads-word, Reads-i16,
  Reads-i32, Reads-repeat, Reads-cstring, be, pattern_of, encode_all,
}
use nabla.Pgoutput.Encode.{
  encode_value, encode_tuple, encode_column, encode_old, encode, FitsValue, FitsTuple, FitsColumn,
  IsOldTag, Fits,
}

Reads-u8 : (u : ℕ) → u < 256 → Reads u8 (be 1 u) u
unfolding u8
Reads-u8 u h = Reads-word 1 u h

Reads-u32 : (u : ℕ) → u < 2 ^ 32 → Reads u32 (be 4 u) u
unfolding u32
Reads-u32 u h = Reads-word 4 u h

Reads-u64 : (u : ℕ) → u < 2 ^ 64 → Reads u64 (be 8 u) u
unfolding u64
Reads-u64 u h = Reads-word 8 u h

Reads-text :
    (t : Text)
    → FitsValue (text t)
    → Reads (column_value b't') (be 4 (length (to_utf8 t)) ++ to_utf8 t) (text t)
unfolding column_value
Reads-text t (scalar, short) =
    let length_word : Reads i32 (be 4 (length (to_utf8 t))) (pos (length (to_utf8 t))) =
      unfold pattern_of in Reads-i32 (pos (length (to_utf8 t))) short in
    let whole =
      Reads->>> (λ len. take (pos_part len) >>> λ bytes. pure (text (from_utf8_lossy bytes)))
        length_word (Reads-last (λ bytes. text (from_utf8_lossy bytes)) (Reads-take (to_utf8 t))) in
    subst (Reads _ _) (ap text (from_utf8_lossy-to_utf8 t scalar)) whole

value_null : Reads (column_value b'n') [] null
unfolding column_value
value_null = Reads-pure null

value_unchanged : Reads (column_value b'u') [] unchanged
unfolding column_value
value_unchanged = Reads-pure unchanged

Reads-only :
    {A B : Type 0} {m : M A} (f : A → M B) {xs : List ℕ} {a : A} {b : B}
    → Reads m xs a
    → Reads (f a) [] b
    → Reads (m >>> f) xs b
Reads-only f p q = rw append-nil at (Reads->>> f p q)

Reads-value : (v : ColumnValue) → FitsValue v → Reads (u8 >>> column_value) (encode_value v) v
unfolding encode_value
Reads-value null h = Reads-only _ (Reads-u8 b'n' (omega arith)) value_null
Reads-value unchanged h = Reads-only _ (Reads-u8 b'u' (omega arith)) value_unchanged
Reads-value (text t) h = Reads->>> _ (Reads-u8 b't' (omega arith)) (Reads-text t h)

-- The count of a list, as an `i16` and as an `i32`.
Reads-count16 : (n : ℕ) → n < 2 ^ 15 → Reads i16 (be 2 n) (pos n)
unfolding pattern_of
Reads-count16 n h = Reads-i16 (pos n) h

Reads-count32 : (n : ℕ) → n < 2 ^ 31 → Reads i32 (be 4 n) (pos n)
unfolding pattern_of
Reads-count32 n h = Reads-i32 (pos n) h

Reads-tuple : (t : Tuple) → FitsTuple t → Reads tuple (encode_tuple t) t
unfolding tuple encode_tuple
Reads-tuple t (short, fits) =
    Reads->>> _ (Reads-count16 (length t) short)
      (Reads-repeat (u8 >>> column_value) encode_value FitsValue Reads-value t fits)

key_flag : (b : Bool) → ((if b then 1 else 0) % 2 == 1) ≡ b
key_flag true = refl
key_flag false = refl

Reads-column : (c : RelationColumn) → FitsColumn c → Reads decode_column (encode_column c) c
unfolding decode_column encode_column
Reads-column c (name, typid, typmod, untyped) =
    subst (Reads _ _) (ground (arith, key_flag c.is_key)) (
      Reads->>> _ (Reads-u8 (if c.is_key then 1 else 0) (ground arith)) (
        Reads->>> _ (Reads-cstring c.name name)
          (Reads->>> _ (Reads-u32 c.typid typid) (Reads-last _ (Reads-i32 c.typmod typmod)))))

module _ (ts flags : ℕ) (hts : ts < 2 ^ 64) (hflags : flags < 256) where
  -- Each message after its kind byte.
  Reads-begin :
      (final_lsn xid : ℕ)
      → Fits (Message.begin final_lsn xid)
      → Reads decode_begin (be 8 final_lsn ++ (be 8 ts ++ be 4 xid)) (Message.begin final_lsn xid)
  unfolding decode_begin
  Reads-begin final_lsn xid h =
      Reads->>> _ (Reads-u64 final_lsn h.0)
        (Reads->>> _ (Reads-u64 ts hts) (Reads-last _ (Reads-u32 xid h.1)))

  Reads-commit :
      (commit_lsn end_lsn : ℕ)
      → Fits (Message.commit commit_lsn end_lsn)
      → Reads decode_commit
          (be 1 flags ++ (be 8 commit_lsn ++ (be 8 end_lsn ++ be 8 ts)))
          (Message.commit commit_lsn end_lsn)
  unfolding decode_commit
  Reads-commit commit_lsn end_lsn h = Reads->>> _ (Reads-u8 flags hflags) (
      Reads->>> _ (Reads-u64 commit_lsn h.0)
        (Reads->>> _ (Reads-u64 end_lsn h.1) (Reads-last _ (Reads-u64 ts hts))))

  Reads-truncate :
      (relids : List ℕ)
      → Fits (Message.truncate relids)
      → Reads decode_truncate
          (be 4 (length relids) ++ (be 1 flags ++ encode_all (be 4) relids))
          (Message.truncate relids)
  unfolding decode_truncate
  Reads-truncate relids h = Reads->>> _ (Reads-count32 (length relids) h.0) (
      Reads->>> _ (Reads-u8 flags hflags)
        (Reads-last _ (Reads-repeat u32 (be 4) (λ id. id < 2 ^ 32) Reads-u32 relids h.1)))

Reads-relation :
    (r : Relation)
    → Fits (Message.relation r)
    → Reads decode_relation
        (be 4 r.id
          ++ ((to_utf8 r.namespace ++ (0 ∷ []))
              ++ ((to_utf8 r.name ++ (0 ∷ []))
                  ++ (be 1 r.replident
                      ++ (be 2 (length r.columns) ++ encode_all encode_column r.columns)))))
        (Message.relation r)
unfolding decode_relation
Reads-relation r (id, namespace, name, replident, short, fits) = Reads->>> _ (Reads-u32 r.id id) (
    Reads->>> _ (Reads-cstring r.namespace namespace) (
      Reads->>> _ (Reads-cstring r.name name) (
        Reads->>> _ (Reads-u8 r.replident replident) (
          Reads->>> _ (Reads-count16 (length r.columns) short) (
            Reads-last _
              (Reads-repeat decode_column encode_column FitsColumn Reads-column r.columns fits))))))

Reads-insert :
    (relid : ℕ) (new : Tuple)
    → Fits (Message.insert relid new)
    → Reads decode_insert (be 4 relid ++ (be 1 b'N' ++ encode_tuple new)) (Message.insert relid new)
unfolding decode_insert
Reads-insert relid new h =
    Reads->>> _ (Reads-u32 relid h.0)
      (Reads->>> _ (Reads-u8 b'N' (omega arith)) (Reads-last _ (Reads-tuple new h.1)))

-- The tag that announces the new tuple, alone or behind an old one.
decode_old-none : Reads (decode_old b'N') [] (none, b'N')
unfolding decode_old
decode_old-none = Reads-pure (none, b'N')

decode_old-some :
    (tag : ℕ) (t : Tuple)
    → IsOldTag tag
    → FitsTuple t
    → Reads (decode_old tag) (encode_tuple t ++ be 1 b'N') (some (tag, t), b'N')
unfolding decode_old
decode_old-some tag t (inl e) h =
    rw e (Reads->>> _ (Reads-tuple t h) (Reads-last _ (Reads-u8 b'N' (omega arith))))
decode_old-some tag t (inr e) h =
    rw e (Reads->>> _ (Reads-tuple t h) (Reads-last _ (Reads-u8 b'N' (omega arith))))

old_tag_byte : (tag : ℕ) → IsOldTag tag → tag < 256
old_tag_byte tag (inl e) = omega arith
old_tag_byte tag (inr e) = omega arith

Reads-update :
    (relid : ℕ) (old : Option (ℕ × Tuple)) (new : Tuple)
    → Fits (Message.update relid old new)
    → Reads decode_update
        (be 4 relid ++ (encode_old old ++ encode_tuple new))
        (Message.update relid old new)
unfolding decode_update encode_old
Reads-update relid none new (id, _, fits) = Reads->>> _ (Reads-u32 relid id) (
    Reads->>> _ (Reads-u8 b'N' (omega arith))
      (Reads->>> _ decode_old-none (Reads-last _ (Reads-tuple new fits))))
Reads-update relid (some (tag, t)) new (id, (kind, old), fits) = Reads->>> _ (Reads-u32 relid id) (
    rw append_assoc (
      Reads->>> _ (Reads-u8 tag (old_tag_byte tag kind))
        (Reads->>> _ (decode_old-some tag t kind old) (Reads-last _ (Reads-tuple new fits)))))

Reads-delete :
    (relid kind : ℕ) (old : Tuple)
    → Fits (Message.delete relid kind old)
    → Reads decode_delete
        (be 4 relid ++ (be 1 kind ++ encode_tuple old))
        (Message.delete relid kind old)
unfolding decode_delete
Reads-delete relid kind old (id, inl e, fits) = rw e (
    Reads->>> _ (Reads-u32 relid id)
      (Reads->>> _ (Reads-u8 b'K' (omega arith)) (Reads-last _ (Reads-tuple old fits))))
Reads-delete relid kind old (id, inr e, fits) = rw e (
    Reads->>> _ (Reads-u32 relid id)
      (Reads->>> _ (Reads-u8 b'O' (omega arith)) (Reads-last _ (Reads-tuple old fits))))

-- A message that is told by its kind byte alone.
Reads-kind :
    {xs : List ℕ} {m : Message} (kind : ℕ)
    → kind < 256
    → Reads (decode_kind kind) xs m
    → Reads (u8 >>> decode_kind) (be 1 kind ++ xs) m
Reads-kind kind h p = Reads->>> decode_kind (Reads-u8 kind h) p

Reads-ignored :
    (kind : ℕ)
    → kind < 256
    → decode_kind kind ≡ pure (Message.ignored kind)
    → Reads (u8 >>> decode_kind) (be 1 kind) (Message.ignored kind)
Reads-ignored kind h e =
    Reads-only decode_kind (Reads-u8 kind h) (rw e (Reads-pure (Message.ignored kind)))

Reads-message :
    (ts flags : ℕ) (m : Message)
    → ts < 2 ^ 64
    → flags < 256
    → Fits m
    → Reads (u8 >>> decode_kind) (encode ts flags m) m
unfolding encode decode_kind
Reads-message ts flags (Message.begin final_lsn xid) a b h =
    Reads-kind b'B' (omega arith) (Reads-begin ts flags a b final_lsn xid h)
Reads-message ts flags (Message.commit commit_lsn end_lsn) a b h =
    Reads-kind b'C' (omega arith) (Reads-commit ts flags a b commit_lsn end_lsn h)
Reads-message ts flags (Message.relation r) a b h =
    Reads-kind b'R' (omega arith) (Reads-relation r h)
Reads-message ts flags (Message.insert relid new) a b h =
    Reads-kind b'I' (omega arith) (Reads-insert relid new h)
Reads-message ts flags (Message.update relid old new) a b h =
    Reads-kind b'U' (omega arith) (Reads-update relid old new h)
Reads-message ts flags (Message.delete relid kind old) a b h =
    Reads-kind b'D' (omega arith) (Reads-delete relid kind old h)
Reads-message ts flags (Message.truncate relids) a b h =
    Reads-kind b'T' (omega arith) (Reads-truncate ts flags a b relids h)
Reads-message ts flags (Message.ignored kind) a b (inl e) =
    rw e (Reads-ignored b'O' (omega arith) refl)
Reads-message ts flags (Message.ignored kind) a b (inr (inl e)) =
    rw e (Reads-ignored b'M' (omega arith) refl)
Reads-message ts flags (Message.ignored kind) a b (inr (inr e)) =
    rw e (Reads-ignored b'Y' (omega arith) refl)

-- Every message that fits the layout is read back from it, whatever the skipped fields hold and
-- whatever bytes follow.
pub decode-encode :
    (ts flags : ℕ) (m : Message) (rest : List ℕ)
    → ts < 2 ^ 64
    → flags < 256
    → Fits m
    → decode (encode ts flags m ++ rest) ≡ ok m
unfolding decode
decode-encode ts flags m rest a b h =
    let start : IsAt (record { data_ = encode ts flags m ++ rest; pos = 0 })
        (encode ts flags m ++ rest) =
      record { within = omega arith; rest = refl } in
    let (r, e, _) = run-Reads (Reads-message ts flags m a b h) _ rest start in rw e
