-- ===== src/Pgoutput/Decode.antt =====
-- `decode` of src/pgoutput.rs: one message, by its kind byte.
use nabla.Base.{ℕ, ◌%◌, List, Option, none, some, ◌||◌, not, ◌==◌, if◌then◌else◌, Result, ok, ◌>>=◌}
use nabla.Base.Int.{pos_part}
use nabla.Pgoutput.Types.{
  Error, insert_expected_new, update_expected_new, delete_expected_old, unknown_kind,
  RelationColumn, Tuple, Message,
}
use nabla.Pgoutput.Reader.{M, pure, fail, ◌>>>◌, u8, i16, i32, u32, u64, cstring, tuple, repeat}

unfoldable pub decode_begin : M Message
decode_begin =
    u64 >>> λ final_lsn. u64 >>> λ _commit_ts. u32 >>> λ xid. pure (Message.begin final_lsn xid)

unfoldable pub decode_commit : M Message
decode_commit = u8 >>> λ _flags.
    u64 >>> λ commit_lsn. u64 >>> λ end_lsn. u64 >>> λ _ts. pure (Message.commit commit_lsn end_lsn)

-- `flags & 1 == 1` is the lowest bit.
unfoldable pub decode_column : M RelationColumn
decode_column = u8 >>> λ flags. cstring >>> λ name. u32 >>> λ typid. i32 >>> λ typmod.
    pure (record {
      name = name;
      is_key = flags % 2 == 1;
      typid = typid;
      typmod = typmod;
      type_name = none;
    })

unfoldable pub decode_relation : M Message
decode_relation = u32 >>> λ id. cstring >>> λ namespace. cstring >>> λ name. u8 >>> λ replident.
    i16 >>> λ ncols. repeat (pos_part ncols) decode_column >>> λ columns. pure (
      Message.relation (record {
        id = id;
        namespace = namespace;
        name = name;
        replident = replident;
        columns = columns;
      }))

unfoldable pub decode_insert : M Message
decode_insert = u32 >>> λ relid. u8 >>> λ tag.
    if not (tag == b'N')
    then fail (insert_expected_new tag)
    else (tuple >>> λ new. pure (Message.insert relid new))

-- The old tuple of an update, if its tag announces one, with the tag that follows.
unfoldable pub decode_old : ℕ → M (Option (ℕ × Tuple) × ℕ)
decode_old tag =
    if tag == b'K' || tag == b'O'
    then (tuple >>> λ t. u8 >>> λ next. pure (some (tag, t), next))
    else pure (none, tag)

unfoldable pub decode_update : M Message
decode_update = u32 >>> λ relid. u8 >>> λ first. decode_old first >>> λ old.
    if not (old.1 == b'N')
    then fail (update_expected_new old.1)
    else (tuple >>> λ new. pure (Message.update relid old.0 new))

unfoldable pub decode_delete : M Message
decode_delete = u32 >>> λ relid. u8 >>> λ key_kind.
    if not (key_kind == b'K' || key_kind == b'O')
    then fail (delete_expected_old key_kind)
    else (tuple >>> λ old. pure (Message.delete relid key_kind old))

unfoldable pub decode_truncate : M Message
decode_truncate = i32 >>> λ n.
    u8 >>> λ _flags. repeat (pos_part n) u32 >>> λ relids. pure (Message.truncate relids)

-- The `match kind` of `decode`.
unfoldable pub decode_kind : ℕ → M Message
decode_kind kind =
    if kind == b'B'
    then decode_begin
    else if kind == b'C'
    then decode_commit
    else if kind == b'R'
    then decode_relation
    else if kind == b'I'
    then decode_insert
    else if kind == b'U'
    then decode_update
    else if kind == b'D'
    then decode_delete
    else if kind == b'T'
    then decode_truncate
    else if kind == b'O' || kind == b'M' || kind == b'Y'
    then pure (Message.ignored kind)
    else fail (unknown_kind kind)

unfoldable pub decode : List ℕ → Result Error Message
decode bytes = (u8 >>> decode_kind) (record { data_ = bytes; pos = 0 }) >>= λ p. ok p.0
