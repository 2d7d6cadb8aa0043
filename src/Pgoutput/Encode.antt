-- ===== src/Pgoutput/Encode.antt =====
-- The layout of the protocol's messages, as PostgreSQL documents it: what `decode` should read.
use nabla.Base.{
  ℕ, ◌^◌, ◌<◌, ◌≡◌, ◌⊎◌, List, [], ◌∷◌, ◌++◌, Option, none, some, if◌then◌else◌, length, All,
}
use nabla.Base.Utf8.{IsScalar, to_utf8}
use nabla.Pgoutput.Types.{RelationColumn, ColumnValue, null, unchanged, text, Tuple, Message}
use nabla.Pgoutput.Reads.{be, pattern_of, IsSigned, IsName, encode_all}

unfoldable pub encode_value : ColumnValue → List ℕ
encode_value null = be 1 b'n'
encode_value unchanged = be 1 b'u'
encode_value (text t) = be 1 b't' ++ (be 4 (length (to_utf8 t)) ++ to_utf8 t)

unfoldable pub encode_tuple : Tuple → List ℕ
encode_tuple t = be 2 (length t) ++ encode_all encode_value t

unfoldable pub encode_column : RelationColumn → List ℕ
encode_column c =
    be 1 (if c.is_key then 1 else 0)
    ++ ((to_utf8 c.name ++ (0 ∷ [])) ++ (be 4 c.typid ++ be 4 (pattern_of 32 c.typmod)))

-- The old tuple of an update with its tag, then the tag of the new one.
unfoldable pub encode_old : Option (ℕ × Tuple) → List ℕ
encode_old none = be 1 b'N'
encode_old (some (tag, t)) = be 1 tag ++ (encode_tuple t ++ be 1 b'N')

-- `ts` and `flags` stand for the fields that the decoder skips.
unfoldable pub encode : ℕ → ℕ → Message → List ℕ
encode ts flags (Message.begin final_lsn xid) =
    be 1 b'B' ++ (be 8 final_lsn ++ (be 8 ts ++ be 4 xid))
encode ts flags (Message.commit commit_lsn end_lsn) =
    be 1 b'C' ++ (be 1 flags ++ (be 8 commit_lsn ++ (be 8 end_lsn ++ be 8 ts)))
encode ts flags (Message.relation r) =
    be 1 b'R'
    ++ (be 4 r.id
        ++ ((to_utf8 r.namespace ++ (0 ∷ []))
            ++ ((to_utf8 r.name ++ (0 ∷ []))
                ++ (be 1 r.replident
                    ++ (be 2 (length r.columns) ++ encode_all encode_column r.columns)))))
encode ts flags (Message.insert relid new) =
    be 1 b'I' ++ (be 4 relid ++ (be 1 b'N' ++ encode_tuple new))
encode ts flags (Message.update relid old new) =
    be 1 b'U' ++ (be 4 relid ++ (encode_old old ++ encode_tuple new))
encode ts flags (Message.delete relid kind old) =
    be 1 b'D' ++ (be 4 relid ++ (be 1 kind ++ encode_tuple old))
encode ts flags (Message.truncate relids) =
    be 1 b'T' ++ (be 4 (length relids) ++ (be 1 flags ++ encode_all (be 4) relids))
encode ts flags (Message.ignored kind) = be 1 kind

-- The values that the layout has room for.
abbrev pub FitsValue : ColumnValue → Type 0
FitsValue null = Unit
FitsValue unchanged = Unit
FitsValue (text t) = All IsScalar t × (length (to_utf8 t) < 2 ^ 31)

abbrev pub FitsTuple : Tuple → Type 0
FitsTuple t = (length t < 2 ^ 15) × All FitsValue t

-- A relation as the message gives it: the type names come later.
abbrev pub FitsColumn : RelationColumn → Type 0
FitsColumn c = IsName c.name × (c.typid < 2 ^ 32) × IsSigned 32 c.typmod × (c.type_name ≡ none)

abbrev pub IsOldTag : ℕ → Type 0
IsOldTag tag = (tag ≡ b'K') ⊎ (tag ≡ b'O')

abbrev pub FitsOld : Option (ℕ × Tuple) → Type 0
FitsOld none = Unit
FitsOld (some (tag, t)) = IsOldTag tag × FitsTuple t

abbrev pub Fits : Message → Type 0
Fits (Message.begin final_lsn xid) = (final_lsn < 2 ^ 64) × (xid < 2 ^ 32)
Fits (Message.commit commit_lsn end_lsn) = (commit_lsn < 2 ^ 64) × (end_lsn < 2 ^ 64)
Fits (Message.relation r) =
    (r.id < 2 ^ 32)
    × IsName r.namespace
    × IsName r.name
    × (r.replident < 256)
    × (length r.columns < 2 ^ 15)
    × All FitsColumn r.columns
Fits (Message.insert relid new) = (relid < 2 ^ 32) × FitsTuple new
Fits (Message.update relid old new) = (relid < 2 ^ 32) × FitsOld old × FitsTuple new
Fits (Message.delete relid kind old) = (relid < 2 ^ 32) × IsOldTag kind × FitsTuple old
Fits (Message.truncate relids) = (length relids < 2 ^ 31) × All (λ id. id < 2 ^ 32) relids
Fits (Message.ignored kind) = (kind ≡ b'O') ⊎ (kind ≡ b'M') ⊎ (kind ≡ b'Y')
