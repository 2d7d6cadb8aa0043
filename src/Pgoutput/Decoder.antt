-- ===== src/Pgoutput/Decoder.antt =====
-- `struct Decoder` of src/pgoutput.rs: messages grouped into transactions, and the relations seen.
use nabla.Base.{
  ℕ, List, [], ◌∷◌, ◌++◌, Option, none, some, Bool, true, false, ◌==◌, ◌&&◌, if◌then◌else◌, Result,
  ok, err, ◌>>=◌, text_eq,
}
use nabla.Base.Int.{ℤ, pos, negsuc}
use nabla.Pgoutput.Types.{
  Error, begin_while_open, commit_without_begin, change_outside_transaction, RelationColumn,
  Relation, Message, Change, SourceTransaction,
}
use nabla.Pgoutput.Decode.{decode}

-- `HashMap<u32, Relation>`: the entry that was inserted last under an id counts.
abbrev pub Relations : Type 0
Relations = ℕ → Option Relation

pub record Decoder : Type 0 where
  pub relations : Relations
  pub current : Option SourceTransaction
  pub complete : List SourceTransaction

unfoldable pub empty : Decoder
empty = record { relations = λ _. none; current = none; complete = [] }

unfoldable pub int_eq : ℤ → ℤ → Bool
int_eq (pos a) (pos b) = a == b
int_eq (pos a) (negsuc b) = false
int_eq (negsuc a) (pos b) = false
int_eq (negsuc a) (negsuc b) = a == b

unfoldable pub same_column : RelationColumn → RelationColumn → Bool
same_column col old =
    text_eq col.name old.name && (col.typid == old.typid && int_eq col.typmod old.typmod)

-- The `zip` stops at the shorter list, so columns past the old ones keep what they have.
unfoldable pub keep_types : List RelationColumn → List RelationColumn → List RelationColumn
keep_types [] olds = []
keep_types (col ∷ cols) [] = col ∷ cols
keep_types (col ∷ cols) (old ∷ olds) =
    (if same_column col old then record col { type_name = old.type_name } else col)
    ∷ keep_types cols olds

unfoldable pub learn : Relations → Relation → Relations
learn known rel =
    let columns : List RelationColumn = elim (known rel.id) [
      | none ↦ rel.columns
      | some prev ↦ keep_types rel.columns prev.columns
    ] in
    let resolved : Relation = record rel { columns = columns } in
    λ id. if id == rel.id then some resolved else known id

unfoldable pub push : Change → Decoder → Result Error Decoder
push change d = elim d.current [
  | none ↦ err change_outside_transaction
  | some tx ↦ ok (record d { current = some (record tx { changes = tx.changes ++ (change ∷ []) }) })
]

-- `match decode(data)?` in `feed`.
unfoldable pub absorb : Message → Decoder → Result Error Decoder
absorb (Message.begin final_lsn xid) d = elim d.current [
  | some _ ↦ err begin_while_open
  | none ↦ ok (record d {
    current = some (record { xid = xid; commit_lsn = final_lsn; end_lsn = 0; changes = [] });
  })
]
absorb (Message.commit commit_lsn end_lsn) d = elim d.current [
  | none ↦ err commit_without_begin
  | some tx ↦ ok (record d {
    current = none;
    complete = d.complete ++ (record tx { commit_lsn = commit_lsn; end_lsn = end_lsn } ∷ []);
  })
]
absorb (Message.relation rel) d = ok (record d { relations = learn d.relations rel })
absorb (Message.insert relid new) d = push (Change.insert relid new) d
absorb (Message.update relid old new) d = push (Change.update relid old new) d
absorb (Message.delete relid key_kind old) d = push (Change.delete relid key_kind old) d
absorb (Message.truncate relids) d = push (Change.truncate relids) d
absorb (Message.ignored kind) d = ok d

unfoldable pub feed : List ℕ → Decoder → Result Error Decoder
feed bytes d = decode bytes >>= λ m. absorb m d

-- `for data in &rows { state.decoder.feed(data)? }` of the worker's round.
unfoldable pub feed_all : List (List ℕ) → Decoder → Result Error Decoder
feed_all [] d = ok d
feed_all (bytes ∷ rows) d = feed bytes d >>= feed_all rows

unfoldable pub has_incomplete : Decoder → Bool
has_incomplete d = elim d.current [ none ↦ false | some _ ↦ true ]

unfoldable pub discard_incomplete : Decoder → Decoder
discard_incomplete d = record d { current = none }

unfoldable pub take_complete : Decoder → List SourceTransaction × Decoder
take_complete d = (d.complete, record d { complete = [] })
