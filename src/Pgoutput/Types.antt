-- ===== src/Pgoutput/Types.antt =====
-- The data types of src/pgoutput.rs. Machine words are numbers, `i32` and `i16` fields are ℤ.
use nabla.Base.{ℕ, Bool, Option, List, Text}
use nabla.Base.Int.{ℤ}

-- The messages of the module's `Err` values, with what they interpolate.
pub data Error : Type 0 where
  truncated : ℕ → ℕ → ℕ → Error
  unterminated : Error
  unknown_tag : ℕ → Error
  insert_expected_new : ℕ → Error
  update_expected_new : ℕ → Error
  delete_expected_old : ℕ → Error
  unknown_kind : ℕ → Error
  begin_while_open : Error
  commit_without_begin : Error
  change_outside_transaction : Error

pub record RelationColumn : Type 0 where
  pub name : Text
  pub is_key : Bool
  pub typid : ℕ
  pub typmod : ℤ
  pub type_name : Option Text

pub record Relation : Type 0 where
  pub id : ℕ
  pub namespace : Text
  pub name : Text
  pub replident : ℕ
  pub columns : List RelationColumn

pub data ColumnValue : Type 0 where
  null : ColumnValue
  unchanged : ColumnValue
  text : Text → ColumnValue

abbrev pub Tuple : Type 0
Tuple = List ColumnValue

pub data Message : Type 0 where
  begin : ℕ → ℕ → Message
  commit : ℕ → ℕ → Message
  relation : Relation → Message
  insert : ℕ → Tuple → Message
  update : ℕ → Option (ℕ × Tuple) → Tuple → Message
  delete : ℕ → ℕ → Tuple → Message
  truncate : List ℕ → Message
  ignored : ℕ → Message

-- One row change inside a source transaction.
pub data Change : Type 0 where
  insert : ℕ → Tuple → Change
  update : ℕ → Option (ℕ × Tuple) → Tuple → Change
  delete : ℕ → ℕ → Tuple → Change
  truncate : List ℕ → Change

pub record SourceTransaction : Type 0 where
  pub xid : ℕ
  pub commit_lsn : ℕ
  pub end_lsn : ℕ
  pub changes : List Change
