-- ===== src/Worker/Types.antt =====
-- The state of src/worker.rs, the catalog tables that it reads and writes, and its surroundings.
use nabla.Base.{ℕ, List, Option, Bool, Text}
use nabla.Base.Int.{ℤ}
use nabla.Definition.Types.{ViewSpec}
use nabla.Apply.Types.{Op, Json}
use nabla.Apply.Sql.{Spi}

-- What the worker calls: the database, the JSON library, `format_type` of PostgreSQL for a type
-- with its modifier, and `to_lowercase` with Unicode's tables.
pub record Host : Type 1 where
  pub spi : Spi
  pub json : Json
  pub format_type : ℕ → ℤ → Option Text
  pub to_lowercase : Text → Text

-- The settings of src/guc.rs that a round reads.
pub record Settings : Type 0 where
  pub max_apply_failures : ℕ
  pub retain_deltas : ℕ
  pub batch_changes : ℕ

-- The states of a view in `nabla.views`.
pub data Status : Type 0 where
  initializing : Status
  refreshing : Status
  live : Status
  stale : Status
  failed : Status

-- `nabla.views`. `spec` is `none` where the stored document is none of a view. Positions are numbers here, and
-- text in the table. `populated` says whether `populated_at` is set; the other times are left out.
pub record ViewRow : Type 0 where
  pub id : ℕ
  pub name : Text
  pub spec : Option ViewSpec
  pub status : Status
  pub frontier_lsn : ℕ
  pub last_seq : ℕ
  pub apply_failures : ℕ
  pub definition : Text
  pub stale_reason : Option Text
  pub last_error : Option Text
  pub relid : Option ℕ
  pub epoch : ℕ
  pub populated : Bool

-- `nabla.shadows`.
pub record ShadowRow : Type 0 where
  pub relid : ℕ
  pub table_name : Text
  pub frontier_lsn : ℕ
  pub failed : Bool
  pub columns : List Text
  pub column_types : List Text
  pub pk_columns : List Text
  pub stale_reason : Option Text
  pub refcount : ℕ
  pub join_keys : List Text

-- `nabla.view_relations`.
pub record ViewRelation : Type 0 where
  pub view_id : ℕ
  pub relid : ℕ
  pub rti : ℕ

-- `nabla.deltas`.
pub record DeltaRow : Type 0 where
  pub view_id : ℕ
  pub seq : ℕ
  pub lsn : ℕ
  pub xid : ℕ
  pub op : ℕ
  pub row : Text

pub record Catalog : Type 0 where
  pub views : List ViewRow
  pub shadows : List ShadowRow
  pub view_relations : List ViewRelation
  pub deltas : List DeltaRow
  pub notifications : List (Text × Text)

pub record LiveView : Type 0 where
  pub id : ℕ
  pub name : Text
  pub storage : Text
  pub spec : ViewSpec
  pub frontier : ℕ
  pub last_seq : ℕ
  pub apply_failures : ℕ
  pub definition : Text
  pub touched : Bool
  pub ops : List Op
  pub failed : Option Text
  pub stale : Option Text
  pub dead : Bool
  pub failed_this_round : Bool

pub record Shadow : Type 0 where
  pub relid : ℕ
  pub table : Text
  pub frontier : ℕ
  pub failed : Bool
  pub columns : List Text
  pub column_types : List Text
  pub pk_columns : List Text
  pub advanced : Bool

pub record PendingDelta : Type 0 where
  pub seq : ℕ
  pub lsn : ℕ
  pub xid : ℕ
  pub op : ℕ
  pub row_json : Text

pub record RoundStats : Type 0 where
  pub deltas : ℕ
  pub processed : ℕ
  pub blocked_at : Option ℕ

-- A view with its entries in the vectors `pending` and `absorbed`.
pub record Tracked : Type 0 where
  pub view : LiveView
  pub pending : List PendingDelta
  pub absorbed : Option ℕ
