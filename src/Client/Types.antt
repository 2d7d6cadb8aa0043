-- ===== src/Client/Types.antt =====
-- The data types of clients/rust/nabla-client/src/lib.rs. `V` is the type of JSON values.
use nabla.Base.{ℕ, List, Option, Bool, Text}
use nabla.Base.Int.{ℤ}

pub data Op : Type 0 where
  insert : Op
  delete : Op

pub record Delta (V : Type 0) : Type 0 where
  pub seq : ℕ
  pub op : Op
  pub row : V

pub data ResyncReason : Type 0 where
  lagged : ResyncReason
  epoch_changed : ℤ → ℤ → ResyncReason
  stale : Text → ResyncReason
  disconnected : ResyncReason

-- A snapshot with its epoch, frontier, cursor and rows; a transaction with its source id, position,
-- epoch and deltas; or a resync.
pub data Event (V : Type 0) : Type 0 where
  snapshot : ℤ → Text → ℕ → List V → Event V
  transaction : Option ℕ → Text → ℤ → List (Delta V) → Event V
  resync : ResyncReason → Event V

-- A row of `nabla.changes`, and one whose operation is known.
pub record ServerRow (V : Type 0) : Type 0 where
  pub seq : ℕ
  pub lsn : Text
  pub xid : Option ℕ
  pub op : Text
  pub row : V

pub record ChangeRow (V : Type 0) : Type 0 where
  pub seq : ℕ
  pub lsn : Text
  pub xid : Option ℕ
  pub op : Op
  pub row : V

pub data State : Type 0 where
  need_bootstrap : State
  following : State

pub data Error : Type 0 where
  postgres : Text → Error
  unexpected_seq : ℕ → ℕ → Error
  unknown_op : Text → Error
  not_connected : Error
  view_failed : Text → Error

pub data Failure : Type 0 where
  lagged : Failure
  stale : Text → Failure
  epoch_changed : ℤ → ℤ → Failure
  disconnected : Failure
  other : Error → Failure

pub data Boot : Type 0 where
  ready : Boot
  building : Boot
  stale : Text → Boot
  failed : Text → Boot

-- The fields of `Subscription` that following a view changes; the configuration, the options and the waiting time
-- stay as they are. The connection is there or not.
pub record Subscription (V : Type 0) : Type 0 where
  pub connected : Bool
  pub state : State
  pub epoch : ℤ
  pub cursor : ℕ
  pub pending : List (Event V × Option ℕ)
  pub tail : List (ChangeRow V)
