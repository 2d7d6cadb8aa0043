-- ===== src/Shadow/Tests.antt =====
-- Runs of src/shadow.rs, and the theorem at a concrete input.
use nabla.Base.{◌≡◌, inr, refl, [], ◌∷◌, none, some, false, Text, Result, ok, err, codes, text_eq}
use nabla.Base.Sets.{member, extend}
use nabla.Worker.Types.{ShadowRow}
use nabla.Worker.Sample.{counter, orders_base, orders_spec}
use nabla.Shadow.Server.{Server, State, run, physical_columns}
use nabla.Shadow.Columns.{find_type}
use nabla.Shadow.Tables
use nabla.Shadow.Creating
use nabla.Shadow.Ensuring.{AreProvided, ensure-AreProvided}

-- The base table has one column more than its shadow.
abbrev server : Server
server = record {
  spi = counter;
  columns_of = λ tables oid. (codes "id", codes "int4") ∷ (codes "total", codes "int8") ∷ [];
  oid_of = λ tables name. some 900;
  record_dependency = λ dependent referenced tables. tables;
  validate = λ tables definition. ok orders_spec;
}

abbrev shadow : ShadowRow
shadow = record {
  relid = 16;
  table_name = codes "nabla_shadow.t16";
  frontier_lsn = 40;
  failed = false;
  columns = codes "id" ∷ [];
  column_types = codes "int4" ∷ [];
  pk_columns = codes "id" ∷ [];
  stale_reason = none;
  refcount = 1;
  join_keys = [];
}

abbrev state : State server
state = record {
  catalog = record {
    views = [];
    shadows = shadow ∷ [];
    view_relations = [];
    deltas = [];
    notifications = [];
  };
  tables = 0;
}

abbrev result : Result Text (State server)
result = Creating.ensure server orders_base 90 (codes "total" ∷ []) [] state

abbrev ensured : State server
ensured = elim result [ ok st ↦ st | err e ↦ state ]

ensures : Creating.ensure server orders_base 90 (codes "total" ∷ []) [] state ≡ ok ensured
unfolding Creating.ensure Tables.existing Tables.extend Tables.internal_write run
    Tables.extend_columns member text_eq Tables.provide_column find_type physical_columns
    Tables.backfill Tables.index_join_keys Tables.index_keys Tables.all_keys extend
ensures = refl

ensure-AreProvided_example :
    AreProvided server orders_base (codes "total" ∷ []) (server.columns_of 0 16) ensured.catalog
ensure-AreProvided_example =
    ensure-AreProvided server orders_base 90 (codes "total" ∷ []) [] state ensured (inr refl, tt)
      ensures
