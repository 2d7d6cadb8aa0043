-- ===== src/Worker/Sample.antt =====
-- A small database, a view and a transaction for the tests.
use nabla.Base.{ℕ, suc, [], ◌∷◌, Option, none, some, true, false, ok, codes}
use nabla.Base.Int.{negsuc}
use nabla.Definition.Types.{BaseRelation, ViewSpec, projection}
use nabla.Pgoutput.Types.{Relation, text, Change, SourceTransaction}
use nabla.Apply.Sql.{Spi}
use nabla.Apply.Sample.{numbers}
use nabla.Worker.Types.{Host, Settings, Status, ViewRow, Catalog}

-- Every statement returns one row, and the tables count the statements.
abbrev pub counter : Spi
counter = record {
  Tables = ℕ;
  quote_identifier = λ t. t;
  query = λ sql args tables. ok ((some (7 ∷ []) ∷ []) ∷ [], suc tables);
}

abbrev pub host : Host
host = record {
  spi = counter;
  json = numbers;
  format_type = λ typid typmod. some (codes "int4");
  to_lowercase = λ t. t;
}

abbrev pub settings : Settings
settings = record { max_apply_failures = 2; retain_deltas = 100; batch_changes = 10 }

abbrev pub orders : Relation
orders = record {
  id = 16;
  namespace = codes "public";
  name = codes "orders";
  replident = b'd';
  columns =
      record {
        name = codes "id";
        is_key = true;
        typid = 23;
        typmod = negsuc 0;
        type_name = some (codes "int4");
      }
      ∷ [];
}

abbrev pub relations : ℕ → Option Relation
relations id = some orders

abbrev pub orders_base : BaseRelation
orders_base = record {
  oid = 16;
  rti = 1;
  alias = codes "orders";
  qualified = codes "public.orders";
  pk_columns = codes "id" ∷ [];
  columns = codes "id" ∷ [];
  column_types = codes "int4" ∷ [];
  used_columns = codes "id" ∷ [];
  used_column_types = codes "int4" ∷ [];
  join_keys = [];
}

abbrev pub orders_spec : ViewSpec
orders_spec = record {
  shape = projection;
  base_table = codes "public.orders";
  base_relname = codes "orders";
  predicate = none;
  columns = record { expr = codes "id"; alias = 0 ∷ [] } ∷ [];
  pk_columns = codes "id" ∷ [];
  pk_view_columns = (0 ∷ []) ∷ [];
  count_alias = none;
  hidden_count = false;
  counts = [];
  sums = [];
  populate_sql = [];
  relations = orders_base ∷ [];
  select_list = codes "id";
  group_by = none;
  visible_columns = codes "id" ∷ [];
  hidden_columns = [];
}

abbrev pub view_row : ℕ → ViewRow
view_row frontier = record {
  id = 1;
  name = codes "orders_view";
  spec = some orders_spec;
  status = Status.live;
  frontier_lsn = frontier;
  last_seq = 4;
  apply_failures = 0;
  definition = codes "SELECT id FROM orders";
  stale_reason = none;
  last_error = none;
  relid = some 100;
  epoch = 1;
  populated = true;
}

abbrev pub catalog : ℕ → Catalog
catalog frontier = record {
  views = view_row frontier ∷ [];
  shadows = [];
  view_relations = record { view_id = 1; relid = 16; rti = 1 } ∷ [];
  deltas = [];
  notifications = [];
}

abbrev pub inserted : ℕ → SourceTransaction
inserted end_lsn = record {
  xid = 700;
  commit_lsn = 40;
  end_lsn = end_lsn;
  changes = Change.insert 16 (text (codes "7") ∷ []) ∷ [];
}

abbrev pub emptied : ℕ → SourceTransaction
emptied end_lsn = record {
  xid = 701;
  commit_lsn = 60;
  end_lsn = end_lsn;
  changes = Change.truncate (16 ∷ []) ∷ [];
}
