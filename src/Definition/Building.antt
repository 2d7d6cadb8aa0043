-- ===== src/Definition/Building.antt =====
-- The variables of `validate` (src/definition.rs) while it builds a specification, the end of it, and the key of a table.
use nabla.Base.{
  ℕ, List, [], ◌∷◌, ◌++◌, zip, Option, none, some, Bool, true, false, not, Text, Result, ok, ◌>>=◌,
  codes, concat, join, if◌then◌else◌,
}
use nabla.Errors.{Report}
use nabla.Definition.Types.{OutputColumn, BaseTable, ViewSpec, hidden_count_column}
use nabla.Definition.Tree.{Aggregate, Node, Nodes, aggref, RangeTblEntry}
use nabla.Definition.Walk.{refuse}
use nabla.Definition.Catalog.{has_no_key}
use nabla.Definition.Targets.{Target, is_plain_var}

-- The variables of `validate` while it goes through the targets.
pub record Building : Type 0 where
  pub spec : ViewSpec
  pub populate_targets : List Text
  pub hidden_targets : List Text
  pub group_exprs : List Text
  pub agg_index : ℕ

unfoldable pub named : Text → Text → Text
named expr name = concat (expr ∷ codes " AS " ∷ name ∷ [])

unfoldable pub call : Text → Text → Text
call function expr = concat (function ∷ codes "(" ∷ expr ∷ codes ")" ∷ [])

unfoldable pub quoted_place : Text → Text → Text
quoted_place what alias = concat (what ∷ codes " \"" ∷ alias ∷ codes "\"" ∷ [])

abbrev pub push : {A : Type 0} → List A → A → List A
push xs x = xs ++ x ∷ []

unfoldable pub no_columns : List OutputColumn → Bool
no_columns [] = true
no_columns (c ∷ cs) = false

-- `tag(t.node) == Some(T_Aggref)`.
unfoldable pub as_aggregate : Node → Option (Aggregate × Nodes × Nodes × Nodes)
as_aggregate (aggref agg direct args filter) = some (agg, direct, args, filter)
as_aggregate _ = none

-- The two contexts that PostgreSQL's deparser is bound to.
pub data Deparser : Type 0 where
  single : ℕ → Text → Deparser
  for_rtable : List RangeTblEntry → List Text → Deparser

-- `SELECT`, `FROM`, `WHERE` and `GROUP BY`.
unfoldable pub where_part : Option Text → Text
where_part none = []
where_part (some p) = codes " WHERE " ++ p

unfoldable pub group_list : List Text → Option Text
group_list [] = none
group_list (e ∷ exprs) = some (join (codes ", ") (e ∷ exprs))

unfoldable pub group_part : Option Text → Text
group_part none = []
group_part (some exprs) = codes " GROUP BY " ++ exprs

unfoldable pub finish_spec : Text → Building → ViewSpec
finish_spec from_list b =
    let select_list = join (codes ", ") b.populate_targets in
    let group_by = group_list b.group_exprs in
    record b.spec {
      select_list = select_list;
      group_by = group_by;
      populate_sql = concat (
          codes "SELECT "
          ∷ select_list
          ∷ codes " FROM "
          ∷ from_list
          ∷ where_part b.spec.predicate
          ∷ group_part group_by
          ∷ []);
    }

unfoldable pub add_hidden_count : Option Text → Building → Building
add_hidden_count (some alias) b = b
add_hidden_count none b = record b {
  populate_targets = push b.populate_targets (named (codes "count(*)") hidden_count_column);
  spec = record b.spec {
    count_alias = some hidden_count_column;
    hidden_columns = push b.spec.hidden_columns hidden_count_column;
    hidden_count = true;
  };
}

-- The hidden columns stand after the user's, the group count last.
unfoldable pub add_hidden : Building → Building
add_hidden b =
    add_hidden_count b.spec.count_alias
      (record b { populate_targets = b.populate_targets ++ b.hidden_targets })

-- `visible.iter().find(...)`.
unfoldable pub find_plain : ℕ → ℕ → List Target → Option Text
find_plain varno attnum [] = none
find_plain varno attnum (t ∷ ts) =
    let rest = find_plain varno attnum ts in
    if is_plain_var t.node varno attnum then some t.alias else rest

unfoldable pub note_key : Option Text → Text → List Text × List Text → List Text × List Text
note_key (some alias) name (found, missing) = (push found alias, missing)
note_key none name (found, missing) = (found, push missing name)

-- The selected columns of the key, and the missing ones.
unfoldable pub find_keys :
    ℕ → List Target → List (ℕ × Text) → List Text × List Text → List Text × List Text
find_keys varno visible [] acc = acc
find_keys varno visible (k ∷ key) acc =
    find_keys varno visible key (note_key (find_plain varno k.0 visible) k.1 acc)

unfoldable pub require_key : BaseTable → List ℕ → Result Report (Unit {0})
require_key base pk_attnums = refuse (has_no_key pk_attnums) (
    base.qualified
    ++ codes " has no primary key; a projection view needs one to locate deleted rows")

unfoldable pub require_complete : BaseTable → List Text → Result Report (Unit {0})
require_complete base missing =
    let complete : Bool = elim missing [ [] ↦ true | m ∷ ms ↦ false ] in
    refuse (not complete) (
      concat (
        codes "the select list must include the primary key column(s) of "
        ∷ base.qualified
        ∷ codes " as plain columns: missing "
        ∷ join (codes ", ") missing
        ∷ []))

unfoldable pub with_key : BaseTable → List Text → Building → Building
with_key base found b = record b {
  spec = record b.spec { pk_view_columns = found; pk_columns = base.pk_columns };
}

-- The row identity of a single table.
unfoldable pub selected_key :
    ℕ → BaseTable → List ℕ → List Target → Building → Result Report Building
selected_key varno base pk_attnums visible b =
    let r = find_keys varno visible (zip pk_attnums base.pk_columns) (b.spec.pk_view_columns, []) in
    require_key base pk_attnums >>= λ _. require_complete base r.1 >>= λ _. ok (with_key base r.0 b)
