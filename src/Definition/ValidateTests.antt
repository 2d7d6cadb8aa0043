-- ===== src/Definition/ValidateTests.antt =====
-- An aggregate over one table that `validate` accepts, its specification, and a definition that it refuses.
use nabla.Base.{
  keep, zip, any, concat, join, decimal, decimal_loop, text_eq, ◌≡◌, refl, ℕ, [], ◌∷◌, ◌++◌, Option,
  none, some, true, false, Text, ok, err, codes, ◌==◌, if◌then◌else◌,
}
use nabla.Definition.Types.{Shape, BaseTable, ViewSpec}
use nabla.Definition.Tree.{
  Node, var, aggref, nil, cons, reference, from, none_left, item, RteKind, TargetEntry, Query,
}
use nabla.Definition.Walk.{
  refuse, reject_unsupported_clauses, entry_of, entries_from, collect_relations, push_qual,
  collect_quals, collect_vars, find_foreign_var, require_base_vars, require_immutable,
  join_key_vars,
}
use nabla.Definition.Catalog.{
  Backend, catalog_result, class_facts, relkind_refusal, refuse_relkind, has_no_key, alias_or,
  single_statement, analyze, lookup_base, check_relation_kind, load_relation, load_relations,
  rejected,
}
use nabla.Definition.Targets.{
  alias_of, targets, group_refs, is_group_key, starts_with, check_visible, visible_targets,
  predicate_of, has_items, sole_argument, argument_of, plain_aggregate, classify_aggregate,
  used_names, key_names, use_columns, use_all,
}
use nabla.Definition.Building.{
  named, call, quoted_place, no_columns, as_aggregate, where_part, group_list, group_part,
  finish_spec, add_hidden_count, add_hidden,
}
use nabla.Definition.Shapes.{
  deparse, add_key, add_sum, add_aggregate, add_group_key, add_other, add_target, add_targets,
  aggregate_view,
}
use nabla.Definition.Validate.{
  all_vars, first_relation, start_spec, start_building, flatten_targets, flatten_quals, deparser_of,
  qual_parts, build_view, from_list, describe, validate_query, validate,
}
use nabla.Definition.Listing.{IsDescribed}
use nabla.Definition.Described.{validate-IsDescribed}

-- SELECT customer, sum(amount) AS total FROM orders GROUP BY customer.
abbrev customer : TargetEntry
customer = record {
  expr = var 1 2 0;
  resname = some (codes "customer");
  ressortgroupref = 1;
  resjunk = false;
}

abbrev total : Option Text → TargetEntry
total name = record {
  expr =
      aggref
        (record {
          aggfnoid = 2108;
          aggkind = b'n';
          aggstar = false;
          has_distinct = false;
          has_order = false;
        })
        nil (cons (var 1 3 0) nil) nil;
  resname = name;
  ressortgroupref = 0;
  resjunk = false;
}

abbrev query : Option Text → Query
query name = record {
  is_select = true;
  has_set_operations = false;
  has_ctes = false;
  has_sub_links = false;
  has_window_funcs = false;
  has_target_srfs = false;
  has_distinct_on = false;
  has_distinct = false;
  has_sort = false;
  has_limit_count = false;
  has_limit_offset = false;
  has_having = false;
  has_grouping_sets = false;
  has_for_update = false;
  has_row_marks = false;
  rtable =
      record {
        is_lateral = false;
        kind = RteKind.relation;
        relid = 16;
        relkind = b'r';
        alias = some (codes "orders");
      }
      ∷ [];
  jointree = from (item (reference 1) none_left) none;
  target_list = customer ∷ total name ∷ [];
  group_clause = record { tle_sort_group_ref = 1 } ∷ [];
  has_aggs = true;
}

abbrev column : ℕ → Text
column n = if n == 2 then codes "customer" else if n == 3 then codes "amount" else codes "id"

abbrev column_of : Node → Text
column_of (var varno attno levelsup) = column attno
column_of _ = []

-- The parser reads the name of the second column.
abbrev backend : Backend (Option Text)
backend = record {
  functions = record {
    is_immutable = λ oid. true;
    func_name = λ oid. codes "sum";
    op_name = λ oid. codes "=";
    is_builtin = λ oid. true;
    contains_mutable = λ node. false;
  };
  raw_parser = λ source. ok (some source ∷ []);
  parse_analyze = λ raw source. ok (query raw);
  rel_name = λ relid. codes "orders";
  namespace_name = λ relid. codes "public";
  quote_identifier = λ name. name;
  quote_qualified_identifier = λ nspname relname. nspname ++ codes "." ++ relname;
  class_row = λ relid.
      ok (some (record { replident = codes "d"; has_children = false; is_nabla_view = false }));
  attributes = λ relid. ok (
      (codes "id", codes "integer")
      ∷ (codes "customer", codes "text")
      ∷ (codes "amount", codes "integer")
      ∷ []);
  primary_key = λ relid. ok ((1, codes "id") ∷ []);
  is_view_relid = λ relid. false;
  attname = λ relid attno. column attno;
  deparse_single = λ relid relname node. column_of node;
  deparse_rtable = λ rtable names node. column_of node;
  flatten_join_alias_vars = λ rtable node. node;
  contain_agg_clause = λ node. false;
  in_pg_catalog = λ oid. true;
}

abbrev spec : ViewSpec
spec = record {
  shape = Shape.aggregate;
  base_table = codes "public.orders";
  base_relname = codes "orders";
  predicate = none;
  columns = record { expr = codes "customer"; alias = codes "customer" } ∷ [];
  pk_columns = [];
  pk_view_columns = [];
  count_alias = some (codes "_nabla_n");
  hidden_count = true;
  counts = [];
  sums =
      record { expr = codes "amount"; alias = codes "total"; counter = codes "_nabla_nn_0" } ∷ [];
  populate_sql =
      codes "SELECT customer AS customer, sum(amount) AS total, count(amount) AS _nabla_nn_0, "
      ++ codes "count(*) AS _nabla_n FROM public.orders GROUP BY customer";
  relations =
      record {
        oid = 16;
        rti = 1;
        alias = codes "orders";
        qualified = codes "public.orders";
        pk_columns = codes "id" ∷ [];
        columns = codes "id" ∷ codes "customer" ∷ codes "amount" ∷ [];
        column_types = codes "integer" ∷ codes "text" ∷ codes "integer" ∷ [];
        used_columns = codes "customer" ∷ codes "amount" ∷ [];
        used_column_types = codes "text" ∷ codes "integer" ∷ [];
        join_keys = [];
      }
      ∷ [];
  select_list =
      codes "customer AS customer, sum(amount) AS total, count(amount) AS _nabla_nn_0, "
      ++ codes "count(*) AS _nabla_n";
  group_by = some (codes "customer");
  visible_columns = codes "customer" ∷ codes "total" ∷ [];
  hidden_columns = codes "_nabla_nn_0" ∷ codes "_nabla_n" ∷ [];
}

abbrev base : BaseTable
base = record {
  oid = 16;
  qualified = codes "public.orders";
  replident = codes "d";
  pk_columns = codes "id" ∷ [];
}

accepted : validate backend (codes "total") ≡ ok (spec, base)
unfolding keep zip any concat join decimal decimal_loop text_eq refuse reject_unsupported_clauses
    entry_of entries_from collect_relations push_qual collect_quals collect_vars find_foreign_var
    require_base_vars require_immutable join_key_vars catalog_result class_facts relkind_refusal
    refuse_relkind has_no_key alias_or single_statement analyze lookup_base check_relation_kind
    load_relation load_relations alias_of targets group_refs is_group_key starts_with check_visible
    visible_targets predicate_of has_items sole_argument argument_of plain_aggregate
    classify_aggregate used_names key_names use_columns use_all named call quoted_place no_columns
    as_aggregate where_part group_list group_part finish_spec deparse add_key add_sum add_aggregate
    add_group_key add_other add_target add_targets add_hidden_count add_hidden aggregate_view
    all_vars first_relation start_spec start_building flatten_targets flatten_quals deparser_of
    qual_parts build_view from_list describe validate_query validate
accepted = refl

-- The name of a group key is taken.
refused :
    validate backend (codes "customer")
    ≡ err (
        rejected
          (codes "output column names must be unique; add AS aliases (duplicate: \"customer\")"))
unfolding keep any concat text_eq refuse reject_unsupported_clauses entry_of entries_from
    collect_relations push_qual collect_quals collect_vars find_foreign_var require_base_vars
    require_immutable catalog_result class_facts relkind_refusal refuse_relkind has_no_key alias_or
    single_statement analyze lookup_base check_relation_kind load_relation load_relations alias_of
    targets group_refs is_group_key starts_with check_visible visible_targets predicate_of
    first_relation flatten_targets flatten_quals deparser_of qual_parts validate_query validate
    rejected
refused = refl

validate-IsDescribed_example : IsDescribed (λ name. name) spec
validate-IsDescribed_example = validate-IsDescribed backend (codes "total") spec base accepted
