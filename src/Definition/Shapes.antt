-- ===== src/Definition/Shapes.antt =====
-- The two shapes in `validate` of src/definition.rs: the loops over the targets and the relations.
use nabla.Base.{
  ℕ, suc, List, [], ◌∷◌, ◌++◌, Option, none, some, Text, Result, ok, err, ◌>>=◌, codes, concat,
  decimal, if◌then◌else◌,
}
use nabla.Errors.{Report}
use nabla.Definition.Types.{BaseRelation, hidden_sum_counter_prefix, hidden_pk_prefix}
use nabla.Definition.Tree.{Aggregate, Node, Nodes}
use nabla.Definition.Walk.{refuse, require_immutable}
use nabla.Definition.Catalog.{Backend, rejected}
use nabla.Definition.Targets.{Target, is_group_key, AggKind, classify_aggregate}
use nabla.Definition.Building.{
  Deparser, single, for_rtable, Building, named, call, quoted_place, push, no_columns, as_aggregate,
  add_hidden,
}

module _ {Raw : Type 0} (backend : Backend Raw) (deparser : Deparser) where
  open backend use {functions, quote_identifier, deparse_single, deparse_rtable, contain_agg_clause}

  unfoldable pub deparse : Node → Text
  deparse node = elim deparser [
    | single relid relname ↦ deparse_single relid relname node
    | for_rtable rtable names ↦ deparse_rtable rtable names node
  ]

  unfoldable pub add_key : Target → Building → Building
  add_key t b =
      let expr = deparse t.node in
      record b {
        populate_targets = push b.populate_targets (named expr (quote_identifier t.alias));
        group_exprs = push b.group_exprs expr;
        spec = record b.spec {
          columns = push b.spec.columns (record { expr = expr; alias = t.alias });
        };
      }

  unfoldable pub add_count : Target → Building → Building
  add_count t b = record b {
    agg_index = suc b.agg_index;
    populate_targets =
        push b.populate_targets (named (codes "count(*)") (quote_identifier t.alias));
    spec = record b.spec { count_alias = some t.alias };
  }

  unfoldable pub add_count_expr : Target → Node → Building → Building
  add_count_expr t arg b =
      let expr = deparse arg in
      record b {
        agg_index = suc b.agg_index;
        populate_targets =
            push b.populate_targets (named (call (codes "count") expr) (quote_identifier t.alias));
        spec = record b.spec {
          counts = push b.spec.counts (record { expr = expr; alias = t.alias });
        };
      }

  unfoldable pub add_sum : Target → Node → Building → Building
  add_sum t arg b =
      let expr = deparse arg in
      let counter = hidden_sum_counter_prefix ++ decimal b.agg_index in
      record b {
        agg_index = suc b.agg_index;
        populate_targets =
            push b.populate_targets (named (call (codes "sum") expr) (quote_identifier t.alias));
        hidden_targets = push b.hidden_targets (named (call (codes "count") expr) counter);
        spec = record b.spec {
          hidden_columns = push b.spec.hidden_columns counter;
          sums = push b.spec.sums (record { expr = expr; alias = t.alias; counter = counter });
        };
      }

  unfoldable pub add_only_count : Option Text → Target → Building → Result Report Building
  add_only_count (some alias) t b = err (rejected (codes "count(*) may appear only once"))
  add_only_count none t b = ok (add_count t b)

  unfoldable pub add_aggregate : Target → AggKind → Building → Result Report Building
  add_aggregate t AggKind.count b = add_only_count b.spec.count_alias t b
  add_aggregate t (AggKind.count_expr arg) b = ok (add_count_expr t arg b)
  add_aggregate t (AggKind.sum arg) b = ok (add_sum t arg b)

  unfoldable pub not_accepted : Target → Report
  not_accepted t =
      if contain_agg_clause t.node
      then rejected (
          quoted_place (codes "column") t.alias
          ++ codes
              " is an expression over an aggregate; alias the aggregate and compute outside the view")
      else rejected (
          quoted_place (codes "column") t.alias
          ++ codes " is neither a GROUP BY key nor an accepted aggregate")

  unfoldable pub add_group_key : Target → Building → Result Report Building
  add_group_key t b =
      require_immutable functions t.node (quoted_place (codes "the GROUP BY key") t.alias) >>= λ _.
      ok (add_key t b)

  unfoldable pub add_other :
      Option (Aggregate × Nodes × Nodes × Nodes) → Target → Building → Result Report Building
  add_other none t b = err (not_accepted t)
  add_other (some (agg, direct, args, filter)) t b =
      classify_aggregate backend agg direct args filter t.alias >>= λ kind. add_aggregate t kind b

  -- A target of an aggregate view.
  unfoldable pub add_target : List ℕ → Target → Building → Result Report Building
  add_target refs t b =
      if is_group_key refs t then add_group_key t b else add_other (as_aggregate t.node) t b

  unfoldable pub add_targets : List ℕ → List Target → Building → Result Report Building
  add_targets refs [] b = ok b
  add_targets refs (t ∷ ts) b = add_target refs t b >>= add_targets refs ts

  unfoldable pub aggregate_view : List ℕ → List Target → Building → Result Report Building
  aggregate_view refs visible b = add_targets refs visible b >>= λ b1.
      refuse (no_columns b1.spec.columns) (codes "at least one GROUP BY key must be selected")
      >>= λ _. ok (add_hidden b1)

  unfoldable pub add_column : Target → Building → Building
  add_column t b =
      let expr = deparse t.node in
      record b {
        populate_targets = push b.populate_targets (named expr (quote_identifier t.alias));
        spec = record b.spec {
          columns = push b.spec.columns (record { expr = expr; alias = t.alias });
        };
      }

  unfoldable pub add_columns : List Target → Building → Result Report Building
  add_columns [] b = ok b
  add_columns (t ∷ ts) b =
      require_immutable functions t.node (quoted_place (codes "column") t.alias) >>= λ _.
      add_columns ts (add_column t b)

  -- The identity of a join row: a hidden column for each column of a primary key.
  unfoldable pub add_pk_column : BaseRelation → Text → Building → Building
  add_pk_column rel col b =
      let hidden = concat (hidden_pk_prefix ∷ decimal rel.rti ∷ codes "_" ∷ col ∷ []) in
      let column = concat (quote_identifier rel.alias ∷ codes "." ∷ quote_identifier col ∷ []) in
      record b {
        populate_targets = push b.populate_targets (named column (quote_identifier hidden));
        spec = record b.spec {
          hidden_columns = push b.spec.hidden_columns hidden;
          pk_view_columns = push b.spec.pk_view_columns hidden;
        };
      }

  unfoldable pub add_pk_columns : BaseRelation → List Text → Building → Building
  add_pk_columns rel [] b = b
  add_pk_columns rel (col ∷ cols) b = add_pk_columns rel cols (add_pk_column rel col b)

  unfoldable pub add_identities : List BaseRelation → Building → Building
  add_identities [] b = b
  add_identities (rel ∷ rels) b = add_identities rels (add_pk_columns rel rel.pk_columns b)
