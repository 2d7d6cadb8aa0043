-- ===== src/Definition/Validate.antt =====
-- `validate` of src/definition.rs: its phases one after the other.
use nabla.Base.{
  ℕ, ltb, List, [], ◌∷◌, ◌++◌, map, Option, none, Bool, true, false, not, Text, Result, ok, err,
  ◌>>=◌, codes, concat, join, length, if◌then◌else◌,
}
use nabla.Errors
use nabla.Errors.{Report}
use nabla.Definition.Types.{Shape, BaseRelation, BaseTable, ViewSpec}
use nabla.Definition.Tree.{Node, TargetEntry, RangeTblEntry, Query}
use nabla.Definition.Walk.{
  refuse, reject_unsupported_clauses, collect_relations, collect_quals, collect_vars,
  require_base_vars, require_immutable, join_key_vars,
}
use nabla.Definition.Catalog.{Backend, Loaded, analyze, load_relations, alias_or}
use nabla.Definition.Targets.{Target, targets, group_refs, visible_targets, predicate_of, use_all}
use nabla.Definition.Building.{Building, Deparser, single, for_rtable, selected_key, finish_spec}
use nabla.Definition.Shapes.{deparse, aggregate_view, add_columns, add_identities}

-- `extend` over a list of nodes.
unfoldable pub all_vars : (Node → List (ℕ × ℕ)) → List Node → List (ℕ × ℕ)
all_vars vars [] = []
all_vars vars (n ∷ ns) = vars n ++ all_vars vars ns

-- No list of relations is empty, so `expect` does not panic; the panic is a report.
unfoldable pub first_relation : List Loaded → Result Report Loaded
first_relation [] = err (Errors.raise (codes "XX000") (codes "at least one relation") none)
first_relation (l ∷ ls) = ok l

-- The specification before its columns are known.
unfoldable pub start_spec :
    Bool → Text → Text → Option Text → List BaseRelation → List Target → ViewSpec
start_spec has_aggs base_table base_relname predicate relations visible = record {
  shape = if has_aggs then Shape.aggregate else Shape.projection;
  base_table = base_table;
  base_relname = base_relname;
  predicate = predicate;
  columns = [];
  pk_columns = [];
  pk_view_columns = [];
  count_alias = none;
  hidden_count = false;
  counts = [];
  sums = [];
  populate_sql = [];
  relations = relations;
  select_list = [];
  group_by = none;
  visible_columns = map (λ (t : Target). t.alias) visible;
  hidden_columns = [];
}

unfoldable pub start_building : ViewSpec → Building
start_building spec = record {
  spec = spec;
  populate_targets = [];
  hidden_targets = [];
  group_exprs = [];
  agg_index = 0;
}

module _ {Raw : Type 0} (backend : Backend Raw) where
  open backend use {functions, rel_name, quote_identifier, flatten_join_alias_vars}

  -- The targets and the quals of a join speak of base columns afterwards.
  unfoldable pub flatten_targets : Bool → Query → List TargetEntry
  flatten_targets is_join q =
      if is_join
      then map
          (λ (tle : TargetEntry). record tle { expr = flatten_join_alias_vars q.rtable tle.expr })
          q.target_list
      else q.target_list

  unfoldable pub flatten_quals : Bool → Query → List Node → List Node
  flatten_quals is_join q quals =
      if is_join then map (flatten_join_alias_vars q.rtable) quals else quals

  unfoldable pub deparser_of : Bool → Query → ℕ → Text → Deparser
  deparser_of is_join q oid relname =
      if is_join
      then for_rtable q.rtable (map (λ (r : RangeTblEntry). alias_or (codes "t") r.alias) q.rtable)
      else single oid relname

  unfoldable pub qual_parts : Deparser → Text → List ℕ → List Node → Result Report (List Text)
  qual_parts deparser place allowed [] = ok []
  qual_parts deparser place allowed (q ∷ quals) = require_immutable functions q place >>= λ _.
      require_base_vars allowed q >>= λ _.
      qual_parts deparser place allowed quals >>= λ parts. ok (deparse backend deparser q ∷ parts)

  unfoldable pub projection_view :
      Deparser
      → Bool
      → Bool
      → List BaseRelation
      → Loaded
      → List Target
      → Building
      → Result Report Building
  projection_view deparser is_join has_group relations first visible b =
      refuse has_group (codes "GROUP BY without an aggregate is not supported") >>= λ _.
      add_columns backend deparser visible b >>= λ b1.
      if is_join
      then ok (add_identities backend deparser relations b1)
      else selected_key first.rt_index first.base first.pk_attnums visible b1

  -- The two shapes.
  unfoldable pub build_view :
      Deparser
      → Bool
      → Bool
      → List ℕ
      → List BaseRelation
      → Loaded
      → List Target
      → Building
      → Result Report Building
  build_view deparser is_join has_aggs refs relations first visible b =
      let has_group : Bool = elim refs [ [] ↦ false | r ∷ rs ↦ true ] in
      if has_aggs
      then (refuse (not has_group) (codes "aggregates require a GROUP BY clause") >>= λ _.
          aggregate_view backend deparser refs visible b)
      else projection_view deparser is_join has_group relations first visible b

  unfoldable pub from_list : Bool → List BaseRelation → BaseTable → Text
  from_list is_join relations base =
      if is_join
      then join (codes ", ") (
          map
            (λ (r : BaseRelation).
              concat (r.qualified ∷ codes " AS " ∷ quote_identifier r.alias ∷ []))
            relations)
      else base.qualified

  -- From the visible targets on.
  unfoldable pub describe :
      Query
      → Deparser
      → Bool
      → List Loaded
      → Loaded
      → List Node
      → Option Text
      → List Target
      → Result Report ViewSpec
  describe q deparser is_join loaded first quals predicate visible =
      let var_refs =
        all_vars collect_vars quals
        ++ all_vars collect_vars (map (λ (t : Target). t.node) visible) in
      use_all backend is_join var_refs (all_vars (join_key_vars functions) quals) loaded
      >>= λ relations.
          let spec =
            start_spec q.has_aggs first.base.qualified (rel_name first.base.oid) predicate relations
              visible in
          build_view deparser is_join q.has_aggs (group_refs q) relations first visible
            (start_building spec)
          >>= λ b. ok (finish_spec (from_list is_join relations first.base) b)

  unfoldable pub validate_query : Query → Result Report (ViewSpec × BaseTable)
  validate_query q = reject_unsupported_clauses q >>= λ _. collect_relations q >>= λ entries.
      let is_join = ltb 1 (length entries) in
      load_relations backend is_join 0 [] entries >>= λ loaded. first_relation loaded >>= λ first.
      let allowed = map (λ (e : ℕ × RangeTblEntry). e.0) entries in
      collect_quals q.jointree [] >>= λ raw_quals.
      let quals = flatten_quals is_join q raw_quals in
      let deparser = deparser_of is_join q first.base.oid (rel_name first.base.oid) in
      let place = if is_join then codes "the WHERE or ON clause" else codes "the WHERE clause" in
      qual_parts deparser place allowed quals >>= λ parts.
      visible_targets allowed (group_refs q) (targets (flatten_targets is_join q)) >>= λ visible.
      describe q deparser is_join loaded first quals (predicate_of parts) visible >>= λ spec.
      ok (spec, first.base)

  unfoldable pub validate : Text → Result Report (ViewSpec × BaseTable)
  validate definition = analyze backend definition >>= validate_query
