-- ===== src/Definition/Described.antt =====
-- `validate` of src/definition.rs: the specification of an accepted definition fits the table of the view.
use nabla.Base.{
  map, ℕ, ◌≡◌, refl, sym, subst, List, [], ◌++◌, All, Option, Bool, true, false, ltb, length, Text,
  ok, ◌>>=◌, Holds, Holds-then, Holds-bind, Holds-map, Holds-ok, if◌then◌else◌,
}
use nabla.Definition.Types.{Shape, BaseRelation, BaseTable, ViewSpec}
use nabla.Definition.Tree.{Node, Query}
use nabla.Definition.Walk.{
  collect_vars, join_key_vars, refuse, reject_unsupported_clauses, collect_relations, collect_quals,
}
use nabla.Definition.Catalog.{Backend, Loaded, analyze, load_relations}
use nabla.Definition.Targets.{Target, group_refs, visible_targets, predicate_of, use_all}
use nabla.Definition.Building.{Building, Deparser, selected_key, finish_spec}
use nabla.Definition.Shapes.{add_columns, add_identities}
use nabla.Definition.Validate.{
  all_vars, first_relation, start_spec, start_building, qual_parts, projection_view, build_view,
  from_list, describe, validate_query, validate,
}
use nabla.Definition.Listing.{
  IsUsed, Lists, HasColumns, HasCount, IsDescribed, IsReserved, AreDistinct, AreFresh-AreDistinct,
  All-own,
}
use nabla.Definition.Used.{IsTyped, use_all-AreUsed, keys-AreAmong}
use nabla.Definition.Loading.{load_relations-AreTyped}
use nabla.Definition.Growing.{Grows, aliases}
use nabla.Definition.Stands.{Stands, Whole, aggregate_view-Whole}
use nabla.Definition.Projecting.{add_columns-Stands, add_identities-Stands, selected_key-Stands}
use nabla.Definition.VisibleNames.{AreNames, visible_targets-AreNames}

abbrev shape_of : Bool → Shape
shape_of has_aggs = if has_aggs then Shape.aggregate else Shape.projection

module _ {Raw : Type 0} (backend : Backend Raw) where
  abbrev quote : Text → Text
  quote = backend.quote_identifier

  abbrev Fits : List BaseRelation → Bool → List Target → Building → Type 0
  Fits relations has_aggs ts = Whole quote (aliases ts) (shape_of has_aggs) relations

  projected :
      (relations : List BaseRelation) (ts : List Target) (b : Building)
      → Stands quote (aliases ts) Shape.projection relations b
      → Fits relations false ts b
  projected relations ts b s = (s, subst (λ sh. HasCount sh b.spec.count_alias) (sym s.shaped) tt)

  projection_view-Fits :
      (deparser : Deparser) (is_join has_group : Bool) (relations : List BaseRelation)
      (first : Loaded) (ts : List Target) (b : Building)
      → Grows quote (aliases ts) Shape.projection relations [] b
      → b.spec.hidden_columns ≡ []
      → Holds
          (Fits relations false ts)
          (projection_view backend deparser is_join has_group relations first ts b)
  unfolding projection_view
  projection_view-Fits deparser is_join has_group relations first ts b g e =
      let own = All-own ts in
      Holds-then (Fits relations false ts) (refuse has_group _) _ (λ _.
        Holds-bind (Stands quote (aliases ts) Shape.projection relations) (Fits relations false ts)
          (add_columns backend deparser ts b) _
          (add_columns-Stands backend deparser (aliases ts) Shape.projection relations ts b refl own
            (g, e))
          (λ b1 s.
            elim is_join
              as (λ j. Holds (Fits relations false ts) (
                if j
                then ok (add_identities backend deparser relations b1)
                else selected_key first.rt_index first.base first.pk_attnums ts b1)) [
                  | true ↦ projected relations ts _ (
                      add_identities-Stands backend deparser (aliases ts) Shape.projection relations
                        relations b1 s)
                  | false ↦ Holds-map _ (Fits relations false ts) _ (projected relations ts) (
                      selected_key-Stands backend deparser (aliases ts) Shape.projection relations
                        first.rt_index first.base first.pk_attnums ts b1 own s)
                ]))

  build_view-Fits :
      (deparser : Deparser) (is_join has_aggs : Bool) (refs : List ℕ)
      (relations : List BaseRelation) (first : Loaded) (ts : List Target) (b : Building)
      → Grows quote (aliases ts) (shape_of has_aggs) relations [] b
      → b.spec.hidden_columns ≡ []
      → Holds
          (Fits relations has_aggs ts)
          (build_view backend deparser is_join has_aggs refs relations first ts b)
  unfolding build_view
  build_view-Fits deparser is_join true refs relations first ts b g e =
      Holds-then (Fits relations true ts) (refuse _ _) _ (λ _.
        aggregate_view-Whole backend deparser (aliases ts) Shape.aggregate relations refs ts b refl
          (All-own ts) g)
  build_view-Fits deparser is_join false refs relations first ts b g e =
      projection_view-Fits deparser is_join _ relations first ts b g e

  start_building-Grows :
      (has_aggs : Bool) (table relname : Text) (predicate : Option Text)
      (relations : List BaseRelation) (ts : List Target)
      → Grows quote
          (aliases ts)
          (shape_of has_aggs)
          relations
          []
          (start_building (start_spec has_aggs table relname predicate relations ts))
  unfolding start_building start_spec
  start_building-Grows has_aggs table relname predicate relations ts = record {
    listed = tt;
    hidden_listed = tt;
    kept = refl;
    shaped = refl;
    related = refl;
    maintained = record {
      of_columns = tt;
      of_counts = tt;
      of_sums = tt;
      of_identity = tt;
      of_count = tt;
      of_hidden = tt;
    };
  }

  finish_spec-IsDescribed :
      (from : Text) (relations : List BaseRelation) (has_aggs : Bool) (ts : List Target)
      (b : Building)
      → AreNames [] (aliases ts)
      → All IsUsed relations
      → Fits relations has_aggs ts b
      → IsDescribed quote (finish_spec from b)
  unfolding finish_spec
  finish_spec-IsDescribed from relations has_aggs ts b names used (s, counted) =
      let same = sym s.kept in
      let m = subst (λ v. HasColumns v b.spec.hidden_columns b.spec) same s.maintained in
      record {
        distinct = subst AreDistinct same (AreFresh-AreDistinct [] (aliases ts) names.0);
        unreserved = subst (λ v. All (λ a. ¬ IsReserved a) v) same names.1;
        listed = (
          b.populate_targets,
          refl,
          subst (λ v. Lists quote b.populate_targets (v ++ b.spec.hidden_columns)) same s.listed,
        );
        maintained = record {
          of_columns = m.of_columns;
          of_counts = m.of_counts;
          of_sums = m.of_sums;
          of_identity = m.of_identity;
          of_count = m.of_count;
          of_hidden = m.of_hidden;
        };
        counted = counted;
        all_used = subst (All IsUsed) (sym s.related) used;
      }

  describe-IsDescribed :
      (q : Query) (deparser : Deparser) (is_join : Bool) (loaded : List Loaded) (first : Loaded)
      (quals : List Node) (predicate : Option Text) (ts : List Target)
      → AreNames [] (aliases ts)
      → All IsTyped loaded
      → Holds
          (IsDescribed quote)
          (describe backend q deparser is_join loaded first quals predicate ts)
  unfolding describe start_building start_spec
  describe-IsDescribed q deparser is_join loaded first quals predicate ts names typed =
      let functions = backend.functions in
      let nodes = map (λ (t : Target). t.node) ts in
      let vars = all_vars collect_vars quals ++ all_vars collect_vars nodes in
      let keys = all_vars (join_key_vars functions) quals in
      Holds-bind (All IsUsed) (IsDescribed quote) (use_all backend is_join vars keys loaded) _
        (use_all-AreUsed backend is_join vars keys loaded typed
          (keys-AreAmong functions quals nodes))
        (λ relations used.
          let base = first.base in
          let spec =
            start_spec q.has_aggs base.qualified (backend.rel_name base.oid) predicate relations
              ts in
          Holds-bind (Fits relations q.has_aggs ts) (IsDescribed quote)
            (build_view backend deparser is_join q.has_aggs (group_refs q) relations first ts
              (start_building spec))
            (λ b. ok (finish_spec (from_list backend is_join relations base) b))
            (build_view-Fits deparser is_join q.has_aggs (group_refs q) relations first ts
              (start_building spec)
              (start_building-Grows q.has_aggs base.qualified (backend.rel_name base.oid) predicate
                relations ts)
              refl)
            (λ b fits. finish_spec-IsDescribed _ relations q.has_aggs ts b names used fits))

  abbrev Sound : ViewSpec × BaseTable → Type 0
  Sound r = IsDescribed quote r.0

  -- The last two phases.
  described :
      (q : Query) (deparser : Deparser) (is_join : Bool) (loaded : List Loaded) (first : Loaded)
      (quals : List Node) (predicate : Option Text) (allowed : List ℕ) (all_targets : List Target)
      → All IsTyped loaded
      → Holds Sound (
          visible_targets allowed (group_refs q) all_targets >>= λ visible.
          describe backend q deparser is_join loaded first quals predicate visible >>= λ spec.
          ok (spec, first.base))
  described q deparser is_join loaded first quals predicate allowed all_targets typed =
      Holds-bind (λ ts. AreNames [] (aliases ts)) Sound
        (visible_targets allowed (group_refs q) all_targets) _
        (visible_targets-AreNames allowed (group_refs q) all_targets)
        (λ ts names.
          Holds-bind (IsDescribed quote) Sound
            (describe backend q deparser is_join loaded first quals predicate ts)
            (λ spec. ok (spec, first.base))
            (describe-IsDescribed q deparser is_join loaded first quals predicate ts names typed)
            (λ spec d. d))

  validate_query-Sound : (q : Query) → Holds Sound (validate_query backend q)
  unfolding validate_query
  validate_query-Sound q = Holds-then Sound (reject_unsupported_clauses q) _ (λ _.
      Holds-then Sound (collect_relations q) _ (λ entries.
        let is_join = ltb 1 (length entries) in
        Holds-bind (All IsTyped) Sound (load_relations backend is_join 0 [] entries) _
          (load_relations-AreTyped backend is_join 0 [] entries)
          (λ loaded typed. Holds-then Sound (first_relation loaded) _ (λ first.
            Holds-then Sound (collect_quals q.jointree []) _ (λ raw_quals.
              Holds-then Sound (qual_parts backend _ _ _ _) _
                (λ parts. described q _ _ loaded first _ (predicate_of parts) _ _ typed))))))

  -- If `validate` accepts a definition, then in its specification: the visible columns have distinct names that do
  -- not start with `_nabla_`; the select list of the populate query gives the visible columns and then the hidden ones,
  -- whose names start with `_nabla_`, in order; every column of the keys, counts, sums with their counters, the row
  -- identity and the group count is one of these; an aggregate view has a group count; and in each relation each
  -- used column stands with the type that the relation has for it, and the join keys are among the used columns.
  pub validate-IsDescribed :
      (definition : Text) (spec : ViewSpec) (base : BaseTable)
      → validate backend definition ≡ ok (spec, base)
      → IsDescribed quote spec
  unfolding validate
  validate-IsDescribed definition spec base e =
      Holds-ok Sound (spec, base)
        (Holds-then Sound (analyze backend definition) (validate_query backend)
          validate_query-Sound)
        e
