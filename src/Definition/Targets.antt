-- ===== src/Definition/Targets.antt =====
-- The select list in `validate` of src/definition.rs: targets, group keys, aggregates, and the columns that are used.
use nabla.Base.{
  ℕ, ltb, List, [], ◌∷◌, ◌++◌, map, zip, keep, Option, none, some, Bool, true, false, not, ◌&&◌,
  ◌||◌, Text, Result, ok, err, ◌>>=◌, codes, concat, join, text_eq, ◌==◌, any, if◌then◌else◌,
}
use nabla.Errors.{Report}
use nabla.Definition.Types.{BaseRelation}
use nabla.Definition.Tree.{
  Aggregate, Node, Nodes, var, nil, cons, TargetEntry, SortGroupClause, Query,
}
use nabla.Definition.Walk.{refuse, require_base_vars, require_immutable}
use nabla.Definition.Catalog.{Backend, Loaded, rejected}

pub record Target : Type 0 where
  pub node : Node
  pub alias : Text
  pub sortgroupref : ℕ
  pub resjunk : Bool

unfoldable pub alias_of : Option Text → Text
alias_of none = codes "?column?"
alias_of (some name) = name

unfoldable pub targets : List TargetEntry → List Target
targets = map λ (tle : TargetEntry). record {
  node = tle.expr;
  alias = alias_of tle.resname;
  sortgroupref = tle.ressortgroupref;
  resjunk = tle.resjunk;
}

unfoldable pub group_refs : Query → List ℕ
group_refs q = map (λ (c : SortGroupClause). c.tle_sort_group_ref) q.group_clause

unfoldable pub is_group_key : List ℕ → Target → Bool
is_group_key refs t = not (t.sortgroupref == 0) && any (λ r. r == t.sortgroupref) refs

unfoldable pub is_plain_var : Node → ℕ → ℕ → Bool
is_plain_var (var v a levelsup) varno attnum = v == varno && (levelsup == 0 && a == attnum)
is_plain_var _ varno attnum = false

unfoldable pub starts_with : Text → Text → Bool
starts_with [] t = true
starts_with (c ∷ prefix) [] = false
starts_with (c ∷ prefix) (d ∷ t) = c == d && starts_with prefix t

-- The loop over the visible targets, with the names that are taken.
unfoldable pub check_visible : List ℕ → List Text → List Target → Result Report (Unit {0})
check_visible allowed seen [] = ok tt
check_visible allowed seen (t ∷ ts) =
    refuse (starts_with (codes "_nabla_") t.alias) (
      concat
        (codes "column names starting with _nabla_ are reserved (\"" ∷ t.alias ∷ codes "\")" ∷ []))
    >>= λ _.
        refuse (any (text_eq t.alias) seen) (
          concat (
            codes "output column names must be unique; add AS aliases (duplicate: \""
            ∷ t.alias
            ∷ codes "\")"
            ∷ []))
        >>= λ _. require_base_vars allowed t.node >>= λ _. check_visible allowed (t.alias ∷ seen) ts

unfoldable pub visible_targets : List ℕ → List ℕ → List Target → Result Report (List Target)
visible_targets allowed refs all_targets =
    refuse (any (λ t. t.resjunk && is_group_key refs t) all_targets)
      (codes "every GROUP BY expression must also appear in the select list")
    >>= λ _.
        let visible = keep (λ (t : Target). not t.resjunk) all_targets in
        let empty : Bool = elim visible [ [] ↦ true | t ∷ ts ↦ false ] in
        refuse empty (codes "the select list is empty") >>= λ _.
        check_visible allowed [] visible >>= λ _. ok visible

unfoldable pub predicate_of : List Text → Option Text
predicate_of [] = none
predicate_of (p ∷ []) = some p
predicate_of (p ∷ q ∷ parts) = some (
    join (codes " AND ")
      (map (λ (s : Text). concat (codes "(" ∷ s ∷ codes ")" ∷ [])) (p ∷ q ∷ parts)))

pub data AggKind : Type 0 where
  count : AggKind
  count_expr : Node → AggKind
  sum : Node → AggKind

unfoldable pub has_items : Nodes → Bool
has_items nil = false
has_items (cons n ns) = true

unfoldable pub sole_argument : Nodes → Text → Result Report Node
sole_argument (cons arg nil) reason = ok arg
sole_argument nil reason = err (rejected reason)
sole_argument (cons a (cons b rest)) reason = err (rejected reason)

unfoldable pub in_column : Text → Text → Text
in_column what alias = concat (what ∷ codes " (column \"" ∷ alias ∷ codes "\")" ∷ [])

module _ {Raw : Type 0} (backend : Backend Raw) where
  open backend use {functions, attname, in_pg_catalog}

  unfoldable pub argument_of : Text → Text → Text → Nodes → Result Report Node
  argument_of function reason alias args = sole_argument args reason >>= λ arg.
      require_immutable functions arg (
        concat
          (codes "the argument of " ∷ function ∷ codes "() in column \"" ∷ alias ∷ codes "\"" ∷ []))
      >>= λ _. ok arg

  -- The plain forms of the three built-in aggregates.
  unfoldable pub plain_aggregate : Aggregate → Nodes → Text → Text → Result Report AggKind
  plain_aggregate agg args name alias =
      let builtin = in_pg_catalog agg.aggfnoid in
      if builtin && text_eq name (codes "count")
      then (if agg.aggstar
          then ok AggKind.count
          else (argument_of (codes "count") (codes "count() must be count(*) or count(expression)")
                alias args
              >>= λ arg. ok (AggKind.count_expr arg)))
      else if builtin && text_eq name (codes "sum")
      then (argument_of (codes "sum") (codes "sum() must have exactly one argument") alias args
          >>= λ arg. ok (AggKind.sum arg))
      else err (
          rejected (
            concat (
              codes "aggregate \""
              ∷ name
              ∷ codes
                  "\" is not supported; only count(*), count(expression) and sum(expression) are accepted"
              ∷ [])))

  unfoldable pub classify_aggregate :
      Aggregate → Nodes → Nodes → Nodes → Text → Result Report AggKind
  classify_aggregate agg direct args filter alias =
      let name = functions.func_name agg.aggfnoid in
      refuse (not (agg.aggkind == b'n') || has_items direct) (
        concat (
          codes "ordered-set and hypothetical-set aggregates like \""
          ∷ name
          ∷ codes "\" are not supported"
          ∷ []))
      >>= λ _.
          refuse agg.has_distinct
            (in_column (codes "DISTINCT inside aggregates is not supported") alias)
          >>= λ _.
              refuse (has_items filter)
                (in_column (codes "FILTER on aggregates is not supported") alias)
              >>= λ _.
                  refuse agg.has_order
                    (in_column (codes "ORDER BY inside aggregates is not supported") alias)
                  >>= λ _. plain_aggregate agg args name alias

  -- The columns of one relation among the references.
  unfoldable pub used_names : ℕ → ℕ → List (ℕ × ℕ) → Result Report (List Text)
  used_names relid rt_index [] = ok []
  used_names relid rt_index ((varno, attno) ∷ refs) =
      let rest = used_names relid rt_index refs in
      if not (varno == rt_index)
      then rest
      else if attno == 0
      then err (rejected (codes "whole-row references are not supported"))
      else rest >>= λ names. ok (attname relid attno ∷ names)

  unfoldable pub key_names : ℕ → ℕ → List (ℕ × ℕ) → List Text
  key_names relid rt_index refs =
      map (λ (r : ℕ × ℕ). attname relid r.1)
        (keep (λ (r : ℕ × ℕ). r.0 == rt_index && ltb 0 r.1) refs)

  -- The columns that the view reads of a relation, with their types, and its join keys.
  unfoldable pub use_columns :
      Bool → List (ℕ × ℕ) → List (ℕ × ℕ) → Loaded → Result Report BaseRelation
  use_columns is_join var_refs join_refs loaded =
      let rel = loaded.relation in
      used_names rel.oid loaded.rt_index var_refs >>= λ names.
      let used = names ++ (if is_join then rel.pk_columns else []) in
      let read =
        keep (λ (c : Text × Text). any (text_eq c.0) used) (zip rel.columns rel.column_types) in
      let keys = key_names rel.oid loaded.rt_index join_refs in
      ok (record rel {
        used_columns = map (λ (c : Text × Text). c.0) read;
        used_column_types = map (λ (c : Text × Text). c.1) read;
        join_keys = keep (λ c. any (text_eq c) keys) rel.columns;
      })

  unfoldable pub use_all :
      Bool → List (ℕ × ℕ) → List (ℕ × ℕ) → List Loaded → Result Report (List BaseRelation)
  use_all is_join var_refs join_refs [] = ok []
  use_all is_join var_refs join_refs (l ∷ loaded) =
      use_columns is_join var_refs join_refs l >>= λ rel.
      use_all is_join var_refs join_refs loaded >>= λ rels. ok (rel ∷ rels)
