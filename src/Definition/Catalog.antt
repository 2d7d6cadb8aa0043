-- ===== src/Definition/Catalog.antt =====
-- The start of `validate` in src/definition.rs: the analyzed query, and the catalog facts of the base relations.
use nabla.Base.{
  ℕ, suc, List, [], ◌∷◌, ◌++◌, map, Option, none, some, Bool, true, false, ◌&&◌, Text, Result, ok,
  err, ◌>>=◌, codes, concat, decimal, text_eq, length, ◌==◌, any, if◌then◌else◌,
}
use nabla.Errors
use nabla.Errors.{Report}
use nabla.Definition.Types.{BaseRelation, BaseTable}
use nabla.Definition.Tree.{Node, RangeTblEntry, Query, Functions}
use nabla.Definition.Walk.{refuse}

-- The row of `pg_class`, whether other tables inherit from it, and whether it is the table of a view by its name.
pub record ClassRow : Type 0 where
  pub replident : Text
  pub has_children : Bool
  pub is_nabla_view : Bool

-- What `validate` asks of PostgreSQL: its parser and analysis, which raise their own errors, names of relations and
-- columns, quoting, the rows of three queries (the last two in the order of the columns and of the key), whether
-- `nabla.views` has a relation, the two contexts of the deparser, `flatten_join_alias_vars`, `contain_agg_clause`,
-- and whether a function is one of `pg_catalog`.
pub record Backend (Raw : Type 0) : Type 0 where
  pub functions : Functions
  pub raw_parser : Text → Result Report (List Raw)
  pub parse_analyze : Raw → Text → Result Report Query
  pub rel_name : ℕ → Text
  pub namespace_name : ℕ → Text
  pub quote_identifier : Text → Text
  pub quote_qualified_identifier : Text → Text → Text
  pub class_row : ℕ → Result Text (Option ClassRow)
  pub attributes : ℕ → Result Text (List (Text × Text))
  pub primary_key : ℕ → Result Text (List (ℕ × Text))
  pub is_view_relid : ℕ → Bool
  pub attname : ℕ → ℕ → Text
  pub deparse_single : ℕ → Text → Node → Text
  pub deparse_rtable : List RangeTblEntry → List Text → Node → Text
  pub flatten_join_alias_vars : List RangeTblEntry → Node → Node
  pub contain_agg_clause : Node → Bool
  pub in_pg_catalog : ℕ → Bool

unfoldable pub rejected : Text → Report
rejected reason = Errors.unsupported_definition reason

unfoldable pub catalog_result : {A : Type 0} → Result Text A → Result Report A
catalog_result (ok a) = ok a
catalog_result (err e) = err (Errors.invalid (codes "nabla: catalog lookup failed: " ++ e) none)

-- What the variables keep where the query finds no row.
unfoldable pub class_facts : Option ClassRow → ClassRow
class_facts none = record { replident = []; has_children = false; is_nabla_view = false }
class_facts (some row) = row

-- Why a relation that is no ordinary table is refused.
unfoldable pub relkind_refusal : ℕ → Text → Option Text
relkind_refusal relkind qualified =
    if relkind == b'r'
    then none
    else if relkind == b'p'
    then some (qualified ++ codes " is a partitioned table; partitioned tables are not supported")
    else if relkind == b'v'
    then some (qualified ++ codes " is a view; the base must be an ordinary table")
    else if relkind == b'm'
    then some (qualified ++ codes " is a materialized view; the base must be an ordinary table")
    else if relkind == b'f'
    then some (qualified ++ codes " is a foreign table; the base must be an ordinary table")
    else some (
        concat (
          qualified
          ∷ codes " is not an ordinary table (relkind '"
          ∷ (relkind ∷ [])
          ∷ codes "')"
          ∷ []))

unfoldable pub refuse_relkind : Option Text → Result Report (Unit {0})
refuse_relkind none = ok tt
refuse_relkind (some reason) = err (rejected reason)

unfoldable pub has_no_key : List ℕ → Bool
has_no_key [] = true
has_no_key (a ∷ attnums) = false

unfoldable pub alias_or : Text → Option Text → Text
alias_or relname none = relname
alias_or relname (some alias) = alias

-- A base relation with what the loop of `validate` knows of it: its index in the range table and its catalog facts.
pub record Loaded : Type 0 where
  pub rt_index : ℕ
  pub relation : BaseRelation
  pub base : BaseTable
  pub pk_attnums : List ℕ

module _ {Raw : Type 0} (backend : Backend Raw) where
  open backend use {
    raw_parser, parse_analyze, rel_name, namespace_name, quote_qualified_identifier, class_row,
    attributes, primary_key, is_view_relid,
  }

  -- The definition is one statement.
  unfoldable pub single_statement : Text → List Raw → Result Report Query
  single_statement source [] = err (rejected (codes "the definition is empty"))
  single_statement source (statement ∷ []) = parse_analyze statement source
  single_statement source (s ∷ t ∷ rest) = err (
      rejected (
        codes "the definition must be exactly one SELECT statement, found "
        ++ decimal (length (s ∷ t ∷ rest))))

  unfoldable pub analyze : Text → Result Report Query
  analyze definition =
      if any (λ c. c == 0) definition
      then err (Errors.invalid (codes "nabla: the definition contains a NUL byte") none)
      else raw_parser definition >>= single_statement definition

  unfoldable pub lookup_base :
      ℕ → Text → Text → Result Report (BaseTable × List ℕ × List (Text × Text))
  lookup_base relid nspname relname =
      let qualified = quote_qualified_identifier nspname relname in
      catalog_result (class_row relid) >>= λ row.
      let facts = class_facts row in
      refuse facts.is_nabla_view
        (qualified ++ codes " is a nabla view; views cannot be built on other nabla views")
      >>= λ _.
          refuse facts.has_children
            (qualified ++ codes " has inheritance children, which logical decoding does not follow")
          >>= λ _. catalog_result (attributes relid) >>= λ columns.
              catalog_result (primary_key relid) >>= λ key.
              let base : BaseTable = record {
                oid = relid;
                qualified = qualified;
                replident = facts.replident;
                pk_columns = map (λ (k : ℕ × Text). k.1) key;
              } in
              ok (base, map (λ (k : ℕ × Text). k.0) key, columns)

  unfoldable pub check_relation_kind : RangeTblEntry → Text → Text → Result Report (Unit {0})
  check_relation_kind rte qualified nspname =
      refuse (text_eq nspname (codes "nabla_store"))
        (qualified ++ codes " is a nabla storage table and cannot be a base table")
      >>= λ _.
          refuse (is_view_relid rte.relid)
            (qualified ++ codes " is a nabla view; views cannot be built on other nabla views")
          >>= λ _. refuse_relkind (relkind_refusal rte.relkind qualified) >>= λ _.
              refuse (text_eq nspname (codes "nabla"))
                (qualified ++ codes " is a nabla catalog table and cannot be a base table")
              >>= λ _.
                  refuse (text_eq nspname (codes "nabla_shadow"))
                    (qualified ++ codes " is a nabla shadow table and cannot be a base table")

  -- One turn of the loop: the relation at the position, after those that are there.
  unfoldable pub load_relation : Bool → ℕ → List ℕ → ℕ × RangeTblEntry → Result Report Loaded
  load_relation is_join i seen_oids (rt_index, rte) =
      let relid = rte.relid in
      let nspname = namespace_name relid in
      let relname = rel_name relid in
      let qualified = quote_qualified_identifier nspname relname in
      check_relation_kind rte qualified nspname >>= λ _.
      refuse (any (λ o. o == relid) seen_oids) (
        concat (
          codes "table "
          ∷ qualified
          ∷ codes " is referenced twice; self-joins are not supported"
          ∷ []))
      >>= λ _. lookup_base relid nspname relname >>= λ found.
          refuse (is_join && has_no_key found.1)
            (qualified ++ codes " has no primary key; every table in a join view needs one")
          >>= λ _.
              let relation : BaseRelation = record {
                oid = relid;
                rti = suc i;
                alias = alias_or relname rte.alias;
                qualified = qualified;
                pk_columns = found.0.pk_columns;
                columns = map (λ (c : Text × Text). c.0) found.2;
                column_types = map (λ (c : Text × Text). c.1) found.2;
                used_columns = [];
                used_column_types = [];
                join_keys = [];
              } in
              ok (record {
                rt_index = rt_index;
                relation = relation;
                base = found.0;
                pk_attnums = found.1;
              })

  unfoldable pub load_relations :
      Bool → ℕ → List ℕ → List (ℕ × RangeTblEntry) → Result Report (List Loaded)
  load_relations is_join i seen_oids [] = ok []
  load_relations is_join i seen_oids (e ∷ entries) =
      load_relation is_join i seen_oids e >>= λ loaded.
      load_relations is_join (suc i) (e.1.relid ∷ seen_oids) entries >>= λ rest. ok (loaded ∷ rest)
