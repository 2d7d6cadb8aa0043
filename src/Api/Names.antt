-- ===== src/Api/Names.antt =====
-- The resolution of view names in src/api.rs, and `find_view`.
use nabla.Base.{
  ℕ, List, [], ◌∷◌, ◌++◌, Option, none, some, Bool, false, Text, Result, ok, err, ◌>>=◌, codes,
  concat, text_eq, ◌==◌, any, if◌then◌else◌,
}
use nabla.Errors
use nabla.Errors.{Report}
use nabla.Definition.Types.{ViewSpec, BaseTable}
use nabla.Worker.Types.{ViewRow}
use nabla.Api.Changes.{CatalogRow}

pub record RangeVar : Type 0 where
  pub catalogname : Option Text
  pub schemaname : Option Text
  pub relname : Text

-- The database as one call sees it: the parser of names (`stringToQualifiedNameList`, `makeRangeVarFromNameList`),
-- the namespace in which a name is created, the oid that it resolves to, the quoting, the text of an error of the
-- JSON library, relations by oid and by name, a setting, and `validate` of src/definition.rs.
pub record Environment : Type 0 where
  pub range_var : Text → Result Report RangeVar
  pub creation_namespace : RangeVar → Result Report Text
  pub visible_oid : RangeVar → Option ℕ
  pub quote_qualified_identifier : Text → Text → Text
  pub spec_error : ViewRow → Text
  pub regclass_text : ℕ → Option Text
  pub relation_exists : Text → Bool
  pub wal_level : Text
  pub validate : Text → Result Report (ViewSpec × BaseTable)

unfoldable pub not_found : Text → Report
not_found name =
    Errors.raise (codes "42P01")
      (concat (codes "nabla: view \"" ∷ name ∷ codes "\" does not exist" ∷ [])) none

-- `load_view_where`: a row whose document is no specification ends the call.
unfoldable pub catalog_row : ViewRow → ViewSpec → CatalogRow
catalog_row r spec = record {
  id = r.id;
  name = r.name;
  spec = spec;
  frontier = r.frontier_lsn;
  epoch = r.epoch;
  status = r.status;
  last_seq = r.last_seq;
  stale_reason = r.stale_reason;
  last_error = r.last_error;
}

unfoldable pub relid_is : ℕ → ViewRow → Bool
relid_is relid r = elim r.relid [ none ↦ false | some oid ↦ oid == relid ]

module _ (env : Environment) where
  open env use {range_var, creation_namespace, visible_oid, quote_qualified_identifier, spec_error}

  unfoldable pub load_row : ViewRow → Option ViewSpec → Result Report CatalogRow
  load_row r none = err (Errors.invalid (codes "nabla: corrupt spec: " ++ spec_error r) none)
  load_row r (some spec) = ok (catalog_row r spec)

  unfoldable pub load_view_where : (ViewRow → Bool) → List ViewRow → Result Report (List CatalogRow)
  load_view_where clause [] = ok []
  load_view_where clause (r ∷ rows) =
      let rest = load_view_where clause rows in
      if clause r then (load_row r r.spec >>= λ row. rest >>= λ found. ok (row ∷ found)) else rest

  -- `parse_name`: `schema` and `rel` are the fields of the range variable.
  unfoldable pub parse_name : Text → Result Report RangeVar
  parse_name name =
      if any (λ c. c == 0) name
      then err (Errors.invalid (codes "nabla: view name contains a NUL byte") none)
      else range_var name >>= λ rv. elim rv.catalogname [
        | none ↦ ok rv
        | some catalogname ↦ err (
            Errors.invalid
              (concat (
                codes "nabla: view name \""
                ∷ name
                ∷ codes "\" must have at most two parts (schema.name)"
                ∷ []))
              none)
      ]

  unfoldable pub creation_name : RangeVar → Result Report Text
  creation_name parsed =
      elim parsed.schemaname [ some schema ↦ ok schema | none ↦ creation_namespace parsed ]
      >>= λ schema. ok (quote_qualified_identifier schema parsed.relname)

  unfoldable pub find_by_name : Text → RangeVar → List ViewRow → Result Report CatalogRow
  find_by_name name parsed rows = creation_name parsed >>= λ canonical.
      load_view_where (λ r. text_eq r.name canonical) rows >>= λ found. elim found [
        | [] ↦ err (not_found name)
        | view ∷ others ↦ ok view
      ]

  -- Through the search path by the oid of the VIEW, or by the name under which it would be created.
  unfoldable pub find_view : Text → List ViewRow → Result Report CatalogRow
  find_view name rows = parse_name name >>= λ parsed. elim (visible_oid parsed) [
    | none ↦ find_by_name name parsed rows
    | some relid ↦ load_view_where (relid_is relid) rows >>= λ found. elim found [
      | [] ↦ find_by_name name parsed rows
      | view ∷ others ↦ ok view
    ]
  ]
