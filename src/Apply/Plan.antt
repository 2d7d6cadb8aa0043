-- ===== src/Apply/Plan.antt =====
-- The `plan_*` functions of src/apply.rs: the signed rows that a change contributes to a view.
use nabla.Base.{
  ℕ, suc, List, [], ◌∷◌, ◌++◌, map, Option, none, some, not, Text, Result, ok, err, ◌>>=◌, ok_or,
  get_elem?, codes, concat, join, decimal, ◌==◌, if◌then◌else◌,
}
use nabla.Base.Int.{ℤ, pos, negsuc}
use nabla.Definition.Types.{projection, aggregate, BaseRelation, ViewSpec}
use nabla.Pgoutput.Types.{Relation, null, unchanged, text, Tuple}
use nabla.Apply.Types.{Op, row, delete_by_key, Planned, ops, stale, Stale}
use nabla.Apply.Sql.{Spi, Action, rel_column_index, row_args, returning_text, values_source}
use nabla.Apply.Actions.{pure, lift, bind}

pub record ViewTarget : Type 0 where
  pub name : Text
  pub spec : ViewSpec

-- `shadow::table_name` of src/shadow.rs.
unfoldable pub table_name : ℕ → Text
table_name oid = codes "nabla_shadow.t" ++ decimal oid

unfoldable pub clause : Text → Option Text → Text
clause keyword none = []
clause keyword (some t) = keyword ++ t

unfoldable pub delta_rows_sql : ViewSpec → Text → Text
delta_rows_sql spec from_list = concat (
    codes "SELECT to_jsonb(r)::text FROM (SELECT "
    ∷ spec.select_list
    ∷ codes " FROM "
    ∷ from_list
    ∷ clause (codes " WHERE ") spec.predicate
    ∷ clause (codes " GROUP BY ") spec.group_by
    ∷ codes ") AS r"
    ∷ [])

unfoldable pub missing_key : Text → Stale
missing_key pk = record {
  reason =
      concat (codes "primary key column " ∷ pk ∷ codes " missing from the decoded old row" ∷ []);
}

module _ (spi : Spi) where
  open spi use {quote_identifier}

  unfoldable pub delta_rows : ViewSpec → Text → List (Option Text) → ℤ → Action spi (List Op)
  delta_rows spec from_list args sign =
      bind spi (returning_text spi (delta_rows_sql spec from_list) args)
        (λ rows. pure spi (map (row sign) rows))

  unfoldable pub plan_single_insert : ViewTarget → Relation → Tuple → Action spi (List Op)
  plan_single_insert view rel new =
      bind spi (lift spi (values_source spi rel view.spec.base_relname 1))
        (λ src. delta_rows view.spec src (row_args new) (pos 1))

  -- The values of the key columns and the conditions on them; `n` values came before. A value that
  -- the old row does not have makes the view stale. `old[idx]` fails where there is no such value.
  unfoldable pub key_conditions :
      Relation
      → Tuple
      → ℕ
      → List Text
      → List Text
      → Result Text (Result Stale (List Text × List (Option Text)))
  key_conditions rel old n [] view_cols = ok (ok ([], []))
  key_conditions rel old n (pk ∷ pks) [] = ok (ok ([], []))
  key_conditions rel old n (pk ∷ pks) (view_col ∷ view_cols) =
      let rest = key_conditions rel old (suc n) pks view_cols in
      ok_or (rel_column_index rel pk)
        (concat (codes "primary key column " ∷ pk ∷ codes " missing" ∷ []))
      >>= λ idx. ok_or (get_elem? rel.columns idx) (codes "index out of bounds") >>= λ col.
          ok_or col.type_name (codes "type not resolved") >>= λ ty.
          ok_or (get_elem? old idx) (codes "index out of bounds") >>= λ value. elim value [
            | null ↦ ok (err (missing_key pk))
            | unchanged ↦ ok (err (missing_key pk))
            | text s ↦ rest >>= λ more. ok (
                more >>= λ parts. ok (
                  concat (
                        codes "v."
                        ∷ quote_identifier view_col
                        ∷ codes " = $"
                        ∷ decimal (suc n)
                        ∷ codes "::"
                        ∷ ty
                        ∷ [])
                      ∷ parts.0,
                  some s ∷ parts.1,
                ))
          ]

  unfoldable pub delete_planned : Result Stale (List Text × List (Option Text)) → Planned
  delete_planned (err s) = stale s
  delete_planned (ok (conds, values)) = ops (delete_by_key (join (codes " AND ") conds) values ∷ [])

  unfoldable pub plan_single_delete : ViewTarget → Relation → ℕ → Tuple → Action spi Planned
  plan_single_delete view rel key_kind old = elim view.spec.shape [
    | projection ↦
        bind spi
          (lift spi (key_conditions rel old 0 view.spec.pk_columns view.spec.pk_view_columns))
          (λ parts. pure spi (delete_planned parts))
    | aggregate ↦
        if not (key_kind == b'O')
        then pure spi (
            stale (record {
              reason = codes "old row not available; the base table needs REPLICA IDENTITY FULL";
            }))
        else bind spi (lift spi (values_source spi rel view.spec.base_relname 1)) (λ src.
          bind spi (delta_rows view.spec src (row_args old) (negsuc 0))
            (λ rows. pure spi (ops rows)))
  ]

  -- The FROM list of a join: the changed row at its own position, a shadow at the others. `i`
  -- relations came before.
  unfoldable pub from_list : ℕ → Relation → ℕ → List BaseRelation → Result Text (List Text)
  from_list rel_index rel i [] = ok []
  from_list rel_index rel i (r ∷ rs) =
      let rest = from_list rel_index rel (suc i) rs in
      (if i == rel_index
        then values_source spi rel r.alias 1
        else ok (concat (table_name r.oid ∷ codes " AS " ∷ quote_identifier r.alias ∷ [])))
      >>= λ item. rest >>= λ items. ok (item ∷ items)

  unfoldable pub plan_join : ViewTarget → ℕ → Relation → Tuple → ℤ → Action spi (List Op)
  plan_join view rel_index rel tuple sign =
      bind spi (lift spi (from_list rel_index rel 0 view.spec.relations))
        (λ items. delta_rows view.spec (join (codes ", ") items) (row_args tuple) sign)
