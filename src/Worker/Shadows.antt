-- ===== src/Worker/Shadows.antt =====
-- The shadow tables of src/worker.rs: the copy of a base table that join views read.
use nabla.Base.{
  ℕ, suc, List, [], ◌∷◌, ◌++◌, map, Option, none, some, Bool, not, Text, Result, ok, err, ◌>>=◌,
  ok_or, get_elem?, set, any, text_eq, codes, concat, join, decimal, if◌then◌else◌,
}
use nabla.Pgoutput.Types.{Relation, null, text, Tuple, Change}
use nabla.Apply.Sql.{Spi, Action, rel_column_index, execute_cached, row_arg}
use nabla.Apply.Actions.{pure, lift, bind}
use nabla.Worker.Types.{Catalog, Shadow}
use nabla.Worker.Views.{has_column, drift_reason}
use nabla.Worker.Catalog.{update_shadows, record_shadow_failure}

-- `t.get(idx)` where it is text.
unfoldable pub text_value : Option Tuple → ℕ → Option Text
text_value none idx = none
text_value (some tuple) idx = elim (get_elem? tuple idx) [ none ↦ none | some v ↦ row_arg v ]

unfoldable pub or_else : {A : Type 0} → Option A → Option A → Option A
or_else none b = b
or_else (some a) b = some a

unfoldable pub key_value : Text → Relation → Option Tuple → Option Tuple → Result Text (ℕ × Text)
key_value pk rel old new =
    ok_or (rel_column_index rel pk)
      (concat (codes "primary key column " ∷ pk ∷ codes " is missing from the decoded row" ∷ []))
    >>= λ idx.
        ok_or (or_else (text_value old idx) (text_value new idx)) (
          concat (codes "primary key column " ∷ pk ∷ codes " has no value in the decoded row" ∷ []))
        >>= λ value. ok (idx, value)

unfoldable pub key_values_of :
    List Text → Relation → Option Tuple → Option Tuple → Result Text (List (ℕ × Text))
key_values_of [] rel old new = ok []
key_values_of (pk ∷ pks) rel old new =
    let rest = key_values_of pks rel old new in
    key_value pk rel old new >>= λ key. rest >>= λ keys. ok (key ∷ keys)

unfoldable pub key_values :
    List Text → Relation → Option Tuple → Option Tuple → Result Text (List (ℕ × Text))
key_values [] rel old new = err (codes "no primary key columns recorded for the shadow")
key_values (pk ∷ pks) rel old new = key_values_of (pk ∷ pks) rel old new

-- The columns of the decoded relation that the shadow carries.
unfoldable pub column_indexes : List Text → Relation → List ℕ
column_indexes [] rel = []
column_indexes (name ∷ names) rel =
    let rest = column_indexes names rel in
    elim (rel_column_index rel name) [ none ↦ rest | some i ↦ i ∷ rest ]

unfoldable pub shadow_column_indexes : Shadow → Relation → List ℕ
shadow_column_indexes shadow rel = column_indexes shadow.columns rel

-- The values of a row of the shadow, each at the index of its column; `out` starts as NULLs.
unfoldable pub fill_row : List ℕ → List (Option Text) → Tuple → Result Text Tuple
fill_row [] row out = ok out
fill_row (idx ∷ idxs) [] out = err (codes "column out of range")
fill_row (idx ∷ idxs) (none ∷ row) out = fill_row idxs row (set out idx null)
fill_row (idx ∷ idxs) (some s ∷ row) out = fill_row idxs row (set out idx (text s))

unfoldable pub first_row :
    List ℕ → Relation → List (List (Option Text)) → Result Text (Option Tuple)
first_row idxs rel [] = ok none
first_row idxs rel (row ∷ rows) =
    fill_row idxs row (map (λ _. null) rel.columns) >>= λ tuple. ok (some tuple)

-- The old row that `delete` of an update looks for: the one from the shadow, or the decoded one.
unfoldable pub old_tuple : Option (ℕ × Tuple) → Option Tuple
old_tuple none = none
old_tuple (some (kind, tuple)) = some tuple

module _ (spi : Spi) where
  open spi use {Tables, quote_identifier, query}

  -- The conditions on the key, with the parameters counted from `n`, and their values.
  unfoldable pub key_conds :
      Relation → List (ℕ × Text) → ℕ → Result Text (List Text × List (Option Text))
  key_conds rel [] n = ok ([], [])
  key_conds rel ((idx, value) ∷ keys) n =
      let rest = key_conds rel keys (suc n) in
      ok_or (get_elem? rel.columns idx) (codes "index out of bounds") >>= λ col.
      ok_or col.type_name (codes "type not resolved") >>= λ ty. rest >>= λ parts. ok (
        concat (quote_identifier col.name ∷ codes " = $" ∷ decimal n ∷ codes "::" ∷ ty ∷ [])
            ∷ parts.0,
        some value ∷ parts.1,
      )

  unfoldable pub key_predicate :
      Relation → List (ℕ × Text) → ℕ → Result Text (Text × List (Option Text))
  key_predicate rel keys first_param = key_conds rel keys first_param >>= λ parts. elim parts.0 [
    | [] ↦ err (codes "empty key predicate")
    | cond ∷ conds ↦ ok (join (codes " AND ") (cond ∷ conds), parts.1)
  ]

  unfoldable pub text_columns : Relation → List ℕ → Result Text (List Text)
  text_columns rel [] = ok []
  text_columns rel (idx ∷ idxs) =
      let rest = text_columns rel idxs in
      ok_or (get_elem? rel.columns idx) (codes "index out of bounds") >>= λ col.
      rest >>= λ cols. ok ((quote_identifier col.name ++ codes "::text") ∷ cols)

  unfoldable pub old_row_sql : Shadow → List Text → Text → Text
  old_row_sql shadow cols conds = concat (
      codes "SELECT "
      ∷ join (codes ", ") cols
      ∷ codes " FROM "
      ∷ shadow.table
      ∷ codes " WHERE "
      ∷ conds
      ∷ [])

  unfoldable pub shadow_old_row : Shadow → Relation → Option Tuple → Option Tuple → Action spi Tuple
  shadow_old_row shadow rel old new =
      bind spi
        (lift spi (key_values shadow.pk_columns rel old new >>= λ keys. key_predicate rel keys 1))
        (λ key. bind spi (lift spi (text_columns rel (shadow_column_indexes shadow rel))) (λ cols.
          bind spi (query (old_row_sql shadow cols key.0) key.1) (λ rows.
            bind spi (lift spi (first_row (shadow_column_indexes shadow rel) rel rows)) (λ row.
              lift spi (
                ok_or row (
                  concat (
                    codes "row not found in shadow "
                    ∷ shadow.table
                    ∷ codes " (shadow out of sync with the base table)"
                    ∷ [])))))))

  unfoldable pub shadow_delete :
      Shadow → Relation → Option Tuple → Option Tuple → Action spi (Unit {0})
  shadow_delete shadow rel old new =
      bind spi
        (lift spi (key_values shadow.pk_columns rel old new >>= λ keys. key_predicate rel keys 1))
        (λ key.
          execute_cached spi
            (concat (codes "DELETE FROM " ∷ shadow.table ∷ codes " WHERE " ∷ key.0 ∷ [])) key.1)

  -- The names, the casts and the values of a row's active columns, the parameters counted from `n`.
  unfoldable pub insert_parts :
      Relation → Tuple → List ℕ → ℕ → Result Text (List Text × (List Text × List (Option Text)))
  insert_parts rel row [] n = ok ([], ([], []))
  insert_parts rel row (idx ∷ idxs) n =
      let rest = insert_parts rel row idxs (suc n) in
      ok_or (get_elem? rel.columns idx) (codes "index out of bounds") >>= λ col.
      ok_or col.type_name (codes "type not resolved") >>= λ ty.
      ok_or (get_elem? row idx) (codes "index out of bounds") >>= λ value. rest >>= λ parts. ok (
        quote_identifier col.name ∷ parts.0,
        (
          concat (codes "$" ∷ decimal n ∷ codes "::" ∷ ty ∷ []) ∷ parts.1.0,
          row_arg value ∷ parts.1.1,
        ),
      )

  unfoldable pub shadow_insert : Shadow → Relation → Tuple → Action spi (Unit {0})
  shadow_insert shadow rel row = elim (shadow_column_indexes shadow rel) [
    | [] ↦ lift spi (err (codes "the shadow has no active column present in the decoded row"))
    | idx ∷ idxs ↦ bind spi (lift spi (insert_parts rel row (idx ∷ idxs) 1)) (λ parts.
        execute_cached spi
          (concat (
            codes "INSERT INTO "
            ∷ shadow.table
            ∷ codes " ("
            ∷ join (codes ", ") parts.0
            ∷ codes ") VALUES ("
            ∷ join (codes ", ") parts.1.0
            ∷ codes ")"
            ∷ []))
          parts.1.1)
  ]

  unfoldable pub insert_new : Shadow → Relation → Option Tuple → Action spi (Unit {0})
  insert_new shadow rel new_full =
      bind spi (lift spi (ok_or new_full (codes "missing new row"))) (shadow_insert shadow rel)

  unfoldable pub shadow_apply :
      Shadow → Relation → Change → Option Tuple → Option Tuple → Action spi (Unit {0})
  shadow_apply shadow rel (Change.insert relid new) old_full new_full =
      insert_new shadow rel new_full
  shadow_apply shadow rel (Change.delete relid kind old) old_full new_full =
      shadow_delete shadow rel (some old) none
  shadow_apply shadow rel (Change.update relid old new) old_full new_full =
      bind spi (shadow_delete shadow rel (or_else old_full (old_tuple old)) (some new))
        (λ _. insert_new shadow rel new_full)
  shadow_apply shadow rel (Change.truncate relids) old_full new_full = pure spi tt

-- The shadow's columns that the decoded relation does not provide with their types.
unfoldable pub drifted_columns : Relation → List Text → List Text → List Text
drifted_columns rel [] tys = []
drifted_columns rel (name ∷ names) [] = []
drifted_columns rel (name ∷ names) (ty ∷ tys) =
    let rest = drifted_columns rel names tys in
    if not (has_column rel name ty) then name ∷ rest else rest

unfoldable pub contains : List Text → Text → Bool
contains names name = any (text_eq name) names

-- The pairs of a column and its type that stay.
unfoldable pub kept_columns : List Text → List Text → List Text → List Text × List Text
kept_columns drifted [] tys = ([], [])
kept_columns drifted (name ∷ names) [] = ([], [])
kept_columns drifted (name ∷ names) (ty ∷ tys) =
    let rest = kept_columns drifted names tys in
    if contains drifted name then rest else (name ∷ rest.0, ty ∷ rest.1)

unfoldable pub drop_columns : Shadow → List Text → Text → Catalog → Shadow × Catalog
drop_columns shadow drifted reason cat =
    let kept = kept_columns drifted shadow.columns shadow.column_types in
    (
      record shadow { columns = kept.0; column_types = kept.1 },
      update_shadows shadow.relid
          (λ r. record r { columns = kept.0; column_types = kept.1; stale_reason = some reason })
          cat,
    )

-- The columns that drifted, the shadow and the catalog.
unfoldable pub shadow_drift : Shadow → Relation → Text → Catalog → List Text × (Shadow × Catalog)
shadow_drift shadow rel qualified cat =
    elim (drifted_columns rel shadow.columns shadow.column_types) [
      | [] ↦ ([], (shadow, cat))
      | c ∷ cs ↦
          let reason = join (codes "; ") (map (λ d. drift_reason d qualified) (c ∷ cs)) in
          (
            c ∷ cs,
            if any (contains shadow.pk_columns) (c ∷ cs)
                then record_shadow_failure shadow reason cat
                else drop_columns shadow (c ∷ cs) reason cat,
          )
    ]
