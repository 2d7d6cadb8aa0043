-- ===== src/Worker/Views.antt =====
-- The methods of `LiveView` in src/worker.rs.
use nabla.Base.{
  ℕ, List, [], ◌∷◌, Option, none, some, Bool, true, false, not, ◌&&◌, Text, get_elem?, any,
  position, text_eq, codes, concat, ◌==◌, ltb, if◌then◌else◌,
}
use nabla.Definition.Types.{BaseRelation}
use nabla.Pgoutput.Types.{Relation, ColumnValue, null, unchanged, text, Tuple}
use nabla.Apply.Sql.{rel_column_index}
use nabla.Worker.Types.{LiveView}

unfoldable pub relation_index : LiveView → ℕ → Option ℕ
relation_index view relid = position (λ r. r.oid == relid) view.spec.relations

unfoldable pub base_relation : LiveView → ℕ → Option BaseRelation
base_relation view relid = elim (relation_index view relid) [
  | none ↦ none
  | some index ↦ get_elem? view.spec.relations index
]

unfoldable pub is_none : {A : Type 0} → Option A → Bool
is_none none = true
is_none (some _) = false

-- `==` on decoded values.
unfoldable pub same_value : ColumnValue → ColumnValue → Bool
same_value null null = true
same_value null unchanged = false
same_value null (text t) = false
same_value unchanged null = false
same_value unchanged unchanged = true
same_value unchanged (text t) = false
same_value (text s) null = false
same_value (text s) unchanged = false
same_value (text s) (text t) = text_eq s t

-- The test of one column: whether its value changed, as far as the two rows tell.
unfoldable pub value_changed : Option ColumnValue → Option ColumnValue → Bool
value_changed o none = true
value_changed o (some unchanged) = false
value_changed none (some null) = true
value_changed none (some (text t)) = true
value_changed (some o) (some null) = not (same_value o null)
value_changed (some o) (some (text t)) = not (same_value o (text t))

unfoldable pub column_changed : Relation → Tuple → Tuple → Text → Bool
column_changed rel old new name = elim (rel_column_index rel name) [
  | none ↦ true
  | some i ↦ value_changed (get_elem? old i) (get_elem? new i)
]

unfoldable pub touches_used_columns : LiveView → ℕ → Relation → Option Tuple → Tuple → Bool
touches_used_columns view relid rel old new = elim (base_relation view relid) [
  | none ↦ true
  | some base ↦ elim old [
    | none ↦ true
    | some old_row ↦ any (column_changed rel old_row new) base.used_columns
  ]
]

unfoldable pub active_for : LiveView → ℕ → ℕ → Bool
active_for view relid end_lsn =
    is_none view.failed
    && is_none view.stale
    && ltb view.frontier end_lsn
    && not (is_none (relation_index view relid))

-- The decoded relation has a column of this name and type.
unfoldable pub has_column : Relation → Text → Text → Bool
has_column rel name ty =
    any (λ c. text_eq c.name name && elim c.type_name [ none ↦ false | some t ↦ text_eq t ty ])
      rel.columns

unfoldable pub drift_reason : Text → Text → Text
drift_reason name qualified = concat (
    codes "column \""
    ∷ name
    ∷ codes "\" of "
    ∷ qualified
    ∷ codes " was dropped, renamed or changed type"
    ∷ [])

unfoldable pub first_drift : Relation → Text → List Text → List Text → Option Text
first_drift rel qualified [] tys = none
first_drift rel qualified (name ∷ names) [] = none
first_drift rel qualified (name ∷ names) (ty ∷ tys) =
    let rest = first_drift rel qualified names tys in
    if not (has_column rel name ty) then some (drift_reason name qualified) else rest

unfoldable pub drift : LiveView → ℕ → Relation → Option Text
drift view relid rel = elim (base_relation view relid) [
  | none ↦ none
  | some base ↦ first_drift rel base.qualified base.used_columns base.used_column_types
]
