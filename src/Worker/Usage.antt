-- ===== src/Worker/Usage.antt =====
-- What `touches_used_columns` of src/worker.rs tells when it answers no.
use nabla.Base.{
  ℕ, ◌≡◌, ◌⊎◌, inl, inr, refl, ap, sym, List, [], ◌∷◌, All, Option, none, some, Bool, true, false,
  not, Text, text_eq→eq, get_elem?, any, Bool-cases, Option-cases,
}
use nabla.Definition.Types.{BaseRelation}
use nabla.Pgoutput.Types.{Relation, ColumnValue, null, unchanged, text, Tuple}
use nabla.Apply.Sql.{rel_column_index}
use nabla.Worker.Types.{LiveView}
use nabla.Worker.Views.{
  base_relation, same_value, value_changed, column_changed, touches_used_columns,
}

-- The relation still has the column, and its new value is a marker for an unchanged one or equal to
-- the old one.
abbrev pub IsSameColumn : Relation → Tuple → Tuple → Text → Type 0
IsSameColumn rel old new name =
    (i : ℕ) × (rel_column_index rel name ≡ some i)
    × ((get_elem? new i ≡ some unchanged)
        ⊎ (v : ColumnValue) × (get_elem? old i ≡ some v) × (get_elem? new i ≡ some v))

same_value→eq : (v w : ColumnValue) → same_value v w ≡ true → v ≡ w
unfolding same_value
same_value→eq null null h = refl
same_value→eq null unchanged h = cc h
same_value→eq null (text t) h = cc h
same_value→eq unchanged null h = cc h
same_value→eq unchanged unchanged h = refl
same_value→eq unchanged (text t) h = cc h
same_value→eq (text s) null h = cc h
same_value→eq (text s) unchanged h = cc h
same_value→eq (text s) (text t) h = ap (λ x. text x) (text_eq→eq s t h)

not-true : (b : Bool) → not b ≡ false → b ≡ true
not-true true h = refl
not-true false h = cc h

value_changed-no :
    (o n : Option ColumnValue)
    → value_changed o n ≡ false
    → (n ≡ some unchanged) ⊎ (v : ColumnValue) × (o ≡ some v) × (n ≡ some v)
unfolding value_changed
value_changed-no o none h = cc h
value_changed-no o (some unchanged) h = inl refl
value_changed-no none (some null) h = cc h
value_changed-no none (some (text t)) h = cc h
value_changed-no (some v) (some null) h =
    let e = same_value→eq v null (not-true (same_value v null) h) in inr (v, refl, ap some (sym e))
value_changed-no (some v) (some (text t)) h =
    let e = same_value→eq v (text t) (not-true (same_value v (text t)) h) in
    inr (v, refl, ap some (sym e))

column_changed-no :
    (rel : Relation) (old new : Tuple) (name : Text)
    → column_changed rel old new name ≡ false
    → IsSameColumn rel old new name
unfolding column_changed
column_changed-no rel old new name h = elim (Option-cases (rel_column_index rel name)) [
  | inl e ↦ cc (rw (e, column_changed) at h)
  | inr (i, e) ↦
      (i, e, value_changed-no (get_elem? old i) (get_elem? new i) (rw (e, column_changed) at h))
]

any-no :
    (rel : Relation) (old new : Tuple) (names : List Text)
    → any (column_changed rel old new) names ≡ false
    → All (IsSameColumn rel old new) names
unfolding any
any-no rel old new [] h = tt
any-no rel old new (name ∷ names) h = elim (Bool-cases (column_changed rel old new name)) [
  | inl e ↦ cc (rw e at h)
  | inr e ↦ (column_changed-no rel old new name e, any-no rel old new names (rw e at h))
]

-- If the answer is no for a relation that the view uses and a complete old row, then in each column
-- that the view uses the new value is the old one or a marker that it is unchanged.
pub touches_used_columns-IsSameColumn :
    (view : LiveView) (relid : ℕ) (rel : Relation) (old new : Tuple) (base : BaseRelation)
    → base_relation view relid ≡ some base
    → touches_used_columns view relid rel (some old) new ≡ false
    → All (IsSameColumn rel old new) base.used_columns
unfolding touches_used_columns
touches_used_columns-IsSameColumn view relid rel old new base e h =
    any-no rel old new base.used_columns (rw (e, touches_used_columns) at h)
