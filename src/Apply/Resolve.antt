-- ===== src/Apply/Resolve.antt =====
-- `resolve_unchanged` of src/apply.rs: the markers for unchanged TOAST values in a new row.
use nabla.Base.{
  ℕ, ◌+◌, List, [], ◌∷◌, Option, none, some, Bool, true, false, not, if◌then◌else◌, Text, get_elem?,
  Result, ok, err, ◌>>=◌, codes, concat,
}
use nabla.Pgoutput.Types.{RelationColumn, Relation, ColumnValue, null, unchanged, text, Tuple}
use nabla.Apply.Types.{Stale}

unfoldable pub is_unchanged : ColumnValue → Bool
is_unchanged unchanged = true
is_unchanged null = false
is_unchanged (text t) = false

-- `old.and_then(|t| t.get(i))`, unless that is a marker too.
unfoldable pub old_value : Option Tuple → ℕ → Option ColumnValue
old_value none i = none
old_value (some tuple) i = elim (get_elem? tuple i) [
  | none ↦ none
  | some v ↦ if is_unchanged v then none else some v
]

unfoldable pub unrecovered : Text → Stale
unrecovered col = record {
  reason = concat (
      codes "unchanged TOAST value for column "
      ∷ col
      ∷ codes " could not be recovered (REPLICA IDENTITY FULL is required)"
      ∷ []);
}

-- One value at index `i`, whose column is `col`.
unfoldable pub resolve_value :
    Text → Option Tuple → (Text → Bool) → ℕ → ColumnValue → Result Stale ColumnValue
resolve_value col old mentions i v = if not (is_unchanged v) then ok v else elim (old_value old i) [
  | some ov ↦ ok ov
  | none ↦ if mentions col then err (unrecovered col) else ok null
]

-- The values from index `i` on, with their columns. A tuple never has more values than its
-- relation has columns; `rel.columns[i]` would fail on one that has, which is `none` here.
unfoldable pub resolve_from :
    List RelationColumn → Option Tuple → (Text → Bool) → ℕ → Tuple → Option (Result Stale Tuple)
resolve_from cols old mentions i [] = some (ok [])
resolve_from [] old mentions i (v ∷ vs) =
    let rest = resolve_from [] old mentions (i + 1) vs in
    if is_unchanged v
    then none
    else elim rest [ none ↦ none | some r ↦ some (r >>= λ tail. ok (v ∷ tail)) ]
resolve_from (c ∷ cols) old mentions i (v ∷ vs) =
    let rest = resolve_from cols old mentions (i + 1) vs in
    elim (resolve_value c.name old mentions i v) [
      | err s ↦ some (err s)
      | ok w ↦ elim rest [ none ↦ none | some r ↦ some (r >>= λ tail. ok (w ∷ tail)) ]
    ]

unfoldable pub resolve_unchanged :
    Relation → Tuple → Option Tuple → (Text → Bool) → Option (Result Stale Tuple)
resolve_unchanged rel new old mentions = resolve_from rel.columns old mentions 0 new
