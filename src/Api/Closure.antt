-- ===== src/Api/Closure.antt =====
-- `refresh_closure` of src/api.rs: the views that must be rebuilt together with a join view.
use nabla.Base.{
  ℕ, zero, suc, ◌+◌, List, [], ◌∷◌, map, Option, none, some, Bool, false, ◌&&◌, ltb, ◌==◌,
  if◌then◌else◌, length, any,
}
use nabla.Base.Sets.{member, extend}
use nabla.Definition.Types.{ViewSpec, is_join}
use nabla.Worker.Types.{ViewRow, ViewRelation}

-- A view whose document has more than one relation.
unfoldable pub is_join_row : ViewRow → Bool
is_join_row v = elim v.spec [ none ↦ false | some spec ↦ is_join spec ]

unfoldable pub has_join : List ViewRow → ℕ → Bool
has_join views id = any (λ v. v.id == id && is_join_row v) views

-- The first query: the join views that use one of the relations.
unfoldable pub sharing : List ViewRow → List ℕ → List ViewRelation → List ℕ
sharing views relids [] = []
sharing views relids (r ∷ rows) =
    let rest = sharing views relids rows in
    if member ◌==◌ r.relid relids && has_join views r.view_id then r.view_id ∷ rest else rest

-- The second: the relations that the views use.
unfoldable pub used : List ℕ → List ViewRelation → List ℕ
used ids [] = []
used ids (r ∷ rows) =
    let rest = used ids rows in if member ◌==◌ r.view_id ids then r.relid ∷ rest else rest

-- `none` where the fuel runs out.
unfoldable pub closure_loop :
    ℕ → List ViewRow → List ViewRelation → List ℕ → List ℕ → Option (List ℕ)
closure_loop zero views rows ids relids = none
closure_loop (suc fuel) views rows ids relids =
    let ids' = extend ◌==◌ ltb ids (sharing views relids rows) in
    let relids' = extend ◌==◌ ltb relids (used ids' rows) in
    let rest = closure_loop fuel views rows ids' relids' in
    if length ids == length ids' && length relids == length relids' then some ids' else rest

-- A round that is not the last finds a row of which one side is new.
unfoldable pub closure_fuel : List ViewRelation → ℕ
closure_fuel rows = suc (length rows + length rows)

-- The ids, from the view's own and the relations of its specification.
unfoldable pub refresh_closure : List ViewRow → List ViewRelation → ℕ → ViewSpec → Option (List ℕ)
refresh_closure views rows id spec =
    closure_loop (closure_fuel rows) views rows (id ∷ [])
      (extend ◌==◌ ltb [] (map (λ r. r.oid) spec.relations))
