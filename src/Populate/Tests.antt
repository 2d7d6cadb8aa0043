-- ===== src/Populate/Tests.antt =====
-- Runs of src/populate.rs, and the theorems at concrete inputs.
use nabla.Base.{ℕ, ◌≡◌, refl, [], ◌∷◌, All, some, true, false, Text, Result, ok, err, codes}
use nabla.Base.Sets
use mathlib.Core.List.{Perm}
use nabla.Definition.Types.{BaseRelation, ViewSpec, is_join}
use nabla.Worker.Types.{Status, ViewRow}
use nabla.Worker.Sample.{counter, orders_base, orders_spec, view_row}
use nabla.Shadow.Server.{Server, State}
use nabla.Populate.Group.{
  Pending, is_pending, is_shared, is_refreshing, load_pending, pending_of, relids_of, group,
}
use nabla.Populate.Build.{run_sql, fill_storage, build_spec, build}
use nabla.Populate.Run.{Snapshot, build_all, check_slot, populate_group, run_pending}
use nabla.Populate.Goodness.{IsGood}
use nabla.Populate.Grouping.{flatten, IsAloneOrShared, group-Perm}
use nabla.Populate.Splitting.{group-splits}
use nabla.Populate.Outcomes.{IsBuiltAt, IsWithin, populate_group-IsBuiltAt}
use nabla.Populate.Pending.{IsBuilt, run_pending-IsBuilt}

abbrev base : ℕ → BaseRelation
base oid = record orders_base { oid = oid }

abbrev join_spec : ℕ → ℕ → ViewSpec
join_spec a b = record orders_spec { relations = base a ∷ base b ∷ [] }

-- A join view that waits for a rebuild.
abbrev waiting : ℕ → ℕ → ℕ → Pending
waiting id a b = record {
  id = id;
  name = codes "public.joined";
  status = Status.refreshing;
  definition = codes "SELECT 1";
  spec = join_spec a b;
  populated = true;
}

abbrev first : Pending
first = waiting 1 16 17

abbrev second : Pending
second = waiting 2 18 19

abbrev third : Pending
third = waiting 3 17 18

group-Perm_example :
    Perm (flatten (group (first ∷ second ∷ third ∷ []))) (first ∷ second ∷ third ∷ [])
    × All IsAloneOrShared (group (first ∷ second ∷ third ∷ []))
group-Perm_example = group-Perm (first ∷ second ∷ third ∷ [])

group-splits_example :
    group (first ∷ second ∷ third ∷ []) ≡ (first ∷ third ∷ []) ∷ (second ∷ []) ∷ []
unfolding is_shared is_refreshing is_join relids_of Sets.is_disjoint Sets.extend Sets.insert
    Sets.place Sets.member
group-splits_example = group-splits first second third refl refl refl refl refl refl

-- A database whose statements all succeed.
abbrev server : Server
server = record {
  spi = counter;
  columns_of = λ tables oid. (codes "id", codes "int4") ∷ [];
  oid_of = λ tables name. some 900;
  record_dependency = λ dependent referenced tables. tables;
  validate = λ tables definition. ok orders_spec;
}

abbrev initializing : ViewRow
initializing = record (view_row 0) { status = Status.initializing; populated = false }

abbrev state : State server
state = record {
  catalog = record {
    views = initializing ∷ [];
    shadows = [];
    view_relations = record { view_id = 1; relid = 16; rti = 1 } ∷ [];
    deltas = [];
    notifications = [];
  };
  tables = 0;
}

abbrev snapshot : Snapshot server
snapshot = record { point = ok 90; main_slot = some 80 }

abbrev built : Result Text (ℕ × State server)
built = populate_group server (load_pending state.catalog.views) snapshot state

abbrev built_state : State server
built_state = elim built [ ok r ↦ r.1 | err e ↦ state ]

builds :
    populate_group server (load_pending state.catalog.views) snapshot state ≡ ok (90, built_state)
unfolding populate_group check_slot build_all load_pending is_pending build run_sql is_refreshing
    pending_of build_spec is_join fill_storage
builds = refl

populate_group-IsBuiltAt_example :
    IsWithin (some 80) 90
    × All (λ v. IsGood (IsBuiltAt 90) v.id built_state.catalog) (load_pending state.catalog.views)
populate_group-IsBuiltAt_example =
    populate_group-IsBuiltAt server (load_pending state.catalog.views) snapshot state built_state 90
      builds

run_pending-IsBuilt_example :
    All
      (IsBuilt (run_pending server (λ turn. snapshot) state).1.catalog)
      (load_pending state.catalog.views)
run_pending-IsBuilt_example = run_pending-IsBuilt server (λ turn. snapshot) state
