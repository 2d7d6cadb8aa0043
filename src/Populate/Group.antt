-- ===== src/Populate/Group.antt =====
-- `load_pending` and `group` of src/populate.rs: the views to build, and which are built together.
use nabla.Base.{
  ℕ, List, [], ◌∷◌, ◌++◌, map, Option, none, some, Bool, true, false, not, ◌&&◌, Text, position,
  get_elem?, set, ltb, ◌==◌, if◌then◌else◌,
}
use nabla.Base.Sets
use nabla.Definition.Types.{ViewSpec, is_join}
use nabla.Worker.Types.{Status, ViewRow}

pub record Pending : Type 0 where
  pub id : ℕ
  pub name : Text
  pub status : Status
  pub definition : Text
  pub spec : ViewSpec
  pub populated : Bool

unfoldable pub is_pending : Status → Bool
is_pending Status.initializing = true
is_pending Status.refreshing = true
is_pending Status.live = false
is_pending Status.stale = false
is_pending Status.failed = false

unfoldable pub is_refreshing : Status → Bool
is_refreshing Status.initializing = false
is_refreshing Status.refreshing = true
is_refreshing Status.live = false
is_refreshing Status.stale = false
is_refreshing Status.failed = false

unfoldable pub pending_of : ViewRow → ViewSpec → Pending
pending_of r spec = record {
  id = r.id;
  name = r.name;
  status = r.status;
  definition = r.definition;
  spec = spec;
  populated = r.populated;
}

-- The rows are in the order of their ids; a document that is no specification is passed over.
unfoldable pub load_pending : List ViewRow → List Pending
load_pending [] = []
load_pending (r ∷ rows) =
    let rest = load_pending rows in
    if is_pending r.status
    then elim r.spec [ none ↦ rest | some spec ↦ pending_of r spec ∷ rest ]
    else rest

-- A refreshing join view shares its shadows' snapshot with others.
unfoldable pub is_shared : Pending → Bool
is_shared view = is_refreshing view.status && is_join view.spec

unfoldable pub relids_of : ViewSpec → List ℕ
relids_of spec = Sets.extend ◌==◌ ltb [] (map (λ r. r.oid) spec.relations)

-- A group with its relations: the vectors `groups` and `group_rels`.
abbrev pub Group : Type 0
Group = List Pending × List ℕ

-- The first group that has one of the relations.
unfoldable pub target_of : Pending → List Group → Option ℕ
target_of view groups =
    if is_shared view
    then position (λ g. not (Sets.is_disjoint ◌==◌ g.1 (relids_of view.spec))) groups
    else none

unfoldable pub join_group : Pending → Group → Group
join_group view g = (g.0 ++ view ∷ [], Sets.extend ◌==◌ ltb g.1 (relids_of view.spec))

unfoldable pub new_group : Pending → Group
new_group view = (view ∷ [], if is_shared view then relids_of view.spec else [])

-- The group at an index, which `position` has found.
unfoldable pub join_at : ℕ → Pending → List Group → List Group
join_at i view groups = elim (get_elem? groups i) [
  | none ↦ groups
  | some g ↦ set groups i (join_group view g)
]

unfoldable pub add_view : List Group → Pending → List Group
add_view groups view = elim (target_of view groups) [
  | some i ↦ join_at i view groups
  | none ↦ groups ++ new_group view ∷ []
]

unfoldable pub group_loop : List Group → List Pending → List Group
group_loop groups [] = groups
group_loop groups (view ∷ pending) = group_loop (add_view groups view) pending

unfoldable pub group : List Pending → List (List Pending)
group pending = map {A = Group} (λ g. g.0) (group_loop [] pending)
