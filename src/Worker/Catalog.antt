-- ===== src/Worker/Catalog.antt =====
-- The catalog statements of src/worker.rs. Each is an UPDATE, an INSERT or a DELETE of the rows it
-- names; a server that fails one of them aborts the round, which then leaves nothing behind.
use nabla.Base.{
  ℕ, suc, ◌+◌, max, List, [], ◌∷◌, ◌++◌, map, none, some, Bool, true, false, Text, codes, concat,
  decimal, ◌==◌, leb, if◌then◌else◌,
}
use nabla.Definition.Types.{ViewSpec}
use nabla.Lsn
use nabla.Worker.Types.{
  Settings, Status, ViewRow, ShadowRow, DeltaRow, Catalog, LiveView, Shadow, PendingDelta,
}

-- `storage_name` of src/api.rs.
unfoldable pub storage_name : ℕ → Text
storage_name id = codes "nabla_store.v" ++ decimal id

unfoldable pub live_view : ViewRow → ViewSpec → LiveView
live_view r spec = record {
  id = r.id;
  name = r.name;
  storage = storage_name r.id;
  spec = spec;
  frontier = r.frontier_lsn;
  last_seq = r.last_seq;
  apply_failures = r.apply_failures;
  definition = r.definition;
  touched = false;
  ops = [];
  failed = none;
  stale = none;
  dead = false;
  failed_this_round = false;
}

unfoldable pub is_live : Status → Bool
is_live Status.live = true
is_live Status.initializing = false
is_live Status.refreshing = false
is_live Status.stale = false
is_live Status.failed = false

-- The rows are in the order of their ids.
unfoldable pub load_live_views : List ViewRow → List LiveView
load_live_views [] = []
load_live_views (r ∷ rows) =
    let views = load_live_views rows in
    if is_live r.status
    then elim r.spec [ none ↦ views | some spec ↦ live_view r spec ∷ views ]
    else views

unfoldable pub load_shadows : List ShadowRow → List Shadow
load_shadows rows =
    map
      (λ r. record {
        relid = r.relid;
        table = r.table_name;
        frontier = r.frontier_lsn;
        failed = r.failed;
        columns = r.columns;
        column_types = r.column_types;
        pk_columns = r.pk_columns;
        advanced = false;
      })
      rows

-- `UPDATE nabla.views SET .. WHERE id = ..` and the same of `nabla.shadows`.
unfoldable pub update_views : ℕ → (ViewRow → ViewRow) → Catalog → Catalog
update_views id f cat = record cat { views = map (λ r. if r.id == id then f r else r) cat.views }

unfoldable pub update_shadows : ℕ → (ShadowRow → ShadowRow) → Catalog → Catalog
update_shadows relid f cat = record cat {
  shadows = map (λ r. if r.relid == relid then f r else r) cat.shadows;
}

unfoldable pub mark_stale : LiveView → Text → Catalog → Catalog
mark_stale view reason cat =
    update_views view.id (λ r. record r { status = Status.stale; stale_reason = some reason }) cat

unfoldable pub failure_reason : ℕ → Text → Text
failure_reason failures message =
    concat (codes "apply failed " ∷ decimal failures ∷ codes " times: " ∷ message ∷ [])

-- The view and the catalog after a failed apply, and whether the view is still live.
unfoldable pub record_failure : Settings → LiveView → Text → Catalog → Bool × (LiveView × Catalog)
record_failure settings view message cat =
    let failures = suc view.apply_failures in
    if leb (max settings.max_apply_failures 1) failures
    then (
      false,
      (
        record view { apply_failures = failures; stale = some (failure_reason failures message) },
        update_views view.id
            (λ r. record r {
              status = Status.stale;
              stale_reason = some (failure_reason failures message);
              apply_failures = failures;
              last_error = some message;
            })
            cat,
      ),
    )
    else (
      true,
      (
        record view { apply_failures = failures },
        update_views view.id
            (λ r. record r { apply_failures = failures; last_error = some message }) cat,
      ),
    )

unfoldable pub shadow_failure_reason : Shadow → Text → Text
shadow_failure_reason shadow message =
    concat (codes "shadow " ∷ shadow.table ∷ codes " could not be maintained: " ∷ message ∷ [])

unfoldable pub record_shadow_failure : Shadow → Text → Catalog → Shadow × Catalog
record_shadow_failure shadow message cat = (
  record shadow { failed = true },
  update_shadows shadow.relid
      (λ r. record r { stale_reason = some (shadow_failure_reason shadow message); failed = true })
      cat,
)

-- The batches of 200 rows are one INSERT each, one after the other.
unfoldable pub insert_deltas : ℕ → List PendingDelta → Catalog → Catalog
insert_deltas view_id ds cat = record cat {
  deltas =
      cat.deltas
      ++ map
          (λ d. record {
            view_id = view_id;
            seq = d.seq;
            lsn = d.lsn;
            xid = d.xid;
            op = d.op;
            row = d.row_json;
          })
          ds;
}

-- `DELETE .. WHERE view_id = $1 AND seq <= last_seq - retain`, with the difference a signed number.
unfoldable pub collect_garbage : ℕ → ℕ → ℕ → List DeltaRow → List DeltaRow
collect_garbage view_id last_seq retain [] = []
collect_garbage view_id last_seq retain (d ∷ ds) =
    let kept = collect_garbage view_id last_seq retain ds in
    if d.view_id == view_id
    then (if leb (d.seq + retain) last_seq then kept else d ∷ kept)
    else d ∷ kept

-- The message for the listeners of a view.
unfoldable pub notification : LiveView → PendingDelta → Text × Text
notification view last =
    (codes "nabla:" ++ view.name, concat (decimal last.seq ∷ codes ":" ∷ Lsn.format last.lsn ∷ []))
