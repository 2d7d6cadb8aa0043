-- ===== src/Worker/Tests.antt =====
-- Runs of a round of src/worker.rs, and the theorems at concrete inputs.
use nabla.Base.{
  ℕ, ◌≤◌, ◌≡◌, inr, refl, List, [], ◌∷◌, All, none, some, ok, err, arith, position, ◌⊎◌, any, true,
  false, text_eq, codes,
}
use nabla.Pgoutput.Types.{SourceTransaction, text}
use nabla.Worker.Types.{Tracked, Shadow}
use nabla.Worker.Shadows.{shadow_drift}
use nabla.Worker.Catalog.{load_live_views, live_view, is_live, storage_name, load_shadows}
use nabla.Worker.Views.{
  base_relation, touches_used_columns, column_changed, value_changed, same_value, active_for,
  relation_index, is_none,
}
use nabla.Worker.Steps.{change_relids, find_shadow, active_shadow, note_planned, lost_old_row}
use nabla.Worker.Planning.{plan_change, plan_single_change, with_resolved, then_ops}
use nabla.Worker.Phases.{
  Round, plan_view, plan_views, read_old_row, maintain_shadow, plan_relation, plan_relations,
  plan_changes,
}
use nabla.Worker.Executing.{execute_transaction, apply_transaction, apply_transactions}
use nabla.Worker.Round.{
  track, start, lookup, remember, known_relation, resolve_types, resolve_columns, resolve_column,
  resolve_relid, resolve_relids, resolve_changes, resolve_transactions, Resolved, apply_round,
}
use nabla.Worker.Poll.{Observed, WorkerState, World, hold_slot, poll}
use nabla.Worker.Coverage.{Covered}
use nabla.Worker.NoLoss.{apply_transactions-Covered}
use nabla.Worker.Numbering.{AllContinue, apply_transactions-AllContinue}
use nabla.Worker.Monotone.{IsSlotPast, poll-IsSlotPast}
use nabla.Worker.Drift.{IsDriftHandled, shadow_drift-AreProvided}
use nabla.Worker.Usage.{IsSameColumn, touches_used_columns-IsSameColumn}
use nabla.Worker.Holding.{hold_slot-Reaches}
use nabla.Worker.Replay.{apply_round-replay}
use nabla.Apply.Actions.{pure, lift, bind, in_subtransaction, or_panic}
use nabla.Apply.Resolve.{resolve_unchanged, resolve_from, resolve_value, is_unchanged}
use nabla.Apply.Sql.{
  rel_column_index, returning_text, first_texts, values_source, casts_and_names, row_args, row_arg,
}
use nabla.Apply.Plan.{plan_single_insert, delta_rows}
use nabla.Definition.Types.{is_join}
use nabla.Worker.Sample.{
  host, settings, relations, catalog, inserted, emptied, view_row, orders, orders_spec, orders_base,
}

abbrev before : Round host
before = start host (catalog 10) 0

-- The round with an insert and then a TRUNCATE.
abbrev txs : List SourceTransaction
txs = inserted 50 ∷ emptied 70 ∷ []

abbrev finished : Round host
finished = elim (apply_transactions host settings relations 0 txs before) [
  | ok st ↦ st
  | err e ↦ before
]

runs : apply_transactions host settings relations 0 txs before ≡ ok finished
unfolding apply_transactions apply_transaction plan_changes change_relids plan_relations
    plan_relation start load_live_views live_view is_live storage_name load_shadows track
    active_shadow find_shadow read_old_row plan_views plan_view maintain_shadow execute_transaction
    active_for relation_index position is_none plan_change is_join plan_single_change with_resolved
    then_ops in_subtransaction bind pure lift or_panic resolve_unchanged resolve_from resolve_value
    is_unchanged plan_single_insert delta_rows returning_text first_texts values_source
    casts_and_names row_args row_arg note_planned lost_old_row
runs = refl

apply_transactions-Covered_example :
    All (Covered (50 ∷ 70 ∷ []) finished.catalog.views finished.blocked_at) finished.slots
unfolding start load_live_views live_view is_live track
apply_transactions-Covered_example =
    apply_transactions-Covered host settings relations txs before finished (refl, tt) refl runs

-- A view that has absorbed the insert and must retry the TRUNCATE.
abbrev halfway : Tracked
halfway = track (live_view (view_row 60) orders_spec)

hold_slot-Reaches_example : (to : ℕ) × (hold_slot 1 txs (some 30) ≡ some to) × (to ≤ 60) × (30 ≤ to)
unfolding live_view track
hold_slot-Reaches_example = hold_slot-Reaches halfway 1 txs 30 (omega arith, tt)

abbrev nothing_resolved : Resolved
nothing_resolved = record { known = relations; relations = [] }

abbrev resolved : Resolved
resolved = elim (resolve_transactions host txs nothing_resolved) [
  | ok r ↦ r
  | err e ↦ nothing_resolved
]

resolves : resolve_transactions host txs nothing_resolved ≡ ok resolved
unfolding resolve_transactions resolve_changes resolve_relids resolve_relid change_relids lookup
    known_relation resolve_types resolve_columns resolve_column remember
resolves = refl

apply_round-replay_example :
    apply_round host settings relations txs (catalog 100) 3
    ≡ ok (record {
      known = resolved.known;
      catalog = catalog 100;
      tables = 3;
      stats = record { deltas = 0; processed = 2; blocked_at = none };
    })
apply_round-replay_example =
    apply_round-replay host settings relations txs (catalog 100) 3 resolved resolves
      (((inr (omega arith), tt), tt), (((inr (omega arith), tt), tt), tt))

apply_transactions-AllContinue_example : AllContinue before.slots finished.slots
apply_transactions-AllContinue_example =
    apply_transactions-AllContinue host settings relations 0 txs before finished runs

-- An idle poll: the log has grown, and the slot has no message.
abbrev quiet : Observed
quiet = record { lag_exceeded = false; target = 100; rows = []; flush_after = 120 }

abbrev fresh : WorkerState
fresh = record {
  decoder = record { relations = relations; current = none; complete = [] };
  self_flush = 0;
  last_advance = 0;
}

abbrev world : World host
world = record {
  catalog = catalog 30;
  tables = 0;
  slot = some 30;
  shared = record { window = record { from = 0; to = 0 }; initialized = true };
}

poll-IsSlotPast_example :
    ((quiet.lag_exceeded ≡ false) × IsSlotPast 30 (poll host settings quiet fresh world).1.1.slot)
    ⊎ ((quiet.lag_exceeded ≡ true) × ((poll host settings quiet fresh world).1.1.slot ≡ none))
poll-IsSlotPast_example = poll-IsSlotPast host settings quiet fresh world 30 refl

touches_used_columns-IsSameColumn_example :
    All (IsSameColumn orders (text (codes "7") ∷ []) (text (codes "7") ∷ [])) (codes "id" ∷ [])
unfolding live_view base_relation relation_index position touches_used_columns any column_changed
    rel_column_index text_eq value_changed same_value
touches_used_columns-IsSameColumn_example =
    touches_used_columns-IsSameColumn (live_view (view_row 10) orders_spec) 16 orders
      (text (codes "7") ∷ []) (text (codes "7") ∷ []) orders_base refl refl

-- A shadow that also lists a column which the table no longer has.
abbrev lagging_shadow : Shadow
lagging_shadow = record {
  relid = 16;
  table = codes "nabla.shadow_16";
  frontier = 10;
  failed = false;
  columns = codes "id" ∷ codes "note" ∷ [];
  column_types = codes "int4" ∷ codes "text" ∷ [];
  pk_columns = codes "id" ∷ [];
  advanced = false;
}

shadow_drift-AreProvided_example :
    IsDriftHandled
      (codes "id" ∷ [])
      orders
      (shadow_drift lagging_shadow orders (codes "public.orders") (catalog 10))
shadow_drift-AreProvided_example =
    shadow_drift-AreProvided lagging_shadow orders (codes "public.orders") (catalog 10)
