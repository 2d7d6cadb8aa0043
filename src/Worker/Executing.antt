-- ===== src/Worker/Executing.antt =====
-- The second phase of `apply_round` in src/worker.rs: every view's planned rows are executed.
use nabla.Base.{
  ℕ, suc, List, [], ◌∷◌, map, Option, none, some, Bool, true, ◌||◌, Text, Result, ok, err, ◌>>=◌,
  leb, if◌then◌else◌,
}
use nabla.Pgoutput.Types.{Relation, SourceTransaction}
use nabla.Apply.Types.{Delta}
use nabla.Apply.Actions.{pure, bind, in_subtransaction}
use nabla.Apply.Net.{net}
use nabla.Apply.Execute.{execute}
use nabla.Worker.Types.{Host, Settings, Catalog, LiveView, Tracked}
use nabla.Worker.Catalog.{mark_stale, record_failure}
use nabla.Worker.Planning.{target}
use nabla.Worker.Steps.{absorb_deltas, block_at, advance_shadow}
use nabla.Worker.Phases.{Round, plan_changes}

module _ (host : Host) where
  open host use {spi, json}
  open spi use {Tables}

  -- A view that failed, with its failure in the catalog.
  unfoldable pub note_failure :
      ℕ → Tracked → Option ℕ → Bool × (LiveView × Catalog) → Tracked × (Catalog × Option ℕ)
  note_failure ti s blocked (retry, (view, cat)) = (
    record s { view = record view { failed_this_round = true; dead = true } },
    (cat, block_at ti retry blocked),
  )

  unfoldable pub fail_view :
      Settings → ℕ → Text → Tracked → Catalog → Option ℕ → Tracked × (Catalog × Option ℕ)
  fail_view settings ti message s cat blocked =
      note_failure ti s blocked (record_failure settings s.view message cat)

  -- What the outcome of the subtransaction makes of the view.
  unfoldable pub settle :
      Settings
      → ℕ
      → SourceTransaction
      → Tracked
      → Catalog
      → Option ℕ
      → Result Text (List Delta) × Tables
      → (Tracked × (Catalog × Option ℕ)) × Tables
  settle settings ti tx s cat blocked (ok deltas, tables) =
      ((absorb_deltas tx deltas s, (cat, blocked)), tables)
  settle settings ti tx s cat blocked (err message, tables) = (
    fail_view settings ti message (record s { view = record s.view { ops = [] } }) cat blocked,
    tables,
  )

  -- A view that planned every change: its rows are written and netted in one subtransaction.
  unfoldable pub write_ops : LiveView → Tables → Result Text (List Delta) × Tables
  write_ops view tables =
      in_subtransaction spi
        (bind spi (execute spi (target view) view.ops)
          (λ deltas. pure spi (net json view.spec deltas)))
        tables

  unfoldable pub execute_ops :
      Settings
      → ℕ
      → SourceTransaction
      → Tracked
      → Catalog
      → Tables
      → Option ℕ
      → (Tracked × (Catalog × Option ℕ)) × Tables
  execute_ops settings ti tx s cat tables blocked =
      settle settings ti tx s cat blocked (write_ops s.view tables)

  unfoldable pub execute_view :
      Settings
      → ℕ
      → SourceTransaction
      → Tracked
      → Catalog
      → Tables
      → Option ℕ
      → (Tracked × (Catalog × Option ℕ)) × Tables
  execute_view settings ti tx s cat tables blocked =
      if s.view.dead || leb tx.end_lsn s.view.frontier
      then ((s, (cat, blocked)), tables)
      else elim s.view.stale [
        | some reason ↦ (
          (
            record s { view = record s.view { stale = none; dead = true } },
            (mark_stale s.view reason cat, blocked),
          ),
          tables,
        )
        | none ↦ elim s.view.failed [
          | some message ↦ (
            fail_view settings ti message (record s { view = record s.view { failed = none } }) cat
                blocked,
            tables,
          )
          | none ↦ execute_ops settings ti tx s cat tables blocked
        ]
      ]

  unfoldable pub execute_views :
      Settings
      → ℕ
      → SourceTransaction
      → List Tracked
      → Catalog
      → Tables
      → Option ℕ
      → (List Tracked × (Catalog × Option ℕ)) × Tables
  execute_views settings ti tx [] cat tables blocked = (([], (cat, blocked)), tables)
  execute_views settings ti tx (s ∷ slots) cat tables blocked =
      let one = execute_view settings ti tx s cat tables blocked in
      let rest = execute_views settings ti tx slots one.0.1.0 one.1 one.0.1.1 in
      ((one.0.0 ∷ rest.0.0, rest.0.1), rest.1)

  -- Phase 2.
  unfoldable pub execute_transaction : Settings → ℕ → SourceTransaction → Round host → Round host
  execute_transaction settings ti tx st =
      let done = execute_views settings ti tx st.slots st.catalog st.tables st.blocked_at in
      record {
        slots = done.0.0;
        shadows = map (advance_shadow tx.end_lsn) st.shadows;
        catalog = done.0.1.0;
        tables = done.1;
        blocked_at = done.0.1.1;
      }

  unfoldable pub apply_transaction :
      Settings
      → (ℕ → Option Relation)
      → ℕ
      → SourceTransaction
      → Round host
      → Result Text (Round host)
  apply_transaction settings relations ti tx st =
      plan_changes host relations tx tx.changes st >>= λ planned.
      ok (execute_transaction settings ti tx planned)

  -- The transactions from index `ti` on.
  unfoldable pub apply_transactions :
      Settings
      → (ℕ → Option Relation)
      → ℕ
      → List SourceTransaction
      → Round host
      → Result Text (Round host)
  apply_transactions settings relations ti [] st = ok st
  apply_transactions settings relations ti (tx ∷ txs) st =
      apply_transaction settings relations ti tx st
      >>= apply_transactions settings relations (suc ti) txs
