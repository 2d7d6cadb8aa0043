-- ===== src/Worker/Outcome.antt =====
-- What phase 2 of `apply_round` in src/worker.rs does to one view, as one of four outcomes.
use nabla.Base.{
  ℕ, ◌≤◌, ◌<◌, ◌≡◌, ◌⊎◌, inl, inr, refl, sym, subst, List, [], Option, none, some, true, false,
  Text, ok, err, leb, arith, Bool-cases, Option-cases, Result-cases,
}
use nabla.Pgoutput.Types.{SourceTransaction}
use nabla.Apply.Types.{Delta}
use nabla.Apply.Actions.{pure, bind, in_subtransaction}
use nabla.Apply.Net.{net}
use nabla.Apply.Execute.{execute}
use nabla.Worker.Types.{Host, Settings, Catalog, LiveView, Tracked}
use nabla.Worker.Catalog.{mark_stale}
use nabla.Worker.Steps.{absorb_deltas}
use nabla.Worker.Planning.{target}
use nabla.Worker.Executing.{fail_view, settle, write_ops, execute_ops, execute_view}

-- A view without plans.
abbrev pub settled : LiveView → LiveView
settled view = record view { ops = []; failed = none; stale = none }

abbrev pub without_plans : Tracked → Tracked
without_plans s = record s { view = settled s.view }

abbrev pub not_stale : Tracked → Tracked
not_stale s = record s { view = record s.view { stale = none; dead = true } }

module _ (host : Host) (settings : Settings) (ti : ℕ) (tx : SourceTransaction) where
  open host use {spi, json}
  open spi use {Tables}

  -- A view that is dead or has absorbed the transaction is skipped; one that planning found stale
  -- is marked; one that failed to plan or to execute is recorded as failed, its writes undone; any
  -- other view absorbs the netted deltas of its planned rows.
  pub data Outcome (s : Tracked) (cat : Catalog) (tables : Tables) (blocked : Option ℕ)
      (r : (Tracked × (Catalog × Option ℕ)) × Tables) : Type 0 where
    skipped :
        (s.view.dead ≡ true) ⊎ (tx.end_lsn ≤ s.view.frontier)
        → r ≡ ((s, (cat, blocked)), tables)
        → Outcome s cat tables blocked r
    marked :
        (reason : Text)
        → s.view.stale ≡ some reason
        → r ≡ ((not_stale s, (mark_stale s.view reason cat, blocked)), tables)
        → Outcome s cat tables blocked r
    failed :
        (message : Text) (t : Tracked)
        → without_plans t ≡ without_plans s
        → r ≡ (fail_view host settings ti message t cat blocked, tables)
        → Outcome s cat tables blocked r
    absorbed :
        (written : List Delta) (tables' : Tables)
        → s.view.dead ≡ false
        → s.view.frontier < tx.end_lsn
        → execute spi (target s.view) s.view.ops tables ≡ ok (written, tables')
        → r ≡ ((absorb_deltas tx (net json s.view.spec written) s, (cat, blocked)), tables')
        → Outcome s cat tables blocked r

  write_ops_ok :
      (view : LiveView) (tables : Tables) {written : List Delta} {tables' : Tables}
      → execute spi (target view) view.ops tables ≡ ok (written, tables')
      → write_ops host view tables ≡ (ok (net json view.spec written), tables')
  unfolding write_ops in_subtransaction bind pure
  write_ops_ok view tables e = rw (e, write_ops, in_subtransaction, bind, pure)

  write_ops_err :
      (view : LiveView) (tables : Tables) {message : Text}
      → execute spi (target view) view.ops tables ≡ err message
      → write_ops host view tables ≡ (err message, tables)
  unfolding write_ops in_subtransaction bind pure
  write_ops_err view tables e = rw (e, write_ops, in_subtransaction, bind, pure)

  execute_ops-Outcome :
      (s : Tracked) (cat : Catalog) (tables : Tables) (blocked : Option ℕ)
      → s.view.dead ≡ false
      → s.view.frontier < tx.end_lsn
      → Outcome s cat tables blocked (execute_ops host settings ti tx s cat tables blocked)
  unfolding execute_ops settle
  execute_ops-Outcome s cat tables blocked alive late =
      elim (Result-cases (execute spi (target s.view) s.view.ops tables)) [
        | inl ((written, tables'), e) ↦
            absorbed written tables' alive late e (rw (write_ops_ok s.view tables e))
        | inr (message, e) ↦
            failed message (record s { view = record s.view { ops = [] } }) refl
              (rw (write_ops_err s.view tables e))
      ]

  -- One of the four outcomes is what happens.
  pub execute_view-Outcome :
      (s : Tracked) (cat : Catalog) (tables : Tables) (blocked : Option ℕ)
      → Outcome s cat tables blocked (execute_view host settings ti tx s cat tables blocked)
  unfolding execute_view
  execute_view-Outcome s cat tables blocked = elim (Bool-cases s.view.dead) [
    | inl e ↦ skipped (inl e) (rw e)
    | inr e ↦ elim (Bool-cases (leb tx.end_lsn s.view.frontier)) [
      | inl f ↦ skipped (inr (ground arith)) (simp (e, f))
      | inr f ↦ elim (Option-cases s.view.stale) [
        | inr (reason, g) ↦ marked reason g (simp (e, f, g))
        | inl g ↦ elim (Option-cases s.view.failed) [
          | inr (message, h) ↦
              failed message (record s { view = record s.view { failed = none } }) refl
                (simp (e, f, g, h))
          | inl h ↦
              let runs : execute_view host settings ti tx s cat tables blocked
                  ≡ execute_ops host settings ti tx s cat tables blocked =
                simp (e, f, g, h) in
              subst (Outcome s cat tables blocked) (sym runs)
                (execute_ops-Outcome s cat tables blocked e (ground arith))
        ]
      ]
    ]
  ]
