-- ===== src/Worker/Phases.antt =====
-- The first phase of `apply_round` in src/worker.rs: every change of a source transaction is planned for every view.
use nabla.Base.{
  ℕ, List, [], ◌∷◌, Option, none, some, Bool, true, false, not, ◌||◌, Text, Result, ok, err, ◌>>=◌,
  ok_or, codes, if◌then◌else◌,
}
use nabla.Pgoutput.Types.{Relation, Tuple, Change, SourceTransaction}
use nabla.Apply.Actions.{in_subtransaction}
use nabla.Apply.Resolve.{resolve_unchanged}
use nabla.Worker.Types.{Host, Catalog, LiveView, Shadow, Tracked}
use nabla.Worker.Views.{active_for, is_none}
use nabla.Worker.Catalog.{record_shadow_failure}
use nabla.Worker.Shadows.{shadow_old_row, shadow_apply}
use nabla.Worker.Planning.{plan_change}
use nabla.Worker.Steps.{
  change_relids, put_shadow, active_shadow, reads_old_row, decoded_old, decoded_new,
  record_shadow_failure_for_views, note_planned, old_row_reason, lost_old_row,
}

module _ (host : Host) where
  open host use {spi, json}
  open spi use {Tables}

  -- The state of a round: the views and shadows in memory, the catalog, the tables, and the index
  -- of the first transaction that some live view could not absorb.
  pub record Round : Type 0 where
    pub slots : List Tracked
    pub shadows : List Shadow
    pub catalog : Catalog
    pub tables : Tables
    pub blocked_at : Option ℕ

  unfoldable pub plan_view :
      SourceTransaction
      → ℕ
      → Relation
      → Change
      → Option Tuple
      → Option Text
      → LiveView
      → Tables
      → LiveView × Tables
  plan_view tx relid rel change old_full shadow_error view tables =
      let planned = in_subtransaction spi (plan_change host view rel change old_full) tables in
      if view.dead || not (active_for view relid tx.end_lsn)
      then (view, tables)
      else elim (lost_old_row view shadow_error) [
        | some e ↦ (record view { stale = some (old_row_reason rel e) }, tables)
        | none ↦ (note_planned planned.0 view, planned.1)
      ]

  unfoldable pub plan_views :
      SourceTransaction
      → ℕ
      → Relation
      → Change
      → Option Tuple
      → Option Text
      → List Tracked
      → Tables
      → List Tracked × Tables
  plan_views tx relid rel change old_full shadow_error [] tables = ([], tables)
  plan_views tx relid rel change old_full shadow_error (s ∷ slots) tables =
      let one = plan_view tx relid rel change old_full shadow_error s.view tables in
      let rest = plan_views tx relid rel change old_full shadow_error slots one.1 in
      (record s { view = one.0 } ∷ rest.0, rest.1)

  -- The old row from the shadow, or why it could not be read.
  unfoldable pub read_old_row :
      Option Shadow → Relation → Change → Tables → (Option Tuple × Option Text) × Tables
  read_old_row none rel change tables = ((none, none), tables)
  read_old_row (some shadow) rel change tables =
      let read =
        in_subtransaction spi
          (shadow_old_row spi shadow rel (decoded_old change) (decoded_new change)) tables in
      if not (reads_old_row change)
      then ((none, none), tables)
      else elim read.0 [ ok row ↦ ((some row, none), read.1) | err e ↦ ((none, some e), read.1) ]

  -- The new row for the shadow, where the change has one. An unchanged value that the old row does
  -- not give makes an update have none.
  unfoldable pub new_row : Relation → Change → Option Tuple → Result Text (Option Tuple)
  new_row rel (Change.insert relid new) old_full = ok (some new)
  new_row rel (Change.update relid old new) old_full =
      ok_or (resolve_unchanged rel new old_full (λ _. true)) (codes "index out of bounds") >>= λ r.
      elim r [ err s ↦ ok none | ok t ↦ ok (some t) ]
  new_row rel (Change.delete relid kind old) old_full = ok none
  new_row rel (Change.truncate relids) old_full = ok none

  unfoldable pub lacks_new_row : Change → Option Tuple → Bool
  lacks_new_row (Change.insert relid new) row = false
  lacks_new_row (Change.update relid old new) row = is_none row
  lacks_new_row (Change.delete relid kind old) row = false
  lacks_new_row (Change.truncate relids) row = false

  unfoldable pub shadow_outcome :
      Shadow
      → Relation
      → Change
      → Option Tuple
      → Option Text
      → Option Tuple
      → Tables
      → Result Text (Unit {0}) × Tables
  shadow_outcome shadow rel change old_full (some e) new_full tables = (err e, tables)
  shadow_outcome shadow rel change old_full none new_full tables =
      let applied =
        in_subtransaction spi (shadow_apply spi shadow rel change old_full new_full) tables in
      if lacks_new_row change new_full
      then (err (codes "unchanged TOAST value could not be recovered from the shadow"), tables)
      else applied

  unfoldable pub note_outcome :
      ℕ → Relation → Shadow → Result Text (Unit {0}) × Tables → Round → Round
  note_outcome relid rel shadow (ok _, tables) st = record st { tables = tables }
  note_outcome relid rel shadow (err message, tables) st =
      let failure = record_shadow_failure shadow message st.catalog in
      record st {
        tables = tables;
        shadows = put_shadow failure.0 st.shadows;
        catalog = failure.1;
        slots = record_shadow_failure_for_views relid rel message st.slots;
      }

  -- The change applied to the shadow, after the views.
  unfoldable pub maintain_shadow :
      ℕ → Relation → Change → Option Shadow → Option Tuple → Option Text → Round → Result Text Round
  maintain_shadow relid rel change none old_full shadow_error st = ok st
  maintain_shadow relid rel change (some shadow) old_full shadow_error st =
      new_row rel change old_full >>= λ new_full. ok (
        note_outcome relid rel shadow
          (shadow_outcome shadow rel change old_full shadow_error new_full st.tables) st)

  -- One relation of one change.
  unfoldable pub plan_relation :
      (ℕ → Option Relation) → SourceTransaction → Change → ℕ → Round → Result Text Round
  plan_relation relations tx change relid st =
      ok_or (relations relid) (codes "no entry found for key") >>= λ rel.
      let shadow = active_shadow relid tx.end_lsn st.shadows in
      let old = read_old_row shadow rel change st.tables in
      let planned = plan_views tx relid rel change old.0.0 old.0.1 st.slots old.1 in
      maintain_shadow relid rel change shadow old.0.0 old.0.1
        (record st { slots = planned.0; tables = planned.1 })

  unfoldable pub plan_relations :
      (ℕ → Option Relation) → SourceTransaction → Change → List ℕ → Round → Result Text Round
  plan_relations relations tx change [] st = ok st
  plan_relations relations tx change (relid ∷ relids) st =
      plan_relation relations tx change relid st >>= plan_relations relations tx change relids

  -- Phase 1.
  unfoldable pub plan_changes :
      (ℕ → Option Relation) → SourceTransaction → List Change → Round → Result Text Round
  plan_changes relations tx [] st = ok st
  plan_changes relations tx (change ∷ changes) st =
      plan_relations relations tx change (change_relids change) st
      >>= plan_changes relations tx changes
