-- ===== src/Worker/Steps.antt =====
-- The small steps of `apply_round` in src/worker.rs, which the phases put together.
use nabla.Base.{
  ℕ, suc, ◌+◌, List, [], ◌∷◌, ◌++◌, map, Option, none, some, Bool, true, false, not, ◌&&◌, ◌||◌,
  Text, Result, ok, err, length, codes, concat, ◌==◌, ltb, if◌then◌else◌,
}
use nabla.Definition.Types.{is_join}
use nabla.Pgoutput.Types.{Relation, Tuple, Change, SourceTransaction}
use nabla.Apply.Types.{Planned, Delta}
use nabla.Worker.Types.{LiveView, Shadow, PendingDelta, Tracked}
use nabla.Worker.Views.{relation_index, is_none}
use nabla.Worker.Shadows.{old_tuple}

unfoldable pub change_relids : Change → List ℕ
change_relids (Change.insert relid new) = relid ∷ []
change_relids (Change.update relid old new) = relid ∷ []
change_relids (Change.delete relid kind old) = relid ∷ []
change_relids (Change.truncate relids) = relids

-- `shadows.get(&relid)`.
unfoldable pub find_shadow : ℕ → List Shadow → Option Shadow
find_shadow relid [] = none
find_shadow relid (s ∷ shadows) =
    let rest = find_shadow relid shadows in if s.relid == relid then some s else rest

unfoldable pub put_shadow : Shadow → List Shadow → List Shadow
put_shadow s shadows = map (λ t. if t.relid == s.relid then s else t) shadows

unfoldable pub absorbs : Shadow → ℕ → Bool
absorbs s end_lsn = not s.failed && ltb s.frontier end_lsn

-- The shadow that a transaction is still to be applied to.
unfoldable pub active_shadow : ℕ → ℕ → List Shadow → Option Shadow
active_shadow relid end_lsn shadows = elim (find_shadow relid shadows) [
  | none ↦ none
  | some s ↦ if absorbs s end_lsn then some s else none
]

unfoldable pub reads_old_row : Change → Bool
reads_old_row (Change.insert relid new) = false
reads_old_row (Change.update relid old new) = true
reads_old_row (Change.delete relid kind old) = true
reads_old_row (Change.truncate relids) = false

unfoldable pub decoded_old : Change → Option Tuple
decoded_old (Change.insert relid new) = none
decoded_old (Change.update relid old new) = old_tuple old
decoded_old (Change.delete relid kind old) = some old
decoded_old (Change.truncate relids) = none

unfoldable pub decoded_new : Change → Option Tuple
decoded_new (Change.insert relid new) = none
decoded_new (Change.update relid old new) = some new
decoded_new (Change.delete relid kind old) = none
decoded_new (Change.truncate relids) = none

unfoldable pub record_shadow_failure_for_view : ℕ → Relation → Text → LiveView → LiveView
record_shadow_failure_for_view relid rel message view =
    if is_join view.spec
      && not (is_none (relation_index view relid))
      && is_none view.stale
      && not view.dead
    then record view {
      stale = some (
          concat
            (codes "shadow of " ∷ rel.name ∷ codes " could not be maintained: " ∷ message ∷ []));
    }
    else view

unfoldable pub record_shadow_failure_for_views : ℕ → Relation → Text → List Tracked → List Tracked
record_shadow_failure_for_views relid rel message slots =
    map {A = Tracked}
      (λ s. record s { view = record_shadow_failure_for_view relid rel message s.view }) slots

-- What planning makes of a view.
unfoldable pub note_planned : Result Text Planned → LiveView → LiveView
note_planned (ok (Planned.ops rows)) view = record view { ops = view.ops ++ rows }
note_planned (ok (Planned.stale s)) view = record view { stale = some s.reason }
note_planned (err message) view = record view { failed = some message }

unfoldable pub old_row_reason : Relation → Text → Text
old_row_reason rel e =
    concat (codes "shadow of " ∷ rel.name ∷ codes " could not provide the old row: " ∷ e ∷ [])

-- Join views cannot go on without the old row.
unfoldable pub lost_old_row : LiveView → Option Text → Option Text
lost_old_row view none = none
lost_old_row view (some e) = if is_join view.spec then some e else none

-- The netted deltas of a transaction, numbered from the view's last sequence number on.
unfoldable pub number_deltas : SourceTransaction → ℕ → List Delta → List PendingDelta
number_deltas tx last_seq [] = []
number_deltas tx last_seq (d ∷ ds) =
    record { seq = suc last_seq; lsn = tx.end_lsn; xid = tx.xid; op = d.op; row_json = d.row_json }
    ∷ number_deltas tx (suc last_seq) ds

unfoldable pub absorb_deltas : SourceTransaction → List Delta → Tracked → Tracked
absorb_deltas tx deltas s = record {
  view = record s.view {
    ops = [];
    last_seq = s.view.last_seq + length deltas;
    touched = s.view.touched || not (length deltas == 0);
    frontier = tx.end_lsn;
  };
  pending = s.pending ++ number_deltas tx s.view.last_seq deltas;
  absorbed = some tx.end_lsn;
}

-- `blocked_at.get_or_insert(ti)`, if the view is still live.
unfoldable pub block_at : ℕ → Bool → Option ℕ → Option ℕ
block_at ti false blocked = blocked
block_at ti true none = some ti
block_at ti true (some k) = some k

unfoldable pub advance_shadow : ℕ → Shadow → Shadow
advance_shadow end_lsn s =
    if absorbs s end_lsn then record s { frontier = end_lsn; advanced = true } else s
