-- ===== src/Api/Cursor.antt =====
-- The cursors that `changes` of src/api.rs refuses, and those that it serves.
use nabla.Base.{
  ℕ, suc, ◌≤◌, ◌≡◌, ◌⊎◌, refl, sym, subst, inl, inr, List, [], ◌∷◌, Option, none, some, true, false,
  ltb, ◌==◌, Bool-cases, if◌then◌else◌, arith,
}
use nabla.Base.Int.{pos}
use nabla.Worker.Types.{Status, DeltaRow}
use nabla.Api.Changes.{
  CatalogRow, oldest_seq, is_before_oldest, is_after, refuse_status, refuse_lagged,
}
use nabla.Api.Ordering.{of_view, IsLog}

-- The smallest number of a list of deltas.
unfoldable pub min_seq : List DeltaRow → Option ℕ
min_seq [] = none
min_seq (d ∷ ds) = elim (min_seq ds) [
  | none ↦ some d.seq
  | some n ↦ some (if ltb d.seq n then d.seq else n)
]

pub oldest_seq-of_view :
    (view_id : ℕ) (deltas : List DeltaRow)
    → oldest_seq view_id deltas ≡ min_seq (of_view view_id deltas)
unfolding oldest_seq of_view min_seq
oldest_seq-of_view view_id [] = refl
oldest_seq-of_view view_id (d ∷ ds) = elim (Bool-cases (d.view_id == view_id)) [
  | inl e ↦ rw (e, oldest_seq-of_view view_id ds) refl
  | inr e ↦ rw (e, oldest_seq-of_view view_id ds) refl
]

-- The oldest number of a log is its first.
pub min_seq-IsLog :
    (from lo : ℕ) (d : DeltaRow) (ds : List DeltaRow) (to : ℕ)
    → IsLog from lo (d ∷ ds) to
    → min_seq (d ∷ ds) ≡ some d.seq
unfolding min_seq
min_seq-IsLog from lo d [] to r = refl
min_seq-IsLog from lo d (e ∷ ds) to (p, h, (q, k, r)) =
    let t : ltb d.seq e.seq ≡ true = ground arith in
    rw (min_seq-IsLog (suc from) d.lsn e ds to (q, k, r)) (rw t refl)

-- A cursor within the log is not refused.
pub refuse_lagged-none :
    (view : CatalogRow) (a from lo : ℕ) (log : List DeltaRow)
    → IsLog from lo log view.last_seq
    → from ≤ a
    → refuse_lagged view (pos a) (min_seq log) ≡ none
unfolding refuse_lagged min_seq is_after is_before_oldest
refuse_lagged-none view a from lo [] r h =
    let t : ltb a view.last_seq ≡ false = ground arith in rw t refl
refuse_lagged-none view a from lo (d ∷ ds) r h =
    let t : ltb (suc a) d.seq ≡ false = ground (arith, r.0) in
    subst (λ o. refuse_lagged view (pos a) o ≡ none)
      (sym (min_seq-IsLog from lo d ds view.last_seq r)) (rw t refl)

pub refuse_status-none :
    (view : CatalogRow)
    → (view.status ≡ Status.live) ⊎ (view.status ≡ Status.refreshing)
    → refuse_status view ≡ none
unfolding refuse_status
refuse_status-none view (inl e) = rw (e, refuse_status) refl
refuse_status-none view (inr e) = rw (e, refuse_status) refl
