-- ===== src/Api/Waiting.antt =====
-- The functions of src/api.rs that wait for the worker: `wait_for`, `await_ready`, and `current_state`.
use nabla.Base.{
  ℕ, List, [], ◌∷◌, Option, none, some, Bool, true, false, Text, Result, ok, err, ◌>>=◌, codes,
  concat, text_eq, leb, if◌then◌else◌,
}
use nabla.Lsn
use nabla.Errors
use nabla.Errors.{Report}
use nabla.Idle.{Shared, effective_frontier}
use nabla.Worker.Types.{Status, ViewRow}
use nabla.Api.Names.{Environment, not_found, find_view}

-- The row with the name.
unfoldable pub row_named : Text → List ViewRow → Option ViewRow
row_named canonical [] = none
row_named canonical (r ∷ rows) =
    let rest = row_named canonical rows in if text_eq r.name canonical then some r else rest

-- `current_state`, of whose row the frontier, the status and the reasons are read.
unfoldable pub current_state : Text → List ViewRow → Result Report ViewRow
current_state canonical rows = elim (row_named canonical rows) [
  | none ↦ err (not_found canonical)
  | some r ↦ ok r
]

-- What a turn of the loop finds: the rows under a fresh snapshot, the idle window, and whether the deadline is past.
pub record Poll : Type 0 where
  pub views : List ViewRow
  pub shared : Shared
  pub is_past : Bool

-- The error of a view that is stale or has failed.
unfoldable pub broken : Text → ViewRow → Option Report
broken canonical r = elim r.status [
  | Status.stale ↦ some (Errors.stale canonical r.stale_reason)
  | Status.failed ↦ some (Errors.failed canonical r.last_error)
  | _ ↦ none
]

unfoldable pub at_deadline : Poll → Option (Result Report Bool)
at_deadline p = if p.is_past then some (ok false) else none

-- A turn of `wait_for_frontier`; `none` where it sleeps.
unfoldable pub wait_turn : Text → ℕ → Poll → Option (Result Report Bool)
wait_turn canonical target p = elim (current_state canonical p.views) [
  | err report ↦ some (err report)
  | ok r ↦ elim (broken canonical r) [
    | some report ↦ some (err report)
    | none ↦
        if leb target (effective_frontier p.shared r.frontier_lsn)
        then some (ok true)
        else at_deadline p
  ]
]

-- A turn of `await_ready`.
unfoldable pub ready_turn : Text → Poll → Option (Result Report Bool)
ready_turn canonical p = elim (current_state canonical p.views) [
  | err report ↦ some (err report)
  | ok r ↦ elim r.status [
    | Status.live ↦ some (ok true)
    | Status.failed ↦ some (err (Errors.failed canonical r.last_error))
    | Status.stale ↦ some (err (Errors.stale canonical r.stale_reason))
    | _ ↦ at_deadline p
  ]
]

-- The loops; `none` where the turns so far have not ended them.
unfoldable pub wait_for_frontier : Text → ℕ → List Poll → Option (Result Report Bool)
wait_for_frontier canonical target [] = none
wait_for_frontier canonical target (p ∷ polls) =
    let rest = wait_for_frontier canonical target polls in
    elim (wait_turn canonical target p) [ none ↦ rest | some r ↦ some r ]

unfoldable pub ready_loop : Text → List Poll → Option (Result Report Bool)
ready_loop canonical [] = none
ready_loop canonical (p ∷ polls) =
    let rest = ready_loop canonical polls in
    elim (ready_turn canonical p) [ none ↦ rest | some r ↦ some r ]

module _ (env : Environment) where
  -- The rows are those that the call finds the view in.
  unfoldable pub await_ready : Text → List ViewRow → List Poll → Option (Result Report Bool)
  await_ready name rows polls = elim (find_view env name rows) [
    | err report ↦ some (err report)
    | ok view ↦ ready_loop view.name polls
  ]

  unfoldable pub wait_for : Text → ℕ → List ViewRow → List Poll → Option (Result Report Bool)
  wait_for name lsn rows polls = elim (find_view env name rows) [
    | err report ↦ some (err report)
    | ok view ↦ wait_for_frontier view.name lsn polls
  ]

  unfoldable pub wait_for_text :
      Text → Text → List ViewRow → List Poll → Option (Result Report Bool)
  wait_for_text name lsn rows polls = elim (find_view env name rows) [
    | err report ↦ some (err report)
    | ok view ↦ elim (Lsn.parse lsn) [
      | none ↦ some (
          err (
            Errors.invalid
              (concat (codes "nabla: \"" ∷ lsn ∷ codes "\" is not a valid LSN (expected X/Y)" ∷ []))
              none))
      | some target ↦ wait_for_frontier view.name target polls
    ]
  ]

  unfoldable pub frontier : Text → List ViewRow → Result Report ℕ
  frontier name rows =
      find_view env name rows >>= λ view. current_state view.name rows >>= λ r. ok r.frontier_lsn
