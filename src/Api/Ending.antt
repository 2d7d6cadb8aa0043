-- ===== src/Api/Ending.antt =====
-- The loops of `wait_for` and `await_ready` in src/api.rs: that they end, and what a wait that succeeds has seen.
use nabla.Base.{
  ℕ, ◌≤◌, ◌≡◌, inl, inr, refl, sym, ap, ◌∙◌, List, [], ◌∷◌, ◌++◌, All, Option, Option-cases, none,
  some, Bool, true, false, Text, Result, ok, err, Result-cases, leb, Bool-cases, arith,
}
use nabla.Errors
use nabla.Errors.{Report}
use nabla.Idle.{Shared, effective_frontier}
use nabla.Idle.Soundness.{Log, IsQuiet}
use nabla.Worker.Types.{Status, ViewRow}
use nabla.Api.Names.{not_found}
use nabla.Api.Waiting.{
  Poll, row_named, current_state, broken, at_deadline, wait_turn, ready_turn, wait_for_frontier,
  ready_loop,
}

at_deadline-past : (p : Poll) → p.is_past ≡ true → at_deadline p ≡ some (ok false)
unfolding at_deadline
at_deadline-past p e = rw e refl

abbrev Ended : Option (Result Report Bool) → Type 0
Ended turn = (r : Result Report Bool) × (turn ≡ some r)

wait_turn-Ended :
    (canonical : Text) (target : ℕ) (p : Poll)
    → p.is_past ≡ true
    → Ended (wait_turn canonical target p)
unfolding wait_turn
wait_turn-Ended canonical target p e = elim (Result-cases (current_state canonical p.views)) [
  | inr (report, c) ↦ (err report, rw (c, wait_turn) refl)
  | inl (r, c) ↦ elim (Option-cases (broken canonical r)) [
    | inr (report, b) ↦ (err report, rw (c, wait_turn, b) refl)
    | inl b ↦ elim (Bool-cases (leb target (effective_frontier p.shared r.frontier_lsn))) [
      | inl t ↦ (ok true, rw (c, wait_turn, b, t) refl)
      | inr f ↦ (ok false, rw (c, wait_turn, b, f) (at_deadline-past p e))
    ]
  ]
]

ready_turn-Ended : (canonical : Text) (p : Poll) → p.is_past ≡ true → Ended (ready_turn canonical p)
unfolding ready_turn
ready_turn-Ended canonical p e = elim (Result-cases (current_state canonical p.views)) [
  | inr (report, c) ↦ (err report, rw (c, ready_turn) refl)
  | inl (r, c) ↦ by_status r c r.status refl
]
  where
    by_status :
        (r : ViewRow)
        → current_state canonical p.views ≡ ok r
        → (status : Status) → r.status ≡ status
        → Ended (ready_turn canonical p)
    by_status r c Status.live s = (ok true, rw (c, ready_turn, s) refl)
    by_status r c Status.failed s =
        (err (Errors.failed canonical r.last_error), rw (c, ready_turn, s) refl)
    by_status r c Status.stale s =
        (err (Errors.stale canonical r.stale_reason), rw (c, ready_turn, s) refl)
    by_status r c Status.initializing s = (ok false, rw (c, ready_turn, s) (at_deadline-past p e))
    by_status r c Status.refreshing s = (ok false, rw (c, ready_turn, s) (at_deadline-past p e))

-- A turn that reports success.
abbrev pub Sees : Text → ℕ → Log → Poll → Type 0
Sees canonical target log p =
    (r : ViewRow) × (row_named canonical p.views ≡ some r)
    × (broken canonical r ≡ none)
    × All (λ c. c.0 ≤ target → c.0 ≤ r.frontier_lsn) log

quiet_reach :
    (s : Shared) (target frontier : ℕ) (log : Log)
    → IsQuiet s.window log
    → target ≤ effective_frontier s frontier
    → All (λ c. c.0 ≤ target → c.0 ≤ frontier) log
unfolding effective_frontier
quiet_reach s target frontier [] q h = tt
quiet_reach s target frontier ((end, change) ∷ log) (inl early, q) h =
    (λ k. ground arith, quiet_reach s target frontier log q h)
quiet_reach s target frontier ((end, change) ∷ log) (inr late, q) h =
    (λ k. ground arith, quiet_reach s target frontier log q h)

at_deadline-no_success : (p : Poll) → at_deadline p ≡ some (ok true) → false ≡ true
unfolding at_deadline
at_deadline-no_success p e = elim (Bool-cases p.is_past) [
  | inl t ↦ let k : at_deadline p ≡ some (ok false) = rw (t, at_deadline) refl in cc
  | inr f ↦ let k : at_deadline p ≡ none = rw (f, at_deadline) refl in cc
]

wait_turn-Sees :
    (canonical : Text) (target : ℕ) (log : Log) (p : Poll)
    → IsQuiet p.shared.window log
    → wait_turn canonical target p ≡ some (ok true)
    → Sees canonical target log p
unfolding wait_turn current_state
wait_turn-Sees canonical target log p q e = elim (Option-cases (row_named canonical p.views)) [
  | inl n ↦
      let k : wait_turn canonical target p ≡ some (err (not_found canonical)) =
        rw (n, wait_turn, current_state) refl in
      cc
  | inr (r, n) ↦ elim (Option-cases (broken canonical r)) [
    | inr (report, b) ↦
        let k : wait_turn canonical target p ≡ some (err report) =
          rw (n, wait_turn, current_state, b) refl in
        cc
    | inl b ↦ elim (Bool-cases (leb target (effective_frontier p.shared r.frontier_lsn))) [
      | inl t ↦ (r, n, b, quiet_reach p.shared target r.frontier_lsn log q (ground (arith, t)))
      | inr f ↦
          let k : wait_turn canonical target p ≡ at_deadline p =
            rw (n, wait_turn, current_state, b, f) refl in
          let no = at_deadline-no_success p (sym k ∙ e) in cc
    ]
  ]
]

-- If a wait succeeds and the windows that it has read are quiet, then one of its turns has found the view neither
-- stale nor failed, with a stored frontier that every published change up to the target has reached.
pub wait_for_frontier-Sees :
    (canonical : Text) (target : ℕ) (log : Log) (polls : List Poll)
    → All (λ p. IsQuiet p.shared.window log) polls
    → wait_for_frontier canonical target polls ≡ some (ok true)
    → (before : List Poll) × (p : Poll) × (after : List Poll) × (polls ≡ before ++ p ∷ after)
      × Sees canonical target log p
unfolding wait_for_frontier
wait_for_frontier-Sees canonical target log [] q e = cc
wait_for_frontier-Sees canonical target log (p ∷ polls) (q, qs) e =
    elim (Option-cases (wait_turn canonical target p)) [
      | inr (r, t) ↦ (
        [],
        p,
        polls,
        refl,
        wait_turn-Sees canonical target log p q (
            let k : wait_for_frontier canonical target (p ∷ polls) ≡ some r =
              rw (t, wait_for_frontier) refl in
            t ∙ (sym k ∙ e)),
      )
      | inl t ↦
          let (before, p', after, splits, sees) =
            wait_for_frontier-Sees canonical target log polls qs (
              let k : wait_for_frontier canonical target (p ∷ polls)
                  ≡ wait_for_frontier canonical target polls =
                rw (t, wait_for_frontier) refl in
              sym k ∙ e) in
          (p ∷ before, p', after, ap (λ l. p ∷ l) splits, sees)
    ]

-- A wait ends at the first turn past its deadline at the latest, whatever would come after it.
pub waiting-Ends :
    (canonical : Text) (target : ℕ) (before : List Poll) (p : Poll)
    → p.is_past ≡ true
    → ((r : Result Report Bool) × ((after : List Poll)
          → wait_for_frontier canonical target (before ++ p ∷ after) ≡ some r))
      × ((r : Result Report Bool) × ((after : List Poll)
            → ready_loop canonical (before ++ p ∷ after) ≡ some r))
unfolding wait_for_frontier ready_loop
waiting-Ends canonical target [] p e =
    let (r, t) = wait_turn-Ended canonical target p e in
    let (r', t') = ready_turn-Ended canonical p e in
    ((r, λ after. rw (t, wait_for_frontier) refl), (r', λ after. rw (t', ready_loop) refl))
waiting-Ends canonical target (q ∷ before) p e =
    let ((r, rest), (r', rest')) = waiting-Ends canonical target before p e in
    (
      elim (Option-cases (wait_turn canonical target q)) [
        | inl n ↦ (r, λ after. rw (n, wait_for_frontier) (rest after))
        | inr (r2, t) ↦ (r2, λ after. rw (t, wait_for_frontier) refl)
      ],
      elim (Option-cases (ready_turn canonical q)) [
        | inl n ↦ (r', λ after. rw (n, ready_loop) (rest' after))
        | inr (r2, t) ↦ (r2, λ after. rw (t, ready_loop) refl)
      ],
    )
