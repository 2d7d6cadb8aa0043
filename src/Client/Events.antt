-- ===== src/Client/Events.antt =====
-- `next`, `resync` and `bootstrap` of clients/rust/nabla-client/src/lib.rs.
use nabla.Base.{
  ℕ, List, [], ◌∷◌, ◌++◌, Option, none, some, false, Text, Result, ok, err, ◌||◌, text_eq, codes,
  if◌then◌else◌,
}
use nabla.Base.Int.{ℤ}
use nabla.Apply.Execute.{rsplit_once, parse_int}
use nabla.Client.Types.{Event, ServerRow, State, ResyncReason, Error, Failure, Boot, Subscription}
use nabla.Client.Fetch.{fetch}

-- A server error: its SQLSTATE and its detail; an error of another kind has none.
pub record DbError : Type 0 where
  pub code : Text
  pub detail : Option Text
  pub message : Text

unfoldable pub detail_or : Option Text → Text
detail_or none = codes "reason not recorded"
detail_or (some t) = t

-- `rsplit(' ').next()`: what follows the last space, or the whole text.
unfoldable pub last_word : Text → Text
last_word t = elim (rsplit_once b' ' t) [ none ↦ t | some parts ↦ parts.1 ]

-- The epoch in the detail, or the client's own.
unfoldable pub new_epoch : Option Text → ℤ → ℤ
new_epoch none epoch = epoch
new_epoch (some detail) epoch = elim (parse_int 32 (last_word detail)) [ ok n ↦ n | err e ↦ epoch ]

unfoldable pub classify : Option DbError → ℤ → Failure
classify none epoch = Failure.disconnected
classify (some db) epoch =
    if text_eq db.code (codes "NB001")
    then Failure.lagged
    else if text_eq db.code (codes "NB002")
    then Failure.stale (detail_or db.detail)
    else if text_eq db.code (codes "NB003")
    then Failure.epoch_changed epoch (new_epoch db.detail epoch)
    else if text_eq db.code (codes "NB006")
    then Failure.other (Error.view_failed (detail_or db.detail))
    else Failure.other (Error.postgres db.message)

-- A row of `nabla.status`, read in the same snapshot as the rows of the view.
pub record StatusRow : Type 0 where
  pub status : Text
  pub epoch : ℤ
  pub frontier : Text
  pub current_seq : ℕ
  pub stale_reason : Option Text

module _ {V : Type 0} where
  unfoldable pub push_resync : ResyncReason → Subscription V → Subscription V
  push_resync reason sub = record sub {
    pending = sub.pending ++ ((Event.resync reason, none) ∷ []);
  }

  -- `resync`: back to a bootstrap, with the unfinished rows dropped.
  unfoldable pub start_over : ResyncReason → Subscription V → Subscription V
  start_over reason sub = record sub {
    pending = sub.pending ++ ((Event.resync reason, none) ∷ []);
    tail = [];
    state = State.need_bootstrap;
  }

  -- Handing out the next pending event adopts its cursor.
  unfoldable pub adopt : Option ℕ → Subscription V → Subscription V
  adopt none sub = sub
  adopt (some c) sub = record sub { cursor = c }

  unfoldable pub take_event : Subscription V → Option (Event V × Subscription V)
  take_event sub = elim sub.pending [
    | [] ↦ none
    | (event, cursor) ∷ rest ↦ some (event, adopt cursor (record sub { pending = rest }))
  ]

  -- What a failed fetch makes of the subscription, or the error that `next` returns.
  unfoldable pub after_failure : Failure → Subscription V → Result Error (Subscription V)
  after_failure Failure.lagged sub = ok (start_over ResyncReason.lagged sub)
  after_failure (Failure.stale reason) sub = ok (start_over (ResyncReason.stale reason) sub)
  after_failure (Failure.epoch_changed from to) sub =
      ok (start_over (ResyncReason.epoch_changed from to) sub)
  after_failure Failure.disconnected sub = ok (record sub { tail = []; connected = false })
  after_failure (Failure.other e) sub = err e

  -- One fetch while following: the rows of the server, or its error.
  unfoldable pub follow :
      ℕ
      → Result (Option DbError) (List (ServerRow V))
      → Subscription V
      → Result Error (Subscription V)
  follow batch (err e) sub = after_failure (classify e sub.epoch) sub
  follow batch (ok rows) sub = fetch batch rows sub

  -- A snapshot is adopted: its epoch and its cursor.
  unfoldable pub adopt_snapshot : StatusRow → List V → Subscription V → Subscription V
  adopt_snapshot status rows sub = record sub {
    epoch = status.epoch;
    cursor = status.current_seq;
    state = State.following;
    tail = [];
    pending =
        sub.pending
        ++ ((
          Event.snapshot status.epoch status.frontier status.current_seq rows,
          some status.current_seq,
        )
            ∷ []);
  }

  unfoldable pub bootstrap : StatusRow → List V → Subscription V → Boot × Subscription V
  bootstrap status rows sub =
      if text_eq status.status (codes "initializing") || text_eq status.status (codes "refreshing")
      then (Boot.building, sub)
      else if text_eq status.status (codes "failed")
      then (Boot.failed (detail_or status.stale_reason), sub)
      else if text_eq status.status (codes "stale")
      then (Boot.stale (detail_or status.stale_reason), sub)
      else (Boot.ready, adopt_snapshot status rows sub)
