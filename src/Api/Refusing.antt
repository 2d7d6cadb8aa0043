-- ===== src/Api/Refusing.antt =====
-- A client whose call of `changes` the server refuses (src/api.rs, src/errors.rs, and `after_failure` of the client).
use nabla.Base.{
  ℕ, suc, ◌^◌, ◌<◌, ◌≡◌, ◌≢◌, ◌⊎◌, refl, ap, sym, subst, ◌∙◌, List, [], ◌∷◌, Option, none, some,
  Bool, true, false, ltb, ==_refl, ==_ne, Text, Result, ok, err, text_eq, arith,
}
use nabla.Base.Int.{ℤ, pos, negsuc}
use nabla.Errors
use nabla.Errors.{Report, recorded, raise_sqlstate}
use nabla.Worker.Types.{Status, DeltaRow}
use nabla.Client.Types.{Error, Failure, ResyncReason, Subscription}
use nabla.Client.Fetch.{after}
use nabla.Client.Events.{classify, after_failure, follow, start_over, detail_or}
use nabla.Api.Changes.{
  CatalogRow, changes, oldest_seq, refuse_status, refuse_lagged, epoch_is, is_after,
  is_before_oldest,
}
use nabla.Api.Ordering.{of_view, IsLog}
use nabla.Api.Following.{db_error, answer, follow_server}
use nabla.Api.Cursor.{min_seq, oldest_seq-of_view, min_seq-IsLog, refuse_status-none}
use nabla.Api.Epochs.{new_epoch-epoch_changed}

refuse_lagged-some :
    (view : CatalogRow) (a from lo : ℕ) (log : List DeltaRow)
    → IsLog from lo log view.last_seq
    → a < from
    → (oldest : ℕ) × (refuse_lagged view (pos a) (min_seq log)
        ≡ some (Errors.lagged view.name oldest))
unfolding refuse_lagged min_seq is_after is_before_oldest
refuse_lagged-some view a from lo [] r h =
    let t : ltb a view.last_seq ≡ true = ground arith in (suc view.last_seq, rw t refl)
refuse_lagged-some view a from lo (d ∷ ds) r h =
    let t : ltb (suc a) d.seq ≡ true = ground (arith, r.0) in
    (
      d.seq,
      subst (λ o. refuse_lagged view (pos a) o ≡ some (Errors.lagged view.name d.seq))
          (sym (min_seq-IsLog from lo d ds view.last_seq r)) (rw t refl),
    )

epoch_is-false : (e : ℤ) (n : ℕ) → e ≢ pos n → epoch_is e n ≡ false
unfolding epoch_is
epoch_is-false (pos m) n h = ==_ne m n (λ e. h (ap pos e))
epoch_is-false (negsuc m) n h = refl

-- How the client takes each report.
module _ (own : ℤ) (name : Text) where
  classify-stale :
      (reason : Option Text)
      → classify (some (db_error (Errors.stale name reason))) own ≡ Failure.stale (recorded reason)
  unfolding classify db_error Errors.stale raise_sqlstate text_eq detail_or
  classify-stale reason = refl

  classify-failed :
      (reason : Option Text)
      → classify (some (db_error (Errors.failed name reason))) own
        ≡ Failure.other (Error.view_failed (recorded reason))
  unfolding classify db_error Errors.failed raise_sqlstate text_eq detail_or
  classify-failed reason = refl

  classify-lagged :
      (oldest : ℕ) → classify (some (db_error (Errors.lagged name oldest))) own ≡ Failure.lagged
  unfolding classify db_error Errors.lagged raise_sqlstate text_eq
  classify-lagged oldest = refl

  classify-epoch_changed :
      (from : ℤ) (n : ℕ)
      → n < 2 ^ 31
      → classify (some (db_error (Errors.epoch_changed name from (pos n)))) own
        ≡ Failure.epoch_changed own (pos n)
  unfolding classify db_error Errors.epoch_changed raise_sqlstate text_eq
  classify-epoch_changed from n h =
      ap (Failure.epoch_changed own) (new_epoch-epoch_changed name from own n h)

module _ (remove_keys : List Text → Text → Text) (batch : ℕ) (keep_hidden : Bool)
    (view : CatalogRow) (deltas : List DeltaRow) (sub : Subscription Text) where
  refused :
      (report : Report)
      → changes remove_keys view (pos (after sub)) sub.epoch (pos batch) keep_hidden deltas
        ≡ err report
      → follow_server remove_keys batch keep_hidden view deltas sub
        ≡ after_failure (classify (some (db_error report)) sub.epoch) sub
  unfolding follow_server follow answer
  refused report e = ap (λ r. follow batch (answer r) sub) e

  changes-status :
      (report : Report)
      → refuse_status view ≡ some report
      → changes remove_keys view (pos (after sub)) sub.epoch (pos batch) keep_hidden deltas
        ≡ err report
  unfolding changes
  changes-status report e = rw (e, changes) refl

  changes-epoch :
      refuse_status view ≡ none
      → epoch_is sub.epoch view.epoch ≡ false
      → changes remove_keys view (pos (after sub)) sub.epoch (pos batch) keep_hidden deltas
        ≡ err (Errors.epoch_changed view.name sub.epoch (pos view.epoch))
  unfolding changes
  changes-epoch e f = rw (e, f, changes) refl

  changes-lagged :
      (report : Report)
      → refuse_status view ≡ none
      → epoch_is sub.epoch view.epoch ≡ true
      → refuse_lagged view (pos (after sub)) (oldest_seq view.id deltas) ≡ some report
      → changes remove_keys view (pos (after sub)) sub.epoch (pos batch) keep_hidden deltas
        ≡ err report
  unfolding changes
  changes-lagged report e f g = rw (e, f, g, changes) refl

  -- Why the server refuses the client.
  pub data Refusal : Type 0 where
    is_stale : view.status ≡ Status.stale → Refusal
    has_failed : view.status ≡ Status.failed → Refusal
    other_epoch :
        (view.status ≡ Status.live) ⊎ (view.status ≡ Status.refreshing)
        → sub.epoch ≢ pos view.epoch
        → view.epoch < 2 ^ 31
        → Refusal
    is_behind :
        (view.status ≡ Status.live) ⊎ (view.status ≡ Status.refreshing)
        → sub.epoch ≡ pos view.epoch
        → (from lo : ℕ) → IsLog from lo (of_view view.id deltas) view.last_seq
        → after sub < from
        → Refusal

  -- What the client makes of it.
  abbrev pub response : Refusal → Result Error (Subscription Text)
  response (is_stale e) = ok (start_over (ResyncReason.stale (recorded view.stale_reason)) sub)
  response (has_failed e) = err (Error.view_failed (recorded view.last_error))
  response (other_epoch e other small) =
      ok (start_over (ResyncReason.epoch_changed sub.epoch (pos view.epoch)) sub)
  response (is_behind e same from lo log behind) = ok (start_over ResyncReason.lagged sub)

  -- How each refusal reaches the client. A stale view makes it start over with the recorded reason, and a failed
  -- one is an error with its own. Of a view that can be followed, another epoch, below 2 ^ 31, makes it start over
  -- with its own epoch and the view's; and where the epoch is the same but its last known row stands before a log
  -- that goes without a gap up to the view's last number, it starts over as one that lags.
  pub follow_server-response :
      (why : Refusal) → follow_server remove_keys batch keep_hidden view deltas sub ≡ response why
  unfolding after_failure
  follow_server-response (is_stale e) =
      refused (Errors.stale view.name view.stale_reason) (
        changes-status (Errors.stale view.name view.stale_reason)
          (unfold refuse_status in rw (e, refuse_status) refl))
      ∙ ap (λ f. after_failure f sub) (classify-stale sub.epoch view.name view.stale_reason)
  follow_server-response (has_failed e) =
      refused (Errors.failed view.name view.last_error) (
        changes-status (Errors.failed view.name view.last_error)
          (unfold refuse_status in rw (e, refuse_status) refl))
      ∙ ap (λ f. after_failure f sub) (classify-failed sub.epoch view.name view.last_error)
  follow_server-response (other_epoch e other small) =
      refused (Errors.epoch_changed view.name sub.epoch (pos view.epoch))
        (changes-epoch (refuse_status-none view e) (epoch_is-false sub.epoch view.epoch other))
      ∙ ap (λ f. after_failure f sub)
          (classify-epoch_changed sub.epoch view.name sub.epoch view.epoch small)
  follow_server-response (is_behind e same from lo log behind) =
      let (oldest, found) =
        refuse_lagged-some view (after sub) from lo (of_view view.id deltas) log behind in
      refused (Errors.lagged view.name oldest) (
        changes-lagged (Errors.lagged view.name oldest) (refuse_status-none view e)
          (unfold epoch_is in
            subst (λ n. epoch_is n view.epoch ≡ true) (sym same) (==_refl view.epoch))
          (ap (refuse_lagged view (pos (after sub))) (oldest_seq-of_view view.id deltas) ∙ found))
      ∙ ap (λ f. after_failure f sub) (classify-lagged sub.epoch view.name oldest)
