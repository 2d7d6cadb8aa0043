-- ===== src/Api/Following.antt =====
-- The client of clients/rust/nabla-client/src/lib.rs following `changes` of src/api.rs: its queries answered by
-- the server's function.
use nabla.Base.{
  ℕ, suc, ◌+◌, ◌-◌, max, ◌≤◌, ◌<◌, ◌≡◌, ◌⊎◌, refl, ap, sym, subst, ◌∙◌, inl, inr, List, [], ◌∷◌,
  ◌++◌, map, All, Option, some, Bool, true, leb, ◌==◌, ==_refl, Text, Result, ok, err, text_eq,
  if◌then◌else◌, length, length-append, arith,
}
use nabla.Base.Int.{pos}
use nabla.Errors.{Report}
use nabla.Worker.Types.{Status, DeltaRow}
use nabla.Client.Types.{ServerRow, ChangeRow, Error, Subscription, Op}
use nabla.Client.Fetch.{parse_op, parse_rows, after, group_rows, hand_over, fetch}
use nabla.Client.Events.{DbError, follow}
use nabla.Client.Delivery.{IsSeqRun, seqs, Delivers, fetch-Delivers, after-IsSeqRun}
use nabla.Api.Changes.{
  CatalogRow, changes, change_row, select_changes, row_limit, refuse_lagged, epoch_is,
}
use nabla.Api.Ordering.{of_view, later, IsLog, later-IsLog}
use nabla.Api.Cursor.{oldest_seq-of_view, refuse_lagged-none, refuse_status-none}
use nabla.Api.Cutting.{IsLog-prefix, All-later}
use nabla.Api.Paging.{IsPage, select_changes-IsPage}

-- A report as the client's driver hands it over.
unfoldable pub db_error : Report → DbError
db_error r = record { code = r.sqlstate; detail = r.detail; message = r.message }

unfoldable pub answer :
    Result Report (List (ServerRow Text)) → Result (Option DbError) (List (ServerRow Text))
answer (ok rows) = ok rows
answer (err r) = err (some (db_error r))

-- One fetch of a connected client.
unfoldable pub follow_server :
    (List Text → Text → Text)
    → ℕ
    → Bool
    → CatalogRow
    → List DeltaRow
    → Subscription Text
    → Result Error (Subscription Text)
follow_server remove_keys batch keep_hidden view deltas sub =
    follow batch
      (answer (changes remove_keys view (pos (after sub)) sub.epoch (pos batch) keep_hidden deltas))
      sub

abbrev pub HasOp : DeltaRow → Type 0
HasOp d = (d.op ≡ b'I') ⊎ (d.op ≡ b'D')

module _ (remove_keys : List Text → Text → Text) (hidden : List Text) where
  parse_op_known : (d : DeltaRow) → HasOp d → (op : Op) × (parse_op (d.op ∷ []) ≡ ok op)
  unfolding parse_op text_eq
  parse_op_known d (inl e) = (Op.insert, rw e refl)
  parse_op_known d (inr e) = (Op.delete, rw e refl)

  -- The client accepts the rows of a log.
  parse_rows_log :
      (from lo : ℕ) (ds : List DeltaRow) (to : ℕ)
      → IsLog from lo ds to
      → All HasOp ds
      → (parsed : List (ChangeRow Text)) × (parse_rows
            (suc from)
            (map (change_row remove_keys hidden) ds)
          ≡ ok parsed)
  unfolding parse_rows change_row
  parse_rows_log from lo [] to r h = ([], refl)
  parse_rows_log from lo (d ∷ ds) to (e, k, r) (h, hs) =
      let (parsed, rest) = parse_rows_log (suc from) d.lsn ds to r hs in
      let (op, known) = parse_op_known d h in
      let t : (d.seq == suc from) ≡ true = ground arith in
      (
        record {
          seq = d.seq;
          lsn = (change_row remove_keys hidden d).lsn;
          xid = some d.xid;
          op = op;
          row = (change_row remove_keys hidden d).row;
        }
            ∷ parsed,
        rw (t, known, rest) refl,
      )

IsLog-length :
    (from lo : ℕ) (ds : List DeltaRow) (to : ℕ) → IsLog from lo ds to → from + length ds ≡ to
IsLog-length from lo [] to r = omega arith
IsLog-length from lo (d ∷ ds) to (e, h, r) = omega (arith, IsLog-length (suc from) d.lsn ds to r)

All-prefix : (P : DeltaRow → Type 0) (xs ys : List DeltaRow) → All P (xs ++ ys) → All P xs
All-prefix P [] ys h = tt
All-prefix P (x ∷ xs) ys (h, hs) = (h, All-prefix P xs ys hs)

-- What the server's catalog has of a view that can be followed: the log goes without a gap up to the last number,
-- each position in it belongs to one source transaction, and the operations are inserts and deletes.
pub record IsServed (view : CatalogRow) (deltas : List DeltaRow) : Type 0 where
  pub followable : (view.status ≡ Status.live) ⊎ (view.status ≡ Status.refreshing)
  pub from : ℕ
  pub lo : ℕ
  pub log : IsLog from lo (of_view view.id deltas) view.last_seq
  pub xid_of : ℕ → ℕ
  pub xids : All (λ d. d.xid ≡ xid_of d.lsn) (of_view view.id deltas)
  pub ops : All HasOp (of_view view.id deltas)

fetch-ok :
    (batch : ℕ) (rows : List (ServerRow Text)) (sub : Subscription Text)
    (parsed : List (ChangeRow Text))
    → parse_rows (suc (after sub)) rows ≡ ok parsed
    → fetch batch rows sub
      ≡ ok (hand_over (group_rows [] (sub.tail ++ parsed)) (leb batch (length rows)) sub)
unfolding fetch
fetch-ok batch rows sub parsed e = rw e refl

length-map_rows :
    (remove_keys : List Text → Text → Text) (hidden : List Text) (ds : List DeltaRow)
    → length (map (change_row remove_keys hidden) ds) ≡ length ds
length-map_rows remove_keys hidden [] = refl
length-map_rows remove_keys hidden (d ∷ ds) = ap suc (length-map_rows remove_keys hidden ds)

-- A page is not empty, or there is nothing to come.
page_progress :
    (limit to last : ℕ) (history selected : List DeltaRow)
    → IsPage limit history selected
    → 0 < limit
    → to + length history ≡ last
    → (0 < length selected) ⊎ (to ≡ last)
page_progress limit to last history [] p pos_limit total = elim p.drained [
  | inl many ↦ absurd (omega arith)
  | inr none_left ↦ inr (omega (arith, total, ap length p.splits, ap length none_left))
]
page_progress limit to last history (d ∷ ds) p pos_limit total = inl (omega arith)

module _ (remove_keys : List Text → Text → Text) where
  changes-selected :
      (view : CatalogRow) (deltas : List DeltaRow) (s : IsServed view deltas) (a batch : ℕ)
      (keep_hidden : Bool)
      → s.from ≤ a
      → changes remove_keys view (pos a) (pos view.epoch) (pos batch) keep_hidden deltas
        ≡ ok (
            map
              (change_row remove_keys (if keep_hidden then [] else view.spec.hidden_columns))
              (select_changes (max batch 1) view.id (pos a) deltas))
  unfolding changes epoch_is row_limit
  changes-selected view deltas s a batch keep_hidden h =
      let free = refuse_status-none view s.followable in
      let open_log =
        ap (refuse_lagged view (pos a)) (oldest_seq-of_view view.id deltas)
        ∙ refuse_lagged-none view a s.from s.lo (of_view view.id deltas) s.log h in
      rw (free, ==_refl view.epoch, open_log, changes) refl

  -- If the server's catalog has the log of a view up to its last number, the client carries the view's epoch, has
  -- nothing pending and continues its cursor without a gap, and its last known row stands within the log, then a
  -- fetch against the server succeeds. The client then has `n` more rows pending or kept back, in transactions
  -- that continue the cursor without a gap; and there is at least one, unless the row was the log's last.
  pub follow_server-Delivers :
      (batch : ℕ) (keep_hidden : Bool) (view : CatalogRow) (deltas : List DeltaRow)
      (sub : Subscription Text) (to : ℕ)
      → (s : IsServed view deltas) → sub.epoch ≡ pos view.epoch
      → sub.pending ≡ []
      → IsSeqRun sub.cursor (seqs sub.tail) to
      → s.from ≤ to
      → to ≤ view.last_seq
      → (sub' : Subscription Text) × (n : ℕ) × (follow_server remove_keys batch keep_hidden view
            deltas sub
          ≡ ok sub')
        × Delivers sub'.cursor sub'.pending sub'.tail (to + n)
        × (to + n ≤ view.last_seq)
        × ((0 < n) ⊎ (to ≡ view.last_seq))
  unfolding follow_server follow answer
  follow_server-Delivers batch keep_hidden view deltas sub to s same_epoch free run low high =
      let hidden = if keep_hidden then [] else view.spec.hidden_columns in
      let log = of_view view.id deltas in
      let selected = select_changes (max batch 1) view.id (pos to) deltas in
      let one : max batch 1 ≡ suc (max batch 1 - 1) = omega arith in
      let p : IsPage (max batch 1) (later to log) selected = rw one (
        select_changes-IsPage s.xid_of (max batch 1 - 1) view.id to s.from s.lo view.last_seq deltas
          s.log s.xids low high) in
      let r = later-IsLog s.from s.lo to log view.last_seq low high s.log in
      let (mid, q) =
        IsLog-prefix to s.lo selected p.more view.last_seq
          (subst (λ l. IsLog to s.lo l view.last_seq) p.splits r) in
      let (parsed, ok_rows) = parse_rows_log remove_keys hidden to s.lo selected mid q (
        All-prefix HasOp selected p.more
          (subst (All HasOp) p.splits (All-later HasOp to log s.ops))) in
      let rows = map (change_row remove_keys hidden) selected in
      let here = after-IsSeqRun sub to run in
      let sub' = hand_over (group_rows [] (sub.tail ++ parsed)) (leb batch (length rows)) sub in
      let fetched =
        fetch-ok batch rows sub parsed
          (subst (λ m. parse_rows (suc m) rows ≡ ok parsed) (sym here) ok_rows) in
      let served =
        ap (λ m. changes remove_keys view (pos m) sub.epoch (pos batch) keep_hidden deltas) here
        ∙ (ap (λ e. changes remove_keys view (pos to) e (pos batch) keep_hidden deltas) same_epoch
            ∙ changes-selected view deltas s to batch keep_hidden low) in
      let size = length-map_rows remove_keys hidden selected in
      let total = IsLog-length to s.lo (later to log) view.last_seq r in
      let parts = ap length p.splits ∙ length-append selected p.more in
      (
        sub',
        length rows,
        ap (λ q. follow batch (answer q) sub) served ∙ fetched,
        fetch-Delivers batch rows sub sub' to free run fetched,
        omega (arith, size, total, parts),
        elim (page_progress (max batch 1) to view.last_seq (later to log) selected p (omega arith)
            total) [ inl some_rows ↦ inl (omega (arith, size)) | inr at_end ↦ inr at_end ],
      )
