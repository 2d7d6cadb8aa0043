-- ===== src/Api/Changes.antt =====
-- `changes` of src/api.rs: the deltas of a view after a cursor, in pages of whole transactions.
use nabla.Base.{
  ℕ, suc, ◌+◌, max, List, [], ◌∷◌, ◌++◌, map, Option, none, some, Bool, true, false, not, ◌&&◌,
  Text, Result, ok, err, ltb, leb, ◌==◌, if◌then◌else◌, length, take, get_last?,
}
use nabla.Base.Int.{ℤ, pos, negsuc}
use nabla.Lsn
use nabla.Errors
use nabla.Errors.{Report}
use nabla.Definition.Types.{ViewSpec}
use nabla.Worker.Types.{Status, DeltaRow}
use nabla.Client.Types.{ServerRow}

-- A row of `nabla.views` with its specification. Epochs and numbers are counted from zero or one upwards.
pub record CatalogRow : Type 0 where
  pub id : ℕ
  pub name : Text
  pub spec : ViewSpec
  pub frontier : ℕ
  pub epoch : ℕ
  pub status : Status
  pub last_seq : ℕ
  pub stale_reason : Option Text
  pub last_error : Option Text

-- `SELECT min(seq) .. WHERE view_id = $1`.
unfoldable pub oldest_seq : ℕ → List DeltaRow → Option ℕ
oldest_seq view_id [] = none
oldest_seq view_id (d ∷ ds) =
    let rest = oldest_seq view_id ds in
    if d.view_id == view_id
    then elim rest [ none ↦ some d.seq | some n ↦ some (if ltb d.seq n then d.seq else n) ]
    else rest

-- `after_seq < seq`, and `after_seq < oldest - 1`.
unfoldable pub is_after : ℤ → ℕ → Bool
is_after (pos a) seq = ltb a seq
is_after (negsuc a) seq = true

unfoldable pub is_before_oldest : ℤ → ℕ → Bool
is_before_oldest (pos a) oldest = ltb (suc a) oldest
is_before_oldest (negsuc a) oldest = ltb 0 (oldest + a)

-- `WHERE view_id = $1 AND seq > $2`.
unfoldable pub deltas_after : ℕ → ℤ → List DeltaRow → List DeltaRow
deltas_after view_id after_seq [] = []
deltas_after view_id after_seq (d ∷ ds) =
    let rest = deltas_after view_id after_seq ds in
    if d.view_id == view_id && is_after after_seq d.seq then d ∷ rest else rest

-- `ORDER BY seq`.
unfoldable pub place_by_seq : DeltaRow → List DeltaRow → List DeltaRow
place_by_seq d [] = d ∷ []
place_by_seq d (e ∷ es) = if ltb e.seq d.seq then e ∷ place_by_seq d es else d ∷ e ∷ es

unfoldable pub order_by_seq : List DeltaRow → List DeltaRow
order_by_seq [] = []
order_by_seq (d ∷ ds) = place_by_seq d (order_by_seq ds)

-- `page`: the first rows, as many as the limit.
unfoldable pub page : ℕ → ℕ → ℤ → List DeltaRow → List DeltaRow
page limit view_id after_seq deltas =
    take limit (order_by_seq (deltas_after view_id after_seq deltas))

-- `rest`, after the last row of the page: the further rows of its transaction. The limit is at least one, so a
-- full page has a last row.
unfoldable pub same_transaction_after : ℕ → DeltaRow → List DeltaRow → List DeltaRow
same_transaction_after view_id last [] = []
same_transaction_after view_id last (d ∷ ds) =
    let rest = same_transaction_after view_id last ds in
    if d.view_id == view_id && (ltb last.seq d.seq && (d.lsn == last.lsn && d.xid == last.xid))
    then d ∷ rest
    else rest

unfoldable pub rest_of : ℕ → ℕ → List DeltaRow → List DeltaRow → List DeltaRow
rest_of limit view_id paged deltas = elim (get_last? paged) [
  | none ↦ []
  | some last ↦ if leb limit (length paged) then same_transaction_after view_id last deltas else []
]

-- The whole query, before the rows are converted.
unfoldable pub select_changes : ℕ → ℕ → ℤ → List DeltaRow → List DeltaRow
select_changes limit view_id after_seq deltas =
    let paged = page limit view_id after_seq deltas in
    order_by_seq (paged ++ rest_of limit view_id paged deltas)

-- `max_rows.max(1)`.
unfoldable pub row_limit : ℤ → ℕ
row_limit (pos n) = max n 1
row_limit (negsuc n) = 1

unfoldable pub epoch_is : ℤ → ℕ → Bool
epoch_is (pos n) epoch = n == epoch
epoch_is (negsuc n) epoch = false

-- The view cannot be followed: it is stale or failed, its epoch is another, or the cursor is older than what is
-- retained. In this order.
unfoldable pub refuse_status : CatalogRow → Option Report
refuse_status view = elim view.status [
  | Status.stale ↦ some (Errors.stale view.name view.stale_reason)
  | Status.failed ↦ some (Errors.failed view.name view.last_error)
  | _ ↦ none
]

unfoldable pub refuse_lagged : CatalogRow → ℤ → Option ℕ → Option Report
refuse_lagged view after_seq (some oldest) =
    if is_before_oldest after_seq oldest then some (Errors.lagged view.name oldest) else none
refuse_lagged view after_seq none =
    if is_after after_seq view.last_seq
    then some (Errors.lagged view.name (suc view.last_seq))
    else none

module _ (remove_keys : List Text → Text → Text) where
  -- `seq, lsn::text, xid, op::text, row - $4::text[]`.
  unfoldable pub change_row : List Text → DeltaRow → ServerRow Text
  change_row hidden d = record {
    seq = d.seq;
    lsn = Lsn.format d.lsn;
    xid = some d.xid;
    op = d.op ∷ [];
    row = remove_keys hidden d.row;
  }

  -- After the view has been found.
  unfoldable pub changes :
      CatalogRow → ℤ → ℤ → ℤ → Bool → List DeltaRow → Result Report (List (ServerRow Text))
  changes view after_seq epoch max_rows include_hidden deltas = elim (refuse_status view) [
    | some report ↦ err report
    | none ↦
        if not (epoch_is epoch view.epoch)
        then err (Errors.epoch_changed view.name epoch (pos view.epoch))
        else elim (refuse_lagged view after_seq (oldest_seq view.id deltas)) [
          | some report ↦ err report
          | none ↦
              let hidden = if include_hidden then [] else view.spec.hidden_columns in
              ok (
                map (change_row hidden)
                  (select_changes (row_limit max_rows) view.id after_seq deltas))
        ]
  ]
