-- ===== src/Api/Tests.antt =====
-- Runs of the SQL functions of src/api.rs, and the theorems at concrete inputs.
use nabla.Base.{
  ℕ, ◌≤◌, ◌<◌, ◌≡◌, ◌⊎◌, ◌↔◌, inl, inr, refl, List, [], ◌∷◌, All, none, some, true, false, Text, ok,
  codes, arith, any, ◌+◌,
}
use nabla.Base.Int.{pos}
use nabla.Base.Sets.{member, place, insert, extend}
use nabla.Errors
use nabla.Definition.Types.{BaseRelation, ViewSpec, is_join}
use nabla.Worker.Types.{Status, ViewRow, ViewRelation, DeltaRow}
use nabla.Worker.Sample.{orders_base, orders_spec, view_row}
use nabla.Client.Types.{State, Subscription, ResyncReason}
use nabla.Client.Events.{new_epoch, start_over}
use nabla.Client.Delivery.{Delivers}
use nabla.Api.Closure.{
  is_join_row, has_join, sharing, used, closure_loop, closure_fuel, refresh_closure,
}
use nabla.Api.Reaching.{Has}
use nabla.Api.Closed.{Reaches, view}
use nabla.Api.RefreshSet.{own_relids, refresh_closure-Reaches}
use nabla.Api.Changes.{
  CatalogRow, deltas_after, is_after, order_by_seq, place_by_seq, page, rest_of,
  same_transaction_after, select_changes,
}
use nabla.Api.Ordering.{of_view, later, IsLog}
use nabla.Api.Paging.{IsPage, select_changes-IsPage}
use nabla.Api.Following.{HasOp, IsServed, follow_server, follow_server-Delivers}
use nabla.Api.Refusing.{is_stale, follow_server-response}
use nabla.Api.Epochs.{new_epoch-epoch_changed}

-- Customers joined with orders, and orders with items.
abbrev base : ℕ → BaseRelation
base oid = record orders_base { oid = oid }

abbrev join_spec : ℕ → ℕ → ViewSpec
join_spec a b = record orders_spec { relations = base a ∷ base b ∷ [] }

abbrev join_row : ℕ → ℕ → ℕ → ViewRow
join_row id a b = record (view_row 50) { id = id; spec = some (join_spec a b) }

abbrev views : List ViewRow
views = join_row 1 16 17 ∷ join_row 2 17 18 ∷ join_row 3 20 21 ∷ []

abbrev relation_row : ℕ → ℕ → ViewRelation
relation_row view_id relid = record { view_id = view_id; relid = relid; rti = 1 }

abbrev rows : List ViewRelation
rows =
    relation_row 1 16
    ∷ relation_row 1 17
    ∷ relation_row 2 17
    ∷ relation_row 2 18
    ∷ relation_row 3 20
    ∷ relation_row 3 21
    ∷ []

-- The views of one relation, and not the third.
refreshed_together : refresh_closure views rows 1 (join_spec 16 17) ≡ some (1 ∷ 2 ∷ [])
unfolding refresh_closure closure_loop sharing has_join is_join_row is_join used extend insert
    member closure_fuel place any
refreshed_together = refl

refresh_closure-Reaches_example :
    (ids : List ℕ) × (refresh_closure views rows 1 (join_spec 16 17) ≡ some ids)
    × ((v : ℕ) → Has v ids ↔ Reaches views rows 1 (own_relids (join_spec 16 17)) (view v))
refresh_closure-Reaches_example = refresh_closure-Reaches views rows 1 (join_spec 16 17)

abbrev delta : ℕ → ℕ → ℕ → DeltaRow
delta seq lsn op = record {
  view_id = 1;
  seq = seq;
  lsn = lsn;
  xid = lsn;
  op = op;
  row = codes "{}";
}

-- Two transactions, the first of two rows.
abbrev deltas : List DeltaRow
deltas = delta 5 40 b'D' ∷ delta 6 40 b'I' ∷ delta 7 60 b'I' ∷ []

deltas-IsLog : IsLog 4 0 (of_view 1 deltas) 7
unfolding of_view
deltas-IsLog = (refl, omega arith, (refl, omega arith, (refl, omega arith, refl)))

deltas-xids : All (λ d. d.xid ≡ d.lsn) (of_view 1 deltas)
unfolding of_view
deltas-xids = (refl, (refl, (refl, tt)))

deltas-HasOp : All HasOp (of_view 1 deltas)
unfolding of_view
deltas-HasOp = (inr refl, (inl refl, (inl refl, tt)))

-- A page of one row is filled up to the end of its transaction.
filled_up : select_changes 1 1 (pos 4) deltas ≡ delta 5 40 b'D' ∷ delta 6 40 b'I' ∷ []
unfolding select_changes page deltas_after is_after order_by_seq place_by_seq rest_of
    same_transaction_after
filled_up = refl

select_changes-IsPage_example :
    IsPage 1 (later 4 (of_view 1 deltas)) (select_changes 1 1 (pos 4) deltas)
select_changes-IsPage_example =
    select_changes-IsPage (λ lsn. lsn) 0 1 4 4 0 7 deltas deltas-IsLog deltas-xids (omega arith)
      (omega arith)

abbrev followed : Status → CatalogRow
followed status = record {
  id = 1;
  name = codes "public.orders_view";
  spec = orders_spec;
  frontier = 60;
  epoch = 1;
  status = status;
  last_seq = 7;
  stale_reason = some (codes "a column was dropped");
  last_error = none;
}

abbrev subscription : Subscription Text
subscription = record {
  connected = true;
  state = State.following;
  epoch = pos 1;
  cursor = 4;
  pending = [];
  tail = [];
}

abbrev served : IsServed (followed Status.live) deltas
served = record {
  followable = inl refl;
  from = 4;
  lo = 0;
  log = deltas-IsLog;
  xid_of = λ lsn. lsn;
  xids = deltas-xids;
  ops = deltas-HasOp;
}

follow_server-Delivers_example :
    (sub' : Subscription Text) × (n : ℕ) × (follow_server
        (λ keys row. row)
        2
        false
        (followed Status.live)
        deltas
        subscription
      ≡ ok sub')
    × Delivers sub'.cursor sub'.pending sub'.tail (4 + n)
    × (4 + n ≤ 7)
    × ((0 < n) ⊎ ◌≡◌ {A = ℕ} 4 7)
follow_server-Delivers_example =
    follow_server-Delivers (λ keys row. row) 2 false (followed Status.live) deltas subscription 4
      served refl refl refl (omega arith) (omega arith)

follow_server-response_example :
    follow_server (λ keys row. row) 2 false (followed Status.stale) deltas subscription
    ≡ ok (start_over (ResyncReason.stale (codes "a column was dropped")) subscription)
unfolding Errors.recorded
follow_server-response_example =
    follow_server-response (λ keys row. row) 2 false (followed Status.stale) deltas subscription
      (is_stale refl)

new_epoch-epoch_changed_example :
    new_epoch (Errors.epoch_changed (codes "public.orders_view") (pos 1) (pos 12)).detail (pos 1)
    ≡ pos 12
new_epoch-epoch_changed_example =
    new_epoch-epoch_changed (codes "public.orders_view") (pos 1) (pos 1) 12 (omega arith)
