-- ===== src/Api/CallTests.antt =====
-- Calls of `create_view`, `refresh` and the waiting functions of src/api.rs, and the theorems at concrete inputs.
use nabla.Base.{
  ℕ, ◌≡◌, inl, inr, refl, List, [], ◌∷◌, ◌++◌, none, some, Bool, true, false, Result, ok, err,
  codes, arith, any, text_eq,
}
use nabla.Base.Sets.{member}
use nabla.Idle.{Shared, effective_frontier}
use nabla.Idle.Soundness.{Log}
use nabla.Errors.{Report}
use nabla.Definition.Types.{is_join}
use nabla.Worker.Types.{Status, ViewRow}
use nabla.Worker.Sample.{orders_spec, view_row, catalog}
use nabla.Api.Changes.{CatalogRow}
use nabla.Api.Names.{
  Environment, parse_name, creation_name, find_view, find_by_name, load_view_where, load_row,
  catalog_row,
}
use nabla.Api.Waiting.{
  Poll, row_named, current_state, broken, at_deadline, wait_turn, wait_for_frontier, ready_loop,
}
use nabla.Api.Ending.{Sees, wait_for_frontier-Sees, waiting-Ends}
use nabla.Api.Views.{
  Session, needs_full_row, name_taken, published, make_publication, ensure_publication, add_table,
  ensure_publication_includes, publish_relations, ensure_slot, require_tables, refresh_ids, refresh,
  create_view,
}
use nabla.Api.Recording.{IsAccepted, IsRecorded, create_view-IsRecorded}
use nabla.Api.Selecting.{IsSelected, AreMarked}
use nabla.Api.Refreshing.{refresh-AreMarked}

-- A database in which every name stands in the schema public, and no relation is in the way.
abbrev env : Environment
env = record {
  range_var = λ name. ok (record { catalogname = none; schemaname = none; relname = name });
  creation_namespace = λ rv. ok (codes "public");
  visible_oid = λ rv. none;
  quote_qualified_identifier = λ schema rel. schema ++ b'.' ∷ rel;
  spec_error = λ row. codes "missing field";
  regclass_text = λ oid. some (codes "public.orders");
  relation_exists = λ name. false;
  wal_level = codes "logical";
  validate = λ definition. ok (
    orders_spec,
    record {
      oid = 16;
      qualified = codes "public.orders";
      replident = codes "d";
      pk_columns = codes "id" ∷ [];
    },
  );
}

abbrev session : Session
session = record {
  catalog = catalog 50;
  next_id = 2;
  slot = false;
  publication = none;
  has_written = false;
}

abbrev accepted :
    IsAccepted env
      (codes "recent")
      (codes "SELECT id FROM orders")
      (codes "public.recent")
      orders_spec
      session
accepted = record {
  parsed = record { catalogname = none; schemaname = none; relname = codes "recent" };
  parses = unfold parse_name any in refl;
  names = unfold creation_name in refl;
  base = record {
    oid = 16;
    qualified = codes "public.orders";
    replident = codes "d";
    pk_columns = codes "id" ∷ [];
  };
  valid = refl;
  logical = unfold text_eq in refl;
  full = unfold needs_full_row is_join in refl;
  free = refl;
  unused = unfold name_taken any text_eq in refl;
  there = ((codes "public.orders", refl), tt);
}

create_view-IsRecorded_example :
    (s' : Session) × (create_view env (codes "recent") (codes "SELECT id FROM orders") session
      ≡ ok (codes "public.recent", s'))
    × IsRecorded env (codes "public.recent") (codes "SELECT id FROM orders") orders_spec session s'
create_view-IsRecorded_example =
    create_view-IsRecorded env (codes "recent") (codes "SELECT id FROM orders")
      (codes "public.recent") orders_spec session accepted refl

-- The row of the sample view, which is found by its name.
abbrev named : ViewRow
named = record (view_row 50) { name = codes "public.orders_view" }

abbrev with_view : Session
with_view = record session { catalog = record (catalog 50) { views = named ∷ [] } }

abbrev found_row : CatalogRow
found_row = record {
  id = 1;
  name = codes "public.orders_view";
  spec = orders_spec;
  frontier = 50;
  epoch = 1;
  status = Status.live;
  last_seq = 4;
  stale_reason = none;
  last_error = none;
}

finds : find_view env (codes "orders_view") with_view.catalog.views ≡ ok found_row
unfolding find_view parse_name any find_by_name creation_name load_view_where load_row text_eq
    catalog_row
finds = refl

abbrev refreshed : Session
refreshed = elim (refresh env (codes "orders_view") with_view) [ ok s ↦ s | err report ↦ session ]

refreshes : refresh env (codes "orders_view") with_view ≡ ok refreshed
unfolding refresh find_view parse_name any find_by_name creation_name load_view_where load_row
    text_eq catalog_row require_tables ensure_slot refresh_ids is_join publish_relations
    ensure_publication_includes ensure_publication make_publication published member add_table
refreshes = refl

refresh-AreMarked_example :
    AreMarked
      (IsSelected with_view.catalog found_row (is_join orders_spec))
      with_view.catalog.views
      refreshed.catalog.views
    × (refreshed.slot ≡ true)
refresh-AreMarked_example =
    refresh-AreMarked env (codes "orders_view") found_row with_view refreshed finds refreshes

-- The window reaches from 40 to 70, and no published change lies in it.
abbrev window : Shared
window = record { initialized = true; window = record { from = 40; to = 70 } }

abbrev poll : ℕ → Bool → Poll
poll frontier is_past = record {
  views = record named { frontier_lsn = frontier } ∷ [];
  shared = window;
  is_past = is_past;
}

abbrev log : Log
log = (30, 1) ∷ (90, 2) ∷ []

-- The second turn finds the frontier in the window, and so at its end.
waited :
    wait_for_frontier (codes "public.orders_view") 60 (poll 20 false ∷ poll 50 false ∷ [])
    ≡ some (ok true)
unfolding wait_for_frontier wait_turn current_state row_named text_eq broken at_deadline
    effective_frontier
waited = refl

wait_for_frontier-Sees_example :
    (before : List Poll) × (p : Poll) × (after : List Poll) × (poll 20 false ∷ poll 50 false ∷ []
      ≡ before ++ p ∷ after)
    × Sees (codes "public.orders_view") 60 log p
wait_for_frontier-Sees_example =
    wait_for_frontier-Sees (codes "public.orders_view") 60 log (poll 20 false ∷ poll 50 false ∷ [])
      (
        (inl (omega arith), (inr (omega arith), tt)),
        ((inl (omega arith), (inr (omega arith), tt)), tt),
      )
      waited

waiting-Ends_example :
    ((r : Result Report Bool) × ((after : List Poll)
        → wait_for_frontier (codes "public.orders_view") 90 (poll 20 false ∷ poll 50 true ∷ after)
          ≡ some r))
    × ((r : Result Report Bool) × ((after : List Poll)
          → ready_loop (codes "public.orders_view") (poll 20 false ∷ poll 50 true ∷ after)
            ≡ some r))
waiting-Ends_example =
    waiting-Ends (codes "public.orders_view") 90 (poll 20 false ∷ []) (poll 50 true) refl
