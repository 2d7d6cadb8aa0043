-- ===== src/Api/Views.antt =====
-- `create_view` and `refresh` of src/api.rs, which record what the worker has to build, and the functions that read
-- a row.
use nabla.Base.{
  ℕ, suc, List, [], ◌∷◌, ◌++◌, map, Option, none, some, Bool, true, false, not, ◌&&◌, Text, Result,
  ok, err, ◌>>=◌, codes, concat, decimal, text_eq, ◌==◌, any, if◌then◌else◌,
}
use nabla.Base.Sets.{member}
use nabla.Lsn
use nabla.Errors
use nabla.Errors.{Report}
use nabla.Definition.Types.{projection, aggregate, BaseRelation, ViewSpec, is_join}
use nabla.Worker.Types.{Status, ViewRow, ViewRelation, Catalog}
use nabla.Populate.Group.{is_pending}
use nabla.Api.Changes.{CatalogRow}
use nabla.Api.Closure.{refresh_closure}
use nabla.Definition.Types.{BaseTable}
use nabla.Api.Names.{Environment, parse_name, creation_name, load_view_where, find_view}

-- The catalog with the next id of a view, whether the slot is there, the tables of the publication if that is
-- there, and whether the transaction has written.
pub record Session : Type 0 where
  pub catalog : Catalog
  pub next_id : ℕ
  pub slot : Bool
  pub publication : Option (List ℕ)
  pub has_written : Bool

-- PostgreSQL makes no logical slot in a transaction that has written.
unfoldable pub slot_refused : Report
slot_refused =
    Errors.raise (codes "25001")
      (codes "cannot create logical replication slot in transaction that has performed writes") none

unfoldable pub ensure_slot : Session → Result Report Session
ensure_slot s =
    if s.slot
    then ok s
    else if s.has_written
    then err slot_refused
    else ok (record s { slot = true })

-- The tables of the publication, which is made if it is not there.
unfoldable pub published : Session → List ℕ
published s = elim s.publication [ none ↦ [] | some tables ↦ tables ]

unfoldable pub make_publication : Option (List ℕ) → Session → Session
make_publication (some tables) s = s
make_publication none s = record s { publication = some []; has_written = true }

unfoldable pub ensure_publication : Session → Session
ensure_publication s = make_publication s.publication s

-- A join view whose base table keeps no full old row is fine; an aggregate over one table is not.
unfoldable pub needs_full_row : ViewSpec → BaseTable → Bool
needs_full_row spec base =
    not (is_join spec)
    && (elim spec.shape [ aggregate ↦ true | projection ↦ false ])
    && not (text_eq base.replident (codes "f"))

unfoldable pub name_taken : Text → List ViewRow → Bool
name_taken canonical rows = any (λ r. text_eq r.name canonical) rows

-- `INSERT INTO nabla.views`, and a row of `nabla.view_relations` for each relation.
unfoldable pub new_row : ℕ → Text → Text → ViewSpec → ViewRow
new_row id canonical definition spec = record {
  id = id;
  name = canonical;
  spec = some spec;
  status = Status.initializing;
  frontier_lsn = 0;
  last_seq = 0;
  apply_failures = 0;
  definition = definition;
  stale_reason = none;
  last_error = none;
  relid = none;
  epoch = 1;
  populated = false;
}

unfoldable pub relation_rows : ℕ → List BaseRelation → List ViewRelation
relation_rows id rels = map (λ rel. record { view_id = id; relid = rel.oid; rti = rel.rti }) rels

unfoldable pub insert_view : Text → Text → ViewSpec → Session → Session
insert_view canonical definition spec s = record s {
  catalog = record s.catalog {
    views = s.catalog.views ++ new_row s.next_id canonical definition spec ∷ [];
    view_relations = s.catalog.view_relations ++ relation_rows s.next_id spec.relations;
  };
  next_id = suc s.next_id;
  has_written = true;
}

-- `UPDATE nabla.views SET status = 'refreshing'` of `refresh`.
unfoldable pub mark_refreshing : List ℕ → ViewRow → ViewRow
mark_refreshing ids r =
    if member ◌==◌ r.id ids && not (is_pending r.status)
    then record r { status = Status.refreshing }
    else r

-- The row of `nabla.status`.
pub record StatusOf : Type 0 where
  pub name : Text
  pub status : Status
  pub epoch : ℕ
  pub frontier_lsn : ℕ
  pub frontier : Text
  pub current_seq : ℕ
  pub stale_reason : Option Text

unfoldable pub status_of : CatalogRow → StatusOf
status_of view = record {
  name = view.name;
  status = view.status;
  epoch = view.epoch;
  frontier_lsn = view.frontier;
  frontier = Lsn.format view.frontier;
  current_seq = view.last_seq;
  stale_reason = elim view.status [ Status.failed ↦ view.last_error | _ ↦ view.stale_reason ];
}

module _ (env : Environment) where
  open env use {regclass_text, relation_exists, wal_level, validate}

  unfoldable pub add_table : ℕ → Session → Result Report Session
  add_table oid s = elim (regclass_text oid) [
    | none ↦ err (
        Errors.failed (codes "?") (
          some
            (concat (codes "base table with oid " ∷ decimal oid ∷ codes " no longer exists" ∷ []))))
    | some table ↦
        ok (record s { publication = some (published s ++ oid ∷ []); has_written = true })
  ]

  unfoldable pub ensure_publication_includes : ℕ → Session → Result Report Session
  ensure_publication_includes oid s =
      let s' = ensure_publication s in
      if member ◌==◌ oid (published s') then ok s' else add_table oid s'

  unfoldable pub publish_relations : List BaseRelation → Session → Result Report Session
  publish_relations [] s = ok s
  publish_relations (rel ∷ rels) s =
      ensure_publication_includes rel.oid s >>= λ s'. publish_relations rels s'

  unfoldable pub require_logical_wal : Result Report (Unit {0})
  require_logical_wal =
      if text_eq wal_level (codes "logical")
      then ok tt
      else err (
          Errors.prerequisite
            (concat (
              codes "nabla: wal_level must be 'logical' (currently '"
              ∷ wal_level
              ∷ codes "')"
              ∷ []))
            (some (codes "Set wal_level = logical in postgresql.conf and restart PostgreSQL.")))

  unfoldable pub require_full_row : ViewSpec → BaseTable → Result Report (Unit {0})
  require_full_row spec base =
      if needs_full_row spec base
      then err (
          Errors.prerequisite
            (concat (
              codes "nabla: the aggregate shape needs the full old row of every change, but "
              ∷ base.qualified
              ∷ codes " has REPLICA IDENTITY '"
              ∷ base.replident
              ∷ codes "'"
              ∷ []))
            (some (
              concat (
                codes "Run: ALTER TABLE "
                ∷ base.qualified
                ∷ codes " REPLICA IDENTITY FULL;"
                ∷ []))))
      else ok tt

  unfoldable pub require_free_name : Text → List ViewRow → Result Report (Unit {0})
  require_free_name canonical rows =
      if relation_exists canonical
      then err (
          Errors.invalid
            (concat (codes "nabla: relation " ∷ canonical ∷ codes " already exists" ∷ [])) none)
      else if name_taken canonical rows
      then err (
          Errors.invalid (concat (codes "nabla: view " ∷ canonical ∷ codes " already exists" ∷ []))
            none)
      else ok tt

  -- The slot first, while nothing is written.
  unfoldable pub record_view : Text → Text → ViewSpec → Session → Result Report (Text × Session)
  record_view canonical definition spec s = ensure_slot s >>= λ s1.
      publish_relations spec.relations s1 >>= λ s2.
      ok (canonical, insert_view canonical definition spec s2)

  unfoldable pub create_view : Text → Text → Session → Result Report (Text × Session)
  create_view name definition s = parse_name env name >>= λ parsed.
      creation_name env parsed >>= λ canonical. validate definition >>= λ valid.
      require_logical_wal >>= λ _. require_full_row valid.0 valid.1 >>= λ _.
      require_free_name canonical s.catalog.views >>= λ _.
      record_view canonical definition valid.0 s

  unfoldable pub require_tables : Text → List BaseRelation → Result Report (Unit {0})
  require_tables name [] = ok tt
  require_tables name (rel ∷ rels) =
      let rest = require_tables name rels in
      elim (regclass_text rel.oid) [
        | none ↦ err (
            Errors.failed name (
              some (
                concat (
                  codes "base table "
                  ∷ rel.qualified
                  ∷ codes " (oid "
                  ∷ decimal rel.oid
                  ∷ codes ") no longer exists"
                  ∷ []))))
        | some table ↦ rest
      ]

  -- The ids of the views to rebuild. The fuel of the closure does not run out.
  unfoldable pub refresh_ids : CatalogRow → Catalog → Result Report (List ℕ)
  refresh_ids view cat =
      if is_join view.spec
      then elim (refresh_closure cat.views cat.view_relations view.id view.spec) [
        | none ↦ ok []
        | some ids ↦ load_view_where env (λ r. member ◌==◌ r.id ids) cat.views >>= λ found.
            ok (map (λ v. v.id) found)
      ]
      else ok (view.id ∷ [])

  unfoldable pub refresh : Text → Session → Result Report Session
  refresh name s = find_view env name s.catalog.views >>= λ view.
      require_tables view.name view.spec.relations >>= λ _. ensure_slot s >>= λ s1.
      refresh_ids view s1.catalog >>= λ ids. publish_relations view.spec.relations s1 >>= λ s2.
      ok (record s2 {
        catalog = record s2.catalog { views = map (mark_refreshing ids) s2.catalog.views };
        has_written = true;
      })

  unfoldable pub status : Text → Session → Result Report StatusOf
  status name s = find_view env name s.catalog.views >>= λ view. ok (status_of view)

  unfoldable pub visible_columns : Text → Session → Result Report (List Text)
  visible_columns name s =
      find_view env name s.catalog.views >>= λ view. ok view.spec.visible_columns

  unfoldable pub current_seq : Text → Session → Result Report ℕ
  current_seq name s = find_view env name s.catalog.views >>= λ view. ok view.last_seq
