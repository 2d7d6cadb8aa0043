-- ===== src/Populate/Build.antt =====
-- `build` of src/populate.rs: one view of a group, built or rebuilt in the population transaction.
use nabla.Base.{
  ℕ, suc, List, [], ◌∷◌, ◌++◌, map, none, some, Bool, true, false, ◌&&◌, Text, Result, ok, err,
  ◌>>=◌, text_eq, text_lt, codes, concat, join, ltb, ◌==◌, if◌then◌else◌,
}
use nabla.Base.Sets
use nabla.Definition.Types.{Shape, projection, aggregate, BaseRelation, ViewSpec, is_join}
use nabla.Worker.Types.{Status, ViewRow, ViewRelation, DeltaRow, Catalog}
use nabla.Worker.Catalog.{storage_name, update_views}
use nabla.Shadow.Server.{Server, State, update_catalog}
use nabla.Shadow.Creating
use nabla.Populate.Group.{Pending, is_refreshing}

-- `DELETE FROM nabla.deltas WHERE view_id = $1`.
unfoldable pub delete_deltas : ℕ → List DeltaRow → List DeltaRow
delete_deltas id [] = []
delete_deltas id (d ∷ ds) =
    let rest = delete_deltas id ds in if d.view_id == id then rest else d ∷ rest

-- The set of names, extended.
unfoldable pub add_names : List Text → List Text → List Text
add_names names new = Sets.extend text_eq text_lt names new

-- What the relations of a specification with the given oid use and join on.
unfoldable pub collect_needed :
    ℕ → List BaseRelation → List Text × List Text → List Text × List Text
collect_needed relid [] sets = sets
collect_needed relid (r ∷ rels) sets = collect_needed relid rels (
    if r.oid == relid
    then (add_names sets.0 r.used_columns, add_names sets.1 r.join_keys)
    else sets)

-- The view of a row, if its document is a specification.
unfoldable pub collect_view : ℕ → ℕ → List ViewRow → List Text × List Text → List Text × List Text
collect_view relid id [] sets = sets
collect_view relid id (v ∷ views) sets = collect_view relid id views (
    if v.id == id
    then elim v.spec [ none ↦ sets | some spec ↦ collect_needed relid spec.relations sets ]
    else sets)

-- The views that have a row for the relation, of any status.
unfoldable pub collect_rows :
    ℕ → List ViewRow → List ViewRelation → List Text × List Text → List Text × List Text
collect_rows relid views [] sets = sets
collect_rows relid views (vr ∷ rows) sets =
    collect_rows relid views rows
      (if vr.relid == relid then collect_view relid vr.view_id views sets else sets)

unfoldable pub needed_columns : ℕ → ViewSpec → Catalog → List Text × List Text
needed_columns relid own cat =
    collect_needed relid own.relations (collect_rows relid cat.views cat.view_relations ([], []))

-- The columns of the unique index on a view's storage.
unfoldable pub index_columns : ViewSpec → List Text
index_columns spec = elim spec.shape [
  | projection ↦ spec.pk_view_columns
  | aggregate ↦ map (λ c. c.alias) spec.columns
]

unfoldable pub nulls_clause : Shape → Text
nulls_clause projection = []
nulls_clause aggregate = codes " NULLS NOT DISTINCT"

unfoldable pub view_ddl : (Text → Text) → Text → ViewSpec → List Text
view_ddl quote_identifier name spec =
    concat (
      codes "CREATE UNIQUE INDEX ON "
      ∷ name
      ∷ codes " ("
      ∷ join (codes ", ") (map quote_identifier (index_columns spec))
      ∷ codes ")"
      ∷ nulls_clause spec.shape
      ∷ [])
    ∷ concat (
        codes "CREATE TRIGGER nabla_guard BEFORE INSERT OR UPDATE OR DELETE ON "
        ∷ name
        ∷ codes " FOR EACH ROW EXECUTE FUNCTION nabla.guard_view()"
        ∷ [])
    ∷ concat (
        codes "CREATE TRIGGER nabla_guard_truncate BEFORE TRUNCATE ON "
        ∷ name
        ∷ codes " FOR EACH STATEMENT EXECUTE FUNCTION nabla.guard_view()"
        ∷ [])
    ∷ []

-- `status = 'failed'` with the message.
unfoldable pub mark_failed : ℕ → Text → Catalog → Catalog
mark_failed id message =
    update_views id (λ r. record r { status = Status.failed; last_error = some message })

unfoldable pub store_spec : ℕ → ViewSpec → Catalog → Catalog
store_spec id spec = update_views id (λ r. record r { spec = some spec })

-- The last two statements: the view is live at the consistent point, in a new epoch if it was rebuilt, and its
-- deltas are gone.
unfoldable pub go_live : ℕ → ℕ → Bool → Catalog → Catalog
go_live id point rebuild cat =
    let updated =
      update_views id
        (λ r. record r {
          frontier_lsn = point;
          epoch = if rebuild then suc r.epoch else r.epoch;
          status = Status.live;
          apply_failures = 0;
          last_error = none;
          stale_reason = none;
          populated = true;
        })
        cat in
    record updated { deltas = delete_deltas id cat.deltas }

module _ (server : Server) where
  open server use {spi, oid_of, record_dependency, validate}
  open spi use {quote_identifier}

  -- A statement whose error ends the build.
  unfoldable pub run_sql : Text → State server → Result Text (State server)
  run_sql sql st = elim (spi.query sql [] st.tables) [
    | err e ↦ err e
    | ok (rows, tables') ↦ ok (record st { tables = tables' })
  ]

  unfoldable pub run_each : List Text → State server → Result Text (State server)
  run_each [] st = ok st
  run_each (sql ∷ sqls) st = run_sql sql st >>= λ st'. run_each sqls st'

  -- The shadows of a join view; the ones that the group has seen to are passed over.
  unfoldable pub build_shadows :
      Bool
      → ℕ
      → ViewSpec
      → List BaseRelation
      → List ℕ
      → State server
      → Result Text (List ℕ × State server)
  build_shadows rebuild point spec [] seen st = ok (seen, st)
  build_shadows rebuild point spec (rel ∷ rels) seen st =
      let skip = build_shadows rebuild point spec rels seen st in
      let sets = needed_columns rel.oid spec st.catalog in
      let now =
        (if rebuild
          then Creating.rebuild server rel point sets.0 sets.1 st
          else Creating.ensure server rel point sets.0 sets.1 st)
        >>= λ st'. build_shadows rebuild point spec rels (Sets.insert ◌==◌ ltb rel.oid seen) st' in
      if Sets.member ◌==◌ rel.oid seen then skip else now

  unfoldable pub depend_on_all : ℕ → List BaseRelation → State server → State server
  depend_on_all oid [] st = st
  depend_on_all oid (rel ∷ rels) st =
      depend_on_all oid rels (record st { tables = record_dependency oid rel.oid st.tables })

  unfoldable pub storage_depends : Text → ViewSpec → State server → State server
  storage_depends storage spec st = elim (oid_of st.tables storage) [
    | none ↦ st
    | some oid ↦ depend_on_all oid spec.relations st
  ]

  -- The storage is filled again, or made with the view on it.
  unfoldable pub fill_storage : Pending → ViewSpec → State server → Result Text (State server)
  fill_storage view spec st =
      let storage = storage_name view.id in
      elim (oid_of st.tables storage) [
        | some oid ↦ run_sql (codes "DELETE FROM " ++ storage) st >>= λ st1.
            run_sql (concat (codes "INSERT INTO " ∷ storage ∷ codes " " ∷ spec.populate_sql ∷ []))
              st1
        | none ↦
            run_sql
              (concat (codes "CREATE TABLE " ∷ storage ∷ codes " AS " ∷ spec.populate_sql ∷ [])) st
            >>= λ st1. run_each (view_ddl quote_identifier storage spec) st1 >>= λ st2.
                run_sql
                  (concat (
                    codes "CREATE VIEW "
                    ∷ view.name
                    ∷ codes " AS SELECT "
                    ∷ join (codes ", ") (map quote_identifier spec.visible_columns)
                    ∷ codes " FROM "
                    ∷ storage
                    ∷ []))
                  (storage_depends storage spec st2)
                >>= λ st3. ok (
                    update_catalog server
                      (update_views view.id (λ r. record r { relid = oid_of st3.tables view.name }))
                      st3)
      ]

  -- With the specification at hand.
  unfoldable pub build_spec :
      Pending → Bool → ℕ → ViewSpec → List ℕ → State server → Result Text (List ℕ × State server)
  build_spec view rebuild point spec seen st =
      (if is_join spec
        then build_shadows rebuild point spec spec.relations seen st
        else ok (seen, st))
      >>= λ r. fill_storage view spec r.1 >>= λ st'.
          ok (r.0, update_catalog server (go_live view.id point rebuild) st')

  -- A rebuild validates the definition again; one that no longer resolves fails its view alone.
  unfoldable pub build : Pending → ℕ → List ℕ → State server → Result Text (List ℕ × State server)
  build view point seen st = run_sql (codes "SET LOCAL nabla.internal_write = on") st >>= λ st1.
      if is_refreshing view.status && view.populated
      then elim (validate st1.tables view.definition) [
        | err message ↦ ok (seen, update_catalog server (mark_failed view.id message) st1)
        | ok spec ↦
            build_spec view true point spec seen
              (update_catalog server (store_spec view.id spec) st1)
      ]
      else build_spec view false point view.spec seen st1
