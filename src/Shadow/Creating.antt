-- ===== src/Shadow/Creating.antt =====
-- The shadow tables of src/shadow.rs: how one is created and rebuilt.
use nabla.Base.{
  ℕ, suc, List, [], ◌∷◌, ◌++◌, none, some, false, Text, Result, ok, ◌>>=◌, codes, concat,
  if◌then◌else◌,
}
use nabla.Definition.Types.{BaseRelation}
use nabla.Apply.Plan.{table_name}
use nabla.Worker.Types.{Catalog}
use nabla.Worker.Catalog.{update_shadows}
use nabla.Shadow.Server.{Server, State, run, update_catalog, physical_columns}
use nabla.Shadow.Columns.{active_set, quoted_list}
use nabla.Shadow.Tables.{existing, index_join_keys, internal_write, provide_column, extend}

module _ (server : Server) where
  open server use {spi, columns_of, oid_of, record_dependency}
  open spi use {quote_identifier}

  unfoldable pub insert_shadow : BaseRelation → ℕ → List Text → List Text → Catalog → Catalog
  insert_shadow rel frontier names types cat = record cat {
    shadows =
        cat.shadows
        ++ (record {
          relid = rel.oid;
          table_name = table_name rel.oid;
          frontier_lsn = frontier;
          failed = false;
          columns = names;
          column_types = types;
          pk_columns = rel.pk_columns;
          stale_reason = none;
          refcount = 1;
          join_keys = [];
        }
            ∷ []);
  }

  unfoldable pub guard_ddl : Text → State server → Result Text (State server)
  guard_ddl table st =
      run server
        (concat (
          codes "CREATE TRIGGER nabla_guard BEFORE INSERT OR UPDATE OR DELETE ON "
          ∷ table
          ∷ codes " FOR EACH ROW EXECUTE FUNCTION nabla.guard_view()"
          ∷ []))
        st
      >>= λ st1.
          run server
            (concat (
              codes "CREATE TRIGGER nabla_guard_truncate BEFORE TRUNCATE ON "
              ∷ table
              ∷ codes " FOR EACH STATEMENT EXECUTE FUNCTION nabla.guard_view()"
              ∷ []))
            st1

  -- The shadow depends on its base table.
  unfoldable pub depend_on : Text → ℕ → State server → State server
  depend_on table oid st = elim (oid_of st.tables table) [
    | none ↦ st
    | some dependent ↦ record st { tables = record_dependency dependent oid st.tables }
  ]

  unfoldable pub create :
      BaseRelation → ℕ → List Text → List Text → State server → Result Text (State server)
  create rel frontier needed keys st =
      let table = table_name rel.oid in
      let active = active_set rel needed (columns_of st.tables rel.oid) in
      run server
        (concat (
          codes "CREATE TABLE "
          ∷ table
          ∷ codes " AS SELECT "
          ∷ quoted_list quote_identifier active.0
          ∷ codes " FROM "
          ∷ rel.qualified
          ∷ []))
        st
      >>= λ st1.
          run server
            (concat (
              codes "CREATE UNIQUE INDEX ON "
              ∷ table
              ∷ codes " ("
              ∷ quoted_list quote_identifier rel.pk_columns
              ∷ codes ")"
              ∷ []))
            st1
          >>= λ st2. guard_ddl table st2 >>= λ st3.
              index_join_keys server rel active.0 [] keys
                (update_catalog server (insert_shadow rel frontier active.0 active.1) st3)
              >>= λ st4. run server (codes "ANALYZE " ++ table) st4 >>= λ st5.
                  ok (depend_on table rel.oid st5)

  unfoldable pub provide_columns :
      BaseRelation
      → List (Text × Text)
      → List Text
      → List Text
      → State server
      → Result Text (State server)
  provide_columns rel physical [] types st = ok st
  provide_columns rel physical (name ∷ names) [] st = ok st
  provide_columns rel physical (name ∷ names) (ty ∷ types) st =
      provide_column server rel physical name ty st >>= λ st1.
      provide_columns rel physical names types st1

  unfoldable pub rebuild :
      BaseRelation → ℕ → List Text → List Text → State server → Result Text (State server)
  rebuild rel frontier needed keys st = elim (existing rel.oid st.catalog.shadows) [
    | none ↦ create rel frontier needed keys st
    | some current ↦
        let table = table_name rel.oid in
        let physical = physical_columns server st.tables table in
        let active = active_set rel needed (columns_of st.tables rel.oid) in
        let list = quoted_list quote_identifier active.0 in
        internal_write server st >>= λ st1.
        run server (codes "DELETE FROM " ++ table) st1 >>= λ st2.
        provide_columns rel physical active.0 active.1 st2 >>= λ st3.
        run server
          (concat (
            codes "INSERT INTO "
            ∷ table
            ∷ codes " ("
            ∷ list
            ∷ codes ") SELECT "
            ∷ list
            ∷ codes " FROM "
            ∷ rel.qualified
            ∷ []))
          st3
        >>= λ st4. index_join_keys server rel active.0 current.join_keys keys st4 >>= λ st5.
            run server (codes "ANALYZE " ++ table) st5 >>= λ st6. ok (
              update_catalog server
                (update_shadows rel.oid (λ r. record r {
                  frontier_lsn = frontier;
                  stale_reason = none;
                  failed = false;
                  columns = active.0;
                  pk_columns = rel.pk_columns;
                  column_types = active.1;
                }))
                st6)
  ]

  -- One more view uses the shadow. The row that is read for `failed` is the one that was found.
  unfoldable pub ensure :
      BaseRelation → ℕ → List Text → List Text → State server → Result Text (State server)
  ensure rel frontier needed keys st = elim (existing rel.oid st.catalog.shadows) [
    | none ↦ create rel frontier needed keys st
    | some current ↦
        let counted =
          update_catalog server
            (update_shadows rel.oid (λ r. record r { refcount = suc r.refcount })) st in
        if current.failed
        then rebuild rel frontier needed keys counted
        else extend server rel current needed keys counted
  ]
