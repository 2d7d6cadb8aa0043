-- ===== src/Shadow/Tables.antt =====
-- The shadow tables of src/shadow.rs: how one gets columns and indexes.
use nabla.Base.{
  zip, ℕ, List, [], ◌∷◌, ◌++◌, map, Option, none, some, Bool, false, not, ◌||◌, Text, Result, ok,
  ◌>>=◌, text_eq, text_lt, codes, concat, ◌==◌, if◌then◌else◌,
}
use nabla.Base.Sets
use nabla.Definition.Types.{BaseRelation}
use nabla.Apply.Plan.{table_name}
use nabla.Worker.Types.{ShadowRow}
use nabla.Worker.Catalog.{update_shadows}
use nabla.Shadow.Server.{Server, State, run, update_catalog, physical_columns}
use nabla.Shadow.Columns.{has, find_type, sort_pairs, pk_match, index_name}

-- `existing`: the row of the shadow.
unfoldable pub existing : ℕ → List ShadowRow → Option ShadowRow
existing oid [] = none
existing oid (r ∷ rows) = let rest = existing oid rows in if r.relid == oid then some r else rest

-- `single_pk && rel.pk_columns[0] == *key`.
unfoldable pub is_single_pk : List Text → Text → Bool
is_single_pk [] key = false
is_single_pk (c ∷ []) key = text_eq c key
is_single_pk (c ∷ d ∷ cs) key = false

module _ (server : Server) where
  open server use {spi, columns_of, oid_of, record_dependency}
  open spi use {quote_identifier}

  unfoldable pub index_keys :
      BaseRelation → List Text → List Text → State server → Result Text (State server)
  index_keys rel active [] st = ok st
  index_keys rel active (key ∷ keys) st =
      let create_index =
        run server
          (concat (
            codes "CREATE INDEX IF NOT EXISTS "
            ∷ quote_identifier (index_name rel.oid key)
            ∷ codes " ON "
            ∷ table_name rel.oid
            ∷ codes " ("
            ∷ quote_identifier key
            ∷ codes ")"
            ∷ []))
          st in
      (if not (has key active) || is_single_pk rel.pk_columns key then ok st else create_index)
      >>= λ st'. index_keys rel active keys st'

  unfoldable pub all_keys : List Text → List Text → List Text
  all_keys previous keys =
      Sets.extend text_eq text_lt (Sets.extend text_eq text_lt [] previous) keys

  unfoldable pub index_join_keys :
      BaseRelation → List Text → List Text → List Text → State server → Result Text (State server)
  index_join_keys rel active previous keys st =
      index_keys rel active (all_keys previous keys) st >>= λ st'. ok (
        update_catalog server
          (update_shadows rel.oid (λ r. record r { join_keys = all_keys previous keys })) st')

  unfoldable pub store_columns : ℕ → List Text → List Text → State server → State server
  store_columns oid names types =
      update_catalog server
        (update_shadows oid (λ r. record r { columns = names; column_types = types }))

  unfoldable pub internal_write : State server → Result Text (State server)
  internal_write = run server (codes "SET LOCAL nabla.internal_write = on")

  unfoldable pub add_column : BaseRelation → Text → Text → State server → Result Text (State server)
  add_column rel col ty = run server (
      concat (
        codes "ALTER TABLE "
        ∷ table_name rel.oid
        ∷ codes " ADD COLUMN "
        ∷ col
        ∷ codes " "
        ∷ ty
        ∷ []))

  unfoldable pub retype_column :
      BaseRelation → Text → Text → State server → Result Text (State server)
  retype_column rel col ty = run server (
      concat (
        codes "ALTER TABLE "
        ∷ table_name rel.oid
        ∷ codes " ALTER COLUMN "
        ∷ col
        ∷ codes " TYPE "
        ∷ ty
        ∷ codes " USING NULL::"
        ∷ ty
        ∷ []))

  -- The table gets the column, or the column its type.
  unfoldable pub provide_column :
      BaseRelation → List (Text × Text) → Text → Text → State server → Result Text (State server)
  provide_column rel physical name ty st = elim (find_type name physical) [
    | none ↦ add_column rel (quote_identifier name) ty st
    | some there ↦
        if not (text_eq there ty) then retype_column rel (quote_identifier name) ty st else ok st
  ]

  unfoldable pub backfill : BaseRelation → Text → State server → Result Text (State server)
  backfill rel col = run server (
      concat (
        codes "UPDATE "
        ∷ table_name rel.oid
        ∷ codes " AS s SET "
        ∷ col
        ∷ codes " = b."
        ∷ col
        ∷ codes " FROM "
        ∷ rel.qualified
        ∷ codes " AS b WHERE "
        ∷ pk_match quote_identifier rel.pk_columns
        ∷ []))

  -- The loop over the columns of the base, with the columns and the types so far.
  unfoldable pub extend_columns :
      BaseRelation
      → List Text
      → List (Text × Text)
      → List (Text × Text)
      → List Text
      → List Text
      → State server
      → Result Text ((List Text × List Text) × State server)
  extend_columns rel needed physical [] names types st = ok ((names, types), st)
  extend_columns rel needed physical ((name, ty) ∷ base) names types st =
      let skip = extend_columns rel needed physical base names types st in
      let add = provide_column rel physical name ty st >>= λ st1.
      backfill rel (quote_identifier name) st1 >>= λ st2.
      extend_columns rel needed physical base (names ++ name ∷ []) (types ++ ty ∷ []) st2 in
      if has name names || not (has name needed || has name rel.pk_columns) then skip else add

  unfoldable pub extend :
      BaseRelation → ShadowRow → List Text → List Text → State server → Result Text (State server)
  extend rel current needed keys st =
      let base = columns_of st.tables rel.oid in
      let physical = physical_columns server st.tables (table_name rel.oid) in
      internal_write st >>= λ st1.
      extend_columns rel needed physical base current.columns current.column_types st1 >>= λ r.
      let pairs = sort_pairs base (zip r.0.0 r.0.1) in
      let names = map {A = Text × Text} (λ p. p.0) pairs in
      let types = map {A = Text × Text} (λ p. p.1) pairs in
      index_join_keys rel names current.join_keys keys (store_columns rel.oid names types r.1)
