-- ===== src/Populate/Frames.antt =====
-- What the shadow tables of src/shadow.rs and the statements of src/populate.rs leave alone in the catalog.
use nabla.Base.{
  ℕ, suc, ◌≡◌, refl, sym, ◌∙◌, subst, inl, inr, List, [], ◌∷◌, ◌++◌, Option-cases, Bool, true,
  false, not, ◌||◌, Text, Result, ok, err, ◌>>=◌, Result-cases, Holds, Holds-map, text_eq,
  Bool-cases, if◌then◌else◌,
}
use nabla.Definition.Types.{BaseRelation}
use nabla.Apply.Plan.{table_name}
use nabla.Worker.Types.{ShadowRow, Catalog}
use nabla.Worker.Catalog.{update_shadows}
use nabla.Shadow.Server.{Server, State, run, update_catalog}
use nabla.Shadow.Tables
use nabla.Shadow.Creating
use nabla.Shadow.Keeping.{run-catalog, depend_on-catalog}
use nabla.Shadow.Columns.{has, find_type, active_set}
use nabla.Populate.Build.{run_sql, run_each}

-- The views, their relations and their deltas are the same.
pub record SameViews (a b : Catalog) : Type 0 where
  pub same_views : b.views ≡ a.views
  pub same_relations : b.view_relations ≡ a.view_relations
  pub same_deltas : b.deltas ≡ a.deltas

pub SameViews-refl : (a : Catalog) → SameViews a a
SameViews-refl a = record { same_views = refl; same_relations = refl; same_deltas = refl }

pub SameViews-trans : (a b c : Catalog) → SameViews a b → SameViews b c → SameViews a c
SameViews-trans a b c h k = record {
  same_views = k.same_views ∙ h.same_views;
  same_relations = k.same_relations ∙ h.same_relations;
  same_deltas = k.same_deltas ∙ h.same_deltas;
}

SameViews-update_shadows :
    (oid : ℕ) (f : ShadowRow → ShadowRow) (a : Catalog) → SameViews a (update_shadows oid f a)
unfolding update_shadows
SameViews-update_shadows oid f a = record {
  same_views = refl;
  same_relations = refl;
  same_deltas = refl;
}

module _ (server : Server) where
  open server use {spi}

  pub run_sql-catalog :
      (sql : Text) (st : State server)
      → Holds (λ st'. st'.catalog ≡ st.catalog) (run_sql server sql st)
  unfolding run_sql
  run_sql-catalog sql st = elim (Result-cases (spi.query sql [] st.tables)) [
    | inl ((rows, tables'), e) ↦ rw (e, run_sql) refl
    | inr (e', e) ↦ rw (e, run_sql) tt
  ]

  -- The relation holds from the catalog before to the catalog after.
  abbrev pub Keeps :
      (Catalog → Catalog → Type 0) → State server → Result Text (State server) → Type 0
  Keeps R st r = Holds (λ st'. R st.catalog st'.catalog) r

  -- A relation on catalogs that is reflexive and transitive.
  module _ (R : Catalog → Catalog → Type 0) (R-refl : (a : Catalog) → R a a)
      (R-trans : (a b c : Catalog) → R a b → R b c → R a c) where
    pub Keeps-bind :
        (st : State server) (m : Result Text (State server))
        (f : State server → Result Text (State server))
        → Keeps R st m
        → ((st1 : State server) → Keeps R st1 (f st1))
        → Keeps R st (m >>= f)
    Keeps-bind st (ok st1) f h k =
        Holds-map (λ st2. R st1.catalog st2.catalog) (λ st2. R st.catalog st2.catalog) (f st1)
          (λ st2 q. R-trans st.catalog st1.catalog st2.catalog h q) (k st1)
    Keeps-bind st (err e) f h k = tt

    pub chain :
        {X Y : Type 0} (px : X → Catalog) (py : Y → Catalog) (a : Catalog) (m : Result Text X)
        (f : X → Result Text Y)
        → Holds (λ x. R a (px x)) m
        → ((x : X) → Holds (λ y. R (px x) (py y)) (f x))
        → Holds (λ y. R a (py y)) (m >>= f)
    chain px py a (ok x) f h k =
        Holds-map (λ y. R (px x) (py y)) (λ y. R a (py y)) (f x)
          (λ y q. R-trans a (px x) (py y) h q) (k x)
    chain px py a (err e) f h k = tt

    pub same : (st st' : State server) → st'.catalog ≡ st.catalog → R st.catalog st'.catalog
    same st st' e = subst (R st.catalog) (sym e) (R-refl st.catalog)

    pub Keeps-run : (sql : Text) (st : State server) → Keeps R st (run server sql st)
    Keeps-run sql st =
        Holds-map (λ st'. st'.catalog ≡ st.catalog) (λ st'. R st.catalog st'.catalog)
          (run server sql st) (same st) (run-catalog server sql st)

    pub Keeps-run_sql : (sql : Text) (st : State server) → Keeps R st (run_sql server sql st)
    Keeps-run_sql sql st =
        Holds-map (λ st'. st'.catalog ≡ st.catalog) (λ st'. R st.catalog st'.catalog)
          (run_sql server sql st) (same st) (run_sql-catalog sql st)

    pub Keeps-run_each :
        (sqls : List Text) (st : State server) → Keeps R st (run_each server sqls st)
    unfolding run_each
    Keeps-run_each [] st = R-refl st.catalog
    Keeps-run_each (sql ∷ sqls) st =
        Keeps-bind st (run_sql server sql st) (run_each server sqls) (Keeps-run_sql sql st)
          (λ st1. Keeps-run_each sqls st1)

    pub Keeps-after :
        (st st1 : State server) (m : Result Text (State server))
        → R st.catalog st1.catalog
        → Keeps R st1 m
        → Keeps R st m
    Keeps-after st st1 m h k =
        Holds-map (λ st2. R st1.catalog st2.catalog) (λ st2. R st.catalog st2.catalog) m
          (λ st2 q. R-trans st.catalog st1.catalog st2.catalog h q) k

    Keeps-if :
        (b : Bool) (st : State server) (m n : Result Text (State server))
        → Keeps R st m
        → Keeps R st n
        → Keeps R st (if b then m else n)
    Keeps-if true st m n h k = h
    Keeps-if false st m n h k = k

    -- The shadow tables, where the relation allows a change of a shadow's row and a new one.
    module _
        (R-update : (oid : ℕ) (f : ShadowRow → ShadowRow) (a : Catalog)
          → R a (update_shadows oid f a))
        (R-insert : (rel : BaseRelation) (frontier : ℕ) (names types : List Text) (a : Catalog)
          → R a (Creating.insert_shadow server rel frontier names types a)) where
      Keeps-index_keys :
          (rel : BaseRelation) (active keys : List Text) (st : State server)
          → Keeps R st (Tables.index_keys server rel active keys st)
      unfolding Tables.index_keys
      Keeps-index_keys rel active [] st = R-refl st.catalog
      Keeps-index_keys rel active (key ∷ keys) st =
          Keeps-bind st _ (Tables.index_keys server rel active keys)
            (Keeps-if (not (has key active) || Tables.is_single_pk rel.pk_columns key) st _ _
              (R-refl st.catalog) (Keeps-run _ st))
            (λ st1. Keeps-index_keys rel active keys st1)

      Keeps-index_join_keys :
          (rel : BaseRelation) (active previous keys : List Text) (st : State server)
          → Keeps R st (Tables.index_join_keys server rel active previous keys st)
      unfolding Tables.index_join_keys update_catalog
      Keeps-index_join_keys rel active previous keys st =
          Keeps-bind st _ _ (Keeps-index_keys rel active (Tables.all_keys server previous keys) st)
            (λ st1. R-update rel.oid _ st1.catalog)

      Keeps-provide_column :
          (rel : BaseRelation) (physical : List (Text × Text)) (name ty : Text) (st : State server)
          → Keeps R st (Tables.provide_column server rel physical name ty st)
      unfolding Tables.provide_column Tables.add_column Tables.retype_column
      Keeps-provide_column rel physical name ty st = elim (Option-cases (find_type name physical)) [
        | inl e ↦ rw (e, Tables.provide_column) (Keeps-run _ st)
        | inr (there, e) ↦
            rw (e, Tables.provide_column)
              (Keeps-if (not (text_eq there ty)) st _ _ (Keeps-run _ st) (R-refl st.catalog))
      ]

      Keeps-provide_columns :
          (rel : BaseRelation) (physical : List (Text × Text)) (names types : List Text)
          (st : State server)
          → Keeps R st (Creating.provide_columns server rel physical names types st)
      unfolding Creating.provide_columns
      Keeps-provide_columns rel physical [] types st = R-refl st.catalog
      Keeps-provide_columns rel physical (name ∷ names) [] st = R-refl st.catalog
      Keeps-provide_columns rel physical (name ∷ names) (ty ∷ types) st =
          Keeps-bind st _ _ (Keeps-provide_column rel physical name ty st)
            (λ st1. Keeps-provide_columns rel physical names types st1)

      Keeps-create :
          (rel : BaseRelation) (frontier : ℕ) (needed keys : List Text) (st : State server)
          → Keeps R st (Creating.create server rel frontier needed keys st)
      unfolding Creating.create Creating.guard_ddl update_catalog
      Keeps-create rel frontier needed keys st =
          let active = active_set rel needed (server.columns_of st.tables rel.oid) in
          Keeps-bind st _ _ (Keeps-run _ st) (λ st1. Keeps-bind st1 _ _ (Keeps-run _ st1) (λ st2.
            Keeps-bind st2 _ _ (Keeps-bind st2 _ _ (Keeps-run _ st2) (λ q. Keeps-run _ q)) (λ st3.
              Keeps-bind st3 _ _
                (Keeps-after st3
                  (update_catalog server
                    (Creating.insert_shadow server rel frontier active.0 active.1) st3)
                  _ (R-insert rel frontier active.0 active.1 st3.catalog)
                  (Keeps-index_join_keys rel active.0 [] keys (
                    update_catalog server
                      (Creating.insert_shadow server rel frontier active.0 active.1) st3)))
                (λ st4. Keeps-bind st4 _ _ (Keeps-run _ st4) (λ st5.
                  same st5 (Creating.depend_on server (table_name rel.oid) rel.oid st5)
                    (depend_on-catalog server (table_name rel.oid) rel.oid st5))))))

      Keeps-extend_columns :
          (rel : BaseRelation) (needed : List Text) (physical base : List (Text × Text))
          (names types : List Text) (st : State server)
          → Holds
              (λ r. R st.catalog r.1.catalog)
              (Tables.extend_columns server rel needed physical base names types st)
      unfolding Tables.extend_columns Tables.backfill
      Keeps-extend_columns rel needed physical [] names types st = R-refl st.catalog
      Keeps-extend_columns rel needed physical ((name, ty) ∷ base) names types st =
          elim (Bool-cases (has name names || not (has name needed || has name rel.pk_columns))) [
            | inl e ↦ rw e (Keeps-extend_columns rel needed physical base names types st)
            | inr e ↦ rw e (
                chain (λ st1. st1.catalog) (λ r. r.1.catalog) st.catalog
                  (Tables.provide_column server rel physical name ty st) _
                  (Keeps-provide_column rel physical name ty st)
                  (λ st1.
                    chain (λ st2. st2.catalog) (λ r. r.1.catalog) st1.catalog
                      (Tables.backfill server rel (server.spi.quote_identifier name) st1) _
                      (Keeps-run _ st1)
                      (λ st2.
                        Keeps-extend_columns rel needed physical base (names ++ name ∷ [])
                          (types ++ ty ∷ []) st2)))
          ]

      Keeps-extend :
          (rel : BaseRelation) (current : ShadowRow) (needed keys : List Text) (st : State server)
          → Keeps R st (Tables.extend server rel current needed keys st)
      unfolding Tables.extend Tables.internal_write Tables.store_columns update_catalog
      Keeps-extend rel current needed keys st = Keeps-bind st _ _ (Keeps-run _ st) (λ st1.
          chain (λ r. r.1.catalog) (λ st2. st2.catalog) st1.catalog _ _
            (Keeps-extend_columns rel needed _ _ current.columns current.column_types st1)
            (λ r.
              Keeps-after r.1 (update_catalog server (update_shadows rel.oid _) r.1) _
                (R-update rel.oid _ r.1.catalog)
                (Keeps-index_join_keys rel _ current.join_keys keys _)))

      pub Keeps-rebuild :
          (rel : BaseRelation) (frontier : ℕ) (needed keys : List Text) (st : State server)
          → Keeps R st (Creating.rebuild server rel frontier needed keys st)
      unfolding Creating.rebuild Tables.internal_write update_catalog
      Keeps-rebuild rel frontier needed keys st =
          elim (Option-cases (Tables.existing rel.oid st.catalog.shadows)) [
            | inl e ↦ rw (e, Creating.rebuild) (Keeps-create rel frontier needed keys st)
            | inr (current, e) ↦
                rw (e, Creating.rebuild)
                  (Keeps-bind st _ _ (Keeps-run _ st) (λ st1.
                    Keeps-bind st1 _ _ (Keeps-run _ st1) (λ st2.
                      Keeps-bind st2 _ _ (Keeps-provide_columns rel _ _ _ st2) (λ st3.
                        Keeps-bind st3 _ _ (Keeps-run _ st3) (λ st4.
                          Keeps-bind st4 _ _
                            (Keeps-index_join_keys rel _ current.join_keys keys st4)
                            (λ st5.
                              Keeps-bind st5 _ _ (Keeps-run _ st5)
                                (λ st6. R-update rel.oid _ st6.catalog)))))))
          ]

      pub Keeps-ensure :
          (rel : BaseRelation) (frontier : ℕ) (needed keys : List Text) (st : State server)
          → Keeps R st (Creating.ensure server rel frontier needed keys st)
      unfolding Creating.ensure update_catalog
      Keeps-ensure rel frontier needed keys st =
          elim (Option-cases (Tables.existing rel.oid st.catalog.shadows)) [
            | inl e ↦ rw (e, Creating.ensure) (Keeps-create rel frontier needed keys st)
            | inr (current, e) ↦
                rw (e, Creating.ensure)
                  (Keeps-if current.failed st _ _
                    (Keeps-after st (counted st) _ (R-update rel.oid _ st.catalog)
                      (Keeps-rebuild rel frontier needed keys (counted st)))
                    (Keeps-after st (counted st) _ (R-update rel.oid _ st.catalog)
                      (Keeps-extend rel current needed keys (counted st))))
          ]
        where
          counted : State server → State server
          counted s =
              update_catalog server
                (update_shadows rel.oid (λ r. record r { refcount = suc r.refcount })) s
