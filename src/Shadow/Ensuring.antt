-- ===== src/Shadow/Ensuring.antt =====
-- `ensure` and `rebuild` of src/shadow.rs: what the row of the shadow says afterwards.
use nabla.Base.{
  zip, ℕ, ◌≡◌, inl, inr, refl, sym, ap, ◌∙◌, subst, List, [], ◌∷◌, ◌++◌, Option-cases, none,
  Bool-cases, not, ◌||◌, Text, Result, ok, err, Holds, Holds-map, Holds-bind, Holds-then, Holds-ok,
  length, length-append, arith,
}
use nabla.Definition.Types.{BaseRelation}
use nabla.Worker.Types.{ShadowRow, Catalog}
use nabla.Worker.Catalog.{update_shadows}
use nabla.Shadow.Server.{Server, State, update_catalog, physical_columns}
use nabla.Shadow.Columns.{has, active_set, sort_pairs}
use nabla.Apply.Plan.{table_name}
use nabla.Shadow.Tables
use nabla.Shadow.Creating
use nabla.Shadow.Tables.{existing}
use nabla.Shadow.Wanted.{
  Columns, names_of, Has, Covers, Covers-map, active_set-Covers, length-sides, Has-sorted, Has-last,
  Has-append, passed_over,
}
use nabla.Shadow.Rows.{
  IsParallel, OfShadow, existing-OfShadow, update-OfShadow, made-OfShadow, inserted-OfShadow,
}
use nabla.Shadow.Keeping.{
  depend_on-catalog, Keeps, kept-run, kept-index_keys, kept-provide_column, kept-provide_columns,
  kept-bind, kept-if,
}

module _ (server : Server) where
  open server use {columns_of}

  abbrev Nothing : Catalog → Type 0
  Nothing c = Unit

  abbrev Any : State server → Type 0
  Any st = Unit

  whatever : (m : Result Text (State server)) → Holds Any m
  whatever (ok st) = tt
  whatever (err e) = tt

  module _ (rel : BaseRelation) (needed : List Text) (base : Columns) where
    -- The row holds what is wanted, with a type for each column.
    abbrev pub IsProvided : ShadowRow → Type 0
    IsProvided r = Covers rel needed base r.columns × IsParallel r

    abbrev pub AreProvided : Catalog → Type 0
    AreProvided cat = OfShadow rel.oid IsProvided cat.shadows

    AreProvided-index_join_keys :
        (active previous keys : List Text) (st : State server)
        → AreProvided st.catalog
        → Keeps server AreProvided (Tables.index_join_keys server rel active previous keys st)
    unfolding Tables.index_join_keys update_catalog update_shadows
    AreProvided-index_join_keys active previous keys st q =
        kept-bind server AreProvided _ _
          (kept-index_keys server AreProvided rel active (Tables.all_keys server previous keys) st
            q)
          (λ st1 q1.
            update-OfShadow rel.oid IsProvided _ st1.catalog.shadows (λ r. refl) (λ r h. h) q1)

    -- What the loop of `extend` returns, from the names and the catalog before it.
    Extended : Columns → List Text → Catalog → (List Text × List Text) × State server → Type 0
    Extended left names c r =
        (r.1.catalog ≡ c)
        × Covers rel needed left r.0.0
        × ((n : Text) → Has n names → Has n r.0.0)
        × (length r.0.0 ≡ length r.0.1)

    extend_columns-Extended :
        (physical left : Columns) (names types : List Text) (st : State server) (c : Catalog)
        → st.catalog ≡ c
        → length names ≡ length types
        → Holds
            (Extended left names c)
            (Tables.extend_columns server rel needed physical left names types st)
    unfolding Tables.extend_columns Tables.backfill Extended
    extend_columns-Extended physical [] names types st c e size = (e, tt, (λ n h. h), size)
    extend_columns-Extended physical ((name, ty) ∷ left) names types st c e size =
        elim (Bool-cases (has name names || not (has name needed || has name rel.pk_columns))) [
          | inl t ↦ rw t (
              Holds-map (Extended left names c) (Extended ((name, ty) ∷ left) names c) _
                (λ r x.
                  (x.0, ((λ w. x.2 name (passed_over rel needed name names t w)), x.1), x.2, x.3))
                (extend_columns-Extended physical left names types st c e size))
          | inr f ↦ rw f (
              Holds-bind (λ st1. st1.catalog ≡ c) (Extended ((name, ty) ∷ left) names c) _ _
                (kept-provide_column server (λ c'. c' ≡ c) rel physical name ty st e)
                (λ st1 e1.
                  Holds-bind (λ st2. st2.catalog ≡ c) (Extended ((name, ty) ∷ left) names c) _ _
                    (kept-run server (λ c'. c' ≡ c) _ st1 e1)
                    (λ st2 e2.
                      Holds-map (Extended left (names ++ name ∷ []) c)
                        (Extended ((name, ty) ∷ left) names c) _
                        (λ r x. (
                          x.0,
                          ((λ w. x.2 name (Has-last name names)), x.1),
                          (λ n h. x.2 n (Has-append n name names h)),
                          x.3,
                        ))
                        (extend_columns-Extended physical left (names ++ name ∷ [])
                          (types ++ ty ∷ []) st2 c e2
                          (omega (
                            arith,
                            length-append names (name ∷ []),
                            length-append types (ty ∷ []),
                            size,
                          ))))))
        ]

    AreProvided-create :
        (frontier : ℕ) (keys : List Text) (st : State server)
        → existing rel.oid st.catalog.shadows ≡ none
        → columns_of st.tables rel.oid ≡ base
        → Keeps server AreProvided (Creating.create server rel frontier needed keys st)
    unfolding Creating.create Creating.guard_ddl update_catalog Creating.insert_shadow
    AreProvided-create frontier keys st fresh here =
        let Still = λ (c : Catalog). c ≡ st.catalog in
        let active = active_set rel needed (columns_of st.tables rel.oid) in
        let (covers, size) = active_set-Covers rel needed (columns_of st.tables rel.oid) in
        Holds-bind (λ s. Still s.catalog) (λ s. AreProvided s.catalog) _ _
          (kept-run server Still _ st refl)
          (λ st1 e1.
            Holds-bind (λ s. Still s.catalog) (λ s. AreProvided s.catalog) _ _
              (kept-run server Still _ st1 e1)
              (λ st2 e2.
                Holds-bind (λ s. Still s.catalog) (λ s. AreProvided s.catalog) _ _
                  (kept-bind server Still _ _ (kept-run server Still _ st2 e2)
                    (λ q eq. kept-run server Still _ q eq))
                  (λ st3 e3.
                    kept-bind server AreProvided _ _
                      (AreProvided-index_join_keys active.0 [] keys _ (
                        inserted-OfShadow rel.oid IsProvided _ st3.catalog.shadows
                          (ap (λ c. existing rel.oid c.shadows) e3 ∙ fresh)
                          (subst (λ b. Covers rel needed b active.0) here covers, size)))
                      (λ st4 q4.
                        kept-bind server AreProvided _ _ (kept-run server AreProvided _ st4 q4)
                          (λ st5 q5.
                            subst AreProvided (sym (depend_on-catalog server _ rel.oid st5)) q5)))))

    AreProvided-rebuild :
        (frontier : ℕ) (keys : List Text) (st : State server)
        → columns_of st.tables rel.oid ≡ base
        → Keeps server AreProvided (Creating.rebuild server rel frontier needed keys st)
    unfolding Creating.rebuild Tables.internal_write update_catalog update_shadows
    AreProvided-rebuild frontier keys st here =
        let Done = λ (s : State server). AreProvided s.catalog in
        let active = active_set rel needed (columns_of st.tables rel.oid) in
        let (covers, size) = active_set-Covers rel needed (columns_of st.tables rel.oid) in
        elim (Option-cases (existing rel.oid st.catalog.shadows)) [
          | inl e ↦ rw (e, Creating.rebuild) (AreProvided-create frontier keys st e here)
          | inr (current, e) ↦
              rw (e, Creating.rebuild)
                (Holds-bind Any Done _ _ (kept-run server Nothing _ st tt) (λ st1 _.
                  Holds-bind Any Done _ _ (kept-run server Nothing _ st1 tt) (λ st2 _.
                    Holds-bind Any Done _ _
                      (kept-provide_columns server Nothing rel
                        (physical_columns server st.tables (table_name rel.oid)) active.0 active.1
                        st2 tt)
                      (λ st3 _. Holds-bind Any Done _ _ (kept-run server Nothing _ st3 tt) (λ st4 _.
                        Holds-bind Any Done _ _
                          (whatever
                            (Tables.index_join_keys server rel active.0 current.join_keys keys st4))
                          (λ st5 _.
                            Holds-bind Any Done _ _ (kept-run server Nothing _ st5 tt) (λ st6 _.
                              made-OfShadow rel.oid IsProvided _ st6.catalog.shadows (λ r. (
                                subst (λ b. Covers rel needed b active.0) here covers,
                                size,
                              )))))))))
        ]

    AreProvided-extend :
        (current : ShadowRow) (keys : List Text) (st : State server)
        → IsParallel current
        → columns_of st.tables rel.oid ≡ base
        → Keeps server AreProvided (Tables.extend server rel current needed keys st)
    unfolding Tables.extend Tables.internal_write Tables.store_columns update_catalog update_shadows
        Extended
    AreProvided-extend current keys st size here =
        let Done = λ (s : State server). AreProvided s.catalog in
        let left = columns_of st.tables rel.oid in
        Holds-then Done _ _ (λ st1.
          Holds-bind (Extended left current.columns st1.catalog) Done _ _
            (extend_columns-Extended (physical_columns server st.tables (table_name rel.oid)) left
              current.columns current.column_types st1 st1.catalog refl size)
            (λ r x.
              let pairs = sort_pairs left (zip r.0.0 r.0.1) in
              AreProvided-index_join_keys (names_of pairs) current.join_keys keys _ (
                made-OfShadow rel.oid IsProvided _ r.1.catalog.shadows (λ q. (
                  subst (λ b. Covers rel needed b (names_of pairs)) here
                      (Covers-map rel needed left r.0.0 (names_of pairs)
                        (λ n h. Has-sorted left r.0.0 r.0.1 n x.3 h) x.1),
                  length-sides pairs,
                )))))

  -- If the rows of a relation's shadow have as many types as columns, and `ensure` succeeds, then each such row holds
  -- every column of the base table that is needed or of the primary key, and again as many types as columns,
  -- whether the shadow has been created, rebuilt or extended.
  pub ensure-AreProvided :
      (rel : BaseRelation) (frontier : ℕ) (needed keys : List Text) (st st' : State server)
      → OfShadow rel.oid IsParallel st.catalog.shadows
      → Creating.ensure server rel frontier needed keys st ≡ ok st'
      → AreProvided rel needed (columns_of st.tables rel.oid) st'.catalog
  unfolding Creating.ensure update_catalog
  ensure-AreProvided rel frontier needed keys st st' parallel e =
      let base = columns_of st.tables rel.oid in
      Holds-ok (λ s. AreProvided rel needed base s.catalog) st' (found base refl) e
    where
      found :
          (base : Columns)
          → columns_of st.tables rel.oid ≡ base
          → Holds
              (λ s. AreProvided rel needed base s.catalog)
              (Creating.ensure server rel frontier needed keys st)
      found base here = elim (Option-cases (existing rel.oid st.catalog.shadows)) [
        | inl n ↦
            rw (n, Creating.ensure) (AreProvided-create rel needed base frontier keys st n here)
        | inr (current, x) ↦
            rw (x, Creating.ensure)
              (kept-if server (AreProvided rel needed base) current.failed _ _
                (AreProvided-rebuild rel needed base frontier keys _ here)
                (AreProvided-extend rel needed base current keys _
                  (existing-OfShadow rel.oid IsParallel st.catalog.shadows current parallel x)
                  here))
      ]
