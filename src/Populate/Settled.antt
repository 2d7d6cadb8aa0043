-- ===== src/Populate/Settled.antt =====
-- The rows of the views that `build` of src/populate.rs has been through.
use nabla.Base.{
  ℕ, ◌≡◌, ◌⊎◌, refl, inl, inr, List, [], ◌∷◌, some, Option-cases, Bool, true, false, ◌&&◌, Text,
  Result, ok, err, Result-cases, Holds, Holds-map, Holds-bind, ltb, ◌==◌, Bool-cases, if◌then◌else◌,
}
use nabla.Base.Sets
use nabla.Definition.Types.{BaseRelation, ViewSpec, is_join}
use nabla.Worker.Types.{ViewRow, ShadowRow, Catalog}
use nabla.Worker.Catalog.{update_views, update_shadows, storage_name}
use nabla.Shadow.Server.{Server, State, update_catalog}
use nabla.Shadow.Creating
use nabla.Populate.Group.{Pending, is_refreshing}
use nabla.Populate.Build.{
  build_shadows, needed_columns, storage_depends, depend_on_all, fill_storage, build_spec, build,
  mark_failed, store_spec, go_live,
}
use nabla.Populate.Frames.{
  chain, same, Keeps, Keeps-bind, Keeps-after, Keeps-run_sql, Keeps-run_each, Keeps-rebuild,
  Keeps-ensure,
}
use nabla.Populate.Goodness.{
  live_row, failed_row, IsOutcome, IsGood, StaysGood, IsGood-update, IsGood-made,
}

module _ (server : Server) (point : ℕ) (Good : ViewRow → Type 0) (o : IsOutcome point Good) where
  abbrev R : Catalog → Catalog → Type 0
  R = StaysGood Good

  R-refl : (a : Catalog) → R a a
  R-refl a id h = h

  R-trans : (a b c : Catalog) → R a b → R b c → R a c
  R-trans a b c h k id g = k id (h id g)

  R-update : (oid : ℕ) (f : ShadowRow → ShadowRow) (a : Catalog) → R a (update_shadows oid f a)
  unfolding update_shadows
  R-update oid f a id h = h

  R-insert :
      (rel : BaseRelation) (frontier : ℕ) (names types : List Text) (a : Catalog)
      → R a (Creating.insert_shadow server rel frontier names types a)
  unfolding Creating.insert_shadow
  R-insert rel frontier names types a id h = h

  R-views :
      (id : ℕ) (f : ViewRow → ViewRow) (a : Catalog)
      → ((r : ViewRow) → (f r).id ≡ r.id)
      → ((r : ViewRow) → Good r → Good (f r))
      → R a (update_views id f a)
  unfolding update_views
  R-views id f a keep_id good other h = IsGood-update Good other id f a.views keep_id good h

  depend_on_all-catalog :
      (oid : ℕ) (rels : List BaseRelation) (st : State server)
      → (depend_on_all server oid rels st).catalog ≡ st.catalog
  unfolding depend_on_all
  depend_on_all-catalog oid [] st = refl
  depend_on_all-catalog oid (rel ∷ rels) st =
      depend_on_all-catalog oid rels
        (record st { tables = server.record_dependency oid rel.oid st.tables })

  storage_depends-catalog :
      (storage : Text) (spec : ViewSpec) (st : State server)
      → (storage_depends server storage spec st).catalog ≡ st.catalog
  unfolding storage_depends
  storage_depends-catalog storage spec st = elim (Option-cases (server.oid_of st.tables storage)) [
    | inl e ↦ rw (e, storage_depends) refl
    | inr (oid, e) ↦ rw (e, storage_depends) (depend_on_all-catalog oid spec.relations st)
  ]

  R-build_shadows :
      (rebuild : Bool) (spec : ViewSpec) (rels : List BaseRelation) (seen : List ℕ)
      (st : State server)
      → Holds (λ r. R st.catalog r.1.catalog) (build_shadows server rebuild point spec rels seen st)
  unfolding build_shadows
  R-build_shadows rebuild spec [] seen st = R-refl st.catalog
  R-build_shadows rebuild spec (rel ∷ rels) seen st =
      let sets = needed_columns rel.oid spec st.catalog in
      elim (Bool-cases (Sets.member ◌==◌ rel.oid seen)) [
        | inl e ↦ rw e (R-build_shadows rebuild spec rels seen st)
        | inr e ↦ rw e (
            chain server R R-refl R-trans (λ st1. st1.catalog) (λ r. r.1.catalog) st.catalog _ _
              (either rebuild sets)
              (λ st1. R-build_shadows rebuild spec rels (Sets.insert ◌==◌ ltb rel.oid seen) st1))
      ]
    where
      either :
          (b : Bool) (sets : List Text × List Text)
          → Keeps server R st (
              if b
              then Creating.rebuild server rel point sets.0 sets.1 st
              else Creating.ensure server rel point sets.0 sets.1 st)
      either true sets =
          Keeps-rebuild server R R-refl R-trans R-update R-insert rel point sets.0 sets.1 st
      either false sets =
          Keeps-ensure server R R-refl R-trans R-update R-insert rel point sets.0 sets.1 st

  R-fill_storage :
      (view : Pending) (spec : ViewSpec) (st : State server)
      → Keeps server R st (fill_storage server view spec st)
  unfolding fill_storage update_catalog
  R-fill_storage view spec st =
      elim (Option-cases (server.oid_of st.tables (storage_name view.id))) [
        | inr (oid, e) ↦
            rw (e, fill_storage)
              (Keeps-bind server R R-refl R-trans st _ _
                (Keeps-run_sql server R R-refl R-trans _ st)
                (λ st1. Keeps-run_sql server R R-refl R-trans _ st1))
        | inl e ↦
            rw (e, fill_storage)
              (Keeps-bind server R R-refl R-trans st _ _
                (Keeps-run_sql server R R-refl R-trans _ st)
                (λ st1.
                  Keeps-bind server R R-refl R-trans st1 _ _
                    (Keeps-run_each server R R-refl R-trans _ st1)
                    (λ st2.
                      let dep = storage_depends server (storage_name view.id) spec st2 in
                      Keeps-after server R R-refl R-trans st2 dep _
                        (same server R R-refl R-trans st2 dep
                          (storage_depends-catalog (storage_name view.id) spec st2))
                        (Keeps-bind server R R-refl R-trans dep _ _
                          (Keeps-run_sql server R R-refl R-trans _ dep)
                          (λ st3.
                            R-views view.id _ st3.catalog (λ r. refl)
                              (λ r. o.of_relid (server.oid_of st3.tables view.name) r))))))
      ]

  R-go_live : (id : ℕ) (rebuild : Bool) (a : Catalog) → R a (go_live id point rebuild a)
  unfolding go_live
  R-go_live id rebuild a =
      R-views id (live_row point rebuild) a (λ r. refl) (λ r _. o.of_live rebuild r)

  IsGood-go_live :
      (id : ℕ) (rebuild : Bool) (a : Catalog) → IsGood Good id (go_live id point rebuild a)
  unfolding go_live update_views
  IsGood-go_live id rebuild a =
      IsGood-made Good id (live_row point rebuild) a.views (o.of_live rebuild)

  pub R-mark_failed : (id : ℕ) (message : Text) (a : Catalog) → R a (mark_failed id message a)
  unfolding mark_failed
  R-mark_failed id message a =
      R-views id (failed_row message) a (λ r. refl) (λ r _. o.of_failed message r)

  pub IsGood-mark_failed :
      (id : ℕ) (message : Text) (a : Catalog) → IsGood Good id (mark_failed id message a)
  unfolding mark_failed update_views
  IsGood-mark_failed id message a =
      IsGood-made Good id (failed_row message) a.views (o.of_failed message)

  R-store_spec : (id : ℕ) (spec : ViewSpec) (a : Catalog) → R a (store_spec id spec a)
  unfolding store_spec
  R-store_spec id spec a =
      R-views id (λ r. record r { spec = some spec }) a (λ r. refl) (o.of_spec spec)

  -- The view itself is good then, and the others stay good.
  abbrev pub Settles : ℕ → Catalog → Catalog → Type 0
  Settles id a b = StaysGood Good a b × IsGood Good id b

  Settles-build_spec :
      (view : Pending) (rebuild : Bool) (spec : ViewSpec) (seen : List ℕ) (st : State server)
      → Holds
          (λ r. Settles view.id st.catalog r.1.catalog)
          (build_spec server view rebuild point spec seen st)
  unfolding build_spec update_catalog
  Settles-build_spec view rebuild spec seen st =
      Holds-bind (λ r. R st.catalog r.1.catalog) (λ r. Settles view.id st.catalog r.1.catalog) _ _
        first
        (λ r h.
          Holds-bind (λ st1. R r.1.catalog st1.catalog)
            (λ q. Settles view.id st.catalog q.1.catalog) _ _ (R-fill_storage view spec r.1)
            (λ st1 k. (
              R-trans st.catalog r.1.catalog (go_live view.id point rebuild st1.catalog) h (
                  R-trans r.1.catalog st1.catalog (go_live view.id point rebuild st1.catalog) k
                    (R-go_live view.id rebuild st1.catalog)),
              IsGood-go_live view.id rebuild st1.catalog,
            )))
    where
      first :
          Holds
            (λ r. R st.catalog r.1.catalog)
            (if is_join spec
              then build_shadows server rebuild point spec spec.relations seen st
              else ok (seen, st))
      first = elim (Bool-cases (is_join spec)) [
        | inl e ↦ rw e (R-build_shadows rebuild spec spec.relations seen st)
        | inr e ↦ rw e (R-refl st.catalog)
      ]

  pub Settles-build :
      (view : Pending) (seen : List ℕ) (st : State server)
      → Holds (λ r. Settles view.id st.catalog r.1.catalog) (build server view point seen st)
  unfolding build update_catalog
  Settles-build view seen st =
      Holds-bind (λ st1. R st.catalog st1.catalog) (λ r. Settles view.id st.catalog r.1.catalog) _ _
        (Keeps-run_sql server R R-refl R-trans _ st)
        (λ st1 h.
          Holds-map (λ r. Settles view.id st1.catalog r.1.catalog)
            (λ r. Settles view.id st.catalog r.1.catalog) _
            (λ r q. (R-trans st.catalog st1.catalog r.1.catalog h q.0, q.1))
            (branches st1 (is_refreshing view.status && view.populated)
              (Result-cases (server.validate st1.tables view.definition))))
    where
      branches :
          (st1 : State server) (b : Bool)
          → ((spec : ViewSpec) × (server.validate st1.tables view.definition ≡ ok spec))
            ⊎ ((e : Text) × (server.validate st1.tables view.definition ≡ err e))
          → Holds
              (λ r. Settles view.id st1.catalog r.1.catalog)
              (if b
                then elim (server.validate st1.tables view.definition)
                    as (λ _. Result Text (List ℕ × State server)) [
                      | err message ↦
                          ok (seen, update_catalog server (mark_failed view.id message) st1)
                      | ok spec ↦
                          build_spec server view true point spec seen
                            (update_catalog server (store_spec view.id spec) st1)
                    ]
                else build_spec server view false point view.spec seen st1)
      branches st1 true (inl (spec, e)) = rw e (
          Holds-map (λ r. Settles view.id (store_spec view.id spec st1.catalog) r.1.catalog)
            (λ r. Settles view.id st1.catalog r.1.catalog) _
            (λ r q. (
              R-trans st1.catalog (store_spec view.id spec st1.catalog) r.1.catalog
                  (R-store_spec view.id spec st1.catalog) q.0,
              q.1,
            ))
            (Settles-build_spec view true spec seen
              (update_catalog server (store_spec view.id spec) st1)))
      branches st1 true (inr (message, e)) = rw e (
        R-mark_failed view.id message st1.catalog,
        IsGood-mark_failed view.id message st1.catalog,
      )
      branches st1 false q = Settles-build_spec view false view.spec seen st1
