-- ===== src/Api/Refreshing.antt =====
-- `refresh` of src/api.rs: which views wait for a rebuild after it.
use nabla.Base.{
  ℕ, ◌≡◌, ◌↔◌, inl, inr, refl, sym, ap, ◌∙◌, subst, List, [], ◌∷◌, ◌++◌, map, All, Option-cases,
  some, Bool-cases, true, Text, Result, ok, err, bind-ok, codes, concat, decimal, ◌==◌,
}
use nabla.Base.Sets.{member}
use nabla.Errors
use nabla.Errors.{Report}
use nabla.Definition.Types.{BaseRelation, is_join}
use nabla.Api.Changes.{CatalogRow}
use nabla.Api.Reaching.{Has}
use nabla.Api.Names.{Environment, find_view}
use nabla.Api.Views.{
  Session, slot_refused, ensure_slot, ensure_publication, published, add_table,
  ensure_publication_includes, publish_relations, require_tables, refresh_ids, mark_refreshing,
  refresh,
}
use nabla.Api.Recording.{IsPublishing-make, if_true, if_false}
use nabla.Api.Selecting.{IsSelected, AreMarked, AreMarked-map, refresh_ids-IsSelected}

module _ (env : Environment) where
  -- The catalog and the slot are the same.
  abbrev Same : Session → Session → Type 0
  Same s s' = (s'.catalog ≡ s.catalog) × (s'.slot ≡ s.slot)

  of_ok : (s s' : Session) (r : Result Report Session) → r ≡ ok s → r ≡ ok s' → Same s s'
  of_ok s s' r e f = let k : s ≡ s' = cc in (ap (λ t. t.catalog) (sym k), ap (λ t. t.slot) (sym k))

  add_table-Same : (oid : ℕ) (s s' : Session) → add_table env oid s ≡ ok s' → Same s s'
  unfolding add_table
  add_table-Same oid s s' e = elim (Option-cases (env.regclass_text oid)) [
    | inl n ↦
        let k : add_table env oid s
            ≡ err (
                Errors.failed (codes "?") (
                  some (
                    concat (
                      codes "base table with oid "
                      ∷ decimal oid
                      ∷ codes " no longer exists"
                      ∷ [])))) =
          rw (n, add_table) refl in
        cc
    | inr (table, t) ↦
        let made = record s { publication = some (published s ++ oid ∷ []); has_written = true } in
        let k : add_table env oid s ≡ ok made = rw (t, add_table) refl in
        of_ok made s' (add_table env oid s) k e
  ]

  includes-Same :
      (oid : ℕ) (s s' : Session) → ensure_publication_includes env oid s ≡ ok s' → Same s s'
  unfolding ensure_publication_includes ensure_publication
  includes-Same oid s s' e =
      let s1 = ensure_publication s in
      let made = IsPublishing-make s.publication s refl in
      let rest : Same s1 s' = elim (Bool-cases (member ◌==◌ oid (published s1))) [
        | inl t ↦
            of_ok s1 s' (ensure_publication_includes env oid s)
              (if_true _ (ok s1) (add_table env oid s1) t) e
        | inr f ↦ add_table-Same oid s1 s' (sym (if_false _ (ok s1) (add_table env oid s1) f) ∙ e)
      ] in
      (rest.0 ∙ made.same_catalog, rest.1 ∙ made.same_slot)

  publish_relations-Same :
      (rels : List BaseRelation) (s s' : Session) → publish_relations env rels s ≡ ok s' → Same s s'
  unfolding publish_relations
  publish_relations-Same [] s s' e = of_ok s s' (ok s) refl e
  publish_relations-Same (rel ∷ rels) s s' e =
      let (s1, first, rest) =
        bind-ok (ensure_publication_includes env rel.oid s) (λ t. publish_relations env rels t) s'
          e in
      let a = includes-Same rel.oid s s1 first in
      let b = publish_relations-Same rels s1 s' rest in (b.0 ∙ a.0, b.1 ∙ a.1)

  ensure_slot-has :
      (s s' : Session) → ensure_slot s ≡ ok s' → (s'.catalog ≡ s.catalog) × (s'.slot ≡ true)
  unfolding ensure_slot
  ensure_slot-has s s' e = elim (Bool-cases s.slot) [
    | inl t ↦
        let same = of_ok s s' (ensure_slot s) (if_true s.slot (ok s) _ t) e in (same.0, same.1 ∙ t)
    | inr f ↦ elim (Bool-cases s.has_written) [
      | inl w ↦
          let k : ensure_slot s ≡ err slot_refused =
            if_false s.slot (ok s) _ f ∙ if_true s.has_written (err slot_refused) _ w in
          cc
      | inr w ↦
          let made = record s { slot = true } in
          let same =
            of_ok made s' (ensure_slot s)
              (if_false s.slot (ok s) _ f ∙ if_false s.has_written _ (ok made) w) e in
          (same.0, same.1)
    ]
  ]

  finish :
      (s s1 s2 s' : Session) (of of' : CatalogRow) (ids : List ℕ)
      → of' ≡ of
      → s1.catalog ≡ s.catalog
      → s2.catalog ≡ s1.catalog
      → s2.slot ≡ true
      → All (λ r. Has r.id ids ↔ IsSelected s1.catalog of' (is_join of'.spec) r.id) s1.catalog.views
      → ◌≡◌ {A = Result Report Session}
          (ok (record s2 {
            catalog = record s2.catalog { views = map (mark_refreshing ids) s2.catalog.views };
            has_written = true;
          }))
          (ok s')
      → AreMarked (IsSelected s.catalog of (is_join of.spec)) s.catalog.views s'.catalog.views
        × (s'.slot ≡ true)
  finish s s1 s2 s' of of' ids same first second has h e =
      let end : record s2 {
        catalog = record s2.catalog { views = map (mark_refreshing ids) s2.catalog.views };
        has_written = true;
      }
          ≡ s' =
        cc in
      let views' : map (mark_refreshing ids) s1.catalog.views ≡ s'.catalog.views =
        ap (λ c. map (mark_refreshing ids) c.views) (sym second) ∙ ap (λ t. t.catalog.views) end in
      let at_first =
        subst (AreMarked (IsSelected s1.catalog of' (is_join of'.spec)) s1.catalog.views) views'
          (AreMarked-map (IsSelected s1.catalog of' (is_join of'.spec)) ids s1.catalog.views h) in
      let at_start =
        subst (λ c. AreMarked (IsSelected c of' (is_join of'.spec)) c.views s'.catalog.views) first
          at_first in
      (
        subst
            (λ v.
              AreMarked (IsSelected s.catalog v (is_join v.spec)) s.catalog.views s'.catalog.views)
            same at_start,
        sym (ap (λ t. t.slot) end) ∙ has,
      )

  -- If `refresh` of a view that is found succeeds, then each selected view waits for a build (the view alone, or, if
  -- it is a join view, each view that it reaches by shared relations), every other row is as it was, and the slot is
  -- there.
  pub refresh-AreMarked :
      (name : Text) (of : CatalogRow) (s s' : Session)
      → find_view env name s.catalog.views ≡ ok of
      → refresh env name s ≡ ok s'
      → AreMarked (IsSelected s.catalog of (is_join of.spec)) s.catalog.views s'.catalog.views
        × (s'.slot ≡ true)
  unfolding refresh
  refresh-AreMarked name of s s' found e =
      let (of', found', e1) = bind-ok (find_view env name s.catalog.views) _ s' e in
      let (u, there, e2) = bind-ok (require_tables env of'.name of'.spec.relations) _ s' e1 in
      let (s1, slot_ok, e3) = bind-ok (ensure_slot s) _ s' e2 in
      let (ids, closed, e4) = bind-ok (refresh_ids env of' s1.catalog) _ s' e3 in
      let (s2, publishes, e5) = bind-ok (publish_relations env of'.spec.relations s1) _ s' e4 in
      let same : of' ≡ of = let q = sym found' ∙ found in cc in
      let before = ensure_slot-has s s1 slot_ok in
      let between = publish_relations-Same of'.spec.relations s1 s2 publishes in
      let marked_ids =
        refresh_ids-IsSelected env of' s1.catalog ids (is_join of'.spec) refl closed in
      finish s s1 s2 s' of of' ids same before.0 between.0 (between.1 ∙ before.1) marked_ids e5
