-- ===== src/Api/RefreshSet.antt =====
-- The loop of `refresh_closure` in src/api.rs from its start to its end.
use nabla.Base.{
  ℕ, zero, suc, ◌+◌, ◌<◌, ◌≡◌, ◌↔◌, inl, inr, refl, subst, sym, List, [], ◌∷◌, map, some, true,
  false, ◌&&◌, ltb, ◌==◌, ==_refl, Bool-cases, length, arith,
}
use nabla.Base.Sets.{member, extend, extend-keeps, extend-has, extend-from, extend-same}
use nabla.Definition.Types.{ViewSpec}
use nabla.Worker.Types.{ViewRow, ViewRelation}
use nabla.Api.Closure.{sharing, used, closure_loop, closure_fuel, refresh_closure}
use nabla.Api.Reaching.{
  Has, eq_of_test, more_ids, more_relids, work, round_shrinks, unseen-le-length,
}
use nabla.Api.Closed.{
  Node, Reaches, view, relation, start, base, shares, uses, both, has-sharing, has-used,
  sharing-has, used-has,
}

-- The relations of a specification, as a set.
abbrev pub own_relids : ViewSpec → List ℕ
own_relids spec = extend ◌==◌ ltb [] (map (λ r. r.oid) spec.relations)

-- The node is in its set.
abbrev IsHad : List ℕ → List ℕ → Node → Type 0
IsHad ids relids (view v) = Has v ids
IsHad ids relids (relation rel) = Has rel relids

module _ (views : List ViewRow) (rows : List ViewRelation) (id : ℕ) (own : List ℕ) where
  record Grows (ids relids : List ℕ) : Type 0 where
    has_view : Has id ids
    has_own : (rel : ℕ) → Has rel own → Has rel relids
    views_reached : (v : ℕ) → Has v ids → Reaches views rows id own (view v)
    relations_reached : (rel : ℕ) → Has rel relids → Reaches views rows id own (relation rel)

  Grows-more_ids :
      (ids relids : List ℕ) → Grows ids relids → Grows (more_ids views rows ids relids) relids
  Grows-more_ids ids relids g = record {
    has_view = extend-keeps ◌==◌ ltb id ids (sharing views relids rows) g.has_view;
    has_own = g.has_own;
    views_reached = λ v h.
        elim (extend-from ◌==◌ ltb eq_of_test ==_refl v ids (sharing views relids rows) h) [
          | inl old ↦ g.views_reached v old
          | inr new ↦
              let (rel, a, b, c) = has-sharing views relids rows v new in
              shares (g.relations_reached rel a) b c
        ];
    relations_reached = g.relations_reached;
  }

  Grows-more_relids :
      (ids relids : List ℕ) → Grows ids relids → Grows ids (extend ◌==◌ ltb relids (used ids rows))
  Grows-more_relids ids relids g = record {
    has_view = g.has_view;
    has_own = λ rel h. extend-keeps ◌==◌ ltb rel relids (used ids rows) (g.has_own rel h);
    views_reached = g.views_reached;
    relations_reached = λ rel h.
        elim (extend-from ◌==◌ ltb eq_of_test ==_refl rel relids (used ids rows) h) [
          | inl old ↦ g.relations_reached rel old
          | inr new ↦ let (v, a, b) = has-used ids rows rel new in uses (g.views_reached v a) b
        ];
  }

  -- Nothing is missing: the sets that a round leaves as they are have all that is reached.
  all_reached :
      (ids relids : List ℕ)
      → Grows ids relids
      → more_ids views rows ids relids ≡ ids
      → more_relids views rows ids relids ≡ relids
      → {n : Node} → Reaches views rows id own n
      → IsHad ids relids n
  all_reached ids relids g e f start = g.has_view
  all_reached ids relids g e f (base {rel} h) = g.has_own rel h
  all_reached ids relids g e f (shares {v} {rel} r row join) = subst (Has v) e (
      extend-has ◌==◌ ltb eq_of_test ==_refl v ids (sharing views relids rows)
        (sharing-has views relids rows v rel (all_reached ids relids g e f r) row join))
  all_reached ids relids g e f (uses {v} {rel} r row) = subst (Has rel) f (
      extend-has ◌==◌ ltb eq_of_test ==_refl rel relids (used (more_ids views rows ids relids) rows)
        (used-has (more_ids views rows ids relids) rows v rel
          (subst (Has v) (sym e) (all_reached ids relids g e f r)) row))

  loop_reaches :
      (fuel : ℕ) (ids relids : List ℕ)
      → work rows ids relids < fuel
      → Grows ids relids
      → (result : List ℕ) × (closure_loop fuel views rows ids relids ≡ some result)
        × ((v : ℕ) → Has v result ↔ Reaches views rows id own (view v))
  unfolding closure_loop
  loop_reaches zero ids relids w g = absurd (omega arith)
  loop_reaches (suc fuel) ids relids w g =
      let ids' = more_ids views rows ids relids in
      let relids' = more_relids views rows ids relids in
      let g' = Grows-more_relids ids' relids (Grows-more_ids ids relids g) in
      elim (Bool-cases (length ids == length ids' && length relids == length relids')) [
        | inl same ↦
            let (a, b) = both (length ids == length ids') (length relids == length relids') same in
            let e = extend-same ◌==◌ ltb ids (sharing views relids rows) (sym (eq_of_test _ _ a)) in
            let f = extend-same ◌==◌ ltb relids (used ids' rows) (sym (eq_of_test _ _ b)) in
            (
              ids',
              rw same refl,
              λ v.
                  (g'.views_reached v, λ r. subst (Has v) (sym e) (all_reached ids relids g e f r)),
            )
        | inr more ↦
            let (result, e, reached) =
              loop_reaches fuel ids' relids'
                (omega (arith, round_shrinks views rows ids relids more)) g' in
            (result, rw more e, reached)
      ]

pub alone : (v : ℕ) → Has v (v ∷ [])
unfolding member
alone v = rw (==_refl v)

pub only : (v id : ℕ) → Has v (id ∷ []) → v ≡ id
unfolding member
only v id h = elim (Bool-cases (v == id)) [
  | inl e ↦ eq_of_test v id e
  | inr e ↦ absurd_test (rw e at h)
]
  where
    absurd_test : false ≡ true → v ≡ id
    absurd_test q = cc

-- The loop of `refresh_closure` ends, and its set has a view exactly if the view is reached from the given one,
-- by join views that use a reached relation and relations that a reached view uses.
pub refresh_closure-Reaches :
    (views : List ViewRow) (rows : List ViewRelation) (id : ℕ) (spec : ViewSpec)
    → (ids : List ℕ) × (refresh_closure views rows id spec ≡ some ids)
      × ((v : ℕ) → Has v ids ↔ Reaches views rows id (own_relids spec) (view v))
unfolding refresh_closure closure_fuel
refresh_closure-Reaches views rows id spec =
    let from : Grows views rows id (own_relids spec) (id ∷ []) (own_relids spec) = record {
      has_view = alone id;
      has_own = λ rel h. h;
      views_reached = λ v h.
          subst (λ t. Reaches views rows id (own_relids spec) (view t)) (sym (only v id h)) start;
      relations_reached = λ rel h. base h;
    } in
    loop_reaches views rows id (own_relids spec) (suc (length rows + length rows)) (id ∷ [])
      (own_relids spec)
      (omega (
        arith,
        unseen-le-length (λ r. r.view_id) (id ∷ []) rows,
        unseen-le-length (λ r. r.relid) (own_relids spec) rows,
      ))
      from
