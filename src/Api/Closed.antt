-- ===== src/Api/Closed.antt =====
-- The two queries of `refresh_closure` in src/api.rs, and what is reached from a view by its relations.
use nabla.Base.{
  ℕ, ◌≡◌, inl, inr, refl, subst, sym, List, [], ◌∷◌, Bool, true, false, ◌&&◌, ◌||◌, ◌==◌, ==_refl,
  Bool-cases, any,
}
use nabla.Base.Sets.{member}
use nabla.Worker.Types.{ViewRow, ViewRelation}
use nabla.Api.Closure.{has_join, sharing, used}
use nabla.Api.Reaching.{Has, eq_of_test}

-- `nabla.view_relations` has the view with the relation.
abbrev pub HasRow : List ViewRelation → ℕ → ℕ → Type 0
HasRow rows v rel = any (λ r. r.view_id == v && r.relid == rel) rows ≡ true

pub data Node : Type 0 where
  view : ℕ → Node
  relation : ℕ → Node

-- What is reached from a view and its relations: the join views that use a reached relation, and the relations
-- that a reached view uses.
pub data Reaches (views : List ViewRow) (rows : List ViewRelation) (id : ℕ) (own : List ℕ)
    : Node → Type 0 where
  start : Reaches views rows id own (view id)
  base : {rel : ℕ} → Has rel own → Reaches views rows id own (relation rel)
  shares :
      {v rel : ℕ}
      → Reaches views rows id own (relation rel)
      → HasRow rows v rel
      → has_join views v ≡ true
      → Reaches views rows id own (view v)
  uses :
      {v rel : ℕ}
      → Reaches views rows id own (view v)
      → HasRow rows v rel
      → Reaches views rows id own (relation rel)

HasRow-here : (r : ViewRelation) (rows : List ViewRelation) → HasRow (r ∷ rows) r.view_id r.relid
unfolding any
HasRow-here r rows = rw (==_refl r.view_id, ==_refl r.relid)

HasRow-there :
    (r : ViewRelation) (rows : List ViewRelation) (v rel : ℕ)
    → HasRow rows v rel
    → HasRow (r ∷ rows) v rel
unfolding any
HasRow-there r rows v rel h = elim (Bool-cases (r.view_id == v && r.relid == rel)) [
  | inl e ↦ rw e
  | inr e ↦ rw e h
]

pub both : (p q : Bool) → (p && q) ≡ true → (p ≡ true) × (q ≡ true)
both true q h = (refl, h)
both false q h = cc

-- A row of the first query, and where it comes from.
pub has-sharing :
    (views : List ViewRow) (relids : List ℕ) (rows : List ViewRelation) (v : ℕ)
    → Has v (sharing views relids rows)
    → (rel : ℕ) × Has rel relids × HasRow rows v rel × (has_join views v ≡ true)
unfolding sharing member
has-sharing views relids [] v h = cc
has-sharing views relids (r ∷ rows) v h =
    elim (Bool-cases (member ◌==◌ r.relid relids && has_join views r.view_id)) [
      | inl k ↦ elim (Bool-cases (v == r.view_id)) [
        | inl e ↦
            let (a, b) = both (member ◌==◌ r.relid relids) (has_join views r.view_id) k in
            (
              r.relid,
              a,
              subst (λ t. HasRow (r ∷ rows) t r.relid) (sym (eq_of_test v r.view_id e))
                  (HasRow-here r rows),
              subst (λ t. has_join views t ≡ true) (sym (eq_of_test v r.view_id e)) b,
            )
        | inr e ↦
            let (rel, a, b, c) = has-sharing views relids rows v (rw (k, e) at h) in
            (rel, a, HasRow-there r rows v rel b, c)
      ]
      | inr k ↦
          let (rel, a, b, c) = has-sharing views relids rows v (rw k at h) in
          (rel, a, HasRow-there r rows v rel b, c)
    ]

pub has-used :
    (ids : List ℕ) (rows : List ViewRelation) (rel : ℕ)
    → Has rel (used ids rows)
    → (v : ℕ) × Has v ids × HasRow rows v rel
unfolding used member
has-used ids [] rel h = cc
has-used ids (r ∷ rows) rel h = elim (Bool-cases (member ◌==◌ r.view_id ids)) [
  | inl k ↦ elim (Bool-cases (rel == r.relid)) [
    | inl e ↦ (
      r.view_id,
      k,
      subst (λ t. HasRow (r ∷ rows) r.view_id t) (sym (eq_of_test rel r.relid e))
          (HasRow-here r rows),
    )
    | inr e ↦
        let (v, a, b) = has-used ids rows rel (rw (k, e) at h) in
        (v, a, HasRow-there r rows v rel b)
  ]
  | inr k ↦ let (v, a, b) = has-used ids rows rel (rw k at h) in (v, a, HasRow-there r rows v rel b)
]

-- And conversely.
pub sharing-has :
    (views : List ViewRow) (relids : List ℕ) (rows : List ViewRelation) (v rel : ℕ)
    → Has rel relids
    → HasRow rows v rel
    → has_join views v ≡ true
    → Has v (sharing views relids rows)
unfolding sharing member any
sharing-has views relids [] v rel a b c = cc
sharing-has views relids (r ∷ rows) v rel a b c =
    elim (Bool-cases (r.view_id == v && r.relid == rel)) [
      | inl e ↦
          let (e1, e2) = both (r.view_id == v) (r.relid == rel) e in
          let a' : Has r.relid relids =
            subst (λ t. Has t relids) (sym (eq_of_test r.relid rel e2)) a in
          let c' : has_join views r.view_id ≡ true =
            subst (λ t. has_join views t ≡ true) (sym (eq_of_test r.view_id v e1)) c in
          rw (a', c') (rw (eq_of_test r.view_id v e1, ==_refl v))
      | inr e ↦
          let ih = sharing-has views relids rows v rel a (rw e at b) c in
          elim (Bool-cases (member ◌==◌ r.relid relids && has_join views r.view_id)) [
            | inl k ↦ rw (k, ih) (or_true (v == r.view_id))
            | inr k ↦ rw k ih
          ]
    ]
  where
    or_true : (p : Bool) → (p || true) ≡ true
    or_true true = refl
    or_true false = refl

pub used-has :
    (ids : List ℕ) (rows : List ViewRelation) (v rel : ℕ)
    → Has v ids
    → HasRow rows v rel
    → Has rel (used ids rows)
unfolding used member any
used-has ids [] v rel a b = cc
used-has ids (r ∷ rows) v rel a b = elim (Bool-cases (r.view_id == v && r.relid == rel)) [
  | inl e ↦
      let (e1, e2) = both (r.view_id == v) (r.relid == rel) e in
      let a' : Has r.view_id ids = subst (λ t. Has t ids) (sym (eq_of_test r.view_id v e1)) a in
      rw a' (rw (eq_of_test r.relid rel e2, ==_refl rel))
  | inr e ↦
      let ih = used-has ids rows v rel a (rw e at b) in
      elim (Bool-cases (member ◌==◌ r.view_id ids)) [
        | inl k ↦ rw (k, ih) (or_true (rel == r.relid))
        | inr k ↦ rw k ih
      ]
]
  where
    or_true : (p : Bool) → (p || true) ≡ true
    or_true true = refl
    or_true false = refl
