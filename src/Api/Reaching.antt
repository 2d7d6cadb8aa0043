-- ===== src/Api/Reaching.antt =====
-- The loop of `refresh_closure` in src/api.rs, and the views that it reaches.
use nabla.Base.{
  ℕ, ◌+◌, ◌≤◌, ◌<◌, ◌≡◌, inl, inr, refl, subst, List, [], ◌∷◌, map, Bool, true, false, ◌&&◌, ◌||◌,
  ltb, ◌==◌, ==_iff, ==_refl, Bool-cases, if◌then◌else◌, length, arith,
}
use nabla.Base.Sets.{member, insert, extend, length-extend, extend-keeps, extend-has}
use nabla.Worker.Types.{ViewRow, ViewRelation}
use nabla.Api.Closure.{has_join, sharing, used}

abbrev pub Has : ℕ → List ℕ → Type 0
Has n ns = member ◌==◌ n ns ≡ true

pub eq_of_test : (a b : ℕ) → (a == b) ≡ true → a ≡ b
eq_of_test a b = (==_iff a b).0

-- How many rows have a key that the set lacks.
pub unseen : (ViewRelation → ℕ) → List ℕ → List ViewRelation → ℕ
unseen key s [] = 0
unseen key s (r ∷ rows) = (if member ◌==◌ (key r) s then 0 else 1) + unseen key s rows

pub unseen-le-length :
    (key : ViewRelation → ℕ) (s : List ℕ) (rows : List ViewRelation)
    → unseen key s rows ≤ length rows
unfolding unseen
unseen-le-length key s [] = omega arith
unseen-le-length key s (r ∷ rows) = ground (arith, unseen-le-length key s rows)

abbrev IsWithin : List ℕ → List ℕ → Type 0
IsWithin s t = (n : ℕ) → Has n s → Has n t

unseen-le :
    (key : ViewRelation → ℕ) (s t : List ℕ) (rows : List ViewRelation)
    → IsWithin s t
    → unseen key t rows ≤ unseen key s rows
unfolding unseen
unseen-le key s t [] h = omega arith
unseen-le key s t (r ∷ rows) h = ground (arith, h (key r), unseen-le key s t rows h)

unseen-lt :
    (key : ViewRelation → ℕ) (s t : List ℕ) (rows : List ViewRelation) (n : ℕ)
    → IsWithin s t
    → member ◌==◌ n s ≡ false
    → Has n t
    → Has n (map key rows)
    → unseen key t rows < unseen key s rows
unfolding unseen member
unseen-lt key s t [] n h lacks has k = cc
unseen-lt key s t (r ∷ rows) n h lacks has k = elim (Bool-cases (n == key r)) [
  | inl e ↦
      let e' = eq_of_test n (key r) e in
      let a : member ◌==◌ (key r) s ≡ false = subst (λ m. member ◌==◌ m s ≡ false) e' lacks in
      let b : member ◌==◌ (key r) t ≡ true = subst (λ m. Has m t) e' has in
      rw (a, b) (omega (arith, unseen-le key s t rows h))
  | inr e ↦ ground (arith, h (key r), unseen-lt key s t rows n h lacks has (rw e at k))
]

-- A set that has grown has got an element.
grown :
    (s new : List ℕ)
    → length s < length (extend ◌==◌ ltb s new)
    → (n : ℕ) × Has n new × (member ◌==◌ n s ≡ false)
unfolding extend insert member
grown s [] h = absurd (omega arith)
grown s (a ∷ new) h = elim (Bool-cases (member ◌==◌ a s)) [
  | inl e ↦ let (n, old, lacks) = grown s new (rw e at h) in (n, or_right (n == a) old, lacks)
  | inr e ↦ (a, rw (==_refl a), e)
]
  where
    or_right : (p : Bool) {q : Bool} → q ≡ true → (p || q) ≡ true
    or_right true h = refl
    or_right false h = h

sharing-keys :
    (views : List ViewRow) (relids : List ℕ) (rows : List ViewRelation) (n : ℕ)
    → Has n (sharing views relids rows)
    → Has n (map (λ r. r.view_id) rows)
unfolding sharing member
sharing-keys views relids [] n h = h
sharing-keys views relids (r ∷ rows) n h = elim (Bool-cases (n == r.view_id)) [
  | inl e ↦ rw e
  | inr e ↦ elim (Bool-cases (member ◌==◌ r.relid relids && has_join views r.view_id)) [
    | inl k ↦ rw e (sharing-keys views relids rows n (rw (k, e) at h))
    | inr k ↦ rw e (sharing-keys views relids rows n (rw k at h))
  ]
]

used-keys :
    (ids : List ℕ) (rows : List ViewRelation) (n : ℕ)
    → Has n (used ids rows)
    → Has n (map (λ r. r.relid) rows)
unfolding used member
used-keys ids [] n h = h
used-keys ids (r ∷ rows) n h = elim (Bool-cases (n == r.relid)) [
  | inl e ↦ rw e
  | inr e ↦ elim (Bool-cases (member ◌==◌ r.view_id ids)) [
    | inl k ↦ rw e (used-keys ids rows n (rw (k, e) at h))
    | inr k ↦ rw e (used-keys ids rows n (rw k at h))
  ]
]

-- What a round extends each set by.
abbrev pub more_ids : List ViewRow → List ViewRelation → List ℕ → List ℕ → List ℕ
more_ids views rows ids relids = extend ◌==◌ ltb ids (sharing views relids rows)

abbrev pub more_relids : List ViewRow → List ViewRelation → List ℕ → List ℕ → List ℕ
more_relids views rows ids relids =
    extend ◌==◌ ltb relids (used (more_ids views rows ids relids) rows)

-- The rows that are new to the sets.
abbrev pub work : List ViewRelation → List ℕ → List ℕ → ℕ
work rows ids relids = unseen (λ r. r.view_id) ids rows + unseen (λ r. r.relid) relids rows

shrinks :
    (key : ViewRelation → ℕ) (rows : List ViewRelation) (s new : List ℕ)
    → ((n : ℕ) → Has n new → Has n (map key rows))
    → length s < length (extend ◌==◌ ltb s new)
    → unseen key (extend ◌==◌ ltb s new) rows < unseen key s rows
shrinks key rows s new keys h =
    let (n, has, lacks) = grown s new h in
    unseen-lt key s (extend ◌==◌ ltb s new) rows n (λ m. extend-keeps ◌==◌ ltb m s new) lacks
      (extend-has ◌==◌ ltb eq_of_test ==_refl n s new has) (keys n has)

pub round_shrinks :
    (views : List ViewRow) (rows : List ViewRelation) (ids relids : List ℕ)
    → (length ids == length (more_ids views rows ids relids)
        && length relids == length (more_relids views rows ids relids))
      ≡ false
    → work rows (more_ids views rows ids relids) (more_relids views rows ids relids)
      < work rows ids relids
round_shrinks views rows ids relids h =
    let a = length-extend ◌==◌ ltb ids (sharing views relids rows) in
    let b = length-extend ◌==◌ ltb relids (used (more_ids views rows ids relids) rows) in
    let c =
      unseen-le (λ r. r.view_id) ids (more_ids views rows ids relids) rows
        (λ m. extend-keeps ◌==◌ ltb m ids (sharing views relids rows)) in
    let d =
      unseen-le (λ r. r.relid) relids (more_relids views rows ids relids) rows
        (λ m. extend-keeps ◌==◌ ltb m relids (used (more_ids views rows ids relids) rows)) in
    elim (Bool-cases (ltb (length ids) (length (more_ids views rows ids relids)))) [
      | inl k ↦ omega (
        arith,
        shrinks (λ r. r.view_id) rows ids (sharing views relids rows)
            (sharing-keys views relids rows) (ground arith),
      )
      | inr k ↦ omega (
        arith,
        shrinks (λ r. r.relid) rows relids (used (more_ids views rows ids relids) rows)
            (used-keys (more_ids views rows ids relids) rows) (ground arith),
      )
    ]
