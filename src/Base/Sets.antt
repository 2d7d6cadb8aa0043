-- ===== src/Base/Sets.antt =====
-- `BTreeSet` of the Rust standard library: an ordered list without repetitions, over an equality and an order.
use Prim.Native.Nat.{suc, ◌≤◌}
use mathlib.Core.Path.{◌≡◌, refl, ap, subst, sym}
use mathlib.Core.Logic.{◌⊎◌, inl, inr}
use mathlib.Core.Bool.{Bool, true, false, not, ◌&&◌, ◌||◌}
use mathlib.Core.List.{List, [], ◌∷◌}
use native.Mathlib.Omega.{arith}
use nabla.Base.Tests.{Bool-cases, if◌then◌else◌}
use nabla.Base.Lists.{length}

module _ {A : Type 0} (eq : A → A → Bool) where
  unfoldable pub member : A → List A → Bool
  member a [] = false
  member a (x ∷ xs) = eq a x || member a xs

  unfoldable pub is_disjoint : List A → List A → Bool
  is_disjoint [] ys = true
  is_disjoint (x ∷ xs) ys = not (member x ys) && is_disjoint xs ys

module _ {A : Type 0} (eq lt : A → A → Bool) where
  -- Before the first element that is larger.
  unfoldable pub place : A → List A → List A
  place a [] = a ∷ []
  place a (x ∷ xs) = if lt a x then a ∷ x ∷ xs else x ∷ place a xs

  -- The set afterwards; `BTreeSet::insert` also tells whether it has grown.
  unfoldable pub insert : A → List A → List A
  insert a xs = if member eq a xs then xs else place a xs

  unfoldable pub extend : List A → List A → List A
  extend xs [] = xs
  extend xs (a ∷ ys) = extend (insert a xs) ys

  pub place-member : (a b : A) (xs : List A) → member eq b (place a xs) ≡ (eq b a || member eq b xs)
  unfolding member place
  place-member a b [] = refl
  place-member a b (x ∷ xs) = elim (Bool-cases (lt a x)) [
    | inl e ↦ rw e
    | inr e ↦ rw (e, place-member a b xs) (swap (eq b x) (eq b a) (member eq b xs))
  ]
    where
      swap : (p q r : Bool) → (p || (q || r)) ≡ (q || (p || r))
      swap true true r = refl
      swap true false r = refl
      swap false q r = refl

  pub length-place : (a : A) (xs : List A) → length (place a xs) ≡ suc (length xs)
  unfolding place
  length-place a [] = refl
  length-place a (x ∷ xs) = elim (Bool-cases (lt a x)) [
    | inl e ↦ rw e
    | inr e ↦ rw e (ap suc (length-place a xs))
  ]

  pub length-insert : (a : A) (xs : List A) → length xs ≤ length (insert a xs)
  unfolding insert
  length-insert a xs = ground (arith, length-place a xs)

  pub length-extend : (xs ys : List A) → length xs ≤ length (extend xs ys)
  unfolding extend
  length-extend xs [] = omega arith
  length-extend xs (a ∷ ys) = omega (arith, length-insert a xs, length-extend (insert a xs) ys)

  -- An element stays.
  pub insert-keeps :
      (a b : A) (xs : List A) → member eq b xs ≡ true → member eq b (insert a xs) ≡ true
  unfolding insert
  insert-keeps a b xs h = elim (Bool-cases (member eq a xs)) [
    | inl e ↦ rw e h
    | inr e ↦ rw (e, place-member a b xs, h) (or_true (eq b a))
  ]
    where
      or_true : (p : Bool) → (p || true) ≡ true
      or_true true = refl
      or_true false = refl

  pub extend-keeps :
      (b : A) (xs ys : List A) → member eq b xs ≡ true → member eq b (extend xs ys) ≡ true
  unfolding extend
  extend-keeps b xs [] h = h
  extend-keeps b xs (a ∷ ys) h = extend-keeps b (insert a xs) ys (insert-keeps a b xs h)

  module _ (eq_iff : (a b : A) → eq a b ≡ true → a ≡ b) (eq_refl : (a : A) → eq a a ≡ true) where
    pub insert-has : (a : A) (xs : List A) → member eq a (insert a xs) ≡ true
    unfolding insert
    insert-has a xs = elim (Bool-cases (member eq a xs)) [
      | inl e ↦ rw e e
      | inr e ↦ rw (e, place-member a a xs, eq_refl a)
    ]

    pub extend-has :
        (b : A) (xs ys : List A) → member eq b ys ≡ true → member eq b (extend xs ys) ≡ true
    unfolding member extend
    extend-has b xs [] h = cc
    extend-has b xs (a ∷ ys) h = elim (Bool-cases (eq b a)) [
      | inl e ↦
          extend-keeps b (insert a xs) ys
            (subst (λ t. member eq t (insert a xs) ≡ true) (sym (eq_iff b a e)) (insert-has a xs))
      | inr e ↦ extend-has b (insert a xs) ys (rw e at h)
    ]

    -- Every element was there or is one of the new ones.
    pub insert-from :
        (a b : A) (xs : List A)
        → member eq b (insert a xs) ≡ true
        → (member eq b xs ≡ true) ⊎ (b ≡ a)
    unfolding insert
    insert-from a b xs h = elim (Bool-cases (member eq a xs)) [
      | inl e ↦ inl (rw e at h)
      | inr e ↦ elim (Bool-cases (eq b a)) [
        | inl k ↦ inr (eq_iff b a k)
        | inr k ↦ inl (rw (e, place-member a b xs, k) at h)
      ]
    ]

    pub extend-from :
        (b : A) (xs ys : List A)
        → member eq b (extend xs ys) ≡ true
        → (member eq b xs ≡ true) ⊎ (member eq b ys ≡ true)
    unfolding member extend
    extend-from b xs [] h = inl h
    extend-from b xs (a ∷ ys) h = elim (extend-from b (insert a xs) ys h) [
      | inl old ↦ elim (insert-from a b xs old) [
        | inl k ↦ inl k
        | inr k ↦ inr (subst (λ t. (eq b t || member eq b ys) ≡ true) k (rw (eq_refl b)))
      ]
      | inr new ↦ inr (or_right (eq b a) (member eq b ys) new)
    ]
      where
        or_right : (p q : Bool) → q ≡ true → (p || q) ≡ true
        or_right true q h = refl
        or_right false q h = h

  -- Where the set has not grown, all were members.
  pub insert-same :
      (a : A) (xs : List A)
      → length (insert a xs) ≡ length xs
      → (member eq a xs ≡ true) × (insert a xs ≡ xs)
  unfolding insert
  insert-same a xs h = elim (Bool-cases (member eq a xs)) [
    | inl e ↦ (e, rw e)
    | inr e ↦ absurd (omega (arith, length-place a xs, grew e))
  ]
    where
      grew : member eq a xs ≡ false → length (place a xs) ≡ length xs
      grew e = rw e at h

  pub extend-same : (xs ys : List A) → length (extend xs ys) ≡ length xs → extend xs ys ≡ xs
  unfolding extend
  extend-same xs [] h = refl
  extend-same xs (a ∷ ys) h =
      let first =
        insert-same a xs (omega (arith, length-insert a xs, length-extend (insert a xs) ys)) in
      rw first.1 (extend-same xs ys (rw first.1 at h))
