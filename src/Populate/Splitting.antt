-- ===== src/Populate/Splitting.antt =====
-- `group` of src/populate.rs where a view shares relations with the views of two groups.
use nabla.Base.{
  ◌≡◌, refl, ap, ◌∙◌, List, [], ◌∷◌, ◌++◌, map, none, true, false, not, position, ◌==◌,
}
use nabla.Base.Sets
use nabla.Populate.Group.{
  Pending, Group, is_shared, relids_of, target_of, join_group, new_group, join_at, add_view,
  group_loop, group,
}

abbrev alone : Pending → Group
alone view = (view ∷ [], relids_of view.spec)

target_of-shared :
    (gs : List Group) (view : Pending)
    → is_shared view ≡ true
    → target_of view gs
      ≡ position (λ (g : Group). not (Sets.is_disjoint ◌==◌ g.1 (relids_of view.spec))) gs
unfolding target_of
target_of-shared gs view e = rw e refl

new_group-shared : (view : Pending) → is_shared view ≡ true → new_group view ≡ alone view
unfolding new_group
new_group-shared view e = rw e refl

-- No group has one of the relations.
add_apart :
    (gs : List Group) (view : Pending)
    → is_shared view ≡ true
    → position (λ (g : Group). not (Sets.is_disjoint ◌==◌ g.1 (relids_of view.spec))) gs ≡ none
    → add_view gs view ≡ gs ++ alone view ∷ []
unfolding add_view
add_apart gs view e n = rw (target_of-shared gs view e ∙ n, new_group-shared view e, add_view) refl

-- The first group has one.
add_first :
    (g : Group) (gs : List Group) (view : Pending)
    → is_shared view ≡ true
    → Sets.is_disjoint ◌==◌ g.1 (relids_of view.spec) ≡ false
    → add_view (g ∷ gs) view ≡ join_group view g ∷ gs
unfolding add_view position join_at
add_first g gs view e d = rw (target_of-shared (g ∷ gs) view e, d, add_view, position) refl

position-apart :
    (g : Group) (view : Pending)
    → Sets.is_disjoint ◌==◌ g.1 (relids_of view.spec) ≡ true
    → position (λ (h : Group). not (Sets.is_disjoint ◌==◌ h.1 (relids_of view.spec))) (g ∷ [])
      ≡ none
unfolding position
position-apart g view d = rw (d, position) refl

-- If three refreshing join views come in turn, the second shares no relation with the first, and the third shares
-- one with each, then the third is built with the first, and the second, whose relation it shares, is built apart.
pub group-splits :
    (a b c : Pending)
    → is_shared a ≡ true
    → is_shared b ≡ true
    → is_shared c ≡ true
    → Sets.is_disjoint ◌==◌ (relids_of a.spec) (relids_of b.spec) ≡ true
    → Sets.is_disjoint ◌==◌ (relids_of a.spec) (relids_of c.spec) ≡ false
    → Sets.is_disjoint ◌==◌ (relids_of b.spec) (relids_of c.spec) ≡ false
    → group (a ∷ b ∷ c ∷ []) ≡ (a ∷ c ∷ []) ∷ (b ∷ []) ∷ []
unfolding group group_loop join_group
group-splits a b c sa sb sc ab ac bc =
    let first = add_apart [] a sa (unfold position in refl) in
    let second = add_apart (alone a ∷ []) b sb (position-apart (alone a) b ab) in
    let third = add_first (alone a) (alone b ∷ []) c sc ac in
    ap (map {A = Group} (λ g. g.0))
      (ap (λ gs. add_view (add_view gs b) c) first ∙ (ap (λ gs. add_view gs c) second ∙ third))
