-- ===== src/Populate/Grouping.antt =====
-- The groups of src/populate.rs: which views they hold, and which relations bring views together.
use nabla.Base.{
  ℕ, zero, suc, ◌≡◌, ◌⊎◌, refl, ap, sym, subst, ◌∙◌, inl, inr, List, [], ◌∷◌, ◌++◌, append-nil,
  append_assoc, map, Option, none, some, Option-cases, Bool, true, false, not, All, position,
  get_elem?, set, ◌==◌, Bool-cases, arith,
}
use mathlib.Core.List.{Perm, perm_middle}
use mathlib.Core.List.Perm
use mathlib.Core.Option.{some_inj}
use nabla.Base.Sets
use nabla.Populate.Group.{
  Pending, Group, is_shared, relids_of, target_of, join_group, new_group, join_at, add_view,
  group_loop, group,
}

abbrev pub flatten : List (List Pending) → List Pending
flatten [] = []
flatten (g ∷ gs) = g ++ flatten gs

abbrev members : List Group → List Pending
members gs = flatten (map {A = Group} (λ g. g.0) gs)

-- The index that `position` finds is one of the list.
position-here :
    {A : Type 0} (p : A → Bool) (x : A) (xs : List A) → p x ≡ true → position p (x ∷ xs) ≡ some 0
unfolding position
position-here p x xs t = rw (t, position) refl

position-there :
    {A : Type 0} (p : A → Bool) (x : A) (xs : List A)
    → p x ≡ false
    → position p (x ∷ xs) ≡ elim (position p xs) [ none ↦ none | some i ↦ some (suc i) ]
unfolding position
position-there p x xs t = rw (t, position) refl

get_elem?-position :
    {A : Type 0} (p : A → Bool) (xs : List A) (i : ℕ)
    → position p xs ≡ some i
    → (x : A) × (get_elem? xs i ≡ some x) × (p x ≡ true)
unfolding position
get_elem?-position p [] i e = cc
get_elem?-position {A} p (x ∷ xs) i e = elim (Bool-cases (p x)) [
  | inl t ↦
      let zero_is : 0 ≡ i = some_inj.0 (sym (position-here p x xs t) ∙ e) in
      subst (λ k. (y : A) × (get_elem? (x ∷ xs) k ≡ some y) × (p y ≡ true)) zero_is (x, refl, t)
  | inr f ↦ elim (Option-cases (position p xs)) [
    | inl n ↦ absurd_none (
        sym (ap (λ o. elim o as (λ _. Option ℕ) [ none ↦ none | some k ↦ some (suc k) ]) n)
        ∙ (sym (position-there p x xs f) ∙ e))
    | inr (k, found) ↦
        let suc_is : suc k ≡ i = some_inj.0 (
          sym (
            position-there p x xs f
            ∙ ap (λ o. elim o as (λ _. Option ℕ) [ none ↦ none | some k' ↦ some (suc k') ]) found)
          ∙ e) in
        let (y, at, t) = get_elem?-position p xs k found in
        subst (λ m. (z : A) × (get_elem? (x ∷ xs) m ≡ some z) × (p z ≡ true)) suc_is (y, at, t)
  ]
]
  where
    absurd_none : none ≡ some i → (y : A) × (get_elem? (x ∷ xs) i ≡ some y) × (p y ≡ true)
    absurd_none q = cc

members-append : (gs hs : List Group) → members (gs ++ hs) ≡ members gs ++ members hs
members-append [] hs = refl
members-append (g ∷ gs) hs =
    ap (λ l. g.0 ++ l) (members-append gs hs) ∙ sym (append_assoc g.0 (members gs) (members hs))

-- Joining a group adds the view to the members.
members-join_at :
    (gs : List Group) (i : ℕ) (g : Group) (view : Pending)
    → get_elem? gs i ≡ some g
    → Perm (members (set gs i (join_group view g))) (view ∷ members gs)
unfolding join_group
members-join_at [] i g view e = cc
members-join_at (h ∷ gs) zero g view e =
    subst (λ (k : Group). Perm ((k.0 ++ view ∷ []) ++ members gs) (view ∷ (h.0 ++ members gs)))
      (some_inj.0 e)
      (subst (λ l. Perm l (view ∷ (h.0 ++ members gs)))
        (sym (append_assoc h.0 (view ∷ []) (members gs))) (perm_middle h.0 (members gs)))
members-join_at (h ∷ gs) (suc i) g view e =
    Perm.trans (Perm.append_left h.0 (members-join_at gs i g view e)) (perm_middle h.0 (members gs))

-- A view starts a group, or joins one that has one of its relations; only a shared view joins.
data Added (gs : List Group) (view : Pending) : List Group → Type 0 where
  starts : Added gs view (gs ++ new_group view ∷ [])
  joins :
      (i : ℕ) (g : Group)
      → get_elem? gs i ≡ some g
      → is_shared view ≡ true
      → Sets.is_disjoint ◌==◌ g.1 (relids_of view.spec) ≡ false
      → Added gs view (set gs i (join_group view g))

add_view-new :
    (gs : List Group) (view : Pending)
    → target_of view gs ≡ none
    → add_view gs view ≡ gs ++ new_group view ∷ []
unfolding add_view
add_view-new gs view e = rw (e, add_view) refl

add_view-joined :
    (gs : List Group) (view : Pending) (i : ℕ) (g : Group)
    → target_of view gs ≡ some i
    → get_elem? gs i ≡ some g
    → add_view gs view ≡ set gs i (join_group view g)
unfolding add_view join_at
add_view-joined gs view i g e at = rw (e, at, add_view, join_at) refl

not-false : (b : Bool) → not b ≡ true → b ≡ false
not-false true h = cc
not-false false h = refl

target_of-shared :
    (gs : List Group) (view : Pending) (i : ℕ) → target_of view gs ≡ some i → is_shared view ≡ true
unfolding target_of
target_of-shared gs view i e = ground arith

add_view-Added : (gs : List Group) (view : Pending) → Added gs view (add_view gs view)
add_view-Added gs view = elim (Option-cases (target_of view gs)) [
  | inl n ↦ subst (Added gs view) (sym (add_view-new gs view n)) starts
  | inr (i, e) ↦
      let shared = target_of-shared gs view i e in
      let found : position (λ (g : Group). not (Sets.is_disjoint ◌==◌ g.1 (relids_of view.spec))) gs
          ≡ some i =
        unfold target_of in rw shared at e in
      let (g, at, meets) =
        get_elem?-position (λ (g : Group). not (Sets.is_disjoint ◌==◌ g.1 (relids_of view.spec))) gs
          i found in
      subst (Added gs view) (sym (add_view-joined gs view i g e at))
        (joins i g at shared (not-false _ meets))
]

members-new : (view : Pending) → members (new_group view ∷ []) ≡ view ∷ []
unfolding new_group
members-new view = refl

Added-members :
    (gs : List Group) (view : Pending) {hs : List Group}
    → Added gs view hs
    → Perm (members hs) (view ∷ members gs)
Added-members gs view starts =
    subst (λ l. Perm l (view ∷ members gs))
      (sym (members-append gs (new_group view ∷ []) ∙ ap (λ l. members gs ++ l) (members-new view)))
      (subst (λ l. Perm (members gs ++ view ∷ []) (view ∷ l)) (append-nil (members gs))
        (perm_middle (members gs) []))
Added-members gs view (joins i g at shared meets) = members-join_at gs i g view at

members-group_loop :
    (gs : List Group) (pending : List Pending)
    → Perm (members (group_loop gs pending)) (pending ++ members gs)
unfolding group_loop
members-group_loop gs [] = Perm.refl (members gs)
members-group_loop gs (view ∷ pending) =
    Perm.trans (members-group_loop (add_view gs view) pending) (
      Perm.trans (Perm.append_left pending (Added-members gs view (add_view-Added gs view)))
        (perm_middle pending (members gs)))

-- A group is one view on its own, with no relations to be met by, or all its views are shared.
abbrev IsGroup : Group → Type 0
IsGroup g = ((view : Pending) × (g ≡ (view ∷ [], []))) ⊎ All (λ v. is_shared v ≡ true) g.0

All-snoc :
    (views : List Pending) (view : Pending)
    → All (λ v. is_shared v ≡ true) views
    → is_shared view ≡ true
    → All (λ v. is_shared v ≡ true) (views ++ view ∷ [])
All-snoc [] view h k = (k, tt)
All-snoc (v ∷ views) view (h, hs) k = (h, All-snoc views view hs k)

IsGroup-join :
    (g : Group) (view : Pending)
    → IsGroup g
    → is_shared view ≡ true
    → Sets.is_disjoint ◌==◌ g.1 (relids_of view.spec) ≡ false
    → IsGroup (join_group view g)
unfolding join_group
IsGroup-join g view (inl (alone, e)) shared meets =
    absurd_group
      (subst (λ (k : Group). Sets.is_disjoint ◌==◌ k.1 (relids_of view.spec) ≡ false) e meets)
  where
    absurd_group :
        Sets.is_disjoint ◌==◌ [] (relids_of view.spec) ≡ false → IsGroup (join_group view g)
    absurd_group q = unfold Sets.is_disjoint in cc q
IsGroup-join g view (inr all) shared meets = inr (All-snoc g.0 view all shared)

IsGroup-new : (view : Pending) → IsGroup (new_group view)
unfolding new_group
IsGroup-new view = elim (Bool-cases (is_shared view)) [
  | inl e ↦ inr (e, tt)
  | inr e ↦ inl (view, rw e refl)
]

AreGroups-set :
    (gs : List Group) (i : ℕ) (g h : Group)
    → get_elem? gs i ≡ some g
    → All IsGroup gs
    → (IsGroup g → IsGroup h)
    → All IsGroup (set gs i h)
AreGroups-set [] i g h e a k = tt
AreGroups-set (f ∷ gs) zero g h e (a, rest) k = (k (subst IsGroup (some_inj.0 e) a), rest)
AreGroups-set (f ∷ gs) (suc i) g h e (a, rest) k = (a, AreGroups-set gs i g h e rest k)

AreGroups-snoc :
    (gs : List Group) (g : Group) → All IsGroup gs → IsGroup g → All IsGroup (gs ++ g ∷ [])
AreGroups-snoc [] g h k = (k, tt)
AreGroups-snoc (f ∷ gs) g (h, hs) k = (h, AreGroups-snoc gs g hs k)

AreGroups-Added :
    (gs : List Group) (view : Pending) {hs : List Group}
    → Added gs view hs
    → All IsGroup gs
    → All IsGroup hs
AreGroups-Added gs view starts a = AreGroups-snoc gs (new_group view) a (IsGroup-new view)
AreGroups-Added gs view (joins i g at shared meets) a =
    AreGroups-set gs i g (join_group view g) at a (λ h. IsGroup-join g view h shared meets)

AreGroups-group_loop :
    (gs : List Group) (pending : List Pending)
    → All IsGroup gs
    → All IsGroup (group_loop gs pending)
unfolding group_loop
AreGroups-group_loop gs [] a = a
AreGroups-group_loop gs (view ∷ pending) a =
    AreGroups-group_loop (add_view gs view) pending
      (AreGroups-Added gs view (add_view-Added gs view) a)

-- One view, or only refreshing join views.
abbrev pub IsAloneOrShared : List Pending → Type 0
IsAloneOrShared views =
    ((view : Pending) × (views ≡ view ∷ [])) ⊎ All (λ v. is_shared v ≡ true) views

alone_or_shared :
    (gs : List Group) → All IsGroup gs → All IsAloneOrShared (map {A = Group} (λ g. g.0) gs)
alone_or_shared [] a = tt
alone_or_shared (g ∷ gs) (inl (view, e), rest) =
    (inl (view, ap (λ (k : Group). k.0) e), alone_or_shared gs rest)
alone_or_shared (g ∷ gs) (inr all, rest) = (inr all, alone_or_shared gs rest)

-- Every pending view is in the groups as often as it is pending, and each group is one view or holds only refreshing
-- join views.
pub group-Perm :
    (pending : List Pending)
    → Perm (flatten (group pending)) pending × All IsAloneOrShared (group pending)
unfolding group
group-Perm pending = (
  subst (Perm (flatten (group pending))) (append-nil pending) (members-group_loop [] pending),
  alone_or_shared (group_loop [] pending) (AreGroups-group_loop [] pending tt),
)
