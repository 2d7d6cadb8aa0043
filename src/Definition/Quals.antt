-- ===== src/Definition/Quals.antt =====
-- `collect_quals` of src/definition.rs: its list against the meaning of the join tree.
use nabla.Base.{
  ◌≡◌, refl, sym, ap, ◌∙◌, List, [], ◌∷◌, Option, none, some, Bool, true, false, ◌&&◌, ok, ◌>>=◌,
  bind-ok,
}
use nabla.Definition.Tree.{Node, JoinTree, JoinTrees, reference, from, join, none_left, item}
use nabla.Definition.Walk.{push_qual, require_inner, collect_quals, collect_items}

-- A choice of one row for every relation decides each qual. It is in the result of a tree of inner joins if it
-- satisfies each condition where it stands.
module _ (holds : Node → Bool) where
  abbrev pub qual_holds : Option Node → Bool
  qual_holds none = true
  qual_holds (some q) = holds q

  unfoldable mutual
    pub tree_holds : JoinTree → Bool
    tree_holds (reference i) = true
    tree_holds (from items quals) = items_hold items && qual_holds quals
    tree_holds (join kind larg rarg quals) =
        (tree_holds larg && tree_holds rarg) && qual_holds quals

    pub items_hold : JoinTrees → Bool
    items_hold none_left = true
    items_hold (item tree items) = tree_holds tree && items_hold items

  unfoldable pub all_hold : List Node → Bool
  all_hold [] = true
  all_hold (q ∷ qs) = holds q && all_hold qs

  and_assoc : (a b c : Bool) → ((a && b) && c) ≡ (a && (b && c))
  and_assoc true b c = refl
  and_assoc false b c = refl

  and_true : (a : Bool) → (a && true) ≡ a
  and_true true = refl
  and_true false = refl

  all_hold-push_qual :
      (out : List Node) (q : Option Node)
      → all_hold (push_qual out q) ≡ (all_hold out && qual_holds q)
  unfolding all_hold push_qual
  all_hold-push_qual out none = sym (and_true (all_hold out))
  all_hold-push_qual [] (some q) = and_true (holds q)
  all_hold-push_qual (x ∷ out) (some q) =
      ap (λ b. holds x && b) (all_hold-push_qual out (some q))
      ∙ sym (and_assoc (holds x) (all_hold out) (holds q))

  mutual
    unfolding collect_quals tree_holds

    all_hold-collect :
        (tree : JoinTree) (out quals : List Node)
        → collect_quals tree out ≡ ok quals
        → all_hold quals ≡ (all_hold out && tree_holds tree)
    all_hold-collect (reference i) out quals e =
        let same : out ≡ quals = cc in ap all_hold (sym same) ∙ sym (and_true (all_hold out))
    all_hold-collect (from items q) out quals e =
        let (out1, e1, e2) = bind-ok (collect_items items out) (λ l. ok (push_qual l q)) quals e in
        let same : push_qual out1 q ≡ quals = cc in
        ap all_hold (sym same)
        ∙ (all_hold-push_qual out1 q
            ∙ (ap (λ b. b && qual_holds q) (all_hold-items items out out1 e1)
                ∙ and_assoc (all_hold out) (items_hold items) (qual_holds q)))
    all_hold-collect (join kind larg rarg q) out quals e =
        let (u, inner, e0) =
          bind-ok (require_inner kind)
            (λ _. collect_quals larg out >>= λ out1.
              collect_quals rarg out1 >>= λ out2. ok (push_qual out2 q))
            quals e in
        let (out1, e1, e2) =
          bind-ok (collect_quals larg out)
            (λ l. collect_quals rarg l >>= λ out2. ok (push_qual out2 q)) quals e0 in
        let (out2, e3, e4) = bind-ok (collect_quals rarg out1) (λ l. ok (push_qual l q)) quals e2 in
        let same : push_qual out2 q ≡ quals = cc in
        let first = all_hold-collect larg out out1 e1 in
        let second = all_hold-collect rarg out1 out2 e3 in
        ap all_hold (sym same)
        ∙ (all_hold-push_qual out2 q
            ∙ (ap (λ b. b && qual_holds q)
                  (second
                    ∙ (ap (λ b. b && tree_holds rarg) first
                        ∙ and_assoc (all_hold out) (tree_holds larg) (tree_holds rarg)))
                ∙ and_assoc (all_hold out) (tree_holds larg && tree_holds rarg) (qual_holds q)))

    all_hold-items :
        (items : JoinTrees) (out quals : List Node)
        → collect_items items out ≡ ok quals
        → all_hold quals ≡ (all_hold out && items_hold items)
    all_hold-items none_left out quals e =
        let same : out ≡ quals = cc in ap all_hold (sym same) ∙ sym (and_true (all_hold out))
    all_hold-items (item tree items) out quals e =
        let (out1, e1, e2) =
          bind-ok (collect_quals tree out) (λ l. collect_items items l) quals e in
        all_hold-items items out1 quals e2
        ∙ (ap (λ b. b && items_hold items) (all_hold-collect tree out out1 e1)
            ∙ and_assoc (all_hold out) (tree_holds tree) (items_hold items))

  -- If `collect_quals` accepts a join tree, then a choice of rows satisfies every qual of its list exactly if it
  -- satisfies each ON and WHERE condition where it stands in the tree.
  pub collect_quals-tree_holds :
      (tree : JoinTree) (quals : List Node)
      → collect_quals tree [] ≡ ok quals
      → all_hold quals ≡ tree_holds tree
  unfolding all_hold
  collect_quals-tree_holds tree quals e = all_hold-collect tree [] quals e
