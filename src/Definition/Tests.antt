-- ===== src/Definition/Tests.antt =====
-- A join tree that src/definition.rs accepts, one that it refuses, and the theorem at a concrete input.
use nabla.Base.{
  text_eq, if◌then◌else◌, ◌≡◌, ◌↔◌, refl, [], ◌∷◌, ◌++◌, some, Bool, true, false, ok, err, codes,
  ◌==◌,
}
use nabla.Errors
use nabla.Errors.{Report}
use nabla.Definition.Tree.{
  Functions, Node, var, op, nil, cons, JoinType, JoinTree, reference, from, join, none_left, item,
}
use nabla.Definition.Walk.{
  kind_of, require_inner, push_qual, collect_quals, plain_var, operand_var, compared, compared_args,
  join_key_vars,
}
use nabla.Definition.JoinKeys.{Has, JoinsOn, join_key_vars-JoinsOn}
use nabla.Definition.Quals.{all_hold, tree_holds, collect_quals-tree_holds}

-- An equality of two columns, and a predicate on one.
abbrev on : Node
on = op 96 65 (cons (var 1 1 0) (cons (var 2 2 0) nil))

abbrev where_qual : Node
where_qual = op 521 147 (cons (var 1 3 0) nil)

abbrev tree : JoinType → JoinTree
tree kind =
    from (item (join kind (reference 1) (reference 2) (some on)) none_left) (some where_qual)

collected : collect_quals (tree JoinType.inner) [] ≡ ok (on ∷ where_qual ∷ [])
unfolding collect_quals require_inner kind_of push_qual
collected = refl

-- No other join is accepted.
refused :
    collect_quals (tree JoinType.left) []
    ≡ err (
        Errors.unsupported_definition
          (codes "LEFT JOIN" ++ codes " is not supported; only inner joins are"))
unfolding collect_quals require_inner kind_of push_qual
refused = refl

-- The rows meet the ON condition and not the predicate.
abbrev holds : Node → Bool
holds (op opno funcid args) = opno == 96
holds _ = false

collect_quals-tree_holds_example :
    all_hold holds (on ∷ where_qual ∷ []) ≡ tree_holds holds (tree JoinType.inner)
collect_quals-tree_holds_example =
    collect_quals-tree_holds holds (tree JoinType.inner) (on ∷ where_qual ∷ []) collected

-- 96 is the built-in equality.
abbrev functions : Functions
functions = record {
  is_immutable = λ oid. true;
  func_name = λ oid. codes "int4eq";
  op_name = λ oid. if oid == 96 then codes "=" else codes ">";
  is_builtin = λ oid. true;
  contains_mutable = λ node. false;
}

keys : join_key_vars functions on ≡ (1, 1) ∷ (2, 2) ∷ []
unfolding join_key_vars compared_args compared operand_var plain_var text_eq
keys = refl

-- The second column is compared with one of the other relation.
join_key_vars-JoinsOn_example :
    Has (2, 2) (join_key_vars functions on) ↔ JoinsOn functions on (2, 2)
join_key_vars-JoinsOn_example = join_key_vars-JoinsOn functions on (2, 2)
