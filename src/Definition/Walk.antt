-- ===== src/Definition/Walk.antt =====
-- The walks of src/definition.rs over a query tree: what it refuses, and the relations, quals and columns it collects.
use nabla.Base.{
  ℕ, suc, List, [], ◌∷◌, ◌++◌, Option, none, some, Bool, true, false, not, ◌&&◌, ◌||◌, Text, Result,
  ok, err, ◌>>=◌, codes, concat, text_eq, ◌==◌, any, if◌then◌else◌,
}
use nabla.Errors
use nabla.Errors.{Report}
use nabla.Definition.Tree.{
  Node, Nodes, var, relabel, op, scalar_array_op, func, and_expr, bool_expr, sql_value, next_value,
  aggref, other, nil, cons, JoinType, JoinTree, JoinTrees, reference, from, join, none_left, item,
  RteKind, RangeTblEntry, Query, Functions,
}

unfoldable pub refuse : Bool → Text → Result Report (Unit {0})
refuse b reason = if b then err (Errors.unsupported_definition reason) else ok tt

unfoldable pub reject_unsupported_clauses : Query → Result Report (Unit {0})
reject_unsupported_clauses q =
    refuse (not q.is_select) (codes "only SELECT statements are supported") >>= λ _.
    refuse q.has_set_operations (codes "UNION, INTERSECT and EXCEPT are not supported") >>= λ _.
    refuse q.has_ctes (codes "common table expressions (WITH) are not supported") >>= λ _.
    refuse q.has_sub_links (codes "subqueries are not supported") >>= λ _.
    refuse q.has_window_funcs (codes "window functions are not supported") >>= λ _.
    refuse q.has_target_srfs (codes "set-returning functions are not supported") >>= λ _.
    refuse (q.has_distinct_on || q.has_distinct) (codes "DISTINCT is not supported") >>= λ _.
    refuse q.has_sort (codes "ORDER BY is not supported") >>= λ _.
    refuse (q.has_limit_count || q.has_limit_offset) (codes "LIMIT and OFFSET are not supported")
    >>= λ _. refuse q.has_having (codes "HAVING is not supported") >>= λ _.
        refuse q.has_grouping_sets (codes "GROUPING SETS, CUBE and ROLLUP are not supported")
        >>= λ _.
            refuse (q.has_for_update || q.has_row_marks)
              (codes "FOR UPDATE and FOR SHARE are not supported")

-- Why an entry of the range table is refused, whether it is a relation else.
unfoldable pub entry_of : RteKind → Result Text Bool
entry_of RteKind.relation = ok true
entry_of RteKind.joined = ok false
entry_of RteKind.subquery = err (codes "subqueries in FROM are not supported")
entry_of RteKind.function = err (codes "set-returning functions are not supported")
entry_of RteKind.table_func = err (codes "set-returning functions are not supported")
entry_of RteKind.values = err (codes "VALUES lists are not supported")
entry_of RteKind.cte = err (codes "common table expressions (WITH) are not supported")
entry_of RteKind.other_kind =
    err (codes "a FROM clause with one or more ordinary tables is required")

-- The relations with their index in the range table, counted from the given one.
unfoldable pub entries_from : ℕ → List RangeTblEntry → Result Report (List (ℕ × RangeTblEntry))
entries_from i [] = ok []
entries_from i (rte ∷ rtable) =
    let rest = entries_from (suc i) rtable in
    if rte.is_lateral
    then err (Errors.unsupported_definition (codes "LATERAL is not supported"))
    else elim (entry_of rte.kind) [
      | err reason ↦ err (Errors.unsupported_definition reason)
      | ok is_relation ↦
          rest >>= λ entries. ok (if is_relation then (i, rte) ∷ entries else entries)
    ]

unfoldable pub collect_relations : Query → Result Report (List (ℕ × RangeTblEntry))
collect_relations q = entries_from 1 q.rtable >>= λ entries. elim entries [
  | [] ↦ err (
      Errors.unsupported_definition
        (codes "a FROM clause with one or more ordinary tables is required"))
  | e ∷ es ↦ ok (e ∷ es)
]

-- What a join other than an inner one is called.
unfoldable pub kind_of : JoinType → Option Text
kind_of JoinType.inner = none
kind_of JoinType.left = some (codes "LEFT JOIN")
kind_of JoinType.right = some (codes "RIGHT JOIN")
kind_of JoinType.full = some (codes "FULL JOIN")
kind_of JoinType.semi = some (codes "SEMI JOIN")
kind_of JoinType.anti = some (codes "ANTI JOIN")
kind_of JoinType.right_anti = some (codes "ANTI JOIN")
kind_of JoinType.unknown = some (codes "this join type")

unfoldable pub push_qual : List Node → Option Node → List Node
push_qual out none = out
push_qual out (some q) = out ++ q ∷ []

unfoldable pub require_inner : JoinType → Result Report (Unit {0})
require_inner kind = elim (kind_of kind) [
  | none ↦ ok tt
  | some name ↦
      err (Errors.unsupported_definition (name ++ codes " is not supported; only inner joins are"))
]

-- The quals after those that are there already.
unfoldable mutual
  pub collect_quals : JoinTree → List Node → Result Report (List Node)
  collect_quals (reference i) out = ok out
  collect_quals (from items quals) out =
      collect_items items out >>= λ out'. ok (push_qual out' quals)
  collect_quals (join kind larg rarg quals) out = require_inner kind >>= λ _.
      collect_quals larg out >>= λ out1.
      collect_quals rarg out1 >>= λ out2. ok (push_qual out2 quals)

  pub collect_items : JoinTrees → List Node → Result Report (List Node)
  collect_items none_left out = ok out
  collect_items (item tree items) out = collect_quals tree out >>= λ out'. collect_items items out'

-- `operand_var`, through one relabel.
unfoldable pub plain_var : Node → Option (ℕ × ℕ)
plain_var (var varno attno levelsup) = if levelsup == 0 then some (varno, attno) else none
plain_var _ = none

unfoldable pub operand_var : Node → Option (ℕ × ℕ)
operand_var (relabel arg) = plain_var arg
operand_var (var varno attno levelsup) = plain_var (var varno attno levelsup)
operand_var _ = none

-- The two columns of an equality between two relations.
unfoldable pub compared : Option (ℕ × ℕ) → Option (ℕ × ℕ) → List (ℕ × ℕ)
compared (some l) (some r) = if l.0 == r.0 then [] else l ∷ r ∷ []
compared (some l) none = []
compared none r = []

unfoldable pub compared_args : Nodes → List (ℕ × ℕ)
compared_args (cons a (cons b nil)) = compared (operand_var a) (operand_var b)
compared_args nil = []
compared_args (cons a nil) = []
compared_args (cons a (cons b (cons c rest))) = []

-- The columns of the children of a node, in order.
unfoldable mutual
  pub collect_vars : Node → List (ℕ × ℕ)
  collect_vars (var varno attno levelsup) = if levelsup == 0 then (varno, attno) ∷ [] else []
  collect_vars (relabel arg) = collect_vars arg
  collect_vars (op opno funcid args) = collect_vars_list args
  collect_vars (scalar_array_op funcid args) = collect_vars_list args
  collect_vars (func funcid args) = collect_vars_list args
  collect_vars (and_expr args) = collect_vars_list args
  collect_vars (bool_expr args) = collect_vars_list args
  collect_vars sql_value = []
  collect_vars next_value = []
  collect_vars (aggref agg direct args filter) =
      collect_vars_list direct ++ (collect_vars_list args ++ collect_vars_list filter)
  collect_vars (other args) = collect_vars_list args

  pub collect_vars_list : Nodes → List (ℕ × ℕ)
  collect_vars_list nil = []
  collect_vars_list (cons n ns) = collect_vars n ++ collect_vars_list ns

-- Whether a column is not one of an allowed relation of this query.
unfoldable mutual
  pub find_foreign_var : List ℕ → Node → Bool
  find_foreign_var allowed (var varno attno levelsup) =
      not (levelsup == 0) || not (any (λ a. a == varno) allowed)
  find_foreign_var allowed (relabel arg) = find_foreign_var allowed arg
  find_foreign_var allowed (op opno funcid args) = find_foreign_list allowed args
  find_foreign_var allowed (scalar_array_op funcid args) = find_foreign_list allowed args
  find_foreign_var allowed (func funcid args) = find_foreign_list allowed args
  find_foreign_var allowed (and_expr args) = find_foreign_list allowed args
  find_foreign_var allowed (bool_expr args) = find_foreign_list allowed args
  find_foreign_var allowed sql_value = false
  find_foreign_var allowed next_value = false
  find_foreign_var allowed (aggref agg direct args filter) =
      find_foreign_list allowed direct
      || (find_foreign_list allowed args || find_foreign_list allowed filter)
  find_foreign_var allowed (other args) = find_foreign_list allowed args

  pub find_foreign_list : List ℕ → Nodes → Bool
  find_foreign_list allowed nil = false
  find_foreign_list allowed (cons n ns) = find_foreign_var allowed n || find_foreign_list allowed ns

unfoldable pub require_base_vars : List ℕ → Node → Result Report (Unit {0})
require_base_vars allowed node =
    refuse (find_foreign_var allowed node)
      (codes "a column reference could not be resolved to one of the joined tables")

unfoldable pub first_of : Option Text → Option Text → Option Text
first_of (some a) b = some a
first_of none b = b

module _ (functions : Functions) where
  open functions use {is_immutable, func_name, op_name, is_builtin, contains_mutable}

  -- The name of a function that is not immutable.
  unfoldable pub mutable_function : ℕ → Option Text
  mutable_function funcid =
      if not (funcid == 0) && not (is_immutable funcid) then some (func_name funcid) else none

  -- The walk stops at the first.
  unfoldable mutual
    pub find_mutable : Node → Option Text
    find_mutable (func funcid args) = first_of (mutable_function funcid) (find_mutable_list args)
    find_mutable (op opno funcid args) = first_of (mutable_function funcid) (find_mutable_list args)
    find_mutable (scalar_array_op funcid args) =
        first_of (mutable_function funcid) (find_mutable_list args)
    find_mutable sql_value = some (codes "current_date/current_time/current_user or similar")
    find_mutable next_value = some (codes "nextval")
    find_mutable (var varno attno levelsup) = none
    find_mutable (relabel arg) = find_mutable arg
    find_mutable (and_expr args) = find_mutable_list args
    find_mutable (bool_expr args) = find_mutable_list args
    find_mutable (aggref agg direct args filter) =
        first_of (find_mutable_list direct)
          (first_of (find_mutable_list args) (find_mutable_list filter))
    find_mutable (other args) = find_mutable_list args

    pub find_mutable_list : Nodes → Option Text
    find_mutable_list nil = none
    find_mutable_list (cons n ns) = first_of (find_mutable n) (find_mutable_list ns)

  unfoldable pub require_immutable : Node → Text → Result Report (Unit {0})
  require_immutable node place =
      if not (contains_mutable node) then ok tt else elim (find_mutable node) [
        | some name ↦ err (
            Errors.unsupported_definition (
              concat (
                place
                ∷ codes " uses \""
                ∷ name
                ∷ codes
                    "\", which is not IMMUTABLE; the view must be a pure function of the base table"
                ∷ [])))
        | none ↦ err (
            Errors.unsupported_definition (place ++ codes " uses a function that is not IMMUTABLE"))
      ]

  -- Only the built-in equality compares.
  unfoldable mutual
    pub join_key_vars : Node → List (ℕ × ℕ)
    join_key_vars (and_expr args) = join_key_vars_list args
    join_key_vars (op opno funcid args) =
        if not (is_builtin opno) || not (text_eq (op_name opno) (codes "="))
        then []
        else compared_args args
    join_key_vars _ = []

    pub join_key_vars_list : Nodes → List (ℕ × ℕ)
    join_key_vars_list nil = []
    join_key_vars_list (cons n ns) = join_key_vars n ++ join_key_vars_list ns
