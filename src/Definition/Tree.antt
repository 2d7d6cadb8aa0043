-- ===== src/Definition/Tree.antt =====
-- The query tree that src/definition.rs walks: the part of PostgreSQL's nodes that it reads.
use nabla.Base.{ℕ, List, Option, Bool, Text}

-- What is read of an Aggref besides its lists: DISTINCT and ORDER BY, whether they are there.
pub record Aggregate : Type 0 where
  pub aggfnoid : ℕ
  pub aggkind : ℕ
  pub aggstar : Bool
  pub has_distinct : Bool
  pub has_order : Bool

-- Expressions. Of the nodes that the walk has no case for, only the children count; they stand in the order of
-- `expression_tree_walker`. An `op` is an OpExpr, a DistinctExpr or a NullIfExpr with its operator and its function.
-- The two boolean nodes are those of AND and the others. An `aggref` has its direct arguments, its arguments and its
-- FILTER. An attribute number that is not positive, of a whole row or of a system column, is 0.
mutual
  pub data Node : Type 0 where
    var : ℕ → ℕ → ℕ → Node
    relabel : Node → Node
    op : ℕ → ℕ → Nodes → Node
    scalar_array_op : ℕ → Nodes → Node
    func : ℕ → Nodes → Node
    and_expr : Nodes → Node
    bool_expr : Nodes → Node
    sql_value : Node
    next_value : Node
    aggref : Aggregate → Nodes → Nodes → Nodes → Node
    other : Nodes → Node

  pub data Nodes : Type 0 where
    nil : Nodes
    cons : Node → Nodes → Nodes

pub data JoinType : Type 0 where
  inner : JoinType
  left : JoinType
  right : JoinType
  full : JoinType
  semi : JoinType
  anti : JoinType
  right_anti : JoinType
  unknown : JoinType

-- FROM with its WHERE, a join with its ON, and a reference to the range table.
mutual
  pub data JoinTree : Type 0 where
    reference : ℕ → JoinTree
    from : JoinTrees → Option Node → JoinTree
    join : JoinType → JoinTree → JoinTree → Option Node → JoinTree

  pub data JoinTrees : Type 0 where
    none_left : JoinTrees
    item : JoinTree → JoinTrees → JoinTrees

pub data RteKind : Type 0 where
  relation : RteKind
  joined : RteKind
  subquery : RteKind
  function : RteKind
  table_func : RteKind
  values : RteKind
  cte : RteKind
  other_kind : RteKind

pub record RangeTblEntry : Type 0 where
  pub is_lateral : Bool
  pub kind : RteKind
  pub relid : ℕ
  pub relkind : ℕ
  pub alias : Option Text  -- `eref->aliasname`

pub record TargetEntry : Type 0 where
  pub expr : Node
  pub resname : Option Text
  pub ressortgroupref : ℕ
  pub resjunk : Bool

pub record SortGroupClause : Type 0 where
  pub tle_sort_group_ref : ℕ

-- `Query`: of a clause that is refused, whether it is there.
pub record Query : Type 0 where
  pub is_select : Bool
  pub has_set_operations : Bool
  pub has_ctes : Bool
  pub has_sub_links : Bool
  pub has_window_funcs : Bool
  pub has_target_srfs : Bool
  pub has_distinct_on : Bool
  pub has_distinct : Bool
  pub has_sort : Bool
  pub has_limit_count : Bool
  pub has_limit_offset : Bool
  pub has_having : Bool
  pub has_grouping_sets : Bool
  pub has_for_update : Bool
  pub has_row_marks : Bool
  pub rtable : List RangeTblEntry
  pub jointree : JoinTree
  pub target_list : List TargetEntry
  pub group_clause : List SortGroupClause
  pub has_aggs : Bool

-- `pg_proc` and `pg_operator`: the volatility and the name of a function, the name of an operator, and whether it is
-- one of PostgreSQL's own; and `contain_mutable_functions`.
pub record Functions : Type 0 where
  pub is_immutable : ℕ → Bool
  pub func_name : ℕ → Text
  pub op_name : ℕ → Text
  pub is_builtin : ℕ → Bool
  pub contains_mutable : Node → Bool
