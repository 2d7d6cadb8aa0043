-- ===== src/Definition/Keys.antt =====
-- `join_key_vars` and `collect_vars` of src/definition.rs: the join keys are among the columns that a qual uses.
use nabla.Base.{
  ℕ, ◌≡◌, refl, subst, inl, inr, List, [], ◌∷◌, ◌++◌, All, Option, none, some, Bool, Bool-cases,
  true, false, not, ◌&&◌, ◌||◌, text_eq, codes, ◌==◌, ==_refl,
}
use nabla.Definition.Tree.{
  Node, Nodes, var, relabel, op, scalar_array_op, func, and_expr, bool_expr, sql_value, next_value,
  aggref, other, nil, cons, Functions,
}
use nabla.Definition.Walk.{
  plain_var, operand_var, compared, compared_args, collect_vars, collect_vars_list, join_key_vars,
  join_key_vars_list,
}

abbrev pub Column : Type 0
Column = ℕ × ℕ

unfoldable pub includes : Column → List Column → Bool
includes v [] = false
includes v (w ∷ ws) = (v.0 == w.0 && v.1 == w.1) || includes v ws

abbrev pub AreAmong : List Column → List Column → Type 0
AreAmong keys vars = All (λ v. includes v vars ≡ true) keys

or_right : (a b : Bool) → b ≡ true → (a || b) ≡ true
or_right true b e = refl
or_right false b e = e

includes-right :
    (v : Column) (xs ys : List Column) → includes v ys ≡ true → includes v (xs ++ ys) ≡ true
unfolding includes
includes-right v [] ys h = h
includes-right v (x ∷ xs) ys h = or_right (v.0 == x.0 && v.1 == x.1) _ (includes-right v xs ys h)

includes-left :
    (v : Column) (xs ys : List Column) → includes v xs ≡ true → includes v (xs ++ ys) ≡ true
unfolding includes
includes-left v [] ys h = cc
includes-left v (x ∷ xs) ys h = elim (Bool-cases (v.0 == x.0 && v.1 == x.1)) [
  | inl e ↦ rw e refl
  | inr e ↦ rw e (includes-left v xs ys (rw e at h))
]

includes-first : (v : Column) (ws : List Column) → includes v (v ∷ ws) ≡ true
unfolding includes
includes-first v ws = rw (==_refl v.0, ==_refl v.1) refl

pub AreAmong-append :
    (xs ys vs ws : List Column) → AreAmong xs vs → AreAmong ys ws → AreAmong (xs ++ ys) (vs ++ ws)
AreAmong-append [] ys vs ws h k = widen ys k
  where
    widen : (zs : List Column) → AreAmong zs ws → AreAmong zs (vs ++ ws)
    widen [] q = tt
    widen (z ∷ zs) (q, qs) = (includes-right z vs ws q, widen zs qs)
AreAmong-append (x ∷ xs) ys vs ws (h, hs) k =
    (includes-left x vs ws h, AreAmong-append xs ys vs ws hs k)

-- An operand's column is one of the node.
plain_var-is : (n : Node) (v : Column) → plain_var n ≡ some v → includes v (collect_vars n) ≡ true
unfolding plain_var collect_vars
plain_var-is (var varno attno levelsup) v e = elim (Bool-cases (levelsup == 0)) [
  | inl t ↦
      let k : plain_var (var varno attno levelsup) ≡ some (varno, attno) = rw (t, plain_var) refl in
      let same : (varno, attno) ≡ v = cc in
      rw t (
        subst (λ w. includes w ((varno, attno) ∷ []) ≡ true) same
          (includes-first (varno, attno) []))
  | inr f ↦ let k : plain_var (var varno attno levelsup) ≡ none = rw (f, plain_var) refl in cc
]
plain_var-is (relabel arg) v e = cc
plain_var-is (op opno funcid args) v e = cc
plain_var-is (scalar_array_op funcid args) v e = cc
plain_var-is (func funcid args) v e = cc
plain_var-is (and_expr args) v e = cc
plain_var-is (bool_expr args) v e = cc
plain_var-is sql_value v e = cc
plain_var-is next_value v e = cc
plain_var-is (aggref agg direct args filter) v e = cc
plain_var-is (other args) v e = cc

operand_var-is :
    (n : Node) (v : Column) → operand_var n ≡ some v → includes v (collect_vars n) ≡ true
unfolding operand_var collect_vars
operand_var-is (relabel arg) v e = plain_var-is arg v e
operand_var-is (var varno attno levelsup) v e = plain_var-is (var varno attno levelsup) v e
operand_var-is (op opno funcid args) v e = cc
operand_var-is (scalar_array_op funcid args) v e = cc
operand_var-is (func funcid args) v e = cc
operand_var-is (and_expr args) v e = cc
operand_var-is (bool_expr args) v e = cc
operand_var-is sql_value v e = cc
operand_var-is next_value v e = cc
operand_var-is (aggref agg direct args filter) v e = cc
operand_var-is (other args) v e = cc

compared-AreAmong :
    (l r : Option Column) (vars : List Column)
    → ((v : Column) → l ≡ some v → includes v vars ≡ true)
    → ((v : Column) → r ≡ some v → includes v vars ≡ true)
    → AreAmong (compared l r) vars
unfolding compared
compared-AreAmong none r vars h k = tt
compared-AreAmong (some l) none vars h k = tt
compared-AreAmong (some l) (some r) vars h k = elim (Bool-cases (l.0 == r.0)) [
  | inl t ↦ rw t tt
  | inr f ↦ rw f (h l refl, (k r refl, tt))
]

args-AreAmong : (args : Nodes) → AreAmong (compared_args args) (collect_vars_list args)
unfolding compared_args collect_vars
args-AreAmong nil = tt
args-AreAmong (cons a nil) = tt
args-AreAmong (cons a (cons b nil)) =
    compared-AreAmong (operand_var a) (operand_var b) (collect_vars a ++ (collect_vars b ++ []))
      (λ v e. includes-left v (collect_vars a) (collect_vars b ++ []) (operand_var-is a v e))
      (λ v e.
        includes-right v (collect_vars a) (collect_vars b ++ [])
          (includes-left v (collect_vars b) [] (operand_var-is b v e)))
args-AreAmong (cons a (cons b (cons c rest))) = tt

module _ (functions : Functions) where
  mutual
    unfolding join_key_vars collect_vars

    keys-AreAmong : (n : Node) → AreAmong (join_key_vars functions n) (collect_vars n)
    keys-AreAmong (and_expr args) = keys_list-AreAmong args
    keys-AreAmong (op opno funcid args) =
        elim (Bool-cases
          (not (functions.is_builtin opno) || not (text_eq (functions.op_name opno) (codes "=")))) [
            | inl t ↦ rw t tt
            | inr f ↦ rw f (args-AreAmong args)
          ]
    keys-AreAmong (var varno attno levelsup) = tt
    keys-AreAmong (relabel arg) = tt
    keys-AreAmong (scalar_array_op funcid args) = tt
    keys-AreAmong (func funcid args) = tt
    keys-AreAmong (bool_expr args) = tt
    keys-AreAmong sql_value = tt
    keys-AreAmong next_value = tt
    keys-AreAmong (aggref agg direct args filter) = tt
    keys-AreAmong (other args) = tt

    keys_list-AreAmong :
        (ns : Nodes) → AreAmong (join_key_vars_list functions ns) (collect_vars_list ns)
    keys_list-AreAmong nil = tt
    keys_list-AreAmong (cons n ns) =
        AreAmong-append (join_key_vars functions n) (join_key_vars_list functions ns)
          (collect_vars n) (collect_vars_list ns) (keys-AreAmong n) (keys_list-AreAmong ns)

  -- Every column that a qual gives as a join key is one that it refers to.
  pub join_key_vars-AreAmong : (n : Node) → AreAmong (join_key_vars functions n) (collect_vars n)
  join_key_vars-AreAmong n = keys-AreAmong n
