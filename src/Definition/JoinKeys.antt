-- ===== src/Definition/JoinKeys.antt =====
-- `join_key_vars` of src/definition.rs against its meaning: which columns a qual joins on.
use nabla.Base.{
  ◌≡◌, ◌≢◌, ◌↔◌, refl, sym, subst, ◌⊎◌, inl, inr, List, [], ◌∷◌, ◌++◌, Option-cases, some,
  Bool-cases, true, text_eq, text_eq_refl, text_eq→eq, codes, ◌==◌, ==_iff, ==_ne,
}
use nabla.Definition.Tree.{
  Node, Nodes, var, relabel, op, scalar_array_op, func, and_expr, bool_expr, sql_value, next_value,
  aggref, other, nil, cons, Functions,
}
use nabla.Definition.Walk.{
  plain_var, operand_var, compared, compared_args, join_key_vars, join_key_vars_list,
}
use nabla.Definition.Keys.{Column}

abbrev pub Has : Column → List Column → Type 0
Has v [] = ⊥
Has v (w ∷ ws) = (v ≡ w) ⊎ Has v ws

-- A column of this query, as it is or under one relabel.
abbrev pub IsVar : Node → Column → Type 0
IsVar (var varno attno levelsup) c = (levelsup ≡ 0) × (c ≡ (varno, attno))
IsVar _ c = ⊥

abbrev pub IsOperand : Node → Column → Type 0
IsOperand (relabel arg) c = IsVar arg c
IsOperand (var varno attno levelsup) c = IsVar (var varno attno levelsup) c
IsOperand _ c = ⊥

-- Two operands are columns of different relations, and the column is one of them.
pub record IsCompared (a b : Node) (v : Column) : Type 0 where
  pub left_column : Column
  pub right_column : Column
  pub left_is : IsOperand a left_column
  pub right_is : IsOperand b right_column
  pub apart : left_column.0 ≢ right_column.0
  pub one_of : (v ≡ left_column) ⊎ (v ≡ right_column)

abbrev pub IsComparedIn : Nodes → Column → Type 0
IsComparedIn (cons a (cons b nil)) v = IsCompared a b v
IsComparedIn _ v = ⊥

module _ (functions : Functions) where
  -- A conjunct is the built-in equality of the column with one of another relation.
  unfoldable mutual
    pub JoinsOn : Node → Column → Type 0
    JoinsOn (and_expr args) v = OneJoinsOn args v
    JoinsOn (op opno funcid args) v =
        (functions.is_builtin opno ≡ true)
        × (functions.op_name opno ≡ codes "=")
        × IsComparedIn args v
    JoinsOn _ v = ⊥

    pub OneJoinsOn : Nodes → Column → Type 0
    OneJoinsOn nil v = ⊥
    OneJoinsOn (cons n ns) v = JoinsOn n v ⊎ OneJoinsOn ns v

Has-append : (v : Column) (xs ys : List Column) → Has v (xs ++ ys) ↔ (Has v xs ⊎ Has v ys)
Has-append v [] ys = (λ h. inr h, λ h. elim h [ inl k ↦ absurd k | inr k ↦ k ])
Has-append v (x ∷ xs) ys = (
  λ h. elim h [
    | inl e ↦ inl (inl e)
    | inr k ↦ elim ((Has-append v xs ys).0 k) [ inl q ↦ inl (inr q) | inr q ↦ inr q ]
  ],
  λ h. elim h [
    | inl k ↦ elim k [ inl e ↦ inl e | inr q ↦ inr ((Has-append v xs ys).1 (inl q)) ]
    | inr q ↦ inr ((Has-append v xs ys).1 (inr q))
  ],
)

plain_var-IsVar : (n : Node) (c : Column) → (plain_var n ≡ some c) ↔ IsVar n c
unfolding plain_var
plain_var-IsVar (var varno attno levelsup) c = elim (Bool-cases (levelsup == 0)) [
  | inl t ↦
      rw t (λ e. ((==_iff levelsup 0).0 t, let s : (varno, attno) ≡ c = cc in sym s), λ h. cc (h.1))
  | inr f ↦ rw f (λ e. cc, λ h. cc (f, (==_iff levelsup 0).1 h.0))
]
plain_var-IsVar (relabel arg) c = (λ e. cc, λ h. absurd h)
plain_var-IsVar (op opno funcid args) c = (λ e. cc, λ h. absurd h)
plain_var-IsVar (scalar_array_op funcid args) c = (λ e. cc, λ h. absurd h)
plain_var-IsVar (func funcid args) c = (λ e. cc, λ h. absurd h)
plain_var-IsVar (and_expr args) c = (λ e. cc, λ h. absurd h)
plain_var-IsVar (bool_expr args) c = (λ e. cc, λ h. absurd h)
plain_var-IsVar sql_value c = (λ e. cc, λ h. absurd h)
plain_var-IsVar next_value c = (λ e. cc, λ h. absurd h)
plain_var-IsVar (aggref agg direct args filter) c = (λ e. cc, λ h. absurd h)
plain_var-IsVar (other args) c = (λ e. cc, λ h. absurd h)

operand_var-IsOperand : (n : Node) (c : Column) → (operand_var n ≡ some c) ↔ IsOperand n c
unfolding operand_var
operand_var-IsOperand (var varno attno levelsup) c = plain_var-IsVar (var varno attno levelsup) c
operand_var-IsOperand (relabel arg) c = plain_var-IsVar arg c
operand_var-IsOperand (op opno funcid args) c = (λ e. cc, λ h. absurd h)
operand_var-IsOperand (scalar_array_op funcid args) c = (λ e. cc, λ h. absurd h)
operand_var-IsOperand (func funcid args) c = (λ e. cc, λ h. absurd h)
operand_var-IsOperand (and_expr args) c = (λ e. cc, λ h. absurd h)
operand_var-IsOperand (bool_expr args) c = (λ e. cc, λ h. absurd h)
operand_var-IsOperand sql_value c = (λ e. cc, λ h. absurd h)
operand_var-IsOperand next_value c = (λ e. cc, λ h. absurd h)
operand_var-IsOperand (aggref agg direct args filter) c = (λ e. cc, λ h. absurd h)
operand_var-IsOperand (other args) c = (λ e. cc, λ h. absurd h)

compared-to :
    (a b : Node) (v : Column) → Has v (compared (operand_var a) (operand_var b)) → IsCompared a b v
unfolding compared
compared-to a b v h = elim (Option-cases (operand_var a)) [
  | inl e ↦ let k = rw e at h in absurd k
  | inr (l, e) ↦ elim (Option-cases (operand_var b)) [
    | inl f ↦ let k = rw (e, f) at h in absurd k
    | inr (r, f) ↦
        let k = rw (e, f) at h in
        elim (Bool-cases (l.0 == r.0)) [
          | inl t ↦ let q = rw t at k in absurd q
          | inr t ↦ record {
            left_column = l;
            right_column = r;
            left_is = (operand_var-IsOperand a l).0 e;
            right_is = (operand_var-IsOperand b r).0 f;
            apart = λ same. let yes_it_is = (==_iff l.0 r.0).1 same in cc;
            one_of = elim (rw t at k) [
              | inl p ↦ inl p
              | inr p ↦ elim p [ inl q ↦ inr q | inr q ↦ absurd q ]
            ];
          }
        ]
  ]
]

compared-of :
    (a b : Node) (v : Column) → IsCompared a b v → Has v (compared (operand_var a) (operand_var b))
unfolding compared
compared-of a b v c =
    let l = (operand_var-IsOperand a c.left_column).1 c.left_is in
    let r = (operand_var-IsOperand b c.right_column).1 c.right_is in
    rw (l, r, ==_ne c.left_column.0 c.right_column.0 c.apart)
      (elim c.one_of [ inl p ↦ inl p | inr p ↦ inr (inl p) ])

args-IsComparedIn : (args : Nodes) (v : Column) → Has v (compared_args args) ↔ IsComparedIn args v
unfolding compared_args
args-IsComparedIn nil v = (λ h. absurd h, λ h. absurd h)
args-IsComparedIn (cons a nil) v = (λ h. absurd h, λ h. absurd h)
args-IsComparedIn (cons a (cons b nil)) v = (compared-to a b v, compared-of a b v)
args-IsComparedIn (cons a (cons b (cons c rest))) v = (λ h. absurd h, λ h. absurd h)

module _ (functions : Functions) where
  mutual
    unfolding join_key_vars JoinsOn

    keys-JoinsOn :
        (n : Node) (v : Column) → Has v (join_key_vars functions n) ↔ JoinsOn functions n v
    keys-JoinsOn (and_expr args) v = keys_list-JoinsOn args v
    keys-JoinsOn (op opno funcid args) v = elim (Bool-cases (functions.is_builtin opno)) [
      | inr f ↦ rw f (λ h. absurd h, λ h. cc (h.0))
      | inl t ↦ elim (Bool-cases (text_eq (functions.op_name opno) (codes "="))) [
        | inr f ↦
            rw (t, f)
              (
                λ h. absurd h,
                λ h.
                    let name = h.1 in
                    let same = text_eq_refl (codes "=") in
                    let yes_it_is : text_eq (functions.op_name opno) (codes "=") ≡ true =
                      subst (λ m. text_eq m (codes "=") ≡ true) (sym name) same in
                    cc,
              )
        | inl u ↦
            rw (t, u)
              (
                λ h. (refl, text_eq→eq _ _ u, (args-IsComparedIn args v).0 h),
                λ h. (args-IsComparedIn args v).1 h.2,
              )
      ]
    ]
    keys-JoinsOn (var varno attno levelsup) v = (λ h. absurd h, λ h. absurd h)
    keys-JoinsOn (relabel arg) v = (λ h. absurd h, λ h. absurd h)
    keys-JoinsOn (scalar_array_op funcid args) v = (λ h. absurd h, λ h. absurd h)
    keys-JoinsOn (func funcid args) v = (λ h. absurd h, λ h. absurd h)
    keys-JoinsOn (bool_expr args) v = (λ h. absurd h, λ h. absurd h)
    keys-JoinsOn sql_value v = (λ h. absurd h, λ h. absurd h)
    keys-JoinsOn next_value v = (λ h. absurd h, λ h. absurd h)
    keys-JoinsOn (aggref agg direct args filter) v = (λ h. absurd h, λ h. absurd h)
    keys-JoinsOn (other args) v = (λ h. absurd h, λ h. absurd h)

    keys_list-JoinsOn :
        (ns : Nodes) (v : Column)
        → Has v (join_key_vars_list functions ns) ↔ OneJoinsOn functions ns v
    keys_list-JoinsOn nil v = (λ h. absurd h, λ h. absurd h)
    keys_list-JoinsOn (cons n ns) v =
        let split = Has-append v (join_key_vars functions n) (join_key_vars_list functions ns) in
        let first = keys-JoinsOn n v in
        let others = keys_list-JoinsOn ns v in
        (
          λ h. elim (split.0 h) [ inl k ↦ inl (first.0 k) | inr k ↦ inr (others.0 k) ],
          λ h. split.1 (elim h [ inl k ↦ inl (first.1 k) | inr k ↦ inr (others.1 k) ]),
        )

  -- A column is among the join keys of a qual exactly if a conjunct of the qual is the built-in
  -- equality of it and a column of another relation, each of the two plain or under one relabel.
  pub join_key_vars-JoinsOn :
      (n : Node) (v : Column) → Has v (join_key_vars functions n) ↔ JoinsOn functions n v
  join_key_vars-JoinsOn n v = keys-JoinsOn n v
