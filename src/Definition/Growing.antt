-- ===== src/Definition/Growing.antt =====
-- The two shapes in `validate` of src/definition.rs: what the loops over the targets keep.
use nabla.Base.{
  ℕ, ◌≡◌, refl, sym, subst, inl, inr, List, [], ◌∷◌, ◌++◌, map, append-nil, append_assoc, All, any,
  Option, none, some, Bool-cases, true, Text, text_eq, ok, Holds, Holds-then, Holds-bind, Holds-map,
  codes, decimal,
}
use nabla.Definition.Types.{BaseRelation, Shape, hidden_sum_counter_prefix}
use nabla.Definition.Tree.{Aggregate, Node, Nodes}
use nabla.Definition.Walk.{require_immutable}
use nabla.Definition.Catalog.{Backend}
use nabla.Definition.Targets.{Target, AggKind, is_group_key, classify_aggregate}
use nabla.Definition.Building.{Building, Deparser, push, named, call, as_aggregate, quoted_place}
use nabla.Definition.Shapes.{
  deparse, add_key, add_count, add_count_expr, add_sum, add_only_count, add_aggregate,
  add_group_key, add_other, add_target, add_targets, add_column,
}
use nabla.Definition.Listing.{Lists, Lists-push, HasColumns, HasColumns-push, All-push, any-push}

-- Between two targets: the select list gives what is done, the hidden targets the hidden columns.
pub record Grows (quote : Text → Text) (visible : List Text) (shape : Shape)
    (relations : List BaseRelation) (done : List Text) (b : Building) : Type 0 where
  pub listed : Lists quote b.populate_targets done
  pub hidden_listed : Lists quote b.hidden_targets b.spec.hidden_columns
  pub kept : b.spec.visible_columns ≡ visible
  pub shaped : b.spec.shape ≡ shape
  pub related : b.spec.relations ≡ relations
  pub maintained : HasColumns visible b.spec.hidden_columns b.spec

abbrev pub aliases : List Target → List Text
aliases = map (λ (t : Target). t.alias)

module _ {Raw : Type 0} (backend : Backend Raw) (deparser : Deparser) (visible : List Text)
    (shape : Shape) (relations : List BaseRelation) where
  abbrev pub quote : Text → Text
  quote = backend.quote_identifier

  abbrev pub IsVisible : Target → Type 0
  IsVisible t = any (text_eq t.alias) visible ≡ true

  abbrev pub After : List Text → Target → Building → Type 0
  After done t b = Grows quote visible shape relations (push done t.alias) b

  module _ (done : List Text) (t : Target) (b : Building) (v : IsVisible t)
      (g : Grows quote visible shape relations done b) where
    next :
        (expr : Text)
        → Lists quote (push b.populate_targets (named expr (quote t.alias))) (push done t.alias)
    next expr = Lists-push quote b.populate_targets done _ t.alias g.listed (expr, inl refl)

    add_key-Grows : After done t (add_key backend deparser t b)
    unfolding add_key
    add_key-Grows = record {
      listed = next _;
      hidden_listed = g.hidden_listed;
      kept = g.kept;
      shaped = g.shaped;
      related = g.related;
      maintained = record {
        of_columns = All-push _ b.spec.columns _ g.maintained.of_columns (inl v);
        of_counts = g.maintained.of_counts;
        of_sums = g.maintained.of_sums;
        of_identity = g.maintained.of_identity;
        of_count = g.maintained.of_count;
        of_hidden = g.maintained.of_hidden;
      };
    }

    add_count-Grows : After done t (add_count backend deparser t b)
    unfolding add_count
    add_count-Grows = record {
      listed = next _;
      hidden_listed = g.hidden_listed;
      kept = g.kept;
      shaped = g.shaped;
      related = g.related;
      maintained = record {
        of_columns = g.maintained.of_columns;
        of_counts = g.maintained.of_counts;
        of_sums = g.maintained.of_sums;
        of_identity = g.maintained.of_identity;
        of_count = inl v;
        of_hidden = g.maintained.of_hidden;
      };
    }

    add_count_expr-Grows : (arg : Node) → After done t (add_count_expr backend deparser t arg b)
    unfolding add_count_expr
    add_count_expr-Grows arg = record {
      listed = next _;
      hidden_listed = g.hidden_listed;
      kept = g.kept;
      shaped = g.shaped;
      related = g.related;
      maintained = record {
        of_columns = g.maintained.of_columns;
        of_counts = All-push _ b.spec.counts _ g.maintained.of_counts (inl v);
        of_sums = g.maintained.of_sums;
        of_identity = g.maintained.of_identity;
        of_count = g.maintained.of_count;
        of_hidden = g.maintained.of_hidden;
      };
    }

    add_sum-Grows : (arg : Node) → After done t (add_sum backend deparser t arg b)
    unfolding add_sum
    add_sum-Grows arg =
        let counter = hidden_sum_counter_prefix ++ decimal b.agg_index in
        let wide =
          HasColumns-push visible b.spec.hidden_columns counter b.spec
            (codes "nn_" ++ decimal b.agg_index, refl) g.maintained in
        record {
          listed = next _;
          hidden_listed =
              Lists-push quote b.hidden_targets b.spec.hidden_columns _ counter g.hidden_listed
                (call (codes "count") (deparse backend deparser arg), inr refl);
          kept = g.kept;
          shaped = g.shaped;
          related = g.related;
          maintained = record {
            of_columns = wide.of_columns;
            of_counts = wide.of_counts;
            of_sums =
                All-push _ b.spec.sums _ wide.of_sums
                  (inl v, inr (any-push counter b.spec.hidden_columns));
            of_identity = wide.of_identity;
            of_count = wide.of_count;
            of_hidden = wide.of_hidden;
          };
        }

    add_only_count-Grows :
        (count : Option Text) → Holds (After done t) (add_only_count backend deparser count t b)
    unfolding add_only_count
    add_only_count-Grows none = add_count-Grows
    add_only_count-Grows (some alias) = tt

    add_aggregate-Grows :
        (kind : AggKind) → Holds (After done t) (add_aggregate backend deparser t kind b)
    unfolding add_aggregate
    add_aggregate-Grows AggKind.count = add_only_count-Grows b.spec.count_alias
    add_aggregate-Grows (AggKind.count_expr arg) = add_count_expr-Grows arg
    add_aggregate-Grows (AggKind.sum arg) = add_sum-Grows arg

    add_group_key-Grows : Holds (After done t) (add_group_key backend deparser t b)
    unfolding add_group_key
    add_group_key-Grows =
        Holds-then (After done t)
          (require_immutable backend.functions t.node
            (quoted_place (codes "the GROUP BY key") t.alias))
          (λ _. ok (add_key backend deparser t b)) (λ _. add_key-Grows)

    add_other-Grows :
        (parts : Option (Aggregate × Nodes × Nodes × Nodes))
        → Holds (After done t) (add_other backend deparser parts t b)
    unfolding add_other
    add_other-Grows none = tt
    add_other-Grows (some (agg, direct, args, filter)) =
        Holds-then (After done t) (classify_aggregate backend agg direct args filter t.alias)
          (λ kind. add_aggregate backend deparser t kind b) add_aggregate-Grows

    add_target-Grows : (refs : List ℕ) → Holds (After done t) (add_target backend deparser refs t b)
    unfolding add_target
    add_target-Grows refs = elim (Bool-cases (is_group_key refs t)) [
      | inl e ↦ rw e add_group_key-Grows
      | inr e ↦ rw e (add_other-Grows (as_aggregate t.node))
    ]

    pub add_column-Grows : After done t (add_column backend deparser t b)
    unfolding add_column
    add_column-Grows = record {
      listed = next _;
      hidden_listed = g.hidden_listed;
      kept = g.kept;
      shaped = g.shaped;
      related = g.related;
      maintained = record {
        of_columns = All-push _ b.spec.columns _ g.maintained.of_columns (inl v);
        of_counts = g.maintained.of_counts;
        of_sums = g.maintained.of_sums;
        of_identity = g.maintained.of_identity;
        of_count = g.maintained.of_count;
        of_hidden = g.maintained.of_hidden;
      };
    }

  -- Every target of the rest stands behind what is done.
  pub later :
      (done : List Text) (t : Target) (ts : List Target) (b : Building)
      → Grows quote visible shape relations (push done t.alias ++ aliases ts) b
      → Grows quote visible shape relations (done ++ aliases (t ∷ ts)) b
  later done t ts b =
      subst (λ l. Grows quote visible shape relations l b)
        (append_assoc done (t.alias ∷ []) (aliases ts))

  pub add_targets-Grows :
      (refs : List ℕ) (ts : List Target) (done : List Text) (b : Building)
      → All IsVisible ts
      → Grows quote visible shape relations done b
      → Holds
          (Grows quote visible shape relations (done ++ aliases ts))
          (add_targets backend deparser refs ts b)
  unfolding add_targets
  add_targets-Grows refs [] done b vs g =
      subst (λ l. Grows quote visible shape relations l b) (sym (append-nil done)) g
  add_targets-Grows refs (t ∷ ts) done b (v, vs) g =
      Holds-bind (After done t) _ (add_target backend deparser refs t b)
        (add_targets backend deparser refs ts) (add_target-Grows done t b v g refs)
        (λ b1 g1.
          Holds-map _ _ (add_targets backend deparser refs ts b1) (later done t ts)
            (add_targets-Grows refs ts (push done t.alias) b1 vs g1))
