-- ===== src/Definition/Stands.antt =====
-- The select list of `validate` (src/definition.rs) once the targets are through: hidden columns and identities.
use nabla.Base.{
  ℕ, ◌≡◌, refl, sym, subst, ◌⊎◌, inr, List, [], ◌∷◌, ◌++◌, append_assoc, All, any, Option, none,
  some, true, Text, text_eq, ok, ◌>>=◌, Holds, Holds-then, Holds-bind, codes,
}
use nabla.Definition.Types.{BaseRelation, Shape, hidden_count_column}
use nabla.Definition.Walk.{refuse}
use nabla.Definition.Catalog.{Backend}
use nabla.Definition.Targets.{Target}
use nabla.Definition.Building.{
  Building, Deparser, push, named, no_columns, add_hidden_count, add_hidden,
}
use nabla.Definition.Shapes.{add_targets, aggregate_view}
use nabla.Definition.Listing.{
  Lists, Lists-append, Lists-push, HasColumns, HasColumns-push, HasCount, any-push,
}
use nabla.Definition.Growing.{Grows, aliases, add_targets-Grows}

-- The select list gives the visible columns and then the hidden ones.
pub record Stands (quote : Text → Text) (visible : List Text) (shape : Shape)
    (relations : List BaseRelation) (b : Building) : Type 0 where
  pub listed : Lists quote b.populate_targets (visible ++ b.spec.hidden_columns)
  pub kept : b.spec.visible_columns ≡ visible
  pub shaped : b.spec.shape ≡ shape
  pub related : b.spec.relations ≡ relations
  pub maintained : HasColumns visible b.spec.hidden_columns b.spec

-- It has a group count if it is to have one.
abbrev pub Whole : (Text → Text) → List Text → Shape → List BaseRelation → Building → Type 0
Whole quote visible shape relations b =
    Stands quote visible shape relations b × HasCount b.spec.shape b.spec.count_alias

module _ {Raw : Type 0} (backend : Backend Raw) (deparser : Deparser) (visible : List Text)
    (shape : Shape) (relations : List BaseRelation) where
  abbrev pub quote : Text → Text
  quote = backend.quote_identifier

  -- One more hidden column.
  pub push_listed :
      (b : Building) (t c : Text)
      → Stands quote visible shape relations b
      → (expr : Text) × ((t ≡ named expr (quote c)) ⊎ (t ≡ named expr c))
      → Lists quote (push b.populate_targets t) (visible ++ push b.spec.hidden_columns c)
  push_listed b t c s given =
      subst (Lists quote (push b.populate_targets t))
        (append_assoc visible b.spec.hidden_columns (c ∷ []))
        (Lists-push quote b.populate_targets (visible ++ b.spec.hidden_columns) t c s.listed given)

  HasCount-some : (s : Shape) (alias : Text) → HasCount s (some alias)
  HasCount-some Shape.projection alias = tt
  HasCount-some Shape.aggregate alias = (alias, refl)

  add_hidden_count-Whole :
      (count : Option Text) (b : Building)
      → b.spec.count_alias ≡ count
      → Stands quote visible shape relations b
      → Whole quote visible shape relations (add_hidden_count count b)
  unfolding add_hidden_count
  add_hidden_count-Whole (some alias) b e s =
      (s, subst (HasCount b.spec.shape) (sym e) (HasCount-some b.spec.shape alias))
  add_hidden_count-Whole none b e s =
      let wide =
        HasColumns-push visible b.spec.hidden_columns hidden_count_column b.spec (codes "n", refl)
          s.maintained in
      (
        record {
          listed = push_listed b _ hidden_count_column s (codes "count(*)", inr refl);
          kept = s.kept;
          shaped = s.shaped;
          related = s.related;
          maintained = record {
            of_columns = wide.of_columns;
            of_counts = wide.of_counts;
            of_sums = wide.of_sums;
            of_identity = wide.of_identity;
            of_count = inr (any-push hidden_count_column b.spec.hidden_columns);
            of_hidden = wide.of_hidden;
          };
        },
        HasCount-some b.spec.shape hidden_count_column,
      )

  add_hidden-Whole :
      (b : Building)
      → Grows quote visible shape relations visible b
      → Whole quote visible shape relations (add_hidden b)
  unfolding add_hidden
  add_hidden-Whole b g =
      add_hidden_count-Whole b.spec.count_alias
        (record b { populate_targets = b.populate_targets ++ b.hidden_targets }) refl
        (record {
          listed =
              Lists-append quote b.populate_targets visible b.hidden_targets b.spec.hidden_columns
                g.listed g.hidden_listed;
          kept = g.kept;
          shaped = g.shaped;
          related = g.related;
          maintained = g.maintained;
        })

  abbrev pub AreVisible : List Target → Type 0
  AreVisible = All (λ (t : Target). any (text_eq t.alias) visible ≡ true)

  pub aggregate_view-Whole :
      (refs : List ℕ) (ts : List Target) (b : Building)
      → aliases ts ≡ visible
      → AreVisible ts
      → Grows quote visible shape relations [] b
      → Holds (Whole quote visible shape relations) (aggregate_view backend deparser refs ts b)
  unfolding aggregate_view
  aggregate_view-Whole refs ts b e vs g =
      Holds-bind (Grows quote visible shape relations (aliases ts))
        (Whole quote visible shape relations) (add_targets backend deparser refs ts b)
        (λ b1.
          refuse (no_columns b1.spec.columns) (codes "at least one GROUP BY key must be selected")
          >>= λ _. ok (add_hidden b1))
        (add_targets-Grows backend deparser visible shape relations refs ts [] b vs g)
        (λ b1 g1.
          Holds-then (Whole quote visible shape relations)
            (refuse (no_columns b1.spec.columns)
              (codes "at least one GROUP BY key must be selected"))
            (λ _. ok (add_hidden b1))
            (λ _. add_hidden-Whole b1 (subst (λ l. Grows quote visible shape relations l b1) e g1)))
