-- ===== src/Definition/Projecting.antt =====
-- The projection views of `validate` (src/definition.rs): the select list with the identity of a row.
use nabla.Base.{
  ℕ, ◌≡◌, refl, sym, subst, ap, ◌∙◌, inl, inr, List, [], ◌∷◌, ◌++◌, append-nil, All, any, Option,
  none, some, Bool-cases, true, Text, text_eq, ok, ◌>>=◌, Holds, Holds-then, Holds-map, codes,
  concat, decimal, zip,
}
use nabla.Definition.Types.{Shape, BaseRelation, BaseTable, hidden_pk_prefix}
use nabla.Definition.Walk.{require_immutable}
use nabla.Definition.Catalog.{Backend}
use nabla.Definition.Targets.{Target, is_plain_var}
use nabla.Definition.Building.{
  Building, Deparser, push, quoted_place, find_plain, note_key, find_keys, require_key,
  require_complete, with_key, selected_key,
}
use nabla.Definition.Shapes.{add_column, add_columns, add_pk_column, add_pk_columns, add_identities}
use nabla.Definition.Listing.{Lists, HasColumns-push, IsColumn, OptionIs, All-push, any-push}
use nabla.Definition.Growing.{Grows, aliases, add_column-Grows, later}
use nabla.Definition.Stands.{Stands, push_listed}

module _ {Raw : Type 0} (backend : Backend Raw) (deparser : Deparser) (visible : List Text)
    (shape : Shape) (relations : List BaseRelation) where
  abbrev pub quote : Text → Text
  quote = backend.quote_identifier

  abbrev pub AreVisible : List Target → Type 0
  AreVisible = All (λ (t : Target). any (text_eq t.alias) visible ≡ true)

  add_pk_column-Stands :
      (rel : BaseRelation) (col : Text) (b : Building)
      → Stands quote visible shape relations b
      → Stands quote visible shape relations (add_pk_column backend deparser rel col b)
  unfolding add_pk_column concat
  add_pk_column-Stands rel col b s =
      let hidden = concat (hidden_pk_prefix ∷ decimal rel.rti ∷ codes "_" ∷ col ∷ []) in
      let wide =
        HasColumns-push visible b.spec.hidden_columns hidden b.spec
          (codes "pk" ++ concat (decimal rel.rti ∷ codes "_" ∷ col ∷ []), refl) s.maintained in
      record {
        listed = push_listed backend deparser visible shape relations b _ hidden s (
          concat
              (backend.quote_identifier rel.alias ∷ codes "." ∷ backend.quote_identifier col ∷ []),
          inl refl,
        );
        kept = s.kept;
        shaped = s.shaped;
        related = s.related;
        maintained = record {
          of_columns = wide.of_columns;
          of_counts = wide.of_counts;
          of_sums = wide.of_sums;
          of_identity =
              All-push _ b.spec.pk_view_columns hidden wide.of_identity
                (inr (any-push hidden b.spec.hidden_columns));
          of_count = wide.of_count;
          of_hidden = wide.of_hidden;
        };
      }

  add_pk_columns-Stands :
      (rel : BaseRelation) (cols : List Text) (b : Building)
      → Stands quote visible shape relations b
      → Stands quote visible shape relations (add_pk_columns backend deparser rel cols b)
  unfolding add_pk_columns
  add_pk_columns-Stands rel [] b s = s
  add_pk_columns-Stands rel (col ∷ cols) b s =
      add_pk_columns-Stands rel cols (add_pk_column backend deparser rel col b)
        (add_pk_column-Stands rel col b s)

  pub add_identities-Stands :
      (rels : List BaseRelation) (b : Building)
      → Stands quote visible shape relations b
      → Stands quote visible shape relations (add_identities backend deparser rels b)
  unfolding add_identities
  add_identities-Stands [] b s = s
  add_identities-Stands (rel ∷ rels) b s =
      add_identities-Stands rels (add_pk_columns backend deparser rel rel.pk_columns b)
        (add_pk_columns-Stands rel rel.pk_columns b s)

  -- The columns of a projection leave the hidden ones alone.
  abbrev pub Bare : List Text → Building → Type 0
  Bare done b = Grows quote visible shape relations done b × (b.spec.hidden_columns ≡ [])

  add_columns-Bare :
      (ts : List Target) (done : List Text) (b : Building)
      → AreVisible ts
      → Bare done b
      → Holds (Bare (done ++ aliases ts)) (add_columns backend deparser ts b)
  unfolding add_columns add_column
  add_columns-Bare [] done b vs (g, e) =
      (subst (λ l. Grows quote visible shape relations l b) (sym (append-nil done)) g, e)
  add_columns-Bare (t ∷ ts) done b (v, vs) (g, e) =
      Holds-then (Bare (done ++ aliases (t ∷ ts)))
        (require_immutable backend.functions t.node (quoted_place (codes "column") t.alias))
        (λ _. add_columns backend deparser ts (add_column backend deparser t b))
        (λ _.
          Holds-map _ _ (add_columns backend deparser ts (add_column backend deparser t b))
            (λ b1 g1. (later backend deparser visible shape relations done t ts b1 g1.0, g1.1))
            (add_columns-Bare ts (push done t.alias) (add_column backend deparser t b) vs
              (add_column-Grows backend deparser visible shape relations done t b v g, e)))

  pub add_columns-Stands :
      (ts : List Target) (b : Building)
      → aliases ts ≡ visible
      → AreVisible ts
      → Bare [] b
      → Holds (Stands quote visible shape relations) (add_columns backend deparser ts b)
  add_columns-Stands ts b e vs g =
      Holds-map (Bare (aliases ts)) _ (add_columns backend deparser ts b)
        (λ b1 g1. record {
          listed =
              subst (Lists quote b1.populate_targets) (ap (λ l. visible ++ l) (sym g1.1)) (
                subst (Lists quote b1.populate_targets) (e ∙ sym (append-nil visible)) g1.0.listed);
          kept = g1.0.kept;
          shaped = g1.0.shaped;
          related = g1.0.related;
          maintained = g1.0.maintained;
        })
        (add_columns-Bare ts [] b vs g)

  find_plain-visible :
      (varno attnum : ℕ) (ts : List Target)
      → AreVisible ts
      → OptionIs (λ a. any (text_eq a) visible ≡ true) (find_plain varno attnum ts)
  unfolding find_plain
  find_plain-visible varno attnum [] vs = tt
  find_plain-visible varno attnum (t ∷ ts) (v, vs) =
      elim (Bool-cases (is_plain_var t.node varno attnum)) [
        | inl e ↦ rw e v
        | inr e ↦ rw e (find_plain-visible varno attnum ts vs)
      ]

  note_key-visible :
      (hidden : List Text) (o : Option Text) (name : Text) (acc : List Text × List Text)
      → OptionIs (λ a. any (text_eq a) visible ≡ true) o
      → All (IsColumn visible hidden) acc.0
      → All (IsColumn visible hidden) (note_key o name acc).0
  unfolding note_key
  note_key-visible hidden none name (found, missing) v h = h
  note_key-visible hidden (some alias) name (found, missing) v h = All-push _ found alias h (inl v)

  find_keys-visible :
      (varno : ℕ) (ts : List Target) (hidden : List Text)
      → AreVisible ts
      → (key : List (ℕ × Text)) (acc : List Text × List Text) → All (IsColumn visible hidden) acc.0
      → All (IsColumn visible hidden) (find_keys varno ts key acc).0
  unfolding find_keys
  find_keys-visible varno ts hidden vs [] acc h = h
  find_keys-visible varno ts hidden vs (k ∷ key) acc h =
      find_keys-visible varno ts hidden vs key (note_key (find_plain varno k.0 ts) k.1 acc) (
        note_key-visible hidden (find_plain varno k.0 ts) k.1 acc
          (find_plain-visible varno k.0 ts vs) h)

  pub selected_key-Stands :
      (varno : ℕ) (base : BaseTable) (attnums : List ℕ) (ts : List Target) (b : Building)
      → AreVisible ts
      → Stands quote visible shape relations b
      → Holds (Stands quote visible shape relations) (selected_key varno base attnums ts b)
  unfolding selected_key with_key
  selected_key-Stands varno base attnums ts b vs s =
      let r = find_keys varno ts (zip attnums base.pk_columns) (b.spec.pk_view_columns, []) in
      Holds-then (Stands quote visible shape relations) (require_key base attnums)
        (λ _. require_complete base r.1 >>= λ _. ok (with_key base r.0 b))
        (λ _.
          Holds-then (Stands quote visible shape relations) (require_complete base r.1)
            (λ _. ok (with_key base r.0 b))
            (λ _. record {
              listed = s.listed;
              kept = s.kept;
              shaped = s.shaped;
              related = s.related;
              maintained = record {
                of_columns = s.maintained.of_columns;
                of_counts = s.maintained.of_counts;
                of_sums = s.maintained.of_sums;
                of_identity =
                    find_keys-visible varno ts b.spec.hidden_columns vs
                      (zip attnums base.pk_columns) (b.spec.pk_view_columns, [])
                      s.maintained.of_identity;
                of_count = s.maintained.of_count;
                of_hidden = s.maintained.of_hidden;
              };
            }))
