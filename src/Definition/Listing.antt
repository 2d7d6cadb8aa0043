-- ===== src/Definition/Listing.antt =====
-- What the select list of `validate` (src/definition.rs) is against the columns of a view, and lemmas on lists of names.
use nabla.Base.{
  length, ◌≡◌, ◌≢◌, refl, sym, subst, ◌⊎◌, inl, inr, List, [], ◌∷◌, ◌++◌, map, All, any, zip,
  Option, none, some, Bool, Bool-cases, true, false, ◌||◌, Text, text_eq, text_eq_refl, codes, join,
  ==_refl,
}
use nabla.Definition.Types.{BaseRelation, Shape, OutputColumn, SumSpec, ViewSpec}
use nabla.Definition.Targets.{Target, starts_with}
use nabla.Definition.Building.{named, push}

-- A target is an expression under the column's name, which may be quoted.
abbrev pub Gives : (Text → Text) → Text → Text → Type 0
Gives quote target column =
    (expr : Text) × ((target ≡ named expr (quote column)) ⊎ (target ≡ named expr column))

-- The targets stand in the order of the columns.
abbrev pub Lists : (Text → Text) → List Text → List Text → Type 0
Lists quote [] [] = Unit {0}
Lists quote [] (c ∷ cs) = ⊥
Lists quote (t ∷ ts) [] = ⊥
Lists quote (t ∷ ts) (c ∷ cs) = Gives quote t c × Lists quote ts cs

-- A column of the view's table, of the user or hidden.
abbrev pub IsColumn : List Text → List Text → Text → Type 0
IsColumn visible hidden a = (any (text_eq a) visible ≡ true) ⊎ (any (text_eq a) hidden ≡ true)

abbrev pub OptionIs : (Text → Type 0) → Option Text → Type 0
OptionIs P none = Unit {0}
OptionIs P (some a) = P a

abbrev pub IsReserved : Text → Type 0
IsReserved a = (rest : Text) × (a ≡ codes "_nabla_" ++ rest)

-- Every column that maintenance reads or writes is one of the view's, and the hidden ones have reserved names.
pub record HasColumns (visible hidden : List Text) (spec : ViewSpec) : Type 0 where
  pub of_columns : All (λ (c : OutputColumn). IsColumn visible hidden c.alias) spec.columns
  pub of_counts : All (λ (c : OutputColumn). IsColumn visible hidden c.alias) spec.counts
  pub of_sums :
      All
        (λ (s : SumSpec). IsColumn visible hidden s.alias × IsColumn visible hidden s.counter)
        spec.sums
  pub of_identity : All (IsColumn visible hidden) spec.pk_view_columns
  pub of_count : OptionIs (IsColumn visible hidden) spec.count_alias
  pub of_hidden : All IsReserved hidden

abbrev pub AreDistinct : List Text → Type 0
AreDistinct [] = Unit {0}
AreDistinct (x ∷ xs) = All (λ y. x ≢ y) xs × AreDistinct xs

abbrev pub HasCount : Shape → Option Text → Type 0
HasCount Shape.projection count = Unit {0}
HasCount Shape.aggregate count = (alias : Text) × (count ≡ some alias)

-- A column with its type among those of a relation.
abbrev pub IsColumnOf : Text × Text → List (Text × Text) → Type 0
IsColumnOf q [] = ⊥
IsColumnOf q (z ∷ zs) = (q ≡ z) ⊎ IsColumnOf q zs

-- There are as many types as used columns, each used column stands with the type that the relation has for it,
-- and the columns that the shadow indexes are used ones.
abbrev pub IsUsed : BaseRelation → Type 0
IsUsed r =
    (length r.used_columns ≡ length r.used_column_types)
    × All (λ q. IsColumnOf q (zip r.columns r.column_types))
        (zip r.used_columns r.used_column_types)
    × All (λ c. any (text_eq c) r.used_columns ≡ true) r.join_keys

-- What a specification promises of the view's table.
pub record IsDescribed (quote : Text → Text) (spec : ViewSpec) : Type 0 where
  pub distinct : AreDistinct spec.visible_columns
  pub unreserved : All (λ a. ¬ IsReserved a) spec.visible_columns
  pub listed :
      (ts : List Text) × (spec.select_list ≡ join (codes ", ") ts)
      × Lists quote ts (spec.visible_columns ++ spec.hidden_columns)
  pub maintained : HasColumns spec.visible_columns spec.hidden_columns spec
  pub counted : HasCount spec.shape spec.count_alias
  pub all_used : All IsUsed spec.relations

pub Lists-append :
    (quote : Text → Text) (ts cs us ds : List Text)
    → Lists quote ts cs
    → Lists quote us ds
    → Lists quote (ts ++ us) (cs ++ ds)
Lists-append quote [] [] us ds h k = k
Lists-append quote [] (c ∷ cs) us ds h k = absurd h
Lists-append quote (t ∷ ts) [] us ds h k = absurd h
Lists-append quote (t ∷ ts) (c ∷ cs) us ds (h, hs) k = (h, Lists-append quote ts cs us ds hs k)

pub Lists-push :
    (quote : Text → Text) (ts cs : List Text) (t c : Text)
    → Lists quote ts cs
    → Gives quote t c
    → Lists quote (push ts t) (push cs c)
Lists-push quote ts cs t c h g = Lists-append quote ts cs (t ∷ []) (c ∷ []) h (g, tt)

pub All-map {ℓ} :
    {A : Type ℓ} (P Q : A → Type 0) (xs : List A) → ((x : A) → P x → Q x) → All P xs → All Q xs
All-map P Q [] f h = tt
All-map P Q (x ∷ xs) f (h, hs) = (f x h, All-map P Q xs f hs)

pub All-push {ℓ} :
    {A : Type ℓ} (P : A → Type 0) (xs : List A) (x : A) → All P xs → P x → All P (xs ++ x ∷ [])
All-push P [] x h p = (p, tt)
All-push P (y ∷ xs) x (h, hs) p = (h, All-push P xs x hs p)

pub or_true : (b : Bool) → (b || true) ≡ true
or_true true = refl
or_true false = refl

pub any-append :
    (a : Text) (xs ys : List Text) → any (text_eq a) xs ≡ true → any (text_eq a) (xs ++ ys) ≡ true
unfolding any
any-append a [] ys h = cc
any-append a (x ∷ xs) ys h = elim (Bool-cases (text_eq a x)) [
  | inl e ↦ rw e refl
  | inr e ↦ rw e (any-append a xs ys (rw e at h))
]

pub any-push : (a : Text) (xs : List Text) → any (text_eq a) (push xs a) ≡ true
unfolding any
any-push a [] = rw (text_eq_refl a) refl
any-push a (x ∷ xs) = rw (any-push a xs) (or_true (text_eq a x))

-- A new hidden column.
pub IsColumn-push :
    (visible hidden : List Text) (h a : Text)
    → IsColumn visible hidden a
    → IsColumn visible (push hidden h) a
IsColumn-push visible hidden h a (inl e) = inl e
IsColumn-push visible hidden h a (inr e) = inr (any-append a hidden (h ∷ []) e)

OptionIs-map :
    (P Q : Text → Type 0) (o : Option Text) → ((a : Text) → P a → Q a) → OptionIs P o → OptionIs Q o
OptionIs-map P Q none f h = tt
OptionIs-map P Q (some a) f h = f a h

pub HasColumns-push :
    (visible hidden : List Text) (h : Text) (spec : ViewSpec)
    → IsReserved h
    → HasColumns visible hidden spec
    → HasColumns visible (push hidden h) spec
HasColumns-push visible hidden h spec r c =
    let wide = IsColumn-push visible hidden h in
    record {
      of_columns = All-map _ _ spec.columns (λ x k. wide x.alias k) c.of_columns;
      of_counts = All-map _ _ spec.counts (λ x k. wide x.alias k) c.of_counts;
      of_sums = All-map _ _ spec.sums (λ x k. (wide x.alias k.0, wide x.counter k.1)) c.of_sums;
      of_identity = All-map _ _ spec.pk_view_columns wide c.of_identity;
      of_count = OptionIs-map _ _ spec.count_alias wide c.of_count;
      of_hidden = All-push _ hidden h c.of_hidden r;
    }

-- The targets give the visible names.
pub All-own :
    (ts : List Target)
    → All (λ (t : Target). any (text_eq t.alias) (map (λ (u : Target). u.alias) ts) ≡ true) ts
unfolding any
All-own [] = tt
All-own (t ∷ ts) = (
  rw (text_eq_refl t.alias) refl,
  All-map _ _ ts (λ u k. rw k (or_true (text_eq u.alias t.alias))) (All-own ts),
)

-- The names that `check_visible` finds new, one after the other.
abbrev pub AreFresh : List Text → List Text → Type 0
AreFresh seen [] = Unit {0}
AreFresh seen (x ∷ xs) = (any (text_eq x) seen ≡ false) × AreFresh (x ∷ seen) xs

apart :
    (x : Text) (seen xs : List Text)
    → any (text_eq x) seen ≡ true
    → AreFresh seen xs
    → All (λ y. x ≢ y) xs
unfolding any
apart x seen [] h f = tt
apart x seen (y ∷ ys) h (new, f) = (
  λ e. let old : any (text_eq y) seen ≡ true = subst (λ z. any (text_eq z) seen ≡ true) e h in cc,
  apart x (y ∷ seen) ys (rw h (or_true (text_eq x y))) f,
)

pub AreFresh-AreDistinct : (seen xs : List Text) → AreFresh seen xs → AreDistinct xs
unfolding any
AreFresh-AreDistinct seen [] f = tt
AreFresh-AreDistinct seen (x ∷ xs) (new, f) =
    (apart x (x ∷ seen) xs (rw (text_eq_refl x) refl) f, AreFresh-AreDistinct (x ∷ seen) xs f)

starts_with-append : (p r : Text) → starts_with p (p ++ r) ≡ true
unfolding starts_with
starts_with-append [] r = refl
starts_with-append (c ∷ p) r = rw (==_refl c) (starts_with-append p r)

pub unreserved_lem : (a : Text) → starts_with (codes "_nabla_") a ≡ false → ¬ IsReserved a
unreserved_lem a h (rest, e) =
    let yes_it_does : starts_with (codes "_nabla_") a ≡ true =
      subst (λ t. starts_with (codes "_nabla_") t ≡ true) (sym e)
        (starts_with-append (codes "_nabla_") rest) in
    cc
