-- ===== src/Worker/Drift.antt =====
-- The columns of a shadow after `shadow_drift` of src/worker.rs.
use nabla.Base.{
  ◌≡◌, ◌⊎◌, inl, inr, refl, sym, subst, List, [], ◌∷◌, Bool, true, false, not, Text, text_eq,
  text_eq_refl, any, join, map, codes, Bool-cases, if◌then◌else◌,
}
use nabla.Pgoutput.Types.{Relation}
use nabla.Worker.Types.{Catalog, Shadow}
use nabla.Worker.Views.{has_column, drift_reason}
use nabla.Worker.Shadows.{drifted_columns, contains, kept_columns, drop_columns, shadow_drift}
use nabla.Worker.Catalog.{record_shadow_failure}

-- The decoded relation has each column with its type.
abbrev pub AreProvided : Relation → List Text → List Text → Type 0
AreProvided rel [] tys = Unit {0}
AreProvided rel (name ∷ names) [] = Unit {0}
AreProvided rel (name ∷ names) (ty ∷ tys) =
    (has_column rel name ty ≡ true) × AreProvided rel names tys

-- Each column is provided or is in the list.
abbrev AreSorted : Relation → List Text → List Text → List Text → Type 0
AreSorted rel drifted [] tys = Unit {0}
AreSorted rel drifted (name ∷ names) [] = Unit {0}
AreSorted rel drifted (name ∷ names) (ty ∷ tys) =
    ((has_column rel name ty ≡ true) ⊎ (contains drifted name ≡ true))
    × AreSorted rel drifted names tys

contains-more :
    (d : Text) (drifted : List Text) (name : Text)
    → contains drifted name ≡ true
    → contains (d ∷ drifted) name ≡ true
unfolding contains any
contains-more d drifted name h = elim (Bool-cases (text_eq name d)) [
  | inl e ↦ rw e
  | inr e ↦ rw e h
]

AreSorted-more :
    (rel : Relation) (d : Text) (drifted names tys : List Text)
    → AreSorted rel drifted names tys
    → AreSorted rel (d ∷ drifted) names tys
AreSorted-more rel d drifted [] tys h = tt
AreSorted-more rel d drifted (name ∷ names) [] h = tt
AreSorted-more rel d drifted (name ∷ names) (ty ∷ tys) (inl e, hs) =
    (inl e, AreSorted-more rel d drifted names tys hs)
AreSorted-more rel d drifted (name ∷ names) (ty ∷ tys) (inr e, hs) =
    (inr (contains-more d drifted name e), AreSorted-more rel d drifted names tys hs)

contains-head : (name : Text) (drifted : List Text) → contains (name ∷ drifted) name ≡ true
unfolding contains any
contains-head name drifted = rw (text_eq_refl name)

drifted_step :
    (rel : Relation) (name ty : Text) (drifted names tys : List Text) (b : Bool)
    → has_column rel name ty ≡ b
    → AreSorted rel drifted names tys
    → AreSorted rel (if not b then name ∷ drifted else drifted) (name ∷ names) (ty ∷ tys)
drifted_step rel name ty drifted names tys true e h = (inl e, h)
drifted_step rel name ty drifted names tys false e h =
    (inr (contains-head name drifted), AreSorted-more rel name drifted names tys h)

drifted_columns-AreSorted :
    (rel : Relation) (names tys : List Text)
    → AreSorted rel (drifted_columns rel names tys) names tys
unfolding drifted_columns
drifted_columns-AreSorted rel [] tys = tt
drifted_columns-AreSorted rel (name ∷ names) [] = tt
drifted_columns-AreSorted rel (name ∷ names) (ty ∷ tys) =
    drifted_step rel name ty (drifted_columns rel names tys) names tys (has_column rel name ty) refl
      (drifted_columns-AreSorted rel names tys)

kept_step :
    (rel : Relation) (name ty : Text) (drifted : List Text) (kept : List Text × List Text)
    (b : Bool)
    → contains drifted name ≡ b
    → (has_column rel name ty ≡ true) ⊎ (contains drifted name ≡ true)
    → AreProvided rel kept.0 kept.1
    → AreProvided rel
        (if b then kept else (name ∷ kept.0, ty ∷ kept.1)).0
        (if b then kept else (name ∷ kept.0, ty ∷ kept.1)).1
kept_step rel name ty drifted kept true e h hs = hs
kept_step rel name ty drifted kept false e (inl p) hs = (p, hs)
kept_step rel name ty drifted kept false e (inr p) hs = cc

kept_columns-AreProvided :
    (rel : Relation) (drifted names tys : List Text)
    → AreSorted rel drifted names tys
    → AreProvided rel (kept_columns drifted names tys).0 (kept_columns drifted names tys).1
unfolding kept_columns
kept_columns-AreProvided rel drifted [] tys h = tt
kept_columns-AreProvided rel drifted (name ∷ names) [] h = tt
kept_columns-AreProvided rel drifted (name ∷ names) (ty ∷ tys) (h, hs) =
    kept_step rel name ty drifted (kept_columns drifted names tys) (contains drifted name) refl h
      (kept_columns-AreProvided rel drifted names tys hs)

none-AreProvided :
    (rel : Relation) (names tys : List Text)
    → AreSorted rel [] names tys
    → AreProvided rel names tys
none-AreProvided rel [] tys h = tt
none-AreProvided rel (name ∷ names) [] h = tt
none-AreProvided rel (name ∷ names) (ty ∷ tys) (inl e, hs) = (e, none-AreProvided rel names tys hs)
none-AreProvided rel (name ∷ names) (ty ∷ tys) (inr e, hs) = unfold contains any in cc e

-- What `shadow_drift` leaves: a key column drifted and the shadow has failed, or the columns it lists are provided.
abbrev pub IsDriftHandled : List Text → Relation → List Text × (Shadow × Catalog) → Type 0
IsDriftHandled pk rel (drifted, (shadow, cat)) =
    ((any (contains pk) drifted ≡ true) × (shadow.failed ≡ true))
    ⊎ AreProvided rel shadow.columns shadow.column_types

shadow_drift-none :
    (shadow : Shadow) (rel : Relation) (qualified : Text) (cat : Catalog)
    → drifted_columns rel shadow.columns shadow.column_types ≡ []
    → shadow_drift shadow rel qualified cat ≡ ([], (shadow, cat))
unfolding shadow_drift
shadow_drift-none shadow rel qualified cat e = rw (e, shadow_drift) refl

cons-IsDriftHandled :
    (shadow : Shadow) (rel : Relation) (reason : Text) (cat : Catalog) (drifted : List Text)
    (b : Bool)
    → any (contains shadow.pk_columns) drifted ≡ b
    → AreSorted rel drifted shadow.columns shadow.column_types
    → IsDriftHandled shadow.pk_columns rel (
      drifted,
      if b then record_shadow_failure shadow reason cat else drop_columns shadow drifted reason cat,
    )
unfolding drop_columns record_shadow_failure
cons-IsDriftHandled shadow rel reason cat drifted true e h = inl (e, refl)
cons-IsDriftHandled shadow rel reason cat drifted false e h =
    inr (kept_columns-AreProvided rel drifted shadow.columns shadow.column_types h)

shadow_drift-some :
    (shadow : Shadow) (rel : Relation) (qualified : Text) (cat : Catalog) (c : Text)
    (cs : List Text)
    → drifted_columns rel shadow.columns shadow.column_types ≡ c ∷ cs
    → shadow_drift shadow rel qualified cat ≡ (
      c ∷ cs,
      if any (contains shadow.pk_columns) (c ∷ cs)
          then record_shadow_failure shadow
              (join (codes "; ") (map (λ d. drift_reason d qualified) (c ∷ cs)))
              cat
          else drop_columns shadow
              (c ∷ cs)
              (join (codes "; ") (map (λ d. drift_reason d qualified) (c ∷ cs)))
              cat,
    )
unfolding shadow_drift
shadow_drift-some shadow rel qualified cat c cs e = rw (e, shadow_drift) refl

drift_step :
    (shadow : Shadow) (rel : Relation) (qualified : Text) (cat : Catalog) (drifted : List Text)
    → AreSorted rel drifted shadow.columns shadow.column_types
    → drifted_columns rel shadow.columns shadow.column_types ≡ drifted
    → IsDriftHandled shadow.pk_columns rel (shadow_drift shadow rel qualified cat)
drift_step shadow rel qualified cat [] h e =
    subst (IsDriftHandled shadow.pk_columns rel)
      (sym (shadow_drift-none shadow rel qualified cat e))
      (inr (none-AreProvided rel shadow.columns shadow.column_types h))
drift_step shadow rel qualified cat (c ∷ cs) h e =
    subst (IsDriftHandled shadow.pk_columns rel)
      (sym (shadow_drift-some shadow rel qualified cat c cs e))
      (cons-IsDriftHandled shadow rel
        (join (codes "; ") (map (λ d. drift_reason d qualified) (c ∷ cs))) cat (c ∷ cs)
        (any (contains shadow.pk_columns) (c ∷ cs)) refl h)

-- After `shadow_drift` one of two things holds. Either a column of the shadow's key is among the drifted columns
-- and the shadow has failed, or the decoded relation has each column that the shadow still lists, with the type
-- listed for it.
pub shadow_drift-AreProvided :
    (shadow : Shadow) (rel : Relation) (qualified : Text) (cat : Catalog)
    → IsDriftHandled shadow.pk_columns rel (shadow_drift shadow rel qualified cat)
shadow_drift-AreProvided shadow rel qualified cat =
    drift_step shadow rel qualified cat (drifted_columns rel shadow.columns shadow.column_types)
      (drifted_columns-AreSorted rel shadow.columns shadow.column_types) refl
