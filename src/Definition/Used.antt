-- ===== src/Definition/Used.antt =====
-- The columns that `validate` (src/definition.rs) finds a view to use of its relations: join keys are among them.
use nabla.Base.{
  ℕ, suc, ltb, ◌≡◌, refl, sym, subst, ap, inl, inr, List, [], ◌∷◌, ◌++◌, map, append-nil, zip, keep,
  length, All, any, Bool, Bool-cases, true, false, ◌&&◌, Text, text_eq, text_eq→eq, text_eq_refl,
  ok, Holds, Holds-then, Holds-after, Holds-bind, Holds-ok, ◌==◌, ==_iff, if◌then◌else◌,
}
use nabla.Definition.Tree.{Node, Functions}
use nabla.Definition.Walk.{collect_vars, join_key_vars}
use nabla.Definition.Catalog.{Backend, Loaded}
use nabla.Definition.Targets.{used_names, key_names, use_columns, use_all}
use nabla.Definition.Validate.{all_vars}
use nabla.Definition.Keys.{Column, includes, AreAmong, AreAmong-append, join_key_vars-AreAmong}
use nabla.Definition.Listing.{or_true, IsUsed, IsColumnOf, All-map, any-append}

abbrev pub IsTyped : Loaded → Type 0
IsTyped l = length l.relation.columns ≡ length l.relation.column_types

and_true : (a b : Bool) → (a && b) ≡ true → (a ≡ true) × (b ≡ true)
and_true true b e = (refl, e)
and_true false b e = cc

pub length-map-map :
    {A B C : Type 0} (f : A → B) (g : A → C) (xs : List A) → length (map f xs) ≡ length (map g xs)
length-map-map f g [] = refl
length-map-map f g (x ∷ xs) = ap suc (length-map-map f g xs)

module _ {A : Type 0} (p : A → Bool) where
  keep_some : (x : A) (xs : List A) → p x ≡ true → keep p (x ∷ xs) ≡ x ∷ keep p xs
  unfolding keep
  keep_some x xs e = rw (e, keep) refl

  keep_none : (x : A) (xs : List A) → p x ≡ false → keep p (x ∷ xs) ≡ keep p xs
  unfolding keep
  keep_none x xs e = rw (e, keep) refl

All-keep :
    (p : Text → Bool) (xs : List Text)
    → All (λ c. (p c ≡ true) × (any (text_eq c) xs ≡ true)) (keep p xs)
unfolding any
All-keep p [] = unfold keep in tt
All-keep p (x ∷ xs) =
    let rest =
      All-map (λ c. (p c ≡ true) × (any (text_eq c) xs ≡ true))
        (λ c. (p c ≡ true) × (any (text_eq c) (x ∷ xs) ≡ true)) (keep p xs)
        (λ c h. (h.0, rw h.1 (or_true (text_eq c x)))) (All-keep p xs) in
    elim (Bool-cases (p x)) [
      | inl e ↦ rw (keep_some p x xs e) ((e, rw (text_eq_refl x) refl), rest)
      | inr e ↦ rw (keep_none p x xs e) rest
    ]

zip-map-map :
    (zs : List (Text × Text))
    → zip (map (λ (q : Text × Text). q.0) zs) (map (λ (q : Text × Text). q.1) zs) ≡ zs
unfolding zip
zip-map-map [] = refl
zip-map-map (z ∷ zs) = ap (λ rest. z ∷ rest) (zip-map-map zs)

-- What is kept of the columns is of the columns.
keep-AreColumns :
    (p : Text × Text → Bool) (zs : List (Text × Text)) → All (λ q. IsColumnOf q zs) (keep p zs)
keep-AreColumns p [] = unfold keep in tt
keep-AreColumns p (z ∷ zs) =
    let rest =
      All-map (λ q. IsColumnOf q zs) (λ q. IsColumnOf q (z ∷ zs)) (keep p zs) (λ q h. inr h)
        (keep-AreColumns p zs) in
    elim (Bool-cases (p z)) [
      | inl e ↦ rw (keep_some p z zs e) (inl refl, rest)
      | inr e ↦ rw (keep_none p z zs e) rest
    ]

-- A column that is used is kept with its type.
used_column :
    (used : List Text) (c : Text) (columns types : List Text)
    → length columns ≡ length types
    → any (text_eq c) columns ≡ true
    → any (text_eq c) used ≡ true
    → any (text_eq c) (
        map
          (λ (q : Text × Text). q.0)
          (keep (λ (q : Text × Text). any (text_eq q.0) used) (zip columns types)))
      ≡ true
unfolding any zip
used_column used c [] types e h u = cc
used_column used c (n ∷ columns) [] e h u = cc
used_column used c (n ∷ columns) (t ∷ types) e h u =
    let p = λ (q : Text × Text). any (text_eq q.0) used in
    let same : length columns ≡ length types = cc in
    let rest = λ (k : any (text_eq c) columns ≡ true). used_column used c columns types same k u in
    elim (Bool-cases (text_eq c n)) [
      | inl k ↦
          let is : p (n, t) ≡ true =
            subst (λ m. any (text_eq m) used ≡ true) (text_eq→eq c n k) u in
          rw (keep_some p (n, t) (zip columns types) is) (rw k refl)
      | inr k ↦
          let later = rest (rw k at h) in
          elim (Bool-cases (p (n, t))) [
            | inl q ↦
                rw (keep_some p (n, t) (zip columns types) q) (rw later (or_true (text_eq c n)))
            | inr q ↦ rw (keep_none p (n, t) (zip columns types) q) later
          ]
    ]

module _ {Raw : Type 0} (backend : Backend Raw) (relid rt_index : ℕ) where
  abbrev name_of : Column → Text
  name_of v = backend.attname relid v.1

  -- Every reference to the relation gives a used name.
  used_names-has :
      (v : Column) (refs : List Column)
      → (v.0 == rt_index) ≡ true
      → includes v refs ≡ true
      → Holds
          (λ names. any (text_eq (name_of v)) names ≡ true)
          (used_names backend relid rt_index refs)
  unfolding used_names includes any
  used_names-has v [] at h = cc
  used_names-has v ((varno, attno) ∷ refs) at h =
      let P = λ (names : List Text). any (text_eq (name_of v)) names ≡ true in
      let rest = used_names backend relid rt_index refs in
      elim (Bool-cases (v.0 == varno && v.1 == attno)) [
        | inl e ↦
            let (e0, e1) = and_true _ _ e in
            let here : varno ≡ v.0 = sym ((==_iff v.0 varno).0 e0) in
            let there : attno ≡ v.1 = sym ((==_iff v.1 attno).0 e1) in
            let mine : (varno == rt_index) ≡ true =
              subst (λ n. (n == rt_index) ≡ true) (sym here) at in
            elim (Bool-cases (attno == 0)) [
              | inl z ↦ rw (mine, z) tt
              | inr z ↦
                  rw (mine, z)
                    (Holds-then P rest (λ names. ok (backend.attname relid attno ∷ names))
                      (λ names.
                        subst
                          (λ a. any (text_eq (name_of v)) (backend.attname relid a ∷ names) ≡ true)
                          (sym there) (rw (text_eq_refl (name_of v)) refl)))
            ]
        | inr e ↦
            let ih = used_names-has v refs at (rw e at h) in
            elim (Bool-cases (varno == rt_index)) [
              | inr other ↦ rw other ih
              | inl mine ↦ elim (Bool-cases (attno == 0)) [
                | inl z ↦ rw (mine, z) tt
                | inr z ↦
                    rw (mine, z)
                      (Holds-bind P P rest (λ names. ok (backend.attname relid attno ∷ names)) ih
                        (λ names k.
                          rw k (or_true (text_eq (name_of v) (backend.attname relid attno)))))
              ]
            ]
      ]

  -- So does every join key, which is such a reference.
  key_names-used :
      (names : List Text) (vars : List Column)
      → ((v : Column)
          → (v.0 == rt_index) ≡ true
          → includes v vars ≡ true
          → any (text_eq (name_of v)) names ≡ true)
      → (refs : List Column) → AreAmong refs vars
      → (c : Text) → any (text_eq c) (key_names backend relid rt_index refs) ≡ true
      → any (text_eq c) names ≡ true
  unfolding key_names any
  key_names-used names vars has [] among c h = unfold keep in cc
  key_names-used names vars has (v ∷ refs) (in_vars, among) c h =
      let p = λ (r : Column). r.0 == rt_index && ltb 0 r.1 in
      elim (Bool-cases (p v)) [
        | inr e ↦ key_names-used names vars has refs among c (rw (keep_none p v refs e) at h)
        | inl e ↦
            let h' = rw (keep_some p v refs e) at h in
            elim (Bool-cases (text_eq c (name_of v))) [
              | inl k ↦
                  subst (λ t. any (text_eq t) names ≡ true) (sym (text_eq→eq c (name_of v) k))
                    (has v (and_true _ _ e).0 in_vars)
              | inr k ↦ key_names-used names vars has refs among c (rw k at h')
            ]
      ]

module _ {Raw : Type 0} (backend : Backend Raw) where
  use_columns-IsUsed :
      (is_join : Bool) (vars keys : List Column) (l : Loaded)
      → IsTyped l
      → AreAmong keys vars
      → Holds IsUsed (use_columns backend is_join vars keys l)
  unfolding use_columns
  use_columns-IsUsed is_join vars keys l typed among =
      let rel = l.relation in
      Holds-after IsUsed (used_names backend rel.oid l.rt_index vars) _ (λ names e.
        let used = names ++ (if is_join then rel.pk_columns else []) in
        let has = λ (v : Column) (at : (v.0 == l.rt_index) ≡ true) (h : includes v vars ≡ true).
          any-append (backend.attname rel.oid v.1) names (if is_join then rel.pk_columns else []) (
            Holds-ok (λ (ns : List Text). any (text_eq (backend.attname rel.oid v.1)) ns ≡ true)
              names (used_names-has backend rel.oid l.rt_index v vars at h) e) in
        let named_keys = key_names backend rel.oid l.rt_index keys in
        (
          length-map-map _ _ (
              keep (λ (c : Text × Text). any (text_eq c.0) used)
                (zip rel.columns rel.column_types)),
          subst (All (λ q. IsColumnOf q (zip rel.columns rel.column_types)))
              (sym (
                zip-map-map (
                  keep (λ (c : Text × Text). any (text_eq c.0) used)
                    (zip rel.columns rel.column_types))))
              (keep-AreColumns (λ c. any (text_eq c.0) used) (zip rel.columns rel.column_types)),
          All-map (λ c. (any (text_eq c) named_keys ≡ true) × (any (text_eq c) rel.columns ≡ true))
              _ (keep (λ c. any (text_eq c) named_keys) rel.columns)
              (λ c h.
                used_column used c rel.columns rel.column_types typed h.1
                  (key_names-used backend rel.oid l.rt_index used vars has keys among c h.0))
              (All-keep (λ c. any (text_eq c) named_keys) rel.columns),
        ))

  pub use_all-AreUsed :
      (is_join : Bool) (vars keys : List Column) (loaded : List Loaded)
      → All IsTyped loaded
      → AreAmong keys vars
      → Holds (All IsUsed) (use_all backend is_join vars keys loaded)
  unfolding use_all
  use_all-AreUsed is_join vars keys [] typed among = tt
  use_all-AreUsed is_join vars keys (l ∷ loaded) (typed, all_typed) among =
      Holds-bind IsUsed (All IsUsed) (use_columns backend is_join vars keys l) _
        (use_columns-IsUsed is_join vars keys l typed among)
        (λ rel u.
          Holds-bind (All IsUsed) (All IsUsed) (use_all backend is_join vars keys loaded)
            (λ rels. ok (rel ∷ rels)) (use_all-AreUsed is_join vars keys loaded all_typed among)
            (λ rels us. (u, us)))

-- The join keys of the quals are among the columns that the quals and the targets refer to.
quals-AreAmong :
    (functions : Functions) (quals : List Node)
    → AreAmong (all_vars (join_key_vars functions) quals) (all_vars collect_vars quals)
unfolding all_vars
quals-AreAmong functions [] = tt
quals-AreAmong functions (q ∷ quals) =
    AreAmong-append (join_key_vars functions q) (all_vars (join_key_vars functions) quals)
      (collect_vars q) (all_vars collect_vars quals) (join_key_vars-AreAmong functions q)
      (quals-AreAmong functions quals)

pub keys-AreAmong :
    (functions : Functions) (quals targets : List Node)
    → AreAmong
        (all_vars (join_key_vars functions) quals)
        (all_vars collect_vars quals ++ all_vars collect_vars targets)
keys-AreAmong functions quals targets =
    let keys = all_vars (join_key_vars functions) quals in
    let vars = all_vars collect_vars quals in
    subst (λ ks. AreAmong ks (vars ++ all_vars collect_vars targets)) (append-nil keys)
      (AreAmong-append keys [] vars (all_vars collect_vars targets) (quals-AreAmong functions quals)
        tt)
