-- ===== src/Api/Selecting.antt =====
-- The views that `refresh` of src/api.rs selects and marks.
use nabla.Base.{
  ℕ, ◌≡◌, ◌↔◌, inl, inr, refl, sym, ap, ◌∙◌, subst, List, [], ◌∷◌, map, All, Option, none, some,
  Bool, Bool-cases, true, false, ok, ◌>>=◌, bind-ok, ◌==◌, ==_refl,
}
use nabla.Base.Sets.{member}
use nabla.Definition.Types.{ViewSpec, is_join}
use nabla.Worker.Types.{ViewRow, Catalog}
use nabla.Populate.Group.{is_pending}
use nabla.Api.Changes.{CatalogRow}
use nabla.Api.Closed.{Reaches, view}
use nabla.Api.Reaching.{Has, eq_of_test}
use nabla.Api.RefreshSet
use nabla.Api.RefreshSet.{own_relids, only, refresh_closure-Reaches}
use nabla.Api.Names.{Environment, catalog_row, load_row, load_view_where}
use nabla.Api.Views.{refresh_ids, mark_refreshing}
use nabla.Api.Recording.{if_true, if_false}

-- The views that a refresh rebuilds: the view alone, or all that it reaches by shared relations if it is a join view.
abbrev pub IsSelected : Catalog → CatalogRow → Bool → ℕ → Type 0
IsSelected cat of true v = Reaches cat.views cat.view_relations of.id (own_relids of.spec) (view v)
IsSelected cat of false v = v ≡ of.id

-- Each selected view waits for a build then, and the row of every other is as it was.
abbrev pub AreMarked : (ℕ → Type 0) → List ViewRow → List ViewRow → Type 0
AreMarked Sel [] [] = Unit
AreMarked Sel (r ∷ rows) (r' ∷ rows') =
    (Sel r.id → is_pending r'.status ≡ true)
    × ((Sel r.id → false ≡ true) → r' ≡ r)
    × AreMarked Sel rows rows'
AreMarked Sel [] (r' ∷ rows') = false ≡ true
AreMarked Sel (r ∷ rows) [] = false ≡ true

marked :
    (ids : List ℕ) (r : ViewRow) → Has r.id ids → is_pending (mark_refreshing ids r).status ≡ true
unfolding mark_refreshing is_pending
marked ids r h = elim (Bool-cases (is_pending r.status)) [
  | inl t ↦ rw (h, t, mark_refreshing) t
  | inr f ↦ rw (h, f, mark_refreshing) refl
]

unmarked : (ids : List ℕ) (r : ViewRow) → member ◌==◌ r.id ids ≡ false → mark_refreshing ids r ≡ r
unfolding mark_refreshing
unmarked ids r f = rw (f, mark_refreshing) refl

pub AreMarked-map :
    (Sel : ℕ → Type 0) (ids : List ℕ) (rows : List ViewRow)
    → All (λ r. Has r.id ids ↔ Sel r.id) rows
    → AreMarked Sel rows (map (mark_refreshing ids) rows)
AreMarked-map Sel ids [] h = tt
AreMarked-map Sel ids (r ∷ rows) (h, hs) = (
  λ sel. marked ids r (h.1 sel),
  λ no. elim (Bool-cases (member ◌==◌ r.id ids)) [
    | inl t ↦ let bad = no (h.0 t) in cc
    | inr f ↦ unmarked ids r f
  ],
  AreMarked-map Sel ids rows hs,
)

module _ (env : Environment) where
  abbrev ids_of : List CatalogRow → List ℕ
  ids_of found = map (λ v. v.id) found

  abbrev Loads : (ℕ → Bool) → List ViewRow → List CatalogRow → Type 0
  Loads clause rows found =
      All (λ r. clause r.id ≡ true → Has r.id (ids_of found)) rows
      × ((v : ℕ) → Has v (ids_of found) → clause v ≡ true)

  load_one :
      (clause : ℕ → Bool) (r : ViewRow) (rows : List ViewRow) (row : CatalogRow)
      (found : List CatalogRow)
      → row.id ≡ r.id
      → clause r.id ≡ true
      → Loads clause rows found
      → Loads clause (r ∷ rows) (row ∷ found)
  unfolding member
  load_one clause r rows row found same t (loaded, only_these) = (
    (λ _. rw (same, ==_refl r.id) refl, more rows loaded),
    λ v h. elim (Bool-cases (v == row.id)) [
      | inl e ↦ subst (λ w. clause w ≡ true) (sym (eq_of_test v row.id e ∙ same)) t
      | inr e ↦ only_these v (rw e at h)
    ],
  )
    where
      more :
          (rs : List ViewRow)
          → All (λ q. clause q.id ≡ true → Has q.id (ids_of found)) rs
          → All (λ q. clause q.id ≡ true → Has q.id (ids_of (row ∷ found))) rs
      more [] h = tt
      more (q ∷ rs) (h, hs) = (
        λ c. elim (Bool-cases (q.id == row.id)) [ inl e ↦ rw e refl | inr e ↦ rw e (h c) ],
        more rs hs,
      )

  load_row-id :
      (r : ViewRow) (o : Option ViewSpec) (row : CatalogRow)
      → load_row env r o ≡ ok row
      → row.id ≡ r.id
  unfolding load_row catalog_row
  load_row-id r none row e = cc
  load_row-id r (some spec) row e = let k : catalog_row r spec ≡ row = cc in ap (λ v. v.id) (sym k)

  -- The rows that a clause selects are loaded, and no other id.
  load_view_where-Loads :
      (clause : ℕ → Bool) (rows : List ViewRow) (found : List CatalogRow)
      → load_view_where env (λ r. clause r.id) rows ≡ ok found
      → Loads clause rows found
  unfolding load_view_where member
  load_view_where-Loads clause [] found e =
      let k : [] ≡ found = cc in subst (Loads clause []) k (tt, λ v h. cc)
  load_view_where-Loads clause (r ∷ rows) found e =
      let rest = load_view_where env (λ p. clause p.id) rows in
      let taken = load_row env r r.spec >>= λ row. rest >>= λ others. ok (row ∷ others) in
      elim (Bool-cases (clause r.id)) [
        | inr f ↦
            let loads =
              load_view_where-Loads clause rows found
                (sym (if_false (clause r.id) taken rest f) ∙ e) in
            ((λ c. cc, loads.0), loads.1)
        | inl t ↦
            let (row, is_row, e1) =
              bind-ok (load_row env r r.spec) _ found
                (sym (if_true (clause r.id) taken rest t) ∙ e) in
            let (others, e0, last) = bind-ok rest (λ l. ok (row ∷ l)) found e1 in
            let same : row ∷ others ≡ found = cc in
            subst (Loads clause (r ∷ rows)) same (
              load_one clause r rows row others (load_row-id r r.spec row is_row) t
                (load_view_where-Loads clause rows others e0))
      ]

  -- The ids to refresh, among the rows, are those of the selected views.
  pub refresh_ids-IsSelected :
      (of : CatalogRow) (cat : Catalog) (ids : List ℕ) (b : Bool)
      → is_join of.spec ≡ b
      → refresh_ids env of cat ≡ ok ids
      → All (λ r. Has r.id ids ↔ IsSelected cat of b r.id) cat.views
  unfolding refresh_ids
  refresh_ids-IsSelected of cat ids false j e =
      let k : refresh_ids env of cat ≡ ok (of.id ∷ []) = if_false (is_join of.spec) _ _ j in
      let same : of.id ∷ [] ≡ ids = cc in
      subst (λ l. All (λ r. Has r.id l ↔ r.id ≡ of.id) cat.views) same (alone cat.views)
    where
      alone : (rows : List ViewRow) → All (λ r. Has r.id (of.id ∷ []) ↔ r.id ≡ of.id) rows
      alone [] = tt
      alone (r ∷ rows) = (
        (only r.id of.id, λ e'. subst (λ v. Has v (of.id ∷ [])) (sym e') (RefreshSet.alone of.id)),
        alone rows,
      )
  refresh_ids-IsSelected of cat ids true j e =
      let (reached, c, iff) = refresh_closure-Reaches cat.views cat.view_relations of.id of.spec in
      let k : refresh_ids env of cat ≡ (
          load_view_where env (λ r. member ◌==◌ r.id reached) cat.views >>= λ found.
          ok (map (λ v. v.id) found)) =
        if_true (is_join of.spec) _ _ j ∙ rw c refl in
      let (found, loads, last) =
        bind-ok (load_view_where env (λ r. member ◌==◌ r.id reached) cat.views)
          (λ found. ok (ids_of found)) ids (sym k ∙ e) in
      let same : ids_of found ≡ ids = cc in
      subst (λ l. All (λ r. Has r.id l ↔ IsSelected cat of true r.id) cat.views) same
        (each found cat.views
          (load_view_where-Loads (λ v. member ◌==◌ v reached) cat.views found loads).0
          (load_view_where-Loads (λ v. member ◌==◌ v reached) cat.views found loads).1)
    where
      each :
          (found : List CatalogRow) (rows : List ViewRow)
          → All
              (λ r.
                Has r.id (refresh_closure-Reaches cat.views cat.view_relations of.id of.spec).0
                → Has r.id (ids_of found))
              rows
          → ((v : ℕ)
              → Has v (ids_of found)
              → Has v (refresh_closure-Reaches cat.views cat.view_relations of.id of.spec).0)
          → All (λ r. Has r.id (ids_of found) ↔ IsSelected cat of true r.id) rows
      each found [] h back = tt
      each found (r ∷ rows) (h, hs) back =
          let iff = (refresh_closure-Reaches cat.views cat.view_relations of.id of.spec).2 r.id in
          ((λ m. iff.0 (back r.id m), λ reach. h (iff.1 reach)), each found rows hs back)
