-- ===== src/Api/Recording.antt =====
-- `create_view` of src/api.rs: what it records for the worker.
use nabla.Base.{
  ℕ, ◌≡◌, inl, inr, refl, ap, ◌∙◌, subst, List, [], ◌∷◌, ◌++◌, All, Option, Option-cases, none,
  some, Bool, Bool-cases, true, false, Text, Result, ok, text_eq, codes, ◌==◌, ==_refl, ◌||◌,
  if◌then◌else◌,
}
use nabla.Base.Sets.{member}
use nabla.Errors.{Report}
use nabla.Definition.Types.{BaseRelation, ViewSpec}
use nabla.Worker.Types.{ViewRow}
use nabla.Populate.Group.{is_pending, pending_of, load_pending}
use nabla.Api.Reaching.{Has}
use nabla.Definition.Types.{BaseTable}
use nabla.Api.Names.{Environment, RangeVar, parse_name, creation_name}
use nabla.Api.Views.{
  Session, ensure_slot, published, make_publication, ensure_publication, needs_full_row, name_taken,
  new_row, relation_rows, insert_view, add_table, ensure_publication_includes, publish_relations,
  require_logical_wal, require_full_row, require_free_name, record_view, create_view,
}

pub if_true : {A : Type 0} (b : Bool) (x y : A) → b ≡ true → (if b then x else y) ≡ x
if_true true x y e = refl
if_true false x y e = cc

pub if_false : {A : Type 0} (b : Bool) (x y : A) → b ≡ false → (if b then x else y) ≡ y
if_false false x y e = refl
if_false true x y e = cc

or-true : (b : Bool) → (b || true) ≡ true
or-true true = refl
or-true false = refl

-- The slot and the catalog are as before, and what was published still is.
pub record IsPublishing (s s' : Session) : Type 0 where
  pub same_catalog : s'.catalog ≡ s.catalog
  pub same_slot : s'.slot ≡ s.slot
  pub same_id : s'.next_id ≡ s.next_id
  pub keeps : (t : ℕ) → Has t (published s) → Has t (published s')

IsPublishing-refl : (s : Session) → IsPublishing s s
IsPublishing-refl s = record {
  same_catalog = refl;
  same_slot = refl;
  same_id = refl;
  keeps = λ t h. h;
}

IsPublishing-trans : (a b c : Session) → IsPublishing a b → IsPublishing b c → IsPublishing a c
IsPublishing-trans a b c h k = record {
  same_catalog = k.same_catalog ∙ h.same_catalog;
  same_slot = k.same_slot ∙ h.same_slot;
  same_id = k.same_id ∙ h.same_id;
  keeps = λ t q. k.keeps t (h.keeps t q);
}

pub IsPublishing-make :
    (o : Option (List ℕ)) (s : Session) → s.publication ≡ o → IsPublishing s (make_publication o s)
unfolding make_publication published
IsPublishing-make (some tables) s e = IsPublishing-refl s
IsPublishing-make none s e = record {
  same_catalog = refl;
  same_slot = refl;
  same_id = refl;
  keeps = λ t h. subst (Has t) (let k : published s ≡ [] = rw (e, published) refl in k) h;
}

Has-last : (t : ℕ) (xs : List ℕ) → Has t (xs ++ t ∷ [])
unfolding member
Has-last t [] = rw (==_refl t) refl
Has-last t (x ∷ xs) = rw (Has-last t xs) (or-true (t == x))

Has-append : (t u : ℕ) (xs : List ℕ) → Has t xs → Has t (xs ++ u ∷ [])
unfolding member
Has-append t u [] h = cc
Has-append t u (x ∷ xs) h = elim (Bool-cases (t == x)) [
  | inl e ↦ rw e refl
  | inr e ↦ rw e (Has-append t u xs (rw e at h))
]

module _ (env : Environment) where
  -- The base table is still there.
  abbrev pub IsThere : BaseRelation → Type 0
  IsThere rel = (table : Text) × (env.regclass_text rel.oid ≡ some table)

  abbrev Publishes : ℕ → Session → Result Report Session → Type 0
  Publishes oid s r = (s' : Session) × (r ≡ ok s') × IsPublishing s s' × Has oid (published s')

  add_table-Publishes :
      (rel : BaseRelation) (s : Session)
      → IsThere rel
      → Publishes rel.oid s (add_table env rel.oid s)
  unfolding add_table published
  add_table-Publishes rel s (table, e) = (
    record s { publication = some (published s ++ rel.oid ∷ []); has_written = true },
    rw (e, add_table) refl,
    record {
      same_catalog = refl;
      same_slot = refl;
      same_id = refl;
      keeps = λ t h. Has-append t rel.oid (published s) h;
    },
    Has-last rel.oid (published s),
  )

  includes-Publishes :
      (rel : BaseRelation) (s : Session)
      → IsThere rel
      → Publishes rel.oid s (ensure_publication_includes env rel.oid s)
  unfolding ensure_publication_includes ensure_publication
  includes-Publishes rel s there =
      let s1 = ensure_publication s in
      let made = IsPublishing-make s.publication s refl in
      elim (Bool-cases (member ◌==◌ rel.oid (published s1))) [
        | inl t ↦ (s1, rw (t, ensure_publication_includes) refl, made, t)
        | inr f ↦
            let (s2, e, p, h) = add_table-Publishes rel s1 there in
            (s2, rw (f, ensure_publication_includes) e, IsPublishing-trans s s1 s2 made p, h)
      ]

  publish_relations-Publishes :
      (rels : List BaseRelation) (s : Session)
      → All IsThere rels
      → (s' : Session) × (publish_relations env rels s ≡ ok s')
        × IsPublishing s s'
        × All (λ rel. Has rel.oid (published s')) rels
  unfolding publish_relations
  publish_relations-Publishes [] s there = (s, refl, IsPublishing-refl s, tt)
  publish_relations-Publishes (rel ∷ rels) s (t, there) =
      let (s1, e, p, h) = includes-Publishes rel s t in
      let (s2, e2, p2, hs) = publish_relations-Publishes rels s1 there in
      (s2, rw (e, publish_relations) e2, IsPublishing-trans s s1 s2 p p2, (p2.keeps rel.oid h, hs))

load_pending-append :
    (rows : List ViewRow) (r : ViewRow)
    → load_pending (rows ++ r ∷ []) ≡ load_pending rows ++ load_pending (r ∷ [])
unfolding load_pending
load_pending-append [] r = refl
load_pending-append (q ∷ rows) r = elim (Bool-cases (is_pending q.status)) [
  | inr f ↦ rw (f, load_pending) (load_pending-append rows r)
  | inl t ↦ elim (Option-cases q.spec) [
    | inl n ↦ rw (t, n, load_pending) (load_pending-append rows r)
    | inr (spec, e) ↦
        rw (t, e, load_pending) (ap (λ l. pending_of q spec ∷ l) (load_pending-append rows r))
  ]
]

load_pending-new :
    (rows : List ViewRow) (id : ℕ) (canonical definition : Text) (spec : ViewSpec)
    → load_pending (rows ++ new_row id canonical definition spec ∷ [])
      ≡ load_pending rows ++ pending_of (new_row id canonical definition spec) spec ∷ []
load_pending-new rows id canonical definition spec =
    load_pending-append rows (new_row id canonical definition spec)
    ∙ (unfold load_pending new_row is_pending in refl)

module _ (env : Environment) where
  -- The call is one that `create_view` accepts.
  pub record IsAccepted (name definition canonical : Text) (spec : ViewSpec) (s : Session)
      : Type 0 where
    pub parsed : RangeVar
    pub parses : parse_name env name ≡ ok parsed
    pub names : creation_name env parsed ≡ ok canonical
    pub base : BaseTable
    pub valid : env.validate definition ≡ ok (spec, base)
    pub logical : text_eq env.wal_level (codes "logical") ≡ true
    pub full : needs_full_row spec base ≡ false
    pub free : env.relation_exists canonical ≡ false
    pub unused : name_taken canonical s.catalog.views ≡ false
    pub there : All (IsThere env) spec.relations

  -- What has become of the session.
  pub record IsRecorded (canonical definition : Text) (spec : ViewSpec) (s s' : Session)
      : Type 0 where
    pub has_slot : s'.slot ≡ true
    pub publishes : All (λ rel. Has rel.oid (published s')) spec.relations
    pub keeps : (t : ℕ) → Has t (published s) → Has t (published s')
    pub relations :
        s'.catalog.view_relations
        ≡ s.catalog.view_relations ++ relation_rows s.next_id spec.relations
    pub waits :
        load_pending s'.catalog.views
        ≡ load_pending s.catalog.views
          ++ pending_of (new_row s.next_id canonical definition spec) spec ∷ []

  ensure_slot-unwritten :
      (s : Session)
      → s.has_written ≡ false
      → (s' : Session) × (ensure_slot s ≡ ok s')
        × (s'.slot ≡ true)
        × IsPublishing (record s { slot = true }) s'
  unfolding ensure_slot published
  ensure_slot-unwritten s w = elim (Bool-cases s.slot) [
    | inl t ↦ (
      s,
      if_true s.slot (ok s) _ t,
      t,
      record { same_catalog = refl; same_slot = t; same_id = refl; keeps = λ u h. h },
    )
    | inr f ↦ (
      record s { slot = true },
      if_false s.slot (ok s) _ f ∙ if_false s.has_written _ (ok (record s { slot = true })) w,
      refl,
      IsPublishing-refl (record s { slot = true }),
    )
  ]

  -- If `create_view` is called in a transaction that has not written, with a name and a definition that pass all its
  -- checks and base tables that exist, it returns the canonical name. Then the slot is there, the publication has
  -- every base table and what it had before, the relations of the view are recorded, and the worker finds the
  -- view, after all that it had to build before.
  pub create_view-IsRecorded :
      (name definition canonical : Text) (spec : ViewSpec) (s : Session)
      → IsAccepted name definition canonical spec s
      → s.has_written ≡ false
      → (s' : Session) × (create_view env name definition s ≡ ok (canonical, s'))
        × IsRecorded canonical definition spec s s'
  unfolding create_view require_logical_wal require_full_row require_free_name record_view
      insert_view published
  create_view-IsRecorded name definition canonical spec s a w =
      let (s1, slot_ok, has, p1) = ensure_slot-unwritten s w in
      let (s2, e2, p2, hs) = publish_relations-Publishes env spec.relations s1 a.there in
      let same : s2.catalog ≡ s.catalog = p2.same_catalog ∙ p1.same_catalog in
      let same_id : s2.next_id ≡ s.next_id = p2.same_id ∙ p1.same_id in
      (
        insert_view canonical definition spec s2,
        rw
            (
              a.parses, a.names, a.valid, a.logical, a.full, a.free, a.unused, slot_ok, e2,
              create_view,
            )
            refl,
        record {
          has_slot = p2.same_slot ∙ has;
          publishes = hs;
          keeps = λ t h. p2.keeps t (p1.keeps t h);
          relations =
              ap (λ l. l ++ relation_rows s2.next_id spec.relations)
                (ap (λ c. c.view_relations) same)
              ∙ ap (λ id. s.catalog.view_relations ++ relation_rows id spec.relations) same_id;
          waits =
              load_pending-new s2.catalog.views s2.next_id canonical definition spec
              ∙ (ap
                    (λ c.
                      load_pending c.views
                      ++ pending_of (new_row s2.next_id canonical definition spec) spec ∷ [])
                    same
                  ∙ ap
                      (λ id.
                        load_pending s.catalog.views
                        ++ pending_of (new_row id canonical definition spec) spec ∷ [])
                      same_id);
        },
      )
