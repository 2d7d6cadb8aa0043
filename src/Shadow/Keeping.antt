-- ===== src/Shadow/Keeping.antt =====
-- What the statements of src/shadow.rs leave alone in the catalog.
use nabla.Base.{
  ℕ, ◌≡◌, inl, inr, refl, sym, subst, List, [], ◌∷◌, Option-cases, Bool, true, false, not, ◌||◌,
  Text, Result, ◌>>=◌, Result-cases, Holds, Holds-map, Holds-bind, text_eq, if◌then◌else◌,
}
use nabla.Definition.Types.{BaseRelation}
use nabla.Worker.Types.{Catalog}
use nabla.Shadow.Server.{Server, State, run}
use nabla.Shadow.Columns.{has, find_type}
use nabla.Shadow.Tables
use nabla.Shadow.Creating
use nabla.Shadow.Tables.{existing}
use nabla.Shadow.Wanted.{}

module _ (server : Server) where
  open server use {spi}

  -- A statement changes no row of the catalog.
  pub run-catalog :
      (sql : Text) (st : State server) → Holds (λ st'. st'.catalog ≡ st.catalog) (run server sql st)
  unfolding run
  run-catalog sql st = elim (Result-cases (spi.query sql [] st.tables)) [
    | inl ((rows, tables'), e) ↦ rw (e, run) refl
    | inr (e', e) ↦ rw (e, run) tt
  ]

  pub depend_on-catalog :
      (table : Text) (oid : ℕ) (st : State server)
      → (Creating.depend_on server table oid st).catalog ≡ st.catalog
  unfolding Creating.depend_on
  depend_on-catalog table oid st = elim (Option-cases (server.oid_of st.tables table)) [
    | inl e ↦ rw (e, Creating.depend_on) refl
    | inr (d, e) ↦ rw (e, Creating.depend_on) refl
  ]

  -- A property of the catalog holds afterwards.
  abbrev pub Keeps : (Catalog → Type 0) → Result Text (State server) → Type 0
  Keeps Q m = Holds (λ st. Q st.catalog) m

  module _ (Q : Catalog → Type 0) where
    pub kept-run : (sql : Text) (st : State server) → Q st.catalog → Keeps Q (run server sql st)
    kept-run sql st q =
        Holds-map (λ st'. st'.catalog ≡ st.catalog) (λ st'. Q st'.catalog) (run server sql st)
          (λ st' e. subst Q (sym e) q) (run-catalog sql st)

    pub kept-bind :
        (m : Result Text (State server)) (f : State server → Result Text (State server))
        → Keeps Q m
        → ((st : State server) → Q st.catalog → Keeps Q (f st))
        → Keeps Q (m >>= f)
    kept-bind m f h k = Holds-bind (λ st. Q st.catalog) (λ st. Q st.catalog) m f h k

    pub kept-if :
        (b : Bool) (m n : Result Text (State server))
        → Keeps Q m
        → Keeps Q n
        → Keeps Q (if b then m else n)
    kept-if true m n h k = h
    kept-if false m n h k = k

    pub kept-index_keys :
        (rel : BaseRelation) (active keys : List Text) (st : State server)
        → Q st.catalog
        → Keeps Q (Tables.index_keys server rel active keys st)
    unfolding Tables.index_keys
    kept-index_keys rel active [] st q = q
    kept-index_keys rel active (key ∷ keys) st q =
        kept-bind _ (Tables.index_keys server rel active keys)
          (kept-if (not (has key active) || Tables.is_single_pk rel.pk_columns key) _ _ q
            (kept-run _ st q))
          (λ st1 q1. kept-index_keys rel active keys st1 q1)

    pub kept-provide_column :
        (rel : BaseRelation) (physical : List (Text × Text)) (name ty : Text) (st : State server)
        → Q st.catalog
        → Keeps Q (Tables.provide_column server rel physical name ty st)
    unfolding Tables.provide_column Tables.add_column Tables.retype_column
    kept-provide_column rel physical name ty st q = elim (Option-cases (find_type name physical)) [
      | inl e ↦ rw (e, Tables.provide_column) (kept-run _ st q)
      | inr (there, e) ↦
          rw (e, Tables.provide_column) (kept-if (not (text_eq there ty)) _ _ (kept-run _ st q) q)
    ]

    pub kept-provide_columns :
        (rel : BaseRelation) (physical : List (Text × Text)) (names types : List Text)
        (st : State server)
        → Q st.catalog
        → Keeps Q (Creating.provide_columns server rel physical names types st)
    unfolding Creating.provide_columns
    kept-provide_columns rel physical [] types st q = q
    kept-provide_columns rel physical (name ∷ names) [] st q = q
    kept-provide_columns rel physical (name ∷ names) (ty ∷ types) st q =
        kept-bind _ _ (kept-provide_column rel physical name ty st q)
          (λ st1 q1. kept-provide_columns rel physical names types st1 q1)
