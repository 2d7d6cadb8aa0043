-- ===== src/Populate/Outcomes.antt =====
-- `populate_group` and `run_pending` of src/populate.rs: what has become of the pending views.
use nabla.Base.{
  ℕ, ◌≤◌, ◌≡◌, ◌⊎◌, refl, inl, inr, List, [], ◌∷◌, All, Option, none, some, Bool, true, false, ok,
  Result-cases, Holds, Holds-map, Holds-bind, Holds-ok, ltb, Bool-cases, arith,
}
use nabla.Worker.Types.{Status, ViewRow, Catalog}
use nabla.Shadow.Server.{Server, State}
use nabla.Populate.Group.{Pending}
use nabla.Populate.Run.{Snapshot, build_all, check_slot, populate_group}
use nabla.Populate.Goodness.{IsOutcome, IsGood, StaysGood}
use nabla.Populate.Settled.{Settles, Settles-build}

-- A view has failed, or it is live with the position for its frontier.
abbrev pub IsBuiltAt : ℕ → ViewRow → Type 0
IsBuiltAt point r =
    (r.status ≡ Status.failed)
    ⊎ ((r.status ≡ Status.live) × (r.frontier_lsn ≡ point) × (r.populated ≡ true))

IsOutcome-IsBuiltAt : (point : ℕ) → IsOutcome point (IsBuiltAt point)
IsOutcome-IsBuiltAt point = record {
  of_failed = λ message r. inl refl;
  of_live = λ rebuild r. inr (refl, refl, refl);
  of_spec = λ spec r h. h;
  of_relid = λ relid r h. h;
}

abbrev pub is_settled : Status → Bool
is_settled Status.live = true
is_settled Status.failed = true
is_settled Status.initializing = false
is_settled Status.refreshing = false
is_settled Status.stale = false

-- A view is live or has failed.
abbrev pub IsSettled : ViewRow → Type 0
IsSettled r = is_settled r.status ≡ true

pub IsOutcome-IsSettled : (point : ℕ) → IsOutcome point IsSettled
IsOutcome-IsSettled point = record {
  of_failed = λ message r. refl;
  of_live = λ rebuild r. refl;
  of_spec = λ spec r h. h;
  of_relid = λ relid r h. h;
}

-- The main slot is at or before the position, if there is one.
abbrev pub IsWithin : Option ℕ → ℕ → Type 0
IsWithin none point = Unit {0}
IsWithin (some main) point = main ≤ point

check_slot-IsWithin :
    (server : Server) (slot : Option ℕ) (point : ℕ)
    → Holds (λ _. IsWithin slot point) (check_slot server slot point)
unfolding check_slot
check_slot-IsWithin server none point = tt
check_slot-IsWithin server (some main) point = elim (Bool-cases (ltb point main)) [
  | inl e ↦ rw e tt
  | inr e ↦ rw e (ground arith)
]

module _ (server : Server) (point : ℕ) (Good : ViewRow → Type 0) (o : IsOutcome point Good) where
  abbrev AllGood : List Pending → Catalog → Type 0
  AllGood views cat = All (λ v. IsGood Good v.id cat) views

  AllGood-stays :
      (views : List Pending) (a b : Catalog)
      → StaysGood Good a b
      → AllGood views a
      → AllGood views b
  AllGood-stays [] a b h g = tt
  AllGood-stays (v ∷ views) a b h (g, gs) = (h v.id g, AllGood-stays views a b h gs)

  build_all-AllGood :
      (views : List Pending) (seen : List ℕ) (st : State server)
      → Holds
          (λ st'. StaysGood Good st.catalog st'.catalog × AllGood views st'.catalog)
          (build_all server views point seen st)
  unfolding build_all
  build_all-AllGood [] seen st = (λ id g. g, tt)
  build_all-AllGood (view ∷ views) seen st =
      Holds-bind (λ r. Settles server point Good o view.id st.catalog r.1.catalog)
        (λ st'. StaysGood Good st.catalog st'.catalog × AllGood (view ∷ views) st'.catalog) _ _
        (Settles-build server point Good o view seen st)
        (λ r h.
          Holds-map (λ st'. StaysGood Good r.1.catalog st'.catalog × AllGood views st'.catalog)
            (λ st'. StaysGood Good st.catalog st'.catalog × AllGood (view ∷ views) st'.catalog) _
            (λ st' q. (λ id g. q.0 id (h.0 id g), (q.0 view.id h.1, q.1)))
            (build_all-AllGood views r.0 r.1))

module _ (server : Server) (Good : ℕ → ViewRow → Type 0)
    (o : (point : ℕ) → IsOutcome point (Good point)) where
  -- A group that is populated.
  abbrev pub IsDone : Option ℕ → List Pending → Catalog → ℕ × State server → Type 0
  IsDone slot views a r =
      IsWithin slot r.0
      × (StaysGood (Good r.0) a r.1.catalog × All (λ v. IsGood (Good r.0) v.id r.1.catalog) views)

  pub populate_group-IsDone :
      (views : List Pending) (snapshot : Snapshot server) (st : State server)
      → Holds (IsDone snapshot.main_slot views st.catalog) (populate_group server views snapshot st)
  unfolding populate_group
  populate_group-IsDone views snapshot st =
      elim (Result-cases snapshot.point)
        as (λ _.
          Holds (IsDone snapshot.main_slot views st.catalog)
            (populate_group server views snapshot st)) [
              | inr (e', ep) ↦ rw ep tt
              | inl (point, ep) ↦ rw ep (
                  Holds-bind (λ _. IsWithin snapshot.main_slot point)
                    (IsDone snapshot.main_slot views st.catalog) _ _
                    (check_slot-IsWithin server snapshot.main_slot point)
                    (λ _ h.
                      Holds-bind
                        (λ (st' : State server).
                          StaysGood (Good point) st.catalog st'.catalog
                          × All (λ v. IsGood (Good point) v.id st'.catalog) views)
                        (IsDone snapshot.main_slot views st.catalog) _ _
                        (build_all-AllGood server point (Good point) (o point) views [] st)
                        (λ st' q. (h, q))))
            ]

-- If a group is populated at a point, the main slot was at or before that point, and each view of the group has
-- failed or is live with exactly that point for its frontier.
pub populate_group-IsBuiltAt :
    (server : Server) (views : List Pending) (snapshot : Snapshot server) (st st' : State server)
    (point : ℕ)
    → populate_group server views snapshot st ≡ ok (point, st')
    → IsWithin snapshot.main_slot point × All (λ v. IsGood (IsBuiltAt point) v.id st'.catalog) views
populate_group-IsBuiltAt server views snapshot st st' point e =
    let done =
      Holds-ok (IsDone server IsBuiltAt IsOutcome-IsBuiltAt snapshot.main_slot views st.catalog)
        (point, st') (populate_group-IsDone server IsBuiltAt IsOutcome-IsBuiltAt views snapshot st)
        e in
    (done.0, done.1.1)
