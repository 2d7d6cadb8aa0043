-- ===== src/Populate/Pending.antt =====
-- `run_pending` of src/populate.rs: no view is left that waits for a build.
use nabla.Base.{
  ℕ, suc, ◌≡◌, ◌⊎◌, refl, subst, inl, inr, List, [], ◌∷◌, ◌++◌, All, true, false, Text, Result, ok,
  err, Holds, ◌==◌,
}
use mathlib.Core.List.{Perm, Permᴰ}
use mathlib.Core.Path.{fun_ext}
use mathlib.Core.Logic.{∥∥₁_elim}
use mathlib.Core.Bool.{Bool-set}
use nabla.Worker.Types.{ViewRow, Catalog}
use nabla.Shadow.Server.{Server, State, update_catalog}
use nabla.Populate.Group.{Pending, load_pending, group}
use nabla.Populate.Build.{mark_failed}
use nabla.Populate.Run.{Snapshot, populate_group, record_failure, run_groups, run_pending}
use nabla.Populate.Goodness.{IsGood, StaysGood}
use nabla.Populate.Settled.{R-mark_failed, IsGood-mark_failed}
use nabla.Populate.Outcomes.{
  is_settled, IsSettled, IsOutcome-IsSettled, IsDone, populate_group-IsDone,
}
use nabla.Populate.Grouping.{flatten, group-Perm}

All-map :
    {A : Type 0} (P Q : A → Type 0) (xs : List A) → ((x : A) → P x → Q x) → All P xs → All Q xs
All-map P Q [] f h = tt
All-map P Q (x ∷ xs) f (h, hs) = (f x h, All-map P Q xs f hs)

All-append : {A : Type 0} (P : A → Type 0) (xs ys : List A) → All P xs → All P ys → All P (xs ++ ys)
All-append P [] ys h k = k
All-append P (x ∷ xs) ys (h, hs) k = (h, All-append P xs ys hs k)

All-flatten :
    (P : Pending → Type 0) (gs : List (List Pending)) → All (All P) gs → All P (flatten gs)
All-flatten P [] h = tt
All-flatten P (g ∷ gs) (h, hs) = All-append P g (flatten gs) h (All-flatten P gs hs)

All-Permᴰ : {A : Type 0} (P : A → Type 0) {xs ys : List A} → Permᴰ xs ys → All P xs → All P ys
All-Permᴰ P Permᴰ.nil h = tt
All-Permᴰ P (Permᴰ.cons e d) (h, hs) = (subst P e h, All-Permᴰ P d hs)
All-Permᴰ P (Permᴰ.swap e e') (h, ks) = (subst P e' ks.0, (subst P e h, ks.1))
All-Permᴰ P (Permᴰ.trans d d') h = All-Permᴰ P d' (All-Permᴰ P d h)

All-prop :
    {A : Type 0} (P : A → Type 0) → ((x : A) → IsProp (P x)) → (xs : List A) → IsProp (All P xs)
All-prop P prop [] a b = refl
All-prop P prop (x ∷ xs) a b = λ i. (prop x a.0 b.0 i, All-prop P prop xs a.1 b.1 i)

All-Perm :
    {A : Type 0} (P : A → Type 0)
    → ((x : A) → IsProp (P x))
    → (xs ys : List A) → Perm xs ys
    → All P xs
    → All P ys
All-Perm P prop xs ys p h = ∥∥₁_elim p (All-prop P prop ys) (λ d. All-Permᴰ P d h)

-- Every row of the view is live or has failed.
abbrev pub IsBuilt : Catalog → Pending → Type 0
IsBuilt cat view = All (λ r. r.id == view.id ≡ true → is_settled r.status ≡ true) cat.views

IsBuilt-prop : (cat : Catalog) (view : Pending) → IsProp (IsBuilt cat view)
IsBuilt-prop cat view =
    All-prop _ (λ r p q. fun_ext (λ t. Bool-set (is_settled r.status) true (p t) (q t))) cat.views

IsBuilt-IsGood : (cat : Catalog) (view : Pending) → IsGood IsSettled view.id cat → IsBuilt cat view
IsBuilt-IsGood cat view h = All-map _ _ cat.views (λ r d t. either r d t) h
  where
    either :
        (r : ViewRow)
        → ((r.id == view.id) ≡ false) ⊎ IsSettled r
        → (r.id == view.id) ≡ true
        → is_settled r.status ≡ true
    either r (inl f) t = cc
    either r (inr g) t = g

module _ (server : Server) where
  record_failure-AllSettled :
      (views : List Pending) (message : Text) (a : Catalog)
      → StaysGood IsSettled a (record_failure server views message a)
        × All (λ v. IsGood IsSettled v.id (record_failure server views message a)) views
  unfolding record_failure
  record_failure-AllSettled [] message a = (λ id g. g, tt)
  record_failure-AllSettled (view ∷ views) message a =
      let one = R-mark_failed server 0 IsSettled (IsOutcome-IsSettled 0) view.id message a in
      let rest = record_failure-AllSettled views message (mark_failed view.id message a) in
      (
        λ id g. rest.0 id (one id g),
        (
          rest.0 view.id
              (IsGood-mark_failed server 0 IsSettled (IsOutcome-IsSettled 0) view.id message a),
          rest.1,
        ),
      )

  -- The state that a group leaves, which succeeds or has its failure recorded.
  abbrev after : List Pending → State server → Result Text (ℕ × State server) → State server
  after views st (ok (point, st')) = st'
  after views st (err message) = update_catalog server (record_failure server views message) st

  after-AllSettled :
      (views : List Pending) (snapshot : Snapshot server) (st : State server)
      (r : Result Text (ℕ × State server))
      → Holds
          (IsDone server (λ _. IsSettled) IsOutcome-IsSettled snapshot.main_slot views st.catalog)
          r
      → StaysGood IsSettled st.catalog (after views st r).catalog
        × All (λ v. IsGood IsSettled v.id (after views st r).catalog) views
  unfolding update_catalog
  after-AllSettled views snapshot st (ok (point, st')) h = h.1
  after-AllSettled views snapshot st (err message) h =
      record_failure-AllSettled views message st.catalog

  run_groups-AllSettled :
      (snapshots : ℕ → Snapshot server) (i : ℕ) (groups : List (List Pending)) (st : State server)
      → StaysGood IsSettled st.catalog (run_groups server snapshots i groups st).catalog
        × All
            (All (λ v. IsGood IsSettled v.id (run_groups server snapshots i groups st).catalog))
            groups
  unfolding run_groups
  run_groups-AllSettled snapshots i [] st = (λ id g. g, tt)
  run_groups-AllSettled snapshots i (views ∷ groups) st =
      let result = populate_group server views (snapshots i) st in
      let (stays, settled) = after-AllSettled views (snapshots i) st result (
        populate_group-IsDone server (λ _. IsSettled) IsOutcome-IsSettled views (snapshots i) st) in
      let (rest_stays, rest_settled) =
        run_groups-AllSettled snapshots (suc i) groups (after views st result) in
      (
        λ id g. rest_stays id (stays id g),
        (All-map _ _ views (λ v g. rest_stays v.id g) settled, rest_settled),
      )

  -- After `run_pending` every view that waited for a build, and whose specification could be read, is live or has failed,
  -- whatever the snapshots and the statements of the builds have done.
  pub run_pending-IsBuilt :
      (snapshots : ℕ → Snapshot server) (st : State server)
      → All (IsBuilt (run_pending server snapshots st).1.catalog) (load_pending st.catalog.views)
  unfolding run_pending
  run_pending-IsBuilt snapshots st =
      let pending = load_pending st.catalog.views in
      let after_all = (run_groups server snapshots 0 (group pending) st).catalog in
      All-Perm (IsBuilt after_all) (IsBuilt-prop after_all) (flatten (group pending)) pending
        (group-Perm pending).0
        (All-flatten (IsBuilt after_all) (group pending) (
          All-map _ _ (group pending) (λ views h. All-map _ _ views (IsBuilt-IsGood after_all) h)
            (run_groups-AllSettled snapshots 0 (group pending) st).1))
