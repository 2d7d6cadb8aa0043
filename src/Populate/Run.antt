-- ===== src/Populate/Run.antt =====
-- `populate_group`, `record_failure` and `run_pending` of src/populate.rs.
use nabla.Base.{
  ℕ, suc, List, [], ◌∷◌, Option, none, some, Bool, true, false, Text, Result, ok, err, ◌>>=◌, codes,
  concat, ltb, if◌then◌else◌,
}
use nabla.Lsn
use nabla.Worker.Types.{Catalog}
use nabla.Shadow.Server.{Server, State, update_catalog}
use nabla.Populate.Group.{Pending, load_pending, group}
use nabla.Populate.Build.{build, mark_failed}

module _ (server : Server) where
  -- What the replication system gives a group: the consistent point of the snapshot or why there is none, and the
  -- confirmed position of the main slot, if it is there.
  pub record Snapshot : Type 0 where
    pub point : Result Text ℕ
    pub main_slot : Option ℕ

  unfoldable pub build_all : List Pending → ℕ → List ℕ → State server → Result Text (State server)
  build_all [] point seen st = ok st
  build_all (view ∷ views) point seen st =
      build server view point seen st >>= λ r. build_all views point r.0 r.1

  -- The main slot must not have passed the consistent point.
  unfoldable pub check_slot : Option ℕ → ℕ → Result Text (Unit {0})
  check_slot none point = ok tt
  check_slot (some main) point =
      if ltb point main
      then err (
          concat (
            codes "main slot at "
            ∷ Lsn.format main
            ∷ codes " is past the consistent point "
            ∷ Lsn.format point
            ∷ []))
      else ok tt

  -- The transaction of a group; what fails leaves nothing behind.
  unfoldable pub populate_group :
      List Pending → Snapshot → State server → Result Text (ℕ × State server)
  populate_group views snapshot st = snapshot.point >>= λ point.
      check_slot snapshot.main_slot point >>= λ _.
      build_all views point [] st >>= λ st'. ok (point, st')

  unfoldable pub record_failure : List Pending → Text → Catalog → Catalog
  record_failure [] message cat = cat
  record_failure (view ∷ views) message cat =
      record_failure views message (mark_failed view.id message cat)

  -- The groups one after the other, each with the snapshot that its turn gives.
  unfoldable pub run_groups : (ℕ → Snapshot) → ℕ → List (List Pending) → State server → State server
  run_groups snapshots i [] st = st
  run_groups snapshots i (views ∷ groups) st =
      run_groups snapshots (suc i) groups (elim (populate_group views (snapshots i) st) [
        | ok (point, st') ↦ st'
        | err message ↦ update_catalog server (record_failure views message) st
      ])

  unfoldable pub some_pending : List Pending → Bool
  some_pending [] = false
  some_pending (view ∷ views) = true

  -- Whether something was attempted. Recording a failure is a transaction of its own, taken to succeed.
  unfoldable pub run_pending : (ℕ → Snapshot) → State server → Bool × State server
  run_pending snapshots st =
      let pending = load_pending st.catalog.views in
      (some_pending pending, run_groups snapshots 0 (group pending) st)
