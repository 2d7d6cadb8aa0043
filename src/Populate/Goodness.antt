-- ===== src/Populate/Goodness.antt =====
-- The rows of views that the statements of src/populate.rs write, and a property of rows that they establish.
use nabla.Base.{
  ℕ, suc, ◌≡◌, ◌⊎◌, inl, inr, List, [], ◌∷◌, map, All, Option, none, some, Bool, true, false, Text,
  ◌==◌, Bool-cases, if◌then◌else◌,
}
use nabla.Definition.Types.{ViewSpec}
use nabla.Worker.Types.{Status, ViewRow, Catalog}
use nabla.Populate.Build.{}
use nabla.Populate.Frames.{}

-- The row that `go_live` leaves.
abbrev pub live_row : ℕ → Bool → ViewRow → ViewRow
live_row point rebuild r = record r {
  frontier_lsn = point;
  epoch = if rebuild then suc r.epoch else r.epoch;
  status = Status.live;
  apply_failures = 0;
  last_error = none;
  stale_reason = none;
  populated = true;
}

abbrev pub failed_row : Text → ViewRow → ViewRow
failed_row message r = record r { status = Status.failed; last_error = some message }

-- What is wanted of a row: it holds where a view has failed or gone live at the point, and stays where only the
-- specification or the oid of the view is written.
pub record IsOutcome (point : ℕ) (Good : ViewRow → Type 0) : Type 0 where
  pub of_failed : (message : Text) (r : ViewRow) → Good (failed_row message r)
  pub of_live : (rebuild : Bool) (r : ViewRow) → Good (live_row point rebuild r)
  pub of_spec : (spec : ViewSpec) (r : ViewRow) → Good r → Good (record r { spec = some spec })
  pub of_relid : (relid : Option ℕ) (r : ViewRow) → Good r → Good (record r { relid = relid })

-- Every row of the view is good.
abbrev pub IsGood : (ViewRow → Type 0) → ℕ → Catalog → Type 0
IsGood Good id cat = All (λ r. ((r.id == id) ≡ false) ⊎ Good r) cat.views

-- What is good stays good.
abbrev pub StaysGood : (ViewRow → Type 0) → Catalog → Catalog → Type 0
StaysGood Good a b = (id : ℕ) → IsGood Good id a → IsGood Good id b

module _ (Good : ViewRow → Type 0) where
  pub IsGood-update :
      (id other : ℕ) (f : ViewRow → ViewRow) (rows : List ViewRow)
      → ((r : ViewRow) → (f r).id ≡ r.id)
      → ((r : ViewRow) → Good r → Good (f r))
      → All (λ r. ((r.id == id) ≡ false) ⊎ Good r) rows
      → All
          (λ r. ((r.id == id) ≡ false) ⊎ Good r)
          (map (λ r. if r.id == other then f r else r) rows)
  IsGood-update id other f [] keep_id good h = tt
  IsGood-update id other f (r ∷ rows) keep_id good (h, hs) =
      (one (Bool-cases (r.id == other)) h, IsGood-update id other f rows keep_id good hs)
    where
      one :
          ((r.id == other) ≡ true) ⊎ ((r.id == other) ≡ false)
          → ((r.id == id) ≡ false) ⊎ Good r
          → (((if r.id == other then f r else r).id == id) ≡ false)
            ⊎ Good (if r.id == other then f r else r)
      one (inl e) (inl k) = rw e (inl (rw (keep_id r) k))
      one (inl e) (inr k) = rw e (inr (good r k))
      one (inr e) k' = rw e k'

  pub IsGood-made :
      (id : ℕ) (f : ViewRow → ViewRow) (rows : List ViewRow)
      → ((r : ViewRow) → Good (f r))
      → All (λ r. ((r.id == id) ≡ false) ⊎ Good r) (map (λ r. if r.id == id then f r else r) rows)
  IsGood-made id f [] good = tt
  IsGood-made id f (r ∷ rows) good = (one (Bool-cases (r.id == id)), IsGood-made id f rows good)
    where
      one :
          ((r.id == id) ≡ true) ⊎ ((r.id == id) ≡ false)
          → (((if r.id == id then f r else r).id == id) ≡ false)
            ⊎ Good (if r.id == id then f r else r)
      one (inl e) = rw e (inr (good r))
      one (inr e) = rw e (inl e)
