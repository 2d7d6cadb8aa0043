-- ===== src/Api/Ordering.antt =====
-- The rows that `changes` of src/api.rs selects from a log in the order of its numbers.
use nabla.Base.{
  ℕ, suc, ◌≤◌, ◌<◌, ◌≡◌, refl, subst, inl, inr, List, [], ◌∷◌, Bool, true, false, ◌&&◌, ltb, ◌==◌,
  Bool-cases, if◌then◌else◌, arith,
}
use nabla.Base.Int.{pos}
use nabla.Worker.Types.{DeltaRow}
use nabla.Api.Changes.{deltas_after, is_after, place_by_seq, order_by_seq, same_transaction_after}

-- The deltas of a view.
unfoldable pub of_view : ℕ → List DeltaRow → List DeltaRow
of_view view_id [] = []
of_view view_id (d ∷ ds) =
    let rest = of_view view_id ds in if d.view_id == view_id then d ∷ rest else rest

-- The deltas with a number above `a`.
unfoldable pub later : ℕ → List DeltaRow → List DeltaRow
later a [] = []
later a (d ∷ ds) = let rest = later a ds in if ltb a d.seq then d ∷ rest else rest

-- The numbers go from `from` to `to` without a gap, at positions from `lo` on that never go back.
abbrev pub IsLog : ℕ → ℕ → List DeltaRow → ℕ → Type 0
IsLog from lo [] to = from ≡ to
IsLog from lo (d ∷ ds) to = (d.seq ≡ suc from) × (lo ≤ d.lsn) × IsLog (suc from) d.lsn ds to

pub IsLog-lower :
    (from lo lo' : ℕ) (ds : List DeltaRow) (to : ℕ)
    → lo' ≤ lo
    → IsLog from lo ds to
    → IsLog from lo' ds to
IsLog-lower from lo lo' [] to h r = r
IsLog-lower from lo lo' (d ∷ ds) to h (e, k, r) = (e, omega arith, r)

pub IsLog-le : (from lo : ℕ) (ds : List DeltaRow) (to : ℕ) → IsLog from lo ds to → from ≤ to
IsLog-le from lo [] to e = omega arith
IsLog-le from lo (d ∷ ds) to (e, h, r) = omega (arith, IsLog-le (suc from) d.lsn ds to r)

pub deltas_after-later :
    (view_id a : ℕ) (ds : List DeltaRow)
    → deltas_after view_id (pos a) ds ≡ later a (of_view view_id ds)
unfolding deltas_after later of_view is_after
deltas_after-later view_id a [] = refl
deltas_after-later view_id a (d ∷ ds) = elim (Bool-cases (d.view_id == view_id)) [
  | inl e ↦ rw (e, deltas_after-later view_id a ds) refl
  | inr e ↦ rw (e, deltas_after-later view_id a ds) refl
]

-- What stands behind a number is all later.
later-all :
    (from lo a : ℕ) (ds : List DeltaRow) (to : ℕ) → a ≤ from → IsLog from lo ds to → later a ds ≡ ds
unfolding later
later-all from lo a [] to h r = refl
later-all from lo a (d ∷ ds) to h (e, k, r) =
    let t : ltb a d.seq ≡ true = ground arith in
    rw (t, later-all (suc from) d.lsn a ds to (omega arith) r) refl

pub later-IsLog :
    (from lo a : ℕ) (ds : List DeltaRow) (to : ℕ)
    → from ≤ a
    → a ≤ to
    → IsLog from lo ds to
    → IsLog a lo (later a ds) to
unfolding later
later-IsLog from lo a [] to h k r = omega arith
later-IsLog from lo a (d ∷ ds) to h k (e, l, r) = elim (Bool-cases (ltb a d.seq)) [
  | inl t ↦
      let same : from ≡ a = ground arith in
      rw (t, later-all (suc from) d.lsn a ds to (omega arith) r)
        (subst (λ n. IsLog n lo (d ∷ ds) to) same (e, l, r))
  | inr t ↦ rw t (
      IsLog-lower a d.lsn lo (later a ds) to l
        (later-IsLog (suc from) d.lsn a ds to (ground arith) k r))
]

pub order_by_seq-IsLog :
    (from lo : ℕ) (ds : List DeltaRow) (to : ℕ) → IsLog from lo ds to → order_by_seq ds ≡ ds
unfolding order_by_seq place_by_seq
order_by_seq-IsLog from lo [] to r = refl
order_by_seq-IsLog from lo (d ∷ []) to r = refl
order_by_seq-IsLog from lo (d ∷ e ∷ ds) to (p, h, (q, k, r)) =
    let t : ltb e.seq d.seq ≡ false = ground arith in
    rw (order_by_seq-IsLog (suc from) d.lsn (e ∷ ds) to (q, k, r)) (rw t refl)

-- The later rows of the transaction of `last`, in the log of one view.
unfoldable pub same_after : DeltaRow → List DeltaRow → List DeltaRow
same_after last [] = []
same_after last (d ∷ ds) =
    let rest = same_after last ds in
    if ltb last.seq d.seq && (d.lsn == last.lsn && d.xid == last.xid) then d ∷ rest else rest

pub same_transaction_after-of_view :
    (view_id : ℕ) (last : DeltaRow) (ds : List DeltaRow)
    → same_transaction_after view_id last ds ≡ same_after last (of_view view_id ds)
unfolding same_transaction_after same_after of_view
same_transaction_after-of_view view_id last [] = refl
same_transaction_after-of_view view_id last (d ∷ ds) = elim (Bool-cases (d.view_id == view_id)) [
  | inl e ↦ rw (e, same_transaction_after-of_view view_id last ds) refl
  | inr e ↦ rw (e, same_transaction_after-of_view view_id last ds) refl
]

-- Only later rows count.
pub same_after-later :
    (last : DeltaRow) (a : ℕ) (ds : List DeltaRow)
    → a ≤ last.seq
    → same_after last (later a ds) ≡ same_after last ds
unfolding same_after later
same_after-later last a [] h = refl
same_after-later last a (d ∷ ds) h = elim (Bool-cases (ltb a d.seq)) [
  | inl e ↦ rw e (rw (same_after-later last a ds h) refl)
  | inr e ↦
      let t : ltb last.seq d.seq ≡ false = ground arith in rw (e, t) (same_after-later last a ds h)
]

pub same_after-none :
    (last : DeltaRow) (from lo : ℕ) (ds : List DeltaRow) (to : ℕ)
    → last.lsn < lo
    → IsLog from lo ds to
    → same_after last ds ≡ []
unfolding same_after
same_after-none last from lo [] to h r = refl
same_after-none last from lo (d ∷ ds) to h (e, k, r) =
    let t : (d.lsn == last.lsn) ≡ false = ground arith in
    rw (t, same_after-none last (suc from) d.lsn ds to (omega arith) r)
      (and_false (ltb last.seq d.seq))
  where
    and_false : (b : Bool) → (if b && (false && d.xid == last.xid) then d ∷ [] else []) ≡ []
    and_false true = refl
    and_false false = refl
