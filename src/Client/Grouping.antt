-- ===== src/Client/Grouping.antt =====
-- The grouping of rows into transactions (clients/rust/nabla-client/src/lib.rs, `fetch`).
use nabla.Base.{◌≡◌, inl, inr, List, [], ◌∷◌, ◌++◌, All, true, false, Bool-cases}
use nabla.Client.Types.{ChangeRow}
use nabla.Client.Fetch.{same_transaction, Group, add_row, group_rows}
use nabla.Client.Delivery.{flatten, flatten-group_rows}

module _ {V : Type 0} where
  -- Every row of a group is of the transaction of its first row.
  abbrev pub IsOneTransaction : Group V → Type 0
  IsOneTransaction g = All (λ r. same_transaction g.0 r ≡ true) g.1

  -- No group starts with a row of the transaction of the group before it.
  abbrev pub AreSeparate : List (Group V) → Type 0
  AreSeparate [] = Unit {0}
  AreSeparate (g ∷ []) = Unit {0}
  AreSeparate (g ∷ h ∷ gs) = (same_transaction g.0 h.0 ≡ false) × AreSeparate (h ∷ gs)

  All-snoc :
      (P : ChangeRow V → Type 0) (rows : List (ChangeRow V)) (r : ChangeRow V)
      → All P rows
      → P r
      → All P (rows ++ (r ∷ []))
  All-snoc P [] r h p = (p, tt)
  All-snoc P (x ∷ rows) r (h, hs) p = (h, All-snoc P rows r hs p)

  -- The group that stands first keeps its first row.
  first_group :
      (g h : Group V) (gs : List (Group V)) (row : ChangeRow V)
      → AreSeparate (g ∷ h ∷ gs)
      → AreSeparate (add_row (h ∷ gs) row)
      → AreSeparate (g ∷ add_row (h ∷ gs) row)
  unfolding add_row
  first_group g h [] row (apart, rest) more = elim (Bool-cases (same_transaction h.0 row)) [
    | inl e ↦ rw e (apart, tt)
    | inr e ↦ rw e (apart, (e, tt))
  ]
  first_group g h (i ∷ gs) row (apart, rest) more = (apart, more)

  add_row-IsOneTransaction :
      (gs : List (Group V)) (row : ChangeRow V)
      → All IsOneTransaction gs
      → All IsOneTransaction (add_row gs row)
  unfolding add_row
  add_row-IsOneTransaction [] row h = (tt, tt)
  add_row-IsOneTransaction (g ∷ []) row (h, hs) = elim (Bool-cases (same_transaction g.0 row)) [
    | inl e ↦ rw e (All-snoc (λ r. same_transaction g.0 r ≡ true) g.1 row h e, tt)
    | inr e ↦ rw e (h, (tt, tt))
  ]
  add_row-IsOneTransaction (g ∷ i ∷ gs) row (h, hs) = (h, add_row-IsOneTransaction (i ∷ gs) row hs)

  add_row-AreSeparate :
      (gs : List (Group V)) (row : ChangeRow V) → AreSeparate gs → AreSeparate (add_row gs row)
  unfolding add_row
  add_row-AreSeparate [] row h = tt
  add_row-AreSeparate (g ∷ []) row h = elim (Bool-cases (same_transaction g.0 row)) [
    | inl e ↦ rw e tt
    | inr e ↦ rw e (e, tt)
  ]
  add_row-AreSeparate (g ∷ i ∷ gs) row h =
      first_group g i gs row h (add_row-AreSeparate (i ∷ gs) row h.1)

  grouped :
      (gs : List (Group V)) (rows : List (ChangeRow V))
      → All IsOneTransaction gs
      → AreSeparate gs
      → All IsOneTransaction (group_rows gs rows) × AreSeparate (group_rows gs rows)
  unfolding group_rows
  grouped gs [] h k = (h, k)
  grouped gs (row ∷ rows) h k =
      grouped (add_row gs row) rows (add_row-IsOneTransaction gs row h)
        (add_row-AreSeparate gs row k)

  -- The groups hold the rows as they came, each group is of one transaction, and no two groups in a
  -- row are of the same.
  pub group_rows-AreSeparate :
      (rows : List (ChangeRow V))
      → (flatten (group_rows [] rows) ≡ rows)
        × All IsOneTransaction (group_rows [] rows)
        × AreSeparate (group_rows [] rows)
  group_rows-AreSeparate rows =
      let parts = grouped [] rows tt tt in (flatten-group_rows [] rows, parts.0, parts.1)
