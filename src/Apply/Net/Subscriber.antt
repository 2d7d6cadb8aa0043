-- ===== src/Apply/Net/Subscriber.antt =====
-- A subscriber that replays the netted deltas of src/apply.rs sees what the view has.
use mathlib.Core.Option
use nabla.Base.{
  ◌≡◌, refl, subst, sym, List, ◌++◌, map, Option, none, some, true, inl, inr, Bool-cases,
}
use nabla.Definition.Types.{ViewSpec}
use nabla.Apply.Types.{Delta, Json}
use nabla.Apply.Net.{rows_eq, visible, net, identity_columns}
use nabla.Apply.Net.Rows.{
  rows_eq_refl, RowChange, parsed, printed, last_row, Report, row_of, change, rows_at,
}
use nabla.Apply.Net.ByKey.{net_by_key}

module _ (json : Json) where
  open json use {Value}

  -- The two rows look the same, or there is none.
  abbrev pub LooksLike : ViewSpec → Option Value → Option Value → Type 0
  LooksLike spec a b =
      rows_eq json (Option.map (visible json spec) a) (Option.map (visible json spec) b) ≡ true

  LooksLike-refl : (spec : ViewSpec) (a : Option Value) → LooksLike spec a a
  LooksLike-refl spec a = rows_eq_refl json (Option.map (visible json spec) a)

  last_row-pair :
      (a b : Option Value) → last_row json (row_of json b'D' a ++ row_of json b'I' b) a ≡ b
  unfolding last_row row_of
  last_row-pair none none = refl
  last_row-pair none (some new) = refl
  last_row-pair (some old) none = refl
  last_row-pair (some old) (some new) = refl

  last_row-change :
      (spec : ViewSpec) (a b : Option Value)
      → LooksLike spec (last_row json (change json spec a b) a) b
  unfolding change
  last_row-change spec a b =
      elim (Bool-cases
        (rows_eq json (Option.map (visible json spec) a) (Option.map (visible json spec) b))) [
          | inl same ↦ rw same (unfold last_row in same)
          | inr differ ↦ rw (differ, last_row-pair a b) (LooksLike-refl spec b)
        ]

  -- Let `t` give the row of each identity key before a transaction, and let the deltas of each key report what happens
  -- to its row: a row is inserted where there is none, and the row that is deleted is there. Then what `net` gives is
  -- the printed form of rows with their operations, and a subscriber that has the rows of `t` and replays these ends, at
  -- each key, with a row that is equal on the visible columns to the row that the view ends with, or with none where the
  -- view has none.
  pub replay-net :
      (spec : ViewSpec) (ds : List Delta) (t : List Value → Option Value)
      → ((k : List Value)
          → Report json (rows_at json (identity_columns spec) k (parsed json ds)) (t k))
      → (cs : List (RowChange json)) × (net json spec ds ≡ map (printed json) cs)
        × ((k : List Value)
            → LooksLike spec
                (last_row json (rows_at json (identity_columns spec) k cs) (t k))
                (last_row json (rows_at json (identity_columns spec) k (parsed json ds)) (t k)))
  replay-net spec ds t r =
      let (cs, (texts, rows)) = net_by_key json spec ds t r in
      let end = λ (k : List Value).
        last_row json (rows_at json (identity_columns spec) k (parsed json ds)) (t k) in
      (
        cs,
        texts,
        λ k.
            subst (λ (ch : List (RowChange json)). LooksLike spec (last_row json ch (t k)) (end k))
              (sym (rows k)) (last_row-change spec (t k) (end k)),
      )
