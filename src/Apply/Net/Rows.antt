-- ===== src/Apply/Net/Rows.antt =====
-- Deltas as operations on rows: what `net` of src/apply.rs reads, the rows of one identity key, and what they do to it.
use nabla.Base.{
  ℕ, ◌≡◌, refl, ◌⊎◌, List, [], ◌∷◌, ◌++◌, Option, none, some, Bool, Bool-cases, true, false, ◌&&◌,
  ◌==◌, if◌then◌else◌, Text, inl, inr,
}
use mathlib.Core.Option
use nabla.Apply.Types.{Delta, Json}
use nabla.Definition.Types.{ViewSpec}
use nabla.Apply.Net.{key_of, keys_eq, rows_eq, visible}

module _ (json : Json) where
  open json use {Value, from_str, to_string, value_eq, value_eq_refl, value_eq_sym, value_eq_trans}

  -- `keys_eq` is an equivalence as `value_eq` is.
  pub keys_eq_refl : (k : List Value) → keys_eq json k k ≡ true
  unfolding keys_eq
  keys_eq_refl [] = refl
  keys_eq_refl (v ∷ vs) = rw (value_eq_refl v, keys_eq_refl vs) refl

  both : (a b : Bool) → (a && b) ≡ true → (a ≡ true) × (b ≡ true)
  both true b e = (refl, e)
  both false b e = cc

  pub keys_eq_sym : (k j : List Value) → keys_eq json k j ≡ true → keys_eq json j k ≡ true
  unfolding keys_eq
  keys_eq_sym [] [] h = refl
  keys_eq_sym [] (w ∷ ws) h = cc
  keys_eq_sym (v ∷ vs) [] h = cc
  keys_eq_sym (v ∷ vs) (w ∷ ws) h =
      let (e, es) = both _ _ h in rw (value_eq_sym v w e, keys_eq_sym vs ws es) refl

  keys_eq_trans :
      (i k j : List Value)
      → keys_eq json i k ≡ true
      → keys_eq json k j ≡ true
      → keys_eq json i j ≡ true
  unfolding keys_eq
  keys_eq_trans [] [] j h g = g
  keys_eq_trans [] (v ∷ vs) j h g = cc
  keys_eq_trans (u ∷ us) [] j h g = cc
  keys_eq_trans (u ∷ us) (v ∷ vs) [] h g = cc
  keys_eq_trans (u ∷ us) (v ∷ vs) (w ∷ ws) h g =
      let (e, es) = both _ _ h in
      let (f, fs) = both _ _ g in rw (value_eq_trans u v w e f, keys_eq_trans us vs ws es fs) refl

  -- Equal keys are equal to the same keys.
  pub keys_eq_same :
      (i j k : List Value) → keys_eq json i j ≡ true → keys_eq json i k ≡ keys_eq json j k
  keys_eq_same i j k h = elim (Bool-cases (keys_eq json j k)) [
    | inl e ↦ rw (keys_eq_trans i j k h e, e) refl
    | inr e ↦ elim (Bool-cases (keys_eq json i k)) [
      | inr f ↦ rw (e, f) refl
      | inl f ↦ let it_is = keys_eq_trans j i k (keys_eq_sym i j h) f in cc
    ]
  ]

  pub rows_eq_refl : (o : Option Value) → rows_eq json o o ≡ true
  unfolding rows_eq
  rows_eq_refl none = refl
  rows_eq_refl (some v) = value_eq_refl v

  -- A row with the operation on it, 'I' or 'D'.
  abbrev pub RowChange : Type 0
  RowChange = ℕ × Value

  -- The deltas whose rows are JSON.
  unfoldable pub parsed : List Delta → List RowChange
  parsed [] = []
  parsed (d ∷ ds) = elim (from_str d.row_json) [
    | none ↦ parsed ds
    | some row ↦ (d.op, row) ∷ parsed ds
  ]

  abbrev pub printed : RowChange → Delta
  printed c = record { op = c.0; row_json = to_string c.1 }

  -- The row of a key after changes of it.
  unfoldable pub last_row : List RowChange → Option Value → Option Value
  last_row [] now = now
  last_row ((op, row) ∷ cs) now = last_row cs (if op == b'I' then some row else none)

  -- The changes of a key report what happened to its row: none is there when one is inserted, and the one that is
  -- deleted is there.
  abbrev pub Report : List RowChange → Option Value → Type 0
  Report [] now = Unit {0}
  Report ((op, row) ∷ cs) now =
      (((op ≡ b'I') × (now ≡ none)) ⊎ ((op ≡ b'D') × (now ≡ some row)))
      × Report cs (if op == b'I' then some row else none)

  unfoldable pub row_of : ℕ → Option Value → List RowChange
  row_of op none = []
  row_of op (some row) = (op, row) ∷ []

  -- What subscribers are told of a key whose row was `first` and is `now`.
  unfoldable pub change : ViewSpec → Option Value → Option Value → List RowChange
  change spec first now =
      if rows_eq json (Option.map (visible json spec) first) (Option.map (visible json spec) now)
      then []
      else row_of b'D' first ++ row_of b'I' now

  module _ (identity : List Text) where
    -- The changes of one key.
    unfoldable pub rows_at : List Value → List RowChange → List RowChange
    rows_at k [] = []
    rows_at k (c ∷ cs) =
        let rest = rows_at k cs in
        if keys_eq json (key_of json identity c.1) k then c ∷ rest else rest
