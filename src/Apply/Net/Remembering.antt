-- ===== src/Apply/Net/Remembering.antt =====
-- What `net` of src/apply.rs remembers of a key: the row before the transaction, and the row so far.
use nabla.Base.{
  ℕ, ◌≡◌, refl, sym, ◌∙◌, List, [], ◌∷◌, Option, none, some, ◌⊎◌, inl, inr, ◌==◌, if◌then◌else◌,
  Text, Bool-cases,
}
use nabla.Apply.Types.{Json}
use nabla.Apply.Net.{State, key_of, keys_eq, set_after, first_state}
use nabla.Apply.Net.Rows.{RowChange, last_row, Report, rows_at}
use nabla.Apply.Net.Touched.{Touched, touch, find, prior, find-touch, touch_all}

module _ (json : Json) where
  open json use {Value}

  -- A key that was not touched has the row that it had.
  abbrev pub Agrees : Option (State json) → Option Value → Option Value → Type 0
  Agrees none first now = now ≡ first
  Agrees (some st) first now = (st.before ≡ first) × (st.after ≡ now)

  Agrees-insert :
      (row : Value) (o : Option (State json)) (first now : Option Value)
      → Agrees o first now
      → now ≡ none
      → Agrees (some (set_after json b'I' row (prior json b'I' row o))) first (some row)
  unfolding set_after prior first_state
  Agrees-insert row none first now h e = (sym (sym h ∙ e), refl)
  Agrees-insert row (some st) first now h e = (h.0, refl)

  Agrees-delete :
      (row : Value) (o : Option (State json)) (first now : Option Value)
      → Agrees o first now
      → now ≡ some row
      → Agrees (some (set_after json b'D' row (prior json b'D' row o))) first none
  unfolding set_after prior first_state
  Agrees-delete row none first now h e = (sym (sym h ∙ e), refl)
  Agrees-delete row (some st) first now h e = (h.0, refl)

  Agrees-change :
      (op : ℕ) (row : Value) (o : Option (State json)) (first now : Option Value)
      → Agrees o first now
      → ((op ≡ b'I') × (now ≡ none)) ⊎ ((op ≡ b'D') × (now ≡ some row))
      → Agrees
          (some (set_after json op row (prior json op row o)))
          first
          (if op == b'I' then some row else none)
  Agrees-change op row o first now h (inl (i, e)) = rw i (Agrees-insert row o first now h e)
  Agrees-change op row o first now h (inr (d, e)) = rw d (Agrees-delete row o first now h e)

  module _ (identity : List Text) (k : List Value) (first : Option Value) where
    pub touch_all-Agrees :
        (cs : List (RowChange json)) (al : Touched json) (now : Option Value)
        → Agrees (find json k al) first now
        → Report json (rows_at json identity k cs) now
        → Agrees
            (find json k (touch_all json identity cs al))
            first
            (last_row json (rows_at json identity k cs) now)
    unfolding touch_all rows_at last_row
    touch_all-Agrees [] al now h r = h
    touch_all-Agrees ((op, row) ∷ cs) al now h r =
        let key = key_of json identity row in
        elim (Bool-cases (keys_eq json key k)) [
          | inl same ↦
              let r' = rw (same, rows_at) at r in
              rw (same, rows_at)
                (touch_all-Agrees cs (touch json key op row al)
                  (if op == b'I' then some row else none)
                  (rw (find-touch json key k op row al, same)
                    (Agrees-change op row (find json k al) first now h r'.0))
                  r'.1)
          | inr other ↦
              rw (other, rows_at)
                (touch_all-Agrees cs (touch json key op row al) now
                  (rw (find-touch json key k op row al, other) h) (rw (other, rows_at) at r))
        ]
