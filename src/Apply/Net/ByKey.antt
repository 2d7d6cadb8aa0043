-- ===== src/Apply/Net/ByKey.antt =====
-- What the netted deltas of src/apply.rs say of each key: the row before and the row after the transaction.
use mathlib.Core.Option
use nabla.Base.{
  ℕ, ◌≡◌, refl, sym, ap, ◌∙◌, List, [], ◌∷◌, ◌++◌, append-nil, map, Option, none, some, inl, inr,
  if◌then◌else◌, Text, Bool-cases,
}
use nabla.Definition.Types.{ViewSpec}
use nabla.Apply.Types.{Delta, Json}
use nabla.Apply.Net.{
  State, key_of, keys_eq, rows_eq, visible, delta_of, emit, emit_all, net, net_loop,
  identity_columns,
}
use nabla.Apply.Net.Rows.{
  keys_eq_same, rows_eq_refl, RowChange, parsed, printed, last_row, Report, row_of, change, rows_at,
}
use nabla.Apply.Net.Touched.{
  Touched, keys, states, find, find_same, HasKey, touch_all, IsKept, touch_all-IsKept,
  net_loop-touch_all,
}
use nabla.Apply.Net.Remembering.{Agrees, touch_all-Agrees}

map-append : {A B : Type 0} (f : A → B) (xs ys : List A) → map f (xs ++ ys) ≡ map f xs ++ map f ys
map-append f [] ys = refl
map-append f (x ∷ xs) ys = ap (λ rest. f x ∷ rest) (map-append f xs ys)

module _ (json : Json) where
  open json use {Value}

  delta_of-row_of :
      (op : ℕ) (o : Option Value) → delta_of json op o ≡ map (printed json) (row_of json op o)
  unfolding delta_of row_of
  delta_of-row_of op none = refl
  delta_of-row_of op (some row) = refl

  module _ (spec : ViewSpec) where
    -- The changes that the listed states give.
    unfoldable changes : Touched json → List (RowChange json)
    changes [] = []
    changes ((k, st) ∷ al) = change json spec st.before st.after ++ changes al

    emit-change :
        (st : State json)
        → emit json spec st ≡ map (printed json) (change json spec st.before st.after)
    unfolding emit change
    emit-change st =
        elim (Bool-cases (
          rows_eq json (Option.map (visible json spec) st.before)
            (Option.map (visible json spec) st.after))) [
              | inl same ↦ rw same refl
              | inr differ ↦
                  rw (differ, delta_of-row_of b'D' st.before, delta_of-row_of b'I' st.after)
                    (sym (
                      map-append (printed json) (row_of json b'D' st.before)
                        (row_of json b'I' st.after)))
            ]

    emit_all-changes :
        (al : Touched json) → emit_all json spec (states json al) ≡ map (printed json) (changes al)
    unfolding emit_all states changes
    emit_all-changes [] = refl
    emit_all-changes ((k, st) ∷ al) =
        rw (emit-change st, emit_all-changes al)
          (sym (map-append (printed json) (change json spec st.before st.after) (changes al)))

    module _ (identity : List Text) (k : List Value) where
      rows_at-append :
          (xs ys : List (RowChange json))
          → rows_at json identity k (xs ++ ys)
            ≡ rows_at json identity k xs ++ rows_at json identity k ys
      unfolding rows_at
      rows_at-append [] ys = refl
      rows_at-append ((op, row) ∷ xs) ys =
          elim (Bool-cases (keys_eq json (key_of json identity row) k)) [
            | inl same ↦ rw (same, rows_at) (ap (λ rest. (op, row) ∷ rest) (rows_at-append xs ys))
            | inr other ↦ rw (other, rows_at) (rows_at-append xs ys)
          ]

      rows_at-row_of :
          (j : List Value) (op : ℕ) (o : Option Value)
          → HasKey json identity j o
          → rows_at json identity k (row_of json op o)
            ≡ (if keys_eq json j k then row_of json op o else [])
      unfolding rows_at row_of
      rows_at-row_of j op none h = elim (Bool-cases (keys_eq json j k)) [
        | inl e ↦ rw e refl
        | inr e ↦ rw e refl
      ]
      rows_at-row_of j op (some row) h =
          rw (keys_eq_same json (key_of json identity row) j k h) refl

      rows_at-change :
          (j : List Value) (first now : Option Value)
          → HasKey json identity j first
          → HasKey json identity j now
          → rows_at json identity k (change json spec first now)
            ≡ (if keys_eq json j k then change json spec first now else [])
      unfolding change
      rows_at-change j first now hf hn =
          elim (Bool-cases (
            rows_eq json (Option.map (visible json spec) first)
              (Option.map (visible json spec) now))) [
                | inl same ↦ elim (Bool-cases (keys_eq json j k)) [
                  | inl e ↦ rw (same, e) (unfold rows_at in refl)
                  | inr e ↦ rw (same, e) (unfold rows_at in refl)
                ]
                | inr differ ↦
                    let split = rows_at-append (row_of json b'D' first) (row_of json b'I' now) in
                    let before = rows_at-row_of j b'D' first hf in
                    let after = rows_at-row_of j b'I' now hn in
                    elim (Bool-cases (keys_eq json j k)) [
                      | inl e ↦ rw (differ, e) (split ∙ rw (before, after, e) refl)
                      | inr e ↦ rw (differ, e) (split ∙ rw (before, after, e) refl)
                    ]
              ]

      of_state : Option (State json) → List (RowChange json)
      of_state none = []
      of_state (some st) = change json spec st.before st.after

      rows_at-changes :
          (al : Touched json)
          → IsKept json identity al
          → rows_at json identity k (changes al) ≡ of_state (find json k al)
      unfolding changes IsKept find
      rows_at-changes [] h = unfold rows_at of_state in refl
      rows_at-changes ((j, st) ∷ al) (distinct, keyed) =
          rows_at-append (change json spec st.before st.after) (changes al)
          ∙ rw
              (
                rows_at-change j st.before st.after keyed.0 keyed.1,
                rows_at-changes al (distinct.1, keyed.2),
              )
              (elim (Bool-cases (keys_eq json j k)) [
                | inl same ↦ rw same (
                    ap (λ o. change json spec st.before st.after ++ of_state o)
                      (sym (find_same json j k al same) ∙ distinct.0)
                    ∙ unfold of_state in append-nil (change json spec st.before st.after))
                | inr other ↦ rw other refl
              ])

      of_state-change :
          (o : Option (State json)) (first now : Option Value)
          → Agrees json o first now
          → of_state o ≡ change json spec first now
      unfolding of_state change
      of_state-change none first now h =
          rw (h, rows_eq_refl json (Option.map (visible json spec) first)) refl
      of_state-change (some st) first now h = rw (h.0, h.1) refl

  -- What `net` gives is the printed form of changes: those of the given states.
  abbrev pub IsNetted :
      ViewSpec → List Delta → (List Value → Option Value) → List (RowChange json) → Type 0
  IsNetted spec ds t cs =
      let identity = identity_columns spec in
      (net json spec ds ≡ map (printed json) cs)
      × ((k : List Value)
          → rows_at json identity k cs
            ≡ change json spec (t k)
                (last_row json (rows_at json identity k (parsed json ds)) (t k)))

  -- Let `t` give the row of each identity key before a transaction, and let the deltas of each key report what happens
  -- to its row: a row is inserted where there is none, and the row that is deleted is there. Then what `net` gives is
  -- the printed form of rows with their operations, and those of each key are exactly this: nothing if the visible
  -- columns of its row are the same before and after the transaction, and otherwise the row before as 'D' (if there was
  -- one) and the row after as 'I' (if there is one).
  pub net_by_key :
      (spec : ViewSpec) (ds : List Delta) (t : List Value → Option Value)
      → ((k : List Value)
          → Report json (rows_at json (identity_columns spec) k (parsed json ds)) (t k))
      → (cs : List (RowChange json)) × IsNetted spec ds t cs
  unfolding net
  net_by_key spec ds t r =
      let identity = identity_columns spec in
      let touched = touch_all json identity (parsed json ds) [] in
      (
        changes spec touched,
        (
          ap (λ v. emit_all json spec v.1) loop ∙ emit_all-changes spec touched,
          λ k.
              rows_at-changes spec identity k touched
                (touch_all-IsKept json identity (parsed json ds) [] (unfold IsKept in (tt, tt)))
              ∙ of_state-change spec identity k (find json k touched) (t k) _ (
                  touch_all-Agrees json identity k (t k) (parsed json ds) [] (t k)
                    (unfold find in refl) (r k)),
        ),
      )
    where
      loop : net_loop json (identity_columns spec) ds ([], []) ≡ (
        keys json (touch_all json (identity_columns spec) (parsed json ds) []),
        states json (touch_all json (identity_columns spec) (parsed json ds) []),
      )
      loop = unfold keys states in net_loop-touch_all json (identity_columns spec) ds []
