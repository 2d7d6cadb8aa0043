-- ===== src/Apply/Net.antt =====
-- `net` of src/apply.rs: the deltas of one source transaction, reduced to one before and one after
-- for each identity key.
pub mod Rows
pub mod Touched
pub mod Remembering
pub mod ByKey
pub mod Subscriber
use nabla.Base.{
  ℕ, List, [], ◌∷◌, ◌++◌, map, Option, none, some, Bool, true, false, ◌&&◌, ◌==◌, if◌then◌else◌,
  Text, get_elem?, set, position,
}
use mathlib.Core.Option
use nabla.Definition.Types.{Shape, projection, aggregate, ViewSpec, OutputColumn}
use nabla.Apply.Types.{Delta, Json}

-- The columns that identify a row of the view.
unfoldable pub identity_columns : ViewSpec → List Text
identity_columns spec = elim spec.shape [
  | aggregate ↦ map (λ c. c.alias) spec.columns
  | projection ↦ spec.pk_view_columns
]

module _ (json : Json) where
  open json use {Value, null, from_str, to_string, get, is_object, remove, value_eq}

  unfoldable pub remove_all : List Text → Value → Value
  remove_all [] row = row
  remove_all (h ∷ hs) row = remove_all hs (remove row h)

  unfoldable pub visible : ViewSpec → Value → Value
  visible spec row = if is_object row then remove_all spec.hidden_columns row else row

  -- The rows of a key before and after the transaction; `none` is no row.
  pub record State : Type 0 where
    pub before : Option Value
    pub after : Option Value

  unfoldable pub get_or_null : Option Value → Value
  get_or_null none = null
  get_or_null (some v) = v

  unfoldable pub key_of : List Text → Value → List Value
  key_of identity row = map (λ c. get_or_null (get row c)) identity

  -- `==` on vectors and on options of values.
  unfoldable pub keys_eq : List Value → List Value → Bool
  keys_eq [] [] = true
  keys_eq [] (w ∷ ws) = false
  keys_eq (v ∷ vs) [] = false
  keys_eq (v ∷ vs) (w ∷ ws) = value_eq v w && keys_eq vs ws

  unfoldable pub rows_eq : Option Value → Option Value → Bool
  rows_eq none none = true
  rows_eq none (some w) = false
  rows_eq (some v) none = false
  rows_eq (some v) (some w) = value_eq v w

  unfoldable pub set_after : ℕ → Value → State → State
  set_after op row st = record st { after = if op == b'I' then some row else none }

  unfoldable pub first_state : ℕ → Value → State
  first_state op row = record { before = if op == b'D' then some row else none; after = none }

  -- `let state = &mut states[index]; state.after = ..`.
  unfoldable pub update_at : ℕ → ℕ → Value → List State → List State
  update_at index op row states = elim (get_elem? states index) [
    | none ↦ states
    | some st ↦ set states index (set_after op row st)
  ]

  -- A row of a key: at its index in the vectors `order` and `states`, or new at their ends.
  unfoldable pub record_at :
      Option ℕ
      → List Value
      → ℕ
      → Value
      → List (List Value)
      → List State
      → List (List Value) × List State
  record_at (some index) key op row order states = (order, update_at index op row states)
  record_at none key op row order states =
      (order ++ (key ∷ []), states ++ (set_after op row (first_state op row) ∷ []))

  -- One delta; a row that is no JSON is passed over.
  unfoldable pub net_step :
      List Text → Delta → List (List Value) × List State → List (List Value) × List State
  net_step identity d (order, states) = elim (from_str d.row_json) [
    | none ↦ (order, states)
    | some row ↦
        let key = key_of identity row in
        record_at (position (λ k. keys_eq k key) order) key d.op row order states
  ]

  unfoldable pub net_loop :
      List Text → List Delta → List (List Value) × List State → List (List Value) × List State
  net_loop identity [] acc = acc
  net_loop identity (d ∷ ds) acc = net_loop identity ds (net_step identity d acc)

  unfoldable pub delta_of : ℕ → Option Value → List Delta
  delta_of op none = []
  delta_of op (some row) = record { op = op; row_json = to_string row } ∷ []

  -- What a key contributes: nothing if the two rows look the same.
  unfoldable pub emit : ViewSpec → State → List Delta
  emit spec st =
      if rows_eq (Option.map (visible spec) st.before) (Option.map (visible spec) st.after)
      then []
      else delta_of b'D' st.before ++ delta_of b'I' st.after

  unfoldable pub emit_all : ViewSpec → List State → List Delta
  emit_all spec [] = []
  emit_all spec (st ∷ sts) = emit spec st ++ emit_all spec sts

  unfoldable pub net : ViewSpec → List Delta → List Delta
  net spec deltas = emit_all spec (net_loop (identity_columns spec) deltas ([], [])).1
