-- ===== src/Apply/Types.antt =====
-- The data types of src/apply.rs, and the JSON library that it calls.
use nabla.Base.{ℕ, List, Option, Bool, true, Text, ◌≡◌}
use nabla.Base.Int.{ℤ}

-- `op` is the character 'I' or 'D'.
pub record Delta : Type 0 where
  pub op : ℕ
  pub row_json : Text

pub record Stale : Type 0 where
  pub reason : Text

pub data Op : Type 0 where
  row : ℤ → Text → Op
  delete_by_key : Text → List (Option Text) → Op

pub data Planned : Type 0 where
  ops : List Op → Planned
  stale : Stale → Planned

-- What the code relies on of serde_json: `==` of values is an equivalence (its `Value` is `Eq`). `get` looks a key up
-- in an object, and `remove` takes it out of one. Nothing is relied on of the parsed form of a printed value: a number
-- need not come back digit for digit.
pub record Json : Type 1 where
  pub Value : Type 0
  pub null : Value
  pub from_str : Text → Option Value
  pub to_string : Value → Text
  pub get : Value → Text → Option Value
  pub is_object : Value → Bool
  pub remove : Value → Text → Value
  pub value_eq : Value → Value → Bool
  pub value_eq_refl : (v : Value) → value_eq v v ≡ true
  pub value_eq_sym : (v w : Value) → value_eq v w ≡ true → value_eq w v ≡ true
  pub value_eq_trans :
      (u v w : Value) → value_eq u v ≡ true → value_eq v w ≡ true → value_eq u w ≡ true
