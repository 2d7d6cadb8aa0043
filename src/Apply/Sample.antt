-- ===== src/Apply/Sample.antt =====
-- A small JSON library and a view for the tests: a row is a list of numbers, and the name of a
-- column is its position.
use nabla.Base.{
  ℕ, List, [], ◌∷◌, Option, none, some, true, false, Text, get_elem?, set, text_eq, text_eq_refl,
  text_eq→eq,
}
use nabla.Definition.Types.{ViewSpec, aggregate}
use nabla.Apply.Types.{Json}

abbrev column : List ℕ → Text → Option (List ℕ)
column row [] = none
column row (i ∷ _) = elim (get_elem? row i) [ none ↦ none | some n ↦ some (n ∷ []) ]

abbrev blank : List ℕ → Text → List ℕ
blank row [] = row
blank row (i ∷ _) = set row i 0

abbrev pub numbers : Json
numbers = record {
  Value = List ℕ;
  null = [];
  from_str = λ t. some t;
  to_string = λ v. v;
  get = column;
  is_object = λ _. true;
  remove = blank;
  value_eq = text_eq;
  value_eq_refl = text_eq_refl;
  value_eq_sym = λ v w e. rw (text_eq→eq v w e) (text_eq_refl w);
  value_eq_trans = λ u v w e f. rw (text_eq→eq u v e) f;
}

-- Grouped by column 0, with the count in column 1 and a hidden counter in column 2.
abbrev pub counts_by_key : ViewSpec
counts_by_key = record {
  shape = aggregate;
  base_table = [];
  base_relname = [];
  predicate = none;
  columns = record { expr = 0 ∷ []; alias = 0 ∷ [] } ∷ [];
  pk_columns = [];
  pk_view_columns = [];
  count_alias = some (1 ∷ []);
  hidden_count = false;
  counts = [];
  sums = [];
  populate_sql = [];
  relations = [];
  select_list = [];
  group_by = none;
  visible_columns = (0 ∷ []) ∷ (1 ∷ []) ∷ [];
  hidden_columns = (2 ∷ []) ∷ [];
}
