-- ===== src/Apply/Sql.antt =====
-- How src/apply.rs runs statements: the SPI of PostgreSQL is a parameter.
use nabla.Base.{
  ℕ, List, [], ◌∷◌, map, Option, none, some, Text, Result, ok, err, ◌>>=◌, ok_or, position, text_eq,
  codes, concat, join, decimal, ◌+◌,
}
use nabla.Pgoutput.Types.{RelationColumn, Relation, ColumnValue, null, unchanged, text, Tuple}

-- The tables of the database, PostgreSQL's quoting of identifiers, and a statement with its bound
-- parameters, which returns rows of text columns or a message.
pub record Spi : Type 1 where
  pub Tables : Type 0
  pub quote_identifier : Text → Text
  pub query : Text → List (Option Text) → Tables → Result Text (List (List (Option Text)) × Tables)

unfoldable pub rel_column_index : Relation → Text → Option ℕ
rel_column_index rel name = position (λ c. text_eq c.name name) rel.columns

-- A decoded value as a parameter: NULL unless it is text.
unfoldable pub row_arg : ColumnValue → Option Text
row_arg null = none
row_arg unchanged = none
row_arg (text t) = some t

unfoldable pub row_args : Tuple → List (Option Text)
row_args tuple = map row_arg tuple

-- The first column of each row that has one.
unfoldable pub first_texts : List (List (Option Text)) → List Text
first_texts [] = []
first_texts ([] ∷ rows) = first_texts rows
first_texts ((none ∷ cols) ∷ rows) = first_texts rows
first_texts ((some t ∷ cols) ∷ rows) = t ∷ first_texts rows

module _ (spi : Spi) where
  open spi use {Tables, quote_identifier, query}

  -- An action on the tables that may fail.
  abbrev pub Action : Type 0 → Type 0
  Action A = Tables → Result Text (A × Tables)

  unfoldable pub returning_text : Text → List (Option Text) → Action (List Text)
  returning_text sql args tables = elim (query sql args tables) [
    | err e ↦ err (concat (sql ∷ codes ": " ∷ e ∷ []))
    | ok (rows, tables') ↦ ok (first_texts rows, tables')
  ]

  unfoldable pub execute_cached : Text → List (Option Text) → Action (Unit {0})
  execute_cached sql args tables = elim (query sql args tables) [
    | err e ↦ err (concat (sql ∷ codes ": " ∷ e ∷ []))
    | ok (rows, tables') ↦ ok (tt, tables')
  ]

  -- The casts `$i::type` and the quoted names of the columns, with the parameters counted from `n`.
  unfoldable pub casts_and_names : ℕ → List RelationColumn → Result Text (List Text × List Text)
  casts_and_names n [] = ok ([], [])
  casts_and_names n (col ∷ cols) =
      ok_or col.type_name (concat (codes "type of column " ∷ col.name ∷ codes " not resolved" ∷ []))
      >>= λ ty. casts_and_names (n + 1) cols >>= λ rest. ok (
        concat (codes "$" ∷ decimal n ∷ codes "::" ∷ ty ∷ []) ∷ rest.0,
        quote_identifier col.name ∷ rest.1,
      )

  unfoldable pub values_source : Relation → Text → ℕ → Result Text Text
  values_source rel alias first_param = casts_and_names first_param rel.columns >>= λ parts. ok (
      concat (
        codes "(VALUES ("
        ∷ join (codes ", ") parts.0
        ∷ codes ")) AS "
        ∷ quote_identifier alias
        ∷ codes "("
        ∷ join (codes ", ") parts.1
        ∷ codes ")"
        ∷ []))
