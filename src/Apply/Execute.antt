-- ===== src/Apply/Execute.antt =====
-- `execute` of src/apply.rs: planned changes written to the view table, and the deltas they make.
use nabla.Base.{
  ℕ, zero, suc, ◌+◌, ◌*◌, ◌^◌, List, [], ◌∷◌, ◌++◌, map, Option, none, some, Bool, true, false, not,
  Text, Result, ok, err, ◌>>=◌, ok_or, codes, concat, join, decimal, ◌==◌, ◌&&◌, ◌||◌, ◌-◌,
  if◌then◌else◌, ltb, leb,
}
use nabla.Base.Int.{ℤ, pos, negsuc}
use nabla.Definition.Types.{projection, aggregate, SumSpec, ViewSpec}
use nabla.Apply.Types.{Op, row, delete_by_key, Delta}
use nabla.Apply.Sql.{Spi, Action, returning_text, execute_cached}
use nabla.Apply.Actions.{pure, lift, bind}
use nabla.Apply.Plan.{ViewTarget}

unfoldable pub is_positive : ℤ → Bool
is_positive (pos zero) = false
is_positive (pos (suc n)) = true
is_positive (negsuc n) = false

unfoldable pub signed_text : ℤ → Text
signed_text (pos n) = decimal n
signed_text (negsuc n) = b'-' ∷ decimal (suc n)

-- `rsplit_once(' ')`: the last separator counts.
unfoldable pub rsplit_once : ℕ → Text → Option (Text × Text)
rsplit_once sep [] = none
rsplit_once sep (c ∷ cs) = elim (rsplit_once sep cs) [
  | some (before, after) ↦ some (c ∷ before, after)
  | none ↦ if c == sep then some ([], cs) else none
]

unfoldable pub is_digit : ℕ → Bool
is_digit c = leb b'0' c && leb c b'9'

-- The digits of a number of at most `bound`; `large` is the message for one that is larger.
unfoldable pub parse_digits : ℕ → Text → ℕ → Text → Result Text ℕ
parse_digits bound large acc [] = ok acc
parse_digits bound large acc (c ∷ cs) =
    let next = acc * 10 + (c - b'0') in
    let rest = parse_digits bound large next cs in
    if not (is_digit c)
    then err (codes "invalid digit found in string")
    else if ltb bound next
    then err large
    else rest

unfoldable pub negated : ℕ → ℤ
negated zero = pos 0
negated (suc n) = negsuc n

unfoldable pub parse_positive : ℕ → Text → Result Text ℤ
parse_positive bits cs =
    parse_digits (2 ^ (bits - 1) - 1) (codes "number too large to fit in target type") 0 cs >>= λ n.
    ok (pos n)

unfoldable pub parse_negative : ℕ → Text → Result Text ℤ
parse_negative bits cs =
    parse_digits (2 ^ (bits - 1)) (codes "number too small to fit in target type") 0 cs >>= λ n.
    ok (negated n)

-- `str::parse` into a signed integer of so many bits.
unfoldable pub parse_int : ℕ → Text → Result Text ℤ
parse_int bits [] = err (codes "cannot parse integer from empty string")
parse_int bits (c ∷ []) =
    if c == b'+' || c == b'-'
    then err (codes "invalid digit found in string")
    else parse_positive bits (c ∷ [])
parse_int bits (c ∷ d ∷ cs) =
    if c == b'-'
    then parse_negative bits (d ∷ cs)
    else if c == b'+'
    then parse_positive bits (d ∷ cs)
    else parse_positive bits (c ∷ d ∷ cs)

unfoldable pub parse_i64 : Text → Result Text ℤ
parse_i64 cs = parse_int 64 cs

unfoldable pub deltas_of : ℕ → List Text → List Delta
deltas_of op rows = map (λ r. record { op = op; row_json = r }) rows

-- What an upserted group reports: its rows before as deletes and, while it has rows, the new one.
unfoldable pub group_deltas : List Text → Text → ℤ → List Delta
group_deltas previous new_row new_count =
    deltas_of b'D' previous ++ (if is_positive new_count then deltas_of b'I' (new_row ∷ []) else [])

module _ (spi : Spi) where
  open spi use {quote_identifier}

  unfoldable pub delete_by_key_sql : Text → Text → Text
  delete_by_key_sql name conds = concat (
      codes "DELETE FROM "
      ∷ name
      ∷ codes " AS v WHERE "
      ∷ conds
      ∷ codes " RETURNING to_jsonb(v)::text"
      ∷ [])

  unfoldable pub insert_row_sql : Text → Text
  insert_row_sql name = concat (
      codes "INSERT INTO "
      ∷ name
      ∷ codes " AS v SELECT * FROM jsonb_populate_record(NULL::"
      ∷ name
      ∷ codes ", $1::jsonb) RETURNING to_jsonb(v)::text"
      ∷ [])

  unfoldable pub delete_row_sql : ViewTarget → Text
  delete_row_sql view = concat (
      codes "DELETE FROM "
      ∷ view.name
      ∷ codes " AS v USING jsonb_populate_record(NULL::"
      ∷ view.name
      ∷ codes ", $1::jsonb) AS d WHERE "
      ∷ join (codes " AND ") (
          map
            (λ c.
              concat (codes "v." ∷ quote_identifier c ∷ codes " = d." ∷ quote_identifier c ∷ []))
            view.spec.pk_view_columns)
      ∷ codes " RETURNING to_jsonb(v)::text"
      ∷ [])

  unfoldable pub projection_row : ViewTarget → ℤ → Text → Action spi (List Delta)
  projection_row view sign row_json =
      if is_positive sign
      then bind spi (returning_text spi (insert_row_sql view.name) (some row_json ∷ []))
          (λ rows. pure spi (deltas_of b'I' rows))
      else bind spi (returning_text spi (delete_row_sql view) (some row_json ∷ []))
          (λ rows. pure spi (deltas_of b'D' rows))

  -- `WITH src AS ..`, the row as a table.
  unfoldable pub source_cte : Text → Text
  source_cte name = concat (
      codes "WITH src AS (SELECT * FROM jsonb_populate_record(NULL::"
      ∷ name
      ∷ codes ", $1::jsonb))"
      ∷ [])

  unfoldable pub previous_sql : ViewTarget → Text
  previous_sql view = concat (
      source_cte view.name
      ∷ codes " SELECT to_jsonb(v)::text FROM "
      ∷ view.name
      ∷ codes " AS v JOIN src ON "
      ∷ join (codes " AND ") (
          map
            (λ c. concat (
              codes "v."
              ∷ quote_identifier c.alias
              ∷ codes " IS NOT DISTINCT FROM src."
              ∷ quote_identifier c.alias
              ∷ []))
            view.spec.columns)
      ∷ [])

  unfoldable pub scaled : ℤ → Text → Text
  scaled sign a = concat (codes "(" ∷ signed_text sign ∷ codes ") * " ∷ a ∷ [])

  -- `a = v.a + EXCLUDED.a`.
  unfoldable pub added : Text → Text
  added a = concat (a ∷ codes " = v." ∷ a ∷ codes " + EXCLUDED." ∷ a ∷ [])

  -- The columns, the selected values and the updates of a sum and its counter.
  unfoldable pub added_sum : Text → Text → Text
  added_sum a nn = concat (
      a
      ∷ codes " = CASE WHEN v."
      ∷ nn
      ∷ codes " + EXCLUDED."
      ∷ nn
      ∷ codes " = 0 THEN NULL WHEN EXCLUDED."
      ∷ a
      ∷ codes " IS NULL THEN v."
      ∷ a
      ∷ codes " WHEN v."
      ∷ a
      ∷ codes " IS NULL THEN EXCLUDED."
      ∷ a
      ∷ codes " ELSE v."
      ∷ a
      ∷ codes " + EXCLUDED."
      ∷ a
      ∷ codes " END"
      ∷ [])

  -- What one aggregate adds to the three lists.
  unfoldable pub sum_columns : List SumSpec → List Text
  sum_columns [] = []
  sum_columns (su ∷ sums) =
      quote_identifier su.alias ∷ quote_identifier su.counter ∷ sum_columns sums

  unfoldable pub sum_updates : List SumSpec → List Text
  sum_updates [] = []
  sum_updates (su ∷ sums) =
      added_sum (quote_identifier su.alias) (quote_identifier su.counter)
      ∷ added (quote_identifier su.counter)
      ∷ sum_updates sums

  -- The count, the counts and the sums with their counters, in this order.
  unfoldable pub measures : ViewSpec → Text → List Text
  measures spec count =
      (count ∷ []) ++ (map (λ c. quote_identifier c.alias) spec.counts ++ sum_columns spec.sums)

  unfoldable pub measure_updates : ViewSpec → Text → List Text
  measure_updates spec count =
      (added count ∷ [])
      ++ (map (λ c. added (quote_identifier c.alias)) spec.counts ++ sum_updates spec.sums)

  unfoldable pub upsert_sql : ViewTarget → ℤ → Text → Text
  upsert_sql view sign count =
      let groups : List Text = map (λ c. quote_identifier c.alias) view.spec.columns in
      concat (
        source_cte view.name
        ∷ codes " INSERT INTO "
        ∷ view.name
        ∷ codes " AS v ("
        ∷ join (codes ", ") (groups ++ measures view.spec count)
        ∷ codes ") SELECT "
        ∷ join (codes ", ") (groups ++ map (scaled sign) (measures view.spec count))
        ∷ codes " FROM src ON CONFLICT ("
        ∷ join (codes ", ") groups
        ∷ codes ") DO UPDATE SET "
        ∷ join (codes ", ") (measure_updates view.spec count)
        ∷ codes " RETURNING to_jsonb(v)::text || ' ' || v."
        ∷ count
        ∷ codes "::text"
        ∷ [])

  unfoldable pub cleanup_sql : Text → Text → Text
  cleanup_sql name count =
      concat (codes "DELETE FROM " ∷ name ∷ codes " AS v WHERE v." ∷ count ∷ codes " <= 0" ∷ [])

  -- The row and the count that the upsert returned.
  unfoldable pub split_returned : Text → Result Text (Text × ℤ)
  split_returned returned =
      ok_or (rsplit_once b' ' returned) (codes "unexpected RETURNING shape") >>= λ parts.
      elim (parse_i64 parts.1) [ err e ↦ err (codes "bad count: " ++ e) | ok n ↦ ok (parts.0, n) ]

  -- An empty group is deleted.
  unfoldable pub group_cleanup : Text → Text → ℤ → Action spi (Unit {0})
  group_cleanup name count new_count tables =
      if is_positive new_count
      then ok (tt, tables)
      else elim (execute_cached spi (cleanup_sql name count) [] tables) [
        | err e ↦ err (codes "group cleanup failed: " ++ e)
        | ok r ↦ ok r
      ]

  unfoldable pub after_upsert : Text → Text → List Text → List Text → Action spi (List Delta)
  after_upsert name count previous [] = pure spi []
  after_upsert name count previous (returned ∷ others) =
      bind spi (lift spi (split_returned returned)) (λ r.
        bind spi (group_cleanup name count r.1) (λ _. pure spi (group_deltas previous r.0 r.1)))

  unfoldable pub aggregate_row : ViewTarget → ℤ → Text → Action spi (List Delta)
  aggregate_row view sign row_json =
      bind spi (lift spi (ok_or view.spec.count_alias (codes "aggregate view without count(*)")))
        (λ alias.
          let count : Text = quote_identifier alias in
          bind spi (returning_text spi (previous_sql view) (some row_json ∷ [])) (λ previous.
            bind spi (returning_text spi (upsert_sql view sign count) (some row_json ∷ []))
              (λ returned. after_upsert view.name count previous returned)))

  unfoldable pub execute_op : ViewTarget → Op → Action spi (List Delta)
  execute_op view (delete_by_key conds values) =
      bind spi (returning_text spi (delete_by_key_sql view.name conds) values)
        (λ rows. pure spi (deltas_of b'D' rows))
  execute_op view (row sign row_json) = elim view.spec.shape [
    | projection ↦ projection_row view sign row_json
    | aggregate ↦ aggregate_row view sign row_json
  ]

  unfoldable pub execute : ViewTarget → List Op → Action spi (List Delta)
  execute view [] = pure spi []
  execute view (op ∷ ops) =
      bind spi (execute_op view op) (λ ds. bind spi (execute view ops) (λ es. pure spi (ds ++ es)))
