-- ===== src/Apply/Recovery.antt =====
-- `resolve_unchanged` of src/apply.rs on the old rows that PostgreSQL sends.
use nabla.Base.{
  ℕ, ◌+◌, ◌≤◌, ◌≡◌, ◌⊎◌, inl, inr, refl, map, List, [], ◌∷◌, Option, some, Bool, false, Text,
  get_elem?, length, ok, arith,
}
use nabla.Pgoutput.Types.{RelationColumn, Relation, ColumnValue, unchanged, Tuple}
use nabla.Apply.Resolve.{is_unchanged, old_value, resolve_value, resolve_from, resolve_unchanged}

-- A value as it is decoded, with the value that it stands for: it is sent, or is a marker for a
-- value that the old row has too.
abbrev pub IsSentValue : Tuple → ℕ → ColumnValue × ColumnValue → Type 0
IsSentValue old i (v, w) =
    (is_unchanged w ≡ false) × ((v ≡ w) ⊎ ((v ≡ unchanged) × (get_elem? old i ≡ some w)))

-- The values of a row, from index `i` on.
abbrev pub IsSent : Tuple → ℕ → List (ColumnValue × ColumnValue) → Type 0
IsSent old i [] = Unit {0}
IsSent old i (r ∷ rows) = IsSentValue old i r × IsSent old (i + 1) rows

abbrev pub decoded : List (ColumnValue × ColumnValue) → Tuple
decoded rows = map (λ r. r.0) rows

abbrev pub complete : List (ColumnValue × ColumnValue) → Tuple
complete rows = map (λ r. r.1) rows

resolve_value_sent :
    (col : Text) (old : Option Tuple) (mentions : Text → Bool) (i : ℕ) (v : ColumnValue)
    → is_unchanged v ≡ false
    → resolve_value col old mentions i v ≡ ok v
unfolding resolve_value
resolve_value_sent col old mentions i v h = rw h

resolve_value_old :
    (col : Text) (old : Tuple) (mentions : Text → Bool) (i : ℕ) (w : ColumnValue)
    → is_unchanged w ≡ false
    → get_elem? old i ≡ some w
    → resolve_value col (some old) mentions i unchanged ≡ ok w
unfolding resolve_value is_unchanged old_value
resolve_value_old col old mentions i w h e = rw (e, old_value) (rw h)

resolve_value-IsSentValue :
    (col : Text) (old : Tuple) (mentions : Text → Bool) (i : ℕ) (v w : ColumnValue)
    → IsSentValue old i (v, w)
    → resolve_value col (some old) mentions i v ≡ ok w
resolve_value-IsSentValue col old mentions i v w (h, inl e) =
    rw e (resolve_value_sent col (some old) mentions i w h)
resolve_value-IsSentValue col old mentions i v w (h, inr (e, f)) =
    rw e (resolve_value_old col old mentions i w h f)

resolve_from-IsSent :
    (cols : List RelationColumn) (old : Tuple) (mentions : Text → Bool) (i : ℕ)
    (rows : List (ColumnValue × ColumnValue))
    → length rows ≤ length cols
    → IsSent old i rows
    → resolve_from cols (some old) mentions i (decoded rows) ≡ some (ok (complete rows))
unfolding resolve_from
resolve_from-IsSent cols old mentions i [] fits h = refl
resolve_from-IsSent [] old mentions i (r ∷ rows) fits h = ground arith
resolve_from-IsSent (c ∷ cols) old mentions i ((v, w) ∷ rows) fits (h, hs) = rw (
  resolve_value-IsSentValue c.name old mentions i v w h,
  resolve_from-IsSent cols old mentions (i + 1) rows (omega arith) hs,
  resolve_from,
)

-- With a complete old row, the new row is recovered whole, whatever the definition mentions.
pub resolve_unchanged-IsSent :
    (rel : Relation) (old : Tuple) (mentions : Text → Bool)
    (rows : List (ColumnValue × ColumnValue))
    → length rows ≤ length rel.columns
    → IsSent old 0 rows
    → resolve_unchanged rel (decoded rows) (some old) mentions ≡ some (ok (complete rows))
unfolding resolve_unchanged
resolve_unchanged-IsSent rel old mentions rows fits h =
    resolve_from-IsSent rel.columns old mentions 0 rows fits h
