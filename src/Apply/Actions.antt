-- ===== src/Apply/Actions.antt =====
-- Chains of statements: actions on the tables that may fail, and how they are undone.
use nabla.Base.{Option, none, some, Text, Result, ok, err, ◌>>=◌, codes}
use nabla.Apply.Sql.{Spi, Action}

module _ (spi : Spi) where
  open spi use {Tables}

  unfoldable pub pure : {A : Type 0} → A → Action spi A
  pure a tables = ok (a, tables)

  -- A result as an action that leaves the tables as they are.
  unfoldable pub lift : {A : Type 0} → Result Text A → Action spi A
  lift (ok a) tables = ok (a, tables)
  lift (err e) tables = err e

  -- The `?` operator on statements.
  unfoldable pub bind : {A B : Type 0} → Action spi A → (A → Action spi B) → Action spi B
  bind m f tables = m tables >>= λ r. f r.0 r.1

  -- `in_subtransaction` of src/worker.rs: a failing body leaves the tables as they were.
  unfoldable pub in_subtransaction : {A : Type 0} → Action spi A → Tables → Result Text A × Tables
  in_subtransaction body tables = elim (body tables) [
    | err e ↦ (err e, tables)
    | ok r ↦ (ok r.0, r.1)
  ]

  -- A panic inside a subtransaction is caught as an error.
  unfoldable pub or_panic : {A : Type 0} → Option A → Action spi A
  or_panic none tables = err (codes "index out of bounds")
  or_panic (some a) tables = ok (a, tables)
