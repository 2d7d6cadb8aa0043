-- ===== src/Shadow/Server.antt =====
-- What src/shadow.rs and src/populate.rs ask of PostgreSQL, and the transaction in which they run.
use nabla.Base.{ℕ, List, [], Option, none, some, ◌++◌, Text, Result, ok, err, codes}
use nabla.Definition.Types.{ViewSpec}
use nabla.Apply.Sql.{Spi}
use nabla.Worker.Types.{Catalog}

-- The database with, for a state of its tables: the columns of a relation in attribute order with their types
-- (`base_columns`), the oid of a relation by its name (`relation_oid`), `recordDependencyOn`, and the
-- definition that `validate` of src/definition.rs accepts.
pub record Server : Type 1 where
  pub spi : Spi
  pub columns_of : spi.Tables → ℕ → List (Text × Text)
  pub oid_of : spi.Tables → Text → Option ℕ
  pub record_dependency : ℕ → ℕ → spi.Tables → spi.Tables
  pub validate : spi.Tables → Text → Result Text ViewSpec

module _ (server : Server) where
  open server use {spi, columns_of, oid_of}

  -- The catalog of the extension and all other tables, as the transaction sees them.
  pub record State : Type 0 where
    pub catalog : Catalog
    pub tables : spi.Tables

  -- `run` with `spi_fail`: an error is raised, and caught around the whole transaction.
  unfoldable pub run : Text → State → Result Text State
  run sql st = elim (spi.query sql [] st.tables) [
    | err e ↦ err (codes "nabla: " ++ e)
    | ok (rows, tables') ↦ ok (record st { tables = tables' })
  ]

  unfoldable pub update_catalog : (Catalog → Catalog) → State → State
  update_catalog f st = record st { catalog = f st.catalog }

  -- `physical_columns`: the columns of a table by its name.
  unfoldable pub physical_columns : spi.Tables → Text → List (Text × Text)
  physical_columns tables table = elim (oid_of tables table) [
    | none ↦ []
    | some oid ↦ columns_of tables oid
  ]
