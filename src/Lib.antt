-- ===== src/Lib.antt =====
-- nabla: a PostgreSQL extension that keeps materialized views up to date from the write-ahead
-- log. A background worker reads the committed row changes from a logical replication slot,
-- decodes them, plans what each view has to change, writes it to the view's storage table, and
-- logs the net change of each source transaction for subscribers, who follow the log with a
-- client.
--
-- The parts, and the files that model them:
-- * Pgoutput (src/pgoutput.rs): `Reader` and `decode` as a state monad over the bytes, with the
--   texts of errors as constructors; `Decoder` groups messages into transactions and keeps the
--   relations, a function from ids. Encode is the layout of the protocol's messages, written
--   independently of the decoder.
-- * Lsn (src/lsn.rs): `parse` and `format` of log positions, which are numbers below 2 ^ 64.
-- * Errors (src/errors.rs): the SQLSTATE codes, `make_sqlstate`, and the reports as values.
-- * Idle (src/idle.rs): the window in shared memory; the lock makes each access one step.
-- * Definition (src/definition.rs): Types has the types of a view's definition, Tree the nodes
--   of PostgreSQL's query tree that are read, Walk the functions over it, from
--   `reject_unsupported_clauses` to `join_key_vars`; Quals gives a join tree its meaning,
--   and JoinKeys a qual's join keys.
--   Catalog is the loop of `validate` over the base relations with `analyze` and `lookup_base`,
--   Targets the checks of the select list with `classify_aggregate`, Building and Shapes the
--   select list of the populate query for the two shapes, and Validate puts the phases together.
--   Listing, VisibleNames, Used, Loading, Growing, Stands, Projecting and Described carry a
--   proof through these phases.
-- * Apply (src/apply.rs): Sql and Actions are the statements, actions on tables that may fail;
--   Resolve is `resolve_unchanged`, Plan the functions `plan_*`, Execute is `execute` with the SQL
--   texts, Net is `net`, with Net/Rows for what deltas do to the row of a key. A subtransaction
--   is an action whose failure leaves the tables alone.
-- * Worker (src/worker.rs): Types has the rows of the catalog (sql/bootstrap.sql) and the state
--   of a round; Views the methods of `LiveView`; Catalog the statements on the catalog, written
--   out as updates of its rows; Shadows the shadow tables; Planning is `plan_change`; Steps,
--   Phases and Executing are the loop of `apply_round` over transactions, changes and views;
--   Round is `apply_round`, from loading to bookkeeping; Poll is `run_round` and the loop around
--   it.
-- * Shadow (src/shadow.rs): Server has what the transaction asks of PostgreSQL and its state,
--   the catalog and the other tables; Columns the functions on lists of columns; Tables and
--   Creating the statements, from `existing` to `ensure` and `rebuild`. The statements on
--   `nabla.shadows` are updates of its rows.
-- * Populate (src/populate.rs): Group is `load_pending` and `group`, Build is `build` with
--   `needed_columns` and `view_ddl`, Run is `populate_group`, `record_failure` and `run_pending`.
--   A transaction that fails leaves the state as it was; `run_pending` gives each group a
--   snapshot.
-- * Api (src/api.rs): Names has `find_view`, Views has `create_view`, `refresh` and the
--   functions that read a row, Waiting has `wait_for` and `await_ready` as loops over what each
--   turn finds, Closure is `refresh_closure`, Changes is `changes` with its query over the deltas
--   written out; Following puts the client's `fetch` on top of `changes`.
-- * Client (clients/rust/nabla-client/src/lib.rs): Fetch is `fetch`, Events the rest of `next`,
--   with `bootstrap`, `resync` and `classify`.
-- Base holds what all share: numbers, texts as lists of code points, lists measured by native
-- numbers, results, UTF-8.
--
-- What is a parameter: the database (a statement with its parameters returns rows or a
-- message, and changes the tables), the quoting of identifiers, `format_type`, the JSON
-- library, whose `==` is an equivalence, and `to_lowercase`. The queries of a poll are inputs:
-- the end of the log, the messages of the slot, whether its lag is too large. The client's
-- queries are inputs too, except in Api/Following, where the server's function answers them. A
-- build takes as inputs the position of its snapshot and the confirmed position of the main
-- slot, and what `definition::validate` returns; `validate` takes as a record PostgreSQL's
-- parser and analysis, names, quoting, the rows of the catalog, the deparser and
-- `flatten_join_alias_vars`; `changes` takes the `-` of jsonb. A call of Api takes the parser
-- of names, the search path, relations by name and by oid, `wal_level` and
-- `definition::validate` as a record, and whether its transaction has written.
--
-- Bounds and fuel: positions, ids and numbers are natural numbers; a 64-bit position keeps its
-- wrap-around where `parse` shifts it. Sequence numbers, 64-bit in the source, and failure
-- counts, 32-bit, are not bounded: no log reaches 2 ^ 63 deltas, and a view is stale long before
-- its counter wraps. Loops over lists are structural. The loops that print a number run on as
-- much fuel as the number, which has fewer digits. `refresh_closure` runs on twice the number of
-- rows of `nabla.view_relations` and one more: a round that does not end the loop finds a row of
-- which one side is new. Epochs, 32-bit, and reference counts are not bounded; the client reads
-- epochs below 2 ^ 31. An index out of bounds, which stops the worker's subtransaction, is an
-- error there.
--
-- Not modelled: the drop of views (src/api.rs, sql/bootstrap.sql), the registration of settings
-- (src/guc.rs); how a consistent snapshot is taken, which is PostgreSQL's; the cache of prepared
-- statements, locks and logging; a catalog statement that fails, which aborts the round or the
-- build; processes, connections and timers.
pub mod Base
pub mod Pgoutput
pub mod Lsn
pub mod Idle
pub mod Definition
pub mod Apply
pub mod Worker
pub mod Client
pub mod Api
pub mod Errors
pub mod Populate
pub mod Shadow
