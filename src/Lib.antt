-- ===== src/Lib.antt =====
-- A model of sqlog, a log handler for Go's slog with a storage in SQLite.
--
-- The program's parts and the files that model them.
--
-- - chunk.go: `Chunk`. A chunk is a record, its counters bit patterns of 32 and 64 bits; a chain is
--   the list of the chunks from one on, as the `next` pointers link them. `Init`, `Next`, `Depth`,
--   `TTL`, `Ready`, `Lock`, `List` and `Put` are functions of those names, which run one at a time.
--   `Put` takes fuel, a round for each chunk and one more. Interleaved writers are not modelled.
-- - ingester.go: `Ingester`. A pointer to a chunk is its number in the chain that starts at the
--   root. `Ingest`, `doRoutineCheck` and the quit branch of `routineCheck` are functions on the
--   ingester and the storage, which is a parameter with the contract `Ingester.Delivery.Contract`.
--   A loop of the check takes a round for each chunk and one more; the loop of the quit branch
--   takes its fuel as an argument (`Ingester.Retries.Eventually`: from some fuel on). Sleeps, the ticker and the messages to slog are left out.
-- - expr.go and expr_parse_state.go: `Expr`. A text is its list of bytes, and the packages strings
--   and bytes are modelled on ASCII text. The parser's loop is `Expr.Parse.scan`, which takes a
--   round for each byte and one more, in each group again; it calls the methods of
--   `Expr.State`. A parser never reads its builder, so it makes a list of calls (`Expr.Call`).
--   strconv.ParseFloat is a parameter, and so is the type float64. The cache is a list.
--   `Expr.Query` is what the calls of an expression mean.
-- - sqlite/expr.go: `Sqlite.Expr`, a builder run on such a list, and `Sqlite.Expr.Meaning`, the SQL
--   and the arguments of a query by recursion on the query.
-- - memory/memory_expr.go: `Memory.Expr`, a builder run on such a list; `Memory.Expr.Eval`, the
--   evaluation, which passes on the map of an entry's fields that it writes texts to; and
--   `Memory.Expr.Semantics`, what a query asks by recursion on the query. encoding/json, ParseFloat
--   and the comparisons of float64 are a parameter, `Memory.Expr.Eval.Library`.
-- - memory/wildcard.go: `Memory.Wildcard`. Its loop takes fuel, which the evaluation has as an
--   argument; `Memory.Wildcard.Rank` has a rank that falls in each round, so that some fuel is enough
--   for each pattern and text (`Memory.Wildcard.Ending`).
-- - sqlite/storage_db.go: `Sqlite.Db`, a database with its status, its tasks and its epochs, and what
--   `connect`, `close`, `remove`, `query` and the calls on tasks do to it; `Sqlite.Db.Flush`, the
--   statement that `flush` makes of a chunk; `Sqlite.Db.Names`, the names of the files and how
--   `initDbs` reads them; `Sqlite.Databases`, `sortDbs`. What SQLite and the file system answer is a
--   parameter, and so is path.Join. A stable sort is modelled by insertion; sums of sizes are taken
--   not to overflow.
-- - sqlite/storage.go and sqlite/storage_size_check.go: `Sqlite.Storage`, where a pointer to a
--   database is its number in a list, since `dbs` and `liveDbs` share databases;
--   `Sqlite.Storage.Config`, the defaults that `New` sets.
-- - sqlite/storage_scheduler.go: `Sqlite.Scheduler`, the map of tasks and one round of
--   `doRoutineScheduledTasks`; `Sqlite.Task`, one task from when `executeDbTasks` takes it up: a
--   sequence of runs of `exec` and of cancellations between them, on an explicit state.
-- - sqlite/api_entries.go and sqlite/api_ticks.go: `Sqlite.Query`, the statements of `Entries` and
--   `Ticks` with their arguments, the databases they choose and the loops over them. The rows that
--   SQLite gives are a parameter.
-- - handler.go: `Handler`. The handlers are a list, the newest first, and a pointer to one is how
--   many were made before it. A pool of writers is a list, and an argument says which of its writers
--   it gives. The encoder, the handlers of the fan-out, the growth of a buffer and the ingester are
--   parameters.
-- - http.go: `Http`, the routes, the decoding of a query and the answers, on the calls of
--   sqlog_api.go and storage.go (`Api`). strconv's integers are `Base.Decimal`, whose 20 digits are
--   enough for 64 bits.
--
-- Not modelled: `New` and `Stop` of sqlog.go, which call the constructors and `Close` of these parts;
-- memory/memory.go, whose methods return nil and keep nothing; sqlite/storage_wal_checkpoint.go,
-- which runs one statement that changes nothing of the model; tickers, goroutines that interleave
-- within one call, and messages to slog; web/ and demo/.
pub mod Base
pub mod Chunk
pub mod Ingester
pub mod Expr
pub mod Api
pub mod Handler
pub mod Http
pub mod Memory
pub mod Sqlite
