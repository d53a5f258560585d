-- ===== src/Lib.antt =====
-- A model of the core of LiteMLflow's server, an experiment tracker in Go over SQLite, with the
-- theorems that make it correct.
--
-- Parts and files. A request passes the middlewares of internal/server (Server), which ask the
-- store for sessions, workspaces and members, and reaches a handler that calls the store (Store).
--   Prelude        names passed on from the libraries, Boolean tests, lists, results, tables as
--                  lists of rows, text as lists of bytes
--   Model          internal/model/types.go: the records, ValidName and ValidKey
--   Store.Db       the tables that the run methods use, and the statements they share
--   Store.Runs     internal/store/sqlite.go (CreateRun, UpdateRun, SetRunLifecycle, SetTag, SetTags,
--                  DeleteTag) and sqlite_lineage.go (setParentRunID, syncParentRunIDFromTag)
--   Store.Replay   internal/store/sqlite_events.go: GetRunAsOf and what it undoes; its child modules
--                  hold the proof (Undo and Rows on single events, Tags and Batch on the tag
--                  methods, Methods and Create per method, History and Log, and AsOf)
--   Store.Workspaces  internal/store/workspaces.go, with Contents, Deletion and Membership
--   Store.Sessions  internal/store/sessions.go, with Expiry
--   Store.Registry  internal/store/registry.go: models, versions, stages; with Stages, Versions and
--                  Aliases
--   Server.Rbac    internal/server/rbac.go (requiredRole) and the path tests of middleware.go
--   Server.Gate    internal/server/middleware.go: authMiddlewareWithSessions, workspaceMiddleware and
--                  rbacMiddleware, composed as buildRouter of server.go does (`admit`)
--   Server.RateLimit  internal/server/ratelimit.go: allow, sweep and clientKey
--   Migrations     internal/migrations/embed.go: Load (Migrations.Load), the texts of the scripts
--                  (Scripts) and the runner; with Versions, Ran, Agrees, Upgrade, Downgrade and
--                  History on what is applied, Guard on the rollback, and Quoting
--   Store.Params   internal/store/sqlite.go: LogParam and LogParams, with Once
--   Store.Metrics  internal/store/sqlite.go: LogMetrics and GetMetricHistory, with Points on the
--                  primary key and Pages on reading page by page
--   Store.Downsample  internal/store/downsample.go: DownsampleLTTB, with Chosen
--   Store.Search   internal/store/sqlite.go: parseRunFilter and the functions below it (Filter, Values),
--                  parseRunOrder and the keyset (Order), and the query of SearchRuns (Query); Templates
--                  is the description of the WHERE clauses
--   Store.Lineage  internal/store/sqlite_lineage.go: GetRunLineageWithOptions; with Up, Down and
--                  Isolation
--   Store.Webhooks  internal/store/sqlite_lineage.go: the table of webhooks
--   Webhooks       internal/webhooks: Subscription (which events go where), Echo (echo.go), Delivery
--                  (deliver with its retries, and sync.go) and Dispatcher (the queue and threads of
--                  dispatcher.go as steps)
--   Metrics        internal/metrics/registry.go: the families (Metrics), the keys of label sets
--                  (Labels), the text of a scrape (Exposition) and the bound on series (Bound)
--   Artifact         internal/artifact/store.go: where the files of a run lie (absoluteFor; Parts,
--                  Inside) and Upload (Uploads, with Reads and Replaced)
-- A definition has the name of its Go function in small letters (GetRunAsOf: get_run_as_of).
--
-- How the code is read. A table is a list of rows in the order of insertion, and a statement a
-- function on it. A method's transaction commits as a whole, so a method is a function from a state
-- to a result, and methods follow one another. An int64 that counts milliseconds is a natural
-- number. Each reading of the clock in a method is an argument of its own. JSON payloads are data;
-- a number in them goes through a float64, as the decoder has it. In the middlewares the store, the
-- verification of passwords and the limiter are parameters, and in the limiter's keys the packages
-- net and netip; in the limiter tokens are exact where the code has float64, and the clock does not
-- run backwards.
-- In the migrations, what SQLite does with a script is a parameter, and every statement of the
-- runner but the creation of its own table and the reading of the current version may fail; in a
-- delivery, the answers of the receiver and the interruption of waits are parameters. Concurrency
-- is modelled in the dispatcher of webhooks, whose threads take their steps in any order.
-- Paths are those of Unix, no artifact is a symbolic link, and the body and the file system of an
-- upload, which may refuse any call, are arguments.
-- Metric timestamps and steps are signed integers; the values of metrics are of any type with a test
-- of being finite. Filters are ASCII text, and runs of white space in the queries are one space. In
-- the downsampling float64 is a parameter, but the bounds of buckets are exact, as they are where
-- products of counts stay below 2 ^ 53. In the metrics registry the arithmetic of float64 is a
-- parameter, and a write of the scrape does not fail.
-- Fuel: the scale of a float64 is searched in ten doublings, enough for 63 bits; a number is printed
-- in at most 19 digits, enough for an int64; a client that reads pages may ask for as many as there
-- are points, and one more, which is shown to be enough.
--
-- Not modelled: the tags, renaming, latest versions and searches of the model registry, the rows of
-- searches, the latest metrics, analytics, prompts, traces, evaluations, datasets, the reads and
-- deletions of artifacts and their store on S3, the guard of webhook addresses, OIDC, federation,
-- OTLP, the migrator, the configuration and the HTTP handlers. Errors of the database itself (disk,
-- cancelled context) are left out, but for the look-ups of the role check.
pub mod Prelude
pub mod Model
pub mod Store
pub mod Server
pub mod Migrations
pub mod Webhooks
pub mod Artifact
pub mod Metrics
