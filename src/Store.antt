-- ===== src/Store.antt =====
-- internal/store: the SQLite store. Runs, run tags and the event log share one database record;
-- the other tables are components of their own.
pub mod Db
pub mod Runs
pub mod Replay
pub mod Workspaces
pub mod Sessions
pub mod Registry
pub mod Webhooks
pub mod Metrics
pub mod Downsample
pub mod Search
pub mod Params
pub mod Lineage
pub mod Tests
