-- ===== src/Server.antt =====
-- The server's operations on its store of subscriptions (server/src): test results, maintenance,
-- selection for export, and snapshots. HTTP, locks and timers are not modelled: each operation is
-- one step on the value that the mutex guards.
pub mod Persist
pub mod Maintenance
pub mod Selection
pub mod Snapshot
pub mod Engine
pub mod Requests
pub mod Query
pub mod Backup
pub mod Subscriptions
pub mod Nodes
pub mod Dashboard
