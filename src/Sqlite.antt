-- ===== src/Sqlite.antt =====
-- The storage of the directory sqlite/.
pub mod Expr
pub mod Task
pub mod Db
pub mod Databases
pub mod Query
pub mod Storage
pub mod Scheduler
