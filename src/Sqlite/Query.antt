-- ===== src/Sqlite/Query.antt =====
-- The queries of sqlite/api_entries.go and sqlite/api_ticks.go: the filter on levels, the
-- statements, and the databases that are asked.
pub mod Levels
pub mod Entries
pub mod Ticks
mod Binding
mod Paging
mod Tests
