-- ===== src/Db.antt =====
-- The storage engine, src/db.c and include/db.h.
pub mod Rows
pub mod Engine
pub mod Select
pub mod Rendered
pub mod Sound
pub mod Yields
pub mod Lookup
pub mod Matching
pub mod Insert
pub mod Visible
pub mod Load
pub mod Reload
pub mod Line
pub mod Durable
pub mod Steady
pub mod Reopened
pub mod Total
mod Tests
