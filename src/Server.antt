-- ===== src/Server.antt =====
-- The server's handlers, src/server.c.
pub mod Query
pub mod Requests
pub mod Answers
pub mod Restart
pub mod Table
pub mod Refine
pub mod History
pub mod Durable
pub mod Body
pub mod Arrived
pub mod Refused
pub mod Inserted
pub mod Selected
pub mod Run
pub mod Shutdown
pub mod Ends
mod Tests
mod RunTests
mod HistoryTests
