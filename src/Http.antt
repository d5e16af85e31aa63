-- ===== src/Http.antt =====
-- HTTP, src/http.c and include/http.h.
pub mod Request
pub mod Text
pub mod Search
pub mod Arrival
pub mod Head
pub mod Accepted
pub mod Reading
pub mod Response
pub mod Extract
pub mod Body
pub mod Trim
mod Tests
mod ArrivalTests
