-- ===== src/Util.antt =====
-- src/util.c and include/util.h: JSON escaping and the growing JSON text buffer. `now_us` reads the
-- clock, and is an argument where it is used.
pub mod Escape
pub mod Json
pub mod Builder
pub mod Growth
pub mod Room
mod Tests
