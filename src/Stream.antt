-- ===== src/Stream.antt =====
-- buffer.go: the byte streams that requests are written to and responses are read from.
pub mod Whole
pub mod Types
pub mod Out
pub mod In
mod Tests
