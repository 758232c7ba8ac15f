-- ===== src/Io.antt =====
-- The parts of Go's standard library that the wire codec stands on: errors, readers and writers.
pub mod Errors
pub mod Readers
pub mod Writers
pub mod Conn
pub mod Buffered
