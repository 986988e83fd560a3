-- ===== src/Text.antt =====
-- The kernel's own C library (the strings and memory routines of the core).
mod Tests
pub mod Cstring
pub mod Bytes
