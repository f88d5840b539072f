-- ===== src/Connection.antt =====
-- Connections (src/connection.c).
pub mod Savepoint
pub mod Entering
pub mod Leaving
pub mod Nesting
pub mod Release
pub mod Tests
