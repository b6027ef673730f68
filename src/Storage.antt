-- ===== src/Storage.antt =====
-- The SQLite store (internal/storage).
pub mod Table
pub mod Users
pub mod AuditLog
