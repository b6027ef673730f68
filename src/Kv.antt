-- ===== src/Kv.antt =====
-- The key browser of the v3 API (internal/kvmanager/types.go and client_v3.go).
pub mod Split
pub mod Tree
pub mod Client
pub mod ClientV2
pub mod Handler
