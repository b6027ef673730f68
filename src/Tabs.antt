-- ===== src/Tabs.antt =====
-- The tabs for remote etcd clusters (internal/kvmanager/tabs).
pub mod Repo
pub mod Manager
pub mod Keys
pub mod Handler
pub mod Members
