-- ===== src/Prefs.antt =====
-- A user's choice of panels and cards, and the files that keep it (internal/prefs/prefs.go).
pub mod Panels
pub mod FileStore
