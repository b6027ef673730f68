-- ===== src/Examples.antt =====
-- Concrete runs: each module applies the theorems about one part of the program to small inputs.
mod Fixtures
mod Accounts
mod Sessions
mod Startup
mod Tabs
mod Rest
mod Keys
mod Settings
mod Members
mod Requests
mod Kv
mod Clusters
mod Ops
