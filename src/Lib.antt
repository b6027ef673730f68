-- ===== src/Lib.antt =====
-- etcdmonitor: a monitor for etcd clusters with accounts, remote cluster tabs and preferences.
--
-- The program is one Go process. internal/api routes HTTP requests; authMiddleware lets a request
-- reach a protected handler only with a live session. internal/auth has the login, password and
-- logout handlers; they read and write the users table of internal/storage, append to its audit
-- log, and keep sessions in memory. internal/auth/bootstrap.go makes the first account before the
-- server starts. internal/kvmanager/tabs keeps, for each user, tabs for remote etcd clusters in a
-- table of the same database; its manager resolves a tab to a connection and probes the tabs, and
-- its handlers change a tab for the user of the request. internal/kvmanager reads
-- and writes the keys of the default cluster or of a tab's, by either API of etcd, and shows them as
-- a tree.
-- internal/ops runs maintenance calls on the default cluster, and its audit log is read in pages.
-- internal/prefs keeps one file of panel settings for a user, and internal/health the list of
-- usable endpoints of the monitored cluster.
--
-- Files and the code they model:
--   Prelude      Go's int as an integer, maps as association lists, results with errors, Boolean
--                tests on the native numbers and texts
--   Storage      Storage/Table: SELECT, UPDATE, DELETE and COUNT on lists of rows; Storage/Users:
--                internal/storage/user_repo.go and StoreAuditLog of internal/storage/storage.go;
--                Storage/AuditLog: QueryAuditLogs
--   Auth         Auth/Sessions: internal/auth/auth.go; Auth/Password: password.go;
--                Auth/RandomPassword: random_password.go; Auth/Bootstrap: bootstrap.go and
--                initial_password_file.go; Auth/Handler: handler.go and the middleware of
--                internal/api/api.go
--   Tabs         Tabs/Repo: internal/kvmanager/tabs/repo.go; Tabs/Manager and
--                Tabs/Members: manager.go; Tabs/Keys: keys.go; Tabs/Handler: handler.go, with
--                Create for handleList and handleCreate, Patch for handlePatch, and Change for
--                handleDelete, handleTest and handleReorder
--   Kv           internal/kvmanager. Kv/Client: client_v3.go, with Kv/Split and Kv/Tree for getTree;
--                Kv/ClientV2: client_v2.go; Kv/Handler: handler.go, with V3 and V2 for the handlers
--                of the two APIs and Routes for the table of routes
--   Ops          internal/ops/handler.go. Ops/Etcd: its calls of etcd; Ops/Members: the members it
--                knows; Ops/Cluster: the handlers that ask the cluster first
--   Prefs        internal/prefs/prefs.go: Panels for the configuration and its repair, FileStore
--                for the files
--   Health       internal/health/manager.go
--   Config       internal/config/config.go: Load with its defaults; Config/Endpoints: the
--                endpoints, NormalizeEndpoint and OpsEnabled
--   Examples     the theorems applied to small inputs, and runs of the code
--
-- How state and operations correspond. A method of a Go type is a function from its arguments and
-- the state to its result and the new state; the names are the Go names in lower case. HandleLogin
-- is Auth.Handler.Login.handle_login, SQLiteRepo.UpdateOrderByUser is
-- Tabs.Repo.update_order_by_user, and so on. A handler takes the configuration, a Context (client
-- address, clock, random token) and the state, and gives the response and the state after it. One
-- reading of the clock serves a whole request, in seconds. A method that takes a mutex for all of
-- its body is one step.
--
-- The database is its rows, in the order of their insertion, with a function that says for each
-- statement whether the driver reports an error; a statement that fails changes nothing. A
-- transaction that is rolled back, or whose commit fails, has its rows as before. Rows of equal
-- sort_order, whose order SQL leaves open, are listed as they were inserted.
--
-- Bounds and fuel. Times, ids, counts and orders are natural numbers: they come from the clock,
-- from AUTOINCREMENT and from counting, and do not come near 2^63. Settings that may be negative
-- are integers. Loops are recursion on the list they run over. GenerateInitialPassword loops until
-- it has 16 letters; the model runs over the list of buffers that the random source will give, and
-- a theorem says how much is enough.
--
-- Parameters: bcrypt, by the law that a hash accepts the password it was made of; AES-GCM, by the
-- length of its output and the law that a sealed text is opened under its key and nonce; in
-- Tabs/Manager, the function that decrypts tab passwords; the random source; the replies of etcd;
-- the outcomes of file reads and writes; JSON and YAML, whose files are the documents they decode
-- to; url.Parse, by whether it finds a host and which; in Kv, etcd's clients as records of
-- functions on a state of the clusters, of which theorems assume only what they name.
--
-- Not modelled: the text of log lines; the tab scheduler, the metric collector, the tables of metrics
-- and the handlers that read them, which stand beside the parts above; TLS loading, logging, the
-- command line and the browser code, which are glue.
pub mod Prelude
pub mod Storage
pub mod Auth
pub mod Tabs
pub mod Prefs
pub mod Health
pub mod Config
pub mod Kv
pub mod Examples
pub mod Ops
