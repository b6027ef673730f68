-- ===== src/Tabs/Manager.antt =====
-- `Manager`: resolving a tab, probing it and keeping its status (internal/kvmanager/tabs/manager.go).
-- The key that decrypts a password and the etcd client are given from outside.
pub mod Conn
pub mod Resolution
pub mod Watch
use etcdmonitor.Prelude.{
  ℕ, zero, suc, ◌+◌, String, Bool, true, false, ◌||◌, List, [], ◌∷◌, Option, none, some, Result, ok,
  err, ltb, ◌==◌, nat_eq, string_eq, if◌then◌else◌, lookup, insert, erase,
}
use Prim.Native.String
use etcdmonitor.Storage.Table.{query_row}
use etcdmonitor.Tabs.Repo.{Tab, TabDb, RepoError, get, list_all, update_status, with_id}
use etcdmonitor.Tabs.Manager.Conn.{ConnectionConfig, Tls, tls_for_endpoint}

pub record TabManager : Type 0 where
  pub db : TabDb
  pub failure_count : List (String × ℕ)
  pub failure_threshold : ℕ

unfoldable pub new_manager : TabDb → TabManager
new_manager db = record { db = db; failure_count = []; failure_threshold = 2 }

pub data ResolveError : Type 0 where
  repo_failed : RepoError → ResolveError
  decrypt_failed : String → ResolveError
  default_failed : String → ResolveError

-- The connection of a user's tab, with the decrypted password.
abbrev pub tab_connection : Tab → String → ConnectionConfig
tab_connection tab password = record {
  endpoints = tab.endpoint ∷ [];
  username = tab.username;
  password = password;
  tls = tls_for_endpoint tab.endpoint;
  is_default = false;
}

-- A missing entry of `map[string]int` reads as 0.
abbrev pub count_or_zero : Option ℕ → ℕ
count_or_zero none = 0
count_or_zero (some n) = n

unfoldable pub reset_failure_count : String → TabManager → TabManager
reset_failure_count id m = record m { failure_count = erase id m.failure_count }

unfoldable pub failures : String → TabManager → ℕ
failures id m = count_or_zero (lookup id m.failure_count)

unfoldable pub bump_failure_count : String → TabManager → ℕ × TabManager
unfolding failures
bump_failure_count id m =
    let n = failures id m + 1 in (n, record m { failure_count = insert id n m.failure_count })

-- The error of `UpdateStatus` is only logged.
unfoldable pub store_status : ℕ → String → String → String → TabManager → TabManager
store_status now id status err_msg m = record m {
  db = (update_status id status err_msg now m.db).1;
}

-- What `Ping` keeps of an answer, for a row as it was listed.
unfoldable pub keep_answer : ℕ → String → Tab → String × String → TabManager → TabManager
unfolding reset_failure_count bump_failure_count store_status
keep_answer now tab_id target (status, err_msg) m =
    if status == "ok"
    then store_status now tab_id "ok" "" (reset_failure_count tab_id m)
    else let (n, m1) = bump_failure_count tab_id m in
      if ltb n m1.failure_threshold
      then store_status now tab_id target.last_status target.last_error m1
      else store_status now tab_id "error" (String.◌++◌ status (String.◌++◌ ": " err_msg)) m1

opened : Tab → Result String String → Result ResolveError ConnectionConfig
opened tab (err e) = err (decrypt_failed e)
opened tab (ok password) = ok (tab_connection tab password)

module _ (decrypt : List ℕ → Result String String) where
  from_tab : Result RepoError Tab → Result ResolveError ConnectionConfig
  unfolding opened
  from_tab (err e) = err (repo_failed e)
  from_tab (ok tab) = opened tab (decrypt tab.password_cipher)

  -- The default cluster's connection is given.
  unfoldable pub resolve :
      Result ResolveError ConnectionConfig
      → String
      → ℕ
      → TabManager
      → Result ResolveError ConnectionConfig × TabManager
  unfolding from_tab
  resolve default_connection tab_id user m =
      if (tab_id == "") || (tab_id == "default")
      then (default_connection, m)
      else let (found, db) = get tab_id user m.db in (from_tab found, record m { db = db })

  -- The answer of the probe, as a status and a message
  module _ (test : ConnectionConfig → String × String) where
    ping_tab : ℕ → String → Tab → Result String String → TabManager → (String × String) × TabManager
    unfolding keep_answer
    ping_tab now tab_id target (err e) m = (("unknown_error", e), m)
    ping_tab now tab_id target (ok password) m =
        let answer = test (tab_connection target password) in
        (answer, keep_answer now tab_id target answer m)

    ping_row : ℕ → String → Option Tab → TabManager → (String × String) × TabManager
    unfolding ping_tab
    ping_row now tab_id none m = (("unknown_error", "tab not found"), m)
    ping_row now tab_id (some target) m =
        ping_tab now tab_id target (decrypt target.password_cipher) m

    ping_listed :
        ℕ
        → String
        → TabManager
        → Result RepoError (List Tab) × TabDb
        → (String × String) × TabManager
    unfolding ping_row
    ping_listed now tab_id m (err _, db) = (("unknown_error", "list tabs"), record m { db = db })
    ping_listed now tab_id m (ok tabs, db) =
        ping_row now tab_id (query_row (with_id tab_id) tabs) (record m { db = db })

    -- `now` is the clock after the probe. The driver's text is left out of "list tabs: …".
    unfoldable pub ping : ℕ → String → TabManager → (String × String) × TabManager
    unfolding ping_listed
    ping now tab_id m = ping_listed now tab_id m (list_all m.db)

-- Called when a request on the tab's data ends; the default tab has no row.
unfoldable pub mark_status : ℕ → String → String → String → TabManager → TabManager
unfolding reset_failure_count store_status
mark_status now tab_id status err_msg m =
    if (tab_id == "") || (tab_id == "default")
    then m
    else let m1 = if status == "ok" then reset_failure_count tab_id m else m in
      store_status now tab_id status err_msg m1
