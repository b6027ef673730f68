-- ===== src/Kv/Handler.antt =====
-- The handlers of /api/kv/v3 and /api/kv/v2 (internal/kvmanager/handler.go): the choice of the
-- cluster by the tab of a request, the status of the tab, the audit log, and the answers.
pub mod Head
pub mod V3
pub mod V2
pub mod Routes
use Prim.Native.String
use etcdmonitor.Prelude.{
  ℕ, zero, suc, ◌+◌, String, Bool, true, false, ◌&&◌, ◌||◌, not, List, [], ◌∷◌, Option, none, some,
  Result, ok, err, ltb, ◌==◌, nat_eq, string_eq, if◌then◌else◌, ℤ, pos, negsuc,
}
use etcdmonitor.Config.Endpoints.{trim_space}
use etcdmonitor.Auth.Sessions.{Session, MemorySessionStore, Request, get, extract_token}
use etcdmonitor.Tabs.Repo.{RepoError, tab_not_found}
use etcdmonitor.Tabs.Manager.{
  TabManager, ResolveError, repo_failed, decrypt_failed, default_failed, resolve, mark_status,
}
use etcdmonitor.Tabs.Manager.Conn.{ConnectionConfig, Tls}
use etcdmonitor.Tabs.Handler.{
  Env, TabState, current_username, log_audit, log_cross_user_attempt, is_not_found,
}
use etcdmonitor.Kv.Tree.{Node, Outcome}
use etcdmonitor.Kv.Client.{ClientV3, ConnectInfo, EtcdV3}
use etcdmonitor.Kv.ClientV2.{ClientV2, EtcdV2, has_text}

-- Failures carry their code; `crashed` is a panic, and `both` a second answer written after the
-- first.
pub data Body : Type 0 where
  failed : String → Body
  connected : ConnectInfo → Body
  one_node : Node → Body
  separator_is : String → Body
  message_ok : Body
  crashed : Body
  both : Body → Body → Body

pub record Response : Type 0 where
  pub status : ℕ
  pub body : Body

abbrev pub reply : ℕ → Body → Response
reply status body = record { status = status; body = body }

-- What the handlers reach: the tabs with the sessions and the audit log, the v2 client of the
-- default cluster, and the clusters. `NewClientV2` returns a client even where it fails, so that
-- client is never nil.
pub record KvState (W : Type 0) : Type 0 where
  pub tabs : TabState
  pub v2 : ClientV2
  pub world : W

-- What does not change: etcd's clients, the v3 client of the default cluster, whether the manager
-- of tabs is set, and how `%d`, `%q` and `%v` write a number, a text and a Boolean.
pub record KvSetup (W : Type 0) : Type 0 where
  pub etcd_v3 : EtcdV3 W
  pub etcd_v2 : EtcdV2 W
  pub v3 : ClientV3
  pub tabs_enabled : Bool
  pub show_int : ℤ → String
  pub quoted : String → String

abbrev pub show_bool : Bool → String
show_bool true = "true"
show_bool false = "false"

unfoldable pub get_user_id : ℕ → Request → MemorySessionStore → ℕ × MemorySessionStore
get_user_id now request sessions =
    let token = extract_token request in
    if token == ""
    then (0, sessions)
    else let (found, rest) = get now token sessions in
      (elim found [ none ↦ 0 | some session ↦ session.user_id ], rest)

-- `writeErrorFromEtcd`
unfoldable pub error_from_etcd : String → Response
unfolding has_text
error_from_etcd text =
    if has_text "permission denied" text || has_text "etcdserver: permission denied" text
    then reply 403 (failed "permission_denied")
    else if has_text "key not found" text || has_text "Key not found" text
    then reply 404 (failed "key_not_found")
    else reply 500 (failed "")

abbrev pub body_status : Body → ℕ
body_status crashed = 500
body_status _ = 200

-- Whether a resolved name stands for the default cluster
abbrev pub is_default_tab : String → Bool
is_default_tab tab_id = (tab_id == "") || (tab_id == "default")

-- `[tab=…] key`
unfoldable pub audit_target : String → String → String
audit_target tab_id key =
    if tab_id == "default"
    then key
    else String.◌++◌ "[tab=" (String.◌++◌ tab_id (String.◌++◌ "] " key))

module _ {W : Type 0} (setup : KvSetup W) (env : Env) where
  abbrev pub Answer : Type 0
  Answer = Response × KvState W

  abbrev pub with_tabs : (TabState → TabState) → KvState W → KvState W
  with_tabs f s = record s { tabs = f s.tabs }

  unfoldable pub get_username : KvState W → String × KvState W
  get_username s =
      let r = current_username env.now env.request s.tabs.sessions in
      (r.0, record s { tabs = record s.tabs { sessions = r.1 } })

  unfoldable pub log_kv : String → String → String → String → String → Bool → KvState W → KvState W
  unfolding log_audit
  log_kv username op target params result success s =
      with_tabs (log_audit env username op target params result env.elapsed_ms success) s

  unfoldable pub mark_tab : String → String → String → KvState W → KvState W
  mark_tab tab_id status text s =
      if is_default_tab tab_id || not setup.tabs_enabled
      then s
      else with_tabs (λ t. record t { mgr = mark_status env.now tab_id status text t.mgr }) s

  unfoldable pub mark_tab_error : String → String → KvState W → KvState W
  unfolding mark_tab
  mark_tab_error tab_id text s = mark_tab tab_id "error" text s

  unfoldable pub mark_tab_ok : String → KvState W → KvState W
  unfolding mark_tab
  mark_tab_ok tab_id s = mark_tab tab_id "ok" "" s

  -- An attempt on a tab that is not the user's is written to the audit log.
  log_attempt : String → KvState W → KvState W
  unfolding get_username log_cross_user_attempt
  log_attempt tab_id s =
      let r = get_username s in with_tabs (log_cross_user_attempt env r.0 tab_id) r.1

  unresolved : String → ResolveError → KvState W → Answer
  unfolding log_attempt
  unresolved tab_id (repo_failed e) s =
      if is_not_found e
      then (reply 404 (failed "KV_TAB_NOT_FOUND"), log_attempt tab_id s)
      else (reply 500 (failed "INTERNAL"), s)
  unresolved tab_id (decrypt_failed e) s = (reply 500 (failed "INTERNAL"), s)
  unresolved tab_id (default_failed e) s = (reply 500 (failed "INTERNAL"), s)

  resolved :
      (Option ConnectionConfig → String → KvState W → Answer)
      → String
      → Result ResolveError ConnectionConfig
      → KvState W
      → Answer
  unfolding unresolved
  resolved k tab_id (err e) s = unresolved tab_id e s
  resolved k tab_id (ok connection) s = k (some connection) tab_id s

  -- A tab is resolved for a user; the name is not that of the default cluster, whose connection is
  -- not asked for here.
  for_user :
      (Option ConnectionConfig → String → KvState W → Answer) → String → ℕ → KvState W → Answer
  unfolding resolved
  for_user k tab_id user s =
      if user == 0
      then (reply 401 (failed "UNAUTHORIZED"), s)
      else let r = resolve env.decrypt (err (default_failed "")) tab_id user s.tabs.mgr in
        resolved k tab_id r.0 (record s { tabs = record s.tabs { mgr = r.1 } })

  named_tab : (Option ConnectionConfig → String → KvState W → Answer) → String → KvState W → Answer
  unfolding for_user
  named_tab k tab_id s =
      if setup.tabs_enabled
      then (let who = get_user_id env.now env.request s.tabs.sessions in
          for_user k tab_id who.0 (record s { tabs = record s.tabs { sessions = who.1 } }))
      else (reply 404 (failed "KV_TAB_NOT_FOUND"), s)

  -- `resolveClientV3` and `resolveClientV2`, and the handler that goes on with the connection of
  -- the tab, or none for the default cluster.
  unfoldable pub resolve_client :
      String → (Option ConnectionConfig → String → KvState W → Answer) → KvState W → Answer
  unfolding named_tab
  resolve_client tab_query k s =
      let tab_id = trim_space tab_query in
      if is_default_tab tab_id then k none "default" s else named_tab k tab_id s

  -- A read of the clusters that failed
  unfoldable pub read_failed : String → String → KvState W → Answer
  unfolding mark_tab_error error_from_etcd
  read_failed tab_id text s = (error_from_etcd text, mark_tab_error tab_id text s)

  -- How a write ends, with its entry in the audit log.
  unfoldable pub write_ended :
      String → String → String → String → String → Result String Body → KvState W → Answer
  unfolding mark_tab_error log_kv error_from_etcd
  write_ended username op target params tab_id (err text) s = (
    error_from_etcd text,
    log_kv username op target params text false (mark_tab_error tab_id text s),
  )
  write_ended username op target params tab_id (ok body) s =
      (reply (body_status body) body, log_kv username op target params "ok" true s)
