-- ===== src/Tabs/Handler.antt =====
-- The HTTP handlers of /api/kv/tabs (internal/kvmanager/tabs/handler.go): what they share. A
-- request is handled at one reading of the clock.
pub mod Create
pub mod Patch
pub mod Change
pub mod Effects
pub mod Rows
use Prim.Native.Char.{code}
use Prim.Native.String
use etcdmonitor.Prelude.{
  ℕ, ◌+◌, String, Bool, true, false, ◌&&◌, ◌||◌, List, [], ◌∷◌, Option, none, some, Result, ok, err,
  ltb, ◌==◌, nat_eq, string_eq, if◌then◌else◌, length, ℤ, pos, negsuc, ◌≡◌, refl,
}
use etcdmonitor.Storage.Users.{Storage, AuditEntry, text, store_audit_log}
use etcdmonitor.Auth.Sessions.{Session, MemorySessionStore, Request, get, extract_token}
use etcdmonitor.Config.{Config}
use etcdmonitor.Config.Endpoints.{etcd_endpoints, etcd_first_endpoint, trim_space}
use etcdmonitor.Tabs.Repo.{Tab, TabDb, RepoError, tab_not_found, order_mismatch}
use etcdmonitor.Tabs.Manager.{TabManager}
use etcdmonitor.Tabs.Manager.Conn.{ConnectionConfig, has_prefix_lower, tls_for_endpoint}
use etcdmonitor.Tabs.Members.{MemberCache, MemberReply, is_default_cluster_member}

-- What a request meets: the clock, its token and route, and how the calls that leave the program
-- end. `has_host` is whether `url.Parse` succeeds with a host, `hostname` what `u.Hostname()` then
-- is; `test` is `TestConnection`, and the key manager turns passwords into bytes and back.
pub record Env : Type 0 where
  pub now : ℕ
  pub elapsed_ms : ℕ
  pub request : Request
  pub route : String
  pub has_host : String → Bool
  pub hostname : String → String
  pub test : ConnectionConfig → String × String
  pub members : MemberReply
  pub uuid : Option String
  pub encrypt : String → Result String (List ℕ)
  pub decrypt : List ℕ → Result String String

-- What the handlers reach: the manager with its table, its cache of members, the database with the
-- audit log, and the sessions.
pub record TabState : Type 0 where
  pub mgr : TabManager
  pub members : MemberCache
  pub store : Storage
  pub sessions : MemorySessionStore

-- The rows of the table
abbrev pub rows : TabState → List Tab
rows s = s.mgr.db.tabs

pub record TabResponse : Type 0 where
  pub id : String
  pub name : String
  pub endpoint : String
  pub username : String
  pub has_password : Bool
  pub sort_order : ℤ
  pub last_status : String
  pub last_error : String
  pub last_checked_at : ℕ
  pub is_default : Bool
  pub created_at : ℕ
  pub updated_at : ℕ

-- A failure carries its code; its text is left out, but for the address of a matched member.
-- `crashed` is a nil pointer that is read.
pub data Body : Type 0 where
  failed : String → Body
  matched : String → Body
  listed : List TabResponse → Body
  tab_body : TabResponse → Bool → Body
  tested : String → String → Body
  done : Body
  no_content : Body
  crashed : Body

pub record Response : Type 0 where
  pub status : ℕ
  pub body : Body

abbrev pub reply : ℕ → Body → Response
reply status body = record { status = status; body = body }

abbrev pub refuse : ℕ → String → TabState → Response × TabState
refuse status name s = (reply status (failed name), s)

unfoldable pub tab_to_response : Tab → TabResponse
tab_to_response t = record {
  id = t.id;
  name = t.name;
  endpoint = t.endpoint;
  username = t.username;
  has_password = ltb 0 (length t.password_cipher);
  sort_order = pos t.sort_order;
  last_status = t.last_status;
  last_error = t.last_error;
  last_checked_at = t.last_checked_at;
  is_default = false;
  created_at = t.created_at;
  updated_at = t.updated_at;
}

unfoldable pub default_tab_response : Config → TabResponse
default_tab_response cfg = record {
  id = "default";
  name = "default";
  endpoint = etcd_first_endpoint cfg;
  username = cfg.etcd.username;
  has_password = if cfg.etcd.password == "" then false else true;
  sort_order = negsuc 0;
  last_status = "ok";
  last_error = "";
  last_checked_at = 0;
  is_default = true;
  created_at = 0;
  updated_at = 0;
}

unfoldable pub current_user_id : ℕ → Request → MemorySessionStore → Option ℕ × MemorySessionStore
current_user_id now request sessions =
    let token = extract_token request in
    if token == ""
    then (none, sessions)
    else let (found, rest) = get now token sessions in
      (
        elim found [
          | none ↦ none
          | some session ↦ if session.user_id == 0 then none else some session.user_id
        ],
        rest,
      )

unfoldable pub current_username : ℕ → Request → MemorySessionStore → String × MemorySessionStore
current_username now request sessions =
    let token = extract_token request in
    if token == ""
    then ("anonymous", sessions)
    else let (found, rest) = get now token sessions in
      (elim found [ none ↦ "anonymous" | some session ↦ session.username ], rest)

-- An error of the database is only logged.
unfoldable pub log_audit :
    Env → String → String → String → String → String → ℕ → Bool → TabState → TabState
log_audit env username op target params result duration_ms success s = record s {
  store =
      (store_audit_log
        (record {
          timestamp = env.now;
          username = username;
          operation = op;
          target = target;
          params = params;
          result = text result;
          duration_ms = duration_ms;
          success = success;
        })
        s.store).1;
}

unfoldable pub log_cross_user_attempt : Env → String → String → TabState → TabState
unfolding log_audit
log_cross_user_attempt env username target s =
    log_audit env username "kv_tab_cross_user_attempt" target (String.◌++◌ "route=" env.route)
      "forbidden" 0 false s

-- A call of the repository on the manager's table.
abbrev pub in_repo :
    {A : Type 0}
    → (TabDb → Result RepoError A × TabDb)
    → TabState
    → (Result RepoError A → TabState → Response × TabState)
    → Response × TabState
in_repo call s k = let r = call s.mgr.db in k r.0 (record s { mgr = record s.mgr { db = r.1 } })

admitted : (ℕ → TabState → Response × TabState) → Option ℕ → TabState → Response × TabState
admitted k none s = refuse 401 "UNAUTHORIZED" s
admitted k (some user) s = k user s

-- The head of a handler: a request without a user is refused, and any other goes on with the ID,
-- or with the ID and the name.
unfoldable pub as_user : Env → (ℕ → TabState → Response × TabState) → TabState → Response × TabState
unfolding admitted
as_user env k s =
    let who = current_user_id env.now env.request s.sessions in
    admitted k who.0 (record s { sessions = who.1 })

abbrev pub with_name :
    Env → (ℕ → String → TabState → Response × TabState) → ℕ → TabState → Response × TabState
with_name env k user s =
    let named = current_username env.now env.request s.sessions in
    k user named.0 (record s { sessions = named.1 })

unfoldable pub as_named_user :
    Env → (ℕ → String → TabState → Response × TabState) → TabState → Response × TabState
unfolding as_user
as_named_user env k s = as_user env (with_name env k) s

unfoldable pub validate_scheme : Env → String → Bool
validate_scheme env endpoint =
    let low = trim_space endpoint in
    if has_prefix_lower "http://" low || has_prefix_lower "https://" low
    then env.has_host endpoint
    else false

unfoldable pub scheme_of : String → String
scheme_of endpoint =
    if has_prefix_lower "https://" endpoint
    then "https"
    else if has_prefix_lower "http://" endpoint
    then "http"
    else "unknown"

-- `IsDefaultClusterMember`: the member that matches, whether the check was degraded, and the cache
-- after it.
abbrev pub check_member : Config → Env → String → TabState → (Option String × Bool) × TabState
check_member cfg env endpoint s =
    let r = is_default_cluster_member (etcd_endpoints cfg) endpoint env.now env.members s.members in
    (r.0, record s { members = r.1 })

-- The code of a failed connection test.
abbrev pub test_code : String → String
test_code status = if status == "auth_failed" then "KV_TAB_AUTH_FAILED" else "KV_TAB_UNREACHABLE"

abbrev pub connection : String → String → String → ConnectionConfig
connection endpoint username password = record {
  endpoints = endpoint ∷ [];
  username = username;
  password = password;
  tls = tls_for_endpoint endpoint;
  is_default = false;
}

abbrev pub is_not_found : RepoError → Bool
is_not_found tab_not_found = true
is_not_found _ = false

abbrev pub is_mismatch : RepoError → Bool
is_mismatch order_mismatch = true
is_mismatch _ = false

-- A repository error on a tab: one that is not the caller's is written to the audit log.
unfoldable pub repo_refusal : Env → String → String → RepoError → TabState → Response × TabState
unfolding log_cross_user_attempt
repo_refusal env username id e s =
    if is_not_found e
    then refuse 404 "KV_TAB_NOT_FOUND" (log_cross_user_attempt env username id s)
    else refuse 500 "INTERNAL" s
