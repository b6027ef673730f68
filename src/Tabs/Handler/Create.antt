-- ===== src/Tabs/Handler/Create.antt =====
-- `handleList` and `handleCreate` (internal/kvmanager/tabs/handler.go).
pub mod Moves
pub mod Created
use Prim.Native.Char.{code}
use Prim.Native.String
use etcdmonitor.Prelude.{
  ℕ, ◌+◌, String, Bool, true, false, ◌&&◌, ◌||◌, List, [], ◌∷◌, Option, none, some, Result, ok, err,
  leb, map, ◌==◌, nat_eq, string_eq, if◌then◌else◌, length, ◌≡◌, refl,
}
use etcdmonitor.Config.{Config}
use etcdmonitor.Config.Endpoints.{trim_space, has_prefix, drop_chars}
use etcdmonitor.Tabs.Repo.{Tab, TabDb, RepoError, list_by_user, count_by_user, create}
use etcdmonitor.Tabs.Handler.{
  Env, TabState, TabResponse, Body, Response, failed, matched, listed, tab_body, reply, refuse,
  tab_to_response, default_tab_response, log_audit, in_repo, as_user, as_named_user,
  validate_scheme, scheme_of, check_member, test_code, connection,
}

listed_tabs : Config → Result RepoError (List Tab) → TabState → Response × TabState
listed_tabs cfg (err e) s = refuse 500 "INTERNAL" s
listed_tabs cfg (ok tabs) s =
    (reply 200 (listed (default_tab_response cfg ∷ map tab_to_response tabs)), s)

unfoldable pub list_tabs : Config → ℕ → TabState → Response × TabState
unfolding listed_tabs
list_tabs cfg user s = in_repo (list_by_user user) s (listed_tabs cfg)

unfoldable pub handle_list : Config → Env → TabState → Response × TabState
unfolding as_user list_tabs
handle_list cfg env s = as_user env (list_tabs cfg) s

pub record CreateTabRequest : Type 0 where
  pub endpoint : String
  pub name : String
  pub username : String
  pub password : String

-- `strings.TrimPrefix` and the cut at the first `:` or `/`
abbrev trim_prefix : ℕ → String → String → String
trim_prefix n p s = if has_prefix p s then drop_chars n s else s

unfoldable pub before_port : String → String
before_port String.[] = String.[]
before_port (String.◌∷◌ c s) =
    let rest = before_port s in
    if code c == 58 || code c == 47 then String.[] else String.◌∷◌ c rest

unfoldable pub host_of : Env → String → String
unfolding before_port
host_of env endpoint =
    let trimmed = trim_space endpoint in
    let h = if env.has_host trimmed then env.hostname trimmed else "" in
    if h == ""
    then before_port (
        trim_prefix 7 "HTTP://"
          (trim_prefix 8 "HTTPS://" (trim_prefix 7 "http://" (trim_prefix 8 "https://" endpoint))))
    else h

abbrev pub tab_limit : ℕ
tab_limit = 10

-- The `Tab` that the handler fills in; the repository sets the rest.
abbrev pub new_tab : Env → ℕ → String → String → String → List ℕ → Tab
new_tab env user endpoint name username cipher = record {
  id = "";
  created_by_user_id = user;
  name = name;
  endpoint = endpoint;
  username = username;
  password_cipher = cipher;
  sort_order = 0;
  last_status = "ok";
  last_error = "";
  last_checked_at = env.now;
  created_at = 0;
  updated_at = 0;
}

module _ (cfg : Config) (env : Env) (user : ℕ) (username : String) (req : CreateTabRequest) where
  abbrev pub new_endpoint : String
  new_endpoint = trim_space req.endpoint

  abbrev pub new_name : String
  new_name = let name = trim_space req.name in if name == "" then host_of env new_endpoint else name

  -- `scheme=%s username=%s password=***`
  attempt : String
  attempt = String.◌++◌ "scheme=" (
      String.◌++◌ (scheme_of new_endpoint)
        (String.◌++◌ " username=" (String.◌++◌ req.username " password=***")))

  audit : String → String → String → Bool → TabState → TabState
  audit target params result success s =
      log_audit env username "kv_tab_create" target params result env.elapsed_ms success s

  stored : Bool → Result RepoError Tab → TabState → Response × TabState
  unfolding audit
  stored degraded (err e) s = refuse 500 "INTERNAL" s
  stored degraded (ok t) s = (
    reply 201 (tab_body (tab_to_response t) degraded),
    audit t.id
        (String.◌++◌ "scheme=" (
          String.◌++◌ (scheme_of new_endpoint) (
            String.◌++◌ " endpoint=" (
              String.◌++◌ new_endpoint
                (String.◌++◌ " username=" (String.◌++◌ req.username " password=***"))))))
        "ok" true s,
  )

  encrypted : Bool → Result String (List ℕ) → TabState → Response × TabState
  unfolding stored
  encrypted degraded (err e) s = refuse 500 "ENCRYPT_FAILED" s
  encrypted degraded (ok cipher) s =
      in_repo (create env.now env.uuid (new_tab env user new_endpoint new_name req.username cipher))
        s (stored degraded)

  -- Encrypting and storing, where no member of the default cluster matches.
  unmatched : Option String × Bool → TabState → Response × TabState
  unfolding audit encrypted
  unmatched (some url, degraded) s = (
    reply 409 (matched url),
    audit new_endpoint
        (String.◌++◌ "scheme=" (String.◌++◌ (scheme_of new_endpoint) (String.◌++◌ " matched=" url)))
        "belongs_to_default" false s,
  )
  unmatched (none, degraded) s = encrypted degraded (env.encrypt req.password) s

  connected : String × String → TabState → Response × TabState
  unfolding unmatched attempt audit
  connected (status, err_msg) s =
      if status == "ok"
      then (let r = check_member cfg env new_endpoint s in unmatched r.0 r.1)
      else (
        reply 400 (failed (test_code status)),
        audit new_endpoint attempt (String.◌++◌ status (String.◌++◌ ": " err_msg)) false s,
      )

  counted : Result RepoError ℕ → TabState → Response × TabState
  unfolding connected audit
  counted (err e) s = refuse 500 "INTERNAL" s
  counted (ok n) s =
      if leb tab_limit n
      then (
        reply 409 (failed "KV_TAB_LIMIT_EXCEEDED"),
        audit new_endpoint "per-user limit reached" "limit_exceeded" false s,
      )
      else connected (env.test (connection new_endpoint req.username req.password)) s

  unfoldable pub create_tab : TabState → Response × TabState
  unfolding counted audit attempt
  create_tab s =
      if validate_scheme env new_endpoint then in_repo (count_by_user user) s counted else (
        reply 400 (failed "KV_TAB_INVALID_SCHEME"),
        audit new_endpoint attempt "invalid_scheme" false s,
      )

-- `none` is a body that does not bind: no JSON, or an empty endpoint.
unfoldable pub create_body :
    Config → Env → Option CreateTabRequest → ℕ → String → TabState → Response × TabState
unfolding create_tab
create_body cfg env none user username s = refuse 400 "BAD_REQUEST" s
create_body cfg env (some req) user username s = create_tab cfg env user username req s

unfoldable pub handle_create :
    Config → Env → Option CreateTabRequest → TabState → Response × TabState
unfolding create_body as_named_user
handle_create cfg env body s = as_named_user env (create_body cfg env body) s
