-- ===== src/Auth/Handler/Logout.antt =====
-- `HandleLogout`, `HandleAuthStatus` (internal/auth/handler.go) and the middleware that guards the
-- protected routes (internal/api/api.go).
use etcdmonitor.Prelude.{
  ℕ, String, Bool, true, false, Option, none, some, ◌==◌, nat_eq, string_eq, if◌then◌else◌,
}
use etcdmonitor.Storage.Users.{text}
use etcdmonitor.Auth.Sessions.{Session, MemorySessionStore, get, delete, extract_token, is_valid}
use etcdmonitor.Auth.Handler.{
  has_file, has_file, AuthConfig, AuthState, AuthStatus, Context, Response, log_audit, reply,
  cleared, message, status_body,
}

unfoldable pub logout_token : Context → String → AuthState → Option Session × MemorySessionStore
logout_token ctx token s =
    if token == ""
    then (none, s.sessions)
    else let (found, sessions) = get ctx.now token s.sessions in (found, delete token sessions)

unfoldable pub handle_logout : Context → AuthState → Response × AuthState
unfolding logout_token
handle_logout ctx s =
    let (found, sessions) = logout_token ctx (extract_token ctx.request) s in
    (
      record { status = 200; body = message "已登出"; cookie = some cleared },
      record s {
        sessions = sessions;
        store = elim found [
          | none ↦ s.store
          | some session ↦
              if session.username == ""
              then s.store
              else log_audit ctx session.username "logout" ctx.client_ip (text "ok") 0 true s.store
        ];
      },
    )

auth_status : AuthConfig → AuthState → Option (String × ℕ) → AuthStatus
auth_status cfg s who = record {
  authenticated = who;
  initial_setup_pending = has_file s.password_file;
  app_version = cfg.version;
  ops_enabled = cfg.ops_enabled;
  etcd_auth_required = cfg.etcd_auth_required;
}

identity : Session → String × ℕ
identity session = (session.username, elim session.expires_at [ none ↦ 0 | some at ↦ at ])

unfoldable pub handle_auth_status : AuthConfig → Context → AuthState → Response × AuthState
unfolding auth_status identity
handle_auth_status cfg ctx s =
    let token = extract_token ctx.request in
    if token == ""
    then (reply 200 (status_body (auth_status cfg s none)), s)
    else let (found, sessions) = get ctx.now token s.sessions in
      (
        reply 200 (
            status_body (
              auth_status cfg s
                (elim found [ none ↦ none | some session ↦ some (identity session) ]))),
        record s { sessions = sessions },
      )

-- `authMiddleware`: whether the request goes on to a protected handler.
unfoldable pub auth_middleware : Context → AuthState → Bool × AuthState
auth_middleware ctx s =
    let token = extract_token ctx.request in
    if token == ""
    then (false, s)
    else let (valid, sessions) = is_valid ctx.now token s.sessions in
      (valid, record s { sessions = sessions })
