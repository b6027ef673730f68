-- ===== src/Auth/Handler/Login.antt =====
-- `HandleLogin` (internal/auth/handler.go).
pub mod Safety
pub mod Lockout
pub mod Frame
use etcdmonitor.Prelude.{
  ℕ, zero, suc, ◌+◌, ◌-◌, ◌*◌, ◌/◌, String, Bool, true, false, List, [], ◌∷◌, Option, none, some,
  Result, ok, err, ltb, leb, ◌==◌, nat_eq, string_eq, if◌then◌else◌, ℤ, pos, negsuc, is_neg,
  positive_or, ◌≡◌, refl,
}
use etcdmonitor.Storage.Users.{
  User, Storage, AuditEntry, Message, text, locked_for, DbError, is_locked, get_user_by_username,
  increment_failed_attempts, set_locked, reset_login_state, update_last_login, update_password,
  store_audit_log,
}
use etcdmonitor.Auth.Sessions.{
  Session, MemorySessionStore, SessionError, Request, create, get, delete, extract_token,
}
use etcdmonitor.Auth.Password.{Bcrypt, hash_password, compare_password}
use etcdmonitor.Auth.Handler.{
  AuthConfig, AuthState, AuthStatus, Body, ChangePasswordRequest, Context, Cookie, Lifetime,
  LoginRequest, Response, format_locked_error, handle_failed_attempt, invalid_credentials,
  invalid_old_password, lock_at_threshold, locked_reply, log_audit, note_lockout, reply,
  unknown_user, wrong_password, max_age, expires, session_cookie, cleared, error, too_short,
  must_change, logged_in, message, status_body,
}

-- A negative timeout stands for one hour.
abbrev effective_timeout : ℤ → ℤ
effective_timeout t = if is_neg t then pos 3600 else t

abbrev pub lifetime : Session → Lifetime
lifetime session = elim session.expires_at [
  | none ↦ max_age (10 * 365 * 24 * 3600)
  | some at ↦ expires at
]

abbrev pub expires_at_unix : Session → ℕ
expires_at_unix session = elim session.expires_at [ none ↦ 0 | some at ↦ at ]

pub session_reply :
    AuthConfig
    → Context
    → String
    → AuthState
    → Result SessionError Session × MemorySessionStore
    → Response × AuthState
session_reply cfg ctx username s (err e, sessions) = (
  reply 500 (error (text "login failed")),
  record s {
    sessions = sessions;
    store =
        log_audit ctx username "login" ctx.client_ip (text "session creation failed") ctx.elapsed_ms
          false s.store;
  },
)
session_reply cfg ctx username s (ok session, sessions) = (
  record {
    status = 200;
    body = logged_in session.username (expires_at_unix session) session.token;
    cookie = some (session_cookie session.token (lifetime session) cfg.tls_enable);
  },
  record s {
    sessions = sessions;
    store = log_audit ctx username "login" ctx.client_ip (text "ok") ctx.elapsed_ms true s.store;
  },
)

-- The right password: the counters are reset and a session is issued.
unfoldable pub issue_session :
    AuthConfig → Context → User → String → AuthState → Response × AuthState
unfolding session_reply
issue_session cfg ctx user username s =
    let s1 = (reset_login_state ctx.now username s.store).1 in
    let s2 = (update_last_login ctx.now username s1).1 in
    session_reply cfg ctx username (record s { store = s2 })
      (create ctx.now ctx.random_token user.id username (effective_timeout cfg.session_timeout)
        s.sessions)

pub must_change_reply : Context → User → String → AuthState → Response × AuthState
must_change_reply ctx user username s = (
  reply 200 (must_change user.username),
  record s {
    store =
        log_audit ctx username "login" ctx.client_ip (text "must_change_password") ctx.elapsed_ms
          true s.store;
  },
)

module _ (b : Bcrypt) (cfg : AuthConfig) (ctx : Context) where
  pub login_user : LoginRequest → AuthState → Result DbError User → Response × AuthState
  unfolding unknown_user must_change_reply
  login_user req s (err e) = unknown_user ctx "login" req.username invalid_credentials s
  login_user req s (ok user) =
      if is_locked user ctx.now
      then locked_reply ctx "login" req.username user s
      else if compare_password b user.password_hash req.password
      then (if user.must_change_password
          then must_change_reply ctx user req.username s
          else issue_session cfg ctx user req.username s)
      else wrong_password cfg ctx "login" req.username invalid_credentials s

  -- The body of the request is `none` where `ShouldBindJSON` refuses it.
  unfoldable pub handle_login : Option LoginRequest → AuthState → Response × AuthState
  unfolding login_user
  handle_login none s = (reply 400 (error (text "username and password required")), s)
  handle_login (some req) s =
      let (found, store) = get_user_by_username req.username s.store in
      login_user req (record s { store = store }) found
