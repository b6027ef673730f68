-- ===== src/Auth/Handler.antt =====
-- What the HTTP handlers for login, password change, logout and status share
-- (internal/auth/handler.go). A request is handled at one reading of the clock, `now`.
pub mod Login
pub mod Effects
pub mod Frame
pub mod RoundTrip
pub mod ChangePassword
pub mod Logout
pub mod Guard
use etcdmonitor.Prelude.{
  byte_len, ℕ, zero, suc, ◌+◌, ◌-◌, ◌*◌, ◌/◌, String, Bool, true, false, List, [], ◌∷◌, Option,
  none, some, Result, ok, err, ltb, leb, ◌==◌, nat_eq, string_eq, if◌then◌else◌, ℤ, pos, negsuc,
  is_neg, positive_or, ◌≡◌, refl,
}
use etcdmonitor.Storage.Users.{
  User, Storage, AuditEntry, Message, text, locked_for, DbError, is_locked, get_user_by_username,
  increment_failed_attempts, set_locked, reset_login_state, update_last_login, update_password,
  store_audit_log,
}
use etcdmonitor.Auth.Sessions.{
  Session, MemorySessionStore, SessionError, Request, create, get, delete, extract_token,
}
use etcdmonitor.Auth.Password.{Bcrypt, hash_password, compare_password}

-- The settings of `config.Config` that these handlers read.
pub record AuthConfig : Type 0 where
  pub lockout_threshold : ℤ
  pub lockout_duration_seconds : ℤ
  pub min_password_length : ℤ
  pub bcrypt_cost : ℤ
  pub session_timeout : ℤ
  pub tls_enable : Bool
  pub ops_enabled : Bool
  pub etcd_auth_required : Bool
  pub version : String

-- What a request brings beside its body: where it comes from, the clock, the token that
-- `GenerateToken` would return, and whether removing a file fails with an error other than
-- "not found".
pub record Context : Type 0 where
  pub client_ip : String
  pub now : ℕ
  pub elapsed_ms : ℕ
  pub random_token : Option String
  pub remove_fails : Bool
  pub request : Request

pub record LoginRequest : Type 0 where
  pub username : String
  pub password : String

pub record ChangePasswordRequest : Type 0 where
  pub username : String
  pub old_password : String
  pub new_password : String

-- What the handlers change: the database, the sessions, and the file with the initial password.
pub record AuthState : Type 0 where
  pub store : Storage
  pub sessions : MemorySessionStore
  pub password_file : Option String

pub data Lifetime : Type 0 where
  max_age : ℕ → Lifetime
  expires : ℕ → Lifetime

pub data Cookie : Type 0 where
  session_cookie : String → Lifetime → Bool → Cookie
  cleared : Cookie

pub record AuthStatus : Type 0 where
  pub authenticated : Option (String × ℕ)
  pub initial_setup_pending : Bool
  pub app_version : String
  pub ops_enabled : Bool
  pub etcd_auth_required : Bool

pub data Body : Type 0 where
  error : Message → Body
  too_short : ℕ → Body
  must_change : String → Body
  logged_in : String → ℕ → String → Body
  message : String → Body
  status_body : AuthStatus → Body

pub record Response : Type 0 where
  pub status : ℕ
  pub body : Body
  pub cookie : Option Cookie

abbrev pub reply : ℕ → Body → Response
reply status body = record { status = status; body = body; cookie = none }

abbrev pub invalid_credentials : Message
invalid_credentials = text "用户名或密码错误"

abbrev pub invalid_old_password : Message
invalid_old_password = text "用户名或旧密码错误"

-- `InitialPasswordFileExists`
abbrev pub has_file : Option String → Bool
has_file none = false
has_file (some _) = true

-- Minutes left, rounded up; a lock that is over has 0 left.
unfoldable pub format_locked_error : ℕ → ℕ → Message
format_locked_error now locked_until = locked_for ((locked_until - now + 59) / 60)

-- An error of the database is only logged.
unfoldable pub log_audit :
    Context → String → String → String → Message → ℕ → Bool → Storage → Storage
log_audit ctx username operation target result duration_ms success s =
    (store_audit_log
      (record {
        timestamp = ctx.now;
        username = username;
        operation = operation;
        target = target;
        params = "";
        result = result;
        duration_ms = duration_ms;
        success = success;
      })
      s).1

lock_at_threshold : AuthConfig → ℕ → String → Result DbError ℕ × Storage → Storage
lock_at_threshold cfg now username (err e, s) = s
lock_at_threshold cfg now username (ok n, s) =
    if leb (positive_or 5 cfg.lockout_threshold) n
    then (set_locked now username (now + positive_or 900 cfg.lockout_duration_seconds) s).1
    else s

unfoldable pub handle_failed_attempt : AuthConfig → ℕ → String → Storage → Storage
unfolding lock_at_threshold
handle_failed_attempt cfg now username s =
    lock_at_threshold cfg now username (increment_failed_attempts now username s)

-- The second look at the account, only for the audit log.
note_lockout : Context → String → Result DbError User × Storage → Storage
note_lockout ctx username (err e, s) = s
note_lockout ctx username (ok u, s) =
    if is_locked u ctx.now
    then log_audit ctx username "login_lockout" ctx.client_ip (text "账号已锁定") 0 true s
    else s

-- A wrong password, on both routes that take one.
unfoldable pub wrong_password :
    AuthConfig → Context → String → String → Message → AuthState → Response × AuthState
unfolding note_lockout
wrong_password cfg ctx operation username msg s =
    let s1 = handle_failed_attempt cfg ctx.now username s.store in
    let s2 = note_lockout ctx username (get_user_by_username username s1) in
    (
      reply 401 (error msg),
      record s {
        store = log_audit ctx username operation ctx.client_ip msg ctx.elapsed_ms false s2;
      },
    )

-- The account is locked: the password is not looked at.
unfoldable pub locked_reply : Context → String → String → User → AuthState → Response × AuthState
locked_reply ctx operation username user s =
    let msg = format_locked_error ctx.now user.locked_until in
    (
      reply 401 (error msg),
      record s {
        store = log_audit ctx username operation ctx.client_ip msg ctx.elapsed_ms false s.store;
      },
    )

unfoldable pub unknown_user : Context → String → String → Message → AuthState → Response × AuthState
unknown_user ctx operation username msg s = (
  reply 401 (error msg),
  record s {
    store = log_audit ctx username operation ctx.client_ip msg ctx.elapsed_ms false s.store;
  },
)
