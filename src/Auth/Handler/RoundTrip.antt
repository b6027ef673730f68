-- ===== src/Auth/Handler/RoundTrip.antt =====
-- A password that was changed is the one that logs in.
use etcdmonitor.Prelude.{ℕ, String, some, arith, ◌≡◌, refl}
use etcdmonitor.Storage.Users.{is_locked}
use etcdmonitor.Storage.Users.Lookup.{IsHealthy}
use etcdmonitor.Auth.Password.{Bcrypt, compare-hash_password}
use etcdmonitor.Auth.Handler.{
  AuthConfig, Context, AuthState, LoginRequest, ChangePasswordRequest, logged_in,
}
use etcdmonitor.Auth.Handler.Effects.{after_query}
use etcdmonitor.Auth.Handler.Login.{handle_login}
use etcdmonitor.Auth.Handler.Login.Safety.{login_user-issue, issue_session-logged_in}
use etcdmonitor.Auth.Handler.Login.Lockout.{handle_login-found}
use etcdmonitor.Auth.Handler.ChangePassword.{handle_change_password}
use etcdmonitor.Auth.Handler.ChangePassword.Change.{with_password, change-Changed}

-- After a password change that was answered 200, a login with the new password gets a session: the
-- database is taken to run each later statement, and the random source to give a token.
pub login-change :
    (b : Bcrypt) (cfg : AuthConfig) (ctx later : Context) (req : ChangePasswordRequest)
    (s : AuthState) (token : String)
    → (handle_change_password b cfg ctx (some req) s).0.status ≡ 200
    → IsHealthy (handle_change_password b cfg ctx (some req) s).1.store
    → later.random_token ≡ some token
    → (end : ℕ) × ((handle_login b cfg later
          (some (record { username = req.username; password = req.new_password }))
          (handle_change_password b cfg ctx (some req) s).1).0.body
        ≡ logged_in req.username end token)
unfolding is_locked
login-change b cfg ctx later req s token done healthy random =
    let final = (handle_change_password b cfg ctx (some req) s).1 in
    let c = change-Changed b cfg ctx req s done in
    let user = with_password ctx.now c.new_hash c.user in
    let login : LoginRequest = record { username = req.username; password = req.new_password } in
    rw
      (
        handle_login-found b cfg later login final user healthy c.stored,
        login_user-issue b cfg later login (after_query final) user (ground arith)
            (compare-hash_password b req.new_password c.new_hash cfg.bcrypt_cost c.hashed) refl,
      )
      (issue_session-logged_in cfg later user req.username token (after_query final) random)
