-- ===== src/Auth/Handler/ChangePassword.antt =====
-- `HandleChangePassword` (internal/auth/handler.go).
pub mod Change
pub mod Frame
use etcdmonitor.Prelude.{
  byte_len, String, true, false, Option, none, some, Result, ok, err, ltb, ◌==◌, ◌&&◌, nat_eq,
  string_eq, if◌then◌else◌, positive_or,
}
use etcdmonitor.Storage.Users.{
  User, Storage, text, DbError, is_locked, get_user_by_username, update_password,
}
use etcdmonitor.Auth.Password.{Bcrypt, hash_password, compare_password}
use etcdmonitor.Auth.Handler.{
  has_file, has_file, AuthConfig, AuthState, ChangePasswordRequest, Context, Response,
  invalid_old_password, locked_reply, log_audit, reply, unknown_user, wrong_password, error,
  too_short, message,
}

delete_initial_file : Context → AuthState → AuthState
delete_initial_file ctx s =
    if ctx.remove_fails && has_file s.password_file
    then record s {
      store =
          log_audit ctx "system" "initial_password_file_deleted" "system" (text "remove failed") 0
            false s.store;
    }
    else record s {
      password_file = none;
      store =
          log_audit ctx "system" "initial_password_file_deleted" "system" (text "ok") 0 true
            s.store;
    }

pub password_updated :
    Context → User → String → AuthState → Result DbError (Unit {0}) × Storage → Response × AuthState
unfolding delete_initial_file
password_updated ctx user username s (err e, store) =
    (reply 500 (error (text "update failed")), record s { store = store })
password_updated ctx user username s (ok _, store) =
    let s1 : AuthState = record s { store = store } in
    let s2 = if user.must_change_password then delete_initial_file ctx s1 else s1 in
    (
      reply 200 (message "密码修改成功，请使用新密码登录"),
      record s2 {
        store =
            log_audit ctx username "change_password" ctx.client_ip (text "ok") ctx.elapsed_ms true
              s2.store;
      },
    )

module _ (b : Bcrypt) (cfg : AuthConfig) (ctx : Context) where
  -- The checks of the new password, which do not count as failed attempts.
  pub store_new_password : ChangePasswordRequest → User → AuthState → Response × AuthState
  unfolding password_updated
  store_new_password req user s =
      let min_len = positive_or 8 cfg.min_password_length in
      if ltb (byte_len req.new_password) min_len
      then (reply 400 (too_short min_len), s)
      else if req.new_password == req.old_password
      then (reply 400 (error (text "新密码不能与旧密码相同")), s)
      else elim (hash_password b req.new_password cfg.bcrypt_cost) [
        | none ↦ (reply 500 (error (text "密码加密失败")), s)
        | some new_hash ↦
            password_updated ctx user req.username s
              (update_password ctx.now req.username new_hash false s.store)
      ]

  pub change_user : ChangePasswordRequest → AuthState → Result DbError User → Response × AuthState
  unfolding store_new_password
  change_user req s (err e) = unknown_user ctx "change_password" req.username invalid_old_password s
  change_user req s (ok user) =
      if is_locked user ctx.now
      then locked_reply ctx "change_password" req.username user s
      else if compare_password b user.password_hash req.old_password
      then store_new_password req user s
      else wrong_password cfg ctx "change_password" req.username invalid_old_password s

  unfoldable pub handle_change_password :
      Option ChangePasswordRequest → AuthState → Response × AuthState
  unfolding change_user
  handle_change_password none s =
      (reply 400 (error (text "username, old_password and new_password required")), s)
  handle_change_password (some req) s =
      let (found, store) = get_user_by_username req.username s.store in
      change_user req (record s { store = store }) found
