-- ===== src/Auth/Handler/Login/Frame.antt =====
-- What a login leaves as it is: the rows of other accounts, and who every account is.
use etcdmonitor.Prelude.{
  String, some, Result, ok, err, ◌≢◌, map, nat_eq, string_eq, ◌≡◌, inl, inr, Bool-cases,
}
use etcdmonitor.Storage.Users.{
  User, DbError, is_locked, get_user_by_username, reset_login_state, update_last_login,
}
use etcdmonitor.Storage.Users.Lookup.{find_user, users-get_user}
use etcdmonitor.Storage.Users.Trail.{
  done, Trail-trans, IsBookkeeping, identity, Trail-identity, Trail-others, reset_login_state-Trail,
  update_last_login-Trail,
}
use etcdmonitor.Auth.Sessions.{Session, MemorySessionStore, SessionError, create}
use etcdmonitor.Auth.Password.{Bcrypt, compare_password}
use etcdmonitor.Auth.Handler.{AuthConfig, Context, AuthState, LoginRequest}
use etcdmonitor.Auth.Handler.Effects.{users-log_audit}
use etcdmonitor.Auth.Handler.Login.{
  effective_timeout, session_reply, issue_session, must_change_reply, login_user, handle_login,
}
use etcdmonitor.Auth.Handler.Login.Safety.{
  login_user-locked, login_user-wrong, login_user-must_change, login_user-issue,
}
use etcdmonitor.Auth.Handler.Frame.{Kept, wrong_password-Kept, locked_reply-Kept, unknown_user-Kept}

module _ (cfg : AuthConfig) (ctx : Context) (username : String) where
  must_change_reply-Kept :
      (user : User) (s : AuthState)
      → Kept username s.store (must_change_reply ctx user username s).1.store
  unfolding must_change_reply
  must_change_reply-Kept user s = done (users-log_audit ctx _ _ _ _ _ _ _)

  session_reply-Kept :
      (s : AuthState) (r : Result SessionError Session × MemorySessionStore)
      → Kept username s.store (session_reply cfg ctx username s r).1.store
  unfolding session_reply
  session_reply-Kept s (err e, m) = done (users-log_audit ctx _ _ _ _ _ _ _)
  session_reply-Kept s (ok e, m) = done (users-log_audit ctx _ _ _ _ _ _ _)

  issue_session-Kept :
      (user : User) (s : AuthState)
      → Kept username s.store (issue_session cfg ctx user username s).1.store
  unfolding issue_session
  issue_session-Kept user s =
      let s1 = (reset_login_state ctx.now username s.store).1 in
      let s2 = (update_last_login ctx.now username s1).1 in
      Trail-trans IsBookkeeping username (reset_login_state-Trail ctx.now username s.store) (
        Trail-trans IsBookkeeping username (update_last_login-Trail ctx.now username s1) (
          session_reply-Kept (record s { store = s2 })
            (create ctx.now ctx.random_token user.id username
              (effective_timeout cfg.session_timeout) s.sessions)))

module _ (b : Bcrypt) (cfg : AuthConfig) (ctx : Context) (req : LoginRequest) where
  login_user-Kept :
      (s : AuthState) (r : Result DbError User)
      → Kept req.username s.store (login_user b cfg ctx req s r).1.store
  unfolding login_user
  login_user-Kept s (err e) = unknown_user-Kept cfg ctx req.username "login" _ s
  login_user-Kept s (ok user) = elim (Bool-cases (is_locked user ctx.now)) [
    | inl locked ↦
        rw (login_user-locked b cfg ctx req s user locked)
          (locked_reply-Kept cfg ctx req.username "login" user s)
    | inr free ↦ elim (Bool-cases (compare_password b user.password_hash req.password)) [
      | inr wrong ↦
          rw (login_user-wrong b cfg ctx req s user free wrong)
            (wrong_password-Kept cfg ctx req.username "login" _ s)
      | inl right ↦ elim (Bool-cases user.must_change_password) [
        | inl must ↦
            rw (login_user-must_change b cfg ctx req s user free right must)
              (must_change_reply-Kept cfg ctx req.username user s)
        | inr settled ↦
            rw (login_user-issue b cfg ctx req s user free right settled)
              (issue_session-Kept cfg ctx req.username user s)
      ]
    ]
  ]

  handle_login-Kept :
      (s : AuthState) → Kept req.username s.store (handle_login b cfg ctx (some req) s).1.store
  unfolding handle_login
  handle_login-Kept s =
      Trail-trans IsBookkeeping req.username (done (users-get_user req.username s.store))
        (login_user-Kept _ (get_user_by_username req.username s.store).0)

  -- A login, whatever its outcome and whichever statements fail, keeps the id, name, hash, role and
  -- pending change of every account, and the whole row of every account but the one it names.
  pub login_frame :
      (s : AuthState)
      → let final = (handle_login b cfg ctx (some req) s).1 in
        (map identity final.store.users ≡ map identity s.store.users)
        × ((other : String)
            → other ≢ req.username
            → find_user other final.store ≡ find_user other s.store)
  login_frame s = (
    Trail-identity (handle_login-Kept s),
    λ other ne. Trail-others other ne (handle_login-Kept s),
  )
