-- ===== src/Auth/Handler/Login/Lockout.antt =====
-- Guessing passwords: wrong ones are counted, and the account is locked at the threshold.
use etcdmonitor.Prelude.{
  ℕ, ◌+◌, String, true, false, List, [], ◌∷◌, none, some, ok, ◌≤◌, nat_eq, string_eq, positive_or,
  ◌≡◌, refl, inl, inr, Bool-cases, All,
}
use etcdmonitor.Storage.Users.{User, exec, is_locked, get_user_by_username}
use etcdmonitor.Storage.Users.Lookup.{find_user, IsHealthy}
use etcdmonitor.Auth.Password.{Bcrypt, compare_password}
use etcdmonitor.Auth.Handler.{
  AuthConfig, Context, LoginRequest, AuthState, unknown_user, locked_reply,
}
use etcdmonitor.Auth.Handler.Effects.{after_query, users-log_audit}
use etcdmonitor.Auth.Handler.Login.{login_user, handle_login}

module _ (b : Bcrypt) (cfg : AuthConfig) (ctx : Context) (req : LoginRequest) (s : AuthState) where
  pub handle_login-found :
      (u : User)
      → IsHealthy s.store
      → find_user req.username s.store ≡ some u
      → handle_login b cfg ctx (some req) s ≡ login_user b cfg ctx req (after_query s) (ok u)
  unfolding handle_login get_user_by_username exec
  handle_login-found u h e = rw (h s.store.statements, e)

  -- While an account is locked, a login for it is refused with 401 whatever the password is and
  -- whatever the database does; no session is made or dropped and no account changes.
  pub login-locked :
      (u : User)
      → find_user req.username s.store ≡ some u
      → is_locked u ctx.now ≡ true
      → let (response, final) = handle_login b cfg ctx (some req) s in
        (response.status ≡ 401)
        × (response.cookie ≡ none)
        × (final.sessions ≡ s.sessions)
        × (final.store.users ≡ s.store.users)
  unfolding handle_login get_user_by_username exec login_user unknown_user locked_reply
  login-locked u e l = elim (Bool-cases (s.store.fails s.store.statements)) [
    | inl down ↦ rw down (refl, refl, refl, users-log_audit ctx _ _ _ _ _ _ _)
    | inr fine ↦ rw (fine, e, l) (refl, refl, refl, users-log_audit ctx _ _ _ _ _ _ _)
  ]

-- Requests for login, one after the other.
pub run_logins : Bcrypt → AuthConfig → List (Context × LoginRequest) → AuthState → AuthState
run_logins b cfg [] s = s
run_logins b cfg ((ctx, req) ∷ rest) s =
    run_logins b cfg rest (handle_login b cfg ctx (some req) s).1

-- Every request names the account, has a wrong password and comes after the lock that the account
-- may have had.
abbrev pub WrongGuesses : Bcrypt → User → String → List (Context × LoginRequest) → Type 0
WrongGuesses b u username = All λ (p : Context × LoginRequest).
    (p.1.username ≡ username)
    × (compare_password b u.password_hash p.1.password ≡ false)
    × (u.locked_until ≤ p.0.now)

pub record Counted (s : AuthState) (username : String) (u : User) (guesses : ℕ) : Type 0 where
  pub user : User
  pub found : find_user username s.store ≡ some user
  pub failed : user.failed_attempts ≡ u.failed_attempts + guesses
  pub lock : user.locked_until ≡ u.locked_until
  pub hash : user.password_hash ≡ u.password_hash
  pub healthy : IsHealthy s.store

module _ (b : Bcrypt) (cfg : AuthConfig) (username : String) where
  abbrev threshold : ℕ
  threshold = positive_or 5 cfg.lockout_threshold
