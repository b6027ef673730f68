-- ===== src/Auth/Handler/Login/Safety.antt =====
-- Who gets a session from a login.
use etcdmonitor.Prelude.{
  ◌≢◌, ℕ, String, true, false, some, ok, arith, eq_iff, nat_eq, string_eq, ℤ, pos, negsuc, ◌≡◌,
  refl, lookup-insert, Option-cases, inl, inr, Bool-cases,
}
use etcdmonitor.Storage.Users.{User, exec, is_locked, get_user_by_username, Message}
use etcdmonitor.Storage.Users.Lookup.{find_user}
use etcdmonitor.Auth.Sessions.{Session, create, new_session, is_expired}
use etcdmonitor.Auth.Sessions.Validity.{view}
use etcdmonitor.Auth.Password.{Bcrypt, compare_password}
use etcdmonitor.Auth.Handler.{
  AuthConfig, Context, LoginRequest, AuthState, logged_in, invalid_credentials, unknown_user,
  locked_reply, wrong_password,
}
use etcdmonitor.Auth.Handler.Effects.{after_query}
use etcdmonitor.Auth.Handler.Login.{
  expires_at_unix, effective_timeout, session_reply, issue_session, must_change_reply, login_user,
  handle_login,
}

-- The token of a reply stands for a session of this user.
pub record Issued (ctx : Context) (user : User) (username token : String) (s : AuthState)
    : Type 0 where
  pub session : Session
  pub live : view ctx.now token s.sessions ≡ some session
  pub owner : session.user_id ≡ user.id
  pub login_name : session.username ≡ username

module _ (cfg : AuthConfig) (ctx : Context) (user : User) (username name token : String)
    (end : ℕ) where
  session_reply-Issued :
      (timeout : ℤ) (s : AuthState)
      → (session_reply cfg ctx username s
          (create ctx.now ctx.random_token user.id username timeout s.sessions)).0.body
        ≡ logged_in name end token
      → Issued ctx user username token
          (session_reply cfg ctx username s
            (create ctx.now ctx.random_token user.id username timeout s.sessions)).1
  unfolding session_reply create view is_expired
  session_reply-Issued (negsuc n) s h = absurd (ground arith)
  session_reply-Issued (pos t) s h = record {
    session = new_session ctx.now token user.id username t;
    live = ground (
      arith,
      eq_iff token token,
      lookup-insert token token (new_session ctx.now token user.id username t) s.sessions.sessions,
    );
    owner = refl;
    login_name = refl;
  }

-- The exits that issue no session.
locked_no_session :
    (ctx : Context) (op username : String) (user : User) (s : AuthState) (name token : String)
    (end : ℕ)
    → (locked_reply ctx op username user s).0.body ≢ logged_in name end token
unfolding locked_reply
locked_no_session ctx op username user s name token end = ground arith

wrong_no_session :
    (cfg : AuthConfig) (ctx : Context) (op username : String) (msg : Message) (s : AuthState)
    (name token : String) (end : ℕ)
    → (wrong_password cfg ctx op username msg s).0.body ≢ logged_in name end token
unfolding wrong_password
wrong_no_session cfg ctx op username msg s name token end = ground arith

change_no_session :
    (ctx : Context) (user : User) (username : String) (s : AuthState) (name token : String)
    (end : ℕ)
    → (must_change_reply ctx user username s).0.body ≢ logged_in name end token
unfolding must_change_reply
change_no_session ctx user username s name token end = ground arith

unknown_no_session :
    (ctx : Context) (op username : String) (msg : Message) (s : AuthState) (name token : String)
    (end : ℕ)
    → (unknown_user ctx op username msg s).0.body ≢ logged_in name end token
unfolding unknown_user
unknown_no_session ctx op username msg s name token end = ground arith

-- The account behind a session: it is in the table, unlocked, with the right password and no
-- pending change of it.
pub record Authenticated (b : Bcrypt) (ctx : Context) (req : LoginRequest) (s : AuthState)
    (token : String) (final : AuthState) : Type 0 where
  pub user : User
  pub found : find_user req.username s.store ≡ some user
  pub unlocked : is_locked user ctx.now ≡ false
  pub password : compare_password b user.password_hash req.password ≡ true
  pub settled : user.must_change_password ≡ false
  pub issued : Issued ctx user req.username token final

module _ (b : Bcrypt) (cfg : AuthConfig) (ctx : Context) (req : LoginRequest) where
  -- Where each outcome of the checks leads.
  pub login_user-locked :
      (s : AuthState) (user : User)
      → is_locked user ctx.now ≡ true
      → login_user b cfg ctx req s (ok user) ≡ locked_reply ctx "login" req.username user s
  unfolding login_user
  login_user-locked s user h = rw h

  pub login_user-wrong :
      (s : AuthState) (user : User)
      → is_locked user ctx.now ≡ false
      → compare_password b user.password_hash req.password ≡ false
      → login_user b cfg ctx req s (ok user)
        ≡ wrong_password cfg ctx "login" req.username invalid_credentials s
  unfolding login_user
  login_user-wrong s user h p = rw (h, p)

  pub login_user-must_change :
      (s : AuthState) (user : User)
      → is_locked user ctx.now ≡ false
      → compare_password b user.password_hash req.password ≡ true
      → user.must_change_password ≡ true
      → login_user b cfg ctx req s (ok user) ≡ must_change_reply ctx user req.username s
  unfolding login_user
  login_user-must_change s user h p m = rw (h, p, m)

  pub login_user-issue :
      (s : AuthState) (user : User)
      → is_locked user ctx.now ≡ false
      → compare_password b user.password_hash req.password ≡ true
      → user.must_change_password ≡ false
      → login_user b cfg ctx req s (ok user) ≡ issue_session cfg ctx user req.username s
  unfolding login_user
  login_user-issue s user h p m = rw (h, p, m)

  module _ (name token : String) (end : ℕ) where
    login_user-Authenticated :
        (s0 s : AuthState) (user : User)
        → find_user req.username s0.store ≡ some user
        → (login_user b cfg ctx req s (ok user)).0.body ≡ logged_in name end token
        → Authenticated b ctx req s0 token (login_user b cfg ctx req s (ok user)).1
    unfolding issue_session
    login_user-Authenticated s0 s user found h = elim (Bool-cases (is_locked user ctx.now)) [
      | inl locked ↦ absurd (no_locked (rw (login_user-locked s user locked) at h))
      | inr free ↦ elim (Bool-cases (compare_password b user.password_hash req.password)) [
        | inr wrong ↦ absurd (no_wrong (rw (login_user-wrong s user free wrong) at h))
        | inl right ↦ elim (Bool-cases user.must_change_password) [
          | inl must ↦ absurd (no_change (rw (login_user-must_change s user free right must) at h))
          | inr settled ↦ rw (login_user-issue s user free right settled) (record {
            user = user;
            found = found;
            unlocked = free;
            password = right;
            settled = settled;
            issued =
                session_reply-Issued cfg ctx user req.username name token end
                  (effective_timeout cfg.session_timeout) _
                  (rw (login_user-issue s user free right settled) at h);
          })
        ]
      ]
    ]
      where
        no_locked :
            (locked_reply ctx "login" req.username user s).0.body ≡ logged_in name end token → ⊥
        no_locked e = locked_no_session ctx "login" req.username user s name token end e

        no_wrong :
            (wrong_password cfg ctx "login" req.username invalid_credentials s).0.body
              ≡ logged_in name end token
            → ⊥
        no_wrong e =
            wrong_no_session cfg ctx "login" req.username invalid_credentials s name token end e

        no_change :
            (must_change_reply ctx user req.username s).0.body ≡ logged_in name end token → ⊥
        no_change e = change_no_session ctx user req.username s name token end e

  -- A reply that carries a session token was given to someone who presented the right password of
  -- an account that is in the table, is not locked and has no pending password change; the token
  -- then stands for a live session of that account.
  pub login-Authenticated :
      (s : AuthState) (name token : String) (end : ℕ)
      → (handle_login b cfg ctx (some req) s).0.body ≡ logged_in name end token
      → Authenticated b ctx req s token (handle_login b cfg ctx (some req) s).1
  unfolding handle_login get_user_by_username exec
  login-Authenticated s name token end h = elim (Bool-cases (s.store.fails s.store.statements)) [
    | inl down ↦ absurd (
        unknown_no_session ctx "login" req.username invalid_credentials (after_query s) name token
          end (rw down at h))
    | inr fine ↦ elim (Option-cases (find_user req.username s.store)) [
      | inl missing ↦ absurd (
          unknown_no_session ctx "login" req.username invalid_credentials (after_query s) name token
            end (rw (fine, missing) at h))
      | inr (user, found) ↦
          rw (fine, found)
            (login_user-Authenticated name token end s _ user found (rw (fine, found) at h))
    ]
  ]

effective_timeout-pos : (t : ℤ) → (n : ℕ) × (effective_timeout t ≡ pos n)
effective_timeout-pos (pos n) = (n, refl)
effective_timeout-pos (negsuc n) = (3600, refl)

-- Where the random source works, the right password gets a session.
pub issue_session-logged_in :
    (cfg : AuthConfig) (ctx : Context) (user : User) (username token : String) (s : AuthState)
    → ctx.random_token ≡ some token
    → (end : ℕ) × ((issue_session cfg ctx user username s).0.body ≡ logged_in username end token)
unfolding issue_session create
issue_session-logged_in cfg ctx user username token s h =
    let (n, e) = effective_timeout-pos cfg.session_timeout in
    (expires_at_unix (new_session ctx.now token user.id username n), rw (e, h))
