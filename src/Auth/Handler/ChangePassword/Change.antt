-- ===== src/Auth/Handler/ChangePassword/Change.antt =====
-- A successful change of password: what it took, and what opens the account afterwards.
use etcdmonitor.Prelude.{
  byte_len, ℕ, String, true, false, some, Result, ok, err, ltb, arith, eq_iff, ◌≤◌, ◌≢◌, ◌==◌,
  nat_eq, string_eq, positive_or, ◌≡◌, refl, Option-cases, inl, inr, Bool-cases, ◌∙◌,
}
use etcdmonitor.Storage.Users.{
  User, Storage, exec, text, DbError, user_not_found, database, is_locked, get_user_by_username,
  update_password,
}
use etcdmonitor.Storage.Users.Lookup.{find_user, find_user-update_ok}
use etcdmonitor.Auth.Password.{Bcrypt, compare_password, hash_password}
use etcdmonitor.Auth.Handler.{
  AuthConfig, Context, AuthState, ChangePasswordRequest, wrong_password, locked_reply, unknown_user,
}
use etcdmonitor.Auth.Handler.Effects.{users-log_audit, after_query}
use etcdmonitor.Auth.Handler.ChangePassword.{
  delete_initial_file, password_updated, store_new_password, change_user, handle_change_password,
}

-- The account after the change.
abbrev pub with_password : ℕ → String → User → User
with_password now new_hash u = record u {
  password_hash = new_hash;
  must_change_password = false;
  failed_attempts = 0;
  locked_until = 0;
  updated_at = now;
}

pub record Changed (b : Bcrypt) (cfg : AuthConfig) (ctx : Context) (req : ChangePasswordRequest)
    (s final : AuthState) : Type 0 where
  pub user : User
  pub found : find_user req.username s.store ≡ some user
  pub unlocked : is_locked user ctx.now ≡ false
  pub old : compare_password b user.password_hash req.old_password ≡ true
  pub long : positive_or 8 cfg.min_password_length ≤ byte_len req.new_password
  pub new : req.new_password ≢ req.old_password
  pub new_hash : String
  pub hashed : hash_password b req.new_password cfg.bcrypt_cost ≡ some new_hash
  pub stored : find_user req.username final.store ≡ some (with_password ctx.now new_hash user)
  pub sessions : final.sessions ≡ s.sessions

users-delete_initial_file :
    (ctx : Context) (s : AuthState) → (delete_initial_file ctx s).store.users ≡ s.store.users
unfolding delete_initial_file
users-delete_initial_file ctx s = ground (
  arith,
  users-log_audit ctx "system" "initial_password_file_deleted" "system" (text "remove failed") 0
      false s.store,
  users-log_audit ctx "system" "initial_password_file_deleted" "system" (text "ok") 0 true s.store,
)

pub users-password_updated :
    (ctx : Context) (user : User) (username : String) (s : AuthState)
    (r : Result DbError (Unit {0}) × Storage)
    → (password_updated ctx user username s r).1.store.users ≡ r.1.users
unfolding password_updated
users-password_updated ctx user username s (err e, store) = refl
users-password_updated ctx user username s (ok _, store) =
    elim (Bool-cases user.must_change_password) [
      | inl must ↦ rw must (
          users-log_audit ctx _ _ _ _ _ _ _
          ∙ users-delete_initial_file ctx (record s { store = store }))
      | inr settled ↦ rw settled (users-log_audit ctx _ _ _ _ _ _ _)
    ]

sessions-password_updated :
    (ctx : Context) (user : User) (username : String) (s : AuthState)
    (r : Result DbError (Unit {0}) × Storage)
    → (password_updated ctx user username s r).1.sessions ≡ s.sessions
unfolding password_updated delete_initial_file
sessions-password_updated ctx user username s (err e, store) = refl
sessions-password_updated ctx user username s (ok _, store) = ground arith

password_updated-ok :
    (ctx : Context) (user : User) (username : String) (s : AuthState)
    (r : Result DbError (Unit {0}) × Storage)
    → (password_updated ctx user username s r).0.status ≡ 200
    → r.0 ≡ ok tt
unfolding password_updated
password_updated-ok ctx user username s (err e, store) h = absurd (ground arith)
password_updated-ok ctx user username s (ok tt, store) h = refl

module _ (b : Bcrypt) (cfg : AuthConfig) (ctx : Context) (req : ChangePasswordRequest) where
  store_new_password-Changed :
      (s0 s : AuthState) (user : User)
      → find_user req.username s0.store ≡ some user
      → s.store.users ≡ s0.store.users
      → s.sessions ≡ s0.sessions
      → is_locked user ctx.now ≡ false
      → compare_password b user.password_hash req.old_password ≡ true
      → (store_new_password b cfg ctx req user s).0.status ≡ 200
      → Changed b cfg ctx req s0 (store_new_password b cfg ctx req user s).1
  unfolding store_new_password update_password
  store_new_password-Changed s0 s user found same_users same_sessions free old h =
      elim (Bool-cases (ltb (byte_len req.new_password) (positive_or 8 cfg.min_password_length))) [
        | inl short ↦ absurd (ground arith)
        | inr long ↦ elim (Bool-cases (req.new_password == req.old_password)) [
          | inl same ↦ absurd (ground arith)
          | inr new ↦ elim (Option-cases (hash_password b req.new_password cfg.bcrypt_cost)) [
            | inl failed ↦ absurd (ground arith)
            | inr (new_hash, hashed) ↦
                let r = update_password ctx.now req.username new_hash false s.store in
                rw (long, new, hashed)
                  (record {
                    user = user;
                    found = found;
                    unlocked = free;
                    old = old;
                    long = ground arith;
                    new = ground (arith, eq_iff req.new_password req.old_password);
                    new_hash = new_hash;
                    hashed = hashed;
                    stored = rw (users-password_updated ctx user req.username s r) (
                        find_user-update_ok req.username (with_password ctx.now new_hash)
                          (λ u. refl) s.store user
                          (password_updated-ok ctx user req.username s r
                            (rw (long, new, hashed) at h))
                          (rw same_users found));
                    sessions = sessions-password_updated ctx user req.username s r ∙ same_sessions;
                  })
          ]
        ]
      ]

  change_user-Changed :
      (s0 s : AuthState) (user : User)
      → find_user req.username s0.store ≡ some user
      → s.store.users ≡ s0.store.users
      → s.sessions ≡ s0.sessions
      → (change_user b cfg ctx req s (ok user)).0.status ≡ 200
      → Changed b cfg ctx req s0 (change_user b cfg ctx req s (ok user)).1
  unfolding change_user locked_reply wrong_password
  change_user-Changed s0 s user found same_users same_sessions h =
      elim (Bool-cases (is_locked user ctx.now)) [
        | inl locked ↦ absurd (ground arith)
        | inr free ↦ elim (Bool-cases (compare_password b user.password_hash req.old_password)) [
          | inr wrong ↦ absurd (ground arith)
          | inl right ↦
              rw (free, right)
                (store_new_password-Changed s0 s user found same_users same_sessions free right
                  (rw (free, right) at h))
        ]
      ]

  change_user-refused :
      (s : AuthState) (e : DbError) → (change_user b cfg ctx req s (err e)).0.status ≢ 200
  unfolding change_user unknown_user
  change_user-refused s e = ground arith

  -- A change of password is answered 200 only to someone who knows the old password of an account
  -- that is in the table and not locked, with a new password that differs and is long enough; the
  -- account then has a hash of the new one, no pending change, no failed attempts and no lock, and
  -- no session is touched.
  pub change-Changed :
      (s : AuthState)
      → (handle_change_password b cfg ctx (some req) s).0.status ≡ 200
      → Changed b cfg ctx req s (handle_change_password b cfg ctx (some req) s).1
  unfolding handle_change_password get_user_by_username exec unknown_user
  change-Changed s h = elim (Bool-cases (s.store.fails s.store.statements)) [
    | inl down ↦ absurd (change_user-refused (after_query s) database (rw down at h))
    | inr fine ↦ elim (Option-cases (find_user req.username s.store)) [
      | inl missing ↦
          absurd (change_user-refused (after_query s) user_not_found (rw (fine, missing) at h))
      | inr (user, found) ↦
          rw (fine, found)
            (change_user-Changed s (after_query s) user found refl refl (rw (fine, found) at h))
    ]
  ]
