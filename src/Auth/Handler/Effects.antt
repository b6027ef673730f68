-- ===== src/Auth/Handler/Effects.antt =====
-- What the shared parts of the handlers do to the `users` table.
use etcdmonitor.Prelude.{
  ℕ, ◌+◌, String, Bool, true, false, some, Result, ok, err, leb, arith, nat_eq, string_eq,
  if◌then◌else◌, positive_or, ◌≡◌, refl, inl, inr, Bool-cases, ◌∙◌,
}
use etcdmonitor.Storage.Users.{
  User, Storage, Message, text, DbError, increment_failed_attempts, set_locked,
}
use etcdmonitor.Storage.Users.Lookup.{
  find_user, IsHealthy, IsHealthy_of_fails, find_user-update_self, fails-update_user,
  users-store_audit_log, fails-store_audit_log, users-get_user, fails-get_user, increment-found,
  fails-increment,
}
use etcdmonitor.Auth.Handler.{
  AuthConfig, Context, AuthState, log_audit, lock_at_threshold, handle_failed_attempt, note_lockout,
  wrong_password,
}

module _ (ctx : Context) (username operation target : String) (result : Message) (d : ℕ)
    (success : Bool) (s : Storage) where
  pub users-log_audit : (log_audit ctx username operation target result d success s).users ≡ s.users
  unfolding log_audit
  users-log_audit = users-store_audit_log _ s

  pub fails-log_audit : (log_audit ctx username operation target result d success s).fails ≡ s.fails
  unfolding log_audit
  fails-log_audit = fails-store_audit_log _ s

users-note_lockout :
    (ctx : Context) (username : String) (r : Result DbError User × Storage)
    → (note_lockout ctx username r).users ≡ r.1.users
unfolding note_lockout
users-note_lockout ctx username (err e, s) = refl
users-note_lockout ctx username (ok u, s) =
    ground
      (arith, users-log_audit ctx username "login_lockout" ctx.client_ip (text "账号已锁定") 0 true s)

fails-note_lockout :
    (ctx : Context) (username : String) (r : Result DbError User × Storage)
    → (note_lockout ctx username r).fails ≡ r.1.fails
unfolding note_lockout
fails-note_lockout ctx username (err e, s) = refl
fails-note_lockout ctx username (ok u, s) =
    ground
      (arith, fails-log_audit ctx username "login_lockout" ctx.client_ip (text "账号已锁定") 0 true s)

-- The state after one query.
abbrev pub after_query : AuthState → AuthState
after_query s = record s { store = record s.store { statements = s.store.statements + 1 } }

-- The account after one more wrong password.
abbrev pub after_failure : AuthConfig → ℕ → User → User
after_failure cfg now u =
    let counted : User = record u { failed_attempts = u.failed_attempts + 1; updated_at = now } in
    if leb (positive_or 5 cfg.lockout_threshold) (u.failed_attempts + 1)
    then record counted {
      locked_until = now + positive_or 900 cfg.lockout_duration_seconds;
      updated_at = now;
    }
    else counted

module _ (cfg : AuthConfig) (now : ℕ) (username : String) where
  lock_at_threshold-found :
      (s : Storage) (u : User) (n : ℕ)
      → IsHealthy s
      → find_user username s ≡ some u
      → find_user username (lock_at_threshold cfg now username (ok n, s))
        ≡ some (
            if leb (positive_or 5 cfg.lockout_threshold) n
            then record u {
              locked_until = now + positive_or 900 cfg.lockout_duration_seconds;
              updated_at = now;
            }
            else u)
  unfolding lock_at_threshold set_locked
  lock_at_threshold-found s u n h e =
      elim (Bool-cases (leb (positive_or 5 cfg.lockout_threshold) n)) [
        | inl over ↦
            rw over
              (find_user-update_self username
                (λ (x : User). record x {
                  locked_until = now + positive_or 900 cfg.lockout_duration_seconds;
                  updated_at = now;
                })
                (λ x. refl) s u (h s.statements) e).1
        | inr under ↦ rw under e
      ]

  lock_result-found :
      (r : Result DbError ℕ × Storage) (u : User) (n : ℕ)
      → IsHealthy r.1
      → r.0 ≡ ok n
      → find_user username r.1 ≡ some u
      → find_user username (lock_at_threshold cfg now username r)
        ≡ some (
            if leb (positive_or 5 cfg.lockout_threshold) n
            then record u {
              locked_until = now + positive_or 900 cfg.lockout_duration_seconds;
              updated_at = now;
            }
            else u)
  lock_result-found (err x, s) u n h o e = absurd (ground arith)
  lock_result-found (ok m, s) u n h o e =
      let same : m ≡ n = cc in rw (← same) (lock_at_threshold-found s u m h e)

  fails-lock_at_threshold :
      (r : Result DbError ℕ × Storage) → (lock_at_threshold cfg now username r).fails ≡ r.1.fails
  unfolding lock_at_threshold set_locked
  fails-lock_at_threshold (err e, s) = refl
  fails-lock_at_threshold (ok n, s) =
      elim (Bool-cases (leb (positive_or 5 cfg.lockout_threshold) n)) [
        | inl over ↦ rw over (fails-update_user username _ (λ x. refl) s)
        | inr under ↦ rw under
      ]

  pub fails-handle_failed_attempt :
      (s : Storage) → (handle_failed_attempt cfg now username s).fails ≡ s.fails
  unfolding handle_failed_attempt
  fails-handle_failed_attempt s =
      fails-lock_at_threshold (increment_failed_attempts now username s)
      ∙ fails-increment now username s

  pub handle_failed_attempt-found :
      (s : Storage) (u : User)
      → IsHealthy s
      → find_user username s ≡ some u
      → find_user username (handle_failed_attempt cfg now username s)
        ≡ some (after_failure cfg now u)
  unfolding handle_failed_attempt
  handle_failed_attempt-found s u h e =
      let step = increment-found now username s u h e in
      lock_result-found (increment_failed_attempts now username s)
        (record u { failed_attempts = u.failed_attempts + 1; updated_at = now })
        (u.failed_attempts + 1)
        (IsHealthy_of_fails s (increment_failed_attempts now username s).1
          (fails-increment now username s) h)
        step.0 step.1

module _ (cfg : AuthConfig) (ctx : Context) (op username : String) (msg : Message) where
  -- A wrong password is counted, and the rest of the handler only writes to the audit log.
  pub users-wrong_password :
      (s : AuthState)
      → (wrong_password cfg ctx op username msg s).1.store.users
        ≡ (handle_failed_attempt cfg ctx.now username s.store).users
  unfolding wrong_password
  users-wrong_password s =
      users-log_audit ctx username op ctx.client_ip msg ctx.elapsed_ms false _
      ∙ users-note_lockout ctx username _
      ∙ users-get_user username _

  pub fails-wrong_password :
      (s : AuthState) → (wrong_password cfg ctx op username msg s).1.store.fails ≡ s.store.fails
  unfolding wrong_password
  fails-wrong_password s =
      fails-log_audit ctx username op ctx.client_ip msg ctx.elapsed_ms false _
      ∙ fails-note_lockout ctx username _
      ∙ fails-get_user username _
      ∙ fails-handle_failed_attempt cfg ctx.now username s.store

  pub wrong_password-found :
      (s : AuthState) (u : User)
      → IsHealthy s.store
      → find_user username s.store ≡ some u
      → find_user username (wrong_password cfg ctx op username msg s).1.store
        ≡ some (after_failure cfg ctx.now u)
  wrong_password-found s u h e =
      rw (users-wrong_password s) (handle_failed_attempt-found cfg ctx.now username s.store u h e)
