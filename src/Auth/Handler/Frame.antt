-- ===== src/Auth/Handler/Frame.antt =====
-- What the handlers leave as it is: the rows of other accounts, and who every account is. This
-- holds whichever statements the database fails.
use etcdmonitor.Prelude.{
  ℕ, String, Result, ok, err, leb, nat_eq, string_eq, positive_or, refl, inl, inr, Bool-cases,
}
use etcdmonitor.Storage.Users.{User, Storage, Message, DbError, increment_failed_attempts}
use etcdmonitor.Storage.Users.Trail.{
  Trail, done, Trail-trans, IsBookkeeping, increment-Trail, set_locked-Trail,
}
use etcdmonitor.Auth.Handler.{
  AuthConfig, Context, AuthState, lock_at_threshold, handle_failed_attempt, wrong_password,
  locked_reply, unknown_user,
}
use etcdmonitor.Auth.Handler.Effects.{users-log_audit, users-wrong_password}

-- An account's table before and after.
abbrev pub Kept : String → Storage → Storage → Type 0
Kept username s t = Trail IsBookkeeping username s.users t.users

module _ (cfg : AuthConfig) (now : ℕ) (username : String) where
  lock_at_threshold-Kept :
      (r : Result DbError ℕ × Storage) → Kept username r.1 (lock_at_threshold cfg now username r)
  unfolding lock_at_threshold
  lock_at_threshold-Kept (err e, s) = done refl
  lock_at_threshold-Kept (ok n, s) =
      elim (Bool-cases (leb (positive_or 5 cfg.lockout_threshold) n)) [
        | inl over ↦ rw over (set_locked-Trail now username _ s)
        | inr under ↦ rw under (done refl)
      ]

  handle_failed_attempt-Kept :
      (s : Storage) → Kept username s (handle_failed_attempt cfg now username s)
  unfolding handle_failed_attempt
  handle_failed_attempt-Kept s =
      Trail-trans IsBookkeeping username (increment-Trail now username s)
        (lock_at_threshold-Kept (increment_failed_attempts now username s))

module _ (cfg : AuthConfig) (ctx : Context) (username : String) where
  pub wrong_password-Kept :
      (op : String) (msg : Message) (s : AuthState)
      → Kept username s.store (wrong_password cfg ctx op username msg s).1.store
  wrong_password-Kept op msg s =
      rw (users-wrong_password cfg ctx op username msg s)
        (handle_failed_attempt-Kept cfg ctx.now username s.store)

  pub locked_reply-Kept :
      (op : String) (user : User) (s : AuthState)
      → Kept username s.store (locked_reply ctx op username user s).1.store
  unfolding locked_reply
  locked_reply-Kept op user s = done (users-log_audit ctx _ _ _ _ _ _ _)

  pub unknown_user-Kept :
      (op : String) (msg : Message) (s : AuthState)
      → Kept username s.store (unknown_user ctx op username msg s).1.store
  unfolding unknown_user
  unknown_user-Kept op msg s = done (users-log_audit ctx _ _ _ _ _ _ _)
