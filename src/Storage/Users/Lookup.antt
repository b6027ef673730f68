-- ===== src/Storage/Users/Lookup.antt =====
-- What the statements on `users` do to the row of a name: the named row is changed, and every other
-- name keeps its row.
use etcdmonitor.Prelude.{
  Bool-cases, inl, inr, ℕ, ◌+◌, refl, String, ◌≡◌, ◌≢◌, true, false, Option, some, arith, eq_iff,
  ok, string_eq, nat_eq,
}
use etcdmonitor.Storage.Table.{query_row, count-some, query_row-update_ne, query_row-update_self}
use etcdmonitor.Storage.Users.{
  get_user_by_username, increment_failed_attempts, store_audit_log, AuditEntry, User, Storage, exec,
  named, update_user,
}

-- The row of a name.
abbrev pub find_user : String → Storage → Option User
find_user username s = query_row (named username) s.users

module _ (username : String) (f : User → User) (keeps : (u : User) → (f u).username ≡ u.username)
    (s : Storage) where
  pub find_user-update_self :
      (u : User)
      → s.fails s.statements ≡ false
      → find_user username s ≡ some u
      → ((update_user username f s).0 ≡ ok tt)
        × (find_user username (update_user username f s).1 ≡ some (f u))
  unfolding exec
  find_user-update_self u fine found = (
    ground (arith, count-some (named username) s.users u found),
    rw fine (query_row-update_self (named username) f s.users u (λ x. rw (keeps x)) found),
  )

  pub find_user-update_ne :
      (other : String)
      → other ≢ username
      → find_user other (update_user username f s).1 ≡ find_user other s
  unfolding exec
  find_user-update_ne other ne =
      ground (arith, query_row-update_ne (named username) (named other) f s.users apart)
    where
      apart :
          (x : User)
          → named username x ≡ true
          → (named other x ≡ false) × (named other (f x) ≡ false)
      apart x t = (
        ground (arith, eq_iff x.username username, eq_iff x.username other),
        rw (keeps x) (ground (arith, eq_iff x.username username, eq_iff x.username other)),
      )

  -- An update that returned no error has been made.
  pub find_user-update_ok :
      (u : User)
      → (update_user username f s).0 ≡ ok tt
      → find_user username s ≡ some u
      → find_user username (update_user username f s).1 ≡ some (f u)
  unfolding exec
  find_user-update_ok u success found = elim (Bool-cases (s.fails s.statements)) [
    | inl down ↦ absurd (ground arith)
    | inr fine ↦
        rw fine (query_row-update_self (named username) f s.users u (λ x. rw (keeps x)) found)
  ]

  pub fails-update_user : (update_user username f s).1.fails ≡ s.fails
  unfolding exec
  fails-update_user = ground arith

-- No statement fails.
abbrev pub IsHealthy : Storage → Type 0
IsHealthy s = (n : ℕ) → s.fails n ≡ false

pub IsHealthy_of_fails : (s t : Storage) → t.fails ≡ s.fails → IsHealthy s → IsHealthy t
IsHealthy_of_fails s t e h n = rw e (h n)

-- An entry of the audit log changes nothing else.
module _ (entry : AuditEntry) (s : Storage) where
  pub users-store_audit_log : (store_audit_log entry s).1.users ≡ s.users
  unfolding store_audit_log exec
  users-store_audit_log = ground arith

  pub fails-store_audit_log : (store_audit_log entry s).1.fails ≡ s.fails
  unfolding store_audit_log exec
  fails-store_audit_log = ground arith

module _ (username : String) (s : Storage) where
  pub users-get_user : (get_user_by_username username s).1.users ≡ s.users
  unfolding get_user_by_username exec
  users-get_user = ground arith

  pub fails-get_user : (get_user_by_username username s).1.fails ≡ s.fails
  unfolding get_user_by_username exec
  fails-get_user = ground arith

  pub get_user-found :
      (u : User)
      → IsHealthy s
      → find_user username s ≡ some u
      → (get_user_by_username username s).0 ≡ ok u
  unfolding get_user_by_username exec
  get_user-found u h e = rw (h s.statements, e)

-- The counter that is read is the one just written.
module _ (now : ℕ) (username : String) (s : Storage) where
  pub fails-increment : (increment_failed_attempts now username s).1.fails ≡ s.fails
  unfolding increment_failed_attempts exec
  fails-increment = ground arith

  pub increment-found :
      (u : User)
      → IsHealthy s
      → find_user username s ≡ some u
      → ((increment_failed_attempts now username s).0 ≡ ok (u.failed_attempts + 1))
        × (find_user username (increment_failed_attempts now username s).1
            ≡ some (record u { failed_attempts = u.failed_attempts + 1; updated_at = now }))
  unfolding increment_failed_attempts exec
  increment-found u h e = ground (
    arith,
    h s.statements,
    h (s.statements + 1),
    count-some (named username) s.users u e,
    query_row-update_self (named username)
        (λ (x : User). record x { failed_attempts = x.failed_attempts + 1; updated_at = now })
        s.users u (λ x. refl) e,
  )
