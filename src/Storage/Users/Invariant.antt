-- ===== src/Storage/Users/Invariant.antt =====
-- The `users` table stays well formed: names and ids are unique, and ids are below the next one.
use etcdmonitor.Prelude.{
  ℕ, ◌+◌, ◌<◌, String, ◌≡◌, refl, Bool, List, [], ◌∷◌, arith, Result, ok, err, string_eq, nat_eq,
  All, All-append, Bool-cases, Option-cases, inl, inr,
}
use etcdmonitor.Storage.Table.{query_row, count, count-none, All-update, All-delete}
use etcdmonitor.Storage.Table.Distinct.{
  Distinct, keyed, Distinct-update, Distinct-delete, Distinct-insert,
}
use etcdmonitor.Storage.Users.{
  User, Storage, AuditEntry, DbError, exec, named, update_user, create_user, delete_user,
  get_user_by_username, count_users, store_audit_log, update_password, set_locked,
  reset_login_state, update_last_login, increment_failed_attempts, read_failed_attempts,
}

pub record IsValid (s : Storage) : Type 0 where
  pub names : Distinct (λ (u : User). u.username) s.users
  pub ids : Distinct (λ (u : User). u.id) s.users
  pub below : All (λ u. u.id < s.next_user_id) s.users

-- A statement fails or runs.
exec-IsValid :
    {A : Type 0} (s : Storage) (k : Storage → Result DbError A × Storage)
    → IsValid s
    → IsValid (k (record s { statements = s.statements + 1 })).1
    → IsValid (exec s k).1
unfolding exec
exec-IsValid s k v h = elim (Bool-cases (s.fails s.statements)) [
  | inl e ↦ rw e (record { names = v.names; ids = v.ids; below = v.below })
  | inr e ↦ rw e h
]

pub update_user-IsValid :
    (username : String) (f : User → User) (s : Storage)
    → ((u : User) → (f u).username ≡ u.username)
    → ((u : User) → (f u).id ≡ u.id)
    → IsValid s
    → IsValid (update_user username f s).1
update_user-IsValid username f s name id v = exec-IsValid s _ v (record {
  names = Distinct-update (λ u. u.username) (named username) f s.users name v.names;
  ids = Distinct-update (λ u. u.id) (named username) f s.users id v.ids;
  below =
      All-update (λ u. u.id < s.next_user_id) (named username) f s.users (λ u h. rw (id u) h)
        v.below;
})

module _ (now : ℕ) (username : String) (s : Storage) (v : IsValid s) where
  pub update_password-IsValid :
      (h : String) (m : Bool) → IsValid (update_password now username h m s).1
  unfolding update_password
  update_password-IsValid h m = update_user-IsValid username _ s (λ u. refl) (λ u. refl) v

  pub set_locked-IsValid : (until : ℕ) → IsValid (set_locked now username until s).1
  unfolding set_locked
  set_locked-IsValid until = update_user-IsValid username _ s (λ u. refl) (λ u. refl) v

  pub reset_login_state-IsValid : IsValid (reset_login_state now username s).1
  unfolding reset_login_state
  reset_login_state-IsValid = update_user-IsValid username _ s (λ u. refl) (λ u. refl) v

  pub update_last_login-IsValid : IsValid (update_last_login now username s).1
  unfolding update_last_login
  update_last_login-IsValid = update_user-IsValid username _ s (λ u. refl) (λ u. refl) v

pub delete_user-IsValid :
    (username : String) (s : Storage) → IsValid s → IsValid (delete_user username s).1
unfolding delete_user
delete_user-IsValid username s v = exec-IsValid s _ v (record {
  names = Distinct-delete (λ u. u.username) (named username) s.users v.names;
  ids = Distinct-delete (λ u. u.id) (named username) s.users v.ids;
  below = All-delete (λ u. u.id < s.next_user_id) (named username) s.users v.below;
})

pub get_user_by_username-IsValid :
    (username : String) (s : Storage) → IsValid s → IsValid (get_user_by_username username s).1
unfolding get_user_by_username
get_user_by_username-IsValid username s v =
    exec-IsValid s _ v (record { names = v.names; ids = v.ids; below = v.below })

pub count_users-IsValid : (s : Storage) → IsValid s → IsValid (count_users s).1
unfolding count_users
count_users-IsValid s v =
    exec-IsValid s _ v (record { names = v.names; ids = v.ids; below = v.below })

pub store_audit_log-IsValid :
    (entry : AuditEntry) (s : Storage) → IsValid s → IsValid (store_audit_log entry s).1
unfolding store_audit_log
store_audit_log-IsValid entry s v =
    exec-IsValid s _ v (record { names = v.names; ids = v.ids; below = v.below })

read_failed_attempts-IsValid :
    (username : String) (r : Result DbError (Unit {0}) × Storage)
    → IsValid r.1
    → IsValid (read_failed_attempts username r).1
unfolding read_failed_attempts
read_failed_attempts-IsValid username (err e, s) v = v
read_failed_attempts-IsValid username (ok _, s) v =
    exec-IsValid s _ v (elim (Option-cases (query_row (named username) s.users)) [
      | inl e ↦ rw e (record { names = v.names; ids = v.ids; below = v.below })
      | inr (u, e) ↦ rw e (record { names = v.names; ids = v.ids; below = v.below })
    ])

pub increment_failed_attempts-IsValid :
    (now : ℕ) (username : String) (s : Storage)
    → IsValid s
    → IsValid (increment_failed_attempts now username s).1
unfolding increment_failed_attempts
increment_failed_attempts-IsValid now username s v =
    read_failed_attempts-IsValid username _
      (update_user-IsValid username _ s (λ u. refl) (λ u. refl) v)

-- Ids below the next one are not the next one.
count-fresh :
    (n : ℕ) (xs : List User) → All (λ u. u.id < n) xs → count (keyed (λ (u : User). u.id) n) xs ≡ 0
unfolding count
count-fresh n [] h = refl
count-fresh n (x ∷ xs) h = ground (arith, count-fresh n xs h.1, h.0)

All-below_suc : (n : ℕ) (xs : List User) → All (λ u. u.id < n) xs → All (λ u. u.id < n + 1) xs
All-below_suc n [] h = tt
All-below_suc n (x ∷ xs) h = (omega (arith, h.0), All-below_suc n xs h.1)

-- A new user takes a free name and the next id.
pub create_user-IsValid :
    (now : ℕ) (u : User) (s : Storage) → IsValid s → IsValid (create_user now u s).1
unfolding create_user
create_user-IsValid now u s v =
    exec-IsValid s _ v (elim (Option-cases (query_row (named u.username) s.users)) [
      | inl free ↦ rw free (record {
        names =
            Distinct-insert (λ x. x.username) _ s.users (count-none (named u.username) s.users free)
              v.names;
        ids =
            Distinct-insert (λ x. x.id) _ s.users (count-fresh s.next_user_id s.users v.below)
              v.ids;
        below =
            All-append (λ x. x.id < s.next_user_id + 1) s.users _
              (All-below_suc s.next_user_id s.users v.below) (omega arith, tt);
      })
      | inr (w, taken) ↦ rw taken (record { names = v.names; ids = v.ids; below = v.below })
    ])

pub ruleset user_rules = (
  create_user-IsValid, delete_user-IsValid, get_user_by_username-IsValid, count_users-IsValid,
  update_password-IsValid, set_locked-IsValid, reset_login_state-IsValid, update_last_login-IsValid,
  increment_failed_attempts-IsValid, store_audit_log-IsValid,
)
