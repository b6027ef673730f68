-- ===== src/Storage/Users/Calls.antt =====
-- Any sequence of calls of `UserRepository` and of `StoreAuditLog` on a new database.
use etcdmonitor.Prelude.{ℕ, String, Bool, List, [], ◌∷◌}
use etcdmonitor.Storage.Users.{
  User, Storage, AuditEntry, count_users, create_user, delete_user, get_user_by_username,
  update_password, increment_failed_attempts, set_locked, reset_login_state, update_last_login,
  store_audit_log,
}
use etcdmonitor.Storage.Users.Invariant.{
  IsValid, create_user-IsValid, delete_user-IsValid, get_user_by_username-IsValid,
  count_users-IsValid, update_password-IsValid, set_locked-IsValid, reset_login_state-IsValid,
  update_last_login-IsValid, increment_failed_attempts-IsValid, store_audit_log-IsValid,
}

pub data UserCall : Type 0 where
  count_call : UserCall
  create_call : ℕ → User → UserCall
  delete_call : String → UserCall
  get_call : String → UserCall
  password_call : ℕ → String → String → Bool → UserCall
  failure_call : ℕ → String → UserCall
  lock_call : ℕ → String → ℕ → UserCall
  reset_call : ℕ → String → UserCall
  login_call : ℕ → String → UserCall
  audit_call : AuditEntry → UserCall

unfoldable pub run_user_call : UserCall → Storage → Storage
run_user_call count_call s = (count_users s).1
run_user_call (create_call now u) s = (create_user now u s).1
run_user_call (delete_call name) s = (delete_user name s).1
run_user_call (get_call name) s = (get_user_by_username name s).1
run_user_call (password_call now name hash must) s = (update_password now name hash must s).1
run_user_call (failure_call now name) s = (increment_failed_attempts now name s).1
run_user_call (lock_call now name until) s = (set_locked now name until s).1
run_user_call (reset_call now name) s = (reset_login_state now name s).1
run_user_call (login_call now name) s = (update_last_login now name s).1
run_user_call (audit_call entry) s = (store_audit_log entry s).1

unfoldable pub run_user_calls : List UserCall → Storage → Storage
unfolding run_user_call
run_user_calls [] s = s
run_user_calls (call ∷ calls) s = run_user_calls calls (run_user_call call s)

run_user_call-IsValid : (call : UserCall) (s : Storage) → IsValid s → IsValid (run_user_call call s)
unfolding run_user_call
run_user_call-IsValid count_call s v = count_users-IsValid s v
run_user_call-IsValid (create_call now u) s v = create_user-IsValid now u s v
run_user_call-IsValid (delete_call name) s v = delete_user-IsValid name s v
run_user_call-IsValid (get_call name) s v = get_user_by_username-IsValid name s v
run_user_call-IsValid (password_call now name hash must) s v =
    update_password-IsValid now name s v hash must
run_user_call-IsValid (failure_call now name) s v = increment_failed_attempts-IsValid now name s v
run_user_call-IsValid (lock_call now name until) s v = set_locked-IsValid now name s v until
run_user_call-IsValid (reset_call now name) s v = reset_login_state-IsValid now name s v
run_user_call-IsValid (login_call now name) s v = update_last_login-IsValid now name s v
run_user_call-IsValid (audit_call entry) s v = store_audit_log-IsValid entry s v

-- Whatever calls are made, in any order and with any failures of the driver, a database in which
-- usernames and ids are unique and the ids are below the next one stays so.
pub run_calls-IsValid :
    (calls : List UserCall) (s : Storage) → IsValid s → IsValid (run_user_calls calls s)
unfolding run_user_calls
run_calls-IsValid [] s v = v
run_calls-IsValid (call ∷ calls) s v =
    run_calls-IsValid calls (run_user_call call s) (run_user_call-IsValid call s v)
