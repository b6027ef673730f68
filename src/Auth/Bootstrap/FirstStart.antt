-- ===== src/Auth/Bootstrap/FirstStart.antt =====
-- What the first start leaves behind, and that later starts leave everything alone.
pub mod Creation
use etcdmonitor.Prelude.{
  ℕ, zero, suc, ◌+◌, ◌≤◌, ◌<◌, ◌≢◌, String, Bool, true, false, List, [], ◌∷◌, ◌++◌, Option, none,
  some, Result, ok, err, ltb, leb, arith, eq_iff, ◌==◌, nat_eq, string_eq, if◌then◌else◌, ℤ, pos,
  negsuc, ◌≡◌, refl, sym, subst, ◌∙◌, Option-cases, Bool-cases, inl, inr, ◌⊎◌, length,
}
use etcdmonitor.Storage.Table.{count, query_row, delete}
use etcdmonitor.Storage.Users.{
  User, Storage, exec, DbError, database, count_users, create_user, delete_user, named,
}
use etcdmonitor.Storage.Users.Lookup.{IsHealthy, IsHealthy_of_fails, find_user}
use etcdmonitor.Auth.Password.{Bcrypt, hash_password, compare_password, compare-hash_password}
use etcdmonitor.Auth.Bootstrap.{
  Os, BootState, BootError, WriteOutcome, written, write_failed, write_initial_password_file,
  new_admin, finish_admin, admin_created, create_admin, hashed_admin, counted, ensure_default_admin,
  write_file_failed, default_admin_username, generate_failed, hash_failed, count_failed,
}
use etcdmonitor.Auth.Bootstrap.FirstStart.Creation.{
  FirstAdmin, result_differs, create_admin-FirstAdmin, create_admin-empty,
}

count-cases :
    (us : List User)
    → ((us ≡ []) × (count (λ (u : User). true) us ≡ 0))
      ⊎ ((us ≢ []) × (0 < count (λ (u : User). true) us))
unfolding count
count-cases [] = inl (refl, refl)
count-cases (u ∷ us) = inr ((λ q. cc), omega arith)

-- Counting the rows: the error of the driver, or the number, and no change but in the clock.
module _ (b : Bcrypt) (cost : ℤ) (os : Os) (s : BootState) where
  abbrev counted_state : BootState
  counted_state = record s { store = (count_users s.store).1 }

  users_counted : (count_users s.store).1.users ≡ s.store.users
  unfolding count_users exec
  users_counted = ground arith

  next_counted : (count_users s.store).1.next_user_id ≡ s.store.next_user_id
  unfolding count_users exec
  next_counted = ground arith

  fails_counted : (count_users s.store).1.fails ≡ s.store.fails
  unfolding count_users exec
  fails_counted = ground arith

  ensure-cases :
      ((s.store.fails s.store.statements ≡ true)
        × (ensure_default_admin b cost os s ≡ (err count_failed, counted_state)))
      ⊎ ((s.store.users ≢ []) × (ensure_default_admin b cost os s ≡ (ok tt, counted_state)))
      ⊎ ((s.store.users ≡ [])
          × (ensure_default_admin b cost os s ≡ create_admin b cost os counted_state os.generated))
  unfolding ensure_default_admin counted count_users exec count
  ensure-cases = elim (Bool-cases (s.store.fails s.store.statements)) [
    | inl down ↦ inl (down, rw down refl)
    | inr fine ↦ elim (count-cases s.store.users) [
      | inl (empty, none_there) ↦ inr (inr (empty, ground arith))
      | inr (row, there) ↦ inr (inl (row, ground arith))
    ]
  ]

  -- A start on an empty database that reports no error leaves exactly one account: `admin`, with
  -- the hash of the generated password, which has to be changed, and with that password in the
  -- file. The hash accepts that password.
  pub first_start :
      s.store.users ≡ []
      → (ensure_default_admin b cost os s).0 ≡ ok tt
      → FirstAdmin b os s.store.next_user_id (ensure_default_admin b cost os s).1
  first_start empty h = elim ensure-cases [
    | inl (down, e) ↦ absurd (result_differs count_failed _ (rw e refl) h)
    | inr (inl (row, e)) ↦ absurd (row empty)
    | inr (inr (_, e)) ↦
        subst (λ r. r.0 ≡ ok tt → FirstAdmin b os s.store.next_user_id r.1) (sym e)
          (λ done.
            subst (λ id. FirstAdmin b os id (create_admin b cost os counted_state os.generated).1)
              next_counted
              (create_admin-FirstAdmin b cost os counted_state os.generated refl
                (users_counted ∙ empty) done))
          h
  ]

  -- A start on a database with an account, whatever its name, changes neither the accounts nor
  -- the file.
  pub later_start :
      s.store.users ≢ []
      → ((ensure_default_admin b cost os s).1.store.users ≡ s.store.users)
        × ((ensure_default_admin b cost os s).1.password_file ≡ s.password_file)
  later_start some_user = elim ensure-cases [
    | inl (down, e) ↦ (rw e users_counted, rw e refl)
    | inr (inl (row, e)) ↦ (rw e users_counted, rw e refl)
    | inr (inr (empty, e)) ↦ absurd (some_user empty)
  ]

  -- When every statement is executed, a start on an empty database that reports an error leaves
  -- the database empty, so that the next start tries again.
  pub failed_start :
      IsHealthy s.store
      → s.store.users ≡ []
      → (ensure_default_admin b cost os s).0 ≢ ok tt
      → (ensure_default_admin b cost os s).1.store.users ≡ []
  failed_start healthy empty h = elim ensure-cases [
    | inl (down, e) ↦ rw e (users_counted ∙ empty)
    | inr (inl (row, e)) ↦ absurd (row empty)
    | inr (inr (_, e)) ↦
        subst (λ r. r.0 ≢ ok tt → r.1.store.users ≡ []) (sym e)
          (create_admin-empty b cost os counted_state os.generated
            (IsHealthy_of_fails s.store counted_state.store fails_counted healthy)
            (users_counted ∙ empty))
          h
  ]
