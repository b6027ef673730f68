-- ===== src/Tabs/Repo/Isolation.antt =====
-- What one user's calls do to another user's tabs: nothing, and they do not show whether a tab of
-- that name is there.
use etcdmonitor.Prelude.{
  ℕ, ◌+◌, ◌≡◌, ◌≢◌, refl, ◌∙◌, String, true, false, List, [], ◌∷◌, Option, none, some, Result, ok,
  err, arith, All, nat_eq, nat_beq_iff, string_eq,
}
use etcdmonitor.Storage.Table.{
  select, count, update, delete, query_row-none, update-none, delete-none,
}
use etcdmonitor.Storage.Table.Selected.{select-update_ne, select-delete_ne, select-insert}
use etcdmonitor.Tabs.Repo.{
  Tab, PatchFields, TabDb, RepoError, run_sql, owned, owned_id, get, create, update_by_user,
  place_all, reorder, insert_tab, new_row, commit, update_order_by_user, delete_by_user,
  list_by_user, count_by_user, patched, moved, tab_not_found,
}

-- The calls of `Repo` that act for a user.
pub data Call : Type 0 where
  list_call : Call
  get_call : String → Call
  create_call : ℕ → Option String → Tab → Call
  update_call : ℕ → String → PatchFields → Call
  order_call : ℕ → List String → Call
  delete_call : String → Call
  count_call : Call

unfoldable pub act : ℕ → Call → TabDb → TabDb
act user list_call s = (list_by_user user s).1
act user (get_call id) s = (get id user s).1
act user (create_call now uuid t) s = (create now uuid (record t { created_by_user_id = user }) s).1
act user (update_call now id fields) s = (update_by_user now id user fields s).1
act user (order_call now ids) s = (update_order_by_user now user ids s).1
act user (delete_call id) s = (delete_by_user id user s).1
act user count_call s = (count_by_user user s).1

unfoldable pub run_calls : List (ℕ × Call) → TabDb → TabDb
unfolding act
run_calls [] s = s
run_calls ((user, call) ∷ calls) s = run_calls calls (act user call s)

module _ (user other : ℕ) (ne : user ≢ other) where
  apart : (id : String) (t : Tab) → owned_id id user t ≡ true → owned other t ≡ false
  apart id t h = ground (arith, nat_beq_iff t.created_by_user_id user, ne)

  kept-update :
      (now : ℕ) (id : String) (fields : PatchFields) (ts : List Tab)
      → select (owned other) (update (owned_id id user) (patched now fields) ts)
        ≡ select (owned other) ts
  unfolding patched
  kept-update now id fields ts =
      select-update_ne (owned_id id user) (owned other) (patched now fields) ts
        (λ t h. (apart id t h, apart id t h))

  kept-moved :
      (i now : ℕ) (id : String) (ts : List Tab)
      → select (owned other) (update (owned_id id user) (moved i now) ts) ≡ select (owned other) ts
  kept-moved i now id ts =
      select-update_ne (owned_id id user) (owned other) (moved i now) ts
        (λ t h. (apart id t h, apart id t h))

  kept-delete :
      (id : String) (ts : List Tab)
      → select (owned other) (delete (owned_id id user) ts) ≡ select (owned other) ts
  kept-delete id ts = select-delete_ne (owned_id id user) (owned other) ts (apart id)

  kept-place_all :
      (now i : ℕ) (ids : List String) (s : TabDb)
      → select (owned other) (place_all user now i ids s).1.tabs ≡ select (owned other) s.tabs
  unfolding place_all run_sql
  kept-place_all now i [] s = refl
  kept-place_all now i (id ∷ ids) s = ground (
    arith,
    kept-moved i now id s.tabs,
    kept-place_all now (i + 1) ids (record s {
      tabs = update (owned_id id user) (moved i now) s.tabs;
      statements = s.statements + 1;
    }),
  )

  kept-commit :
      (before : List Tab) (r : Result RepoError (Unit {0}) × TabDb)
      → select (owned other) r.1.tabs ≡ select (owned other) before
      → select (owned other) (commit before r).1.tabs ≡ select (owned other) before
  unfolding commit
  kept-commit before (err e, s) h = refl
  kept-commit before (ok _, s) h = ground arith

  kept-reorder :
      (now : ℕ) (ids : List String) (s : TabDb)
      → select (owned other) (reorder now user ids s).1.tabs ≡ select (owned other) s.tabs
  unfolding reorder run_sql
  kept-reorder now ids s =
      ground (arith, kept-place_all now 0 ids (record s { statements = s.statements + 1 + 1 }))

  kept-order :
      (now : ℕ) (ids : List String) (s : TabDb)
      → select (owned other) (update_order_by_user now user ids s).1.tabs
        ≡ select (owned other) s.tabs
  unfolding update_order_by_user run_sql
  kept-order now ids s =
      let s' : TabDb = record s { statements = s.statements + 1 } in
      ground (arith, kept-commit s.tabs (reorder now user ids s') (kept-reorder now ids s'))

  kept-create :
      (now : ℕ) (uuid : Option String) (t : Tab) (s : TabDb)
      → select (owned other) (create now uuid (record t { created_by_user_id = user }) s).1.tabs
        ≡ select (owned other) s.tabs
  unfolding create insert_tab run_sql select
  kept-create now none t s = ground arith
  kept-create now (some id) t s = ground (
    arith,
    nat_beq_iff user other,
    ne,
    select-insert (owned other) (new_row now id (record t { created_by_user_id = user }) s.tabs)
        s.tabs,
  )

  kept-act :
      (call : Call) (s : TabDb)
      → select (owned other) (act user call s).tabs ≡ select (owned other) s.tabs
  unfolding act list_by_user get update_by_user delete_by_user count_by_user run_sql
  kept-act list_call s = ground arith
  kept-act (get_call id) s = ground arith
  kept-act (create_call now uuid t) s = kept-create now uuid t s
  kept-act (update_call now id fields) s = ground (arith, kept-update now id fields s.tabs)
  kept-act (order_call now ids) s = kept-order now ids s
  kept-act (delete_call id) s = ground (arith, kept-delete id s.tabs)
  kept-act count_call s = ground arith

-- Whatever calls the other users make, in any order and with any failures of the driver, the
-- user's rows stay the same rows in the same order.
pub users_isolated :
    (user : ℕ) (calls : List (ℕ × Call)) (s : TabDb)
    → All (λ (c : ℕ × Call). c.0 ≢ user) calls
    → select (owned user) (run_calls calls s).tabs ≡ select (owned user) s.tabs
unfolding run_calls
users_isolated user [] s h = refl
users_isolated user ((caller, call) ∷ calls) s h =
    users_isolated user calls (act caller call s) h.1 ∙ kept-act caller user h.0 call s

-- When every statement is executed, reading, changing or deleting a tab that is not the caller's
-- is answered as for a tab that does not exist, and leaves the table as it was.
pub foreign_not_found :
    (now : ℕ) (id : String) (user : ℕ) (fields : PatchFields) (s : TabDb)
    → s.fails s.statements ≡ false
    → count (owned_id id user) s.tabs ≡ 0
    → let gone : TabDb = record s { statements = s.statements + 1 } in
      (get id user s ≡ (err tab_not_found, gone))
      × (update_by_user now id user fields s ≡ (err tab_not_found, gone))
      × (delete_by_user id user s ≡ (err tab_not_found, gone))
unfolding get update_by_user delete_by_user run_sql
foreign_not_found now id user fields s fine h = ground (
  arith,
  query_row-none (owned_id id user) s.tabs h,
  update-none (owned_id id user) (patched now fields) s.tabs h,
  delete-none (owned_id id user) s.tabs h,
)
