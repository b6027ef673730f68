-- ===== src/Tabs/Repo/Moves/Reads.antt =====
-- The calls of the repository that only read.
use etcdmonitor.Prelude.{
  ℕ, ◌≤◌, ◌≡◌, refl, String, Result, ok, arith, nat_eq, string_eq, Bool-cases, Option-cases,
  or_fail, inl, inr,
}
use etcdmonitor.Storage.Table.{select, count, count-some, query_row}
use etcdmonitor.Tabs.Repo.{
  Tab, TabDb, RepoError, run_sql, owned, owned_id, get, list_by_user, count_by_user, by_order,
  tab_not_found,
}

module _ (user : ℕ) where
  -- Statements that only read
  run_sql-rows :
      {A : Type 0} (s : TabDb) (f : TabDb → Result RepoError A)
      → (run_sql s (λ s'. (f s', s'))).1.tabs ≡ s.tabs
  unfolding run_sql
  run_sql-rows s f = elim (Bool-cases (s.fails s.statements)) [
    | inl down ↦ rw down refl
    | inr fine ↦ rw fine refl
  ]

  pub get-rows : (id : String) (s : TabDb) → (get id user s).1.tabs ≡ s.tabs
  unfolding get
  get-rows id s =
      run_sql-rows s (λ s'. or_fail (query_row (owned_id id user) s'.tabs) tab_not_found)

  pub list_by_user-rows : (s : TabDb) → (list_by_user user s).1.tabs ≡ s.tabs
  unfolding list_by_user
  list_by_user-rows s = run_sql-rows s (λ s'. ok (by_order (select (owned user) s'.tabs)))

  pub count_by_user-rows : (s : TabDb) → (count_by_user user s).1.tabs ≡ s.tabs
  unfolding count_by_user
  count_by_user-rows s = run_sql-rows s (λ s'. ok (count (owned user) s'.tabs))

  pub count_by_user-count :
      (s : TabDb) (n : ℕ) → (count_by_user user s).0 ≡ ok n → n ≡ count (owned user) s.tabs
  unfolding count_by_user run_sql
  count_by_user-count s n h = ground arith

  -- A tab that is read is there.
  pub get-count :
      (id : String) (s : TabDb) (t : Tab)
      → (get id user s).0 ≡ ok t
      → 1 ≤ count (owned_id id user) s.tabs
  unfolding get run_sql
  get-count id s t h = elim (Option-cases (query_row (owned_id id user) s.tabs)) [
    | inl e ↦ ground arith
    | inr (x, e) ↦ count-some (owned_id id user) s.tabs x e
  ]
