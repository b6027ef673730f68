-- ===== src/Tabs/Repo/Moves/Calls.antt =====
-- Every call of the repository for a user does to the rows only what the user may do.
use etcdmonitor.Prelude.{
  ℕ, ◌+◌, ◌≤◌, ◌<◌, ◌≡◌, refl, sym, subst, String, List, [], ◌∷◌, Option, none, some, Result, ok,
  err, arith, ◌==◌, nat_eq, string_eq, nat_beq_iff, eq_iff, Bool-cases, Result-cases, inl, inr,
  length,
}
use etcdmonitor.Storage.Table.{count, update, update-none}
use etcdmonitor.Storage.Table.Distinct.{Distinct}
use etcdmonitor.Tabs.Repo.Sorting.{tab_id}
use etcdmonitor.Tabs.Repo.{
  Tab, TabDb, PatchFields, RepoError, run_sql, owned, owned_id, with_id, create, insert_tab,
  new_row, update_by_user, patched, update_status, delete_by_user, update_order_by_user, reorder,
  place_all, commit, moved, affecting,
}
use etcdmonitor.Tabs.Repo.Moves.{Moves, same, added, changed, removed, followed}

module _ (user : ℕ) where
  -- A statement that fails changes no row.
  run_sql-Moves :
      {A : Type 0} (s : TabDb) (k : TabDb → Result RepoError A × TabDb)
      → ((s' : TabDb) → s'.tabs ≡ s.tabs → Moves user s.tabs (k s').1.tabs)
      → Moves user s.tabs (run_sql s k).1.tabs
  unfolding run_sql
  run_sql-Moves s k h = elim (Bool-cases (s.fails s.statements)) [
    | inl down ↦ rw down (same s.tabs)
    | inr fine ↦ rw fine (h (record s { statements = s.statements + 1 }) refl)
  ]

  from_eq : {ts us vs : List Tab} → us ≡ ts → Moves user us vs → Moves user ts vs
  from_eq {vs = vs} e m = subst (λ l. Moves user l vs) e m

  pub update_by_user-Moves :
      (now : ℕ) (id : String) (fields : PatchFields) (s : TabDb)
      → Moves user s.tabs (update_by_user now id user fields s).1.tabs
  unfolding update_by_user patched
  update_by_user-Moves now id fields s =
      run_sql-Moves s _
        (λ s' e. from_eq e (changed id (patched now fields) s'.tabs (λ t. (refl, refl))))

  pub delete_by_user-Moves :
      (id : String) (s : TabDb) → Moves user s.tabs (delete_by_user id user s).1.tabs
  unfolding delete_by_user
  delete_by_user-Moves id s = run_sql-Moves s _ (λ s' e. from_eq e (removed id s'.tabs))

  count-owned_id :
      (id : String) (ts : List Tab) → count (owned_id id user) ts ≤ count (with_id id) ts
  unfolding count
  count-owned_id id [] = omega arith
  count-owned_id id (t ∷ ts) = ground (arith, count-owned_id id ts)

  -- A row under an ID that is the user's is the only one, so a statement on the ID alone is one on
  -- the user's rows.
  other_rows :
      (t : Tab) (id : String) (ts : List Tab)
      → t.id ≡ id
      → count (with_id t.id) ts ≡ 0
      → (count (with_id id) ts ≡ 0) × (count (owned_id id user) ts ≡ 0)
  other_rows t id ts e h =
      let h' = subst (λ k. count (with_id k) ts ≡ 0) e h in
      (h', omega (arith, count-owned_id id ts, h'))

  update-own :
      (id : String) (f : Tab → Tab) (ts : List Tab)
      → Distinct tab_id ts
      → 1 ≤ count (owned_id id user) ts
      → update (with_id id) f ts ≡ update (owned_id id user) f ts
  unfolding update count
  update-own id f [] d h = refl
  update-own id f (t ∷ ts) d h = elim (Bool-cases (t.id == id)) [
    | inl e ↦
        let rest = other_rows t id ts ((eq_iff t.id id).0 e) d.0 in
        ground (
          arith,
          e,
          rest.0,
          rest.1,
          update-none (with_id id) f ts rest.0,
          update-none (owned_id id user) f ts rest.1,
        )
    | inr n ↦ ground (arith, n, update-own id f ts d.1)
  ]

  pub update_status-Moves :
      (id status err_msg : String) (now : ℕ) (s : TabDb)
      → Distinct tab_id s.tabs
      → 1 ≤ count (owned_id id user) s.tabs
      → Moves user s.tabs (update_status id status err_msg now s).1.tabs
  unfolding update_status
  update_status-Moves id status err_msg now s d h = run_sql-Moves s _ (λ s' e. from_eq e (
      subst (Moves user s'.tabs)
        (sym (
          update-own id _ s'.tabs (subst (Distinct tab_id) (sym e) d)
            (subst (λ l. 1 ≤ count (owned_id id user) l) (sym e) h)))
        (changed id _ s'.tabs (λ t. (refl, refl)))))

  insert_tab-Moves :
      (row : Tab) (s : TabDb)
      → row.created_by_user_id ≡ user
      → count (owned user) s.tabs < 10
      → Moves user s.tabs (insert_tab row s).1.tabs
  unfolding insert_tab
  insert_tab-Moves row s own few = run_sql-Moves s _ (λ s' e.
      elim (Bool-cases (count (with_id row.id) s'.tabs == 0)) [
        | inl free ↦
            rw free (from_eq e (added row s'.tabs own ((nat_beq_iff _ 0).0 free) (rw e few)))
        | inr taken ↦ rw taken (from_eq e (same s'.tabs))
      ])

  pub create-Moves :
      (now : ℕ) (uuid : Option String) (t : Tab) (s : TabDb)
      → t.created_by_user_id ≡ user
      → count (owned user) s.tabs < 10
      → Moves user s.tabs (create now uuid t s).1.tabs
  unfolding create
  create-Moves now none t s own few = elim (Bool-cases (t.created_by_user_id == 0)) [
    | inl z ↦ rw z (same s.tabs)
    | inr n ↦ rw n (same s.tabs)
  ]
  create-Moves now (some id) t s own few = elim (Bool-cases (t.created_by_user_id == 0)) [
    | inl z ↦ rw z (same s.tabs)
    | inr n ↦ rw n (
        run_sql-Moves s _
          (λ s' e. from_eq e (insert_tab-Moves (new_row now id t s'.tabs) s' own (rw e few))))
  ]

  abbrev place_one : ℕ → ℕ → String → TabDb → Result RepoError (Unit {0}) × TabDb
  place_one now i id s =
      run_sql s
        λ s'. affecting (owned_id id user) (update (owned_id id user) (moved i now) s'.tabs) s'

  place_one-Moves :
      (now i : ℕ) (id : String) (s : TabDb) → Moves user s.tabs (place_one now i id s).1.tabs
  place_one-Moves now i id s =
      run_sql-Moves s _ (λ s' e. from_eq e (changed id (moved i now) s'.tabs (λ t. (refl, refl))))

  place_all-Moves :
      (now i : ℕ) (ids : List String) (s : TabDb)
      → Moves user s.tabs (place_all user now i ids s).1.tabs
  unfolding place_all
  place_all-Moves now i [] s = same s.tabs
  place_all-Moves now i (id ∷ ids) s =
      let one = place_one now i id s in
      let step = place_one-Moves now i id s in
      elim (Result-cases one.0) [
        | inl (x, e) ↦ rw (e, place_all) (followed step (place_all-Moves now (i + 1) ids one.1))
        | inr (x, e) ↦ rw (e, place_all) step
      ]

  commit-Moves :
      (before : List Tab) (r : Result RepoError (Unit {0}) × TabDb)
      → Moves user before r.1.tabs
      → Moves user before (commit before r).1.tabs
  unfolding commit
  commit-Moves before (err e, s) m = same before
  commit-Moves before (ok _, s) m = elim (Bool-cases (s.fails s.statements)) [
    | inl down ↦ rw down (same before)
    | inr fine ↦ rw fine m
  ]

  reorder-Moves :
      (now : ℕ) (ids : List String) (s : TabDb) → Moves user s.tabs (reorder now user ids s).1.tabs
  unfolding reorder
  reorder-Moves now ids s = run_sql-Moves s _ (λ s' e.
      elim (Bool-cases (count (owned user) s'.tabs == length ids)) [
        | inl fits ↦
            rw fits (
              from_eq e (run_sql-Moves s' _ (λ s'' e'. from_eq e' (place_all-Moves now 0 ids s''))))
        | inr other ↦ rw other (from_eq e (same s'.tabs))
      ])

  pub update_order_by_user-Moves :
      (now : ℕ) (ids : List String) (s : TabDb)
      → Moves user s.tabs (update_order_by_user now user ids s).1.tabs
  unfolding update_order_by_user
  update_order_by_user-Moves now ids s = run_sql-Moves s _ (λ s' e.
      from_eq e (commit-Moves s'.tabs (reorder now user ids s') (reorder-Moves now ids s')))
