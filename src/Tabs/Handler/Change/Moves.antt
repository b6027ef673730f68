-- ===== src/Tabs/Handler/Change/Moves.antt =====
-- What deleting, testing and ordering tabs do to the table of tabs.
use etcdmonitor.Prelude.{
  ℕ, ◌≡◌, refl, ◌∙◌, String, List, [], ◌∷◌, Option, none, some, Result, ok, err, ◌==◌, string_eq,
  Bool-cases, inl, inr,
}
use etcdmonitor.Tabs.Repo.{Tab, RepoError, get, delete_by_user, update_order_by_user}
use etcdmonitor.Tabs.Repo.Moves.{Moves, same, followed, stays}
use etcdmonitor.Tabs.Repo.Moves.Calls.{delete_by_user-Moves, update_order_by_user-Moves}
use etcdmonitor.Tabs.Repo.Moves.Reads.{get-rows}
use etcdmonitor.Tabs.Handler.{
  Env, TabState, log_audit, log_cross_user_attempt, is_not_found, is_mismatch, rows,
}
use etcdmonitor.Tabs.Handler.Rows.{repo_refusal-rows}
use etcdmonitor.Tabs.Handler.Change.{
  TestTabRequest, deleted, delete_tab, test_with, found_for_test, test_tab, settled_order,
  reorder_tabs, reorder_body,
}

module _ (env : Env) (user : ℕ) (username id : String) where
  deleted-rows :
      (r : Result RepoError (Unit {0})) (s : TabState)
      → rows (deleted env user username id r s).1 ≡ rows s
  unfolding deleted log_audit
  deleted-rows (err e) s = repo_refusal-rows env username id e s
  deleted-rows (ok _) s = refl

  pub delete_tab-Moves :
      (s : TabState) → Moves user (rows s) (rows (delete_tab env user username id s).1)
  unfolding delete_tab
  delete_tab-Moves s = elim (Bool-cases (id == "default")) [
    | inl e ↦ rw e (same (rows s))
    | inr n ↦ rw n (
        let r = delete_by_user id user s.mgr.db in
        followed (delete_by_user-Moves user id s.mgr.db)
          (stays user (deleted-rows r.0 (record s { mgr = record s.mgr { db = r.1 } }))))
  ]

  test_with-rows :
      (req : TestTabRequest) (t : Tab) (r : Result String String) (s : TabState)
      → rows (test_with env user username id req t r s).1 ≡ rows s
  unfolding test_with
  test_with-rows req t (err e) s = refl
  test_with-rows req t (ok password) s = refl

  found-rows :
      (req : TestTabRequest) (r : Result RepoError Tab) (s : TabState)
      → rows (found_for_test env user username id req r s).1 ≡ rows s
  unfolding found_for_test
  found-rows req (err e) s = repo_refusal-rows env username id e s
  found-rows req (ok t) s =
      test_with-rows req t
        (elim req.password [ none ↦ env.decrypt t.password_cipher | some p ↦ ok p ]) s

  pub test_tab-rows :
      (req : TestTabRequest) (s : TabState) → rows (test_tab env user username id req s).1 ≡ rows s
  unfolding test_tab
  test_tab-rows req s = elim (Bool-cases (id == "default")) [
    | inl e ↦ rw e refl
    | inr n ↦ rw n (
        let r = get id user s.mgr.db in
        found-rows req r.0 (record s { mgr = record s.mgr { db = r.1 } })
        ∙ get-rows user id s.mgr.db)
  ]

module _ (env : Env) (user : ℕ) (username : String) where
  settled_order-rows :
      (ids : List String) (r : Result RepoError (Unit {0})) (s : TabState)
      → rows (settled_order env user username ids r s).1 ≡ rows s
  unfolding settled_order log_audit log_cross_user_attempt
  settled_order-rows ids (ok _) s = refl
  settled_order-rows ids (err e) s = elim (Bool-cases (is_mismatch e)) [
    | inl b ↦ rw b refl
    | inr b ↦ elim (Bool-cases (is_not_found e)) [
      | inl c ↦ rw b (rw c refl)
      | inr c ↦ rw b (rw c refl)
    ]
  ]

  pub reorder_tabs-Moves :
      (ids : List String) (s : TabState)
      → Moves user (rows s) (rows (reorder_tabs env user username ids s).1)
  unfolding reorder_tabs
  reorder_tabs-Moves [] s = same (rows s)
  reorder_tabs-Moves (first ∷ ids) s = elim (Bool-cases (first == "default")) [
    | inl e ↦ rw e (
        let r = update_order_by_user env.now user ids s.mgr.db in
        followed (update_order_by_user-Moves user env.now ids s.mgr.db)
          (stays user (settled_order-rows ids r.0 (record s { mgr = record s.mgr { db = r.1 } }))))
    | inr n ↦ rw n (same (rows s))
  ]

pub reorder_body-Moves :
    (env : Env) (body : Option (List String)) (user : ℕ) (username : String) (s : TabState)
    → Moves user (rows s) (rows (reorder_body env body user username s).1)
unfolding reorder_body
reorder_body-Moves env none user username s = same (rows s)
reorder_body-Moves env (some ids) user username s = reorder_tabs-Moves env user username ids s
