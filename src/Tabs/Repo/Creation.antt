-- ===== src/Tabs/Repo/Creation.antt =====
-- Where a new tab stands, and what a partial update leaves.
use etcdmonitor.Prelude.{
  ℕ, ◌+◌, ◌≤◌, ◌≡◌, refl, sym, ap, ◌∙◌, String, false, [], ◌∷◌, ◌++◌, some, arith, ok, or_fail,
  nat_eq, string_eq,
}
use etcdmonitor.Storage.Table.{query_row, count, update, query_row-update_self, count-some}
use etcdmonitor.Tabs.Repo.Reads.{got, found}
use etcdmonitor.Tabs.Repo.{
  Tab, TabDb, Healthy, PatchFields, patched, run_sql, owned_id, new_row, get, update_by_user,
  tab_not_found,
}

module _ (now : ℕ) (id : String) (t : Tab) (s : TabDb) where
  added : TabDb
  added = record s {
    tabs = s.tabs ++ new_row now id t s.tabs ∷ [];
    statements = s.statements + 1 + 1;
  }

updated_state :
    (now : ℕ) (id : String) (user : ℕ) (fields : PatchFields) (s : TabDb)
    → s.fails s.statements ≡ false
    → 1 ≤ count (owned_id id user) s.tabs
    → update_by_user now id user fields s ≡ (
      ok tt,
      record s {
        tabs = update (owned_id id user) (patched now fields) s.tabs;
        statements = s.statements + 1;
      },
    )
unfolding update_by_user run_sql
updated_state now id user fields s fine h = ground (arith, fine, h)

-- When every statement is executed, an update of a user's own tab is what `Get` then returns: the
-- given fields have their new values, and the others the old ones.
pub update-get :
    (now : ℕ) (id : String) (user : ℕ) (fields : PatchFields) (t : Tab) (s : TabDb)
    → Healthy s
    → (get id user s).0 ≡ ok t
    → let (r, after) = update_by_user now id user fields s in
      (r ≡ ok tt) × ((get id user after).0 ≡ ok (patched now fields t))
unfolding patched
update-get now id user fields t s healthy h =
    let p = owned_id id user in
    let here : query_row p s.tabs ≡ some t =
      found (query_row p s.tabs) t (sym (got id user s (healthy s.statements)) ∙ h) in
    let after : TabDb = record s {
      tabs = update p (patched now fields) s.tabs;
      statements = s.statements + 1;
    } in
    let done =
      updated_state now id user fields s (healthy s.statements) (count-some p s.tabs t here) in
    (
      rw done refl,
      rw done (
          got id user after (healthy after.statements)
          ∙ ap (λ o. or_fail o tab_not_found)
              (query_row-update_self p (patched now fields) s.tabs t (λ u. refl) here)),
    )
