-- ===== src/Tabs/Repo/Reads.antt =====
-- What the SELECTs of `SQLiteRepo` return when the driver executes them.
use etcdmonitor.Prelude.{ℕ, ◌≡◌, ◌≢◌, refl, String, false, Option, none, some, ok, err, or_fail}
use etcdmonitor.Storage.Table.{select, query_row}
use etcdmonitor.Tabs.Repo.{
  Tab, TabDb, RepoError, run_sql, owned, owned_id, by_order, list_by_user, get, tab_not_found,
}

pub listed :
    (user : ℕ) (s : TabDb)
    → s.fails s.statements ≡ false
    → (list_by_user user s).0 ≡ ok (by_order (select (owned user) s.tabs))
unfolding list_by_user run_sql
listed user s fine = rw fine refl

pub got :
    (id : String) (user : ℕ) (s : TabDb)
    → s.fails s.statements ≡ false
    → (get id user s).0 ≡ or_fail (query_row (owned_id id user) s.tabs) tab_not_found
unfolding get run_sql
got id user s fine = rw fine refl

ok_differs : (e : RepoError) (t : Tab) → err e ≢ ok t
ok_differs e t h = cc

pub found : (o : Option Tab) (t : Tab) → or_fail o tab_not_found ≡ ok t → o ≡ some t
found none t h = absurd (ok_differs tab_not_found t h)
found (some u) t h = cc
