-- ===== src/Tabs/Repo/Order.antt =====
-- The order of a user's tabs: `UpdateOrderByUser` as a whole.
mod Loop
use etcdmonitor.Prelude.{
  ℕ, zero, suc, ◌+◌, ◌≤◌, ◌<◌, ◌≡◌, ◌≢◌, refl, sym, ap, ◌∙◌, String, Bool, true, false, List, [],
  ◌∷◌, ◌++◌, Option, none, some, leb, ltb, arith, All, Result, ok, err, ◌==◌, ==_refl, nat_eq,
  nat_beq_iff, string_eq, if◌then◌else◌, length, eq_iff, Bool-cases, inl, inr, map,
}
use etcdmonitor.Storage.Table.{select, query_row, count, update, delete, count-update}
use etcdmonitor.Storage.Table.Selected.{count-select, select-insert}
use etcdmonitor.Tabs.Repo.{
  Tab, TabDb, Healthy, RepoError, run_sql, owned, owned_id, by_order, place, next_order,
  list_by_user, moved, place_all, reorder, update_order_by_user, commit, create, insert_tab,
  new_row, tab_not_found,
}
use etcdmonitor.Tabs.Repo.Sorting.{
  tab_id, placed_at, AllPlaced, Sequence, Sequence-ids, by_order-Sequence,
}
use etcdmonitor.Tabs.Repo.Reads.{listed}
use etcdmonitor.Tabs.Repo.Order.Loop.{NoRepeat, AllOwned, place_all-AllPlaced}

committed :
    (before : List Tab) (r : Result RepoError (Unit {0}) × TabDb)
    → r.0 ≡ ok tt
    → Healthy r.1
    → commit before r ≡ (ok tt, record r.1 { statements = r.1.statements + 1 })
unfolding commit
committed before (err e, s) h healthy = absurd (ground arith)
committed before (ok _, s) h healthy = rw (healthy s.statements) refl

undone :
    (before : List Tab) (r : Result RepoError (Unit {0}) × TabDb)
    → (commit before r).0 ≢ ok tt
    → (commit before r).1.tabs ≡ before
unfolding commit
undone before (err e, s) h = refl
undone before (ok _, s) h = ground arith

module _ (user now : ℕ) where
  begun : TabDb → TabDb
  begun s = record s { statements = s.statements + 1 + 1 + 1 }

  -- The statements around the loop.
  update_order-Healthy :
      (ids : List String) (s : TabDb)
      → Healthy s
      → count (owned user) s.tabs ≡ length ids
      → update_order_by_user now user ids s ≡ commit s.tabs (place_all user now 0 ids (begun s))
  unfolding update_order_by_user reorder run_sql begun
  update_order-Healthy ids s healthy same =
      rw
        (
          healthy s.statements,
          healthy (s.statements + 1),
          healthy (s.statements + 1 + 1),
          same,
          ==_refl (length ids),
        )
        refl

  -- The user's rows after the reordering, when there is one ID for each.
  order_tx :
      (ids : List String) (s : TabDb)
      → Healthy s
      → NoRepeat ids
      → count (owned user) s.tabs ≡ length ids
      → AllOwned user ids s.tabs
      → let (r, t) = update_order_by_user now user ids s in
        (r ≡ ok tt)
        × (t.fails ≡ s.fails)
        × (count (owned user) t.tabs ≡ length ids)
        × AllPlaced user 0 ids t.tabs
  unfolding begun
  order_tx ids s healthy once same h =
      let (done, fine, number, placed) =
        place_all-AllPlaced user now 0 ids (begun s) once healthy h in
      let r = place_all user now 0 ids (begun s) in
      let healthy' : Healthy r.1 = λ n. ap (λ f. f n) fine ∙ healthy n in
      rw (update_order-Healthy ids s healthy same, committed s.tabs r done healthy')
        (refl, fine, number ∙ same, placed)

-- Among the selected rows a count of some of them is the count in the whole table.
count-in_select :
    (p q : Tab → Bool) (ts : List Tab)
    → ((t : Tab) → p t ≡ true → q t ≡ true)
    → count p (select q ts) ≡ count p ts
unfolding count select
count-in_select p q [] h = refl
count-in_select p q (t ∷ ts) h = ground (arith, count-in_select p q ts h, h t)

AllPlaced-select :
    (user i : ℕ) (ids : List String) (ts : List Tab)
    → AllPlaced user i ids ts
    → AllPlaced user i ids (select (owned user) ts)
AllPlaced-select user i [] ts h = tt
AllPlaced-select user i (id ∷ ids) ts h = (
  rw (count-in_select (placed_at user i id) (owned user) ts (λ t p. ground (arith, p))) h.0,
  AllPlaced-select user (i + 1) ids ts h.1,
)

-- When every statement is executed and the IDs name the user's tabs, each of them once, the call
-- succeeds and the user's list is then in the order of the IDs.
pub reordered :
    (user now : ℕ) (ids : List String) (s : TabDb)
    → Healthy s
    → NoRepeat ids
    → count (owned user) s.tabs ≡ length ids
    → AllOwned user ids s.tabs
    → let (r, t) = update_order_by_user now user ids s in
      (r ≡ ok tt) × ((ts : List Tab) × ((list_by_user user t).0 ≡ ok ts) × (map tab_id ts ≡ ids))
reordered user now ids s healthy once same h =
    let (done, fine, number, placed) = order_tx user now ids s healthy once same h in
    let t : TabDb = (update_order_by_user now user ids s).1 in
    let sorted : Sequence 0 ids (by_order (select (owned user) t.tabs)) =
      by_order-Sequence user 0 ids (select (owned user) t.tabs)
        (sym (count-select (owned user) t.tabs) ∙ number)
        (AllPlaced-select user 0 ids t.tabs placed) in
    (
      done,
      (
        by_order (select (owned user) t.tabs),
        listed user t (ap (λ f. f t.statements) fine ∙ healthy t.statements),
        Sequence-ids 0 ids _ sorted,
      ),
    )

-- A call that reports an error has moved no tab: every row is as it was.
pub reorder_undone :
    (user now : ℕ) (ids : List String) (s : TabDb)
    → (update_order_by_user now user ids s).0 ≢ ok tt
    → (update_order_by_user now user ids s).1.tabs ≡ s.tabs
unfolding update_order_by_user run_sql
reorder_undone user now ids s h =
    let s' : TabDb = record s { statements = s.statements + 1 } in
    ground (arith, undone s.tabs (reorder now user ids s'))
