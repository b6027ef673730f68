-- ===== src/Tabs/Repo/Moves.antt =====
-- What a user's request may do to the table of tabs, as a relation between the rows before and
-- after it.
pub mod Calls
pub mod Reads
use etcdmonitor.Prelude.{
  ℕ, ◌+◌, ◌≤◌, ◌<◌, ◌≡◌, ◌≢◌, refl, sym, ap, subst, ◌∙◌, String, List, [], ◌∷◌, ◌++◌, Option, none,
  some, Result, ok, err, arith, ◌==◌, nat_eq, string_eq, nat_beq_iff, eq_iff, Bool-cases,
  Result-cases, Option-cases, or_fail, inl, inr, length,
}
use etcdmonitor.Storage.Table.{
  select, count, count-some, update, delete, query_row, update-none, count-update, count-delete_le,
  count-append,
}
use etcdmonitor.Storage.Table.Selected.{select-update_ne, select-delete_ne, select-insert}
use etcdmonitor.Storage.Table.Distinct.{Distinct, Distinct-update, Distinct-delete, Distinct-insert}
use etcdmonitor.Tabs.Repo.Sorting.{tab_id}
use etcdmonitor.Tabs.Repo.{
  Tab, TabDb, PatchFields, RepoError, run_sql, owned, owned_id, with_id, create, insert_tab,
  new_row, update_by_user, patched, update_status, delete_by_user, update_order_by_user, reorder,
  place_all, commit, moved, affecting, get, list_by_user, count_by_user, by_order, tab_not_found,
}

-- A change of a row that keeps its ID and its owner
abbrev pub Keeps : (Tab → Tab) → Type 0
Keeps f = (t : Tab) → ((f t).id ≡ t.id) × ((f t).created_by_user_id ≡ t.created_by_user_id)

-- A user may add a row of theirs under a new ID while they have fewer than ten, change or remove
-- their own rows, and any of this after the other.
pub data Moves (user : ℕ) : List Tab → List Tab → Type 0 where
  same : (ts : List Tab) → Moves user ts ts
  added :
      (row : Tab) (ts : List Tab)
      → row.created_by_user_id ≡ user
      → count (with_id row.id) ts ≡ 0
      → count (owned user) ts < 10
      → Moves user ts (ts ++ row ∷ [])
  changed :
      (id : String) (f : Tab → Tab) (ts : List Tab)
      → Keeps f
      → Moves user ts (update (owned_id id user) f ts)
  removed : (id : String) (ts : List Tab) → Moves user ts (delete (owned_id id user) ts)
  followed : {ts us vs : List Tab} → Moves user ts us → Moves user us vs → Moves user ts vs

module _ (user : ℕ) where
  pub Moves-Distinct :
      {ts us : List Tab} → Moves user ts us → Distinct tab_id ts → Distinct tab_id us
  Moves-Distinct (same ts) d = d
  Moves-Distinct (added row ts own fresh few) d = Distinct-insert tab_id row ts fresh d
  Moves-Distinct (changed id f ts k) d =
      Distinct-update tab_id (owned_id id user) f ts (λ t. (k t).0) d
  Moves-Distinct (removed id ts) d = Distinct-delete tab_id (owned_id id user) ts d
  Moves-Distinct (followed m n) d = Moves-Distinct n (Moves-Distinct m d)

  pub Moves-limit :
      {ts us : List Tab} (other : ℕ)
      → Moves user ts us
      → count (owned other) ts ≤ 10
      → count (owned other) us ≤ 10
  unfolding count
  Moves-limit other (same ts) h = h
  Moves-limit other (added row ts own fresh few) h = ground (
    arith,
    count-append (owned other) ts (row ∷ []),
    nat_beq_iff row.created_by_user_id other,
    own,
    few,
    other_count other row.created_by_user_id ts,
  )
    where
      other_count : (a b : ℕ) (ts : List Tab) → a ≡ b → count (owned a) ts ≡ count (owned b) ts
      other_count a b ts e = rw e refl
  Moves-limit other (changed id f ts k) h =
      let e =
        count-update (owned_id id user) (owned other) f ts (λ t. ap (λ n. n == other) (k t).1) in
      omega (arith, e)
  Moves-limit other (removed id ts) h =
      omega (arith, count-delete_le (owned_id id user) (owned other) ts)
  Moves-limit other (followed m n) h = Moves-limit other n (Moves-limit other m h)

  pub Moves-others :
      {ts us : List Tab} (other : ℕ)
      → user ≢ other
      → Moves user ts us
      → select (owned other) us ≡ select (owned other) ts
  Moves-others other ne (same ts) = refl
  Moves-others other ne (added row ts own fresh few) =
      ground (
        arith,
        select-insert (owned other) row ts,
        nat_beq_iff row.created_by_user_id other,
        own,
        ne,
      )
  Moves-others other ne (changed id f ts k) =
      select-update_ne (owned_id id user) (owned other) f ts (λ t h. ground (
        arith,
        (k t).1,
        nat_beq_iff t.created_by_user_id user,
        nat_beq_iff t.created_by_user_id other,
        nat_beq_iff (f t).created_by_user_id other,
        ne,
      ))
  Moves-others other ne (removed id ts) =
      select-delete_ne (owned_id id user) (owned other) ts (λ t h.
        ground (
          arith,
          nat_beq_iff t.created_by_user_id user,
          nat_beq_iff t.created_by_user_id other,
          ne,
        ))
  Moves-others other ne (followed m n) = Moves-others other ne n ∙ Moves-others other ne m

  pub stays : {ts us : List Tab} → us ≡ ts → Moves user ts us
  stays {ts} e = subst (Moves user ts) (sym e) (same ts)
