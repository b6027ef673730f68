-- ===== src/Tabs/Manager/Resolution.antt =====
-- Whose tab a request reaches.
use etcdmonitor.Prelude.{
  ℕ, ◌≡◌, ◌≢◌, refl, ap, ◌∙◌, sym, String, Bool, List, Option, none, some, Result, ok, err, arith,
  or_fail, nat_eq, string_eq, if◌then◌else◌, eq_iff, Bool-cases, inl, inr,
}
use etcdmonitor.Storage.Table.{query_row}
use etcdmonitor.Tabs.Repo.{
  Tab, TabDb, RepoError, get, run_sql, owned_id, tab_not_found, repo_database,
}
use etcdmonitor.Tabs.Manager.Conn.{ConnectionConfig}
use etcdmonitor.Tabs.Manager.{
  TabManager, ResolveError, repo_failed, decrypt_failed, opened, from_tab, resolve, tab_connection,
}

-- The connection of one of a user's own tabs
pub record OwnTab (decrypt : List ℕ → Result String String) (id : String) (user : ℕ)
    (tabs : List Tab) (c : ConnectionConfig) : Type 0 where
  pub tab : Tab
  pub password : String
  pub row : query_row (owned_id id user) tabs ≡ some tab
  pub key : decrypt tab.password_cipher ≡ ok password
  pub connection : c ≡ tab_connection tab password

differ : (e : ResolveError) (c : ConnectionConfig) → err e ≢ ok c
differ e c h = cc

module _ (decrypt : List ℕ → Result String String) (id : String) (user : ℕ)
    (c : ConnectionConfig) where
  opened-OwnTab :
      (tabs : List Tab) (t : Tab) (r : Result String String)
      → query_row (owned_id id user) tabs ≡ some t
      → decrypt t.password_cipher ≡ r
      → opened t r ≡ ok c
      → OwnTab decrypt id user tabs c
  unfolding opened
  opened-OwnTab tabs t (err e) row key h = absurd (differ (decrypt_failed e) c h)
  opened-OwnTab tabs t (ok password) row key h = record {
    tab = t;
    password = password;
    row = row;
    key = key;
    connection = ok_eq;
  }
    where
      ok_eq : c ≡ tab_connection t password
      ok_eq = cc

  from_tab-OwnTab :
      (tabs : List Tab) (o : Option Tab)
      → query_row (owned_id id user) tabs ≡ o
      → from_tab decrypt (or_fail o tab_not_found) ≡ ok c
      → OwnTab decrypt id user tabs c
  unfolding from_tab
  from_tab-OwnTab tabs none row h = absurd (differ (repo_failed tab_not_found) c h)
  from_tab-OwnTab tabs (some t) row h = opened-OwnTab tabs t (decrypt t.password_cipher) row refl h

  resolve_named :
      (given : Result ResolveError ConnectionConfig) (m : TabManager)
      → id ≢ ""
      → id ≢ "default"
      → resolve decrypt given id user m
        ≡ (from_tab decrypt (get id user m.db).0, record m { db = (get id user m.db).1 })
  unfolding resolve
  resolve_named given m ne1 ne2 = ground (arith, eq_iff id "", eq_iff id "default", ne1, ne2)

  get_tabs : (s : TabDb) → (get id user s).1.tabs ≡ s.tabs
  unfolding get run_sql
  get_tabs s = ground arith

  -- The reply of `get`, by whether the statement fails
  got : Bool → TabDb → Result RepoError Tab
  got b s =
      if b then err repo_database else or_fail (query_row (owned_id id user) s.tabs) tab_not_found

  get-got : (s : TabDb) → (get id user s).0 ≡ got (s.fails s.statements) s
  unfolding get run_sql got
  get-got s = ground arith

  pub resolve_own :
      (given : Result ResolveError ConnectionConfig) (m : TabManager)
      → id ≢ ""
      → id ≢ "default"
      → (resolve decrypt given id user m).0 ≡ ok c
      → (OwnTab decrypt id user m.db.tabs c)
        × ((resolve decrypt given id user m).1.db.tabs ≡ m.db.tabs)
  unfolding got from_tab
  resolve_own given m ne1 ne2 h =
      let named = resolve_named given m ne1 ne2 in
      (
        elim (Bool-cases (m.db.fails m.db.statements)) [
          | inl down ↦ absurd (
              differ (repo_failed repo_database) c (
                sym (ap (λ b. from_tab decrypt (got b m.db)) down)
                ∙ sym (ap (from_tab decrypt) (get-got m.db))
                ∙ sym (ap (λ r. r.0) named)
                ∙ h))
          | inr fine ↦ from_tab-OwnTab m.db.tabs (query_row (owned_id id user) m.db.tabs) refl (
              sym (ap (λ b. from_tab decrypt (got b m.db)) fine)
              ∙ sym (ap (from_tab decrypt) (get-got m.db))
              ∙ sym (ap (λ r. r.0) named)
              ∙ h)
        ],
        rw named (get_tabs m.db),
      )
