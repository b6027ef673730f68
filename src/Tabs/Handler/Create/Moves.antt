-- ===== src/Tabs/Handler/Create/Moves.antt =====
-- What listing and creating do to the table of tabs.
use etcdmonitor.Prelude.{
  ℕ, ◌<◌, ◌≡◌, refl, sym, subst, ◌∙◌, String, Bool, List, Option, none, some, Result, ok, err,
  arith, ◌==◌, string_eq, Bool-cases, inl, inr, leb,
}
use etcdmonitor.Config.{Config}
use etcdmonitor.Storage.Table.{count}
use etcdmonitor.Tabs.Repo.{Tab, RepoError, owned, create, count_by_user, list_by_user}
use etcdmonitor.Tabs.Repo.Moves.{Moves, same, followed, stays}
use etcdmonitor.Tabs.Repo.Moves.Calls.{create-Moves}
use etcdmonitor.Tabs.Repo.Moves.Reads.{list_by_user-rows, count_by_user-rows, count_by_user-count}
use etcdmonitor.Tabs.Handler.{
  Env, TabState, log_audit, validate_scheme, check_member, connection, rows,
}
use etcdmonitor.Tabs.Handler.Create.{
  CreateTabRequest, tab_limit, new_tab, new_endpoint, new_name, audit, stored, encrypted, unmatched,
  connected, counted, create_tab, create_body, listed_tabs, list_tabs,
}

module _ (cfg : Config) (env : Env) (user : ℕ) (username : String) (req : CreateTabRequest) where
  stored-rows :
      (degraded : Bool) (r : Result RepoError Tab) (s : TabState)
      → rows (stored cfg env user username req degraded r s).1 ≡ rows s
  unfolding stored audit log_audit
  stored-rows degraded (err e) s = refl
  stored-rows degraded (ok t) s = refl

  encrypted-Moves :
      (degraded : Bool) (r : Result String (List ℕ)) (s : TabState)
      → count (owned user) (rows s) < 10
      → Moves user (rows s) (rows (encrypted cfg env user username req degraded r s).1)
  unfolding encrypted
  encrypted-Moves degraded (err e) s few = same (rows s)
  encrypted-Moves degraded (ok cipher) s few =
      let t =
        new_tab env user (new_endpoint cfg env user username req)
          (new_name cfg env user username req) req.username cipher in
      let r = create env.now env.uuid t s.mgr.db in
      followed (create-Moves user env.now env.uuid t s.mgr.db refl few)
        (stays user (stored-rows degraded r.0 (record s { mgr = record s.mgr { db = r.1 } })))

  unmatched-Moves :
      (r : Option String × Bool) (s : TabState)
      → count (owned user) (rows s) < 10
      → Moves user (rows s) (rows (unmatched cfg env user username req r s).1)
  unfolding unmatched audit log_audit
  unmatched-Moves (some url, degraded) s few = same (rows s)
  unmatched-Moves (none, degraded) s few = encrypted-Moves degraded (env.encrypt req.password) s few

  connected-Moves :
      (r : String × String) (s : TabState)
      → count (owned user) (rows s) < 10
      → Moves user (rows s) (rows (connected cfg env user username req r s).1)
  unfolding connected audit log_audit
  connected-Moves (status, err_msg) s few = elim (Bool-cases (status == "ok")) [
    | inl fine ↦ rw fine (
        let r = check_member cfg env (new_endpoint cfg env user username req) s in
        unmatched-Moves r.0 r.1 few)
    | inr bad ↦ rw bad (same (rows s))
  ]

  counted-Moves :
      (r : Result RepoError ℕ) (s : TabState)
      → ((n : ℕ) → r ≡ ok n → n ≡ count (owned user) (rows s))
      → Moves user (rows s) (rows (counted cfg env user username req r s).1)
  unfolding counted audit log_audit
  counted-Moves (err e) s h = same (rows s)
  counted-Moves (ok n) s h = elim (Bool-cases (leb tab_limit n)) [
    | inl full ↦ rw full (same (rows s))
    | inr free ↦ rw free (
        connected-Moves
          (env.test (connection (new_endpoint cfg env user username req) req.username req.password))
          s (ground (arith, free, h n refl)))
  ]

  pub create_tab-Moves :
      (s : TabState) → Moves user (rows s) (rows (create_tab cfg env user username req s).1)
  unfolding create_tab audit log_audit
  create_tab-Moves s =
      elim (Bool-cases (validate_scheme env (new_endpoint cfg env user username req))) [
        | inl fine ↦ rw fine (
            let r = count_by_user user s.mgr.db in
            let e = count_by_user-rows user s.mgr.db in
            followed (stays user e) (
              counted-Moves r.0 (record s { mgr = record s.mgr { db = r.1 } })
                (λ n h.
                  count_by_user-count user s.mgr.db n h
                  ∙ subst (λ l. count (owned user) (rows s) ≡ count (owned user) l) (sym e) refl)))
        | inr bad ↦ rw bad (same (rows s))
      ]

pub create_body-Moves :
    (cfg : Config) (env : Env) (body : Option CreateTabRequest) (user : ℕ) (username : String)
    (s : TabState)
    → Moves user (rows s) (rows (create_body cfg env body user username s).1)
unfolding create_body
create_body-Moves cfg env none user username s = same (rows s)
create_body-Moves cfg env (some req) user username s = create_tab-Moves cfg env user username req s

listed-rows :
    (cfg : Config) (r : Result RepoError (List Tab)) (s : TabState)
    → rows (listed_tabs cfg r s).1 ≡ rows s
unfolding listed_tabs
listed-rows cfg (err e) s = refl
listed-rows cfg (ok tabs) s = refl

pub list_tabs-rows :
    (cfg : Config) (user : ℕ) (s : TabState) → rows (list_tabs cfg user s).1 ≡ rows s
unfolding list_tabs
list_tabs-rows cfg user s =
    let r = list_by_user user s.mgr.db in
    listed-rows cfg r.0 (record s { mgr = record s.mgr { db = r.1 } })
    ∙ list_by_user-rows user s.mgr.db
