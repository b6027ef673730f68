-- ===== src/Tabs/Handler/Patch/Moves.antt =====
-- What changing a tab does to the table of tabs.
use etcdmonitor.Prelude.{
  ℕ, ◌≤◌, ◌≡◌, refl, sym, subst, ◌∙◌, String, true, List, Option, none, some, Result, ok, err, ◌==◌,
  string_eq, Bool-cases, inl, inr,
}
use etcdmonitor.Config.{Config}
use etcdmonitor.Config.Endpoints.{trim_space}
use etcdmonitor.Storage.Table.{count}
use etcdmonitor.Storage.Table.Distinct.{Distinct}
use etcdmonitor.Tabs.Repo.{Tab, PatchFields, RepoError, owned_id, get, update_by_user, or_kept}
use etcdmonitor.Tabs.Repo.Sorting.{tab_id}
use etcdmonitor.Tabs.Repo.Moves.{Moves, same, followed, stays}
use etcdmonitor.Tabs.Repo.Moves.Calls.{update_by_user-Moves, update_status-Moves}
use etcdmonitor.Tabs.Repo.Moves.Reads.{get-rows, get-count}
use etcdmonitor.Tabs.Handler.{
  Env, TabState, log_audit, validate_scheme, check_member, connection, rows, in_repo,
}
use etcdmonitor.Tabs.Handler.Rows.{repo_refusal-rows}
use etcdmonitor.Tabs.Handler.Patch.{
  PatchTabRequest, Checked, refused, accepted, given, answer_updated, updated, patch_with, settle,
  reset_status, unmatched_endpoint, connected_endpoint, tried_endpoint, check_endpoint,
  new_endpoint, found_for_patch, patch_tab,
}

module _ (cfg : Config) (env : Env) (user : ℕ) (username id : String) where
  answered-rows :
      (r : Result RepoError Tab) (s : TabState)
      → rows (answer_updated cfg env user username id r s).1 ≡ rows s
  unfolding answer_updated
  answered-rows (err e) s = refl
  answered-rows (ok t) s = refl

  updated-rows :
      (r : Result RepoError (Unit {0})) (s : TabState)
      → rows (updated cfg env user username id r s).1 ≡ rows s
  unfolding updated log_audit
  updated-rows (err e) s = repo_refusal-rows env username id e s
  updated-rows (ok _) s =
      let r = get id user s.mgr.db in
      let s' =
        log_audit env username "kv_tab_update" id "password=***" "ok" env.elapsed_ms true s in
      answered-rows r.0 (record s' { mgr = record s.mgr { db = r.1 } }) ∙ get-rows user id s.mgr.db

  stored_fields-Moves :
      (fields : PatchFields) (s : TabState)
      → Moves user (rows s) (
          rows
            (in_repo
              (update_by_user env.now id user fields)
              s
              (updated cfg env user username id)).1)
  stored_fields-Moves fields s =
      let r = update_by_user env.now id user fields s.mgr.db in
      followed (update_by_user-Moves user env.now id fields s.mgr.db)
        (stays user (updated-rows r.0 (record s { mgr = record s.mgr { db = r.1 } })))

  patch_with-Moves :
      (req : PatchTabRequest) (endpoint : Option String) (cipher : Option (Result String (List ℕ)))
      (s : TabState)
      → Moves user (rows s) (rows (patch_with cfg env user username id req endpoint cipher s).1)
  unfolding patch_with
  patch_with-Moves req endpoint none s = stored_fields-Moves _ s
  patch_with-Moves req endpoint (some (ok c)) s = stored_fields-Moves _ s
  patch_with-Moves req endpoint (some (err e)) s = same (rows s)

  abbrev checked_state : Checked → TabState
  checked_state (refused r s) = s
  checked_state (accepted endpoint s) = s

  settle-Moves :
      (req : PatchTabRequest) (c : Checked)
      → Moves user (rows (checked_state c)) (rows (settle cfg env user username id req c).1)
  unfolding settle
  settle-Moves req (refused r s) = same (rows s)
  settle-Moves req (accepted endpoint s) = patch_with-Moves req endpoint _ s

  module _ (s : TabState) (d : Distinct tab_id (rows s))
      (own : 1 ≤ count (owned_id id user) (rows s)) where
    unmatched-Moves :
        (endpoint : String) (o : Option String) (s' : TabState)
        → rows s' ≡ rows s
        → Moves user
            (rows s)
            (rows (checked_state (unmatched_endpoint cfg env user username id endpoint o s')))
    unfolding unmatched_endpoint reset_status
    unmatched-Moves endpoint (some url) s' e = stays user e
    unmatched-Moves endpoint none s' e = followed (stays user e) (
        update_status-Moves user id "ok" "" env.now s'.mgr.db (subst (Distinct tab_id) (sym e) d)
          (subst (λ l. 1 ≤ count (owned_id id user) l) (sym e) own))

    connected-Moves :
        (endpoint : String) (answer : String × String)
        → Moves user
            (rows s)
            (rows (checked_state (connected_endpoint cfg env user username id endpoint answer s)))
    unfolding connected_endpoint
    connected-Moves endpoint (status, err_msg) = elim (Bool-cases (status == "ok")) [
      | inl fine ↦
          rw fine
            (let r = check_member cfg env endpoint s in unmatched-Moves endpoint r.0.0 r.1 refl)
      | inr bad ↦ rw bad (same (rows s))
    ]

    tried-Moves :
        (endpoint account : String) (r : Result String String)
        → Moves user
            (rows s)
            (rows (checked_state (tried_endpoint cfg env user username id endpoint account r s)))
    unfolding tried_endpoint
    tried-Moves endpoint account (err e) = same (rows s)
    tried-Moves endpoint account (ok password) =
        connected-Moves endpoint (env.test (connection endpoint account password))

    check_endpoint-Moves :
        (req : PatchTabRequest) (existing : Tab) (endpoint : String)
        → Moves user
            (rows s)
            (rows (checked_state (check_endpoint cfg env user username id req existing endpoint s)))
    unfolding check_endpoint
    check_endpoint-Moves req existing endpoint = elim (Bool-cases (validate_scheme env endpoint)) [
      | inl e ↦ rw e (
          tried-Moves endpoint (or_kept req.username existing.username) (elim (given req.password) [
            | none ↦ env.decrypt existing.password_cipher
            | some p ↦ ok p
          ]))
      | inr e ↦ rw e (same (rows s))
    ]

    new_endpoint-Moves :
        (req : PatchTabRequest) (existing : Tab) (o : Option String)
        → Moves user
            (rows s)
            (rows (checked_state (new_endpoint cfg env user username id req existing o s)))
    unfolding new_endpoint
    new_endpoint-Moves req existing none = same (rows s)
    new_endpoint-Moves req existing (some endpoint) =
        elim (Bool-cases (endpoint == existing.endpoint)) [
          | inl e ↦ rw e (same (rows s))
          | inr n ↦ rw n (check_endpoint-Moves req existing (trim_space endpoint))
        ]

  found-Moves :
      (body : Option PatchTabRequest) (r : Result RepoError Tab) (s : TabState)
      → Distinct tab_id (rows s)
      → ((t : Tab) → r ≡ ok t → 1 ≤ count (owned_id id user) (rows s))
      → Moves user (rows s) (rows (found_for_patch cfg env user username id body r s).1)
  unfolding found_for_patch
  found-Moves body (err e) s d own = stays user (repo_refusal-rows env username id e s)
  found-Moves none (ok existing) s d own = same (rows s)
  found-Moves (some req) (ok existing) s d own =
      followed (new_endpoint-Moves s d (own existing refl) req existing req.endpoint)
        (settle-Moves req (new_endpoint cfg env user username id req existing req.endpoint s))

  pub patch_tab-Moves :
      (body : Option PatchTabRequest) (s : TabState)
      → Distinct tab_id (rows s)
      → Moves user (rows s) (rows (patch_tab cfg env user username id body s).1)
  unfolding patch_tab
  patch_tab-Moves body s d = elim (Bool-cases (id == "default")) [
    | inl e ↦ rw e (same (rows s))
    | inr n ↦ rw n (
        let r = get id user s.mgr.db in
        let e = get-rows user id s.mgr.db in
        followed (stays user e) (
          found-Moves body r.0 (record s { mgr = record s.mgr { db = r.1 } })
            (subst (Distinct tab_id) (sym e) d)
            (λ t h.
              subst (λ l. 1 ≤ count (owned_id id user) l) (sym e)
                (get-count user id s.mgr.db t h))))
  ]
