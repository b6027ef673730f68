-- ===== src/Tabs/Handler/Change.antt =====
-- `handleDelete`, `handleTest` and `handleReorder` (internal/kvmanager/tabs/handler.go).
pub mod Moves
use Prim.Native.String
use etcdmonitor.Prelude.{
  ℕ, ◌+◌, String, Bool, true, false, ◌&&◌, List, [], ◌∷◌, Option, none, some, Result, ok, err, ◌==◌,
  string_eq, if◌then◌else◌, ◌≡◌, refl,
}
use etcdmonitor.Config.{Config}
use etcdmonitor.Config.Endpoints.{trim_space}
use etcdmonitor.Tabs.Repo.{
  Tab, TabDb, PatchFields, RepoError, tab_not_found, order_mismatch, get, update_by_user,
  update_status, delete_by_user, update_order_by_user, or_kept,
}
use etcdmonitor.Tabs.Handler.{
  Env, TabState, TabResponse, Body, Response, failed, matched, tab_body, tested, done, no_content,
  crashed, reply, refuse, tab_to_response, is_not_found, is_mismatch, repo_refusal, log_audit,
  log_cross_user_attempt, in_repo, as_user, as_named_user, validate_scheme, check_member, test_code,
  connection,
}

module _ (env : Env) (user : ℕ) (username id : String) where
  deleted : Result RepoError (Unit {0}) → TabState → Response × TabState
  unfolding repo_refusal log_audit
  deleted (err e) s = repo_refusal env username id e s
  deleted (ok _) s = (
    reply 204 no_content,
    log_audit env username "kv_tab_delete" id "" "ok" env.elapsed_ms true s,
  )

  unfoldable pub delete_tab : TabState → Response × TabState
  unfolding deleted
  delete_tab s =
      if id == "default"
      then refuse 400 "KV_TAB_DEFAULT_PROTECTED" s
      else in_repo (delete_by_user id user) s deleted

-- `none` is the nil pointer. An error of the binding is ignored: the fields are those it filled in.
pub record TestTabRequest : Type 0 where
  pub username : Option String
  pub password : Option String

abbrev test_answer : String × String → Response
test_answer (status, err_msg) =
    if status == "ok" then reply 200 (tested status "") else reply 400 (tested status err_msg)

module _ (env : Env) (user : ℕ) (username id : String) (req : TestTabRequest) where
  test_with : Tab → Result String String → TabState → Response × TabState
  unfolding or_kept
  test_with t (err e) s = refuse 500 "KV_TAB_KEK_MISSING" s
  test_with t (ok password) s =
      (test_answer (env.test (connection t.endpoint (or_kept req.username t.username) password)), s)

  found_for_test : Result RepoError Tab → TabState → Response × TabState
  unfolding test_with repo_refusal
  found_for_test (err e) s = repo_refusal env username id e s
  found_for_test (ok t) s =
      test_with t (elim req.password [ none ↦ env.decrypt t.password_cipher | some p ↦ ok p ]) s

  unfoldable pub test_tab : TabState → Response × TabState
  unfolding found_for_test
  test_tab s =
      if id == "default"
      then refuse 400 "KV_TAB_DEFAULT_PROTECTED" s
      else in_repo (get id user) s found_for_test

-- `strings.Join(ids, ",")`
unfoldable pub join_ids : List String → String
join_ids [] = ""
join_ids (id ∷ []) = id
join_ids (id ∷ next ∷ ids) = String.◌++◌ id (String.◌++◌ "," (join_ids (next ∷ ids)))

module _ (env : Env) (user : ℕ) (username : String) where
  settled_order : List String → Result RepoError (Unit {0}) → TabState → Response × TabState
  unfolding log_audit log_cross_user_attempt join_ids
  settled_order ids (err e) s =
      if is_mismatch e
      then refuse 409 "KV_TAB_ORDER_MISMATCH" s
      else if is_not_found e
      then refuse 400 "KV_TAB_NOT_FOUND" (log_cross_user_attempt env username (join_ids ids) s)
      else refuse 500 "INTERNAL" s
  settled_order ids (ok _) s = (
    reply 200 done,
    log_audit env username "kv_tab_reorder" "" (String.◌++◌ "ids=" (join_ids ("default" ∷ ids)))
        "ok" env.elapsed_ms true s,
  )

  -- The body's list of IDs; the default tab has to be its first.
  unfoldable pub reorder_tabs : List String → TabState → Response × TabState
  unfolding settled_order
  reorder_tabs [] s = refuse 400 "KV_TAB_DEFAULT_FIRST_REQUIRED" s
  reorder_tabs (first ∷ ids) s =
      if first == "default"
      then in_repo (update_order_by_user env.now user ids) s (settled_order ids)
      else refuse 400 "KV_TAB_DEFAULT_FIRST_REQUIRED" s

unfoldable pub handle_delete : Env → String → TabState → Response × TabState
unfolding as_named_user delete_tab
handle_delete env id s =
    as_named_user env (λ user username s1. delete_tab env user username id s1) s

unfoldable pub handle_test : Env → String → TestTabRequest → TabState → Response × TabState
unfolding as_named_user test_tab
handle_test env id req s =
    as_named_user env (λ user username s1. test_tab env user username id req s1) s

-- `none` is a body that does not bind.
unfoldable pub reorder_body :
    Env → Option (List String) → ℕ → String → TabState → Response × TabState
unfolding reorder_tabs
reorder_body env none user username s = refuse 400 "BAD_REQUEST" s
reorder_body env (some ids) user username s = reorder_tabs env user username ids s

unfoldable pub handle_reorder : Env → Option (List String) → TabState → Response × TabState
unfolding as_named_user reorder_body
handle_reorder env body s = as_named_user env (reorder_body env body) s
