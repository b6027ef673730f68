-- ===== src/Tabs/Handler/Patch.antt =====
-- `handlePatch` (internal/kvmanager/tabs/handler.go).
pub mod Moves
use Prim.Native.String
use etcdmonitor.Prelude.{
  ℕ, ◌+◌, String, Bool, true, false, ◌&&◌, List, [], ◌∷◌, Option, none, some, Result, ok, err, ◌==◌,
  string_eq, if◌then◌else◌, ◌≡◌, refl,
}
use etcdmonitor.Config.{Config}
use etcdmonitor.Config.Endpoints.{trim_space}
use etcdmonitor.Tabs.Repo.{
  Tab, TabDb, PatchFields, RepoError, tab_not_found, order_mismatch, get, update_by_user,
  update_status, delete_by_user, update_order_by_user, or_kept,
}
use etcdmonitor.Tabs.Handler.{
  Env, TabState, TabResponse, Body, Response, failed, matched, tab_body, tested, done, no_content,
  crashed, reply, refuse, tab_to_response, is_not_found, is_mismatch, repo_refusal, log_audit,
  log_cross_user_attempt, in_repo, as_user, as_named_user, validate_scheme, check_member, test_code,
  connection,
}

-- `none` is a field that the body does not give.
pub record PatchTabRequest : Type 0 where
  pub endpoint : Option String
  pub name : Option String
  pub username : Option String
  pub password : Option String

-- `req.Password != nil && *req.Password != ""`
abbrev given : Option String → Option String
given none = none
given (some p) = if p == "" then none else some p

-- What the checks of a new endpoint end in: a refusal, or the endpoint that is to be stored.
pub data Checked : Type 0 where
  refused : Response → TabState → Checked
  accepted : Option String → TabState → Checked

module _ (cfg : Config) (env : Env) (user : ℕ) (username id : String) where
  answer_updated : Result RepoError Tab → TabState → Response × TabState
  answer_updated (err e) s = (reply 500 crashed, s)
  answer_updated (ok t) s = (reply 200 (tab_body (tab_to_response t) false), s)

  updated : Result RepoError (Unit {0}) → TabState → Response × TabState
  unfolding answer_updated log_audit repo_refusal
  updated (err e) s = repo_refusal env username id e s
  updated (ok _) s =
      in_repo (get id user)
        (log_audit env username "kv_tab_update" id "password=***" "ok" env.elapsed_ms true s)
        answer_updated

  patch_with :
      PatchTabRequest
      → Option String
      → Option (Result String (List ℕ))
      → TabState
      → Response × TabState
  unfolding updated
  patch_with req endpoint (some (err e)) s = refuse 500 "ENCRYPT_FAILED" s
  patch_with req endpoint (some (ok cipher)) s =
      in_repo
        (update_by_user env.now id user (record {
          name = req.name;
          endpoint = endpoint;
          username = req.username;
          password_cipher = some cipher;
          updated_at = none;
        }))
        s updated
  patch_with req endpoint none s =
      in_repo
        (update_by_user env.now id user (record {
          name = req.name;
          endpoint = endpoint;
          username = req.username;
          password_cipher = none;
          updated_at = none;
        }))
        s updated

  -- The fields besides the endpoint, once that is settled.
  settle : PatchTabRequest → Checked → Response × TabState
  unfolding patch_with
  settle req (refused r s) = (r, s)
  settle req (accepted endpoint s) =
      patch_with req endpoint
        (elim (given req.password) [ none ↦ none | some p ↦ some (env.encrypt p) ]) s

  -- A status that could not be reset is ignored.
  reset_status : TabState → TabState
  reset_status s = record s {
    mgr = record s.mgr { db = (update_status id "ok" "" env.now s.mgr.db).1 };
  }

  unmatched_endpoint : String → Option String → TabState → Checked
  unfolding reset_status
  unmatched_endpoint endpoint (some url) s = refused (reply 409 (matched url)) s
  unmatched_endpoint endpoint none s = accepted (some endpoint) (reset_status s)

  connected_endpoint : String → String × String → TabState → Checked
  unfolding unmatched_endpoint
  connected_endpoint endpoint (status, err_msg) s =
      if status == "ok"
      then (let r = check_member cfg env endpoint s in unmatched_endpoint endpoint r.0.0 r.1)
      else refused (reply 400 (failed (test_code status))) s

  -- The password that is tested: the given one, or the stored one.
  tried_endpoint : String → String → Result String String → TabState → Checked
  unfolding connected_endpoint
  tried_endpoint endpoint account (err e) s = refused (reply 500 (failed "KV_TAB_KEK_MISSING")) s
  tried_endpoint endpoint account (ok password) s =
      connected_endpoint endpoint (env.test (connection endpoint account password)) s

  check_endpoint : PatchTabRequest → Tab → String → TabState → Checked
  unfolding tried_endpoint or_kept
  check_endpoint req existing endpoint s =
      if validate_scheme env endpoint
      then tried_endpoint endpoint (or_kept req.username existing.username)
          (elim (given req.password) [
            | none ↦ env.decrypt existing.password_cipher
            | some p ↦ ok p
          ])
          s
      else refused (reply 400 (failed "KV_TAB_INVALID_SCHEME")) s

  -- `req.Endpoint != nil && *req.Endpoint != existing.Endpoint`
  new_endpoint : PatchTabRequest → Tab → Option String → TabState → Checked
  unfolding check_endpoint
  new_endpoint req existing none s = accepted none s
  new_endpoint req existing (some endpoint) s =
      if endpoint == existing.endpoint
      then accepted none s
      else check_endpoint req existing (trim_space endpoint) s

  found_for_patch : Option PatchTabRequest → Result RepoError Tab → TabState → Response × TabState
  unfolding settle new_endpoint repo_refusal
  found_for_patch body (err e) s = repo_refusal env username id e s
  found_for_patch none (ok existing) s = refuse 400 "BAD_REQUEST" s
  found_for_patch (some req) (ok existing) s = settle req (new_endpoint req existing req.endpoint s)

  unfoldable pub patch_tab : Option PatchTabRequest → TabState → Response × TabState
  unfolding found_for_patch
  patch_tab body s =
      if id == "default"
      then refuse 400 "KV_TAB_DEFAULT_PROTECTED" s
      else in_repo (get id user) s (found_for_patch body)

unfoldable pub handle_patch :
    Config → Env → String → Option PatchTabRequest → TabState → Response × TabState
unfolding as_named_user patch_tab
handle_patch cfg env id body s =
    as_named_user env (λ user username s1. patch_tab cfg env user username id body s1) s
