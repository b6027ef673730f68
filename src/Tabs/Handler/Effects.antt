-- ===== src/Tabs/Handler/Effects.antt =====
-- What one request does to the table of tabs: nothing where no user is signed in, and otherwise
-- only what the signed-in user may do.
use etcdmonitor.Prelude.{
  ℕ, ◌≤◌, ◌≡◌, ◌≢◌, refl, sym, ap, subst, ◌∙◌, String, List, [], ◌∷◌, Option, none, some, nat_eq,
  string_eq,
}
use etcdmonitor.Config.{Config}
use etcdmonitor.Storage.Table.{count, select}
use etcdmonitor.Storage.Table.Distinct.{Distinct}
use etcdmonitor.Tabs.Repo.{Tab, owned}
use etcdmonitor.Tabs.Repo.Sorting.{tab_id}
use etcdmonitor.Tabs.Repo.Moves.{Moves, Moves-Distinct, Moves-limit, Moves-others, followed, stays}
use etcdmonitor.Tabs.Handler.{
  rows, Env, TabState, Response, current_user_id, current_username, admitted, with_name, as_user,
  as_named_user,
}
use etcdmonitor.Tabs.Handler.Create.{
  CreateTabRequest, create_body, handle_create, list_tabs, handle_list,
}
use etcdmonitor.Tabs.Handler.Create.Moves.{create_body-Moves, list_tabs-rows}
use etcdmonitor.Tabs.Handler.Patch.Moves.{patch_tab-Moves}
use etcdmonitor.Tabs.Handler.Change.Moves.{delete_tab-Moves, test_tab-rows, reorder_body-Moves}
use etcdmonitor.Tabs.Handler.Patch.{PatchTabRequest, handle_patch, patch_tab}
use etcdmonitor.Tabs.Handler.Change.{
  TestTabRequest, handle_delete, handle_test, handle_reorder, delete_tab, test_tab, reorder_body,
}

-- The requests of the route group /api/kv/tabs
pub data TabRequest : Type 0 where
  list_request : TabRequest
  create_request : Option CreateTabRequest → TabRequest
  patch_request : String → Option PatchTabRequest → TabRequest
  delete_request : String → TabRequest
  test_request : String → TestTabRequest → TabRequest
  reorder_request : Option (List String) → TabRequest

unfoldable pub handle : Config → Env → TabRequest → TabState → Response × TabState
handle cfg env list_request s = handle_list cfg env s
handle cfg env (create_request body) s = handle_create cfg env body s
handle cfg env (patch_request id body) s = handle_patch cfg env id body s
handle cfg env (delete_request id) s = handle_delete env id s
handle cfg env (test_request id req) s = handle_test env id req s
handle cfg env (reorder_request body) s = handle_reorder env body s

-- The user whose session the request carries
abbrev pub user_of : Env → TabState → Option ℕ
user_of env s = (current_user_id env.now env.request s.sessions).0

abbrev pub Effect : Option ℕ → List Tab → List Tab → Type 0
Effect none before after = after ≡ before
Effect (some user) before after = Moves user before after

admitted-Effect :
    (k : ℕ → TabState → Response × TabState) (who : Option ℕ) (s : TabState)
    → ((user : ℕ) (s' : TabState) → rows s' ≡ rows s → Moves user (rows s) (rows (k user s').1))
    → (s' : TabState) → rows s' ≡ rows s
    → Effect who (rows s) (rows (admitted k who s').1)
unfolding admitted
admitted-Effect k none s h s' e = e
admitted-Effect k (some user) s h s' e = h user s' e

as_user-Effect :
    (env : Env) (k : ℕ → TabState → Response × TabState) (s : TabState)
    → ((user : ℕ) (s' : TabState) → rows s' ≡ rows s → Moves user (rows s) (rows (k user s').1))
    → Effect (user_of env s) (rows s) (rows (as_user env k s).1)
unfolding as_user
as_user-Effect env k s h =
    let who = current_user_id env.now env.request s.sessions in
    admitted-Effect k who.0 s h (record s { sessions = who.1 }) refl

as_named_user-Effect :
    (env : Env) (k : ℕ → String → TabState → Response × TabState) (s : TabState)
    → ((user : ℕ) (name : String) (s' : TabState)
        → rows s' ≡ rows s
        → Moves user (rows s) (rows (k user name s').1))
    → Effect (user_of env s) (rows s) (rows (as_named_user env k s).1)
unfolding as_named_user
as_named_user-Effect env k s h = as_user-Effect env (with_name env k) s (λ user s' e.
    let named = current_username env.now env.request s'.sessions in
    h user named.0 (record s' { sessions = named.1 }) e)

-- What a request does to the table is nothing where no user is signed in, and otherwise what the
-- user may do: no other way in leads to the rows.
pub handle-Effect :
    (cfg : Config) (env : Env) (request : TabRequest) (s : TabState)
    → Distinct tab_id (rows s)
    → Effect (user_of env s) (rows s) (rows (handle cfg env request s).1)
unfolding handle handle_list handle_create handle_patch handle_delete handle_test handle_reorder
handle-Effect cfg env list_request s d =
    as_user-Effect env (list_tabs cfg) s
      (λ user s' e. followed (stays user e) (stays user (list_tabs-rows cfg user s')))
handle-Effect cfg env (create_request body) s d =
    as_named_user-Effect env (create_body cfg env body) s
      (λ user name s' e. followed (stays user e) (create_body-Moves cfg env body user name s'))
handle-Effect cfg env (patch_request id body) s d =
    as_named_user-Effect env (λ user name s'. patch_tab cfg env user name id body s') s
      (λ user name s' e.
        followed (stays user e)
          (patch_tab-Moves cfg env user name id body s' (subst (Distinct tab_id) (sym e) d)))
handle-Effect cfg env (delete_request id) s d =
    as_named_user-Effect env (λ user name s'. delete_tab env user name id s') s
      (λ user name s' e. followed (stays user e) (delete_tab-Moves env user name id s'))
handle-Effect cfg env (test_request id req) s d =
    as_named_user-Effect env (λ user name s'. test_tab env user name id req s') s
      (λ user name s' e.
        followed (stays user e) (stays user (test_tab-rows env user name id req s')))
handle-Effect cfg env (reorder_request body) s d =
    as_named_user-Effect env (reorder_body env body) s
      (λ user name s' e. followed (stays user e) (reorder_body-Moves env body user name s'))

Effect-Distinct :
    (who : Option ℕ) (ts us : List Tab) → Effect who ts us → Distinct tab_id ts → Distinct tab_id us
Effect-Distinct none ts us e d = subst (Distinct tab_id) (sym e) d
Effect-Distinct (some user) ts us m d = Moves-Distinct user m d

Effect-limit :
    (who : Option ℕ) (ts us : List Tab) (other : ℕ)
    → Effect who ts us
    → count (owned other) ts ≤ 10
    → count (owned other) us ≤ 10
Effect-limit none ts us other e h = subst (λ l. count (owned other) l ≤ 10) (sym e) h
Effect-limit (some user) ts us other m h = Moves-limit user other m h

Effect-others :
    (who : Option ℕ) (ts us : List Tab) (other : ℕ)
    → who ≢ some other
    → Effect who ts us
    → select (owned other) us ≡ select (owned other) ts
Effect-others none ts us other ne e = ap (select (owned other)) e
Effect-others (some user) ts us other ne m = Moves-others user other (λ p. ne (ap some p)) m

-- Requests that are handled one after the other, with what each of them meets
unfoldable pub run_requests : Config → List (Env × TabRequest) → TabState → TabState
unfolding handle
run_requests cfg [] s = s
run_requests cfg ((env, request) ∷ rest) s = run_requests cfg rest (handle cfg env request s).1

-- No request in the run carries a live session of the user.
abbrev pub NeverBy : ℕ → Config → List (Env × TabRequest) → TabState → Type 0
NeverBy other cfg [] s = Unit
NeverBy other cfg ((env, request) ∷ rest) s =
    (user_of env s ≢ some other) × NeverBy other cfg rest (handle cfg env request s).1

-- Requests of any users, handled one after the other, whatever the driver, the clusters and the
-- key manager answer, keep the IDs of tabs unique and every user at ten tabs or fewer.
pub requests_limited :
    (cfg : Config) (requests : List (Env × TabRequest)) (s : TabState)
    → Distinct tab_id (rows s)
    → ((other : ℕ) → count (owned other) (rows s) ≤ 10)
    → Distinct tab_id (rows (run_requests cfg requests s))
      × ((other : ℕ) → count (owned other) (rows (run_requests cfg requests s)) ≤ 10)
unfolding run_requests
requests_limited cfg [] s d h = (d, h)
requests_limited cfg ((env, request) ∷ rest) s d h =
    let s' = (handle cfg env request s).1 in
    let e = handle-Effect cfg env request s d in
    requests_limited cfg rest s' (Effect-Distinct (user_of env s) (rows s) (rows s') e d)
      (λ other. Effect-limit (user_of env s) (rows s) (rows s') other e (h other))

-- Requests that carry no live session of a user leave the user's rows the same rows in the same
-- order, whatever they ask for and whatever fails.
pub requests_isolated :
    (cfg : Config) (other : ℕ) (requests : List (Env × TabRequest)) (s : TabState)
    → Distinct tab_id (rows s)
    → NeverBy other cfg requests s
    → select (owned other) (rows (run_requests cfg requests s)) ≡ select (owned other) (rows s)
unfolding run_requests
requests_isolated cfg other [] s d h = refl
requests_isolated cfg other ((env, request) ∷ rest) s d h =
    let s' = (handle cfg env request s).1 in
    let e = handle-Effect cfg env request s d in
    requests_isolated cfg other rest s' (Effect-Distinct (user_of env s) (rows s) (rows s') e d) h.1
    ∙ Effect-others (user_of env s) (rows s) (rows s') other h.0 e
