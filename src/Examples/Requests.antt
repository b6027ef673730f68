-- ===== src/Examples/Requests.antt =====
-- Requests on tabs: user 1 has one tab, and user 2 deletes it in vain and adds one.
use etcdmonitor.Prelude.{
  ℕ, ◌≤◌, ◌≡◌, ◌≢◌, refl, String, true, false, List, [], ◌∷◌, Option, none, some, ok, arith, length,
  nat_eq, string_eq, lookup,
}
use etcdmonitor.Config.Endpoints.{trim_space, is_space}
use etcdmonitor.Storage.Table.{select, count, delete}
use etcdmonitor.Storage.Table.Distinct.{Distinct}
use etcdmonitor.Auth.Sessions.{Session, extract_token, get}
use etcdmonitor.Tabs.Repo.{owned, run_sql, count_by_user, create, delete_by_user}
use etcdmonitor.Tabs.Manager.Conn.{has_prefix_lower}
use etcdmonitor.Tabs.Handler.Change.{handle_delete}
use etcdmonitor.Tabs.Repo.Sorting.{tab_id}
use etcdmonitor.Tabs.Members.{new_cache, listed, is_default_cluster_member}
use etcdmonitor.Tabs.Handler.{
  Env, TabState, rows, current_user_id, current_username, validate_scheme,
}
use etcdmonitor.Tabs.Handler.Create.{CreateTabRequest, handle_create}
use etcdmonitor.Tabs.Handler.Create.Created.{Created}
use etcdmonitor.Tabs.Handler.Effects.{
  TabRequest, create_request, delete_request, run_requests, requests_limited, requests_isolated,
  handle,
}
use etcdmonitor.Examples.Fixtures.{storage}
use etcdmonitor.Examples.Settings.{sparse}
use etcdmonitor.Examples.Tabs.{tab}

abbrev session : String → ℕ → String → Session
session token user name = record {
  token = token;
  user_id = user;
  username = name;
  created_at = 1;
  expires_at = none;
}

abbrev pub one_tab : TabState
one_tab = record {
  mgr = record {
    db = record { tabs = tab "a" 1 0 ∷ []; fails = λ _. false; statements = 0 };
    failure_count = [];
    failure_threshold = 2;
  };
  members = new_cache;
  store = storage [];
  sessions = record {
    sessions = ("s1", session "s1" 1 "alice") ∷ ("s2", session "s2" 2 "bob") ∷ [];
    stopped = false;
  };
}

abbrev pub env : Env
env = record {
  now = 50;
  elapsed_ms = 1;
  request = record { authorization = "Bearer s2"; cookie = none };
  route = "/api/kv/tabs";
  has_host = λ _. true;
  hostname = λ _. "e2";
  test = λ _. ("ok", "");
  members = listed ("http://10.0.0.1:2379" ∷ []);
  uuid = some "y";
  encrypt = λ p. ok (7 ∷ []);
  decrypt = λ c. ok "open2";
}

abbrev wanted : CreateTabRequest
wanted = record { endpoint = " http://e2:2379"; name = ""; username = "root"; password = "open2" }

abbrev requests : List (Env × TabRequest)
requests = (env, delete_request "a") ∷ (env, create_request (some wanted)) ∷ []

one_at_most : (n other : ℕ) → count (owned other) (tab "a" 1 0 ∷ []) ≤ 10
unfolding count
one_at_most n other = ground arith

requests_limited_example :
    Distinct tab_id (rows (run_requests sparse requests one_tab))
    × ((other : ℕ) → count (owned other) (rows (run_requests sparse requests one_tab)) ≤ 10)
unfolding count
requests_limited_example = requests_limited sparse requests one_tab (refl, tt) (one_at_most 0)

different : ◌≢◌ {A = Option ℕ} (some 2) (some 1)
different e = cc

requests_isolated_example :
    select (owned 1) (rows (run_requests sparse requests one_tab)) ≡ select (owned 1) (rows one_tab)
unfolding count current_user_id extract_token get lookup handle_delete delete_by_user run_sql
    current_username handle
requests_isolated_example =
    requests_isolated sparse 1 requests one_tab (refl, tt) ((different), ((different), tt))

-- Both tabs are there in the end.
both_there : length (rows (run_requests sparse requests one_tab)) ≡ 2
unfolding run_requests handle_create current_user_id extract_token get lookup handle_delete
    delete_by_user run_sql count current_username validate_scheme has_prefix_lower trim_space
    is_space count_by_user delete is_default_cluster_member create
both_there = refl
