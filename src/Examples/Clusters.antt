-- ===== src/Examples/Clusters.antt =====
-- Requests of the key browser on two clusters that hold their pairs in lists. User 1 has a tab for
-- the first.
use etcdmonitor.Kv.Handler.V2.{v2_connect}
use etcdmonitor.Prelude.{
  ℕ, ◌≡◌, ◌≢◌, refl, ap, sym, ◌∙◌, String, Bool, true, false, List, [], ◌∷◌, Option, none, some, ok,
  err, ◌==◌, string_eq, nat_eq, pos, inl, inr, lookup, Bool-cases,
}
use etcdmonitor.Config.Endpoints.{has_prefix, trim_space, is_space}
use etcdmonitor.Storage.Table.{select, delete, query_row}
use etcdmonitor.Auth.Sessions.{extract_token, get}
use etcdmonitor.Tabs.Repo.{Tab, owned_id, get as get_row, run_sql}
use etcdmonitor.Tabs.Manager.{resolve}
use etcdmonitor.Tabs.Manager.Conn.{ConnectionConfig}
use etcdmonitor.Tabs.Manager.Resolution.{OwnTab}
use etcdmonitor.Tabs.Handler.{Env, rows}
use etcdmonitor.Kv.Tree.{KeyValue, Node, node, no_node}
use etcdmonitor.Kv.Client.{
  ClientConfig, ClientV3, EtcdV3, config_of, put_key, delete_key, tab_client, with_override,
}
use etcdmonitor.Kv.Client.Removal.{Deletes, is_removed, removed_exactly}
use etcdmonitor.Kv.ClientV2.{V2Node, v2_node, no_v2, EtcdV2, plain, connect_v2}
use etcdmonitor.Kv.Handler.{KvState, KvSetup, get_user_id, write_ended}
use etcdmonitor.Kv.Handler.Routes.{KvRequest, handle_kv, put_3, connect_2, keys_2}
use etcdmonitor.Kv.Handler.Routes.Confined.{request_confined, Keeps}
use etcdmonitor.Kv.Handler.Routes.Outage.{outage_lasts, run_kv}
use etcdmonitor.Kv.Handler.V3.{v3_put}
use etcdmonitor.Examples.Settings.{sparse}
use etcdmonitor.Examples.Tabs.{tab}
use etcdmonitor.Examples.Requests.{one_tab, env}

abbrev pair : String → String → KeyValue
pair key value = record {
  key = key;
  value = value;
  lease = 0;
  create_revision = 1;
  mod_revision = 2;
  version = 1;
}

-- The pairs of the tab's cluster, and those of the default cluster
abbrev Clusters : Type 0
Clusters = List KeyValue × List KeyValue

abbrev is_tab : ClientConfig → Bool
is_tab c = elim c.endpoints [ [] ↦ false | e ∷ es ↦ e == "https://e1:2379" ]

abbrev change : Bool → (List KeyValue → List KeyValue) → Clusters → Clusters
change true f w = (f w.0, w.1)
change false f w = (w.0, f w.1)

abbrev chosen : Bool → Clusters → List KeyValue
chosen true w = w.0
chosen false w = w.1

abbrev first_of : Option KeyValue → List KeyValue
first_of none = []
first_of (some kv) = kv ∷ []

abbrev etcd : EtcdV3 Clusters
etcd = record {
  new_client = λ _. none;
  get = λ c key w. ok (first_of (query_row (λ kv. kv.key == key) (chosen (is_tab c) w)));
  get_prefix = λ c keys_only key w. ok (select (λ kv. has_prefix key kv.key) (chosen (is_tab c) w));
  put = λ c key value lease w. (ok tt, change (is_tab c) (λ kvs. pair key value ∷ kvs) w);
  delete = λ c key w. (ok tt, change (is_tab c) (delete (λ kv. kv.key == key)) w);
  delete_prefix = λ c key w. (ok tt, change (is_tab c) (delete (λ kv. has_prefix key kv.key)) w);
  grant = λ c seconds w. (ok 7, w);
  time_to_live = λ c w lease. some 60;
  status = λ c w ep. err "down";
  member_list = λ c w. ok [];
}

-- No cluster answers over the v2 API.
abbrev etcd_v2 : EtcdV2 Clusters
etcd_v2 = record {
  new_client = λ _. none;
  get = λ c recursive key w. err (plain "unexpected end");
  set = λ c key value ttl dir w. (err (plain "unexpected end"), w);
  delete = λ c key dir w. (err (plain "unexpected end"), w);
}

abbrev v3 : ClientV3
v3 = record {
  cfg = sparse;
  health_mgr = record {
    all_endpoints = "https://10.0.0.1:2379" ∷ [];
    healthy = "https://10.0.0.1:2379" ∷ [];
    stopped = false;
  };
  cluster_tls = none;
  separator = "/";
  override = none;
}

abbrev setup : KvSetup Clusters
setup = record {
  etcd_v3 = etcd;
  etcd_v2 = etcd_v2;
  v3 = v3;
  tabs_enabled = true;
  show_int = λ _. "0";
  quoted = λ s. s;
}

abbrev state : KvState Clusters
state = record {
  tabs = one_tab;
  v2 = record {
    default_client = record { endpoints = []; username = ""; password = ""; tls = none };
    separator = "/";
    available = true;
    override = none;
  };
  world = (pair "/a" "1" ∷ [], pair "/b" "2" ∷ pair "/b/c" "3" ∷ pair "/bc" "4" ∷ []);
}

abbrev as_alice : Env
as_alice = record env { request = record { authorization = "Bearer s1"; cookie = none } }

abbrev put_a : KvRequest
put_a = record {
  route = put_3 (some (record { key = "/a"; value = "5"; ttl = pos 0; dir = false }));
  tab_query = "a";
}

own_endpoint :
    (user : ℕ) (t : Tab)
    → query_row (owned_id "a" user) (tab "a" 1 0 ∷ []) ≡ some t
    → t.endpoint ≡ "https://e1:2379"
unfolding query_row
own_endpoint user t h = elim (Bool-cases (owned_id "a" user (tab "a" 1 0))) [
  | inl b ↦ same t (rw b at h)
  | inr b ↦ absurd (none_some t (rw b at h))
]
  where
    same : (t : Tab) → some (tab "a" 1 0) ≡ some t → t.endpoint ≡ "https://e1:2379"
    same t e = sym (ap (λ (o : Option Tab). elim o [ none ↦ "" | some x ↦ x.endpoint ]) e)

    none_some : (t : Tab) → ◌≢◌ {A = Option Tab} none (some t)
    none_some t e = cc

-- Calls under a connection to the tab's cluster keep the default one.
tab_call-Keeps :
    (c : ConnectionConfig)
    → is_tab (tab_client c) ≡ true
    → Keeps setup env (λ (w : Clusters). w.1) c
tab_call-Keeps c e = (
  record {
    put = λ key value lease w. rw e refl;
    delete = λ key w. rw e refl;
    delete_prefix = λ key w. rw e refl;
    grant = λ seconds w. refl;
  },
  record { set = λ key value ttl dir w. refl; delete = λ key dir w. refl },
)

own_is_tab :
    (user : ℕ) (c : ConnectionConfig)
    → OwnTab as_alice.decrypt "a" user (rows one_tab) c
    → is_tab (tab_client c) ≡ true
own_is_tab user c own =
    ap (λ (x : ConnectionConfig). is_tab (tab_client x)) own.connection
    ∙ ap (λ x. x == "https://e1:2379") (own_endpoint user own.tab own.row)

request_confined_example : (handle_kv setup as_alice put_a state).1.world.1 ≡ state.world.1
unfolding trim_space is_space
request_confined_example =
    request_confined setup as_alice (λ (w : Clusters). w.1) put_a state refl
      (λ user c is_user own. tab_call-Keeps c (own_is_tab user c own))

first_value : List KeyValue → String
first_value [] = ""
first_value (kv ∷ kvs) = kv.value

-- The put is stored in the tab's cluster.
put_stored : first_value (handle_kv setup as_alice put_a state).1.world.0 ≡ "5"
unfolding handle_kv first_value trim_space is_space get_user_id extract_token get lookup resolve
    get_row run_sql query_row v3_put write_ended put_key config_of with_override
put_stored = refl

abbrev connect_default : KvRequest
connect_default = record { route = connect_2; tab_query = "" }

outage_lasts_example :
    (handle_kv setup env
      (record { route = keys_2; tab_query = "default" })
      (run_kv setup ((env, put_a) ∷ []) (handle_kv setup env connect_default state).1)).0.status
    ≡ 503
unfolding trim_space is_space handle_kv v2_connect connect_v2
outage_lasts_example =
    outage_lasts setup env env connect_default state ((env, put_a) ∷ [])
      (record { route = keys_2; tab_query = "default" }) refl refl refl refl refl refl

abbrev new_node : Node
new_node =
    node
      (record {
        key = "/n";
        value = "9";
        dir = false;
        ttl = 0;
        create_revision = 1;
        mod_revision = 2;
        version = 1;
      })
      no_node

deletes : Deletes etcd (config_of v3)
unfolding config_of
deletes = record { contents = λ w. w.1; one = λ key w u h. refl; prefixed = λ key w u h. refl }

removed_exactly_example :
    (delete_key etcd v3 "/b" true state.world).1.1 ≡ delete (is_removed "/" "/b" true) state.world.1
unfolding delete_key deletes delete
removed_exactly_example = removed_exactly etcd v3 deletes "/b" true state.world tt refl

abbrev leaf : String → V2Node
leaf key =
    v2_node
      (record {
        key = key;
        value = "";
        dir = false;
        ttl = pos 0;
        created_index = 1;
        modified_index = 1;
      })
      no_v2
