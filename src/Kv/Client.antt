-- ===== src/Kv/Client.antt =====
-- The v3 client (internal/kvmanager/client_v3.go): the configuration of a connection and the calls
-- on one key. etcd's own client is a record of functions on a state `W` of the clusters.
pub mod Writes
pub mod ReadBack
pub mod Removal
use Prim.Native.String
use etcdmonitor.Prelude.{
  ℕ, zero, suc, ◌+◌, String, Bool, true, false, List, [], ◌∷◌, Option, none, some, Result, ok, err,
  ltb, ◌==◌, nat_eq, string_eq, if◌then◌else◌, ℤ, pos, negsuc,
}
use etcdmonitor.Config.{Config}
use etcdmonitor.Health.{Manager, HealthError, all_endpoints_down, status_error, status_from_healthy}
use etcdmonitor.Tabs.Manager.Conn.{ConnectionConfig, Tls}
use etcdmonitor.Kv.Tree.{
  KeyValue, NodeFields, Node, node, no_node, ttl_of, Outcome, failed, crashed, shown, get_tree,
  get_path, keys,
}

-- What a connection is opened with: `clientv3.Config`, without the dial time-out.
pub record ClientConfig : Type 0 where
  pub endpoints : List String
  pub username : String
  pub password : String
  pub tls : Option Tls

pub record Status : Type 0 where
  pub version : String
  pub db_size : ℕ
  pub leader : ℕ

pub record Member : Type 0 where
  pub id : ℕ
  pub name : String

-- etcd's client. `new_client` is the error of making one; the other functions are its calls, under
-- the configuration of the connection. `get` is exact, `get_prefix` sorted by key.
pub record EtcdV3 (W : Type 0) : Type 0 where
  pub new_client : ClientConfig → Option String
  pub get : ClientConfig → String → W → Result String (List KeyValue)
  pub get_prefix : ClientConfig → Bool → String → W → Result String (List KeyValue)
  pub put : ClientConfig → String → String → Option ℕ → W → Result String (Unit {0}) × W
  pub delete : ClientConfig → String → W → Result String (Unit {0}) × W
  pub delete_prefix : ClientConfig → String → W → Result String (Unit {0}) × W
  pub grant : ClientConfig → ℕ → W → Result String ℕ × W
  pub time_to_live : ClientConfig → W → ℕ → Option ℕ
  pub status : ClientConfig → W → String → Result String Status
  pub member_list : ClientConfig → W → Result String (List Member)

-- `override` is the connection of a tab; `cluster_tls` what the files of the configuration give.
pub record ClientV3 : Type 0 where
  pub cfg : Config
  pub health_mgr : Manager
  pub cluster_tls : Option Tls
  pub separator : String
  pub override : Option ConnectionConfig

unfoldable pub new_client_v3 : Config → Manager → Option Tls → ClientV3
new_client_v3 cfg health_mgr tls = record {
  cfg = cfg;
  health_mgr = health_mgr;
  cluster_tls = tls;
  separator = cfg.kv_manager.separator;
  override = none;
}

unfoldable pub with_override : ConnectionConfig → ClientV3 → ClientV3
with_override o c = record c { override = some o }

-- The account is left out where it has no name.
abbrev pub client_config : List String → String → String → Option Tls → ClientConfig
client_config endpoints username password tls = record {
  endpoints = endpoints;
  username = username;
  password = if username == "" then "" else password;
  tls = tls;
}

abbrev pub tab_client : ConnectionConfig → ClientConfig
tab_client o = client_config o.endpoints o.username o.password o.tls

default_client : ClientV3 → ClientConfig
default_client c =
    client_config c.health_mgr.healthy c.cfg.etcd.username c.cfg.etcd.password c.cluster_tls

chosen_client : ClientV3 → Option ConnectionConfig → ClientConfig
unfolding default_client
chosen_client c none = default_client c
chosen_client c (some o) = tab_client o

-- The configuration that `newClient` makes.
unfoldable pub config_of : ClientV3 → ClientConfig
unfolding chosen_client
config_of c = chosen_client c c.override

-- `Size` and `SizeStr` are one number.
pub record ConnectInfo : Type 0 where
  pub version : String
  pub name : String
  pub size : Option ℕ

-- The text of an error of the health manager
health_text : HealthError String → String
health_text (all_endpoints_down _) = "all etcd endpoints unreachable"
health_text (status_error e) = e

unfoldable pub leader_name : ℕ → List Member → String
leader_name leader [] = ""
leader_name leader (m ∷ ms) =
    let rest = leader_name leader ms in if m.id == leader then m.name else rest

-- A stored pair as a node; `none` is an empty reply.
abbrev pub pair_node : (ℕ → Option ℕ) → KeyValue → Node
pair_node time_to_live kv =
    node
      (record {
        key = kv.key;
        value = kv.value;
        dir = false;
        ttl = ttl_of time_to_live kv.lease;
        create_revision = kv.create_revision;
        mod_revision = kv.mod_revision;
        version = kv.version;
      })
      no_node

abbrev pub first_pair :
    String → String → (ℕ → Option ℕ) → Result String (List KeyValue) → Result String Node
first_pair what key ttl (err e) = err e
first_pair what key ttl (ok []) = err (String.◌++◌ what key)
first_pair what key ttl (ok (kv ∷ kvs)) = ok (pair_node ttl kv)

abbrev pub positive : ℤ → Option ℕ
positive (pos zero) = none
positive (pos (suc n)) = some (suc n)
positive (negsuc n) = none

module _ {W : Type 0} (etcd : EtcdV3 W) (c : ClientV3) where
  abbrev pub config : ClientConfig
  config = config_of c

  -- A call on a new client, or the error of making it
  abbrev pub dialled :
      {A : Type 0} → Option String → (W → Result String A × W) → W → Result String A × W
  dialled (some e) call w = (err e, w)
  dialled none call w = call w

  status_of_tab : List String → W → Result String Status
  status_of_tab [] w = err "no endpoints in override"
  status_of_tab (ep ∷ eps) w = elim (etcd.status config w ep) [
    | ok r ↦ ok r
    | err e ↦ err (String.◌++◌ "status from " (String.◌++◌ ep (String.◌++◌ ": " e)))
  ]

  cluster_status : Option ConnectionConfig → W → Result String Status
  unfolding status_of_tab health_text
  cluster_status (some o) w = status_of_tab o.endpoints w
  cluster_status none w = elim (status_from_healthy (etcd.status config w) c.health_mgr) [
    | ok r ↦ ok r
    | err e ↦ err (String.◌++◌ "get status from healthy endpoints: " (health_text e))
  ]

  info : Status → Result String (List Member) → Result String ConnectInfo
  unfolding leader_name
  info r (err e) = err e
  info r (ok members) =
      ok
        (record { version = r.version; name = leader_name r.leader members; size = some r.db_size })

  informed : Result String Status → W → Result String ConnectInfo
  unfolding info
  informed (err e) w = err e
  informed (ok r) w = info r (etcd.member_list config w)

  unfoldable pub connect : W → Result String ConnectInfo
  unfolding cluster_status informed
  connect w = elim (etcd.new_client config) [
    | some e ↦ err e
    | none ↦ informed (cluster_status c.override w) w
  ]

  unfoldable pub get_key : String → W → Result String Node
  get_key key w = elim (etcd.new_client config) [
    | some e ↦ err e
    | none ↦ first_pair "key not found: " key (etcd.time_to_live config w) (etcd.get config key w)
  ]

  -- `GetPath` and `Keys` on the clusters
  ranged : Bool → W → String → Result String (List KeyValue)
  ranged keys_only w prefix = elim (etcd.new_client config) [
    | some e ↦ err e
    | none ↦ etcd.get_prefix config keys_only prefix w
  ]

  unfoldable pub path_tree : String → W → Outcome
  unfolding ranged
  path_tree key w = get_path c.separator (ranged false w) (etcd.time_to_live config w) key

  unfoldable pub key_tree : W → Outcome
  unfolding ranged
  key_tree w = keys c.separator (ranged true w) (etcd.time_to_live config w)

  -- The node that is read back after a `Put`
  read_back : String → Result String (Unit {0}) → W → Result String Node
  read_back key (err e) w = err e
  read_back key (ok _) w =
      first_pair "key not found after put: " key (etcd.time_to_live config w)
        (etcd.get config key w)

  put_leased : String → String → Option ℕ → W → Result String Node × W
  unfolding read_back
  put_leased key value lease w =
      let r = etcd.put config key value lease w in (read_back key r.0 r.1, r.1)

  granted : String → String → Result String ℕ → W → Result String Node × W
  unfolding put_leased
  granted key value (err e) w = (err (String.◌++◌ "create lease failed: " e), w)
  granted key value (ok lease) w = put_leased key value (some lease) w

  put_for : String → String → Option ℕ → W → Result String Node × W
  unfolding granted
  put_for key value none w = put_leased key value none w
  put_for key value (some seconds) w =
      let r = etcd.grant config seconds w in granted key value r.0 r.1

  unfoldable pub put_key : String → String → ℤ → W → Result String Node × W
  unfolding put_for
  put_key key value ttl w = dialled (etcd.new_client config) (put_for key value (positive ttl)) w

  abbrev pub dir_prefix : String → String
  dir_prefix key = if key == c.separator then c.separator else String.◌++◌ key c.separator

  deleted_dir : String → Bool → Result String (Unit {0}) → W → Result String (Unit {0}) × W
  deleted_dir key dir (err e) w = (err e, w)
  deleted_dir key true (ok _) w = etcd.delete_prefix config (dir_prefix key) w
  deleted_dir key false (ok _) w = (ok tt, w)

  delete_on : String → Bool → W → Result String (Unit {0}) × W
  unfolding deleted_dir
  delete_on key dir w = let r = etcd.delete config key w in deleted_dir key dir r.0 r.1

  unfoldable pub delete_key : String → Bool → W → Result String (Unit {0}) × W
  unfolding delete_on
  delete_key key dir w = dialled (etcd.new_client config) (delete_on key dir) w
