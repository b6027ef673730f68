-- ===== src/Kv/ClientV2.antt =====
-- The v2 client (internal/kvmanager/client_v2.go). etcd's own client is a record of functions, and
-- its nodes are a tree of their own.
pub mod Writes
pub mod Sorted
pub mod Stripped
pub mod Outage
use Prim.Native.Char.{code}
use Prim.Native.String
use etcdmonitor.Prelude.{
  ℕ, ◌+◌, String, Bool, true, false, ◌&&◌, List, [], ◌∷◌, Option, none, some, Result, ok, err, ltb,
  ◌==◌, nat_eq, string_eq, if◌then◌else◌, ℤ, pos, negsuc,
}
use etcdmonitor.Config.{Config}
use etcdmonitor.Config.Endpoints.{has_prefix}
use etcdmonitor.Health.{Manager}
use etcdmonitor.Tabs.Manager.Conn.{ConnectionConfig, Tls}
use etcdmonitor.Kv.Tree.{NodeFields, Node, Nodes, node, no_node, next, fields_of}
use etcdmonitor.Kv.Client.{ClientConfig, ConnectInfo, client_config, tab_client, positive}

pub record V2Fields : Type 0 where
  pub key : String
  pub value : String
  pub dir : Bool
  pub ttl : ℤ
  pub created_index : ℕ
  pub modified_index : ℕ

-- `clientv2.Node`
mutual
  pub data V2Node : Type 0 where
    v2_node : V2Fields → V2Nodes → V2Node

  pub data V2Nodes : Type 0 where
    no_v2 : V2Nodes
    v2_next : V2Node → V2Nodes → V2Nodes

-- An error with a code of etcd, or any other; with its text.
pub data V2Error : Type 0 where
  coded : ℕ → String → V2Error
  plain : String → V2Error

abbrev pub error_text : V2Error → String
error_text (coded n text) = text
error_text (plain text) = text

-- etcd's client: `get` with `Recursive` and `Sort`, or neither; `set` with a time to live in
-- seconds and `Dir`; `delete` with `Recursive` and `Dir`. A reply may have no node.
pub record EtcdV2 (W : Type 0) : Type 0 where
  pub new_client : ClientConfig → Option String
  pub get : ClientConfig → Bool → String → W → Result V2Error (Option V2Node)
  pub set :
      ClientConfig → String → String → Option ℕ → Bool → W → Result V2Error (Option V2Node) × W
  pub delete : ClientConfig → String → Bool → W → Result V2Error (Unit {0}) × W

-- `default_client` is what the API of the default cluster was made with.
pub record ClientV2 : Type 0 where
  pub default_client : ClientConfig
  pub separator : String
  pub available : Bool
  pub override : Option ConnectionConfig

-- An error of making the client is logged, and the API is then not available.
unfoldable pub new_client_v2 : {W : Type 0} → EtcdV2 W → Config → Manager → Option Tls → ClientV2
new_client_v2 etcd cfg health_mgr tls =
    let config = client_config health_mgr.healthy cfg.etcd.username cfg.etcd.password tls in
    record {
      default_client = config;
      separator = cfg.kv_manager.separator;
      available = elim (etcd.new_client config) [ none ↦ true | some _ ↦ false ];
      override = none;
    }

unfoldable pub override_v2 : ConnectionConfig → ClientV2 → ClientV2
override_v2 o c = record c { available = true; override = some o }

-- `<` on texts
unfoldable pub text_below : String → String → Bool
text_below String.[] String.[] = false
text_below String.[] (String.◌∷◌ d t) = true
text_below (String.◌∷◌ c s) String.[] = false
text_below (String.◌∷◌ c s) (String.◌∷◌ d t) =
    let rest = text_below s t in
    if ltb (code c) (code d) then true else if code c == code d then rest else false

abbrev pub v2_key : V2Node → String
v2_key (v2_node fields children) = fields.key

abbrev pub v2_fields : V2Fields → NodeFields
v2_fields f = record {
  key = f.key;
  value = f.value;
  dir = f.dir;
  ttl = elim (positive f.ttl) [ none ↦ 0 | some n ↦ n ];
  create_revision = f.created_index;
  mod_revision = f.modified_index;
  version = 0;
}

-- A child at its place by `sort.Slice`, which compares keys; it is already converted, which keeps
-- its key.
unfoldable pub insert_by_key : Node → Nodes → Nodes
unfolding text_below
insert_by_key n no_node = next n no_node
insert_by_key (node f fs) (next (node g gs) rest) =
    let later = insert_by_key (node f fs) rest in
    if text_below g.key f.key
    then next (node g gs) later
    else next (node f fs) (next (node g gs) rest)

-- `nodeFromV2`, on a node that is not nil. A node that is no directory gets no children.
unfoldable mutual
  pub node_from_v2 : V2Node → Node
  node_from_v2 (v2_node f children) =
      let converted = nodes_from_v2 children in
      node (v2_fields f) (if f.dir then converted else no_node)

  pub nodes_from_v2 : V2Nodes → Nodes
  nodes_from_v2 no_v2 = no_node
  nodes_from_v2 (v2_next n rest) = insert_by_key (node_from_v2 n) (nodes_from_v2 rest)

-- `stripValues`
unfoldable mutual
  pub strip_values : Node → Node
  strip_values (node f children) = node (record f { value = "" }) (strip_all children)

  pub strip_all : Nodes → Nodes
  strip_all no_node = no_node
  strip_all (next n rest) = next (strip_values n) (strip_all rest)

-- `strings.Contains`
unfoldable pub has_text : String → String → Bool
unfolding has_prefix
has_text p String.[] = has_prefix p String.[]
has_text p (String.◌∷◌ d s) =
    let later = has_text p s in if has_prefix p (String.◌∷◌ d s) then true else later

-- `ErrorCodeKeyNotFound` is 100.
unfoldable pub is_v2_key_not_found : V2Error → Bool
unfolding has_text
is_v2_key_not_found (coded n text) = n == 100
is_v2_key_not_found (plain text) = has_text "Key not found" text

unfoldable pub empty_root : String → Node
empty_root key = node (fields_of key true none) no_node

abbrev pub converted_node : Option V2Node → Option Node
converted_node none = none
converted_node (some n) = some (node_from_v2 n)

module _ {W : Type 0} (etcd : EtcdV2 W) (c : ClientV2) where
  tab_api : ConnectionConfig → Option String → Result String ClientConfig
  tab_api o none = ok (tab_client o)
  tab_api o (some e) = err (String.◌++◌ "create v2 client: " e)

  api_of : Option ConnectionConfig → Result String ClientConfig
  unfolding tab_api
  api_of none = if c.available then ok c.default_client else err "etcd v2 API is not available"
  api_of (some o) = tab_api o (etcd.new_client (tab_client o))

  -- `keysClient`: the configuration of the API, or its error.
  unfoldable pub keys_client : Result String ClientConfig
  unfolding api_of
  keys_client = api_of c.override

  -- The answer of `Connect`, and whether the API counts as available after it.
  after_failure : Option ConnectionConfig → ClientV2
  after_failure none = record c { available = false }
  after_failure (some o) = c

  probed : Result V2Error (Option V2Node) → Result String ConnectInfo × ClientV2
  unfolding after_failure
  probed (ok _) = (ok (record { version = "v2"; name = ""; size = none }), c)
  probed (err e) =
      (err (String.◌++◌ "etcd v2 API is not available: " (error_text e)), after_failure c.override)

  connected : Result String ClientConfig → W → Result String ConnectInfo × ClientV2
  unfolding probed
  connected (err e) w = (err e, c)
  connected (ok config) w = probed (etcd.get config false c.separator w)

  unfoldable pub connect_v2 : W → Result String ConnectInfo × ClientV2
  unfolding keys_client connected
  connect_v2 w = connected keys_client w

  node_reply : Result V2Error (Option V2Node) → Result String (Option Node)
  node_reply (err e) = err (error_text e)
  node_reply (ok n) = ok (converted_node n)

  got : String → Result String ClientConfig → W → Result String (Option Node)
  unfolding node_reply
  got key (err e) w = err e
  got key (ok config) w = node_reply (etcd.get config false key w)

  -- `none` is a nil node.
  unfoldable pub get_v2 : String → W → Result String (Option Node)
  unfolding keys_client got
  get_v2 key w = got key keys_client w

  tree_reply : String → Result V2Error (Option V2Node) → Result String (Option Node)
  tree_reply key (err e) =
      if is_v2_key_not_found e then ok (some (empty_root key)) else err (error_text e)
  tree_reply key (ok n) = ok (converted_node n)

  got_tree : String → Result String ClientConfig → W → Result String (Option Node)
  unfolding tree_reply
  got_tree key (err e) w = err e
  got_tree key (ok config) w = tree_reply key (etcd.get config true key w)

  unfoldable pub get_path_v2 : String → W → Result String (Option Node)
  unfolding keys_client got_tree
  get_path_v2 key w = got_tree key keys_client w

  -- `none` in the result is the nil pointer that `stripValues` would read.
  stripped : Result String (Option Node) → Result String (Option Node)
  stripped (err e) = err e
  stripped (ok none) = ok none
  stripped (ok (some n)) = ok (some (strip_values n))

  unfoldable pub keys_v2 : W → Result String (Option Node)
  unfolding get_path_v2 stripped
  keys_v2 w = stripped (get_path_v2 c.separator w)

  set_on :
      String → String → ℤ → Bool → Result String ClientConfig → W → Result String (Option Node) × W
  unfolding node_reply
  set_on key value ttl dir (err e) w = (err e, w)
  set_on key value ttl dir (ok config) w =
      let r = etcd.set config key (if dir then "" else value) (positive ttl) dir w in
      (node_reply r.0, r.1)

  unfoldable pub put_v2 : String → String → ℤ → Bool → W → Result String (Option Node) × W
  unfolding keys_client set_on
  put_v2 key value ttl dir w = set_on key value ttl dir keys_client w

  delete_reply : Result V2Error (Unit {0}) → Result String (Unit {0})
  delete_reply (err e) = err (error_text e)
  delete_reply (ok u) = ok u

  delete_on : String → Bool → Result String ClientConfig → W → Result String (Unit {0}) × W
  unfolding delete_reply
  delete_on key dir (err e) w = (err e, w)
  delete_on key dir (ok config) w = let r = etcd.delete config key dir w in (delete_reply r.0, r.1)

  unfoldable pub delete_v2 : String → Bool → W → Result String (Unit {0}) × W
  unfolding keys_client delete_on
  delete_v2 key dir w = delete_on key dir keys_client w
