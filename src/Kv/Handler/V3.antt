-- ===== src/Kv/Handler/V3.antt =====
-- The handlers of /api/kv/v3 (internal/kvmanager/handler.go).
pub mod Ends
use Prim.Native.String
use etcdmonitor.Prelude.{
  ℕ, ◌+◌, String, Bool, true, false, ◌||◌, not, Option, none, some, Result, ok, err, ◌==◌, nat_eq,
  string_eq, if◌then◌else◌, ℤ,
}
use etcdmonitor.Tabs.Handler.{Env}
use etcdmonitor.Tabs.Manager.Conn.{ConnectionConfig}
use etcdmonitor.Kv.Tree.{Node, Outcome, shown}
use etcdmonitor.Kv.Tree
use etcdmonitor.Kv.Client.{
  ClientV3, ConnectInfo, EtcdV3, with_override, connect, get_key, path_tree, key_tree, put_key,
  delete_key,
}
use etcdmonitor.Kv.Handler.{
  Body, failed, connected, one_node, separator_is, message_ok, crashed, Response, reply, KvState,
  KvSetup, show_bool, error_from_etcd, audit_target, Answer, get_username, mark_tab_ok,
  mark_tab_error, log_kv, resolve_client, read_failed, write_ended,
}

pub record PutRequest : Type 0 where
  pub key : String
  pub value : String
  pub ttl : ℤ
  pub dir : Bool

pub record DeleteRequest : Type 0 where
  pub key : String
  pub dir : Bool

-- The client of a request
unfoldable pub v3_for : ClientV3 → Option ConnectionConfig → ClientV3
v3_for v3 none = v3
v3_for v3 (some o) = with_override o v3

-- The answer of a delete has no node.
abbrev pub deleted_body : Result String (Unit {0}) → Result String Body
deleted_body (err e) = err e
deleted_body (ok _) = ok message_ok

module _ {W : Type 0} (setup : KvSetup W) (env : Env) where
  client : Option ConnectionConfig → ClientV3
  unfolding v3_for
  client o = v3_for setup.v3 o

  connected_v3 : String → Result String ConnectInfo → KvState W → Answer setup env
  unfolding read_failed mark_tab_ok
  connected_v3 tab_id (err e) s = read_failed setup env tab_id e s
  connected_v3 tab_id (ok info) s = (reply 200 (connected info), mark_tab_ok setup env tab_id s)

  unfoldable pub v3_connect : Option ConnectionConfig → String → KvState W → Answer setup env
  unfolding connected_v3 client
  v3_connect o tab_id s = connected_v3 tab_id (connect setup.etcd_v3 (client o) s.world) s

  node_v3 : String → Result String Node → KvState W → Answer setup env
  unfolding read_failed
  node_v3 tab_id (err e) s = read_failed setup env tab_id e s
  node_v3 tab_id (ok n) s = (reply 200 (one_node n), s)

  unfoldable pub v3_get : String → Option ConnectionConfig → String → KvState W → Answer setup env
  unfolding node_v3 client
  v3_get key o tab_id s =
      if key == ""
      then (reply 400 (failed ""), s)
      else node_v3 tab_id (get_key setup.etcd_v3 (client o) key s.world) s

  tree_v3 : (String → KvState W → KvState W) → String → Outcome → KvState W → Answer setup env
  unfolding read_failed
  tree_v3 after tab_id (Tree.failed e) s = read_failed setup env tab_id e s
  tree_v3 after tab_id Tree.crashed s = (reply 500 crashed, s)
  tree_v3 after tab_id (shown n) s = (reply 200 (one_node n), after tab_id s)

  unfoldable pub v3_get_path :
      String → Option ConnectionConfig → String → KvState W → Answer setup env
  unfolding tree_v3 client
  v3_get_path key o tab_id s =
      let path = if key == "" then (client o).separator else key in
      tree_v3 (λ _ t. t) tab_id (path_tree setup.etcd_v3 (client o) path s.world) s

  unfoldable pub v3_keys : Option ConnectionConfig → String → KvState W → Answer setup env
  unfolding tree_v3 client mark_tab_ok
  v3_keys o tab_id s =
      tree_v3 (mark_tab_ok setup env) tab_id (key_tree setup.etcd_v3 (client o) s.world) s

  unfoldable pub v3_separator : Option ConnectionConfig → String → KvState W → Answer setup env
  unfolding client
  v3_separator o tab_id s = (reply 200 (separator_is (client o).separator), s)

  -- `{"ttl": …, "tab_id": …}`
  put_params : PutRequest → String → String
  put_params req tab_id = String.◌++◌ "{\"ttl\": " (
      String.◌++◌ (setup.show_int req.ttl)
        (String.◌++◌ ", \"tab_id\": " (String.◌++◌ (setup.quoted tab_id) "}")))

  abbrev put_body : Result String Node → Result String Body
  put_body (err e) = err e
  put_body (ok n) = ok (one_node n)

  -- `none` is a body that does not bind: no JSON, or an empty key.
  unfoldable pub v3_put :
      Option PutRequest → Option ConnectionConfig → String → KvState W → Answer setup env
  unfolding get_username put_params client audit_target
  v3_put none o tab_id s = (reply 400 (failed ""), s)
  v3_put (some req) o tab_id s =
      let who = get_username setup env s in
      let r = put_key setup.etcd_v3 (client o) req.key req.value req.ttl who.1.world in
      write_ended setup env who.0 "put" (audit_target tab_id req.key) (put_params req tab_id) tab_id
        (put_body r.0) (record who.1 { world = r.1 })

  -- `{"dir": …, "tab_id": …}`
  pub delete_params : DeleteRequest → String → String
  delete_params req tab_id = String.◌++◌ "{\"dir\": " (
      String.◌++◌ (show_bool req.dir)
        (String.◌++◌ ", \"tab_id\": " (String.◌++◌ (setup.quoted tab_id) "}")))

  unfoldable pub v3_delete :
      Option DeleteRequest → Option ConnectionConfig → String → KvState W → Answer setup env
  unfolding get_username client audit_target
  v3_delete none o tab_id s = (reply 400 (failed ""), s)
  v3_delete (some req) o tab_id s =
      let who = get_username setup env s in
      let r = delete_key setup.etcd_v3 (client o) req.key req.dir who.1.world in
      write_ended setup env who.0 "delete" (audit_target tab_id req.key) (delete_params req tab_id)
        tab_id (deleted_body r.0) (record who.1 { world = r.1 })
