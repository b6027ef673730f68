-- ===== src/Kv/Handler/Routes.antt =====
-- The routes of the key browser (internal/kvmanager/handler.go, `RegisterRoutes`).
pub mod Confined
pub mod Audit
pub mod Outage
use etcdmonitor.Prelude.{String, Option, none, some}
use etcdmonitor.Tabs.Handler.{Env}
use etcdmonitor.Tabs.Manager.Conn.{ConnectionConfig}
use etcdmonitor.Kv.Handler.{KvState, KvSetup, Answer, resolve_client}
use etcdmonitor.Kv.Handler.V3.{
  PutRequest, DeleteRequest, v3_connect, v3_get, v3_get_path, v3_put, v3_delete, v3_separator,
  v3_keys,
}
use etcdmonitor.Kv.Handler.V2.{
  v2_connect, v2_get, v2_get_path, v2_put, v2_delete, v2_separator, v2_keys,
}

pub data Route : Type 0 where
  connect_3 separator_3 keys_3 connect_2 separator_2 keys_2 : Route
  get_3 get_path_3 get_2 get_path_2 : String → Route
  put_3 put_2 : Option PutRequest → Route
  delete_3 delete_2 : Option DeleteRequest → Route

-- A request: its route with the key or the body, and the query `tab_id`.
pub record KvRequest : Type 0 where
  pub route : Route
  pub tab_query : String

module _ {W : Type 0} (setup : KvSetup W) (env : Env) where
  -- The handler, once the client is resolved
  unfoldable pub serve :
      String → Route → Option ConnectionConfig → String → KvState W → Answer setup env
  serve tab_query connect_3 = v3_connect setup env
  serve tab_query separator_3 = v3_separator setup env
  serve tab_query keys_3 = v3_keys setup env
  serve tab_query connect_2 = v2_connect setup env tab_query
  serve tab_query separator_2 = v2_separator setup env
  serve tab_query keys_2 = v2_keys setup env
  serve tab_query (get_3 key) = v3_get setup env key
  serve tab_query (get_path_3 key) = v3_get_path setup env key
  serve tab_query (get_2 key) = v2_get setup env key
  serve tab_query (get_path_2 key) = v2_get_path setup env key
  serve tab_query (put_3 body) = v3_put setup env body
  serve tab_query (put_2 body) = v2_put setup env body
  serve tab_query (delete_3 body) = v3_delete setup env body
  serve tab_query (delete_2 body) = v2_delete setup env body

  unfoldable pub handle_kv : KvRequest → KvState W → Answer setup env
  unfolding resolve_client serve
  handle_kv r s = resolve_client setup env r.tab_query (serve r.tab_query r.route) s
