-- ===== src/Kv/Handler/V2.antt =====
-- The handlers of /api/kv/v2 (internal/kvmanager/handler.go).
pub mod Connect
pub mod Ends
pub mod Writes
use Prim.Native.String
use etcdmonitor.Prelude.{
  ℕ, ◌+◌, String, Bool, true, false, ◌||◌, not, Option, none, some, Result, ok, err, ◌==◌, nat_eq,
  string_eq, if◌then◌else◌, ℤ,
}
use etcdmonitor.Tabs.Handler.{Env}
use etcdmonitor.Tabs.Manager.Conn.{ConnectionConfig}
use etcdmonitor.Kv.Tree.{Node}
use etcdmonitor.Kv.Client.{ConnectInfo, connect}
use etcdmonitor.Kv.ClientV2.{
  ClientV2, override_v2, connect_v2, get_v2, get_path_v2, keys_v2, put_v2, delete_v2,
}
use etcdmonitor.Kv.Handler.{
  Body, failed, connected, one_node, separator_is, message_ok, crashed, both, Response, reply,
  KvState, KvSetup, show_bool, audit_target, Answer, get_username, mark_tab_ok, mark_tab_error,
  log_kv, resolve_client, read_failed, write_ended,
}
use etcdmonitor.Kv.Handler.V3.{PutRequest, DeleteRequest, deleted_body, delete_params, v3_for}

-- The client of a request: the one of the default cluster, or a copy for a tab.
unfoldable pub v2_for : ClientV2 → Option ConnectionConfig → ClientV2
v2_for v2 none = v2
v2_for v2 (some o) = override_v2 o v2

-- Only the client of the default cluster outlives the request.
abbrev pub keep_v2 : {W : Type 0} → Option ConnectionConfig → ClientV2 → KvState W → KvState W
keep_v2 none v2 s = record s { v2 = v2 }
keep_v2 (some o) v2 s = s

abbrev pub node_body : Result String (Option Node) → Result String Body
node_body (err e) = err e
node_body (ok none) = ok crashed
node_body (ok (some n)) = ok (one_node n)

abbrev pub unavailable : Response
unavailable = reply 503 (failed "v2_unavailable")

module _ {W : Type 0} (setup : KvSetup W) (env : Env) where
  client : Option ConnectionConfig → KvState W → ClientV2
  unfolding v2_for
  client o s = v2_for s.v2 o

  -- `checkV2AvailableClient`
  unfoldable pub check_v2_available_client : Option ConnectionConfig → KvState W → Bool
  check_v2_available_client none s = s.v2.available
  check_v2_available_client (some o) s = true

  -- The handler where the API is available
  abbrev pub when_available :
      (KvState W → Answer setup env) → Option ConnectionConfig → KvState W → Answer setup env
  when_available k o s = if check_v2_available_client o s then k s else (unavailable, s)

  -- What the v3 API tells of the cluster takes the place of what the v2 API does not.
  abbrev v3_info : ConnectInfo → Result String ConnectInfo → ConnectInfo
  v3_info info (err e) = info
  v3_info info (ok found) = found

  informed : ConnectInfo → Option ConnectionConfig → String → KvState W → Answer setup env
  unfolding v3_for
  informed info o tab_id s =
      (reply 200 (connected (v3_info info (connect setup.etcd_v3 (v3_for setup.v3 o) s.world))), s)

  -- Where the tab cannot be resolved again, the refusal is already written, and the answer is
  -- written after it; its status is too late.
  told_body : ConnectInfo → Body → Body
  told_body info (failed code) = both (failed code) (connected info)
  told_body info b = b

  told : ConnectInfo → Response → Response
  unfolding told_body
  told info r = reply r.status (told_body info r.body)

  connected_v2 : String → String → Result String ConnectInfo → KvState W → Answer setup env
  unfolding mark_tab_error mark_tab_ok resolve_client informed told
  connected_v2 tab_query tab_id (err e) s = (unavailable, mark_tab_error setup env tab_id e s)
  connected_v2 tab_query tab_id (ok info) s =
      let r = resolve_client setup env tab_query (informed info) (mark_tab_ok setup env tab_id s) in
      (told info r.0, r.1)

  unfoldable pub v2_connect :
      String → Option ConnectionConfig → String → KvState W → Answer setup env
  unfolding connected_v2 client
  v2_connect tab_query o tab_id s =
      let r = connect_v2 setup.etcd_v2 (client o s) s.world in
      connected_v2 tab_query tab_id r.0 (keep_v2 o r.1 s)

  node_v2 :
      (String → KvState W → KvState W)
      → String
      → Result String (Option Node)
      → KvState W
      → Answer setup env
  unfolding read_failed
  node_v2 after tab_id (err e) s = read_failed setup env tab_id e s
  node_v2 after tab_id (ok none) s = (reply 500 crashed, s)
  node_v2 after tab_id (ok (some n)) s = (reply 200 (one_node n), after tab_id s)

  get_request : String → Option ConnectionConfig → String → KvState W → Answer setup env
  unfolding node_v2 client
  get_request key o tab_id s =
      if key == ""
      then (reply 400 (failed ""), s)
      else node_v2 (λ _ u. u) tab_id (get_v2 setup.etcd_v2 (client o s) key s.world) s

  unfoldable pub v2_get : String → Option ConnectionConfig → String → KvState W → Answer setup env
  unfolding get_request check_v2_available_client
  v2_get key o tab_id s = when_available (get_request key o tab_id) o s

  path_request : String → Option ConnectionConfig → String → KvState W → Answer setup env
  unfolding node_v2 client
  path_request key o tab_id s =
      let path = if key == "" then (client o s).separator else key in
      node_v2 (λ _ u. u) tab_id (get_path_v2 setup.etcd_v2 (client o s) path s.world) s

  unfoldable pub v2_get_path :
      String → Option ConnectionConfig → String → KvState W → Answer setup env
  unfolding path_request check_v2_available_client
  v2_get_path key o tab_id s = when_available (path_request key o tab_id) o s

  keys_request : Option ConnectionConfig → String → KvState W → Answer setup env
  unfolding node_v2 client mark_tab_ok
  keys_request o tab_id s =
      node_v2 (mark_tab_ok setup env) tab_id (keys_v2 setup.etcd_v2 (client o s) s.world) s

  unfoldable pub v2_keys : Option ConnectionConfig → String → KvState W → Answer setup env
  unfolding keys_request check_v2_available_client
  v2_keys o tab_id s = when_available (keys_request o tab_id) o s

  unfoldable pub v2_separator : Option ConnectionConfig → String → KvState W → Answer setup env
  unfolding client
  v2_separator o tab_id s = (reply 200 (separator_is (client o s).separator), s)

  -- `{"ttl": …, "dir": …, "tab_id": …}`
  put_params : PutRequest → String → String
  put_params req tab_id = String.◌++◌ "{\"ttl\": " (
      String.◌++◌ (setup.show_int req.ttl) (
        String.◌++◌ ", \"dir\": " (
          String.◌++◌ (show_bool req.dir)
            (String.◌++◌ ", \"tab_id\": " (String.◌++◌ (setup.quoted tab_id) "}")))))

  put_request : Option PutRequest → Option ConnectionConfig → String → KvState W → Answer setup env
  unfolding get_username put_params client audit_target
  put_request none o tab_id s = (reply 400 (failed ""), s)
  put_request (some req) o tab_id s =
      let who = get_username setup env s in
      let r = put_v2 setup.etcd_v2 (client o who.1) req.key req.value req.ttl req.dir who.1.world in
      write_ended setup env who.0 "put" (audit_target tab_id req.key) (put_params req tab_id) tab_id
        (node_body r.0) (record who.1 { world = r.1 })

  unfoldable pub v2_put :
      Option PutRequest → Option ConnectionConfig → String → KvState W → Answer setup env
  unfolding put_request check_v2_available_client
  v2_put body o tab_id s = when_available (put_request body o tab_id) o s

  delete_request :
      Option DeleteRequest → Option ConnectionConfig → String → KvState W → Answer setup env
  unfolding get_username client audit_target
  delete_request none o tab_id s = (reply 400 (failed ""), s)
  delete_request (some req) o tab_id s =
      let who = get_username setup env s in
      let r = delete_v2 setup.etcd_v2 (client o who.1) req.key req.dir who.1.world in
      write_ended setup env who.0 "delete" (audit_target tab_id req.key)
        (delete_params setup env req tab_id) tab_id (deleted_body r.0)
        (record who.1 { world = r.1 })

  unfoldable pub v2_delete :
      Option DeleteRequest → Option ConnectionConfig → String → KvState W → Answer setup env
  unfolding delete_request check_v2_available_client
  v2_delete body o tab_id s = when_available (delete_request body o tab_id) o s
