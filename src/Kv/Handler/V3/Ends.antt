-- ===== src/Kv/Handler/V3/Ends.antt =====
-- The v3 handlers that read change neither the clusters nor the v2 client, and the ones that write
-- go through the client and the audit log.
use etcdmonitor.Prelude.{
  ◌≡◌, refl, ap, ◌∙◌, String, false, Option, none, some, Result, ok, err, Bool-cases, inl, inr,
  ◌==◌, string_eq, if◌then◌else◌,
}
use etcdmonitor.Tabs.Handler.{Env}
use etcdmonitor.Tabs.Manager.Conn.{ConnectionConfig}
use etcdmonitor.Kv.Tree.{Outcome, shown, Node}
use etcdmonitor.Kv.Tree
use etcdmonitor.Kv.Client.{
  ConnectInfo, connect, get_key, path_tree, key_tree, put_key, delete_key, config_of,
}
use etcdmonitor.Kv.Client.Writes.{KeepsV3, put_key-view, delete_key-view}
use etcdmonitor.Kv.Handler.{KvState, KvSetup, mark_tab_ok, get_username, audit_target}
use etcdmonitor.Kv.Handler.Head.{store, caller}
use etcdmonitor.Kv.Handler.Head.Kept.{
  Kept, mark_tab_ok-Kept, read_failed-Kept, write_ended-same, Logged, write_ended-Logged,
}
use etcdmonitor.Kv.Handler.V3.{
  PutRequest, DeleteRequest, deleted_body, client, connected_v3, v3_connect, node_v3, v3_get,
  tree_v3, v3_get_path, v3_keys, v3_separator, put_params, put_body, v3_put, delete_params,
  v3_delete, v3_for,
}

module _ {W : Type 0} (setup : KvSetup W) (env : Env) where
  abbrev pub Same : KvState W → KvState W → Type 0
  Same = Kept setup env

  abbrev pub unchanged : (s : KvState W) → Same s s
  unchanged s = record { same_world = refl; same_v2 = refl; same_store = refl }

  connected_v3-Same :
      (tab_id : String) (r : Result String ConnectInfo) (s : KvState W)
      → Same s (connected_v3 setup env tab_id r s).1
  unfolding connected_v3
  connected_v3-Same tab_id (err e) s = read_failed-Kept setup env tab_id e s
  connected_v3-Same tab_id (ok info) s = mark_tab_ok-Kept setup env tab_id s

  pub v3_connect-Same :
      (o : Option ConnectionConfig) (tab_id : String) (s : KvState W)
      → Same s (v3_connect setup env o tab_id s).1
  unfolding v3_connect
  v3_connect-Same o tab_id s =
      connected_v3-Same tab_id (connect setup.etcd_v3 (client setup env o) s.world) s

  node_v3-Same :
      (tab_id : String) (r : Result String Node) (s : KvState W)
      → Same s (node_v3 setup env tab_id r s).1
  unfolding node_v3
  node_v3-Same tab_id (err e) s = read_failed-Kept setup env tab_id e s
  node_v3-Same tab_id (ok n) s = unchanged s

  pub v3_get-Same :
      (key : String) (o : Option ConnectionConfig) (tab_id : String) (s : KvState W)
      → Same s (v3_get setup env key o tab_id s).1
  unfolding v3_get
  v3_get-Same key o tab_id s = elim (Bool-cases (key == "")) [
    | inl b ↦ rw b (unchanged s)
    | inr b ↦ rw b (node_v3-Same tab_id (get_key setup.etcd_v3 (client setup env o) key s.world) s)
  ]

  tree_v3-Same :
      (after : String → KvState W → KvState W) (tab_id : String) (r : Outcome) (s : KvState W)
      → Same s (after tab_id s)
      → Same s (tree_v3 setup env after tab_id r s).1
  unfolding tree_v3
  tree_v3-Same after tab_id (Tree.failed e) s h = read_failed-Kept setup env tab_id e s
  tree_v3-Same after tab_id Tree.crashed s h = unchanged s
  tree_v3-Same after tab_id (shown n) s h = h

  pub v3_get_path-Same :
      (key : String) (o : Option ConnectionConfig) (tab_id : String) (s : KvState W)
      → Same s (v3_get_path setup env key o tab_id s).1
  unfolding v3_get_path
  v3_get_path-Same key o tab_id s =
      let c = client setup env o in
      tree_v3-Same (λ _ t. t) tab_id
        (path_tree setup.etcd_v3 c (if key == "" then c.separator else key) s.world) s (unchanged s)

  pub v3_keys-Same :
      (o : Option ConnectionConfig) (tab_id : String) (s : KvState W)
      → Same s (v3_keys setup env o tab_id s).1
  unfolding v3_keys
  v3_keys-Same o tab_id s =
      tree_v3-Same (mark_tab_ok setup env) tab_id
        (key_tree setup.etcd_v3 (client setup env o) s.world) s
        (mark_tab_ok-Kept setup env tab_id s)

  pub v3_separator-Same :
      (o : Option ConnectionConfig) (tab_id : String) (s : KvState W)
      → Same s (v3_separator setup env o tab_id s).1
  unfolding v3_separator
  v3_separator-Same o tab_id s = unchanged s

  module _ {V : Type 0} (view : W → V) where
    pub v3_put-view :
        (body : Option PutRequest) (o : Option ConnectionConfig) (tab_id : String) (s : KvState W)
        → KeepsV3 view setup.etcd_v3 (config_of (v3_for setup.v3 o))
        → view (v3_put setup env body o tab_id s).1.world ≡ view s.world
    unfolding v3_put client get_username
    v3_put-view none o tab_id s keeps = refl
    v3_put-view (some req) o tab_id s keeps =
        let who = get_username setup env s in
        let c = v3_for setup.v3 o in
        let r = put_key setup.etcd_v3 c req.key req.value req.ttl s.world in
        ap view
          (write_ended-same setup env who.0 "put" (audit_target tab_id req.key)
            (put_params setup env req tab_id) tab_id (put_body setup env r.0)
            (record who.1 { world = r.1 })).0
        ∙ put_key-view view setup.etcd_v3 c keeps req.key req.value req.ttl s.world

    pub v3_delete-view :
        (body : Option DeleteRequest) (o : Option ConnectionConfig) (tab_id : String)
        (s : KvState W)
        → KeepsV3 view setup.etcd_v3 (config_of (v3_for setup.v3 o))
        → view (v3_delete setup env body o tab_id s).1.world ≡ view s.world
    unfolding v3_delete client get_username
    v3_delete-view none o tab_id s keeps = refl
    v3_delete-view (some req) o tab_id s keeps =
        let who = get_username setup env s in
        let c = v3_for setup.v3 o in
        let r = delete_key setup.etcd_v3 c req.key req.dir s.world in
        ap view
          (write_ended-same setup env who.0 "delete" (audit_target tab_id req.key)
            (delete_params setup env req tab_id) tab_id (deleted_body r.0)
            (record who.1 { world = r.1 })).0
        ∙ delete_key-view view setup.etcd_v3 c keeps req.key req.dir s.world

  pub v3_put-Logged :
      (req : PutRequest) (o : Option ConnectionConfig) (tab_id : String) (s : KvState W)
      → (store s).fails (store s).statements ≡ false
      → Logged setup env
          (caller env s)
          "put"
          (audit_target tab_id req.key)
          s
          (v3_put setup env (some req) o tab_id s)
  unfolding v3_put client get_username
  v3_put-Logged req o tab_id s works =
      let who = get_username setup env s in
      let r = put_key setup.etcd_v3 (v3_for setup.v3 o) req.key req.value req.ttl s.world in
      write_ended-Logged setup env who.0 "put" (audit_target tab_id req.key)
        (put_params setup env req tab_id) tab_id (put_body setup env r.0) s
        (record who.1 { world = r.1 }) refl works

  pub v3_delete-Logged :
      (req : DeleteRequest) (o : Option ConnectionConfig) (tab_id : String) (s : KvState W)
      → (store s).fails (store s).statements ≡ false
      → Logged setup env
          (caller env s)
          "delete"
          (audit_target tab_id req.key)
          s
          (v3_delete setup env (some req) o tab_id s)
  unfolding v3_delete client get_username
  v3_delete-Logged req o tab_id s works =
      let who = get_username setup env s in
      let r = delete_key setup.etcd_v3 (v3_for setup.v3 o) req.key req.dir s.world in
      write_ended-Logged setup env who.0 "delete" (audit_target tab_id req.key)
        (delete_params setup env req tab_id) tab_id (deleted_body r.0) s
        (record who.1 { world = r.1 }) refl works

  pub v3_put-v2 :
      (body : Option PutRequest) (o : Option ConnectionConfig) (tab_id : String) (s : KvState W)
      → (v3_put setup env body o tab_id s).1.v2 ≡ s.v2
  unfolding v3_put get_username
  v3_put-v2 none o tab_id s = refl
  v3_put-v2 (some req) o tab_id s = (write_ended-same setup env _ _ _ _ _ _ _).1

  pub v3_delete-v2 :
      (body : Option DeleteRequest) (o : Option ConnectionConfig) (tab_id : String) (s : KvState W)
      → (v3_delete setup env body o tab_id s).1.v2 ≡ s.v2
  unfolding v3_delete get_username
  v3_delete-v2 none o tab_id s = refl
  v3_delete-v2 (some req) o tab_id s = (write_ended-same setup env _ _ _ _ _ _ _).1
