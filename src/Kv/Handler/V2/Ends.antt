-- ===== src/Kv/Handler/V2/Ends.antt =====
-- The v2 handlers that read change neither the clusters nor the v2 client.
use etcdmonitor.Prelude.{
  String, Option, none, some, Result, ok, err, Bool-cases, inl, inr, ◌==◌, string_eq, if◌then◌else◌,
}
use etcdmonitor.Tabs.Handler.{Env}
use etcdmonitor.Tabs.Manager.Conn.{ConnectionConfig}
use etcdmonitor.Kv.Tree.{Node}
use etcdmonitor.Kv.ClientV2.{get_v2, get_path_v2, keys_v2}
use etcdmonitor.Kv.Handler.{KvState, KvSetup, Answer, mark_tab_ok}
use etcdmonitor.Kv.Handler.Head.Kept.{mark_tab_ok-Kept, read_failed-Kept}
use etcdmonitor.Kv.Handler.V3.Ends.{Same, unchanged}
use etcdmonitor.Kv.Handler.V2.{
  client, check_v2_available_client, when_available, node_v2, get_request, path_request,
  keys_request, v2_get, v2_get_path, v2_keys, v2_separator,
}

module _ {W : Type 0} (setup : KvSetup W) (env : Env) where
  node_v2-Same :
      (after : String → KvState W → KvState W) (tab_id : String) (r : Result String (Option Node))
      (s : KvState W)
      → Same setup env s (after tab_id s)
      → Same setup env s (node_v2 setup env after tab_id r s).1
  unfolding node_v2
  node_v2-Same after tab_id (err e) s h = read_failed-Kept setup env tab_id e s
  node_v2-Same after tab_id (ok none) s h = unchanged setup env s
  node_v2-Same after tab_id (ok (some n)) s h = h

  pub when_available-Same :
      (k : KvState W → Answer setup env) (o : Option ConnectionConfig) (s : KvState W)
      → Same setup env s (k s).1
      → Same setup env s (when_available setup env k o s).1
  when_available-Same k o s h = elim (Bool-cases (check_v2_available_client setup env o s)) [
    | inl b ↦ rw b h
    | inr b ↦ rw b (unchanged setup env s)
  ]

  get_request-Same :
      (key : String) (o : Option ConnectionConfig) (tab_id : String) (s : KvState W)
      → Same setup env s (get_request setup env key o tab_id s).1
  unfolding get_request
  get_request-Same key o tab_id s = elim (Bool-cases (key == "")) [
    | inl b ↦ rw b (unchanged setup env s)
    | inr b ↦ rw b (
        node_v2-Same (λ _ u. u) tab_id (get_v2 setup.etcd_v2 (client setup env o s) key s.world) s
          (unchanged setup env s))
  ]

  pub v2_get-Same :
      (key : String) (o : Option ConnectionConfig) (tab_id : String) (s : KvState W)
      → Same setup env s (v2_get setup env key o tab_id s).1
  unfolding v2_get
  v2_get-Same key o tab_id s =
      when_available-Same (get_request setup env key o tab_id) o s (get_request-Same key o tab_id s)

  pub v2_get_path-Same :
      (key : String) (o : Option ConnectionConfig) (tab_id : String) (s : KvState W)
      → Same setup env s (v2_get_path setup env key o tab_id s).1
  unfolding v2_get_path path_request
  v2_get_path-Same key o tab_id s =
      let c = client setup env o s in
      when_available-Same (path_request setup env key o tab_id) o s (
        node_v2-Same (λ _ u. u) tab_id
          (get_path_v2 setup.etcd_v2 c (if key == "" then c.separator else key) s.world) s
          (unchanged setup env s))

  pub v2_keys-Same :
      (o : Option ConnectionConfig) (tab_id : String) (s : KvState W)
      → Same setup env s (v2_keys setup env o tab_id s).1
  unfolding v2_keys keys_request
  v2_keys-Same o tab_id s = when_available-Same (keys_request setup env o tab_id) o s (
      node_v2-Same (mark_tab_ok setup env) tab_id
        (keys_v2 setup.etcd_v2 (client setup env o s) s.world) s
        (mark_tab_ok-Kept setup env tab_id s))

  pub v2_separator-Same :
      (o : Option ConnectionConfig) (tab_id : String) (s : KvState W)
      → Same setup env s (v2_separator setup env o tab_id s).1
  unfolding v2_separator
  v2_separator-Same o tab_id s = unchanged setup env s
