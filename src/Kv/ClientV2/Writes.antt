-- ===== src/Kv/ClientV2/Writes.antt =====
-- What the writes of the v2 client leave alone.
use etcdmonitor.Prelude.{ℕ, ◌≡◌, refl, String, Bool, Option, none, some, ℤ}
use etcdmonitor.Tabs.Manager.Conn.{ConnectionConfig}
use etcdmonitor.Kv.Client.{ClientConfig, tab_client, positive}
use etcdmonitor.Kv.ClientV2.{
  EtcdV2, ClientV2, override_v2, keys_client, tab_api, api_of, set_on, put_v2, delete_on, delete_v2,
}

pub record KeepsV2 {W V : Type 0} (view : W → V) (etcd : EtcdV2 W) (c : ClientConfig) : Type 0 where
  pub set :
      (key value : String) (ttl : Option ℕ) (dir : Bool) (w : W)
      → view (etcd.set c key value ttl dir w).1 ≡ view w
  pub delete : (key : String) (dir : Bool) (w : W) → view (etcd.delete c key dir w).1 ≡ view w

module _ {W V : Type 0} (view : W → V) (etcd : EtcdV2 W) (o : ConnectionConfig)
    (keeps : KeepsV2 view etcd (tab_client o)) where
  set_on-view :
      (c : ClientV2) (key value : String) (ttl : ℤ) (dir : Bool) (e : Option String) (w : W)
      → view (set_on etcd c key value ttl dir (tab_api etcd c o e) w).1 ≡ view w
  unfolding set_on tab_api
  set_on-view c key value ttl dir none w = keeps.set key _ (positive ttl) dir w
  set_on-view c key value ttl dir (some t) w = refl

  pub put_v2-view :
      (c : ClientV2) (key value : String) (ttl : ℤ) (dir : Bool) (w : W)
      → view (put_v2 etcd (override_v2 o c) key value ttl dir w).1 ≡ view w
  unfolding put_v2 keys_client api_of override_v2
  put_v2-view c key value ttl dir w =
      set_on-view (override_v2 o c) key value ttl dir (etcd.new_client (tab_client o)) w

  delete_on-view :
      (c : ClientV2) (key : String) (dir : Bool) (e : Option String) (w : W)
      → view (delete_on etcd c key dir (tab_api etcd c o e) w).1 ≡ view w
  unfolding delete_on tab_api
  delete_on-view c key dir none w = keeps.delete key dir w
  delete_on-view c key dir (some t) w = refl

  pub delete_v2-view :
      (c : ClientV2) (key : String) (dir : Bool) (w : W)
      → view (delete_v2 etcd (override_v2 o c) key dir w).1 ≡ view w
  unfolding delete_v2 keys_client api_of override_v2
  delete_v2-view c key dir w =
      delete_on-view (override_v2 o c) key dir (etcd.new_client (tab_client o)) w
