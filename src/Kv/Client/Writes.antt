-- ===== src/Kv/Client/Writes.antt =====
-- What the writes of the v3 client leave alone: whatever etcd's calls under the client's
-- configuration leave alone.
use etcdmonitor.Prelude.{
  ℕ, ◌≡◌, refl, ◌∙◌, String, Bool, true, false, Option, none, some, Result, ok, err, ℤ,
}
use etcdmonitor.Kv.Client.{
  ClientConfig, EtcdV3, ClientV3, config_of, dialled, put_leased, granted, put_for, put_key,
  positive, deleted_dir, delete_on, delete_key, dir_prefix,
}

-- The calls that write, under one configuration, do not change the view.
pub record KeepsV3 {W V : Type 0} (view : W → V) (etcd : EtcdV3 W) (c : ClientConfig) : Type 0 where
  pub put :
      (key value : String) (lease : Option ℕ) (w : W)
      → view (etcd.put c key value lease w).1 ≡ view w
  pub delete : (key : String) (w : W) → view (etcd.delete c key w).1 ≡ view w
  pub delete_prefix : (key : String) (w : W) → view (etcd.delete_prefix c key w).1 ≡ view w
  pub grant : (seconds : ℕ) (w : W) → view (etcd.grant c seconds w).1 ≡ view w

module _ {W V : Type 0} (view : W → V) (etcd : EtcdV3 W) (c : ClientV3)
    (keeps : KeepsV3 view etcd (config_of c)) where
  dialled-view :
      {A : Type 0} (e : Option String) (call : W → Result String A × W) (w : W)
      → view (call w).1 ≡ view w
      → view (dialled etcd c e call w).1 ≡ view w
  dialled-view (some e) call w h = refl
  dialled-view none call w h = h

  granted-view :
      (key value : String) (r : Result String ℕ) (w : W)
      → view (granted etcd c key value r w).1 ≡ view w
  unfolding granted put_leased
  granted-view key value (err e) w = refl
  granted-view key value (ok lease) w = keeps.put key value (some lease) w

  put_for-view :
      (key value : String) (ttl : Option ℕ) (w : W)
      → view (put_for etcd c key value ttl w).1 ≡ view w
  unfolding put_for put_leased
  put_for-view key value none w = keeps.put key value none w
  put_for-view key value (some seconds) w =
      let r = etcd.grant (config_of c) seconds w in
      granted-view key value r.0 r.1 ∙ keeps.grant seconds w

  pub put_key-view :
      (key value : String) (ttl : ℤ) (w : W) → view (put_key etcd c key value ttl w).1 ≡ view w
  unfolding put_key
  put_key-view key value ttl w =
      dialled-view (etcd.new_client (config_of c)) (put_for etcd c key value (positive ttl)) w
        (put_for-view key value (positive ttl) w)

  deleted_dir-view :
      (key : String) (dir : Bool) (r : Result String (Unit {0})) (w : W)
      → view (deleted_dir etcd c key dir r w).1 ≡ view w
  unfolding deleted_dir
  deleted_dir-view key dir (err e) w = refl
  deleted_dir-view key true (ok _) w = keeps.delete_prefix (dir_prefix etcd c key) w
  deleted_dir-view key false (ok _) w = refl

  pub delete_key-view :
      (key : String) (dir : Bool) (w : W) → view (delete_key etcd c key dir w).1 ≡ view w
  unfolding delete_key delete_on
  delete_key-view key dir w =
      let r = etcd.delete (config_of c) key w in
      dialled-view (etcd.new_client (config_of c)) (delete_on etcd c key dir) w
        (deleted_dir-view key dir r.0 r.1 ∙ keeps.delete key w)
