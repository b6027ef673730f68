-- ===== src/Kv/Client/Removal.antt =====
-- Which keys a delete takes away.
use Prim.Native.String
use etcdmonitor.Prelude.{
  ◌≡◌, refl, ap, ◌∙◌, String, Bool, true, false, ◌||◌, ◌&&◌, List, [], ◌∷◌, Option, none, some,
  Result, ok, err, ◌==◌, string_eq, if◌then◌else◌, Bool-cases, inl, inr,
}
use etcdmonitor.Config.Endpoints.{has_prefix}
use etcdmonitor.Storage.Table.{delete}
use etcdmonitor.Kv.Tree.{KeyValue}
use etcdmonitor.Kv.Client.{
  ClientConfig, EtcdV3, ClientV3, config_of, dialled, deleted_dir, delete_on, delete_key,
}

-- What a cluster holds, and what the calls that delete do to it when they succeed.
pub record Deletes {W : Type 0} (etcd : EtcdV3 W) (c : ClientConfig) : Type 0 where
  pub contents : W → List KeyValue
  pub one :
      (key : String) (w : W) (u : Unit {0})
      → (etcd.delete c key w).0 ≡ ok u
      → contents (etcd.delete c key w).1 ≡ delete (λ kv. kv.key == key) (contents w)
  pub prefixed :
      (key : String) (w : W) (u : Unit {0})
      → (etcd.delete_prefix c key w).0 ≡ ok u
      → contents (etcd.delete_prefix c key w).1 ≡ delete (λ kv. has_prefix key kv.key) (contents w)

-- A key that a delete is meant to take away: the key itself and, of a directory, the keys that go
-- on with a separator after it. Below the root are the keys that start with a separator.
abbrev pub below_dir : String → String → String
below_dir sep key = if key == sep then sep else String.◌++◌ key sep

abbrev pub is_removed : String → String → Bool → KeyValue → Bool
is_removed sep key dir kv = (kv.key == key) || (dir && has_prefix (below_dir sep key) kv.key)

delete_both :
    (p q : KeyValue → Bool) (kvs : List KeyValue)
    → delete q (delete p kvs) ≡ delete (λ kv. p kv || q kv) kvs
unfolding delete
delete_both p q [] = refl
delete_both p q (kv ∷ kvs) = elim (Bool-cases (p kv)) [
  | inl a ↦ rw a (delete_both p q kvs)
  | inr a ↦ elim (Bool-cases (q kv)) [
    | inl b ↦ rw a (rw b (delete_both p q kvs))
    | inr b ↦ rw a (rw b (ap (λ rest. kv ∷ rest) (delete_both p q kvs)))
  ]
]

delete_first :
    (p : KeyValue → Bool) (kvs : List KeyValue) → delete p kvs ≡ delete (λ kv. p kv || false) kvs
unfolding delete
delete_first p [] = refl
delete_first p (kv ∷ kvs) = elim (Bool-cases (p kv)) [
  | inl a ↦ rw a (delete_first p kvs)
  | inr a ↦ rw a (ap (λ rest. kv ∷ rest) (delete_first p kvs))
]

module _ {W : Type 0} (etcd : EtcdV3 W) (c : ClientV3) (law : Deletes etcd (config_of c)) where
  deleted_dir-contents :
      (key : String) (dir : Bool) (w : W) (u : Unit {0}) (r : Result String (Unit {0}))
      → (etcd.delete (config_of c) key w).0 ≡ r
      → (deleted_dir etcd c key dir r (etcd.delete (config_of c) key w).1).0 ≡ ok u
      → law.contents (deleted_dir etcd c key dir r (etcd.delete (config_of c) key w).1).1
        ≡ delete (is_removed c.separator key dir) (law.contents w)
  unfolding deleted_dir
  deleted_dir-contents key dir w u (err e) first h = absurd cc
  deleted_dir-contents key false w u (ok v) first h =
      law.one key w v first ∙ delete_first (λ kv. kv.key == key) (law.contents w)
  deleted_dir-contents key true w u (ok v) first h =
      let prefix = below_dir c.separator key in
      law.prefixed prefix (etcd.delete (config_of c) key w).1 u h
      ∙ ap (delete (λ kv. has_prefix prefix kv.key)) (law.one key w v first)
      ∙ delete_both (λ kv. kv.key == key) (λ kv. has_prefix prefix kv.key) (law.contents w)

  dialled-contents :
      (key : String) (dir : Bool) (w : W) (u : Unit {0}) (e : Option String)
      → (dialled etcd c e (delete_on etcd c key dir) w).0 ≡ ok u
      → law.contents (dialled etcd c e (delete_on etcd c key dir) w).1
        ≡ delete (is_removed c.separator key dir) (law.contents w)
  unfolding delete_on
  dialled-contents key dir w u (some e) h = absurd cc
  dialled-contents key dir w u none h = deleted_dir-contents key dir w u _ refl h

  -- A delete that succeeds takes away the key and, where it is of a directory, the keys that go on
  -- with the separator after it, and leaves every other pair, those of keys that only start with
  -- the same text included.
  pub removed_exactly :
      (key : String) (dir : Bool) (w : W) (u : Unit {0})
      → (delete_key etcd c key dir w).0 ≡ ok u
      → law.contents (delete_key etcd c key dir w).1
        ≡ delete (is_removed c.separator key dir) (law.contents w)
  unfolding delete_key
  removed_exactly key dir w u h = dialled-contents key dir w u (etcd.new_client (config_of c)) h
