-- ===== src/Kv/Client/ReadBack.antt =====
-- What a put stores is what a later get reads.
use etcdmonitor.Prelude.{ℕ, ◌≡◌, String, [], ◌∷◌, Option, ok}
use etcdmonitor.Kv.Tree.{KeyValue, Node, NodeFields, node}
use etcdmonitor.Kv.Client.{ClientConfig, EtcdV3, ClientV3, config_of, first_pair}

-- A put that succeeds stores one pair under its key, with its value.
abbrev pub Stores : {W : Type 0} → EtcdV3 W → ClientConfig → Type 0
Stores {W = W} etcd c =
    (key value : String) (lease : Option ℕ) (w : W) (u : Unit {0})
    → (etcd.put c key value lease w).0 ≡ ok u
    → (kv : KeyValue) × (etcd.get c key (etcd.put c key value lease w).1 ≡ ok (kv ∷ []))
      × (kv.key ≡ key)
      × (kv.value ≡ value)

abbrev pub fields : Node → NodeFields
fields (node f children) = f

module _ {W : Type 0} (etcd : EtcdV3 W) (c : ClientV3) (stores : Stores etcd (config_of c)) where
  -- The node `n` is read at a key, with the value, from a state.
  abbrev Reads : String → String → Node → W → Type 0
  Reads key value n w =
      (first_pair "key not found: " key (etcd.time_to_live (config_of c) w)
          (etcd.get (config_of c) key w)
        ≡ ok n)
      × ((fields n).key ≡ key)
      × ((fields n).value ≡ value)
