-- ===== src/Kv/ClientV2/Stripped.antt =====
-- The trees of keys of both clients hold no values.
use etcdmonitor.Prelude.{refl, String, Option, none, some, Result, ok, err}
use etcdmonitor.Kv.Tree.{Node, Nodes, node, no_node, next}
use etcdmonitor.Kv.Tree.Keys.{Valueless, ValuelessAll, ShowsKeys, keys-ShowsKeys}
use etcdmonitor.Kv.Client.{EtcdV3, ClientV3, key_tree}
use etcdmonitor.Kv.ClientV2.{
  EtcdV2, ClientV2, strip_values, strip_all, stripped, keys_v2, get_path_v2,
}

mutual
  unfolding strip_values Valueless

  strip_values-Valueless : (n : Node) → Valueless (strip_values n)
  strip_values-Valueless (node f children) = (refl, strip_all-Valueless children)

  strip_all-Valueless : (ns : Nodes) → ValuelessAll (strip_all ns)
  strip_all-Valueless no_node = tt
  strip_all-Valueless (next n rest) = (strip_values-Valueless n, strip_all-Valueless rest)

-- A reply with a node has one without values.
abbrev pub RepliesKeys : Result String (Option Node) → Type 0
RepliesKeys (err e) = Unit
RepliesKeys (ok none) = Unit
RepliesKeys (ok (some n)) = Valueless n

stripped-RepliesKeys :
    {W : Type 0} (etcd : EtcdV2 W) (c : ClientV2) (r : Result String (Option Node))
    → RepliesKeys (stripped etcd c r)
unfolding stripped
stripped-RepliesKeys etcd c (err e) = tt
stripped-RepliesKeys etcd c (ok none) = tt
stripped-RepliesKeys etcd c (ok (some n)) = strip_values-Valueless n

-- `Keys` of either client shows a tree in which no node has a value, whatever etcd replies.
pub keys_valueless :
    {W : Type 0} (v3 : EtcdV3 W) (c : ClientV3) (v2 : EtcdV2 W) (d : ClientV2) (w : W)
    → ShowsKeys (key_tree v3 c w) × RepliesKeys (keys_v2 v2 d w)
unfolding key_tree keys_v2
keys_valueless v3 c v2 d w =
    (keys-ShowsKeys c.separator _ _, stripped-RepliesKeys v2 d (get_path_v2 v2 d d.separator w))
