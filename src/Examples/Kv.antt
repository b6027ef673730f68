-- ===== src/Examples/Kv.antt =====
-- Trees of keys under "/foo".
use etcdmonitor.Prelude.{
  ℕ, ◌≡◌, refl, String, true, false, List, [], ◌∷◌, Option, none, some, ok, string_eq,
}
use etcdmonitor.Config.Endpoints.{has_prefix}
use etcdmonitor.Kv.Split.{segments, split_after, characters, not_empty}
use etcdmonitor.Kv.Tree.{
  KeyValue, shown, get_path, convert_root, place_of, prefix_seg_count, put_at, put_all, real_of,
  node, fields_of, no_node, next, at_child, store_at, join_with,
}

abbrev pair : String → String → KeyValue
pair key value = record {
  key = key;
  value = value;
  lease = 0;
  create_revision = 1;
  mod_revision = 2;
  version = 1;
}

abbrev no_lease : ℕ → Option ℕ
no_lease _ = none

abbrev pairs : List KeyValue
pairs = pair "/foo/x" "in" ∷ pair "/foobar/x" "beside" ∷ []

-- The child "x" of "/foo" is the pair of "/foobar/x".
beside_shown :
    get_path "/" (λ _. ok pairs) no_lease "/foo"
    ≡ shown (
        node (fields_of "/foo" true none) (
          next
            (node
              (fields_of "/foobar/x" false
                (some (real_of "/" "/foo" false no_lease (pair "/foobar/x" "beside"))))
              no_node)
            no_node))
unfolding get_path segments split_after characters not_empty place_of prefix_seg_count put_at
    put_all real_of at_child store_at join_with has_prefix convert_root
beside_shown = refl
