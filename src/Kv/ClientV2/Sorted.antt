-- ===== src/Kv/ClientV2/Sorted.antt =====
-- The children of a converted node: those of the v2 node, sorted by their keys.
use etcdmonitor.Prelude.{◌≡◌, String, false, nat_eq, if◌then◌else◌}
use etcdmonitor.Kv.Tree.{Node, Nodes, node, no_node, next}
use etcdmonitor.Kv.ClientV2.{V2Node, V2Nodes, no_v2, v2_next, v2_key, text_below, node_from_v2}

-- A sort of v2 nodes by their keys, as `sort.Slice` does it
unfoldable pub insert_node : V2Node → V2Nodes → V2Nodes
insert_node n no_v2 = v2_next n no_v2
insert_node n (v2_next m rest) =
    let later = insert_node n rest in
    if text_below (v2_key m) (v2_key n) then v2_next m later else v2_next n (v2_next m rest)

unfoldable pub sort_nodes : V2Nodes → V2Nodes
sort_nodes no_v2 = no_v2
sort_nodes (v2_next n rest) = insert_node n (sort_nodes rest)

-- The loop over the sorted children
unfoldable pub each_from_v2 : V2Nodes → Nodes
each_from_v2 no_v2 = no_node
each_from_v2 (v2_next n rest) = next (node_from_v2 n) (each_from_v2 rest)

abbrev pub node_name : Node → String
node_name (node f children) = f.key

-- No node stands before one with a smaller key.
abbrev pub Ascending : Nodes → Type 0
Ascending no_node = Unit
Ascending (next n no_node) = Unit
Ascending (next n (next m rest)) =
    (text_below (node_name m) (node_name n) ≡ false) × Ascending (next m rest)

abbrev HeadBelow : Node → Nodes → Type 0
HeadBelow n no_node = Unit
HeadBelow n (next m rest) = text_below (node_name m) (node_name n) ≡ false
