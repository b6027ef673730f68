-- ===== src/Kv/Tree.antt =====
-- `getTree` of the v3 client (internal/kvmanager/client_v3.go): the keys under a prefix, as a tree
-- of their segments.
pub mod Contents
pub mod Keys
use Prim.Native.String
use etcdmonitor.Prelude.{
  ℕ, zero, suc, ◌+◌, ◌-◌, String, Bool, true, false, List, [], ◌∷◌, ◌++◌, Option, none, some,
  Result, ok, err, ltb, ◌==◌, nat_eq, string_eq, if◌then◌else◌, length, take, drop,
}
use etcdmonitor.Kv.Split.{segments}

-- A pair as etcd gives it; lease 0 is none. Revisions and versions are positive.
pub record KeyValue : Type 0 where
  pub key : String
  pub value : String
  pub lease : ℕ
  pub create_revision : ℕ
  pub mod_revision : ℕ
  pub version : ℕ

-- What `nodeEntry` holds of a pair: its fields from `realKey` to `version`.
pub record Real : Type 0 where
  pub real_key : String
  pub value : String
  pub ttl : ℕ
  pub create_revision : ℕ
  pub mod_revision : ℕ
  pub version : ℕ

-- `nodeEntry`; `none` is an entry whose `isRealKey` is not set. The children are the entries of
-- `children`, in the order of `childOrder`, under their segments.
mutual
  pub data Entry : Type 0 where
    entry : String → Option Real → Children → Entry

  pub data Children : Type 0 where
    no_child : Children
    child : String → Entry → Children → Children

-- The child under a segment, made where it is missing, and changed.
unfoldable pub at_child : String → Entry → (Entry → Entry) → Children → Children
at_child seg fresh f no_child = child seg (f fresh) no_child
at_child seg fresh f (child s e rest) =
    let later = at_child seg fresh f rest in
    if s == seg then child s (f e) rest else child s e later

-- `strings.Join(segments, sep)`
unfoldable pub join_with : String → List String → String
join_with sep [] = ""
join_with sep (s ∷ []) = s
join_with sep (s ∷ next ∷ rest) = String.◌++◌ s (String.◌++◌ sep (join_with sep (next ∷ rest)))

-- The walk down the segments that are left, with those that are passed.
unfoldable pub store_at : String → List String → List String → Real → Entry → Entry
unfolding at_child join_with
store_at sep passed [] r (entry key real children) = entry key (some r) children
store_at sep passed (seg ∷ rest) r (entry key real children) =
    let here = passed ++ seg ∷ [] in
    let fresh : Entry = entry (String.◌++◌ sep (join_with sep here)) none no_child in
    entry key real (at_child seg fresh (store_at sep here rest r) children)

-- What becomes of a pair: the root holds it, an entry below the root does, none does, or the slice
-- of its segments is out of range.
pub data Place : Type 0 where
  at_root : Place
  below : List String → Place
  skipped : Place
  out_of_range : Place

abbrev pub below_root : List String → Place
below_root [] = skipped
below_root (s ∷ ss) = below (s ∷ ss)

-- `none` is the reply that the lease is gone, -1, or that asking for it failed.
abbrev pub ttl_of : (ℕ → Option ℕ) → ℕ → ℕ
ttl_of time_to_live lease =
    if lease == 0 then 0 else elim (time_to_live lease) [ none ↦ 0 | some t ↦ t ]

module _ (sep key : String) (keys_only : Bool) (time_to_live : ℕ → Option ℕ) where
  -- `prefixSegCount`
  unfoldable pub prefix_seg_count : ℕ
  prefix_seg_count = if key == sep then 0 else length (segments sep key)

  unfoldable pub place_of : KeyValue → Place
  unfolding prefix_seg_count
  place_of kv =
      let segs = segments sep kv.key in
      let n = prefix_seg_count in
      if length segs == 0
      then at_root
      else if kv.key == key
      then at_root
      else if ltb (length segs) n
      then out_of_range
      else below_root (drop n segs)

  unfoldable pub real_of : KeyValue → Real
  real_of kv = record {
    real_key = kv.key;
    value = if keys_only then "" else kv.value;
    ttl = if keys_only then 0 else ttl_of time_to_live kv.lease;
    create_revision = kv.create_revision;
    mod_revision = kv.mod_revision;
    version = kv.version;
  }

  unfoldable pub put_at : Place → KeyValue → Entry → Option Entry
  unfolding store_at real_of
  put_at at_root kv e =
      some (store_at sep (take prefix_seg_count (segments sep kv.key)) [] (real_of kv) e)
  put_at (below path) kv e =
      some (store_at sep (take prefix_seg_count (segments sep kv.key)) path (real_of kv) e)
  put_at skipped kv e = some e
  put_at out_of_range kv e = none

  -- The loop over the pairs; `none` is a panic.
  unfoldable pub put_all : List KeyValue → Entry → Option Entry
  put_all [] e = some e
  put_all (kv ∷ kvs) e = elim (put_at (place_of kv) kv e) [ none ↦ none | some e' ↦ put_all kvs e' ]

-- `Node` without its children
pub record NodeFields : Type 0 where
  pub key : String
  pub value : String
  pub dir : Bool
  pub ttl : ℕ
  pub create_revision : ℕ
  pub mod_revision : ℕ
  pub version : ℕ

mutual
  pub data Node : Type 0 where
    node : NodeFields → Nodes → Node

  pub data Nodes : Type 0 where
    no_node : Nodes
    next : Node → Nodes → Nodes

abbrev shown_key : String → Real → String
shown_key key r = if r.real_key == "" then key else r.real_key

-- A pair that is stored, or an entry that is only on the way to others
abbrev pub fields_of : String → Bool → Option Real → NodeFields
fields_of key dir none = record {
  key = key;
  value = "";
  dir = dir;
  ttl = 0;
  create_revision = 0;
  mod_revision = 0;
  version = 0;
}
fields_of key dir (some r) = record {
  key = key;
  value = r.value;
  dir = dir;
  ttl = r.ttl;
  create_revision = r.create_revision;
  mod_revision = r.mod_revision;
  version = r.version;
}

abbrev node_key : String → Option Real → String
node_key key none = key
node_key key (some r) = shown_key key r

abbrev pub is_dir : Option Real → Children → Bool
is_dir real (child s e rest) = true
is_dir none no_child = true
is_dir (some r) no_child = false

-- `convertEntry`
unfoldable mutual
  pub convert_entry : Entry → Node
  convert_entry (entry key real children) =
      node (fields_of (node_key key real) (is_dir real children) real) (convert_children children)

  pub convert_children : Children → Nodes
  convert_children no_child = no_node
  convert_children (child s e rest) = next (convert_entry e) (convert_children rest)

-- The root keeps the key that was asked for, and is always a directory.
unfoldable pub convert_root : String → Entry → Node
unfolding convert_entry
convert_root key (entry k real children) =
    node (fields_of key true real) (convert_children children)

pub data Outcome : Type 0 where
  failed : String → Outcome
  crashed : Outcome
  shown : Node → Outcome

shown_or_crashed : String → Option Entry → Outcome
shown_or_crashed key none = crashed
shown_or_crashed key (some e) = shown (convert_root key e)

abbrev pub root_entry : String → Entry
root_entry key = entry key none no_child

reply_tree : String → String → Bool → (ℕ → Option ℕ) → Result String (List KeyValue) → Outcome
unfolding shown_or_crashed put_all
reply_tree sep key keys_only ttl (err e) = failed e
reply_tree sep key keys_only ttl (ok []) = shown (node (fields_of key true none) no_node)
reply_tree sep key keys_only ttl (ok (kv ∷ kvs)) =
    shown_or_crashed key (put_all sep key keys_only ttl (kv ∷ kvs) (root_entry key))

-- `getTree`; `range` is the client's `Get` with a prefix, in the order of the keys, or the error
-- of the client.
unfoldable pub get_tree :
    String → (String → Result String (List KeyValue)) → (ℕ → Option ℕ) → String → Bool → Outcome
unfolding reply_tree
get_tree sep range time_to_live key keys_only =
    reply_tree sep key keys_only time_to_live (range (if key == sep then "" else key))

-- `GetPath` and `Keys`
unfoldable pub get_path :
    String → (String → Result String (List KeyValue)) → (ℕ → Option ℕ) → String → Outcome
unfolding get_tree
get_path sep range time_to_live key = get_tree sep range time_to_live key false

unfoldable pub keys : String → (String → Result String (List KeyValue)) → (ℕ → Option ℕ) → Outcome
unfolding get_tree
keys sep range time_to_live = get_tree sep range time_to_live sep true
