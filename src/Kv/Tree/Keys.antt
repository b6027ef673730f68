-- ===== src/Kv/Tree/Keys.antt =====
-- The tree of keys holds no values.
use Prim.Native.String
use etcdmonitor.Prelude.{
  ℕ, ◌≡◌, refl, String, Bool, true, List, [], ◌∷◌, ◌++◌, Option, none, some, Result, ok, err,
  Bool-cases, inl, inr, ◌==◌, string_eq, if◌then◌else◌, take,
}
use etcdmonitor.Kv.Split.{segments}
use etcdmonitor.Kv.Tree.{
  KeyValue, Real, Entry, entry, Children, no_child, child, at_child, store_at, Place, at_root,
  below, skipped, out_of_range, prefix_seg_count, place_of, real_of, put_at, put_all, Node, Nodes,
  node, no_node, next, fields_of, node_key, is_dir, convert_entry, convert_children, convert_root,
  Outcome, failed, crashed, shown, shown_or_crashed, root_entry, reply_tree, get_tree, keys,
  join_with,
}

-- No node below has a value.
unfoldable mutual
  pub Valueless : Node → Type 0
  Valueless (node f children) = (f.value ≡ "") × ValuelessAll children

  pub ValuelessAll : Nodes → Type 0
  ValuelessAll no_node = Unit
  ValuelessAll (next n rest) = Valueless n × ValuelessAll rest

abbrev BlankReal : Option Real → Type 0
BlankReal none = Unit
BlankReal (some r) = r.value ≡ ""

mutual
  Blank : Entry → Type 0
  Blank (entry key real children) = BlankReal real × BlankAll children

  BlankAll : Children → Type 0
  BlankAll no_child = Unit
  BlankAll (child s e rest) = Blank e × BlankAll rest

abbrev KeepsBlank : (Entry → Entry) → Type 0
KeepsBlank f = (e : Entry) → Blank e → Blank (f e)

at_child-Blank :
    (seg : String) (fresh : Entry) (f : Entry → Entry) (cs : Children)
    → KeepsBlank f
    → Blank fresh
    → BlankAll cs
    → BlankAll (at_child seg fresh f cs)
unfolding at_child BlankAll
at_child-Blank seg fresh f no_child k h b = (k fresh h, tt)
at_child-Blank seg fresh f (child s e rest) k h b = elim (Bool-cases (s == seg)) [
  | inl q ↦ rw q (k e b.0, b.1)
  | inr q ↦ rw q (b.0, at_child-Blank seg fresh f rest k h b.1)
]

store_at-Blank :
    (sep : String) (passed path : List String) (r : Real)
    → r.value ≡ ""
    → KeepsBlank (store_at sep passed path r)
unfolding store_at BlankAll
store_at-Blank sep passed [] r h (entry key real cs) b = (h, b.1)
store_at-Blank sep passed (seg ∷ rest) r h (entry key real cs) b =
    let here = passed ++ seg ∷ [] in
    let name = String.◌++◌ sep (join_with sep here) in
    (
      b.0,
      at_child-Blank seg (entry name none no_child) (store_at sep here rest r) cs
          (store_at-Blank sep here rest r h) (tt, tt) b.1,
    )

abbrev BlankIfSome : Option Entry → Type 0
BlankIfSome none = Unit
BlankIfSome (some e) = Blank e

module _ (sep key : String) (ttl : ℕ → Option ℕ) where
  real_of-blank : (kv : KeyValue) → (real_of sep key true ttl kv).value ≡ ""
  unfolding real_of
  real_of-blank kv = refl

  abbrev passed : KeyValue → List String
  passed kv = take (prefix_seg_count sep key true ttl) (segments sep kv.key)

  put_at-Blank :
      (place : Place) (kv : KeyValue) (e : Entry)
      → Blank e
      → BlankIfSome (put_at sep key true ttl place kv e)
  unfolding put_at
  put_at-Blank at_root kv e b =
      store_at-Blank sep (passed kv) [] (real_of sep key true ttl kv) (real_of-blank kv) e b
  put_at-Blank (below path) kv e b =
      store_at-Blank sep (passed kv) path (real_of sep key true ttl kv) (real_of-blank kv) e b
  put_at-Blank skipped kv e b = b
  put_at-Blank out_of_range kv e b = tt

  put_all-Blank :
      (kvs : List KeyValue) (e : Entry) → Blank e → BlankIfSome (put_all sep key true ttl kvs e)
  unfolding put_all
  put_all-Blank [] e b = b
  put_all-Blank (kv ∷ kvs) e b =
      go (put_at sep key true ttl (place_of sep key true ttl kv) kv e)
        (put_at-Blank (place_of sep key true ttl kv) kv e b) (put_all-Blank kvs)
    where
      go :
          (o : Option Entry)
          → BlankIfSome o
          → ((e' : Entry) → Blank e' → BlankIfSome (put_all sep key true ttl kvs e'))
          → BlankIfSome (elim o [ none ↦ none | some e' ↦ put_all sep key true ttl kvs e' ])
      go none b later = tt
      go (some e') b later = later e' b

fields_of-blank :
    (key : String) (dir : Bool) (real : Option Real)
    → BlankReal real
    → (fields_of key dir real).value ≡ ""
fields_of-blank key dir none b = refl
fields_of-blank key dir (some r) b = b

mutual
  unfolding convert_entry Blank Valueless

  convert_entry-Valueless : (e : Entry) → Blank e → Valueless (convert_entry e)
  convert_entry-Valueless (entry key real cs) b = (
    fields_of-blank (node_key key real) (is_dir real cs) real b.0,
    convert_children-Valueless cs b.1,
  )

  convert_children-Valueless : (cs : Children) → BlankAll cs → ValuelessAll (convert_children cs)
  convert_children-Valueless no_child b = tt
  convert_children-Valueless (child s e rest) b =
      (convert_entry-Valueless e b.0, convert_children-Valueless rest b.1)

-- An outcome that shows a tree shows one without values.
abbrev pub ShowsKeys : Outcome → Type 0
ShowsKeys (failed e) = Unit
ShowsKeys crashed = Unit
ShowsKeys (shown n) = Valueless n

shown_or_crashed-ShowsKeys :
    (key : String) (o : Option Entry) → BlankIfSome o → ShowsKeys (shown_or_crashed key o)
unfolding shown_or_crashed convert_root Valueless Blank
shown_or_crashed-ShowsKeys key none b = tt
shown_or_crashed-ShowsKeys key (some (entry k real cs)) b =
    (fields_of-blank key true real b.0, convert_children-Valueless cs b.1)

reply_tree-ShowsKeys :
    (sep key : String) (ttl : ℕ → Option ℕ) (r : Result String (List KeyValue))
    → ShowsKeys (reply_tree sep key true ttl r)
unfolding reply_tree Valueless Blank
reply_tree-ShowsKeys sep key ttl (err e) = tt
reply_tree-ShowsKeys sep key ttl (ok []) = (refl, tt)
reply_tree-ShowsKeys sep key ttl (ok (kv ∷ kvs)) =
    shown_or_crashed-ShowsKeys key (put_all sep key true ttl (kv ∷ kvs) (root_entry key))
      (put_all-Blank sep key ttl (kv ∷ kvs) (root_entry key) (tt, tt))

pub keys-ShowsKeys :
    (sep : String) (range : String → Result String (List KeyValue)) (ttl : ℕ → Option ℕ)
    → ShowsKeys (keys sep range ttl)
unfolding keys get_tree
keys-ShowsKeys sep range ttl =
    reply_tree-ShowsKeys sep sep ttl (range (if sep == sep then "" else sep))
