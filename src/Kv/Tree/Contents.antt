-- ===== src/Kv/Tree/Contents.antt =====
-- What the tree holds at each path: the last pair whose segments lead there.
use Prim.Native.Char.{Char}
use Prim.Native.String
use etcdmonitor.Prelude.{
  ℕ, ◌≢◌, String, Bool, true, false, List, [], ◌∷◌, Option, none, some, ◌==◌, nat_eq, string_eq,
  if◌then◌else◌, All, take,
}
use etcdmonitor.Kv.Split.{segments}
use etcdmonitor.Kv.Tree.{
  KeyValue, Real, Entry, entry, Children, no_child, child, Place, at_root, below, skipped,
  out_of_range, prefix_seg_count, place_of, real_of,
}

unfoldable pub find_child : String → Children → Option Entry
find_child t no_child = none
find_child t (child s e rest) = if s == t then some e else find_child t rest

abbrev under : (Entry → Option Real) → Option Entry → Option Real
under f none = none
under f (some e) = f e

-- The pair at a path of segments below an entry
unfoldable pub real_at : List String → Entry → Option Real
unfolding find_child
real_at [] (entry key real children) = real
real_at (seg ∷ rest) (entry key real children) = under (real_at rest) (find_child seg children)

abbrev pub same_path : List String → List String → Bool
same_path [] [] = true
same_path [] (s ∷ ss) = false
same_path (s ∷ ss) [] = false
same_path (s ∷ ss) (t ∷ ts) = if s == t then same_path ss ts else false

abbrev or_fresh : Entry → Option Entry → Entry
or_fresh fresh none = fresh
or_fresh fresh (some e) = e

-- Whether a pair of that place is the one at a path
abbrev pub leads_to : Place → List String → Bool
leads_to at_root p = same_path [] p
leads_to (below q) p = same_path q p
leads_to skipped p = false
leads_to out_of_range p = false

-- The last of the pairs whose place is the path
module _ (sep key : String) (keys_only : Bool) (ttl : ℕ → Option ℕ) where
  abbrev pub last_at : List String → List KeyValue → Option Real → Option Real
  last_at p [] before = before
  last_at p (kv ∷ kvs) before = last_at p kvs (
      if leads_to (place_of sep key keys_only ttl kv) p
      then some (real_of sep key keys_only ttl kv)
      else before)

  -- No pair is out of range.
  abbrev pub InRange : List KeyValue → Type 0
  InRange kvs = All (λ kv. place_of sep key keys_only ttl kv ≢ out_of_range) kvs

  abbrev passed : KeyValue → List String
  passed kv = take (prefix_seg_count sep key keys_only ttl) (segments sep kv.key)
