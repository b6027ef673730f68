-- ===== src/Tabs/Members.antt =====
-- The members of the default cluster, kept for 30 seconds (internal/kvmanager/tabs/manager.go).
-- A map of URLs is the list of its keys, in the order in which the map is run through.
pub mod Answers
use Prim.Native.Char.{code}
use Prim.Native.String
use etcdmonitor.Prelude.{
  ℕ, zero, suc, ◌+◌, String, Bool, true, false, ◌&&◌, List, [], ◌∷◌, Option, none, some, ltb, ◌==◌,
  nat_eq, string_eq, if◌then◌else◌,
}
use etcdmonitor.Config.Endpoints.{trim_space, trim_slashes, drop_chars}
use etcdmonitor.Tabs.Manager.Conn.{has_prefix_lower}

-- The fields `member…` of `Manager`
pub record MemberCache : Type 0 where
  pub cached : Option (List String)
  pub cached_at : ℕ
  pub ttl : ℕ
  pub degraded : Bool

abbrev pub new_cache : MemberCache
new_cache = record { cached = none; cached_at = 0; ttl = 30; degraded = false }

-- How asking the default cluster ends: there is no client, `MemberList` fails, or it gives the
-- client URLs of all members.
pub data MemberReply : Type 0 where
  no_client : MemberReply
  list_failed : MemberReply
  listed : List String → MemberReply

-- `fallback` is the configured endpoints.
unfoldable pub ask_members :
    List String → ℕ → MemberReply → MemberCache → (List String × Bool) × MemberCache
ask_members fallback now no_client m = ((fallback, true), m)
ask_members fallback now list_failed m =
    ((fallback, true), record m { cached = some fallback; cached_at = now; degraded = true })
ask_members fallback now (listed urls) m =
    ((urls, false), record m { cached = some urls; cached_at = now; degraded = false })

unfoldable pub fresh_or_ask :
    Option (List String)
    → List String
    → ℕ
    → MemberReply
    → MemberCache
    → (List String × Bool) × MemberCache
unfolding ask_members
fresh_or_ask none fallback now reply m = ask_members fallback now reply m
fresh_or_ask (some urls) fallback now reply m =
    if ltb now (m.cached_at + m.ttl)
    then ((urls, m.degraded), m)
    else ask_members fallback now reply m

-- The members, and whether they are only the configured endpoints. One reading of the clock serves
-- the call; its error is never set.
unfoldable pub get_default_members :
    List String → ℕ → MemberReply → MemberCache → (List String × Bool) × MemberCache
unfolding fresh_or_ask
get_default_members fallback now reply m = fresh_or_ask m.cached fallback now reply m

unfoldable pub lower_scheme : String → String
unfolding has_prefix_lower drop_chars
lower_scheme s =
    if has_prefix_lower "http://" s
    then String.◌++◌ "http://" (drop_chars 7 s)
    else if has_prefix_lower "https://" s
    then String.◌++◌ "https://" (drop_chars 8 s)
    else s

unfoldable pub normalize_for_member_match : String → String
unfolding trim_slashes lower_scheme
normalize_for_member_match s = lower_scheme (trim_slashes (trim_space s))

unfoldable pub first_match : String → List String → Option String
unfolding normalize_for_member_match
first_match target [] = none
first_match target (url ∷ urls) =
    let rest = first_match target urls in
    if normalize_for_member_match url == target then some url else rest

-- The member that an endpoint belongs to, if any, and whether the check was degraded.
unfoldable pub is_default_cluster_member :
    List String → String → ℕ → MemberReply → MemberCache → (Option String × Bool) × MemberCache
unfolding get_default_members first_match
is_default_cluster_member fallback endpoint now reply m =
    let ((members, deg), m1) = get_default_members fallback now reply m in
    ((first_match (normalize_for_member_match endpoint) members, deg), m1)
