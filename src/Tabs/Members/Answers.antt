-- ===== src/Tabs/Members/Answers.antt =====
-- Where the members that a check uses come from.
use mathlib.Core.List.{Memᴰ}
use etcdmonitor.Prelude.{
  ℕ, ◌+◌, ◌<◌, ◌≡◌, ◌≢◌, refl, sym, subst, String, Bool, true, false, List, [], ◌∷◌, Option, none,
  some, ltb, ◌==◌, string_eq, Bool-cases, inl, inr, arith, eq_iff,
}
use etcdmonitor.Tabs.Members.{
  MemberCache, new_cache, MemberReply, no_client, list_failed, listed, ask_members, fresh_or_ask,
  get_default_members, first_match, is_default_cluster_member, normalize_for_member_match,
}

-- The calls so far, the last one first, and the cache after them.
unfoldable pub after_calls : List String → List (ℕ × MemberReply) → MemberCache
unfolding get_default_members
after_calls fallback [] = new_cache
after_calls fallback ((now, reply) ∷ log) =
    (get_default_members fallback now reply (after_calls fallback log)).1

-- Members that are not degraded were listed by the cluster at a call, of less than 30 seconds
-- before; degraded ones are the configured endpoints.
abbrev pub Sourced : List String → List (ℕ × MemberReply) → ℕ → List String × Bool → Type 0
Sourced fallback log now (urls, true) = urls ≡ fallback
Sourced fallback log now (urls, false) = (at : ℕ) × Memᴰ (at, listed urls) log × (now < at + 30)

abbrev Kept : List String → List (ℕ × MemberReply) → ℕ → Bool → Option (List String) → Type 0
Kept fallback log at degraded none = Unit
Kept fallback log at true (some urls) = urls ≡ fallback
Kept fallback log at false (some urls) = Memᴰ (at, listed urls) log

-- What the cache holds was stored by a call, and is kept for 30 seconds.
record Current (fallback : List String) (log : List (ℕ × MemberReply)) (m : MemberCache)
    : Type 0 where
  kept : Kept fallback log m.cached_at m.degraded m.cached
  period : m.ttl ≡ 30

still_stored :
    (fallback : List String) (call : ℕ × MemberReply) (log : List (ℕ × MemberReply)) (at : ℕ)
    (degraded : Bool) (o : Option (List String))
    → Kept fallback log at degraded o
    → Kept fallback (call ∷ log) at degraded o
still_stored fallback call log at degraded none h = tt
still_stored fallback call log at true (some urls) h = h
still_stored fallback call log at false (some urls) h = Memᴰ.tail h

stored_answer :
    (fallback : List String) (call : ℕ × MemberReply) (log : List (ℕ × MemberReply)) (at now : ℕ)
    (degraded : Bool) (urls : List String)
    → now < at + 30
    → Kept fallback log at degraded (some urls)
    → Sourced fallback (call ∷ log) now (urls, degraded)
stored_answer fallback call log at now true urls h k = k
stored_answer fallback call log at now false urls h k = (at, Memᴰ.tail k, h)

-- A call's answer, and the cache after it
abbrev Answered :
    List String → List (ℕ × MemberReply) → ℕ → (List String × Bool) × MemberCache → Type 0
Answered fallback log now r = Sourced fallback log now r.0 × Current fallback log r.1

ask_members-Answered :
    (fallback : List String) (now : ℕ) (reply : MemberReply) (log : List (ℕ × MemberReply))
    (m : MemberCache)
    → Current fallback log m
    → Answered fallback ((now, reply) ∷ log) now (ask_members fallback now reply m)
unfolding ask_members
ask_members-Answered fallback now no_client log m c = (
  refl,
  record {
    kept = still_stored fallback (now, no_client) log m.cached_at m.degraded m.cached c.kept;
    period = c.period;
  },
)
ask_members-Answered fallback now list_failed log m c =
    (refl, record { kept = refl; period = c.period })
ask_members-Answered fallback now (listed urls) log m c =
    ((now, Memᴰ.head refl, omega arith), record { kept = Memᴰ.head refl; period = c.period })

fresh_or_ask-Answered :
    (o : Option (List String)) (fallback : List String) (now : ℕ) (reply : MemberReply)
    (log : List (ℕ × MemberReply)) (m : MemberCache)
    → Kept fallback log m.cached_at m.degraded o
    → Current fallback log m
    → Answered fallback ((now, reply) ∷ log) now (fresh_or_ask o fallback now reply m)
unfolding fresh_or_ask
fresh_or_ask-Answered none fallback now reply log m k c =
    ask_members-Answered fallback now reply log m c
fresh_or_ask-Answered (some urls) fallback now reply log m k c =
    elim (Bool-cases (ltb now (m.cached_at + m.ttl))) [
      | inl e ↦ rw e (
        stored_answer fallback (now, reply) log m.cached_at now m.degraded urls
            (in_period m.cached_at now m.ttl e c.period) k,
        record {
          kept = still_stored fallback (now, reply) log m.cached_at m.degraded m.cached c.kept;
          period = c.period;
        },
      )
      | inr e ↦ rw e (ask_members-Answered fallback now reply log m c)
    ]
  where
    in_period : (at now ttl : ℕ) → ltb now (at + ttl) ≡ true → ttl ≡ 30 → now < at + 30
    in_period at now ttl e p = ground (arith, e, p)

get_default_members-Answered :
    (fallback : List String) (now : ℕ) (reply : MemberReply) (log : List (ℕ × MemberReply))
    (m : MemberCache)
    → Current fallback log m
    → Answered fallback ((now, reply) ∷ log) now (get_default_members fallback now reply m)
unfolding get_default_members
get_default_members-Answered fallback now reply log m c =
    fresh_or_ask-Answered m.cached fallback now reply log m c.kept c

after_calls-Current :
    (fallback : List String) (log : List (ℕ × MemberReply))
    → Current fallback log (after_calls fallback log)
unfolding after_calls
after_calls-Current fallback [] = record { kept = tt; period = refl }
after_calls-Current fallback ((now, reply) ∷ log) =
    (get_default_members-Answered fallback now reply log (after_calls fallback log)
      (after_calls-Current fallback log)).1

-- A member that is named is one of the members and has the wanted text; where none is named, none
-- has it.
abbrev pub Match : String → List String → Option String → Type 0
Match target members (some url) = Memᴰ url members × (normalize_for_member_match url ≡ target)
Match target members none =
    (url : String) → Memᴰ url members → normalize_for_member_match url ≢ target

beyond_first :
    (target first : String) (members : List String) (o : Option String)
    → normalize_for_member_match first ≢ target
    → Match target members o
    → Match target (first ∷ members) o
beyond_first target first members (some url) h k = (Memᴰ.tail k.0, k.1)
beyond_first target first members none h k = λ url q. elsewhere url q
  where
    elsewhere :
        (url : String) → Memᴰ url (first ∷ members) → normalize_for_member_match url ≢ target
    elsewhere url (Memᴰ.head e) = subst (λ u. normalize_for_member_match u ≢ target) (sym e) h
    elsewhere url (Memᴰ.tail q) = k url q

first_match-Match :
    (target : String) (members : List String) → Match target members (first_match target members)
unfolding first_match
first_match-Match target [] = λ url q. elim q [ ]
first_match-Match target (first ∷ members) =
    elim (Bool-cases (normalize_for_member_match first == target)) [
      | inl e ↦ rw e (Memᴰ.head refl, (eq_iff (normalize_for_member_match first) target).0 e)
      | inr e ↦ rw e (
          beyond_first target first members (first_match target members)
            (ground (arith, eq_iff (normalize_for_member_match first) target, e))
            (first_match-Match target members))
    ]

-- After any calls, with any replies, a check of an endpoint that is not degraded compares it with
-- members that the cluster listed at one of the calls, less than 30 seconds before or just now,
-- and a degraded one with the configured endpoints. It names one of those that normalizes to the
-- same text as the endpoint, and none only where none does.
pub member_check_origin :
    (fallback : List String) (log : List (ℕ × MemberReply)) (now : ℕ) (reply : MemberReply)
    (endpoint : String)
    → let r =
        (is_default_cluster_member fallback endpoint now reply (after_calls fallback log)).0 in
      (members : List String) × Sourced fallback ((now, reply) ∷ log) now (members, r.1)
      × Match (normalize_for_member_match endpoint) members r.0
unfolding is_default_cluster_member
member_check_origin fallback log now reply endpoint =
    let m = after_calls fallback log in
    let answer = get_default_members fallback now reply m in
    (
      answer.0.0,
      (get_default_members-Answered fallback now reply log m (after_calls-Current fallback log)).0,
      first_match-Match (normalize_for_member_match endpoint) answer.0.0,
    )
