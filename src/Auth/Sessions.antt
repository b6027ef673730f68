-- ===== src/Auth/Sessions.antt =====
-- The in-memory session store (internal/auth/auth.go). `now` is `time.Now()`, read to the second;
-- the mutex makes each method one step.
pub mod Validity
use Prim.Native.Char.{code}
use etcdmonitor.Prelude.{
  ℕ, ◌+◌, zero, suc, String, Bool, true, false, not, List, [], ◌∷◌, Option, none, some, Result, ok,
  err, ltb, ◌==◌, nat_eq, string_eq, if◌then◌else◌, lookup, insert, erase, ℤ, pos, negsuc, ◌≡◌,
  refl, ◌&&◌,
}

pub record Session : Type 0 where
  pub token : String
  pub user_id : ℕ
  pub username : String
  pub created_at : ℕ
  -- `none` is the zero time: the session never expires
  pub expires_at : Option ℕ

unfoldable pub is_expired : Session → ℕ → Bool
is_expired s now = elim s.expires_at [ none ↦ false | some at ↦ ltb at now ]

pub record MemorySessionStore : Type 0 where
  pub sessions : List (String × Session)
  pub stopped : Bool

pub new_memory_session_store : MemorySessionStore
new_memory_session_store = record { sessions = []; stopped = false }

pub data SessionError : Type 0 where
  invalid_session_timeout no_random : SessionError

put : Session → MemorySessionStore → MemorySessionStore
put session s = record s { sessions = insert session.token session s.sessions }

-- `ExpiresAt` stays the zero time where the timeout is 0.
abbrev pub new_session : ℕ → String → ℕ → String → ℕ → Session
new_session now token user_id username timeout = record {
  token = token;
  user_id = user_id;
  username = username;
  created_at = now;
  expires_at = if ltb 0 timeout then some (now + timeout) else none;
}

-- `generated` is what `GenerateToken` returns: `none` where the random source fails.
unfoldable pub create :
    ℕ
    → Option String
    → ℕ
    → String
    → ℤ
    → MemorySessionStore
    → Result SessionError Session × MemorySessionStore
unfolding put
create now generated user_id username (negsuc n) s = (err invalid_session_timeout, s)
create now generated user_id username (pos timeout) s = elim generated [
  | none ↦ (err no_random, s)
  | some token ↦
      let session : Session = new_session now token user_id username timeout in
      (ok session, put session s)
]

drop : String → MemorySessionStore → MemorySessionStore
drop token s = record s { sessions = erase token s.sessions }

-- An expired session is deleted when it is met.
unfoldable pub get : ℕ → String → MemorySessionStore → Option Session × MemorySessionStore
unfolding drop is_expired
get now token s = elim (lookup token s.sessions) [
  | none ↦ (none, s)
  | some session ↦ if is_expired session now then (none, drop token s) else (some session, s)
]

unfoldable pub delete : String → MemorySessionStore → MemorySessionStore
unfolding drop
delete token s = drop token s

abbrev pub is_some : Option Session → Bool
is_some none = false
is_some (some _) = true

unfoldable pub is_valid : ℕ → String → MemorySessionStore → Bool × MemorySessionStore
unfolding get
is_valid now token s = let (found, s') = get now token s in (is_some found, s')

-- `for token, session := range s.sessions`
sweep : ℕ → List (String × Session) → List (String × Session)
sweep now [] = []
sweep now ((token, session) ∷ m) =
    let rest = sweep now m in if is_expired session now then rest else (token, session) ∷ rest

unfoldable pub cleanup : ℕ → MemorySessionStore → MemorySessionStore
unfolding sweep
cleanup now s = record s { sessions = sweep now s.sessions }

-- `stopOnce.Do(close(stopCh))`
unfoldable pub stop : MemorySessionStore → MemorySessionStore
stop s = record s { stopped = true }

-- What the background goroutine receives: a tick of the clock, at a time, or the closed channel.
pub data LoopEvent : Type 0 where
  ticked : ℕ → LoopEvent
  closed : LoopEvent

unfoldable pub cleanup_loop : List LoopEvent → MemorySessionStore → MemorySessionStore
unfolding cleanup
cleanup_loop [] s = s
cleanup_loop (closed ∷ events) s = s
cleanup_loop (ticked now ∷ events) s = cleanup_loop events (cleanup now s)

-- `auth[:len(prefix)] == prefix`, with what follows
unfoldable pub strip_prefix : String → String → Option String
strip_prefix String.[] s = some s
strip_prefix (String.◌∷◌ c p) String.[] = none
strip_prefix (String.◌∷◌ c p) (String.◌∷◌ d s) = if code c == code d then strip_prefix p s else none

-- The two places of a request that may carry a token; an absent header is "".
pub record Request : Type 0 where
  pub authorization : String
  pub cookie : Option String

cookie_token : Option String → String
cookie_token none = ""
cookie_token (some v) = v

unfoldable pub extract_token : Request → String
unfolding strip_prefix cookie_token
extract_token r = elim (strip_prefix "Bearer " r.authorization) [
  | none ↦ cookie_token r.cookie
  | some rest ↦ if rest == "" then cookie_token r.cookie else rest
]
