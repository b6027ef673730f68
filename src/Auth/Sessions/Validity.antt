-- ===== src/Auth/Sessions/Validity.antt =====
-- Which tokens give access, and what the operations do to that.
use etcdmonitor.Prelude.{
  ℕ, ◌+◌, ◌≤◌, String, ◌≡◌, ◌≢◌, refl, true, List, [], ◌∷◌, Option, none, some, arith, eq_iff,
  Result, ok, ◌==◌, string_eq, nat_eq, if◌then◌else◌, lookup, lookup-insert, lookup-erase,
  Option-cases, inl, inr, IsMap, pos, ltb,
}
use etcdmonitor.Auth.Sessions.{
  Session, SessionError, MemorySessionStore, new_session, is_expired, create, get, delete, sweep,
  cleanup,
}

-- The session that a token stands for at a time: the one stored under it, while it has not expired.
abbrev pub live : ℕ → Option Session → Option Session
live now none = none
live now (some session) = if is_expired session now then none else some session

unfoldable pub view : ℕ → String → MemorySessionStore → Option Session
view now token s = live now (lookup token s.sessions)

pub get-eq-view :
    (now : ℕ) (token : String) (s : MemorySessionStore) → (get now token s).0 ≡ view now token s
unfolding get view
get-eq-view now token s = ground arith

expired_later :
    (session : Session) (now later : ℕ)
    → now ≤ later
    → is_expired session now ≡ true
    → is_expired session later ≡ true
unfolding is_expired
expired_later session now later h e = ground arith

-- What a `get` drops no later `get` would have returned.
pub view-get :
    (now later : ℕ) (token other : String) (s : MemorySessionStore)
    → now ≤ later
    → view later other (get now token s).1 ≡ view later other s
unfolding get view
view-get now later token other s h = elim (Option-cases (lookup token s.sessions)) [
  | inl e ↦ ground arith
  | inr (x, e) ↦
      ground (
        arith,
        lookup-erase token other s.sessions,
        eq_iff token other,
        expired_later x now later h,
      )
]

pub view-delete :
    (now : ℕ) (token other : String) (s : MemorySessionStore)
    → view now other (delete token s) ≡ (if token == other then none else view now other s)
unfolding delete view
view-delete now token other s = ground (arith, lookup-erase token other s.sessions)

lookup-sweep :
    (now : ℕ) (k : String) (m : List (String × Session))
    → IsMap m
    → lookup k (sweep now m) ≡ live now (lookup k m)
unfolding lookup sweep
lookup-sweep now k [] h = refl
lookup-sweep now k ((j, x) ∷ m) h = ground (arith, lookup-sweep now k m h.1, eq_iff j k, h.0)

-- What a cleanup drops no later `get` would have returned.
view-cleanup :
    (now later : ℕ) (other : String) (s : MemorySessionStore)
    → IsMap s.sessions
    → now ≤ later
    → view later other (cleanup now s) ≡ view later other s
unfolding cleanup view
view-cleanup now later other s m h = elim (Option-cases (lookup other s.sessions)) [
  | inl e ↦ ground (arith, lookup-sweep now other s.sessions m)
  | inr (x, e) ↦ ground (arith, lookup-sweep now other s.sessions m, expired_later x now later h)
]

-- What a `get` or a cleanup drops no later `get` would have returned.
pub view_dropped :
    (now later : ℕ) (token other : String) (s : MemorySessionStore)
    → IsMap s.sessions
    → now ≤ later
    → (view later other (get now token s).1 ≡ view later other s)
      × (view later other (cleanup now s) ≡ view later other s)
view_dropped now later token other s m h =
    (view-get now later token other s h, view-cleanup now later other s m h)

sweep-IsMap : (now : ℕ) (m : List (String × Session)) → IsMap m → IsMap (sweep now m)
unfolding sweep
sweep-IsMap now [] h = tt
sweep-IsMap now ((j, x) ∷ m) h =
    ground (arith, sweep-IsMap now m h.1, lookup-sweep now j m h.1, h.0)

pub cleanup-IsMap :
    (now : ℕ) (s : MemorySessionStore) → IsMap s.sessions → IsMap (cleanup now s).sessions
unfolding cleanup
cleanup-IsMap now s h = sweep-IsMap now s.sessions h

module _ (now later timeout user_id : ℕ) (token username : String) (s : MemorySessionStore) where
  abbrev created : Result SessionError Session × MemorySessionStore
  created = create now (some token) user_id username (pos timeout) s

  abbrev session : Session
  session = new_session now token user_id username timeout

  -- A session that was created is found under its token until its time has passed, and not after;
  -- with timeout 0 it is always found.
  pub view-create :
      (created.0 ≡ ok session)
      × (view later token created.1 ≡ (
          if timeout == 0
          then some session
          else if ltb (now + timeout) later
          then none
          else some session))
  unfolding create view is_expired
  view-create =
      (refl, ground (arith, lookup-insert token token session s.sessions, eq_iff token token))

  -- Other tokens keep their sessions.
  pub view-create_ne :
      (other : String) → token ≢ other → view later other created.1 ≡ view later other s
  unfolding create view
  view-create_ne other ne =
      ground (arith, lookup-insert token other session s.sessions, eq_iff token other)
