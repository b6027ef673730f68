-- ===== src/Examples/Sessions.antt =====
-- Session tokens.
use etcdmonitor.Prelude.{
  ◌≡◌, ◌≢◌, refl, String, false, [], ◌∷◌, none, some, arith, ◌==◌, string_eq, eq_iff, if◌then◌else◌,
}
use etcdmonitor.Auth.Sessions.{MemorySessionStore, extract_token, is_some, strip_prefix}
use etcdmonitor.Auth.Sessions.Validity.{view}
use etcdmonitor.Auth.Handler.{AuthState}
use etcdmonitor.Auth.Handler.Logout.{auth_middleware, handle_logout}
use etcdmonitor.Auth.Handler.Guard.{middleware_admits, logout_ends}
use etcdmonitor.Examples.Fixtures.{bearing, alice, state}

-- One session until 100 and one that stays.
abbrev two_sessions : MemorySessionStore
two_sessions = record {
  sessions =
      (
        "s1",
        record {
          token = "s1";
          user_id = 1;
          username = "alice";
          created_at = 5;
          expires_at = some 100;
        },
      )
      ∷ (
        "s2",
        record { token = "s2"; user_id = 2; username = "bob"; created_at = 5; expires_at = none },
      )
      ∷ [];
  stopped = false;
}

abbrev signed_in : AuthState
signed_in = record (state alice) { sessions = two_sessions }

middleware_admits_example :
    let token = extract_token (bearing "Bearer s1" 50).request in
    ((auth_middleware (bearing "Bearer s1" 50) signed_in).0
      ≡ (if token == "" then false else is_some (view 50 token two_sessions)))
    × (view 60 "s2" (auth_middleware (bearing "Bearer s1" 50) signed_in).1.sessions
        ≡ view 60 "s2" two_sessions)
middleware_admits_example =
    middleware_admits (bearing "Bearer s1" 50) signed_in 60 "s2" (omega arith)

nonempty : (t : String) → (t == "") ≡ false → t ≢ ""
nonempty t h e = ground (arith, eq_iff t "", h, e)

logout_ends_example : view 60 "s2" (handle_logout (bearing "Bearer s1" 50) signed_in).1.sessions ≡ (
    if extract_token (bearing "Bearer s1" 50).request == "s2"
    then none
    else view 60 "s2" two_sessions)
unfolding extract_token strip_prefix
logout_ends_example =
    logout_ends (bearing "Bearer s1" 50) signed_in 60 "s2" (omega arith) (nonempty _ refl)
