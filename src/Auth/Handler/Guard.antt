-- ===== src/Auth/Handler/Guard.antt =====
-- What the middleware lets through, and what a logout ends.
use etcdmonitor.Prelude.{
  ℕ, ◌≤◌, ◌≡◌, ◌≢◌, String, false, none, arith, ◌==◌, string_eq, eq_iff, if◌then◌else◌,
}
use etcdmonitor.Auth.Sessions.{get, extract_token, is_valid, is_some}
use etcdmonitor.Auth.Sessions.Validity.{view, view-get, view-delete, get-eq-view}
use etcdmonitor.Auth.Handler.{Context, AuthState}
use etcdmonitor.Auth.Handler.Logout.{auth_middleware, handle_logout, logout_token}

module _ (ctx : Context) (s : AuthState) where
  abbrev token : String
  token = extract_token ctx.request

  -- A request reaches a protected handler exactly when it carries a token and the token's session
  -- has not expired, and the check takes no session from any token, now or later.
  pub middleware_admits :
      (later : ℕ) (other : String)
      → ctx.now ≤ later
      → ((auth_middleware ctx s).0
          ≡ (if token == "" then false else is_some (view ctx.now token s.sessions)))
        × (view later other (auth_middleware ctx s).1.sessions ≡ view later other s.sessions)
  unfolding auth_middleware is_valid
  middleware_admits later other h = (
    ground (arith, get-eq-view ctx.now token s.sessions),
    ground (arith, view-get ctx.now later token other s.sessions h),
  )

  -- After a logout the token of the request has no session, now or later, and every other
  -- token keeps its own.
  pub logout_ends :
      (later : ℕ) (other : String)
      → ctx.now ≤ later
      → token ≢ ""
      → view later other (handle_logout ctx s).1.sessions
        ≡ (if token == other then none else view later other s.sessions)
  unfolding handle_logout logout_token
  logout_ends later other h given = ground (
    arith,
    eq_iff token "",
    view-delete later token other (get ctx.now token s.sessions).1,
    view-get ctx.now later token other s.sessions h,
  )
