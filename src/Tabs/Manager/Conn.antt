-- ===== src/Tabs/Manager/Conn.antt =====
-- Connections, and the classes of connection errors (internal/kvmanager/tabs/manager.go).
use Prim.Native.Char.{code}
use etcdmonitor.Prelude.{
  ℕ, ◌+◌, String, Bool, true, false, ◌&&◌, List, [], ◌∷◌, Option, none, some, leb, ◌==◌, nat_eq,
  string_eq, if◌then◌else◌,
}

-- The TLS settings that a connection may have: none checks, or those of the default cluster.
pub data Tls : Type 0 where
  insecure_skip_verify : Tls
  cluster_tls : Tls

pub record ConnectionConfig : Type 0 where
  pub endpoints : List String
  pub username : String
  pub password : String
  pub tls : Option Tls
  pub is_default : Bool

-- The code of a character in lower case; besides A–Z only the Kelvin sign and the capital dotted I
-- become ASCII letters.
unfoldable pub lower_code : ℕ → ℕ
lower_code n =
    if leb 65 n && leb n 90 then n + 32 else if n == 8490 then 107 else if n == 304 then 105 else n

-- `strings.HasPrefix(strings.ToLower(s), p)`, for p in ASCII and lower case
unfoldable pub has_prefix_lower : String → String → Bool
unfolding lower_code
has_prefix_lower String.[] s = true
has_prefix_lower (String.◌∷◌ c p) String.[] = false
has_prefix_lower (String.◌∷◌ c p) (String.◌∷◌ d s) =
    if lower_code (code d) == code c then has_prefix_lower p s else false

-- `strings.Contains(strings.ToLower(s), p)`
unfoldable pub contains_lower : String → String → Bool
unfolding has_prefix_lower
contains_lower p String.[] = has_prefix_lower p String.[]
contains_lower p (String.◌∷◌ d s) =
    if has_prefix_lower p (String.◌∷◌ d s) then true else contains_lower p s

unfoldable pub contains_any : List String → String → Bool
unfolding contains_lower
contains_any [] s = false
contains_any (p ∷ ps) s = if contains_lower p s then true else contains_any ps s

unfoldable pub tls_for_endpoint : String → Option Tls
unfolding has_prefix_lower
tls_for_endpoint endpoint =
    if has_prefix_lower "https://" endpoint then some insecure_skip_verify else none

abbrev pub auth_words : List String
auth_words =
    "authentication" ∷ "etcdserver: invalid auth" ∷ "user name is empty" ∷ "auth failed"
    ∷ "permission denied" ∷ []

abbrev pub network_words : List String
network_words =
    "context deadline" ∷ "connection refused" ∷ "no such host" ∷ "no route to host" ∷ "i/o timeout"
    ∷ "transport: error while dialing" ∷ "unavailable" ∷ []

-- `none` is the nil error.
unfoldable pub classify_conn_error : Option String → String × String
unfolding contains_any
classify_conn_error none = ("ok", "")
classify_conn_error (some msg) =
    if contains_any auth_words msg
    then ("auth_failed", msg)
    else if contains_any network_words msg
    then ("unreachable", msg)
    else ("unknown_error", msg)
