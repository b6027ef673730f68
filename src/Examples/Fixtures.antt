-- ===== src/Examples/Fixtures.antt =====
-- A configuration, a clock, accounts and a bcrypt that stores the password itself.
use etcdmonitor.Prelude.{
  ℕ, ◌≡◌, String, true, false, List, [], ◌∷◌, none, some, arith, eq_iff, ◌==◌, string_eq, pos,
}
use etcdmonitor.Storage.Users.{User, Storage}
use etcdmonitor.Auth.Password.{Bcrypt}
use etcdmonitor.Auth.Handler.{AuthConfig, Context, AuthState, LoginRequest, ChangePasswordRequest}

pub plain_matches :
    (plain hash : String) (cost : ℕ) → some plain ≡ some hash → (hash == plain) ≡ true
plain_matches plain hash cost h = ground (arith, eq_iff hash plain, h)

abbrev pub plain_bcrypt : Bcrypt
plain_bcrypt = record {
  generate = λ plain cost. some plain;
  matches = λ hash plain. hash == plain;
  matches-generate = plain_matches;
}

abbrev pub config : AuthConfig
config = record {
  lockout_threshold = pos 2;
  lockout_duration_seconds = pos 60;
  min_password_length = pos 3;
  bcrypt_cost = pos 10;
  session_timeout = pos 3600;
  tls_enable = true;
  ops_enabled = false;
  etcd_auth_required = false;
  version = "v1";
}

-- A request without a token, at a time
abbrev pub at : ℕ → Context
at now = record {
  client_ip = "10.0.0.1";
  now = now;
  elapsed_ms = 1;
  random_token = some "t1";
  remove_fails = false;
  request = record { authorization = ""; cookie = none };
}

-- The same with a bearer token
abbrev pub bearing : String → ℕ → Context
bearing header now = record (at now) { request = record { authorization = header; cookie = none } }

abbrev pub account : ℕ → String → String → User
account id username password = record {
  id = id;
  username = username;
  password_hash = password;
  role = "viewer";
  must_change_password = false;
  failed_attempts = 0;
  locked_until = 0;
  last_login_at = 0;
  created_at = 1;
  updated_at = 1;
}

abbrev pub alice : User
alice = account 1 "alice" "open1"

abbrev pub locked_alice : User
locked_alice = record alice { locked_until = 100 }

abbrev pub storage : List User → Storage
storage users = record {
  users = users;
  next_user_id = 3;
  audit_log = [];
  fails = λ _. false;
  statements = 0;
}

abbrev pub state : User → AuthState
state user = record {
  store = storage (user ∷ account 2 "bob" "open2" ∷ []);
  sessions = record { sessions = []; stopped = false };
  password_file = none;
}

abbrev pub login_as : String → LoginRequest
login_as password = record { username = "alice"; password = password }

abbrev pub change_to : String → ChangePasswordRequest
change_to new = record { username = "alice"; old_password = "open1"; new_password = new }
