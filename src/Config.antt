-- ===== src/Config.antt =====
-- The configuration and its defaults (internal/config/config.go). YAML is decoded outside: a file
-- is the `Config` it decodes to, with the value of `server.session_timeout` where it is written.
pub mod Endpoints
pub mod Limits
pub mod Defaults
use etcdmonitor.Prelude.{
  ℕ, zero, suc, ◌+◌, ◌*◌, String, Bool, true, false, List, [], ◌∷◌, Option, none, some, Result, ok,
  err, ltb, ◌==◌, nat_eq, string_eq, if◌then◌else◌, ℤ, pos, negsuc, positive_or,
}

pub record EtcdConfig : Type 0 where
  pub endpoint : String
  pub username : String
  pub password : String
  pub metrics_path : String
  pub tls_enable : Bool
  pub tls_cert : String
  pub tls_key : String
  pub tls_ca_cert : String
  pub tls_insecure_skip_verify : Bool
  pub tls_server_name : String

pub record ServerConfig : Type 0 where
  pub listen : String
  pub tls_enable : Bool
  pub tls_cert : String
  pub tls_key : String
  pub session_timeout : ℤ

pub record StorageConfig : Type 0 where
  pub db_path : String
  pub retention_days : ℤ

pub record LogConfig : Type 0 where
  pub dir : String
  pub filename : String
  pub level : String
  pub max_size_mb : ℤ
  pub max_files : ℤ
  pub max_age : ℤ
  pub compress : Bool
  pub console : Bool

pub record KvConfig : Type 0 where
  pub separator : String
  pub connect_timeout : ℤ
  pub request_timeout : ℤ
  pub max_value_size : ℤ
  pub tab_ping_interval : ℤ

pub record OpsConfig : Type 0 where
  pub enable : Option Bool
  pub audit_retention_days : ℤ

pub record AuthSettings : Type 0 where
  pub bcrypt_cost : ℤ
  pub lockout_threshold : ℤ
  pub lockout_duration_seconds : ℤ
  pub min_password_length : ℤ

pub record Config : Type 0 where
  pub etcd : EtcdConfig
  pub server : ServerConfig
  pub collector_interval : ℤ
  pub storage : StorageConfig
  pub log : LogConfig
  pub kv_manager : KvConfig
  pub ops : OpsConfig
  pub run_user : String
  pub auth : AuthSettings

-- `if s == "" { s = d }`
unfoldable pub text_or : String → String → String
text_or d s = if s == "" then d else s

-- `if n <= 0 { n = d }`
unfoldable pub at_least_one : ℕ → ℤ → ℤ
at_least_one d n = pos (positive_or d n)

unfoldable pub session_timeout_of : Option ℤ → ℤ
session_timeout_of none = pos 3600
session_timeout_of (some (negsuc n)) = pos 3600
session_timeout_of (some (pos n)) = pos n

-- 0 becomes 30, and everything else below 10 becomes 10.
unfoldable pub ping_interval_of : ℤ → ℤ
ping_interval_of (negsuc n) = pos 10
ping_interval_of (pos n) = if n == 0 then pos 30 else if ltb n 10 then pos 10 else pos n

unfoldable pub cost_of : ℤ → ℤ
cost_of (negsuc n) = negsuc n
cost_of (pos n) = if n == 0 then pos 10 else pos n

unfoldable pub enable_of : Option Bool → Option Bool
enable_of none = some true
enable_of (some b) = some b

unfoldable pub etcd_defaults : EtcdConfig → EtcdConfig
unfolding text_or
etcd_defaults c = record c {
  endpoint = text_or "http://127.0.0.1:2379" c.endpoint;
  metrics_path = text_or "/metrics" c.metrics_path;
  tls_cert = if c.tls_enable then text_or "certs/client.crt" c.tls_cert else c.tls_cert;
  tls_key = if c.tls_enable then text_or "certs/client.key" c.tls_key else c.tls_key;
  tls_ca_cert = if c.tls_enable then text_or "certs/ca.crt" c.tls_ca_cert else c.tls_ca_cert;
}

unfoldable pub server_defaults : Option ℤ → ServerConfig → ServerConfig
unfolding text_or session_timeout_of
server_defaults probe c = record c {
  listen = text_or ":9090" c.listen;
  tls_cert = text_or "certs/server.crt" c.tls_cert;
  tls_key = text_or "certs/server.key" c.tls_key;
  session_timeout = session_timeout_of probe;
}

unfoldable pub log_defaults : LogConfig → LogConfig
unfolding text_or at_least_one
log_defaults c = record c {
  dir = text_or "logs" c.dir;
  filename = text_or "etcdmonitor.log" c.filename;
  level = text_or "info" c.level;
  max_size_mb = at_least_one 50 c.max_size_mb;
  max_files = at_least_one 5 c.max_files;
  max_age = at_least_one 30 c.max_age;
}

unfoldable pub kv_defaults : KvConfig → KvConfig
unfolding text_or at_least_one ping_interval_of
kv_defaults c = record {
  separator = text_or "/" c.separator;
  connect_timeout = at_least_one 5 c.connect_timeout;
  request_timeout = at_least_one 30 c.request_timeout;
  max_value_size = at_least_one (2 * 1024 * 1024) c.max_value_size;
  tab_ping_interval = ping_interval_of c.tab_ping_interval;
}

unfoldable pub auth_defaults : AuthSettings → AuthSettings
unfolding at_least_one cost_of
auth_defaults c = record {
  bcrypt_cost = cost_of c.bcrypt_cost;
  lockout_threshold = at_least_one 5 c.lockout_threshold;
  lockout_duration_seconds = at_least_one 900 c.lockout_duration_seconds;
  min_password_length = at_least_one 8 c.min_password_length;
}

unfoldable pub with_defaults : Option ℤ → Config → Config
unfolding etcd_defaults server_defaults log_defaults kv_defaults auth_defaults at_least_one text_or
    enable_of
with_defaults probe c = record {
  etcd = etcd_defaults c.etcd;
  server = server_defaults probe c.server;
  collector_interval = at_least_one 30 c.collector_interval;
  storage = record {
    db_path = text_or "data/etcdmonitor.db" c.storage.db_path;
    retention_days = at_least_one 7 c.storage.retention_days;
  };
  log = log_defaults c.log;
  kv_manager = kv_defaults c.kv_manager;
  ops = record {
    enable = enable_of c.ops.enable;
    audit_retention_days = at_least_one 7 c.ops.audit_retention_days;
  };
  run_user = c.run_user;
  auth = auth_defaults c.auth;
}

pub data LoadError : Type 0 where
  read_failed parse_failed : LoadError

-- `Load`, on what reading and decoding the file give.
unfoldable pub load : Result LoadError (Config × Option ℤ) → Result LoadError Config
unfolding with_defaults
load (err e) = err e
load (ok (c, probe)) = ok (with_defaults probe c)
