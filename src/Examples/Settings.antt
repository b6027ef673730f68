-- ===== src/Examples/Settings.antt =====
-- A configuration file that gives only a session timeout of 0 and short intervals.
use etcdmonitor.Prelude.{◌≡◌, refl, true, false, none, some, pos, negsuc}
use etcdmonitor.Config.{
  Config, load, with_defaults, kv_defaults, server_defaults, ping_interval_of, session_timeout_of,
}
use etcdmonitor.Config.Limits.{IsUsable, load-IsUsable}

abbrev pub sparse : Config
sparse = record {
  etcd = record {
    endpoint = "https://10.0.0.1:2379";
    username = "";
    password = "";
    metrics_path = "";
    tls_enable = true;
    tls_cert = "";
    tls_key = "my.key";
    tls_ca_cert = "";
    tls_insecure_skip_verify = false;
    tls_server_name = "";
  };
  server = record {
    listen = "";
    tls_enable = false;
    tls_cert = "";
    tls_key = "";
    session_timeout = pos 0;
  };
  collector_interval = negsuc 4;
  storage = record { db_path = ""; retention_days = pos 0 };
  log = record {
    dir = "";
    filename = "";
    level = "debug";
    max_size_mb = pos 0;
    max_files = pos 0;
    max_age = pos 0;
    compress = false;
    console = true;
  };
  kv_manager = record {
    separator = "";
    connect_timeout = pos 0;
    request_timeout = pos 0;
    max_value_size = pos 0;
    tab_ping_interval = pos 3;
  };
  ops = record { enable = none; audit_retention_days = pos 0 };
  run_user = "";
  auth = record {
    bcrypt_cost = pos 0;
    lockout_threshold = pos 0;
    lockout_duration_seconds = pos 0;
    min_password_length = pos 12;
  };
}

abbrev full : Config
full = with_defaults (some (pos 0)) sparse

load-IsUsable_example : IsUsable (some (pos 0)) full
unfolding load
load-IsUsable_example = load-IsUsable sparse full (some (pos 0)) refl

-- The tabs are probed every 10 seconds, and a session timeout of 0 stays 0.
settled : (full.kv_manager.tab_ping_interval ≡ pos 10) × (full.server.session_timeout ≡ pos 0)
unfolding with_defaults kv_defaults server_defaults ping_interval_of session_timeout_of
settled = (refl, refl)

abbrev pair : Config
pair = record sparse { etcd = record sparse.etcd { endpoint = "a:1,b:2" } }
