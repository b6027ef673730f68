-- ===== src/Config/Limits.antt =====
-- The limits that every loaded configuration is in.
use etcdmonitor.Prelude.{
  ℕ, zero, suc, ◌≤◌, ◌≡◌, ◌≢◌, refl, ap, ◌∙◌, String, if◌then◌else◌, Bool, true, false, Option,
  none, some, ok, ltb, ◌==◌, nat_eq, string_eq, ℤ, pos, negsuc, arith, eq_iff, Bool-cases, inl, inr,
  subst,
}
use etcdmonitor.Config.{
  Config, text_or, at_least_one, session_timeout_of, ping_interval_of, cost_of, etcd_defaults,
  log_defaults, server_defaults, kv_defaults, auth_defaults, with_defaults, load,
}
use etcdmonitor.Config.Defaults.{loaded}

unfoldable pub AtLeast : ℕ → ℤ → Type 0
AtLeast m (pos n) = m ≤ n
AtLeast m (negsuc n) = ⊥

-- Every number with a default is at least 1, the interval of the tab probes at least 10; the
-- session timeout is not negative, and the bcrypt cost not 0. No text with a default is empty. An
-- explicit session timeout is kept where it is not negative.
pub record IsUsable (explicit : Option ℤ) (c : Config) : Type 0 where
  pub endpoint : c.etcd.endpoint ≢ ""
  pub metrics_path : c.etcd.metrics_path ≢ ""
  pub client_cert : c.etcd.tls_enable ≡ true → c.etcd.tls_cert ≢ ""
  pub client_key : c.etcd.tls_enable ≡ true → c.etcd.tls_key ≢ ""
  pub client_ca : c.etcd.tls_enable ≡ true → c.etcd.tls_ca_cert ≢ ""
  pub listen : c.server.listen ≢ ""
  pub server_cert : c.server.tls_cert ≢ ""
  pub server_key : c.server.tls_key ≢ ""
  pub db_path : c.storage.db_path ≢ ""
  pub log_dir : c.log.dir ≢ ""
  pub log_filename : c.log.filename ≢ ""
  pub log_level : c.log.level ≢ ""
  pub separator : c.kv_manager.separator ≢ ""
  pub interval : AtLeast 1 c.collector_interval
  pub retention : AtLeast 1 c.storage.retention_days
  pub audit_retention : AtLeast 1 c.ops.audit_retention_days
  pub max_size_mb : AtLeast 1 c.log.max_size_mb
  pub max_files : AtLeast 1 c.log.max_files
  pub max_age : AtLeast 1 c.log.max_age
  pub connect_timeout : AtLeast 1 c.kv_manager.connect_timeout
  pub request_timeout : AtLeast 1 c.kv_manager.request_timeout
  pub max_value_size : AtLeast 1 c.kv_manager.max_value_size
  pub tab_ping_interval : AtLeast 10 c.kv_manager.tab_ping_interval
  pub session_timeout : AtLeast 0 c.server.session_timeout
  pub kept_timeout : (n : ℕ) → explicit ≡ some (pos n) → c.server.session_timeout ≡ pos n
  pub bcrypt_cost : c.auth.bcrypt_cost ≢ pos 0
  pub lockout_threshold : AtLeast 1 c.auth.lockout_threshold
  pub lockout_duration : AtLeast 1 c.auth.lockout_duration_seconds
  pub min_password_length : AtLeast 1 c.auth.min_password_length

true_not_false : {b : Bool} → b ≡ true → b ≢ false
true_not_false p q = cc

not_empty : (s : String) → (s == "") ≡ false → s ≢ ""
not_empty s differs e = true_not_false ((eq_iff s "").1 e) differs

not_below : (n m : ℕ) → ltb n m ≡ false → m ≤ n
not_below n m differs = ground (arith, differs)

not_pos_zero : (n : ℕ) → (n == 0) ≡ false → pos n ≢ pos 0
not_pos_zero zero differs = cc
not_pos_zero (suc n) differs = λ e. cc

text_or-full : (d s : String) → d ≢ "" → text_or d s ≢ ""
unfolding text_or
text_or-full d s full = elim (Bool-cases (s == "")) [
  | inl e ↦ rw e full
  | inr n ↦ rw n (not_empty s n)
]

file_or-full :
    (tls : Bool) (d s : String) → d ≢ "" → tls ≡ true → (if tls then text_or d s else s) ≢ ""
file_or-full true d s full e = text_or-full d s full
file_or-full false d s full e = absurd (true_not_false e refl)

at_least_one-AtLeast : (d : ℕ) (n : ℤ) → AtLeast 1 (at_least_one (suc d) n)
unfolding at_least_one AtLeast
at_least_one-AtLeast d (pos zero) = omega arith
at_least_one-AtLeast d (pos (suc n)) = omega arith
at_least_one-AtLeast d (negsuc n) = omega arith

ping_interval-AtLeast : (n : ℤ) → AtLeast 10 (ping_interval_of n)
unfolding ping_interval_of AtLeast
ping_interval-AtLeast (negsuc n) = omega arith
ping_interval-AtLeast (pos n) = elim (Bool-cases (n == 0)) [
  | inl e ↦ rw e (omega arith)
  | inr z ↦ elim (Bool-cases (ltb n 10)) [
    | inl p ↦ rw z (rw p (omega arith))
    | inr p ↦ rw z (rw p (not_below n 10 p))
  ]
]

session_timeout-AtLeast : (o : Option ℤ) → AtLeast 0 (session_timeout_of o)
unfolding session_timeout_of AtLeast
session_timeout-AtLeast none = omega arith
session_timeout-AtLeast (some (negsuc n)) = omega arith
session_timeout-AtLeast (some (pos n)) = omega arith

cost-positive : (n : ℤ) → cost_of n ≢ pos 0
unfolding cost_of
cost-positive (negsuc n) = λ e. cc
cost-positive (pos n) = elim (Bool-cases (n == 0)) [
  | inl e ↦ rw e (λ p. cc)
  | inr z ↦ rw z (not_pos_zero n z)
]

defaults-IsUsable : (o : Option ℤ) (c : Config) → IsUsable o (with_defaults o c)
unfolding with_defaults etcd_defaults server_defaults log_defaults kv_defaults auth_defaults
    session_timeout_of
defaults-IsUsable o c = record {
  endpoint = text_or-full "http://127.0.0.1:2379" c.etcd.endpoint (λ e. cc);
  metrics_path = text_or-full "/metrics" c.etcd.metrics_path (λ e. cc);
  client_cert = file_or-full c.etcd.tls_enable "certs/client.crt" c.etcd.tls_cert (λ e. cc);
  client_key = file_or-full c.etcd.tls_enable "certs/client.key" c.etcd.tls_key (λ e. cc);
  client_ca = file_or-full c.etcd.tls_enable "certs/ca.crt" c.etcd.tls_ca_cert (λ e. cc);
  listen = text_or-full ":9090" c.server.listen (λ e. cc);
  server_cert = text_or-full "certs/server.crt" c.server.tls_cert (λ e. cc);
  server_key = text_or-full "certs/server.key" c.server.tls_key (λ e. cc);
  db_path = text_or-full "data/etcdmonitor.db" c.storage.db_path (λ e. cc);
  log_dir = text_or-full "logs" c.log.dir (λ e. cc);
  log_filename = text_or-full "etcdmonitor.log" c.log.filename (λ e. cc);
  log_level = text_or-full "info" c.log.level (λ e. cc);
  separator = text_or-full "/" c.kv_manager.separator (λ e. cc);
  interval = at_least_one-AtLeast 29 c.collector_interval;
  retention = at_least_one-AtLeast 6 c.storage.retention_days;
  audit_retention = at_least_one-AtLeast 6 c.ops.audit_retention_days;
  max_size_mb = at_least_one-AtLeast 49 c.log.max_size_mb;
  max_files = at_least_one-AtLeast 4 c.log.max_files;
  max_age = at_least_one-AtLeast 29 c.log.max_age;
  connect_timeout = at_least_one-AtLeast 4 c.kv_manager.connect_timeout;
  request_timeout = at_least_one-AtLeast 29 c.kv_manager.request_timeout;
  max_value_size = at_least_one-AtLeast 2097151 c.kv_manager.max_value_size;
  tab_ping_interval = ping_interval-AtLeast c.kv_manager.tab_ping_interval;
  session_timeout = session_timeout-AtLeast o;
  kept_timeout = λ n e. ap session_timeout_of e ∙ kept n;
  bcrypt_cost = cost-positive c.auth.bcrypt_cost;
  lockout_threshold = at_least_one-AtLeast 4 c.auth.lockout_threshold;
  lockout_duration = at_least_one-AtLeast 899 c.auth.lockout_duration_seconds;
  min_password_length = at_least_one-AtLeast 7 c.auth.min_password_length;
}
  where
    kept : (n : ℕ) → session_timeout_of (some (pos n)) ≡ pos n
    kept n = refl

-- In a configuration that Load returns every number with a default is at least 1, the interval of
-- the tab probes at least 10, the session timeout not negative and the bcrypt cost not 0, and no
-- text with a default is empty, the client's certificate files included where TLS is enabled. A
-- session timeout that the file gives and that is not negative, 0 included, is kept.
pub load-IsUsable :
    (raw c : Config) (explicit : Option ℤ) → load (ok (raw, explicit)) ≡ ok c → IsUsable explicit c
unfolding load
load-IsUsable raw c explicit h =
    subst (IsUsable explicit) (loaded _ (with_defaults explicit raw) c refl h)
      (defaults-IsUsable explicit raw)
