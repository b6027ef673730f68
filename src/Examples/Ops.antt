-- ===== src/Examples/Ops.antt =====
-- Maintenance of a cluster of two members at revision 9, and pages of the audit log.
use etcdmonitor.Health.{status_from_healthy}
use etcdmonitor.Prelude.{
  ℕ, suc, ◌≡◌, refl, String, Bool, true, false, List, [], ◌∷◌, Option, none, some, ok, err,
  string_eq, nat_eq, pos, ℤ, ◌⊎◌, ◌↔◌, arith,
}
use etcdmonitor.Config.Endpoints.{ops_enabled}
use etcdmonitor.Storage.Table.{select, count}
use etcdmonitor.Storage.Users.{Storage, AuditEntry, text}
use etcdmonitor.Storage.AuditLog.{newest_first, insert_older, matches}
use etcdmonitor.Storage.AuditLog.Pages.{first_pages, wanted, NewestFirst, pages_complete}
use etcdmonitor.Ops.{reply, hashes, OpsEnv, OpsState, HashResult}
use etcdmonitor.Ops.Etcd.{Maintenance}
use etcdmonitor.Ops.Ends.{Entered, caller}
use etcdmonitor.Ops.Cluster.{handle_compact, consistent, handle_hash_kv}
use etcdmonitor.Ops.Cluster.Routes.{compact_route, handle_ops}
use etcdmonitor.Ops.Cluster.Logged.{operations_logged}
use etcdmonitor.Ops.Cluster.Compaction.{Compacted, handle_compact-Compacted}
use etcdmonitor.Ops.Cluster.Verdict.{Agree, consistent-Agree}
use etcdmonitor.Examples.Settings.{sparse}
use etcdmonitor.Examples.Fixtures.{storage}
use etcdmonitor.Examples.Requests.{one_tab}

-- The state of the cluster is the revision that it was compacted at.
abbrev etcd : Maintenance ℕ
etcd = record {
  new_client = λ _. none;
  defragment = λ c ep w. (ok tt, w);
  snapshot = λ c w. ok (3, none);
  alarm_list = λ c w. ok [];
  alarm_disarm = λ c id a w. (ok tt, w);
  move_leader = λ c id w. (ok tt, w);
  status = λ c w ep. ok (record { revision = 9; leader = 1 });
  member_list = λ c w. ok [];
  hash_kv = λ c w ep r. err "context deadline exceeded";
  compact = λ c r physical w. (ok tt, r);
}

abbrev ops_env : OpsEnv ℕ
ops_env = record {
  now = 50;
  elapsed_ms = 1;
  request = record { authorization = "Bearer s1"; cookie = none };
  cfg = sparse;
  health_mgr = record { all_endpoints = "e1" ∷ []; healthy = "e1" ∷ []; stopped = false };
  cluster_tls = none;
  members = record { id = "1"; name = "m1"; endpoint = "e1"; client_urls = [] } ∷ [];
  default_member = "1";
  etcd = etcd;
  show_nat = λ _. "0";
  show_results = λ _. "[]";
}

abbrev start : OpsState ℕ
start = record { store = storage []; sessions = one_tab.sessions; world = 0 }

operations_logged_example :
    ((handle_ops ops_env (compact_route (some (pos 4, true))) start).1.world ≡ start.world)
    ⊎ (ops_enabled sparse ≡ true)
      × Entered ops_env
          (caller ops_env start)
          "compact"
          start
          (handle_ops ops_env (compact_route (some (pos 4, true))) start)
operations_logged_example =
    operations_logged ops_env (compact_route (some (pos 4, true))) start refl

handle_compact-Compacted_example :
    (n : ℕ) × (physical : Bool) × (◌≡◌ {A = Option (ℤ × Bool)}
      (some (pos 4, true))
      (some (pos (suc n), physical)))
    × Compacted ops_env (suc n) physical start (handle_compact ops_env (some (pos 4, true)) start)
unfolding handle_compact status_from_healthy
handle_compact-Compacted_example = handle_compact-Compacted ops_env (some (pos 4, true)) start refl

-- A compaction that keeps 4 of 9 revisions is done at revision 5.
compacted_at : (handle_compact ops_env (some (pos 4, true)) start).1.world ≡ 5
unfolding handle_compact status_from_healthy
compacted_at = refl

abbrev answered : String → ℕ → HashResult
answered name hash = record {
  member_id = name;
  member_name = name;
  hash = hash;
  revision = 9;
  error = "";
}

abbrev results : List HashResult
results =
    answered "m1" 7 ∷ record (answered "m2" 0) { error = "no endpoint" } ∷ answered "m3" 7 ∷ []

consistent-Agree_example : (consistent results ≡ true) ↔ Agree results
consistent-Agree_example = consistent-Agree results

-- A check to which no member answers is told as consistent.
silent_consistent :
    (handle_hash_kv ops_env start).0
    ≡ reply 200 (
        hashes true 9 (
          record {
            member_id = "1";
            member_name = "m1";
            hash = 0;
            revision = 9;
            error = "context deadline exceeded";
          }
          ∷ []))
unfolding handle_hash_kv status_from_healthy
silent_consistent = refl

abbrev logged : ℕ → String → AuditEntry
logged at op = record {
  timestamp = at;
  username = "alice";
  operation = op;
  target = "";
  params = "";
  result = text "ok";
  duration_ms = 1;
  success = true;
}

abbrev with_log : Storage
with_log = record (storage []) {
  audit_log = logged 1 "put" ∷ logged 3 "delete" ∷ logged 2 "put" ∷ [];
}

pages_complete_example :
    (first_pages "" 2 2 with_log ≡ logged 3 "delete" ∷ logged 2 "put" ∷ logged 1 "put" ∷ [])
    × NewestFirst (wanted "" with_log)
    × ((p : AuditEntry → Bool)
        → count p (wanted "" with_log) ≡ count p (select (matches "") with_log.audit_log))
unfolding newest_first insert_older select
pages_complete_example = pages_complete "" 1 2 with_log (λ i. refl) (omega arith)
