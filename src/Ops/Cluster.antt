-- ===== src/Ops/Cluster.antt =====
-- `handleMoveLeader`, `handleHashKV`, `handleCompact` and `handleCompactRevision`
-- (internal/ops/handler.go): the handlers that ask the cluster first.
pub mod Routes
pub mod Logged
pub mod Compaction
pub mod Verdict
use Prim.Native.String
use etcdmonitor.Prelude.{
  ℕ, zero, suc, ◌+◌, ◌-◌, String, Bool, true, false, List, [], ◌∷◌, Option, none, some, Result, ok,
  err, ltb, leb, length, ℤ, pos, negsuc, ◌==◌, nat_eq, string_eq, if◌then◌else◌, lookup, insert,
}
use etcdmonitor.Health.{status_from_healthy, HealthError, all_endpoints_down, status_error}
use etcdmonitor.Ops.{
  OpsEnv, OpsState, HashResult, OpsBody, failed, done, hashes, compacted, revision_is, OpsResponse,
  reply, OpsAnswer, client, client_for, get_username, log_ops, failure, ended, with_client,
}
use etcdmonitor.Ops.Members.{MemberInfo, endpoint_of, resolve_endpoint, name_or_id}
use etcdmonitor.Ops.Etcd.{OpsStatus, parse_uint}

-- The client URLs of the member with that ID
unfoldable pub urls_of : ℕ → List (ℕ × List String) → List String
urls_of id [] = []
urls_of id ((m, urls) ∷ ms) = let rest = urls_of id ms in if m == id then urls else rest

-- A check of consistency: every hash without an error is the first of them.
abbrev all_equal : ℕ → List HashResult → Bool
all_equal hash [] = true
all_equal hash (r ∷ rs) =
    let rest = all_equal hash rs in
    if r.error == "" then (if r.hash == hash then rest else false) else rest

unfoldable pub consistent : List HashResult → Bool
consistent [] = true
consistent (r ∷ rs) =
    let rest = consistent rs in if r.error == "" then all_equal r.hash rs else rest

-- The leader that the first endpoint with one tells of; 0 is no leader.
unfoldable pub find_leader : (String → Result String OpsStatus) → List String → ℕ
find_leader status [] = 0
find_leader status (ep ∷ eps) =
    let later = find_leader status eps in
    elim (status ep) [ err e ↦ later | ok r ↦ if r.leader == 0 then later else r.leader ]

-- The text of an error of the health manager
health_text : HealthError String → String
health_text (all_endpoints_down _) = "all etcd endpoints unreachable"
health_text (status_error e) = e

module _ {W : Type 0} (env : OpsEnv W) where
  unfoldable pub cluster_status : OpsState W → Result (HealthError String) OpsStatus
  cluster_status s = status_from_healthy (env.etcd.status (client env) s.world) env.health_mgr

  module _ (username id name : String) where
    abbrev no_move : String → OpsState W → OpsAnswer env
    no_move msg s = failure env 500 username "move_leader" name id msg 0 s

    -- A client connected only to the leader
    move_at : ℕ → List String → Option String → OpsState W → OpsAnswer env
    unfolding ended log_ops
    move_at target urls (some e) s = no_move (String.◌++◌ "connect to leader: " e) s
    move_at target urls none s =
        let r = env.etcd.move_leader (client_for env urls) target s.world in
        ended env username "move_leader" name id "move leader failed: " done r.0
          (record s { world = r.1 })

    move_by : ℕ → ℕ → List String → OpsState W → OpsAnswer env
    unfolding move_at log_ops
    move_by target leader [] s =
        no_move (String.◌++◌ "leader " (String.◌++◌ (env.show_nat leader) " has no client URLs")) s
    move_by target leader (url ∷ urls) s =
        move_at target (url ∷ urls) (env.etcd.new_client (client_for env (url ∷ urls))) s

    move_from : ℕ → ℕ → Result String (List (ℕ × List String)) → OpsState W → OpsAnswer env
    unfolding move_by urls_of log_ops
    move_from target leader (err e) s = no_move (String.◌++◌ "list members: " e) s
    move_from target leader (ok members) s = move_by target leader (urls_of leader members) s

    move_to : ℕ → OpsState W → OpsAnswer env
    unfolding move_from find_leader log_ops
    move_to target s =
        let leader = find_leader (env.etcd.status (client env) s.world) env.health_mgr.healthy in
        if leader == 0
        then no_move "cannot determine leader from cluster status" s
        else move_from target leader (env.etcd.member_list (client env) s.world) s

  -- The text of the error of strconv is left out.
  named_target : String → String → ℕ × Bool → OpsState W → OpsAnswer env
  unfolding move_to log_ops
  named_target username id (target, valid) s =
      let name = name_or_id (resolve_endpoint env.members id).1 id in
      if valid
      then with_client env username "move_leader" name id (move_to username id name target) s
      else failure env 400 username "move_leader" name id "invalid member_id: " 0 s

  -- `none` is a body that does not bind, or an empty ID.
  unfoldable pub handle_move_leader : Option String → OpsState W → OpsAnswer env
  unfolding get_username named_target parse_uint
  handle_move_leader none s = (reply 400 failed, s)
  handle_move_leader (some id) s =
      let who = get_username env s in named_target who.0 id (parse_uint id) who.1

  -- What the goroutine of one member sends
  unfoldable pub hash_of : OpsState W → ℕ → MemberInfo → HashResult
  hash_of s revision m =
      let base : HashResult = record {
        member_id = m.id;
        member_name = m.name;
        hash = 0;
        revision = revision;
        error = "";
      } in
      if endpoint_of m == ""
      then record base { error = "no endpoint" }
      else elim (env.etcd.hash_kv (client env) s.world (endpoint_of m) revision) [
        | err e ↦ record base { error = e }
        | ok r ↦ record base { hash = r.0; revision = r.1 }
      ]

  -- The results stand at the members' indices, in whatever order they arrive.
  unfoldable pub hash_results : OpsState W → ℕ → List MemberInfo → List HashResult
  unfolding hash_of
  hash_results s revision [] = []
  hash_results s revision (m ∷ ms) = hash_of s revision m ∷ hash_results s revision ms

  summary : Bool → String
  summary true = "consistent"
  summary false = "INCONSISTENT"

  hashed : String → Result (HealthError String) OpsStatus → OpsState W → OpsAnswer env
  unfolding hash_results consistent log_ops health_text summary
  hashed username (err e) s =
      failure env 500 username "hashkv" "cluster" ""
        (String.◌++◌ "get status failed: " (health_text e)) 0 s
  hashed username (ok r) s =
      let results = hash_results s r.revision env.members in
      let same = consistent results in
      (
        reply 200 (hashes same r.revision results),
        log_ops env username "hashkv" "cluster" (String.◌++◌ "revision=" (env.show_nat r.revision))
            (String.◌++◌ (summary same) (String.◌++◌ ", " (env.show_results results)))
            env.elapsed_ms same s,
      )

  hash_members : String → List MemberInfo → OpsState W → OpsAnswer env
  unfolding hashed cluster_status
  hash_members username [] s = (reply 500 failed, s)
  hash_members username (m ∷ ms) s = hashed username (cluster_status s) s

  unfoldable pub handle_hash_kv : OpsState W → OpsAnswer env
  unfolding get_username hash_members log_ops
  handle_hash_kv s =
      let who = get_username env s in
      with_client env who.0 "hashkv" "cluster" "" (hash_members who.0 env.members) who.1

  -- `{"retain_count":…,"physical":…}`, and with the target revision
  compact_params : ℕ → Bool → String
  compact_params retain physical = String.◌++◌ "{\"retain_count\":" (
      String.◌++◌ (env.show_nat retain)
        (String.◌++◌ ",\"physical\":" (if physical then "true" else "false")))

  compact_to : String → ℕ → Bool → ℕ → OpsState W → OpsAnswer env
  unfolding ended compact_params
  compact_to username retain physical current s =
      let target = current - retain in
      let r = env.etcd.compact (client env) target physical s.world in
      ended env username "compact" "cluster"
        (String.◌++◌ (compact_params retain physical)
          (String.◌++◌ ",\"target_revision\":" (String.◌++◌ (env.show_nat target) "}")))
        "compact failed: " (compacted current target) r.0 (record s { world = r.1 })

  -- A target revision that is not positive is refused.
  compact_from :
      String → ℕ → Bool → Result (HealthError String) OpsStatus → OpsState W → OpsAnswer env
  unfolding compact_to log_ops compact_params health_text
  compact_from username retain physical (err e) s =
      failure env 500 username "compact" "cluster"
        (String.◌++◌ (compact_params retain physical) "}")
        (String.◌++◌ "get cluster status: " (health_text e)) 0 s
  compact_from username retain physical (ok r) s =
      if leb r.revision retain
      then (reply 400 failed, s)
      else compact_to username retain physical r.revision s

  compact_on : String → ℕ → Bool → OpsState W → OpsAnswer env
  unfolding compact_from cluster_status
  compact_on username retain physical s = compact_from username retain physical (cluster_status s) s

  -- The number of revisions to retain, and whether the compaction is physical; `none` is a body
  -- that does not bind.
  unfoldable pub handle_compact : Option (ℤ × Bool) → OpsState W → OpsAnswer env
  unfolding get_username compact_on log_ops compact_params
  handle_compact none s = (reply 400 failed, s)
  handle_compact (some (negsuc n, physical)) s = (reply 400 failed, s)
  handle_compact (some (pos zero, physical)) s = (reply 400 failed, s)
  handle_compact (some (pos (suc n), physical)) s =
      let who = get_username env s in
      with_client env who.0 "compact" "cluster" (String.◌++◌ (compact_params (suc n) physical) "}")
        (compact_on who.0 (suc n) physical) who.1

  revision_reply : Option String → Result (HealthError String) OpsStatus → OpsResponse
  revision_reply (some e) r = reply 500 failed
  revision_reply none (err e) = reply 500 failed
  revision_reply none (ok r) = reply 200 (revision_is r.revision)

  unfoldable pub handle_compact_revision : OpsState W → OpsAnswer env
  unfolding cluster_status revision_reply
  handle_compact_revision s =
      (revision_reply (env.etcd.new_client (client env)) (cluster_status s), s)
