-- ===== src/Ops.antt =====
-- The maintenance handlers of /api/ops (internal/ops/handler.go): what they share, and the ones that
-- run one call of etcd.
pub mod Cluster
pub mod Etcd
pub mod Members
pub mod Ends
use Prim.Native.Char.{code}
use Prim.Native.String
use etcdmonitor.Prelude.{
  ℕ, zero, suc, ◌+◌, ◌-◌, ◌*◌, ◌^◌, String, Bool, true, false, ◌&&◌, ◌||◌, List, [], ◌∷◌, Option,
  none, some, Result, ok, err, ltb, leb, ◌==◌, nat_eq, string_eq, if◌then◌else◌, ℤ,
}
use etcdmonitor.Config.{Config}
use etcdmonitor.Config.Endpoints.{ops_enabled}
use etcdmonitor.Storage.Users.{Storage, AuditEntry, DbError, text, store_audit_log}
use etcdmonitor.Storage.AuditLog.{query_audit_logs}
use etcdmonitor.Auth.Sessions.{MemorySessionStore, Request}
use etcdmonitor.Health.{Manager}
use etcdmonitor.Tabs.Manager.Conn.{Tls}
use etcdmonitor.Tabs.Handler.{current_username}
use etcdmonitor.Kv.Client.{ClientConfig, client_config}
use etcdmonitor.Ops.Members.{MemberInfo, first_url, endpoint_of, resolve_endpoint, name_or_id}
use etcdmonitor.Ops.Etcd.{
  AlarmType, Alarm, OpsStatus, Maintenance, digits, parse_uint, alarm_type_of,
}

pub record HashResult : Type 0 where
  pub member_id : String
  pub member_name : String
  pub hash : ℕ
  pub revision : ℕ
  pub error : String

-- What a request meets. `members` is what the collector knows; the last two fields are how numbers
-- and the results of a check are written in the audit log.
pub record OpsEnv (W : Type 0) : Type 0 where
  pub now : ℕ
  pub elapsed_ms : ℕ
  pub request : Request
  pub cfg : Config
  pub health_mgr : Manager
  pub cluster_tls : Option Tls
  pub members : List MemberInfo
  pub default_member : String
  pub etcd : Maintenance W
  pub show_nat : ℕ → String
  pub show_results : List HashResult → String

pub record OpsState (W : Type 0) : Type 0 where
  pub store : Storage
  pub sessions : MemorySessionStore
  pub world : W

-- Failures are their status alone.
pub data OpsBody : Type 0 where
  failed : OpsBody
  done : OpsBody
  alarms : List (ℕ × String × AlarmType) → OpsBody
  snapshot : ℕ → OpsBody
  hashes : Bool → ℕ → List HashResult → OpsBody
  compacted : ℕ → ℕ → OpsBody
  revision_is : ℕ → OpsBody
  logs : List AuditEntry → ℕ → ℤ → ℤ → OpsBody

pub record OpsResponse : Type 0 where
  pub status : ℕ
  pub body : OpsBody

abbrev pub reply : ℕ → OpsBody → OpsResponse
reply status body = record { status = status; body = body }

module _ {W : Type 0} (env : OpsEnv W) where
  abbrev pub OpsAnswer : Type 0
  OpsAnswer = OpsResponse × OpsState W

  -- `newEtcdClientWithEndpoints`
  abbrev pub client_for : List String → ClientConfig
  client_for endpoints =
      client_config endpoints env.cfg.etcd.username env.cfg.etcd.password env.cluster_tls

  abbrev pub client : ClientConfig
  client = client_for env.health_mgr.healthy

  unfoldable pub get_username : OpsState W → String × OpsState W
  get_username s =
      let r = current_username env.now env.request s.sessions in (r.0, record s { sessions = r.1 })

  unfoldable pub log_ops :
      String → String → String → String → String → ℕ → Bool → OpsState W → OpsState W
  log_ops username op target params result ms success s = record s {
    store =
        (store_audit_log
          (record {
            timestamp = env.now;
            username = username;
            operation = op;
            target = target;
            params = params;
            result = text result;
            duration_ms = ms;
            success = success;
          })
          s.store).1;
  }

  -- A failure that is written to the audit log
  abbrev pub failure : ℕ → String → String → String → String → String → ℕ → OpsState W → OpsAnswer
  failure status username op target params msg ms s =
      (reply status failed, log_ops username op target params msg ms false s)

  -- How a call that changes the cluster ends.
  unfoldable pub ended :
      String
      → String
      → String
      → String
      → String
      → OpsBody
      → Result String (Unit {0})
      → OpsState W
      → OpsAnswer
  unfolding log_ops
  ended username op target params what body (err e) s =
      failure 500 username op target params (String.◌++◌ what e) env.elapsed_ms s
  ended username op target params what body (ok _) s =
      (reply 200 body, log_ops username op target params "success" env.elapsed_ms true s)

  -- A client for a call, or the failure to make one
  abbrev pub with_client :
      String → String → String → String → (OpsState W → OpsAnswer) → OpsState W → OpsAnswer
  with_client username op target params k s = elim (env.etcd.new_client client) [
    | some e ↦ failure 500 username op target params (String.◌++◌ "create etcd client: " e) 0 s
    | none ↦ k s
  ]

  defragment_at : String → String → String → String → OpsState W → OpsAnswer
  unfolding ended
  defragment_at username id endpoint name s =
      let r = env.etcd.defragment client endpoint s.world in
      ended username "defragment" name id "defragment failed: " done r.0 (record s { world = r.1 })

  -- `none` is a body that does not bind, or an empty ID.
  unfoldable pub handle_defragment : Option String → OpsState W → OpsAnswer
  unfolding resolve_endpoint get_username defragment_at log_ops
  handle_defragment none s = (reply 400 failed, s)
  handle_defragment (some id) s =
      let who = get_username s in
      let member = resolve_endpoint env.members id in
      if member.0 == ""
      then (reply 400 failed, who.1)
      else with_client who.0 "defragment" member.1 id (defragment_at who.0 id member.0 member.1)
          who.1

  copied : String → String → String → ℕ × Option String → OpsState W → OpsAnswer
  unfolding log_ops
  copied username id name (written, some e) s = (
    reply 200 (snapshot written),
    log_ops username "snapshot" name id
        (String.◌++◌ "snapshot transfer failed after "
          (String.◌++◌ (env.show_nat written) (String.◌++◌ " bytes: " e)))
        env.elapsed_ms false s,
  )
  copied username id name (written, none) s = (
    reply 200 (snapshot written),
    log_ops username "snapshot" name id
        (String.◌++◌ "success, size=" (String.◌++◌ (env.show_nat written) " bytes")) env.elapsed_ms
        true s,
  )

  snapshot_reply :
      String → String → String → Result String (ℕ × Option String) → OpsState W → OpsAnswer
  unfolding copied log_ops
  snapshot_reply username id name (err e) s =
      failure 500 username "snapshot" name id (String.◌++◌ "snapshot failed: " e) env.elapsed_ms s
  snapshot_reply username id name (ok r) s = copied username id name r s

  snapshot_from : String → String → String → OpsState W → OpsAnswer
  unfolding snapshot_reply
  snapshot_from username id name s =
      snapshot_reply username id name (env.etcd.snapshot client s.world) s

  -- The query `member_id`, which may be empty
  unfoldable pub handle_snapshot : String → OpsState W → OpsAnswer
  unfolding resolve_endpoint get_username snapshot_from log_ops
  handle_snapshot query s =
      let id = if query == "" then env.default_member else query in
      let who = get_username s in
      let name = name_or_id (resolve_endpoint env.members id).1 id in
      with_client who.0 "snapshot" name id (snapshot_from who.0 id name) who.1

  disarm : String → String → String → String → OpsState W → OpsAnswer
  unfolding parse_uint alarm_type_of ended
  disarm username id alarm name s =
      let r = env.etcd.alarm_disarm client (parse_uint id).0 (alarm_type_of alarm) s.world in
      ended username "alarm_disarm" name
        (String.◌++◌ "member_id=" (String.◌++◌ id (String.◌++◌ ", alarm_type=" alarm)))
        "alarm disarm failed: " done r.0 (record s { world = r.1 })

  -- The ID and the type of the alarm; `none` is a body that does not bind.
  unfoldable pub handle_alarm_disarm : Option (String × String) → OpsState W → OpsAnswer
  unfolding resolve_endpoint get_username disarm log_ops
  handle_alarm_disarm none s = (reply 400 failed, s)
  handle_alarm_disarm (some (id, alarm)) s =
      let who = get_username s in
      let name = name_or_id (resolve_endpoint env.members id).1 id in
      with_client who.0 "alarm_disarm" name (String.◌++◌ "type=" alarm) (disarm who.0 id alarm name)
        who.1

  -- `memberMap`: the name of the last member with that number
  unfoldable pub name_of : List MemberInfo → ℕ → Option String
  unfolding parse_uint
  name_of [] n = none
  name_of (m ∷ ms) n =
      let rest = name_of ms n in
      let id = parse_uint m.id in
      elim rest [ some name ↦ some name | none ↦ if id.1 && (id.0 == n) then some m.name else none ]

  -- A missing entry reads as the empty text.
  abbrev shown_name : ℕ → Option String → String
  shown_name n none = env.show_nat n
  shown_name n (some name) = if name == "" then env.show_nat n else name

  named_alarms : List Alarm → List (ℕ × String × AlarmType)
  unfolding name_of
  named_alarms [] = []
  named_alarms (a ∷ rest) =
      (a.member_id, shown_name a.member_id (name_of env.members a.member_id), a.alarm)
      ∷ named_alarms rest

  alarm_reply : Option String → Result String (List Alarm) → OpsResponse
  unfolding named_alarms
  alarm_reply (some e) r = reply 500 failed
  alarm_reply none (err e) = reply 500 failed
  alarm_reply none (ok found) = reply 200 (alarms (named_alarms found))

  unfoldable pub handle_alarm_list : OpsState W → OpsAnswer
  unfolding alarm_reply
  handle_alarm_list s =
      (alarm_reply (env.etcd.new_client client) (env.etcd.alarm_list client s.world), s)

  logs_reply : ℤ → ℤ → Result DbError (List AuditEntry × ℕ) → OpsResponse
  logs_reply page page_size (err e) = reply 500 failed
  logs_reply page page_size (ok (entries, total)) = reply 200 (logs entries total page page_size)

  -- The queries `operation`, `page` and `page_size`, the last two as `strconv.Atoi` reads them. The
  -- answer repeats the numbers of the request.
  unfoldable pub handle_audit_logs : String → ℤ → ℤ → OpsState W → OpsAnswer
  unfolding logs_reply query_audit_logs
  handle_audit_logs operation page page_size s =
      let r =
        query_audit_logs (record { operation = operation; page = page; page_size = page_size })
          s.store in
      (logs_reply page page_size r.0, record s { store = r.1 })
