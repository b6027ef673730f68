-- ===== src/Ops/Cluster/Routes.antt =====
-- The routes of the operations panel (internal/ops/handler.go).
use etcdmonitor.Prelude.{String, Bool, Option, if◌then◌else◌, ℤ}
use etcdmonitor.Config.Endpoints.{ops_enabled}
use etcdmonitor.Ops.{
  OpsEnv, OpsState, OpsAnswer, reply, failed, handle_defragment, handle_snapshot, handle_alarm_list,
  handle_alarm_disarm, handle_audit_logs,
}
use etcdmonitor.Ops.Cluster.{
  handle_move_leader, handle_hash_kv, handle_compact, handle_compact_revision,
}

pub data OpsRoute : Type 0 where
  defragment_route : Option String → OpsRoute
  snapshot_route : String → OpsRoute
  alarm_list_route : OpsRoute
  alarm_disarm_route : Option (String × String) → OpsRoute
  move_leader_route : Option String → OpsRoute
  hash_kv_route : OpsRoute
  compact_route : Option (ℤ × Bool) → OpsRoute
  compact_revision_route : OpsRoute
  audit_logs_route : String → ℤ → ℤ → OpsRoute

-- The operation's name in the audit log; reads have none.
abbrev pub operation_of : OpsRoute → String
operation_of (defragment_route body) = "defragment"
operation_of (snapshot_route query) = "snapshot"
operation_of (alarm_disarm_route body) = "alarm_disarm"
operation_of (move_leader_route body) = "move_leader"
operation_of hash_kv_route = "hashkv"
operation_of (compact_route body) = "compact"
operation_of _ = ""

module _ {W : Type 0} (env : OpsEnv W) where
  unfoldable pub serve : OpsRoute → OpsState W → OpsAnswer env
  serve (defragment_route body) = handle_defragment env body
  serve (snapshot_route query) = handle_snapshot env query
  serve alarm_list_route = handle_alarm_list env
  serve (alarm_disarm_route body) = handle_alarm_disarm env body
  serve (move_leader_route body) = handle_move_leader env body
  serve hash_kv_route = handle_hash_kv env
  serve (compact_route body) = handle_compact env body
  serve compact_revision_route = handle_compact_revision env
  serve (audit_logs_route op page size) = handle_audit_logs env op page size

  -- `opsEnableMiddleware` before the handler
  unfoldable pub handle_ops : OpsRoute → OpsState W → OpsAnswer env
  unfolding serve
  handle_ops route s = if ops_enabled env.cfg then serve route s else (reply 403 failed, s)
