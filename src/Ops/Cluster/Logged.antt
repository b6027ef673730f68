-- ===== src/Ops/Cluster/Logged.antt =====
-- Every maintenance request that changes the clusters leaves an entry in the audit log.
use etcdmonitor.Prelude.{
  ℕ, zero, suc, ◌-◌, ◌≡◌, refl, String, Bool, true, false, List, [], ◌∷◌, Option, none, some,
  Result, ok, err, ◌==◌, nat_eq, string_eq, Bool-cases, inl, inr, ◌⊎◌, leb, ℤ, pos, negsuc,
}
use etcdmonitor.Config.Endpoints.{ops_enabled}
use etcdmonitor.Health.{HealthError}
use etcdmonitor.Ops.{
  OpsEnv, OpsState, OpsAnswer, client, client_for, get_username, done, compacted, log_ops,
  handle_alarm_list, handle_audit_logs,
}
use etcdmonitor.Ops.Members.{MemberInfo, name_or_id, resolve_endpoint}
use etcdmonitor.Ops.Etcd.{OpsStatus, parse_uint}
use etcdmonitor.Ops.Ends.{
  caller, Entered, Told, ended-Entered, moved_world, with_client-Told, from_start,
  handle_defragment-Told, handle_alarm_disarm-Told, handle_snapshot-Told,
}
use etcdmonitor.Ops.Cluster.{
  urls_of, find_leader, cluster_status, move_at, move_by, move_from, move_to, named_target,
  handle_move_leader, hashed, hash_members, handle_hash_kv, compact_to, compact_from, compact_on,
  handle_compact, handle_compact_revision,
}
use etcdmonitor.Ops.Cluster.Routes.{
  OpsRoute, defragment_route, snapshot_route, alarm_list_route, alarm_disarm_route,
  move_leader_route, hash_kv_route, compact_route, compact_revision_route, audit_logs_route,
  operation_of, serve, handle_ops,
}

module _ {W : Type 0} (env : OpsEnv W) where
  module _ (username id name : String) (target : ℕ) where
    abbrev Moved : OpsState W → OpsAnswer env → Type 0
    Moved s r = Told env username "move_leader" s r

    move_at-Moved :
        (urls : List String) (o : Option String) (s : OpsState W)
        → s.store.fails s.store.statements ≡ false
        → Moved s (move_at env username id name target urls o s)
    unfolding move_at log_ops
    move_at-Moved urls (some e) s works = inl refl
    move_at-Moved urls none s works =
        let r = env.etcd.move_leader (client_for env urls) target s.world in
        inr (
          moved_world env username "move_leader" s r.1 _ (
            ended-Entered env username "move_leader" name id "move leader failed: " done r.0
              (record s { world = r.1 }) works))

    move_by-Moved :
        (leader : ℕ) (urls : List String) (s : OpsState W)
        → s.store.fails s.store.statements ≡ false
        → Moved s (move_by env username id name target leader urls s)
    unfolding move_by log_ops
    move_by-Moved leader [] s works = inl refl
    move_by-Moved leader (url ∷ urls) s works =
        move_at-Moved (url ∷ urls) (env.etcd.new_client (client_for env (url ∷ urls))) s works

    move_from-Moved :
        (leader : ℕ) (r : Result String (List (ℕ × List String))) (s : OpsState W)
        → s.store.fails s.store.statements ≡ false
        → Moved s (move_from env username id name target leader r s)
    unfolding move_from log_ops
    move_from-Moved leader (err e) s works = inl refl
    move_from-Moved leader (ok members) s works =
        move_by-Moved leader (urls_of leader members) s works

    move_to-Moved :
        (s : OpsState W)
        → s.store.fails s.store.statements ≡ false
        → Moved s (move_to env username id name target s)
    unfolding move_to log_ops
    move_to-Moved s works =
        let leader = find_leader (env.etcd.status (client env) s.world) env.health_mgr.healthy in
        elim (Bool-cases (leader == 0)) [
          | inl b ↦ rw b (inl refl)
          | inr b ↦
              rw b (move_from-Moved leader (env.etcd.member_list (client env) s.world) s works)
        ]

  named_target-Told :
      (username id : String) (r : ℕ × Bool) (s : OpsState W)
      → s.store.fails s.store.statements ≡ false
      → Told env username "move_leader" s (named_target env username id r s)
  unfolding named_target log_ops
  named_target-Told username id (target, true) s works =
      let name = name_or_id (resolve_endpoint env.members id).1 id in
      with_client-Told env username "move_leader" name id (move_to env username id name target) s
        (move_to-Moved username id name target s works)
  named_target-Told username id (target, false) s works = inl refl

  handle_move_leader-Told :
      (body : Option String) (s : OpsState W)
      → s.store.fails s.store.statements ≡ false
      → Told env (caller env s) "move_leader" s (handle_move_leader env body s)
  unfolding handle_move_leader get_username
  handle_move_leader-Told none s works = inl refl
  handle_move_leader-Told (some id) s works =
      from_start env "move_leader" s _
        (named_target-Told (caller env s) id (parse_uint id) (get_username env s).1 works)

  hashed-world :
      (username : String) (r : Result (HealthError String) OpsStatus) (s : OpsState W)
      → (hashed env username r s).1.world ≡ s.world
  unfolding hashed log_ops
  hashed-world username (err e) s = refl
  hashed-world username (ok r) s = refl

  hash_members-world :
      (username : String) (ms : List MemberInfo) (s : OpsState W)
      → (hash_members env username ms s).1.world ≡ s.world
  unfolding hash_members
  hash_members-world username [] s = refl
  hash_members-world username (m ∷ ms) s = hashed-world username (cluster_status env s) s

  handle_hash_kv-Told : (s : OpsState W) → Told env (caller env s) "hashkv" s (handle_hash_kv env s)
  unfolding handle_hash_kv get_username
  handle_hash_kv-Told s = from_start env "hashkv" s _ (
      with_client-Told env (caller env s) "hashkv" "cluster" ""
        (hash_members env (caller env s) env.members) (get_username env s).1
        (inl (hash_members-world (caller env s) env.members (get_username env s).1)))

  compact_from-Told :
      (username : String) (retain : ℕ) (physical : Bool) (r : Result (HealthError String) OpsStatus)
      (s : OpsState W)
      → s.store.fails s.store.statements ≡ false
      → Told env username "compact" s (compact_from env username retain physical r s)
  unfolding compact_from compact_to log_ops
  compact_from-Told username retain physical (err e) s works = inl refl
  compact_from-Told username retain physical (ok r) s works =
      let t = r.revision - retain in
      let c = env.etcd.compact (client env) t physical s.world in
      elim (Bool-cases (leb r.revision retain)) [
        | inl b ↦ rw b (inl refl)
        | inr b ↦ rw b (
            inr (
              moved_world env username "compact" s c.1 _ (
                ended-Entered env username "compact" "cluster" _ "compact failed: "
                  (compacted r.revision t) c.0 (record s { world = c.1 }) works)))
      ]

  handle_compact-Told :
      (body : Option (ℤ × Bool)) (s : OpsState W)
      → s.store.fails s.store.statements ≡ false
      → Told env (caller env s) "compact" s (handle_compact env body s)
  unfolding handle_compact compact_on get_username
  handle_compact-Told none s works = inl refl
  handle_compact-Told (some (negsuc n, physical)) s works = inl refl
  handle_compact-Told (some (pos zero, physical)) s works = inl refl
  handle_compact-Told (some (pos (suc n), physical)) s works = from_start env "compact" s _ (
      with_client-Told env (caller env s) "compact" "cluster" _
        (compact_on env (caller env s) (suc n) physical) (get_username env s).1
        (compact_from-Told (caller env s) (suc n) physical
          (cluster_status env (get_username env s).1) (get_username env s).1 works))

  serve-Told :
      (route : OpsRoute) (s : OpsState W)
      → s.store.fails s.store.statements ≡ false
      → Told env (caller env s) (operation_of route) s (serve env route s)
  unfolding serve handle_alarm_list handle_compact_revision handle_audit_logs
  serve-Told (defragment_route body) s works = handle_defragment-Told env body s works
  serve-Told (snapshot_route query) s works = handle_snapshot-Told env query s
  serve-Told alarm_list_route s works = inl refl
  serve-Told (alarm_disarm_route body) s works = handle_alarm_disarm-Told env body s works
  serve-Told (move_leader_route body) s works = handle_move_leader-Told body s works
  serve-Told hash_kv_route s works = handle_hash_kv-Told s
  serve-Told (compact_route body) s works = handle_compact-Told body s works
  serve-Told compact_revision_route s works = inl refl
  serve-Told (audit_logs_route op page size) s works = inl refl

  -- While the statement of the audit log is executed, a maintenance request that changes the
  -- clusters leaves one entry more, at the end of the log: it names the caller and the operation and
  -- counts as a success where the answer is 200 and only there. Where the panel is disabled no
  -- request changes them.
  pub operations_logged :
      (route : OpsRoute) (s : OpsState W)
      → s.store.fails s.store.statements ≡ false
      → ((handle_ops env route s).1.world ≡ s.world)
        ⊎ (ops_enabled env.cfg ≡ true)
          × Entered env (caller env s) (operation_of route) s (handle_ops env route s)
  unfolding handle_ops
  operations_logged route s works = elim (Bool-cases (ops_enabled env.cfg)) [
    | inl b ↦ rw b (elim (serve-Told route s works) [ inl w ↦ inl w | inr e ↦ inr (refl, e) ])
    | inr b ↦ rw b (inl refl)
  ]
