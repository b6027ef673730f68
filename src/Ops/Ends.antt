-- ===== src/Ops/Ends.antt =====
-- A maintenance call that changes the clusters leaves an entry in the audit log.
use Prim.Native.String
use etcdmonitor.Prelude.{
  ℕ, ◌≡◌, refl, String, Bool, true, false, [], ◌∷◌, ◌++◌, Option, none, some, Result, ok, err, ◌==◌,
  nat_eq, string_eq, if◌then◌else◌, Bool-cases, inl, inr, ◌⊎◌,
}
use etcdmonitor.Storage.Users.{AuditEntry, text, store_audit_log, exec}
use etcdmonitor.Tabs.Handler.{current_username}
use etcdmonitor.Ops.{
  OpsEnv, OpsState, OpsBody, OpsAnswer, client, get_username, log_ops, failure, ended, with_client,
  defragment_at, handle_defragment, snapshot_from, snapshot_reply, copied, handle_snapshot, disarm,
  handle_alarm_disarm, done,
}
use etcdmonitor.Ops.Members.{resolve_endpoint, name_or_id}
use etcdmonitor.Ops.Etcd.{parse_uint, alarm_type_of}

module _ {W : Type 0} (env : OpsEnv W) where
  -- The name of the session of the request
  abbrev pub caller : OpsState W → String
  caller s = (current_username env.now env.request s.sessions).0

  -- One entry more at the end of the log: the caller, the operation, and success where the answer is
  -- 200 and only there
  pub record Entered (username op : String) (s : OpsState W) (r : OpsAnswer env) : Type 0 where
    pub entry : AuditEntry
    pub at_end : r.1.store.audit_log ≡ s.store.audit_log ++ entry ∷ []
    pub by_user : entry.username ≡ username
    pub operation : entry.operation ≡ op
    pub outcome : entry.success ≡ (r.0.status == 200)

  abbrev pub Told : String → String → OpsState W → OpsAnswer env → Type 0
  Told username op s r = (r.1.world ≡ s.world) ⊎ Entered username op s r

  pub log_ops-log :
      (username op target params result : String) (ms : ℕ) (success : Bool) (s : OpsState W)
      → s.store.fails s.store.statements ≡ false
      → (log_ops env username op target params result ms success s).store.audit_log
        ≡ s.store.audit_log
          ++ record {
            timestamp = env.now;
            username = username;
            operation = op;
            target = target;
            params = params;
            result = text result;
            duration_ms = ms;
            success = success;
          }
            ∷ []
  unfolding log_ops store_audit_log exec
  log_ops-log username op target params result ms success s works = rw works refl

  pub ended-Entered :
      (username op target params what : String) (body : OpsBody) (r : Result String (Unit {0}))
      (s : OpsState W)
      → s.store.fails s.store.statements ≡ false
      → Entered username op s (ended env username op target params what body r s)
  unfolding ended
  ended-Entered username op target params what body (err e) s works = record {
    entry = _;
    at_end =
        log_ops-log username op target params (String.◌++◌ what e) env.elapsed_ms false s works;
    by_user = refl;
    operation = refl;
    outcome = refl;
  }
  ended-Entered username op target params what body (ok u) s works = record {
    entry = _;
    at_end = log_ops-log username op target params "success" env.elapsed_ms true s works;
    by_user = refl;
    operation = refl;
    outcome = refl;
  }

  -- The same, seen from a state with the same log
  pub moved_world :
      (username op : String) (s : OpsState W) (w : W) (r : OpsAnswer env)
      → Entered username op (record s { world = w }) r
      → Entered username op s r
  moved_world username op s w r e = record {
    entry = e.entry;
    at_end = e.at_end;
    by_user = e.by_user;
    operation = e.operation;
    outcome = e.outcome;
  }

  pub with_client-Told :
      (username op target params : String) (k : OpsState W → OpsAnswer env) (s : OpsState W)
      → Told username op s (k s)
      → Told username op s (with_client env username op target params k s)
  unfolding log_ops
  with_client-Told username op target params k s h = by_client (env.etcd.new_client (client env))
    where
      by_client :
          (o : Option String)
          → Told username op s (elim o [
            | some e ↦
                failure env 500 username op target params (String.◌++◌ "create etcd client: " e) 0 s
            | none ↦ k s
          ])
      by_client (some e) = inl refl
      by_client none = h

  -- From the state after the name was asked for
  pub from_start :
      (op : String) (s : OpsState W) (r : OpsAnswer env)
      → Told (caller s) op (get_username env s).1 r
      → Told (caller s) op s r
  unfolding get_username
  from_start op s r (inl same) = inl same
  from_start op s r (inr e) = inr (record {
    entry = e.entry;
    at_end = e.at_end;
    by_user = e.by_user;
    operation = e.operation;
    outcome = e.outcome;
  })

  pub handle_defragment-Told :
      (body : Option String) (s : OpsState W)
      → s.store.fails s.store.statements ≡ false
      → Told (caller s) "defragment" s (handle_defragment env body s)
  unfolding handle_defragment defragment_at get_username
  handle_defragment-Told none s works = inl refl
  handle_defragment-Told (some id) s works =
      let member = resolve_endpoint env.members id in
      let s1 = (get_username env s).1 in
      let r = env.etcd.defragment (client env) member.0 s.world in
      elim (Bool-cases (member.0 == "")) [
        | inl b ↦ rw b (inl refl)
        | inr b ↦ rw b (
            from_start "defragment" s _ (
              with_client-Told (caller s) "defragment" member.1 id
                (defragment_at env (caller s) id member.0 member.1) s1
                (inr (
                  moved_world (caller s) "defragment" s1 r.1 _ (
                    ended-Entered (caller s) "defragment" member.1 id "defragment failed: " done r.0
                      (record s1 { world = r.1 }) works)))))
      ]

  pub handle_alarm_disarm-Told :
      (body : Option (String × String)) (s : OpsState W)
      → s.store.fails s.store.statements ≡ false
      → Told (caller s) "alarm_disarm" s (handle_alarm_disarm env body s)
  unfolding handle_alarm_disarm disarm get_username
  handle_alarm_disarm-Told none s works = inl refl
  handle_alarm_disarm-Told (some (id, alarm)) s works =
      let name = name_or_id (resolve_endpoint env.members id).1 id in
      let s1 = (get_username env s).1 in
      let r = env.etcd.alarm_disarm (client env) (parse_uint id).0 (alarm_type_of alarm) s.world in
      from_start "alarm_disarm" s _ (
        with_client-Told (caller s) "alarm_disarm" name _ (disarm env (caller s) id alarm name) s1 (
          inr (
            moved_world (caller s) "alarm_disarm" s1 r.1 _ (
              ended-Entered (caller s) "alarm_disarm" name _ "alarm disarm failed: " done r.0
                (record s1 { world = r.1 }) works))))

  copied-world :
      (username id name : String) (r : ℕ × Option String) (s : OpsState W)
      → (copied env username id name r s).1.world ≡ s.world
  unfolding copied log_ops
  copied-world username id name (written, some e) s = refl
  copied-world username id name (written, none) s = refl

  snapshot_reply-world :
      (username id name : String) (r : Result String (ℕ × Option String)) (s : OpsState W)
      → (snapshot_reply env username id name r s).1.world ≡ s.world
  unfolding snapshot_reply log_ops
  snapshot_reply-world username id name (err e) s = refl
  snapshot_reply-world username id name (ok c) s = copied-world username id name c s

  pub handle_snapshot-Told :
      (query : String) (s : OpsState W) → Told (caller s) "snapshot" s (handle_snapshot env query s)
  unfolding handle_snapshot get_username snapshot_from
  handle_snapshot-Told query s =
      let id = if query == "" then env.default_member else query in
      let name = name_or_id (resolve_endpoint env.members id).1 id in
      from_start "snapshot" s _ (
        with_client-Told (caller s) "snapshot" name id (snapshot_from env (caller s) id name)
          (get_username env s).1
          (inl (
            snapshot_reply-world (caller s) id name (env.etcd.snapshot (client env) s.world)
              (get_username env s).1)))
