-- ===== src/Kv/Handler/Head/Kept.antt =====
-- What the ends of a handler leave alone, and the entry of a write in the audit log.
use etcdmonitor.Prelude.{
  ◌≡◌, ◌≢◌, refl, sym, ap, ◌∙◌, subst, String, Bool, true, false, ◌||◌, not, [], ◌∷◌, ◌++◌, Result,
  ok, err, Bool-cases, inl, inr, string_eq, nat_eq, arith,
}
use etcdmonitor.Storage.Users.{AuditEntry, store_audit_log, exec, text}
use etcdmonitor.Tabs.Handler.{Env, log_audit}
use etcdmonitor.Kv.Handler.{
  Body, KvState, KvSetup, Answer, is_default_tab, mark_tab, mark_tab_error, mark_tab_ok,
  read_failed, write_ended, log_kv, error_from_etcd,
}
use etcdmonitor.Kv.Handler.Head.{store}

module _ {W : Type 0} (setup : KvSetup W) (env : Env) where
  -- The status of a tab, and the ends of a handler, do not reach the clusters or the v2 client.
  pub record Kept (s s' : KvState W) : Type 0 where
    pub same_world : s'.world ≡ s.world
    pub same_v2 : s'.v2 ≡ s.v2
    pub same_store : store s' ≡ store s

  pub mark_tab-Kept :
      (tab_id status msg : String) (s : KvState W) → Kept s (mark_tab setup env tab_id status msg s)
  unfolding mark_tab
  mark_tab-Kept tab_id status msg s =
      elim (Bool-cases (is_default_tab tab_id || not setup.tabs_enabled)) [
        | inl b ↦ rw b (record { same_world = refl; same_v2 = refl; same_store = refl })
        | inr b ↦ rw b (record { same_world = refl; same_v2 = refl; same_store = refl })
      ]

  pub mark_tab_ok-Kept : (tab_id : String) (s : KvState W) → Kept s (mark_tab_ok setup env tab_id s)
  unfolding mark_tab_ok
  mark_tab_ok-Kept tab_id s = mark_tab-Kept tab_id "ok" "" s

  pub mark_tab_error-Kept :
      (tab_id msg : String) (s : KvState W) → Kept s (mark_tab_error setup env tab_id msg s)
  unfolding mark_tab_error
  mark_tab_error-Kept tab_id msg s = mark_tab-Kept tab_id "error" msg s

  pub read_failed-Kept :
      (tab_id msg : String) (s : KvState W) → Kept s (read_failed setup env tab_id msg s).1
  unfolding read_failed
  read_failed-Kept tab_id msg s = mark_tab_error-Kept tab_id msg s

  pub write_ended-same :
      (username op target params tab_id : String) (res : Result String Body) (s : KvState W)
      → ((write_ended setup env username op target params tab_id res s).1.world ≡ s.world)
        × ((write_ended setup env username op target params tab_id res s).1.v2 ≡ s.v2)
  unfolding write_ended log_kv log_audit
  write_ended-same username op target params tab_id (err msg) s =
      let m = mark_tab_error-Kept tab_id msg s in (m.same_world, m.same_v2)
  write_ended-same username op target params tab_id (ok body) s = (refl, refl)

  -- The entry of a write in the audit log: who, what, on which key of which tab, and that it went
  -- well, if the answer says so.
  pub record Logged (username op target : String) (s : KvState W) (r : Answer setup env)
      : Type 0 where
    pub entry : AuditEntry
    pub at_end : (store r.1).audit_log ≡ (store s).audit_log ++ entry ∷ []
    pub by_user : entry.username ≡ username
    pub operation : entry.operation ≡ op
    pub on_target : entry.target ≡ target
    pub outcome : r.0.status ≡ 200 → entry.success ≡ true

  error_not_200 : (msg : String) → (error_from_etcd msg).status ≢ 200
  unfolding error_from_etcd
  error_not_200 msg h = ground (arith, h)

  abbrev entry_of : String → String → String → String → String → Bool → AuditEntry
  entry_of username op target params result success = record {
    timestamp = env.now;
    username = username;
    operation = op;
    target = target;
    params = params;
    result = text result;
    duration_ms = env.elapsed_ms;
    success = success;
  }

  log_kv-log :
      (username op target params result : String) (success : Bool) (s : KvState W)
      → (store s).fails (store s).statements ≡ false
      → (store (log_kv setup env username op target params result success s)).audit_log
        ≡ (store s).audit_log ++ entry_of username op target params result success ∷ []
  unfolding log_kv log_audit store_audit_log exec
  log_kv-log username op target params result success s works = rw works refl

  pub write_ended-Logged :
      (username op target params tab_id : String) (res : Result String Body) (s s' : KvState W)
      → store s' ≡ store s
      → (store s).fails (store s).statements ≡ false
      → Logged username op target s (write_ended setup env username op target params tab_id res s')
  unfolding write_ended
  write_ended-Logged username op target params tab_id (err msg) s s' same works =
      let m = mark_tab_error-Kept tab_id msg s' in
      let st = m.same_store ∙ same in
      record {
        entry = entry_of username op target params msg false;
        at_end =
            log_kv-log username op target params msg false (mark_tab_error setup env tab_id msg s')
              (subst (λ x. x.fails x.statements ≡ false) (sym st) works)
            ∙ ap (λ x. x.audit_log ++ entry_of username op target params msg false ∷ []) st;
        by_user = refl;
        operation = refl;
        on_target = refl;
        outcome = λ h. absurd (error_not_200 msg h);
      }
  write_ended-Logged username op target params tab_id (ok body) s s' same works = record {
    entry = entry_of username op target params "ok" true;
    at_end =
        log_kv-log username op target params "ok" true s'
          (subst (λ x. x.fails x.statements ≡ false) (sym same) works)
        ∙ ap (λ x. x.audit_log ++ entry_of username op target params "ok" true ∷ []) same;
    by_user = refl;
    operation = refl;
    on_target = refl;
    outcome = λ h. refl;
  }
