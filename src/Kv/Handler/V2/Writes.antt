-- ===== src/Kv/Handler/V2/Writes.antt =====
-- The v2 handlers that write go through the client and the audit log.
use etcdmonitor.Prelude.{
  ◌≡◌, refl, ap, ◌∙◌, String, false, Option, none, some, Bool-cases, inl, inr, ◌⊎◌, string_eq,
}
use etcdmonitor.Tabs.Handler.{Env}
use etcdmonitor.Tabs.Manager.Conn.{ConnectionConfig}
use etcdmonitor.Kv.Client.{tab_client}
use etcdmonitor.Kv.ClientV2.{override_v2, put_v2, delete_v2}
use etcdmonitor.Kv.ClientV2.Writes.{KeepsV2, put_v2-view, delete_v2-view}
use etcdmonitor.Kv.Handler.{KvState, KvSetup, Answer, get_username, audit_target}
use etcdmonitor.Kv.Handler.Head.{store, caller}
use etcdmonitor.Kv.Handler.Head.Kept.{write_ended-same, Logged, write_ended-Logged}
use etcdmonitor.Kv.Handler.V3.{PutRequest, DeleteRequest, deleted_body, delete_params}
use etcdmonitor.Kv.Handler.V3.Ends.{unchanged}
use etcdmonitor.Kv.Handler.V2.{
  v2_for, node_body, client, check_v2_available_client, when_available, put_params, put_request,
  v2_put, delete_request, v2_delete,
}
use etcdmonitor.Kv.Handler.V2.Ends.{when_available-Same}

module _ {W : Type 0} (setup : KvSetup W) (env : Env) where
  module _ {V : Type 0} (view : W → V) (o : ConnectionConfig)
      (keeps : KeepsV2 view setup.etcd_v2 (tab_client o)) where
    pub v2_put-view :
        (body : Option PutRequest) (tab_id : String) (s : KvState W)
        → view (v2_put setup env body (some o) tab_id s).1.world ≡ view s.world
    unfolding v2_put put_request client v2_for get_username check_v2_available_client
    v2_put-view none tab_id s = refl
    v2_put-view (some req) tab_id s =
        let who = get_username setup env s in
        let r =
          put_v2 setup.etcd_v2 (override_v2 o s.v2) req.key req.value req.ttl req.dir s.world in
        ap view
          (write_ended-same setup env who.0 "put" (audit_target tab_id req.key)
            (put_params setup env req tab_id) tab_id (node_body r.0)
            (record who.1 { world = r.1 })).0
        ∙ put_v2-view view setup.etcd_v2 o keeps s.v2 req.key req.value req.ttl req.dir s.world

    pub v2_delete-view :
        (body : Option DeleteRequest) (tab_id : String) (s : KvState W)
        → view (v2_delete setup env body (some o) tab_id s).1.world ≡ view s.world
    unfolding v2_delete delete_request client v2_for get_username check_v2_available_client
    v2_delete-view none tab_id s = refl
    v2_delete-view (some req) tab_id s =
        let who = get_username setup env s in
        let r = delete_v2 setup.etcd_v2 (override_v2 o s.v2) req.key req.dir s.world in
        ap view
          (write_ended-same setup env who.0 "delete" (audit_target tab_id req.key)
            (delete_params setup env req tab_id) tab_id (deleted_body r.0)
            (record who.1 { world = r.1 })).0
        ∙ delete_v2-view view setup.etcd_v2 o keeps s.v2 req.key req.dir s.world

  pub v2_put-Logged :
      (req : PutRequest) (o : Option ConnectionConfig) (tab_id : String) (s : KvState W)
      → (store s).fails (store s).statements ≡ false
      → ((v2_put setup env (some req) o tab_id s).1.world ≡ s.world)
        ⊎ Logged setup env
            (caller env s)
            "put"
            (audit_target tab_id req.key)
            s
            (v2_put setup env (some req) o tab_id s)
  unfolding v2_put put_request client get_username
  v2_put-Logged req o tab_id s works = elim (Bool-cases (check_v2_available_client setup env o s)) [
    | inl b ↦
        let who = get_username setup env s in
        let r = put_v2 setup.etcd_v2 (v2_for s.v2 o) req.key req.value req.ttl req.dir s.world in
        rw b (
          inr (
            write_ended-Logged setup env who.0 "put" (audit_target tab_id req.key)
              (put_params setup env req tab_id) tab_id (node_body r.0) s
              (record who.1 { world = r.1 }) refl works))
    | inr b ↦ rw b (inl refl)
  ]

  pub v2_delete-Logged :
      (req : DeleteRequest) (o : Option ConnectionConfig) (tab_id : String) (s : KvState W)
      → (store s).fails (store s).statements ≡ false
      → ((v2_delete setup env (some req) o tab_id s).1.world ≡ s.world)
        ⊎ Logged setup env
            (caller env s)
            "delete"
            (audit_target tab_id req.key)
            s
            (v2_delete setup env (some req) o tab_id s)
  unfolding v2_delete delete_request client get_username
  v2_delete-Logged req o tab_id s works =
      elim (Bool-cases (check_v2_available_client setup env o s)) [
        | inl b ↦
            let who = get_username setup env s in
            let r = delete_v2 setup.etcd_v2 (v2_for s.v2 o) req.key req.dir s.world in
            rw b (
              inr (
                write_ended-Logged setup env who.0 "delete" (audit_target tab_id req.key)
                  (delete_params setup env req tab_id) tab_id (deleted_body r.0) s
                  (record who.1 { world = r.1 }) refl works))
        | inr b ↦ rw b (inl refl)
      ]

  pub v2_put-unbound :
      (o : Option ConnectionConfig) (tab_id : String) (s : KvState W)
      → (v2_put setup env none o tab_id s).1.world ≡ s.world
  unfolding v2_put put_request
  v2_put-unbound o tab_id s =
      (when_available-Same setup env (put_request setup env none o tab_id) o s
        (unchanged setup env s)).same_world

  pub v2_delete-unbound :
      (o : Option ConnectionConfig) (tab_id : String) (s : KvState W)
      → (v2_delete setup env none o tab_id s).1.world ≡ s.world
  unfolding v2_delete delete_request
  v2_delete-unbound o tab_id s =
      (when_available-Same setup env (delete_request setup env none o tab_id) o s
        (unchanged setup env s)).same_world

  put_request-v2 :
      (body : Option PutRequest) (o : Option ConnectionConfig) (tab_id : String) (s : KvState W)
      → (put_request setup env body o tab_id s).1.v2 ≡ s.v2
  unfolding put_request get_username
  put_request-v2 none o tab_id s = refl
  put_request-v2 (some req) o tab_id s = (write_ended-same setup env _ _ _ _ _ _ _).1

  delete_request-v2 :
      (body : Option DeleteRequest) (o : Option ConnectionConfig) (tab_id : String) (s : KvState W)
      → (delete_request setup env body o tab_id s).1.v2 ≡ s.v2
  unfolding delete_request get_username
  delete_request-v2 none o tab_id s = refl
  delete_request-v2 (some req) o tab_id s = (write_ended-same setup env _ _ _ _ _ _ _).1

  when_available-v2 :
      (k : KvState W → Answer setup env) (o : Option ConnectionConfig) (s : KvState W)
      → (k s).1.v2 ≡ s.v2
      → (when_available setup env k o s).1.v2 ≡ s.v2
  when_available-v2 k o s h = elim (Bool-cases (check_v2_available_client setup env o s)) [
    | inl b ↦ rw b h
    | inr b ↦ rw b refl
  ]

  pub v2_put-v2 :
      (body : Option PutRequest) (o : Option ConnectionConfig) (tab_id : String) (s : KvState W)
      → (v2_put setup env body o tab_id s).1.v2 ≡ s.v2
  unfolding v2_put
  v2_put-v2 body o tab_id s =
      when_available-v2 (put_request setup env body o tab_id) o s (put_request-v2 body o tab_id s)

  pub v2_delete-v2 :
      (body : Option DeleteRequest) (o : Option ConnectionConfig) (tab_id : String) (s : KvState W)
      → (v2_delete setup env body o tab_id s).1.v2 ≡ s.v2
  unfolding v2_delete
  v2_delete-v2 body o tab_id s =
      when_available-v2 (delete_request setup env body o tab_id) o s
        (delete_request-v2 body o tab_id s)
