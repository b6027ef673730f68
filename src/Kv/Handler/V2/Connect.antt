-- ===== src/Kv/Handler/V2/Connect.antt =====
-- The v2 connect handler: it leaves the clusters alone, and its answer follows the client.
use etcdmonitor.Prelude.{
  ℕ, ◌≡◌, ◌≢◌, arith, refl, sym, ap, ◌∙◌, String, true, Option, none, some, Result, ok, err, inl,
  inr, ◌⊎◌, string_eq,
}
use etcdmonitor.Tabs.Handler.{Env}
use etcdmonitor.Tabs.Manager.Conn.{ConnectionConfig}
use etcdmonitor.Kv.Client.{ConnectInfo}
use etcdmonitor.Kv.ClientV2.{ClientV2, connect_v2}
use etcdmonitor.Kv.ClientV2.Outage.{Down, is_err, connect_v2-off}
use etcdmonitor.Kv.Handler.{KvState, KvSetup, resolve_client, mark_tab_ok, Response}
use etcdmonitor.Kv.Handler.Head.{resolve_client-Led}
use etcdmonitor.Kv.Handler.Head.Kept.{mark_tab_ok-Kept, mark_tab_error-Kept}
use etcdmonitor.Kv.Handler.V2.{v2_for, keep_v2, client, informed, told, connected_v2, v2_connect}

module _ {W : Type 0} (setup : KvSetup W) (env : Env) where
  -- What stays besides the tabs and the log
  abbrev pub Outer : KvState W → KvState W → Type 0
  Outer s s' = (s'.world ≡ s.world) × (s'.v2 ≡ s.v2)

  informed-Outer :
      (info : ConnectInfo) (o : Option ConnectionConfig) (tab_id : String) (s : KvState W)
      → Outer s (informed setup env info o tab_id s).1
  unfolding informed
  informed-Outer info o tab_id s = (refl, refl)

  connected_v2-Outer :
      (tab_query tab_id : String) (r : Result String ConnectInfo) (s : KvState W)
      → Outer s (connected_v2 setup env tab_query tab_id r s).1
  unfolding connected_v2
  connected_v2-Outer tab_query tab_id (err e) s =
      let m = mark_tab_error-Kept setup env tab_id e s in (m.same_world, m.same_v2)
  connected_v2-Outer tab_query tab_id (ok info) s =
      let m = mark_tab_ok-Kept setup env tab_id s in
      let t = mark_tab_ok setup env tab_id s in
      elim (resolve_client-Led setup env tab_query (informed setup env info) t) [
        | inl bad ↦ (bad.same_world ∙ m.same_world, bad.same_v2 ∙ m.same_v2)
        | inr r ↦ (
          ap (λ x. x.1.world) r.result
              ∙ (informed-Outer info r.override r.tab_id r.state).0
              ∙ r.same_world
              ∙ m.same_world,
          ap (λ x. x.1.v2) r.result
              ∙ (informed-Outer info r.override r.tab_id r.state).1
              ∙ r.same_v2
              ∙ m.same_v2,
        )
      ]

  kept_world :
      (o : Option ConnectionConfig) (v2 : ClientV2) (s : KvState W)
      → (keep_v2 o v2 s).world ≡ s.world
  kept_world none v2 s = refl
  kept_world (some o) v2 s = refl

  pub v2_connect-world :
      (tab_query : String) (o : Option ConnectionConfig) (tab_id : String) (s : KvState W)
      → (v2_connect setup env tab_query o tab_id s).1.world ≡ s.world
  unfolding v2_connect
  v2_connect-world tab_query o tab_id s =
      let r = connect_v2 setup.etcd_v2 (client setup env o s) s.world in
      (connected_v2-Outer tab_query tab_id r.0 (keep_v2 o r.1 s)).0 ∙ kept_world o r.1 s

  -- The client of the default cluster, after a connect on the default cluster
  pub v2_connect-v2 :
      (tab_query tab_id : String) (s : KvState W)
      → (v2_connect setup env tab_query none tab_id s).1.v2
        ≡ (connect_v2 setup.etcd_v2 s.v2 s.world).1
  unfolding v2_connect client v2_for
  v2_connect-v2 tab_query tab_id s =
      let r = connect_v2 setup.etcd_v2 s.v2 s.world in
      (connected_v2-Outer tab_query tab_id r.0 (record s { v2 = r.1 })).1

  pub v2_connect_tab-v2 :
      (tab_query : String) (o : ConnectionConfig) (tab_id : String) (s : KvState W)
      → (v2_connect setup env tab_query (some o) tab_id s).1.v2 ≡ s.v2
  unfolding v2_connect
  v2_connect_tab-v2 tab_query o tab_id s =
      let r = connect_v2 setup.etcd_v2 (client setup env (some o) s) s.world in
      (connected_v2-Outer tab_query tab_id r.0 s).1

  not_refused : (n : ℕ) → ((n ≡ 401) ⊎ (n ≡ 404) ⊎ (n ≡ 500)) → n ≢ 503
  not_refused n (inl e) h = omega (arith, e, h)
  not_refused n (inr (inl e)) h = omega (arith, e, h)
  not_refused n (inr (inr e)) h = omega (arith, e, h)

  informed_200 :
      (info : ConnectInfo) (o : Option ConnectionConfig) (tab_id : String) (s : KvState W)
      → (informed setup env info o tab_id s).0.status ≢ 503
  unfolding informed
  informed_200 info o tab_id s h = omega (arith, h)

  told-status : (info : ConnectInfo) (r : Response) → (told setup env info r).status ≡ r.status
  unfolding told
  told-status info r = refl

  connected_v2-failed :
      (tab_query tab_id : String) (r : Result String ConnectInfo) (s : KvState W)
      → (connected_v2 setup env tab_query tab_id r s).0.status ≡ 503
      → is_err r ≡ true
  unfolding connected_v2
  connected_v2-failed tab_query tab_id (err e) s h = refl
  connected_v2-failed tab_query tab_id (ok info) s h =
      let t = mark_tab_ok setup env tab_id s in
      let status_is =
        sym (told-status info (resolve_client setup env tab_query (informed setup env info) t).0)
        ∙ h in
      absurd (elim (resolve_client-Led setup env tab_query (informed setup env info) t) [
        | inl bad ↦ not_refused _ bad.bad status_is
        | inr reached ↦
            informed_200 info reached.override reached.tab_id reached.state
              (ap (λ x. x.0.status) (sym reached.result) ∙ status_is)
      ])

  -- A connect is answered 503 only where the client reports an error.
  pub v2_connect-failed :
      (tab_query tab_id : String) (s : KvState W)
      → (v2_connect setup env tab_query none tab_id s).0.status ≡ 503
      → is_err (connect_v2 setup.etcd_v2 s.v2 s.world).0 ≡ true
  unfolding v2_connect client v2_for
  v2_connect-failed tab_query tab_id s h =
      let r = connect_v2 setup.etcd_v2 s.v2 s.world in
      connected_v2-failed tab_query tab_id r.0 (record s { v2 = r.1 }) h

  pub v2_connect-off :
      (tab_query tab_id : String) (s : KvState W)
      → Down s.v2
      → (v2_connect setup env tab_query none tab_id s).0.status ≡ 503
  unfolding v2_connect client v2_for connected_v2
  v2_connect-off tab_query tab_id s d =
      rw (connect_v2-off setup.etcd_v2 s.v2 s.world d, connected_v2) refl
