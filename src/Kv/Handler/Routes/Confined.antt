-- ===== src/Kv/Handler/Routes/Confined.antt =====
-- What a request on a tab reaches, and what of it the audit log tells.
use etcdmonitor.Prelude.{
  ℕ, ◌≡◌, ◌≢◌, sym, ap, ◌∙◌, subst, String, true, false, Option, some, inl, inr,
}
use etcdmonitor.Config.Endpoints.{trim_space}
use etcdmonitor.Tabs.Handler.{Env, rows}
use etcdmonitor.Tabs.Manager.Conn.{ConnectionConfig}
use etcdmonitor.Tabs.Manager.Resolution.{OwnTab}
use etcdmonitor.Kv.Client.{tab_client, config_of, with_override}
use etcdmonitor.Kv.Client.Writes.{KeepsV3}
use etcdmonitor.Kv.ClientV2.Writes.{KeepsV2}
use etcdmonitor.Kv.Handler.{KvState, KvSetup, get_user_id, is_default_tab}
use etcdmonitor.Kv.Handler.Head.{Origin, resolve_client-Led, own_tab, default_cluster}
use etcdmonitor.Kv.Handler.V3.{v3_for}
use etcdmonitor.Kv.Handler.V3.Ends.{
  v3_connect-Same, v3_get-Same, v3_get_path-Same, v3_keys-Same, v3_separator-Same, v3_put-view,
  v3_delete-view,
}
use etcdmonitor.Kv.Handler.V2.Ends.{v2_get-Same, v2_get_path-Same, v2_keys-Same, v2_separator-Same}
use etcdmonitor.Kv.Handler.V2.Connect.{v2_connect-world}
use etcdmonitor.Kv.Handler.V2.Writes.{v2_put-view, v2_delete-view}
use etcdmonitor.Kv.Handler.Routes.{
  Route, connect_3, separator_3, keys_3, connect_2, separator_2, keys_2, get_3, get_path_3, get_2,
  get_path_2, put_3, put_2, delete_3, delete_2, KvRequest, serve, handle_kv,
}

module _ {W : Type 0} (setup : KvSetup W) (env : Env) where
  -- The calls that write, of either API, under the connection of a tab do not change the view.
  abbrev pub Keeps : {V : Type 0} → (W → V) → ConnectionConfig → Type 0
  Keeps view c =
      KeepsV3 view setup.etcd_v3 (tab_client c) × KeepsV2 view setup.etcd_v2 (tab_client c)

  serve-view :
      {V : Type 0} (view : W → V) (tab_query : String) (route : Route) (c : ConnectionConfig)
      (tab_id : String) (s : KvState W)
      → Keeps view c
      → view (serve setup env tab_query route (some c) tab_id s).1.world ≡ view s.world
  unfolding serve v3_for config_of with_override
  serve-view view q connect_3 c t s k = ap view (v3_connect-Same setup env (some c) t s).same_world
  serve-view view q separator_3 c t s k =
      ap view (v3_separator-Same setup env (some c) t s).same_world
  serve-view view q keys_3 c t s k = ap view (v3_keys-Same setup env (some c) t s).same_world
  serve-view view q connect_2 c t s k = ap view (v2_connect-world setup env q (some c) t s)
  serve-view view q separator_2 c t s k =
      ap view (v2_separator-Same setup env (some c) t s).same_world
  serve-view view q keys_2 c t s k = ap view (v2_keys-Same setup env (some c) t s).same_world
  serve-view view q (get_3 key) c t s k =
      ap view (v3_get-Same setup env key (some c) t s).same_world
  serve-view view q (get_path_3 key) c t s k =
      ap view (v3_get_path-Same setup env key (some c) t s).same_world
  serve-view view q (get_2 key) c t s k =
      ap view (v2_get-Same setup env key (some c) t s).same_world
  serve-view view q (get_path_2 key) c t s k =
      ap view (v2_get_path-Same setup env key (some c) t s).same_world
  serve-view view q (put_3 body) c t s k = v3_put-view setup env view body (some c) t s k.0
  serve-view view q (put_2 body) c t s k = v2_put-view setup env view c k.1 body t s
  serve-view view q (delete_3 body) c t s k = v3_delete-view setup env view body (some c) t s k.0
  serve-view view q (delete_2 body) c t s k = v2_delete-view setup env view c k.1 body t s

  -- A request that names a tab changes the clusters only by what etcd does under the connection of
  -- a tab with that ID of the caller: whatever aspect of the clusters no such call changes, the
  -- request does not change.
  pub request_confined :
      {V : Type 0} (view : W → V) (r : KvRequest) (s : KvState W)
      → is_default_tab (trim_space r.tab_query) ≡ false
      → ((user : ℕ) (c : ConnectionConfig)
          → (get_user_id env.now env.request s.tabs.sessions).0 ≡ user
          → OwnTab env.decrypt (trim_space r.tab_query) user (rows s.tabs) c
          → Keeps view c)
      → view (handle_kv setup env r s).1.world ≡ view s.world
  unfolding handle_kv
  request_confined view r s named keeps =
      elim (resolve_client-Led setup env r.tab_query (serve setup env r.tab_query r.route) s) [
        | inl refused ↦ ap view refused.same_world
        | inr reached ↦
            ap (λ x. view x.1.world) reached.result
            ∙ from_origin reached.override reached.tab_id reached.state reached.origin
            ∙ ap view reached.same_world
      ]
    where
      true_false : true ≢ false
      true_false q = cc

      from_origin :
          (o : Option ConnectionConfig) (t : String) (s' : KvState W)
          → Origin setup env r.tab_query s o t
          → view (serve setup env r.tab_query r.route o t s').1.world ≡ view s'.world
      from_origin o t s' (default_cluster d) = absurd (true_false (sym d ∙ named))
      from_origin o t s' (own_tab {c = c} user _ e is_user ne own) =
          serve-view view r.tab_query r.route c t s'
            (keeps user c is_user (subst (λ x. OwnTab env.decrypt x user (rows s.tabs) c) e own))
