-- ===== src/Kv/Handler/Routes/Outage.antt =====
-- The v2 API of the default cluster after a connect that failed.
use etcdmonitor.Prelude.{
  ◌≡◌, refl, sym, ap, ◌∙◌, subst, String, Bool, true, false, string_eq, Option, none, some, inl,
  inr, List, [], ◌∷◌,
}
use etcdmonitor.Config.Endpoints.{trim_space}
use etcdmonitor.Tabs.Handler.{Env}
use etcdmonitor.Tabs.Manager.Conn.{ConnectionConfig}
use etcdmonitor.Kv.ClientV2.Outage.{Down, connect_v2-Down, connect_v2-off}
use etcdmonitor.Kv.Handler.{KvState, KvSetup, is_default_tab, resolve_client}
use etcdmonitor.Kv.Handler.Head.{resolve_client-Led}
use etcdmonitor.Kv.Handler.V3.Ends.{
  v3_connect-Same, v3_get-Same, v3_get_path-Same, v3_keys-Same, v3_separator-Same, v3_put-v2,
  v3_delete-v2,
}
use etcdmonitor.Kv.Handler.V2.{
  v2_get, v2_get_path, v2_put, v2_delete, v2_keys, check_v2_available_client,
}
use etcdmonitor.Kv.Handler.V2.Ends.{v2_get-Same, v2_get_path-Same, v2_keys-Same, v2_separator-Same}
use etcdmonitor.Kv.Handler.V2.Connect.{
  v2_connect-v2, v2_connect_tab-v2, v2_connect-failed, v2_connect-off,
}
use etcdmonitor.Kv.Handler.V2.Writes.{v2_put-v2, v2_delete-v2}
use etcdmonitor.Kv.Handler.Routes.{
  Route, connect_3, separator_3, keys_3, connect_2, separator_2, keys_2, get_3, get_path_3, get_2,
  get_path_2, put_3, put_2, delete_3, delete_2, KvRequest, serve, handle_kv,
}

-- The routes that need the v2 API: all but the one that tells the separator.
abbrev pub needs_v2 : Route → Bool
needs_v2 connect_2 = true
needs_v2 keys_2 = true
needs_v2 (get_2 key) = true
needs_v2 (get_path_2 key) = true
needs_v2 (put_2 body) = true
needs_v2 (delete_2 body) = true
needs_v2 _ = false

module _ {W : Type 0} (setup : KvSetup W) where
  -- Requests that are handled one after the other
  unfoldable pub run_kv : List (Env × KvRequest) → KvState W → KvState W
  run_kv [] s = s
  run_kv ((env, r) ∷ rest) s = run_kv rest (handle_kv setup env r s).1

  serve-v2 :
      (env : Env) (q : String) (route : Route) (o : Option ConnectionConfig) (t : String)
      (s : KvState W)
      → Down s.v2
      → (serve setup env q route o t s).1.v2 ≡ s.v2
  unfolding serve
  serve-v2 env q connect_3 o t s d = (v3_connect-Same setup env o t s).same_v2
  serve-v2 env q separator_3 o t s d = (v3_separator-Same setup env o t s).same_v2
  serve-v2 env q keys_3 o t s d = (v3_keys-Same setup env o t s).same_v2
  serve-v2 env q connect_2 none t s d =
      v2_connect-v2 setup env q t s ∙ ap (λ x. x.1) (connect_v2-off setup.etcd_v2 s.v2 s.world d)
  serve-v2 env q connect_2 (some c) t s d = v2_connect_tab-v2 setup env q c t s
  serve-v2 env q separator_2 o t s d = (v2_separator-Same setup env o t s).same_v2
  serve-v2 env q keys_2 o t s d = (v2_keys-Same setup env o t s).same_v2
  serve-v2 env q (get_3 key) o t s d = (v3_get-Same setup env key o t s).same_v2
  serve-v2 env q (get_path_3 key) o t s d = (v3_get_path-Same setup env key o t s).same_v2
  serve-v2 env q (get_2 key) o t s d = (v2_get-Same setup env key o t s).same_v2
  serve-v2 env q (get_path_2 key) o t s d = (v2_get_path-Same setup env key o t s).same_v2
  serve-v2 env q (put_3 body) o t s d = v3_put-v2 setup env body o t s
  serve-v2 env q (put_2 body) o t s d = v2_put-v2 setup env body o t s
  serve-v2 env q (delete_3 body) o t s d = v3_delete-v2 setup env body o t s
  serve-v2 env q (delete_2 body) o t s d = v2_delete-v2 setup env body o t s

  handle_kv-Down :
      (env : Env) (r : KvRequest) (s : KvState W) → Down s.v2 → Down (handle_kv setup env r s).1.v2
  unfolding handle_kv
  handle_kv-Down env r s d =
      elim (resolve_client-Led setup env r.tab_query (serve setup env r.tab_query r.route) s) [
        | inl refused ↦ subst Down (sym refused.same_v2) d
        | inr reached ↦
            let d' = subst Down (sym reached.same_v2) d in
            subst Down
              (sym (
                ap (λ x. x.1.v2) reached.result
                ∙ serve-v2 env r.tab_query r.route reached.override reached.tab_id reached.state
                    d'))
              d'
      ]

  run_kv-Down :
      (later : List (Env × KvRequest)) (s : KvState W) → Down s.v2 → Down (run_kv later s).v2
  unfolding run_kv
  run_kv-Down [] s d = d
  run_kv-Down ((env, r) ∷ rest) s d =
      run_kv-Down rest (handle_kv setup env r s).1 (handle_kv-Down env r s d)

  -- A request on the default cluster goes straight to its handler.
  on_default :
      (env : Env) (r : KvRequest) (s : KvState W)
      → is_default_tab (trim_space r.tab_query) ≡ true
      → handle_kv setup env r s ≡ serve setup env r.tab_query r.route none "default" s
  unfolding handle_kv resolve_client
  on_default env r s d = rw d refl

  refused_503 :
      (env : Env) (q : String) (route : Route) (s : KvState W)
      → Down s.v2
      → needs_v2 route ≡ true
      → (serve setup env q route none "default" s).0.status ≡ 503
  unfolding serve v2_keys v2_get v2_get_path v2_put v2_delete check_v2_available_client
  refused_503 env q connect_2 s d h = v2_connect-off setup env q "default" s d
  refused_503 env q keys_2 s d h = rw d.off refl
  refused_503 env q (get_2 key) s d h = rw d.off refl
  refused_503 env q (get_path_2 key) s d h = rw d.off refl
  refused_503 env q (put_2 body) s d h = rw d.off refl
  refused_503 env q (delete_2 body) s d h = rw d.off refl
  refused_503 env q connect_3 s d h = absurd cc
  refused_503 env q separator_3 s d h = absurd cc
  refused_503 env q keys_3 s d h = absurd cc
  refused_503 env q separator_2 s d h = absurd cc
  refused_503 env q (get_3 key) s d h = absurd cc
  refused_503 env q (get_path_3 key) s d h = absurd cc
  refused_503 env q (put_3 body) s d h = absurd cc
  refused_503 env q (delete_3 body) s d h = absurd cc

  -- Once a connect to the v2 API of the default cluster was answered 503, every later request on
  -- the default cluster that needs that API is answered 503, another connect included, whatever
  -- requests came between and whatever state the cluster is in.
  pub outage_lasts :
      (env env' : Env) (first : KvRequest) (s : KvState W) (later : List (Env × KvRequest))
      (r : KvRequest)
      → s.v2.override ≡ none
      → first.route ≡ connect_2
      → is_default_tab (trim_space first.tab_query) ≡ true
      → (handle_kv setup env first s).0.status ≡ 503
      → needs_v2 r.route ≡ true
      → is_default_tab (trim_space r.tab_query) ≡ true
      → (handle_kv setup env' r (run_kv later (handle_kv setup env first s).1)).0.status ≡ 503
  unfolding serve
  outage_lasts env env' first s later r of_default is_connect d h needs d' =
      let s1 = (handle_kv setup env first s).1 in
      let s2 = run_kv later s1 in
      let first_is =
        on_default env first s d
        ∙ ap (λ x. serve setup env first.tab_query x none "default" s) is_connect in
      let failed =
        v2_connect-failed setup env first.tab_query "default" s
          (ap (λ x. x.0.status) (sym first_is) ∙ h) in
      let down : Down s1.v2 =
        subst Down
          (sym (ap (λ x. x.1.v2) first_is ∙ v2_connect-v2 setup env first.tab_query "default" s))
          (connect_v2-Down setup.etcd_v2 s.v2 s.world of_default failed) in
      ap (λ x. x.0.status) (on_default env' r s2 d')
      ∙ refused_503 env' r.tab_query r.route s2 (run_kv-Down later s1 down) needs
