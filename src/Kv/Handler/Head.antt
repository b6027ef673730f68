-- ===== src/Kv/Handler/Head.antt =====
-- Where the head of a handler leads: to a refusal, to the default cluster, or to a tab of the
-- caller.
pub mod Kept
use etcdmonitor.Prelude.{
  ℕ, ◌≡◌, ◌≢◌, refl, sym, ap, ◌∙◌, subst, String, Bool, true, false, ◌||◌, not, [], ◌∷◌, ◌++◌,
  Option, none, some, Result, ok, err, Bool-cases, inl, inr, ◌⊎◌, ◌==◌, string_eq, nat_eq, eq_iff,
  arith, if◌then◌else◌,
}
use etcdmonitor.Config.Endpoints.{trim_space}
use etcdmonitor.Storage.Users.{Storage, AuditEntry, store_audit_log, exec, text}
use etcdmonitor.Auth.Sessions.{Request, MemorySessionStore, Session, get, extract_token}
use etcdmonitor.Auth.Sessions.Validity.{get-eq-view, view-get}
use etcdmonitor.Tabs.Manager.{ResolveError, repo_failed, decrypt_failed, default_failed, resolve}
use etcdmonitor.Tabs.Manager.Conn.{ConnectionConfig}
use etcdmonitor.Tabs.Manager.Resolution.{OwnTab, resolve_own}
use etcdmonitor.Tabs.Handler.{Env, rows, is_not_found, log_audit, current_username}
use etcdmonitor.Kv.Handler.{
  Body, KvState, KvSetup, Answer, get_user_id, is_default_tab, resolve_client, named_tab, for_user,
  resolved, unresolved, log_attempt, get_username, mark_tab, mark_tab_error, mark_tab_ok,
  read_failed, write_ended, log_kv, error_from_etcd,
}

abbrev pub store : {W : Type 0} → KvState W → Storage
store s = s.tabs.store

-- Asking for the session twice gives the same one.
get-twice :
    (now : ℕ) (token : String) (s : MemorySessionStore)
    → (get now token (get now token s).1).0 ≡ (get now token s).0
get-twice now token s =
    get-eq-view now token (get now token s).1
    ∙ view-get now now token token s (omega arith)
    ∙ sym (get-eq-view now token s)

-- The name of a session, after its ID was asked for
username-get_user_id :
    (now : ℕ) (request : Request) (s : MemorySessionStore)
    → (current_username now request (get_user_id now request s).1).0
      ≡ (current_username now request s).0
unfolding current_username get_user_id
username-get_user_id now request s = elim (Bool-cases (extract_token request == "")) [
  | inl e ↦ rw e refl
  | inr e ↦ rw e (
      ap (λ (found : Option Session). elim found [ none ↦ "anonymous" | some x ↦ x.username ])
        (get-twice now (extract_token request) s))
]

-- The name of the session of a request
abbrev pub caller : {W : Type 0} → Env → KvState W → String
caller env s = (current_username env.now env.request s.tabs.sessions).0

module _ {W : Type 0} (setup : KvSetup W) (env : Env) where
  -- Whose cluster a handler goes on with
  pub data Origin (tab_query : String) (s : KvState W)
      : Option ConnectionConfig → String → Type 0 where
    default_cluster :
        is_default_tab (trim_space tab_query) ≡ true → Origin tab_query s none "default"
    own_tab :
        {c : ConnectionConfig} {tab_id : String} (user : ℕ)
        → is_default_tab (trim_space tab_query) ≡ false
        → tab_id ≡ trim_space tab_query
        → (get_user_id env.now env.request s.tabs.sessions).0 ≡ user
        → user ≢ 0
        → OwnTab env.decrypt tab_id user (rows s.tabs) c
        → Origin tab_query s (some c) tab_id

  pub record Reached (tab_query : String)
      (k : Option ConnectionConfig → String → KvState W → Answer setup env) (s : KvState W)
      (r : Answer setup env) : Type 0 where
    pub override : Option ConnectionConfig
    pub tab_id : String
    pub state : KvState W
    pub origin : Origin tab_query s override tab_id
    pub result : r ≡ k override tab_id state
    pub same_world : state.world ≡ s.world
    pub same_store : store state ≡ store s
    pub same_v2 : state.v2 ≡ s.v2
    pub same_caller : caller env state ≡ caller env s

  -- A refusal: nothing outside the tabs changes, and the status is an error.
  pub record Refused (s : KvState W) (r : Answer setup env) : Type 0 where
    pub same_world : r.1.world ≡ s.world
    pub same_v2 : r.1.v2 ≡ s.v2
    pub bad : (r.0.status ≡ 401) ⊎ (r.0.status ≡ 404) ⊎ (r.0.status ≡ 500)

  unresolved-Refused :
      (tab_id : String) (e : ResolveError) (s : KvState W)
      → Refused s (unresolved setup env tab_id e s)
  unfolding unresolved log_attempt get_username
  unresolved-Refused tab_id (repo_failed e) s = elim (Bool-cases (is_not_found e)) [
    | inl b ↦ rw b (record { same_world = refl; same_v2 = refl; bad = inr (inl refl) })
    | inr b ↦ rw b (record { same_world = refl; same_v2 = refl; bad = inr (inr refl) })
  ]
  unresolved-Refused tab_id (decrypt_failed e) s = record {
    same_world = refl;
    same_v2 = refl;
    bad = inr (inr refl);
  }
  unresolved-Refused tab_id (default_failed e) s = record {
    same_world = refl;
    same_v2 = refl;
    bad = inr (inr refl);
  }

  module _ (tab_query : String)
      (k : Option ConnectionConfig → String → KvState W → Answer setup env) (s : KvState W) where
    abbrev tab : String
    tab = trim_space tab_query

    abbrev Led : Answer setup env → Type 0
    Led r = Refused s r ⊎ Reached tab_query k s r

    or_false : (a b : Bool) → (a || b) ≡ false → (a ≡ false) × (b ≡ false)
    or_false false false h = (refl, refl)
    or_false false true h = absurd cc
    or_false true b h = absurd cc

    not_named : (name : String) → (tab == name) ≡ false → tab ≢ name
    not_named name h e = absurd (true_is (sym (ap (λ b. b) h) ∙ (eq_iff tab name).1 e))
      where
        true_is : false ≢ true
        true_is q = cc

    resolved-Led :
        (user : ℕ) (r : Result ResolveError ConnectionConfig) (s' : KvState W)
        → is_default_tab tab ≡ false
        → (get_user_id env.now env.request s.tabs.sessions).0 ≡ user
        → user ≢ 0
        → ((c : ConnectionConfig) → r ≡ ok c → OwnTab env.decrypt tab user (rows s.tabs) c)
        → s'.world ≡ s.world
        → store s' ≡ store s
        → s'.v2 ≡ s.v2
        → caller env s' ≡ caller env s
        → Led (resolved setup env k tab r s')
    unfolding resolved
    resolved-Led user (err e) s' named is_user ne own w st v n =
        let bad = unresolved-Refused tab e s' in
        inl (record { same_world = bad.same_world ∙ w; same_v2 = bad.same_v2 ∙ v; bad = bad.bad })
    resolved-Led user (ok c) s' named is_user ne own w st v n = inr (record {
      override = some c;
      tab_id = tab;
      state = s';
      origin = own_tab user named refl is_user ne (own c refl);
      result = refl;
      same_world = w;
      same_store = st;
      same_v2 = v;
      same_caller = n;
    })

    for_user-Led :
        (user : ℕ) (s' : KvState W)
        → is_default_tab tab ≡ false
        → (get_user_id env.now env.request s.tabs.sessions).0 ≡ user
        → s'.tabs.mgr ≡ s.tabs.mgr
        → s'.world ≡ s.world
        → store s' ≡ store s
        → s'.v2 ≡ s.v2
        → caller env s' ≡ caller env s
        → Led (for_user setup env k tab user s')
    unfolding for_user
    for_user-Led user s' named is_user m w st v n = elim (Bool-cases (user == 0)) [
      | inl anonymous ↦ rw anonymous (inl (record { same_world = w; same_v2 = v; bad = inl refl }))
      | inr someone ↦
          let names = or_false (tab == "") (tab == "default") named in
          let given : Result ResolveError ConnectionConfig = err (default_failed "") in
          let r = resolve env.decrypt given tab user s'.tabs.mgr in
          rw someone (
            resolved-Led user r.0 (record s' { tabs = record s'.tabs { mgr = r.1 } }) named is_user
              (λ e. ground (arith, e, someone))
              (λ c q.
                subst (λ l. OwnTab env.decrypt tab user l c) (ap (λ x. x.db.tabs) m)
                  (resolve_own env.decrypt tab user c given s'.tabs.mgr (not_named "" names.0)
                    (not_named "default" names.1) q).0)
              w st v n)
    ]

    either_way : (b : Bool) {x y : Answer setup env} → Led x → Led y → Led (if b then x else y)
    either_way true p q = p
    either_way false p q = q

    pub resolve_client-Led : Led (resolve_client setup env tab_query k s)
    unfolding resolve_client named_tab
    resolve_client-Led = elim (Bool-cases (is_default_tab tab)) [
      | inl d ↦ rw d (
          inr (record {
            override = none;
            tab_id = "default";
            state = s;
            origin = default_cluster d;
            result = refl;
            same_world = refl;
            same_store = refl;
            same_v2 = refl;
            same_caller = refl;
          }))
      | inr named ↦
          let who = get_user_id env.now env.request s.tabs.sessions in
          rw named (
            either_way setup.tabs_enabled
              (for_user-Led who.0 (record s { tabs = record s.tabs { sessions = who.1 } }) named
                refl refl refl refl refl (username-get_user_id env.now env.request s.tabs.sessions))
              (inl (record { same_world = refl; same_v2 = refl; bad = inr (inl refl) })))
    ]
