-- ===== src/Tabs/Handler/Create/Created.antt =====
-- What a tab that was created went through.
use etcdmonitor.Prelude.{
  ℕ, ◌<◌, ◌≡◌, String, true, List, [], ◌∷◌, ◌++◌, none, ok, string_eq, nat_eq,
}
use etcdmonitor.Config.{Config}
use etcdmonitor.Storage.Table.{count}
use etcdmonitor.Tabs.Repo.{Tab, owned, new_row}
use etcdmonitor.Tabs.Handler.{
  Env, TabState, Response, validate_scheme, check_member, connection, rows,
}
use etcdmonitor.Tabs.Handler.Create.{CreateTabRequest, new_tab, new_endpoint, new_name}

module _ (cfg : Config) (env : Env) (user : ℕ) (username : String) (req : CreateTabRequest) where
  abbrev endpoint : String
  endpoint = new_endpoint cfg env user username req

  abbrev tab_with : List ℕ → Tab
  tab_with cipher =
      new_tab env user endpoint (new_name cfg env user username req) req.username cipher

  -- The row that the request stored at the end of the table, with the encrypted password.
  pub record Stored (before : TabState) (r : Response × TabState) : Type 0 where
    pub cipher : List ℕ
    pub id : String
    pub sealed : env.encrypt req.password ≡ ok cipher
    pub at_end : rows r.1 ≡ rows before ++ new_row env.now id (tab_with cipher) (rows before) ∷ []

  -- The checks that the request passed, in the order in which they are made.
  pub record Created (before : TabState) (r : Response × TabState) : Type 0 where
    pub scheme : validate_scheme env endpoint ≡ true
    pub room : count (owned user) (rows before) < 10
    pub connects : (env.test (connection endpoint req.username req.password)).0 ≡ "ok"
    pub not_member : (check_member cfg env endpoint before).0.0 ≡ none
    pub stored_row : Stored before r

  record Connected (s : TabState) (r : Response × TabState) : Type 0 where
    connects : (env.test (connection endpoint req.username req.password)).0 ≡ "ok"
    not_member : (check_member cfg env endpoint s).0.0 ≡ none
    stored_row : Stored s r

  abbrev answer : String × String
  answer = env.test (connection endpoint req.username req.password)
