-- ===== src/Kv/Handler/Routes/Audit.antt =====
-- Which entry of the audit log a write leaves.
use etcdmonitor.Prelude.{◌≡◌, String, string_eq, if◌then◌else◌, Option, none, some, ◌⊎◌}
use etcdmonitor.Config.Endpoints.{trim_space}
use etcdmonitor.Tabs.Handler.{Env}
use etcdmonitor.Kv.Handler.{KvState, KvSetup, Answer, is_default_tab, audit_target}
use etcdmonitor.Kv.Handler.Head.{caller}
use etcdmonitor.Kv.Handler.Head.Kept.{Logged}
use etcdmonitor.Kv.Handler.V3.{PutRequest, DeleteRequest}
use etcdmonitor.Kv.Handler.Routes.{Route, put_3, put_2, delete_3, delete_2}

-- The operation and the key of a write
abbrev put_of : Option PutRequest → Option (String × String)
put_of none = none
put_of (some req) = some ("put", req.key)

abbrev delete_of : Option DeleteRequest → Option (String × String)
delete_of none = none
delete_of (some req) = some ("delete", req.key)

abbrev pub write_of : Route → Option (String × String)
write_of (put_3 body) = put_of body
write_of (put_2 body) = put_of body
write_of (delete_3 body) = delete_of body
write_of (delete_2 body) = delete_of body
write_of _ = none

-- The tab of a request, as the audit log names it
abbrev pub tab_of : String → String
tab_of tab_query = if is_default_tab (trim_space tab_query) then "default" else trim_space tab_query

module _ {W : Type 0} (setup : KvSetup W) (env : Env) where
  -- The entry of a write, on a named tab
  pub record LoggedWrite (route : Route) (tab_id : String) (s : KvState W) (r : Answer setup env)
      : Type 0 where
    pub op : String
    pub key : String
    pub is_write : write_of route ≡ some (op, key)
    pub logged : Logged setup env (caller env s) op (audit_target tab_id key) s r

  abbrev Told : Route → String → KvState W → Answer setup env → Type 0
  Told route tab_id s r = (r.1.world ≡ s.world) ⊎ LoggedWrite route tab_id s r
