-- ===== src/Ops/Members.antt =====
-- The members of the cluster, as the collector knows them (internal/collector/member.go), and how
-- internal/ops/handler.go finds one.
use etcdmonitor.Prelude.{String, List, [], ◌∷◌, ◌==◌, nat_eq, string_eq, if◌then◌else◌}

pub record MemberInfo : Type 0 where
  pub id : String
  pub name : String
  pub endpoint : String
  pub client_urls : List String

abbrev pub first_url : List String → String
first_url [] = ""
first_url (url ∷ urls) = url

abbrev pub endpoint_of : MemberInfo → String
endpoint_of m = if m.endpoint == "" then first_url m.client_urls else m.endpoint

-- The endpoint and the name of a member
unfoldable pub resolve_endpoint : List MemberInfo → String → String × String
resolve_endpoint [] id = ("", "")
resolve_endpoint (m ∷ ms) id =
    let rest = resolve_endpoint ms id in if m.id == id then (endpoint_of m, m.name) else rest

abbrev pub name_or_id : String → String → String
name_or_id name id = if name == "" then id else name
