-- ===== src/Config/Endpoints.antt =====
-- The endpoints of the monitored cluster, and the switch of the operations
-- (internal/config/config.go).
pub mod Split
pub mod Trim
use Prim.Native.Char.{code, Char}
use Prim.Native.String
use etcdmonitor.Prelude.{
  ℕ, zero, suc, Option, none, some, String, Bool, true, false, ◌&&◌, ◌||◌, List, [], ◌∷◌, leb, ◌==◌,
  nat_eq, string_eq, if◌then◌else◌,
}
use etcdmonitor.Config.{Config}

-- `unicode.IsSpace`
unfoldable pub is_space : Char → Bool
is_space c =
    (leb 9 (code c) && leb (code c) 13)
    || (code c == 32)
    || (code c == 133)
    || (code c == 160)
    || (code c == 5760)
    || (leb 8192 (code c) && leb (code c) 8202)
    || (code c == 8232)
    || (code c == 8233)
    || (code c == 8239)
    || (code c == 8287)
    || (code c == 12288)

unfoldable pub trim_left : String → String
trim_left String.[] = String.[]
trim_left (String.◌∷◌ c s) = let rest = trim_left s in if is_space c then rest else String.◌∷◌ c s

unfoldable pub trim_right : String → String
trim_right String.[] = String.[]
trim_right (String.◌∷◌ c s) =
    let rest = trim_right s in if is_space c && (rest == "") then String.[] else String.◌∷◌ c rest

-- `strings.TrimSpace`
unfoldable pub trim_space : String → String
unfolding trim_left trim_right
trim_space s = trim_right (trim_left s)

-- `strings.TrimRight(s, "/")`
unfoldable pub trim_slashes : String → String
trim_slashes String.[] = String.[]
trim_slashes (String.◌∷◌ c s) =
    let rest = trim_slashes s in
    if (code c == 47) && (rest == "") then String.[] else String.◌∷◌ c rest

unfoldable pub drop_chars : ℕ → String → String
drop_chars zero s = s
drop_chars (suc n) String.[] = String.[]
drop_chars (suc n) (String.◌∷◌ c s) = drop_chars n s

unfoldable pub has_prefix : String → String → Bool
has_prefix String.[] s = true
has_prefix (String.◌∷◌ c p) String.[] = false
has_prefix (String.◌∷◌ c p) (String.◌∷◌ d s) =
    let rest = has_prefix p s in if code c == code d then rest else false

unfoldable pub lower_upper_scheme : String → String
unfolding has_prefix drop_chars
lower_upper_scheme s =
    if has_prefix "HTTP://" s
    then String.◌++◌ "http://" (drop_chars 7 s)
    else if has_prefix "HTTPS://" s
    then String.◌++◌ "https://" (drop_chars 8 s)
    else s

unfoldable pub normalize_endpoint : String → String
unfolding trim_space trim_slashes lower_upper_scheme
normalize_endpoint s = lower_upper_scheme (trim_slashes (trim_space s))

unfoldable pub ops_enabled : Config → Bool
ops_enabled cfg = enabled cfg.ops.enable
  where
    enabled : Option Bool → Bool
    enabled none = true
    enabled (some b) = b

-- Reading one more character: a comma starts a new part.
unfoldable pub prefix : Char → String × List String → String × List String
prefix c (p, ps) = if code c == 44 then (String.[], p ∷ ps) else (String.◌∷◌ c p, ps)

-- `strings.Split(s, ",")`, its first part and the others
unfoldable pub split_commas : String → String × List String
unfolding prefix
split_commas String.[] = (String.[], [])
split_commas (String.◌∷◌ c s) = prefix c (split_commas s)

-- The loop of `EtcdEndpoints`.
unfoldable pub named_parts : List String → List String
named_parts [] = []
named_parts (p ∷ ps) =
    let rest = named_parts ps in if trim_space p == "" then rest else trim_space p ∷ rest

abbrev pub default_endpoint : String
default_endpoint = "http://127.0.0.1:2379"

unfoldable pub or_default : List String → List String
or_default [] = default_endpoint ∷ []
or_default (e ∷ es) = e ∷ es

unfoldable pub etcd_endpoints : Config → List String
unfolding split_commas named_parts or_default
etcd_endpoints cfg =
    let parts = split_commas cfg.etcd.endpoint in or_default (named_parts (parts.0 ∷ parts.1))

unfoldable pub first_of : String → List String → String
first_of d [] = d
first_of d (e ∷ es) = e

-- `eps[0]`, of a list that is never empty.
unfoldable pub etcd_first_endpoint : Config → String
unfolding first_of
etcd_first_endpoint cfg = first_of default_endpoint (etcd_endpoints cfg)
