-- ===== src/Kv/Split.antt =====
-- Keys as paths: `strings.Split`, and the parts that are not empty.
pub mod Prefix
use Prim.Native.String
use etcdmonitor.Prelude.{
  ℕ, zero, suc, ◌-◌, String, Bool, true, false, List, [], ◌∷◌, ◌==◌, string_eq, if◌then◌else◌,
}
use etcdmonitor.Config.Endpoints.{has_prefix}

unfoldable pub characters : String → ℕ
characters String.[] = 0
characters (String.◌∷◌ c s) = suc (characters s)

-- `strings.Split(s, sep)`, its first part and the others, once `skip` characters of a separator
-- are passed. The separator is not empty.
unfoldable pub split_after : String → ℕ → String → String × List String
unfolding has_prefix characters
split_after sep skip String.[] = (String.[], [])
split_after sep (suc skip) (String.◌∷◌ c s) = split_after sep skip s
split_after sep zero (String.◌∷◌ c s) =
    let cut = split_after sep (characters sep - 1) s in
    let on = split_after sep zero s in
    if has_prefix sep (String.◌∷◌ c s)
    then (String.[], cut.0 ∷ cut.1)
    else (String.◌∷◌ c on.0, on.1)

unfoldable pub not_empty : List String → List String
not_empty [] = []
not_empty (p ∷ ps) = let rest = not_empty ps in if p == "" then rest else p ∷ rest

-- The segments of a key.
unfoldable pub segments : String → String → List String
unfolding split_after not_empty
segments sep key = let parts = split_after sep zero key in not_empty (parts.0 ∷ parts.1)
