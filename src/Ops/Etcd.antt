-- ===== src/Ops/Etcd.antt =====
-- The calls of etcd that internal/ops/handler.go makes, and what it reads from a request.
use Prim.Native.Char.{code}
use etcdmonitor.Prelude.{
  ℕ, ◌+◌, ◌-◌, ◌*◌, ◌^◌, String, Bool, true, false, ◌&&◌, ◌||◌, List, Option, none, some, Result,
  ltb, leb, ◌==◌, nat_eq, string_eq, if◌then◌else◌,
}
use etcdmonitor.Kv.Client.{ClientConfig}

pub data AlarmType : Type 0 where
  no_space corrupt : AlarmType

pub record Alarm : Type 0 where
  pub member_id : ℕ
  pub alarm : AlarmType

pub record OpsStatus : Type 0 where
  pub revision : ℕ
  pub leader : ℕ

-- etcd's calls, on a state of the clusters. A snapshot is copied to the client: how many bytes were
-- written, and the error of the copy.
pub record Maintenance (W : Type 0) : Type 0 where
  pub new_client : ClientConfig → Option String
  pub defragment : ClientConfig → String → W → Result String (Unit {0}) × W
  pub snapshot : ClientConfig → W → Result String (ℕ × Option String)
  pub alarm_list : ClientConfig → W → Result String (List Alarm)
  pub alarm_disarm : ClientConfig → ℕ → AlarmType → W → Result String (Unit {0}) × W
  pub move_leader : ClientConfig → ℕ → W → Result String (Unit {0}) × W
  pub status : ClientConfig → W → String → Result String OpsStatus
  pub member_list : ClientConfig → W → Result String (List (ℕ × List String))
  pub hash_kv : ClientConfig → W → String → ℕ → Result String (ℕ × ℕ)
  pub compact : ClientConfig → ℕ → Bool → W → Result String (Unit {0}) × W

-- `strconv.ParseUint(s, 10, 64)`: the value, and whether there is no error. A value that is too
-- large is the largest one, and a text that is no number is 0.
unfoldable pub digits : ℕ → String → Option ℕ
digits n String.[] = some n
digits n (String.◌∷◌ c s) =
    let later = digits (n * 10 + (code c - 48)) s in
    if leb 48 (code c) && leb (code c) 57 then later else none

unfoldable pub parse_uint : String → ℕ × Bool
unfolding digits
parse_uint s = elim (if s == "" then none else digits 0 s) [
  | none ↦ (0, false)
  | some n ↦ if ltb n (2 ^ 64) then (n, true) else (2 ^ 64 - 1, false)
]

unfoldable pub alarm_type_of : String → AlarmType
alarm_type_of name =
    if (name == "CORRUPT") || (name == "AlarmType_CORRUPT") then corrupt else no_space
