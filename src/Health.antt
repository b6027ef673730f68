-- ===== src/Health.antt =====
-- `Manager`: which of the configured endpoints can be used (internal/health/manager.go). The
-- replies of etcd to a probe or a `Status` call come from outside.
pub mod Probe
pub mod Status
use etcdmonitor.Prelude.{
  ℕ, suc, ◌+◌, String, Bool, true, false, ◌&&◌, List, [], ◌∷◌, Option, none, some, Result, ok, err,
  ◌==◌, nat_eq, string_eq, if◌then◌else◌,
}

pub record Manager : Type 0 where
  pub all_endpoints : List String
  pub healthy : List String
  pub stopped : Bool

pub record ProbeResult : Type 0 where
  pub index : ℕ
  pub healthy : Bool

-- `healthyMap[i]`, after the results have been received in the order of the list
unfoldable pub healthy_map : List ProbeResult → ℕ → Bool
healthy_map [] i = false
healthy_map (r ∷ rs) i =
    let rest = healthy_map rs i in if r.index == i then (if r.healthy then true else rest) else rest

unfoldable pub collect : (ℕ → Bool) → ℕ → List String → List String
collect healthy i [] = []
collect healthy i (ep ∷ eps) =
    let rest = collect healthy (i + 1) eps in if healthy i then ep ∷ rest else rest

-- `probeAll`, where the goroutines' results arrive in the order of the list.
unfoldable pub probe_all : List String → List ProbeResult → List String
unfolding healthy_map collect
probe_all all_endpoints results = collect (healthy_map results) 0 all_endpoints

pub data HealthError (E : Type 0) : Type 0 where
  all_endpoints_down : List String → HealthError E
  status_error : E → HealthError E

-- `New`, once the TLS configuration is loaded.
unfoldable pub new : {E : Type 0} → List String → List ProbeResult → Result (HealthError E) Manager
new all_eps results =
    let healthy = probe_all all_eps results in
    elim healthy [
      | [] ↦ err (all_endpoints_down all_eps)
      | ep ∷ eps ↦ ok (record { all_endpoints = all_eps; healthy = ep ∷ eps; stopped = false })
    ]

-- What a round of the background check asks of the process.
pub data Outcome : Type 0 where
  go_on : Outcome
  fatal : Outcome

unfoldable pub run_health_check : List ProbeResult → Manager → Outcome × Manager
run_health_check results m =
    let new_healthy = probe_all m.all_endpoints results in
    (elim new_healthy [ [] ↦ fatal | _ ∷ _ ↦ go_on ], record m { healthy = new_healthy })

unfoldable pub contains : List String → String → Bool
contains [] s = false
contains (item ∷ items) s = if item == s then true else contains items s

-- The answer of a call, or what follows its error
abbrev pub or_else : {E F R : Type 0} → Result E R → (E → Result F R) → Result F R
or_else (ok r) k = ok r
or_else (err e) k = k e

-- A loop of `client.Status` over endpoints: the first answer, or the last error.
unfoldable pub first_answer :
    {E R : Type 0} → (String → Result E R) → Option E → List String → Result (Option E) R
first_answer status last [] = err last
first_answer status last (ep ∷ eps) = or_else (status ep) (λ e. first_answer status (some e) eps)

unfoldable pub others : List String → List String → List String
unfolding contains
others eps [] = []
others eps (ep ∷ all) = let rest = others eps all in if contains eps ep then rest else ep ∷ rest

-- The error of the last call, and where there was no endpoint to call AllEndpointsDownError
down_error : {E : Type 0} → List String → Option E → HealthError E
down_error all (some e) = status_error e
down_error all none = all_endpoints_down all

unfoldable pub status_from_healthy :
    {E R : Type 0} → (String → Result E R) → Manager → Result (HealthError E) R
unfolding down_error first_answer others
status_from_healthy status m = or_else (first_answer status none m.healthy) λ last.
    or_else (first_answer status last (others m.healthy m.all_endpoints))
      λ e. err (down_error m.all_endpoints e)

unfoldable pub close : Manager → Manager
close m = record m { stopped = true }
