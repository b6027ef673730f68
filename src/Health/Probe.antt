-- ===== src/Health/Probe.antt =====
-- The list of usable endpoints does not depend on the order in which the probes end.
use mathlib.Core.List.{Permᴰ}
use etcdmonitor.Prelude.{
  ℕ, ◌+◌, ◌≤◌, ◌<◌, ◌≡◌, refl, ◌∙◌, String, Bool, false, List, [], ◌∷◌, arith, nat_eq, string_eq,
  nat_beq_iff, ==_refl,
}
use etcdmonitor.Storage.Table.{select}
use etcdmonitor.Health.{ProbeResult, healthy_map, collect, probe_all}

-- The results of the probes of a list of endpoints, numbered from i.
abbrev pub probes : (String → Bool) → ℕ → List String → List ProbeResult
probes up i [] = []
probes up i (ep ∷ eps) = record { index = i; healthy = up ep } ∷ probes up (i + 1) eps

same_map :
    (r q : ProbeResult) (rs : List ProbeResult) (i : ℕ)
    → r ≡ q
    → healthy_map (r ∷ rs) i ≡ healthy_map (q ∷ rs) i
same_map r q rs i e = rw e refl

swapped :
    (r q : ProbeResult) (rs : List ProbeResult) (i : ℕ)
    → healthy_map (r ∷ q ∷ rs) i ≡ healthy_map (q ∷ r ∷ rs) i
unfolding healthy_map
swapped r q rs i = ground arith

cons_map :
    (r : ProbeResult) (rs qs : List ProbeResult) (i : ℕ)
    → healthy_map rs i ≡ healthy_map qs i
    → healthy_map (r ∷ rs) i ≡ healthy_map (r ∷ qs) i
unfolding healthy_map
cons_map r rs qs i e = rw e refl

healthy_map-perm :
    (i : ℕ) {rs qs : List ProbeResult} → Permᴰ rs qs → healthy_map rs i ≡ healthy_map qs i
healthy_map-perm i Permᴰ.nil = refl
healthy_map-perm i (Permᴰ.cons {a} {b} {l₁ = rs} {l₂ = qs} e p) =
    cons_map a rs qs i (healthy_map-perm i p) ∙ same_map a b qs i e
healthy_map-perm i (Permᴰ.swap {a} {b} {l} e d) =
    swapped a b l i ∙ cons_map b _ _ i (same_map a _ l i e) ∙ same_map b _ _ i d
healthy_map-perm i (Permᴰ.trans p q) = healthy_map-perm i p ∙ healthy_map-perm i q

-- Earlier numbers have no result.
healthy_map-before :
    (up : String → Bool) (i j : ℕ) (eps : List String)
    → j < i
    → healthy_map (probes up i eps) j ≡ false
unfolding healthy_map
healthy_map-before up i j [] l = refl
healthy_map-before up i j (ep ∷ eps) l =
    ground (arith, nat_beq_iff i j, l, healthy_map-before up (i + 1) j eps (omega arith))

collect-ext :
    (f g : ℕ → Bool) (i : ℕ) (eps : List String)
    → ((j : ℕ) → i ≤ j → f j ≡ g j)
    → collect f i eps ≡ collect g i eps
unfolding collect
collect-ext f g i [] h = refl
collect-ext f g i (ep ∷ eps) h =
    ground (arith, h i (omega arith), collect-ext f g (i + 1) eps (λ j l. h j (omega arith)))

collect-select :
    (up : String → Bool) (i : ℕ) (eps : List String)
    → collect (healthy_map (probes up i eps)) i eps ≡ select up eps
unfolding collect select healthy_map
collect-select up i [] = refl
collect-select up i (ep ∷ eps) =
    let m = healthy_map (probes up i (ep ∷ eps)) in
    ground (
      arith,
      ==_refl i,
      healthy_map-before up (i + 1) i eps (omega arith),
      collect-ext m (healthy_map (probes up (i + 1) eps)) (i + 1) eps
          (λ j l. ground (arith, nat_beq_iff i j, l)),
      collect-select up (i + 1) eps,
    )

-- In whatever order the results of the probes arrive, the usable endpoints are those whose probe
-- succeeded, in the order of the configuration.
pub probe_all-select :
    (up : String → Bool) (eps : List String) (results : List ProbeResult)
    → Permᴰ results (probes up 0 eps)
    → probe_all eps results ≡ select up eps
unfolding probe_all
probe_all-select up eps results p =
    collect-ext (healthy_map results) (healthy_map (probes up 0 eps)) 0 eps
      (λ j _. healthy_map-perm j p)
    ∙ collect-select up 0 eps
