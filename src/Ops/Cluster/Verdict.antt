-- ===== src/Ops/Cluster/Verdict.antt =====
-- When a check of the hashes says that the members agree.
use etcdmonitor.Prelude.{
  ℕ, ◌≡◌, ◌≢◌, refl, sym, ◌∙◌, true, false, List, [], ◌∷◌, ◌==◌, nat_eq, string_eq, Bool-cases, inl,
  inr, eq_iff, nat_beq_iff, All, ◌↔◌,
}
use etcdmonitor.Ops.{HashResult}
use etcdmonitor.Ops.Cluster.{all_equal, consistent}

-- One hash is the hash of every result without an error.
abbrev pub Has : ℕ → HashResult → Type 0
Has hash r = r.error ≡ "" → r.hash ≡ hash

abbrev pub Agree : List HashResult → Type 0
Agree rs = (hash : ℕ) × All (Has hash) rs

false-true : false ≢ true
false-true q = cc

all_equal-All : (hash : ℕ) (rs : List HashResult) → all_equal hash rs ≡ true → All (Has hash) rs
all_equal-All hash [] h = tt
all_equal-All hash (r ∷ rs) h = elim (Bool-cases (r.error == "")) [
  | inl fine ↦ elim (Bool-cases (r.hash == hash)) [
    | inl same ↦
        (λ _. (nat_beq_iff r.hash hash).0 same, all_equal-All hash rs (rw (fine, same) at h))
    | inr other ↦ absurd (false-true (rw (fine, other) at h))
  ]
  | inr bad ↦ (
    λ e. absurd (false-true (sym bad ∙ (eq_iff r.error "").1 e)),
    all_equal-All hash rs (rw bad at h),
  )
]

All-all_equal : (hash : ℕ) (rs : List HashResult) → All (Has hash) rs → all_equal hash rs ≡ true
All-all_equal hash [] a = refl
All-all_equal hash (r ∷ rs) a =
    let rest = All-all_equal hash rs a.1 in
    elim (Bool-cases (r.error == "")) [
      | inl fine ↦
          rw fine (rw ((nat_beq_iff r.hash hash).1 (a.0 ((eq_iff r.error "").0 fine))) rest)
      | inr bad ↦ rw bad rest
    ]

-- The verdict is that the members are consistent exactly when one hash is the hash of every member
-- that answered without an error; members that did not answer have no say.
pub consistent-Agree : (rs : List HashResult) → (consistent rs ≡ true) ↔ Agree rs
unfolding consistent
consistent-Agree [] = (λ h. (0, tt), λ a. refl)
consistent-Agree (r ∷ rs) =
    let rest = consistent-Agree rs in
    elim (Bool-cases (r.error == "")) [
      | inl fine ↦ rw fine (
        λ h. (r.hash, ((λ e. refl), all_equal-All r.hash rs h)),
        λ a. first_hash a ((eq_iff r.error "").0 fine),
      )
      | inr bad ↦
          rw bad (λ h. let a = rest.0 h in (a.0, (skipped a.0 bad, a.1)), λ a. rest.1 (a.0, a.1.1))
    ]
  where
    first_hash : Agree (r ∷ rs) → r.error ≡ "" → all_equal r.hash rs ≡ true
    first_hash a e = rw (a.1.0 e) (All-all_equal a.0 rs a.1.1)

    skipped : (hash : ℕ) → (r.error == "") ≡ false → Has hash r
    skipped hash bad e = absurd (false-true (sym bad ∙ (eq_iff r.error "").1 e))
