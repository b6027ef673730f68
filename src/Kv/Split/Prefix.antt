-- ===== src/Kv/Split/Prefix.antt =====
-- A key has at least the segments of what it starts with, where the separator is one character.
use Prim.Native.Char.{code, Char}
use etcdmonitor.Prelude.{
  ℕ, zero, ◌+◌, ◌≤◌, ◌≡◌, ◌≢◌, refl, String, true, false, List, ◌∷◌, ◌==◌, nat_eq, string_eq,
  nat_beq_iff, eq_iff, Bool-cases, inl, inr, arith, length,
}
use etcdmonitor.Config.Endpoints.{has_prefix}
use etcdmonitor.Kv.Split.{split_after, not_empty, segments}

abbrev pub one_character : Char → String
one_character c = String.◌∷◌ c String.[]

-- Whether a part is counted
abbrev weight : String → ℕ
weight String.[] = 0
weight (String.◌∷◌ c s) = 1

longer : (c : Char) (s : String) → String.◌∷◌ c s ≢ String.[]
longer c s e = cc

pub full : (c : Char) (s : String) → (String.◌∷◌ c s == "") ≡ false
full c s = elim (Bool-cases (String.◌∷◌ c s == "")) [
  | inl e ↦ absurd (longer c s ((eq_iff (String.◌∷◌ c s) "").0 e))
  | inr n ↦ n
]

length-not_empty :
    (p : String) (ps : List String) → length (not_empty (p ∷ ps)) ≡ weight p + length (not_empty ps)
unfolding not_empty
length-not_empty String.[] ps = omega arith
length-not_empty (String.◌∷◌ c s) ps = rw (full c s) (omega arith)

not_both : false ≡ true → ⊥
not_both h = cc

module _ (c : Char) where
  abbrev parts : String → String × List String
  parts s = split_after (one_character c) zero s

  parts_sep :
      (d : Char) (s : String)
      → (code c == code d) ≡ true
      → parts (String.◌∷◌ d s) ≡ (String.[], (parts s).0 ∷ (parts s).1)
  unfolding split_after
  parts_sep d s e = rw e refl

  parts_other :
      (d : Char) (s : String)
      → (code c == code d) ≡ false
      → parts (String.◌∷◌ d s) ≡ (String.◌∷◌ d (parts s).0, (parts s).1)
  unfolding split_after
  parts_other d s e = rw e refl

  -- The first part of a longer key is empty only if that of the shorter one is, and the other
  -- parts are as many or more.
  abbrev Covers : String × List String → String × List String → Type 0
  Covers short long =
      (weight short.0 ≤ weight long.0) × (length (not_empty short.1) ≤ length (not_empty long.1))

  longer_parts :
      (d e : Char) (k s : String)
      → code d ≡ code e
      → Covers (parts k) (parts s)
      → Covers (parts (String.◌∷◌ d k)) (parts (String.◌∷◌ e s))
  longer_parts d e k s eq h = elim (Bool-cases (code c == code d)) [
    | inl cut ↦ rw (parts_sep d k cut) (
        rw (parts_sep e s (rw eq at cut)) (
          omega arith,
          omega (
            arith,
            length-not_empty (parts k).0 (parts k).1,
            length-not_empty (parts s).0 (parts s).1,
            h.0,
            h.1,
          ),
        ))
    | inr on ↦ rw (parts_other d k on) (rw (parts_other e s (rw eq at on)) (omega arith, h.1))
  ]

  parts-Covers : (k s : String) → has_prefix k s ≡ true → Covers (parts k) (parts s)
  unfolding has_prefix split_after not_empty
  parts-Covers String.[] s h = (omega arith, omega arith)
  parts-Covers (String.◌∷◌ d k) String.[] h = absurd (not_both h)
  parts-Covers (String.◌∷◌ d k) (String.◌∷◌ e s) h = elim (Bool-cases (code d == code e)) [
    | inl same ↦
        longer_parts d e k s ((nat_beq_iff (code d) (code e)).0 same)
          (parts-Covers k s (rw same at h))
    | inr other ↦ absurd (not_both (rw other at h))
  ]

  -- Fewer segments in what a key starts with
  pub segments-prefix :
      (k s : String)
      → has_prefix k s ≡ true
      → length (segments (one_character c) k) ≤ length (segments (one_character c) s)
  unfolding segments
  segments-prefix k s h =
      let e = parts-Covers k s h in
      omega (
        arith,
        length-not_empty (parts k).0 (parts k).1,
        length-not_empty (parts s).0 (parts s).1,
        e.0,
        e.1,
      )
