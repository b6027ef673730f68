-- ===== src/Config/Endpoints/Trim.antt =====
-- Trimming: it is settled after one time, and brings no comma in.
use Prim.Native.Char.{code}
use etcdmonitor.Prelude.{
  String, ◌≡◌, refl, ap, ◌∙◌, false, ◌&&◌, ◌==◌, nat_eq, string_eq, Bool-cases, inl, inr,
}
use etcdmonitor.Config.Endpoints.{is_space, trim_left, trim_right, trim_space}

pub trim_right-twice : (s : String) → trim_right (trim_right s) ≡ trim_right s
unfolding trim_right
trim_right-twice String.[] = refl
trim_right-twice (String.◌∷◌ c s) = elim (Bool-cases (is_space c && (trim_right s == ""))) [
  | inl e ↦ rw e refl
  | inr n ↦ rw n (rw (trim_right-twice s) (rw n refl))
]

trim_left-settled : (s : String) → trim_left (trim_right (trim_left s)) ≡ trim_right (trim_left s)
unfolding trim_left trim_right
trim_left-settled String.[] = refl
trim_left-settled (String.◌∷◌ c s) = elim (Bool-cases (is_space c)) [
  | inl e ↦ rw e (trim_left-settled s)
  | inr n ↦ rw n (rw n (rw n refl))
]

pub trim_space-twice : (s : String) → trim_space (trim_space s) ≡ trim_space s
unfolding trim_space
trim_space-twice s = ap trim_right (trim_left-settled s) ∙ trim_right-twice (trim_left s)

-- No character of a text is a comma.
abbrev pub NoComma : String → Type 0
NoComma String.[] = Unit
NoComma (String.◌∷◌ c s) = ((code c == 44) ≡ false) × NoComma s

trim_left-NoComma : (s : String) → NoComma s → NoComma (trim_left s)
unfolding trim_left
trim_left-NoComma String.[] h = tt
trim_left-NoComma (String.◌∷◌ c s) h = elim (Bool-cases (is_space c)) [
  | inl e ↦ rw e (trim_left-NoComma s h.1)
  | inr n ↦ rw n h
]

trim_right-NoComma : (s : String) → NoComma s → NoComma (trim_right s)
unfolding trim_right
trim_right-NoComma String.[] h = tt
trim_right-NoComma (String.◌∷◌ c s) h = elim (Bool-cases (is_space c && (trim_right s == ""))) [
  | inl e ↦ rw e tt
  | inr n ↦ rw n (h.0, trim_right-NoComma s h.1)
]

pub trim_space-NoComma : (s : String) → NoComma s → NoComma (trim_space s)
unfolding trim_space
trim_space-NoComma s h = trim_right-NoComma (trim_left s) (trim_left-NoComma s h)
