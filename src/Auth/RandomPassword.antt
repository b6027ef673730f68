-- ===== src/Auth/RandomPassword.antt =====
-- The initial password (internal/auth/random_password.go). The random source is a stream of
-- buffers, one for each `rand.Read`: `none` where the read fails.
pub mod Length
pub mod Bias
use Prim.Native.Char.{code}
use etcdmonitor.Prelude.{
  ℕ, zero, suc, ◌+◌, ◌-◌, ◌*◌, ◌%◌, ◌≤◌, ◌<◌, String, ◌≡◌, refl, Bool, true, false, List, [], ◌∷◌,
  ◌++◌, Option, none, some, arith, ltb, leb, ◌==◌, nat_eq, ◌||◌, if◌then◌else◌, length, All,
  Bool-cases, inl, inr, All-append, length-append,
}

-- The code points of an ASCII text.
abbrev codes : String → List ℕ
codes String.[] = []
codes (String.◌∷◌ first rest) = code first ∷ codes rest

abbrev pub initial_password_alphabet : List ℕ
initial_password_alphabet = codes "23456789ABCDEFGHJKLMNPQRSTUVWXYZabcdefghijkmnpqrstuvwxyz"

abbrev pub initial_password_length : ℕ
initial_password_length = 16

-- `byte(256 - (256 % n))`, reduced modulo 256
abbrev pub max_byte : ℕ → ℕ
max_byte n = (256 - 256 % n) % 256

abbrev member : ℕ → List ℕ → Bool
member c [] = false
member c (d ∷ ds) = c == d || member c ds

-- `initialPasswordAlphabet[i]`; the index is in range, see `letter-mem`
letter : List ℕ → ℕ → ℕ
letter [] i = 0
letter (c ∷ cs) zero = c
letter (c ∷ cs) (suc i) = letter cs i

-- One pass over a buffer: bytes from `max_byte` on are rejected.
unfoldable pub take_bytes : List ℕ → List ℕ → List ℕ
unfolding letter
take_bytes [] out = out
take_bytes (b ∷ buf) out =
    let n = length initial_password_alphabet in
    let taken = out ++ letter initial_password_alphabet (b % n) ∷ [] in
    let skip = take_bytes buf out in
    let more = take_bytes buf taken in
    if leb (max_byte n) b
    then skip
    else if leb initial_password_length (length taken)
    then taken
    else more

-- `for len(out) < InitialPasswordLength`, with the reads that the source will give
unfoldable pub fill : List (Option (List ℕ)) → List ℕ → Option (List ℕ)
unfolding take_bytes
fill [] out = if leb initial_password_length (length out) then some out else none
fill (none ∷ reads) out = if leb initial_password_length (length out) then some out else none
fill (some buf ∷ reads) out =
    let more = fill reads (take_bytes buf out) in
    if leb initial_password_length (length out) then some out else more

unfoldable pub generate_initial_password : List (Option (List ℕ)) → Option (List ℕ)
unfolding fill
generate_initial_password reads = fill reads []

-- A character of the alphabet.
abbrev pub IsLetter : ℕ → Type 0
IsLetter c = member c initial_password_alphabet ≡ true
