-- ===== src/Auth/RandomPassword/Length.antt =====
-- Rejection sampling gives 16 letters of the alphabet, and enough random bytes suffice for it.
use etcdmonitor.Prelude.{
  ℕ, zero, suc, ◌+◌, ◌%◌, ◌≤◌, ◌<◌, ◌≡◌, Bool, true, List, [], ◌∷◌, ◌++◌, Option, none, some, arith,
  ltb, leb, nat_eq, ◌⊎◌, map, if◌then◌else◌, length, All, Bool-cases, inl, inr, All-append,
  length-append,
}
use etcdmonitor.Auth.RandomPassword.{
  initial_password_alphabet, initial_password_length, max_byte, letter, member, take_bytes, fill,
  generate_initial_password, IsLetter,
}

letter-member : (cs : List ℕ) (i : ℕ) → i < length cs → member (letter cs i) cs ≡ true
unfolding letter
letter-member [] i h = absurd (omega arith)
letter-member (c ∷ cs) zero h = ground arith
letter-member (c ∷ cs) (suc i) h = ground (arith, letter-member cs i)

IsLetter-letter : (b : ℕ) → IsLetter (letter initial_password_alphabet (b % 56))
IsLetter-letter b = letter-member initial_password_alphabet (b % 56) (omega arith)

-- What the loops keep of the characters so far.
abbrev Partial : List ℕ → Type 0
Partial out = (length out ≤ 16) × All IsLetter out

take_bytes-Partial :
    (buf out : List ℕ) → length out < 16 → All IsLetter out → Partial (take_bytes buf out)
unfolding take_bytes
take_bytes-Partial [] out h a = (omega arith, a)
take_bytes-Partial (b ∷ buf) out h a =
    let c = letter initial_password_alphabet (b % 56) in
    let size = length-append out (c ∷ []) in
    let good = All-append IsLetter out (c ∷ []) a (IsLetter-letter b, tt) in
    elim (Bool-cases (leb 224 b)) [
      | inl over ↦ rw over (take_bytes-Partial buf out h a)
      | inr under ↦ elim (Bool-cases (leb 16 (length (out ++ c ∷ [])))) [
        | inl full ↦ rw (under, full) (omega (arith, size), good)
        | inr room ↦
            rw (under, room) (take_bytes-Partial buf (out ++ c ∷ []) (ground (arith, size)) good)
      ]
    ]

-- An accepted byte.
abbrev pub is_accepted : ℕ → Bool
is_accepted b = ltb b (max_byte (length initial_password_alphabet))

unfoldable pub accepted : List ℕ → ℕ
accepted [] = 0
accepted (b ∷ buf) = (if is_accepted b then 1 else 0) + accepted buf

unfoldable pub accepted_total : List (List ℕ) → ℕ
accepted_total [] = 0
accepted_total (buf ∷ bufs) = accepted buf + accepted_total bufs

-- No accepted byte is wasted before the password is complete.
length-take_bytes :
    (buf out : List ℕ)
    → length out < 16
    → (length out + accepted buf ≤ length (take_bytes buf out)) ⊎ (length (take_bytes buf out) ≡ 16)
unfolding take_bytes accepted
length-take_bytes [] out h = inl (omega arith)
length-take_bytes (b ∷ buf) out h =
    let c = letter initial_password_alphabet (b % 56) in
    let size = length-append out (c ∷ []) in
    elim (Bool-cases (leb 224 b)) [
      | inl over ↦ let more = length-take_bytes buf out h in rw over (ground (arith, more))
      | inr under ↦ elim (Bool-cases (leb 16 (length (out ++ c ∷ [])))) [
        | inl full ↦ rw (under, full) (inr (ground (arith, size)))
        | inr room ↦
            let more = length-take_bytes buf (out ++ c ∷ []) (ground (arith, size)) in
            rw (under, room) (ground (arith, more, size))
      ]
    ]

finished :
    (out pw : List ℕ)
    → Partial out
    → 16 ≤ length out
    → some out ≡ some pw
    → (length pw ≡ 16) × All IsLetter pw
finished out pw p full h = let e : out ≡ pw = cc in rw (← e) (omega (arith, p.0), p.1)

fill_lem :
    (reads : List (Option (List ℕ))) (out pw : List ℕ)
    → Partial out
    → fill reads out ≡ some pw
    → (length pw ≡ 16) × All IsLetter pw
unfolding fill
fill_lem [] out pw p h = elim (Bool-cases (leb 16 (length out))) [
  | inl full ↦ finished out pw p (ground arith) (rw full at h)
  | inr room ↦ absurd (ground arith)
]
fill_lem (none ∷ reads) out pw p h = elim (Bool-cases (leb 16 (length out))) [
  | inl full ↦ finished out pw p (ground arith) (rw full at h)
  | inr room ↦ absurd (ground arith)
]
fill_lem (some buf ∷ reads) out pw p h = elim (Bool-cases (leb 16 (length out))) [
  | inl full ↦ finished out pw p (ground arith) (rw full at h)
  | inr room ↦
      fill_lem reads (take_bytes buf out) pw (take_bytes-Partial buf out (ground arith) p.1)
        (rw room at h)
]

-- A generated password has 16 characters, each a letter of the alphabet.
generate_initial_password_letters :
    (reads : List (Option (List ℕ))) (pw : List ℕ)
    → generate_initial_password reads ≡ some pw
    → (length pw ≡ initial_password_length) × All IsLetter pw
unfolding generate_initial_password
generate_initial_password_letters reads pw h = fill_lem reads [] pw (omega arith, tt) h

fill_total :
    (bufs : List (List ℕ)) (out : List ℕ)
    → 16 ≤ length out + accepted_total bufs
    → (pw : List ℕ) × (fill (map some bufs) out ≡ some pw)
unfolding fill accepted_total
fill_total [] out h = (out, ground arith)
fill_total (buf ∷ bufs) out h = elim (Bool-cases (leb 16 (length out))) [
  | inl full ↦ (out, rw full)
  | inr room ↦
      let step = length-take_bytes buf out (ground arith) in
      let (pw, e) = fill_total bufs (take_bytes buf out) (ground (arith, step)) in (pw, rw room e)
]

-- The loop ends: buffers that hold 16 accepted bytes between them give a password, which has 16
-- characters, each a letter of the alphabet.
pub generate_initial_password_total :
    (bufs : List (List ℕ))
    → initial_password_length ≤ accepted_total bufs
    → (pw : List ℕ) × (generate_initial_password (map some bufs) ≡ some pw)
      × (length pw ≡ initial_password_length)
      × All IsLetter pw
unfolding generate_initial_password
generate_initial_password_total bufs h =
    let (pw, e) = fill_total bufs [] (omega arith) in
    let good = generate_initial_password_letters (map some bufs) pw e in (pw, e, good.0, good.1)
