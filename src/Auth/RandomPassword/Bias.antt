-- ===== src/Auth/RandomPassword/Bias.antt =====
-- Rejection removes the bias of `%`.
use etcdmonitor.Prelude.{
  ℕ, zero, suc, ◌≡◌, refl, Bool, true, false, List, [], ◌∷◌, arith, ◌==◌, nat_eq, nat_beq_iff, ◌&&◌,
  Bool-cases, inl, inr,
}
use etcdmonitor.Storage.Table.{count}
use etcdmonitor.Auth.RandomPassword.{initial_password_alphabet, member, take_bytes, IsLetter}

-- The bytes below a bound, from the highest.
unfoldable pub bytes_below : ℕ → List ℕ
bytes_below zero = []
bytes_below (suc n) = n ∷ bytes_below n

-- A byte that a pass turns into the character.
unfoldable pub yields : ℕ → ℕ → Bool
yields c b = elim (take_bytes (b ∷ []) []) [ [] ↦ false | d ∷ _ ↦ d == c ]

every : (ℕ → Bool) → List ℕ → Bool
every p [] = true
every p (x ∷ xs) = p x && every p xs

every-member :
    (p : ℕ → Bool) (xs : List ℕ) (x : ℕ) → every p xs ≡ true → member x xs ≡ true → p x ≡ true
unfolding every
every-member p [] x h m = absurd (ground arith)
every-member p (y ∷ xs) x h m = elim (Bool-cases (x == y)) [
  | inl same ↦ let e : x ≡ y = ground arith in rw e (ground arith)
  | inr other ↦ every-member p xs x (ground arith) (ground arith)
]

four_each : every (λ c. count (yields c) (bytes_below 256) == 4) initial_password_alphabet ≡ true
unfolding every count yields bytes_below take_bytes
four_each = refl

-- Each letter of the alphabet is the result of exactly four of the 256 values of a byte, so all
-- letters are equally likely.
pub letters_unbiased : (c : ℕ) → IsLetter c → count (yields c) (bytes_below 256) ≡ 4
letters_unbiased c h = (nat_beq_iff (count (yields c) (bytes_below 256)) 4).0 (
    every-member (λ d. count (yields d) (bytes_below 256) == 4) initial_password_alphabet c
      four_each h)
