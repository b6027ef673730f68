-- ===== src/Examples/Keys.antt =====
-- A restart, with a cipher that only adds a byte.
use etcdmonitor.Prelude.{
  ℕ, ◌≡◌, refl, false, List, [], ◌∷◌, Option, none, some, ok, length, ◌+◌, arith,
}
use etcdmonitor.Tabs.Keys.{
  Aead, KeyOs, KeyState, key_written, decrypt, encrypt, new_file_key_manager,
}
use etcdmonitor.Tabs.Keys.Restart.{restart_decrypts}

abbrev cut_first : List ℕ → Option (List ℕ)
cut_first [] = none
cut_first (x ∷ xs) = some xs

one_more : (key nonce plain : List ℕ) → length (0 ∷ plain) ≡ length plain + 1
one_more key nonce plain = omega arith

abbrev byte_cipher : Aead
byte_cipher = record {
  overhead = 1;
  seal = λ key nonce plain. 0 ∷ plain;
  unseal = λ key nonce text. cut_first text;
  length-seal = one_more;
  unseal-seal = λ key nonce plain. refl;
}

abbrev twelve : List ℕ
twelve = 1 ∷ 2 ∷ 3 ∷ 4 ∷ 5 ∷ 6 ∷ 7 ∷ 8 ∷ 9 ∷ 10 ∷ 11 ∷ 12 ∷ []

abbrev key_bytes : List ℕ
key_bytes =
    1 ∷ 2 ∷ 3 ∷ 4 ∷ 5 ∷ 6 ∷ 7 ∷ 8 ∷ 1 ∷ 2 ∷ 3 ∷ 4 ∷ 5 ∷ 6 ∷ 7 ∷ 8 ∷ 1 ∷ 2 ∷ 3 ∷ 4 ∷ 5 ∷ 6 ∷ 7 ∷ 8
    ∷ 1 ∷ 2 ∷ 3 ∷ 4 ∷ 5 ∷ 6 ∷ 7 ∷ 8 ∷ []

abbrev working : KeyOs
working = record { read_fails = false; random = some key_bytes; write = key_written }

abbrev no_file : KeyState
no_file = record { file = none; kek = none }

restart_decrypts_example :
    decrypt byte_cipher
      (1 ∷ 2 ∷ 3 ∷ 4 ∷ 5 ∷ 6 ∷ 7 ∷ 8 ∷ 9 ∷ 10 ∷ 11 ∷ 12 ∷ 0 ∷ 77 ∷ [])
      (new_file_key_manager working (new_file_key_manager working no_file).1).1
    ≡ ok (77 ∷ [])
unfolding encrypt new_file_key_manager
restart_decrypts_example =
    restart_decrypts byte_cipher working working no_file twelve (77 ∷ [])
      (1 ∷ 2 ∷ 3 ∷ 4 ∷ 5 ∷ 6 ∷ 7 ∷ 8 ∷ 9 ∷ 10 ∷ 11 ∷ 12 ∷ 0 ∷ 77 ∷ []) refl refl refl refl
