-- ===== src/Tabs/Keys.antt =====
-- The key that protects tab passwords (internal/kvmanager/tabs/keys.go). AES-GCM comes from
-- outside; a key is installed by being kept, since a cipher is made of each 32-byte key. The
-- directory is given, and the tightening of file permissions, which changes no content, is left out.
pub mod Restart
use etcdmonitor.Prelude.{
  ℕ, ◌+◌, ◌≡◌, Bool, List, [], ◌∷◌, ◌++◌, Option, none, some, Result, ok, err, ltb, ◌==◌, nat_eq,
  if◌then◌else◌, length, take, drop,
}

abbrev pub kek_size : ℕ
kek_size = 32

abbrev pub nonce_size : ℕ
nonce_size = 12

-- `Seal` and `Open` of AES-GCM under a key and a nonce, without the nonce before the output.
pub record Aead : Type 0 where
  pub overhead : ℕ
  pub seal : List ℕ → List ℕ → List ℕ → List ℕ
  pub unseal : List ℕ → List ℕ → List ℕ → Option (List ℕ)
  pub length-seal :
      (key nonce plain : List ℕ) → length (seal key nonce plain) ≡ length plain + overhead
  pub unseal-seal :
      (key nonce plain : List ℕ) → unseal key nonce (seal key nonce plain) ≡ some plain

pub data KeyError : Type 0 where
  kek_missing cipher_invalid random_failed read_failed dir_failed write_failed : KeyError

-- The content of `kv_tabs.key`, and the key of the running process.
pub record KeyState : Type 0 where
  pub file : Option (List ℕ)
  pub kek : Option (List ℕ)

-- How the calls into the system end. A read that fails for another reason than a missing file
-- is `read_fails`; a failed write may leave some content.
pub data KeyWrite : Type 0 where
  key_written : KeyWrite
  key_dir_failed : KeyWrite
  key_write_failed : List ℕ → KeyWrite

pub record KeyOs : Type 0 where
  pub read_fails : Bool
  pub random : Option (List ℕ)
  pub write : KeyWrite

install_key : List ℕ → KeyState → KeyState
install_key kek s = record s { kek = some kek }

save_key : KeyWrite → List ℕ → KeyState → Result KeyError (Unit {0}) × KeyState
unfolding install_key
save_key key_written kek s = (ok tt, install_key kek (record s { file = some kek }))
save_key key_dir_failed kek s = (err dir_failed, s)
save_key (key_write_failed left) kek s = (err write_failed, record s { file = some left })

-- `random` is what `io.ReadFull` gives, 32 bytes.
unfoldable pub generate_and_save :
    KeyWrite → Option (List ℕ) → KeyState → Result KeyError (Unit {0}) × KeyState
unfolding save_key
generate_and_save w none s = (err random_failed, s)
generate_and_save w (some kek) s = save_key w kek s

load_file : KeyOs → Option (List ℕ) → KeyState → Result KeyError (Unit {0}) × KeyState
unfolding generate_and_save install_key
load_file os none s = generate_and_save os.write os.random s
load_file os (some content) s =
    if length content == kek_size then (ok tt, install_key content s) else (err kek_missing, s)

unfoldable pub load_or_create : KeyOs → KeyState → Result KeyError (Unit {0}) × KeyState
unfolding load_file
load_or_create os s = if os.read_fails then (err read_failed, s) else load_file os s.file s

-- A new process: what it keeps is the file.
unfoldable pub new_file_key_manager : KeyOs → KeyState → Result KeyError (Unit {0}) × KeyState
unfolding load_or_create
new_file_key_manager os s = load_or_create os (record s { kek = none })

module _ (a : Aead) where
  sealed : Option (List ℕ) → Option (List ℕ) → List ℕ → Result KeyError (List ℕ)
  sealed none random plain = err kek_missing
  sealed (some kek) none plain = err random_failed
  sealed (some kek) (some nonce) plain = ok (nonce ++ a.seal kek nonce plain)

  -- `random` is the nonce that the source gives, 12 bytes.
  unfoldable pub encrypt : Option (List ℕ) → List ℕ → KeyState → Result KeyError (List ℕ)
  unfolding sealed
  encrypt random [] s = ok []
  encrypt random (b ∷ bs) s = sealed s.kek random (b ∷ bs)

  unsealed : Option (List ℕ) → Result KeyError (List ℕ)
  unsealed none = err cipher_invalid
  unsealed (some plain) = ok plain

  opened : Option (List ℕ) → List ℕ → Result KeyError (List ℕ)
  unfolding unsealed
  opened none cipher = err kek_missing
  opened (some kek) cipher =
      if ltb (length cipher) (nonce_size + a.overhead)
      then err cipher_invalid
      else unsealed (a.unseal kek (take nonce_size cipher) (drop nonce_size cipher))

  unfoldable pub decrypt : List ℕ → KeyState → Result KeyError (List ℕ)
  unfolding opened
  decrypt [] s = ok []
  decrypt (b ∷ bs) s = opened s.kek (b ∷ bs)
