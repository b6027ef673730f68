-- ===== src/Tabs/Keys/Restart.antt =====
-- A password that was stored is readable after a restart.
use etcdmonitor.Prelude.{
  ℕ, ◌+◌, ◌≡◌, ◌≢◌, refl, ap, sym, ◌∙◌, false, List, [], ◌∷◌, ◌++◌, Option, none, some, Result, ok,
  err, ltb, ◌==◌, nat_eq, length, take, drop, take-append, drop-append, length-append, arith,
  Bool-cases, inl, inr,
}
use etcdmonitor.Tabs.Keys.{
  Aead, KeyError, KeyState, KeyOs, KeyWrite, key_written, key_dir_failed, key_write_failed,
  kek_missing, read_failed, random_failed, dir_failed, write_failed, kek_size, nonce_size, save_key,
  generate_and_save, load_file, load_or_create, new_file_key_manager, install_key, sealed, encrypt,
  unsealed, opened, decrypt,
}

same_text : (x y : List ℕ) (r : Result KeyError (List ℕ)) → r ≡ ok x → r ≡ ok y → y ≡ x
same_text x y r e f = cc

module _ (a : Aead) where
  -- Under one key, the bytes that were sealed are what is opened.
  opened-sealed :
      (kek nonce plain : List ℕ)
      → length nonce ≡ nonce_size
      → opened a (some kek) (nonce ++ a.seal kek nonce plain) ≡ ok plain
  unfolding opened unsealed
  opened-sealed kek nonce plain size =
      let payload = a.seal kek nonce plain in
      let cipher = nonce ++ payload in
      let long : ltb (length cipher) (nonce_size + a.overhead) ≡ false =
        ground (arith, length-append nonce payload, a.length-seal kek nonce plain, size) in
      rw long (
        ap (unsealed a) (
          ap (λ n. a.unseal kek (take n cipher) (drop n cipher)) (sym size)
          ∙ ap (λ n. a.unseal kek n (drop (length nonce) cipher)) (take-append nonce payload)
          ∙ ap (a.unseal kek nonce) (drop-append nonce payload)
          ∙ a.unseal-seal kek nonce plain))

  -- The nonce is not empty, so a sealed text is not the empty one.
  decrypt-sealed :
      (kek nonce plain : List ℕ) (s : KeyState)
      → length nonce ≡ nonce_size
      → s.kek ≡ some kek
      → decrypt a (nonce ++ a.seal kek nonce plain) s ≡ ok plain
  unfolding decrypt
  decrypt-sealed kek [] plain s size has = absurd (omega (arith, size))
  decrypt-sealed kek (b ∷ nonce) plain s size has =
      ap (λ k. opened a k (b ∷ nonce ++ a.seal kek (b ∷ nonce) plain)) has
      ∙ opened-sealed kek (b ∷ nonce) plain size

  -- What a process encrypts, a process that has the same key decrypts.
  decrypt-encrypt :
      (kek nonce plain cipher : List ℕ) (s t : KeyState)
      → length nonce ≡ nonce_size
      → s.kek ≡ some kek
      → t.kek ≡ some kek
      → encrypt a (some nonce) plain s ≡ ok cipher
      → decrypt a cipher t ≡ ok plain
  unfolding encrypt decrypt sealed
  decrypt-encrypt kek nonce [] cipher s t size has later h =
      ap (λ c. decrypt a c t) (same_text [] cipher _ refl h)
  decrypt-encrypt kek nonce (p ∷ plain) cipher s t size has later h =
      ap (λ c. decrypt a c t)
        (same_text (nonce ++ a.seal kek nonce (p ∷ plain)) cipher _
          (ap (λ k. sealed a k (some nonce) (p ∷ plain)) has) h)
      ∙ decrypt-sealed kek nonce (p ∷ plain) t size later

-- A start that succeeds has the key that the file then holds, 32 bytes long, and an existing
-- file is not changed.
pub record Loaded (file : Option (List ℕ)) (t : KeyState) : Type 0 where
  pub kek : List ℕ
  pub in_use : t.kek ≡ some kek
  pub on_disk : t.file ≡ some kek
  pub found : (content : List ℕ) → file ≡ some content → kek ≡ content

kept_kek : (x y : List ℕ) → some x ≡ some y → x ≡ y
kept_kek x y e = cc

missing_file : (x : List ℕ) → none ≢ some x
missing_file x e = cc

differ : (e : KeyError) (r : Result KeyError (Unit {0})) → r ≡ err e → r ≢ ok tt
differ e r p q = cc

load_file-Loaded :
    (os : KeyOs) (o : Option (List ℕ)) (s : KeyState)
    → s.file ≡ o
    → (load_file os o s).0 ≡ ok tt
    → Loaded o (load_file os o s).1
unfolding load_file generate_and_save save_key install_key
load_file-Loaded os (some content) s e h = elim (Bool-cases (length content == kek_size)) [
  | inl good ↦
      rw good
        (record { kek = content; in_use = refl; on_disk = e; found = λ c q. kept_kek content c q })
  | inr bad ↦ absurd (differ kek_missing _ (rw bad refl) h)
]
load_file-Loaded os none s e h = generated os.random os.write h
  where
    generated :
        (o : Option (List ℕ)) (w : KeyWrite)
        → (generate_and_save w o s).0 ≡ ok tt
        → Loaded none (generate_and_save w o s).1
    generated none w h = absurd (differ random_failed _ refl h)
    generated (some kek) key_written h = record {
      kek = kek;
      in_use = refl;
      on_disk = refl;
      found = λ c q. absurd (missing_file c q);
    }
    generated (some kek) key_dir_failed h = absurd (differ dir_failed _ refl h)
    generated (some kek) (key_write_failed left) h = absurd (differ write_failed _ refl h)

module _ (a : Aead) (first second : KeyOs) (s : KeyState) where
  abbrev before : KeyState
  before = (new_file_key_manager first s).1

  abbrev after : KeyState
  after = (new_file_key_manager second before).1

  started-Loaded :
      (os : KeyOs) (t : KeyState)
      → (new_file_key_manager os t).0 ≡ ok tt
      → Loaded t.file (new_file_key_manager os t).1
  unfolding new_file_key_manager load_or_create
  started-Loaded os t h = elim (Bool-cases os.read_fails) [
    | inl down ↦ absurd (differ read_failed _ (rw down refl) h)
    | inr fine ↦ rw fine (load_file-Loaded os t.file (record t { kek = none }) refl (rw fine at h))
  ]

  -- A password that a process encrypts is what the next process decrypts, when both started: the
  -- first made the key file or found it, and the second finds that file.
  pub restart_decrypts :
      (nonce plain cipher : List ℕ)
      → (new_file_key_manager first s).0 ≡ ok tt
      → (new_file_key_manager second before).0 ≡ ok tt
      → length nonce ≡ nonce_size
      → encrypt a (some nonce) plain before ≡ ok cipher
      → decrypt a cipher after ≡ ok plain
  restart_decrypts nonce plain cipher started again size h =
      let l = started-Loaded first s started in
      let k = started-Loaded second before again in
      decrypt-encrypt a l.kek nonce plain cipher before after size l.in_use
        (k.in_use ∙ ap some (k.found l.kek l.on_disk)) h
