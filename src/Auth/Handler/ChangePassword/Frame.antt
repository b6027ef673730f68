-- ===== src/Auth/Handler/ChangePassword/Frame.antt =====
-- A refused change of password changes no password.
use etcdmonitor.Prelude.{
  byte_len, ℕ, String, Bool, false, some, Result, ok, err, ltb, arith, ◌≢◌, map, ◌==◌, nat_eq,
  string_eq, positive_or, ◌≡◌, refl, Option-cases, inl, inr, Bool-cases, ◌∙◌,
}
use etcdmonitor.Storage.Table.{count-some}
use etcdmonitor.Storage.Users.{
  User, Storage, exec, named, DbError, is_locked, get_user_by_username, update_password,
}
use etcdmonitor.Storage.Users.Lookup.{find_user, users-get_user}
use etcdmonitor.Storage.Users.Trail.{
  done, Trail-trans, IsBookkeeping, identity, Trail-identity, Trail-others,
}
use etcdmonitor.Auth.Password.{Bcrypt, compare_password, hash_password}
use etcdmonitor.Auth.Handler.{
  AuthConfig, Context, AuthState, ChangePasswordRequest, invalid_old_password,
}
use etcdmonitor.Auth.Handler.Frame.{Kept, wrong_password-Kept, locked_reply-Kept, unknown_user-Kept}
use etcdmonitor.Auth.Handler.ChangePassword.{
  password_updated, store_new_password, change_user, handle_change_password,
}
use etcdmonitor.Auth.Handler.ChangePassword.Change.{users-password_updated}

-- An update that returns an error has not been made.
update_password-refused :
    (now : ℕ) (username new_hash : String) (must : Bool) (s : Storage) (user : User)
    → find_user username s ≡ some user
    → (update_password now username new_hash must s).0 ≢ ok tt
    → (update_password now username new_hash must s).1.users ≡ s.users
unfolding update_password exec
update_password-refused now username new_hash must s user found h =
    elim (Bool-cases (s.fails s.statements)) [
      | inl down ↦ rw down
      | inr fine ↦ absurd (h (ground (arith, count-some (named username) s.users user found)))
    ]

password_updated-refused :
    (ctx : Context) (user : User) (username : String) (s : AuthState)
    (r : Result DbError (Unit {0}) × Storage)
    → (password_updated ctx user username s r).0.status ≢ 200
    → r.0 ≢ ok tt
unfolding password_updated
password_updated-refused ctx user username s (err e, store) h q = cc
password_updated-refused ctx user username s (ok tt, store) h q = h refl

module _ (b : Bcrypt) (cfg : AuthConfig) (ctx : Context) (req : ChangePasswordRequest) where
  store_new_password-Kept :
      (s : AuthState) (user : User)
      → find_user req.username s.store ≡ some user
      → (store_new_password b cfg ctx req user s).0.status ≢ 200
      → Kept req.username s.store (store_new_password b cfg ctx req user s).1.store
  unfolding store_new_password
  store_new_password-Kept s user found h =
      elim (Bool-cases (ltb (byte_len req.new_password) (positive_or 8 cfg.min_password_length))) [
        | inl short ↦ rw short (done refl)
        | inr long ↦ elim (Bool-cases (req.new_password == req.old_password)) [
          | inl same ↦ rw (long, same) (done refl)
          | inr new ↦ elim (Option-cases (hash_password b req.new_password cfg.bcrypt_cost)) [
            | inl failed ↦ rw (long, new, failed) (done refl)
            | inr (new_hash, hashed) ↦
                let r = update_password ctx.now req.username new_hash false s.store in
                rw (long, new, hashed)
                  (done (
                    users-password_updated ctx user req.username s r
                    ∙ update_password-refused ctx.now req.username new_hash false s.store user found
                        (password_updated-refused ctx user req.username s r
                          (rw (long, new, hashed) at h))))
          ]
        ]
      ]

  change_user-Kept :
      (s : AuthState) (r : Result DbError User)
      → ((user : User) → r ≡ ok user → find_user req.username s.store ≡ some user)
      → (change_user b cfg ctx req s r).0.status ≢ 200
      → Kept req.username s.store (change_user b cfg ctx req s r).1.store
  unfolding change_user
  change_user-Kept s (err e) found h = unknown_user-Kept cfg ctx req.username "change_password" _ s
  change_user-Kept s (ok user) found h = elim (Bool-cases (is_locked user ctx.now)) [
    | inl locked ↦ rw locked (locked_reply-Kept cfg ctx req.username "change_password" user s)
    | inr free ↦ elim (Bool-cases (compare_password b user.password_hash req.old_password)) [
      | inr wrong ↦
          rw (free, wrong)
            (wrong_password-Kept cfg ctx req.username "change_password" invalid_old_password s)
      | inl right ↦
          rw (free, right)
            (store_new_password-Kept s user (found user refl) (rw (free, right) at h))
    ]
  ]

  get_user_sound :
      (s : Storage) (user : User)
      → (get_user_by_username req.username s).0 ≡ ok user
      → find_user req.username (get_user_by_username req.username s).1 ≡ some user
  unfolding get_user_by_username exec
  get_user_sound s user h = ground arith

  -- A change of password that is not answered 200, for whatever reason and whichever statements
  -- fail, keeps the id, name, hash, role and pending change of every account, and the whole row of
  -- every account but the one it names.
  pub change_refused :
      (s : AuthState)
      → (handle_change_password b cfg ctx (some req) s).0.status ≢ 200
      → let final = (handle_change_password b cfg ctx (some req) s).1 in
        (map identity final.store.users ≡ map identity s.store.users)
        × ((other : String)
            → other ≢ req.username
            → find_user other final.store ≡ find_user other s.store)
  unfolding handle_change_password
  change_refused s h =
      let s1 : AuthState = record s { store = (get_user_by_username req.username s.store).1 } in
      let kept =
        Trail-trans IsBookkeeping req.username (done (users-get_user req.username s.store)) (
          change_user-Kept s1 (get_user_by_username req.username s.store).0 (get_user_sound s.store)
            h) in
      (Trail-identity kept, λ other ne. Trail-others other ne kept)
