-- ===== src/Storage/Users/Trail.antt =====
-- How a run of statements may have changed the `users` table: by updates of the rows of one name,
-- each of a kind that the client states.
use etcdmonitor.Prelude.{
  ℕ, ◌+◌, String, ◌≡◌, ◌≢◌, refl, sym, ap, ◌∙◌, Bool, true, false, List, [], ◌∷◌, map, arith,
  eq_iff, Result, ok, err, string_eq, nat_eq, Bool-cases, inl, inr,
}
use etcdmonitor.Storage.Table.{query_row, update, query_row-update_ne}
use etcdmonitor.Storage.Users.{
  User, Storage, exec, named, update_user, increment_failed_attempts, read_failed_attempts,
  set_locked, reset_login_state, update_last_login, DbError,
}

pub data Trail (P : (User → User) → Type 0) (username : String)
    : List User → List User → Type 0 where
  done : {xs ys : List User} → ys ≡ xs → Trail P username xs ys
  step :
      {xs ys : List User} (f : User → User)
      → P f
      → Trail P username (update (named username) f xs) ys
      → Trail P username xs ys

module _ (P : (User → User) → Type 0) (username : String) where
  pub Trail-trans :
      {xs ys zs : List User}
      → Trail P username xs ys
      → Trail P username ys zs
      → Trail P username xs zs
  Trail-trans {zs = zs} (done e) t = subst_Trail e t
    where
      subst_Trail : {us vs : List User} → vs ≡ us → Trail P username vs zs → Trail P username us zs
      subst_Trail q w = rw (sym q) w
  Trail-trans (step f p t) u = step f p (Trail-trans t u)

  pub update_user-Trail :
      (f : User → User) (s : Storage)
      → P f
      → Trail P username s.users (update_user username f s).1.users
  unfolding exec
  update_user-Trail f s p = elim (Bool-cases (s.fails s.statements)) [
    | inl down ↦ rw down (done refl)
    | inr fine ↦ rw fine (step f p (done refl))
  ]

-- What stays of an account: all but the counters and the times.
pub record Identity : Type 0 where
  pub id : ℕ
  pub username : String
  pub password_hash : String
  pub role : String
  pub must_change : Bool

abbrev pub identity : User → Identity
identity u = record {
  id = u.id;
  username = u.username;
  password_hash = u.password_hash;
  role = u.role;
  must_change = u.must_change_password;
}

-- The updates that leave who the account is and how it is opened.
abbrev pub IsBookkeeping : (User → User) → Type 0
IsBookkeeping f = (u : User) → identity (f u) ≡ identity u

pub keeps_username : (f : User → User) → IsBookkeeping f → (u : User) → (f u).username ≡ u.username
keeps_username f p u = ap (λ (i : Identity). i.username) (p u)

map-identity-update :
    (p : User → Bool) (f : User → User) (xs : List User)
    → IsBookkeeping f
    → map identity (update p f xs) ≡ map identity xs
unfolding update
map-identity-update p f [] b = refl
map-identity-update p f (x ∷ xs) b = ground (arith, b x, map-identity-update p f xs b)

pub Trail-identity :
    {username : String} {xs ys : List User}
    → Trail IsBookkeeping username xs ys
    → map identity ys ≡ map identity xs
Trail-identity (done e) = ap (map identity) e
Trail-identity {username} {xs} (step f p t) =
    Trail-identity t ∙ map-identity-update (named username) f xs p

-- The rows of other names stay as they are.
pub Trail-others :
    {username : String} {xs ys : List User} (other : String)
    → other ≢ username
    → Trail IsBookkeeping username xs ys
    → query_row (named other) ys ≡ query_row (named other) xs
Trail-others other ne (done e) = ap (query_row (named other)) e
Trail-others {username} {xs} other ne (step f p t) =
    Trail-others other ne t ∙ query_row-update_ne (named username) (named other) f xs apart
  where
    apart :
        (x : User) → named username x ≡ true → (named other x ≡ false) × (named other (f x) ≡ false)
    apart x h = (
      ground (arith, eq_iff x.username username, eq_iff x.username other),
      rw (keeps_username f p x)
          (ground (arith, eq_iff x.username username, eq_iff x.username other)),
    )

users-read :
    (name : String) (r : Result DbError (Unit {0}) × Storage)
    → (read_failed_attempts name r).1.users ≡ r.1.users
unfolding read_failed_attempts exec
users-read name (err e, s) = refl
users-read name (ok _, s) = ground arith

module _ (now : ℕ) (username : String) where
  pub increment-Trail :
      (s : Storage)
      → Trail IsBookkeeping username s.users (increment_failed_attempts now username s).1.users
  unfolding increment_failed_attempts
  increment-Trail s = rw (users-read username _) (
      update_user-Trail IsBookkeeping username
        (λ (u : User). record u { failed_attempts = u.failed_attempts + 1; updated_at = now }) s
        (λ u. refl))

  pub set_locked-Trail :
      (until : ℕ) (s : Storage)
      → Trail IsBookkeeping username s.users (set_locked now username until s).1.users
  unfolding set_locked
  set_locked-Trail until s = update_user-Trail IsBookkeeping username _ s (λ u. refl)

  pub reset_login_state-Trail :
      (s : Storage)
      → Trail IsBookkeeping username s.users (reset_login_state now username s).1.users
  unfolding reset_login_state
  reset_login_state-Trail s = update_user-Trail IsBookkeeping username _ s (λ u. refl)

  pub update_last_login-Trail :
      (s : Storage)
      → Trail IsBookkeeping username s.users (update_last_login now username s).1.users
  unfolding update_last_login
  update_last_login-Trail s = update_user-Trail IsBookkeeping username _ s (λ u. refl)
