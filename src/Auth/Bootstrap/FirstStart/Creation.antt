-- ===== src/Auth/Bootstrap/FirstStart/Creation.antt =====
-- Creating the first account, after the count of the rows (internal/auth/bootstrap.go).
use Prim.Native.String
use etcdmonitor.Prelude.{
  ℕ, ◌≢◌, String, Bool, true, false, [], ◌∷◌, Option, none, some, Result, ok, err, arith, nat_eq,
  string_eq, ℤ, ◌≡◌, refl, Bool-cases, inl, inr, ◌⊎◌,
}
use etcdmonitor.Storage.Table.{query_row, delete}
use etcdmonitor.Storage.Users.{User, Storage, exec, DbError, database, create_user, delete_user}
use etcdmonitor.Storage.Users.Lookup.{IsHealthy, IsHealthy_of_fails}
use etcdmonitor.Auth.Password.{Bcrypt, hash_password, compare_password, compare-hash_password}
use etcdmonitor.Auth.Bootstrap.{
  Os, BootState, BootError, WriteOutcome, written, write_failed, write_initial_password_file,
  new_admin, admin_created, create_admin, hashed_admin, write_file_failed, default_admin_username,
  generate_failed, hash_failed,
}

-- The row of the first account.
abbrev pub first_row : ℕ → ℕ → String → User
first_row id now hash = record {
  id = id;
  username = "admin";
  password_hash = hash;
  role = "admin";
  must_change_password = true;
  failed_attempts = 0;
  locked_until = 0;
  last_login_at = 0;
  created_at = now;
  updated_at = now;
}

pub record FirstAdmin (b : Bcrypt) (os : Os) (id : ℕ) (final : BootState) : Type 0 where
  pub plain : String
  pub hash : String
  pub generated : os.generated ≡ some plain
  pub opens : compare_password b hash plain ≡ true
  pub only : final.store.users ≡ first_row id os.now hash ∷ []
  pub file : final.password_file ≡ some (String.◌++◌ plain "\n")

-- An INSERT into an empty table fails with the driver or makes the first row.
create_user-empty :
    (now : ℕ) (hash : String) (s : Storage)
    → s.users ≡ []
    → let (r, t) = create_user now (new_admin hash) s in
      ((e : DbError) × (r ≡ err e) × (t.users ≡ []) × (s.fails s.statements ≡ true))
      ⊎ ((r ≡ ok (first_row s.next_user_id now hash))
          × (t.users ≡ first_row s.next_user_id now hash ∷ [])
          × (t.fails ≡ s.fails))
unfolding create_user exec query_row
create_user-empty now hash s empty = elim (Bool-cases (s.fails s.statements)) [
  | inl down ↦ inl (database, rw down, rw down empty, down)
  | inr fine ↦ inr (ground arith, ground arith, ground arith)
]

-- Deleting `admin` from the table that holds only it empties the table.
delete_user-first :
    (id now : ℕ) (hash : String) (s : Storage)
    → s.fails s.statements ≡ false
    → s.users ≡ first_row id now hash ∷ []
    → (delete_user default_admin_username s).1.users ≡ []
unfolding delete_user exec delete
delete_user-first id now hash s fine e = rw (fine, e)

created_err :
    (os : Os) (plain : String) (t : BootState) (r : Result DbError User × Storage) (e : DbError)
    → r.0 ≡ err e
    → (admin_created os plain t r).0 ≢ ok tt
unfolding admin_created
created_err os plain t (err d, store) e p q = cc
created_err os plain t (ok u, store) e p q = cc

-- The two outcomes of the write of the file.
created_written :
    (os : Os) (plain : String) (t : BootState) (u : User) (store : Storage)
    → os.write ≡ written
    → admin_created os plain t (ok u, store)
      ≡ (ok tt, record { store = store; password_file = some (String.◌++◌ plain "\n") })
unfolding admin_created write_initial_password_file
created_written os plain t u store e = rw e

created_failed :
    (os : Os) (plain : String) (t : BootState) (u : User) (store : Storage) (left : Option String)
    → os.write ≡ write_failed left
    → admin_created os plain t (ok u, store) ≡ (
      err write_file_failed,
      record { store = (delete_user default_admin_username store).1; password_file = left },
    )
unfolding admin_created write_initial_password_file
created_failed os plain t u store left e = rw e

true-false : {v : Bool} → v ≡ true → v ≢ false
true-false p q = cc

made_err : (e : DbError) (u : User) → err e ≢ ok u
made_err e u q = cc

pub result_differs : (e : BootError) (r : Result BootError (Unit {0})) → r ≡ err e → r ≢ ok tt
result_differs e r p q = cc

created_write_failed :
    (os : Os) (plain : String) (t : BootState) (u : User) (store : Storage) (left : Option String)
    → os.write ≡ write_failed left
    → (admin_created os plain t (ok u, store)).0 ≢ ok tt
created_write_failed os plain t u store left e =
    result_differs write_file_failed _ (rw (created_failed os plain t u store left e))

module _ (b : Bcrypt) (cost : ℤ) (os : Os) where
  admin_created-FirstAdmin :
      (id : ℕ) (t : BootState) (plain hash : String) (r : Result DbError User × Storage)
      → os.generated ≡ some plain
      → compare_password b hash plain ≡ true
      → r.1.users ≡ first_row id os.now hash ∷ []
      → (admin_created os plain t r).0 ≡ ok tt
      → FirstAdmin b os id (admin_created os plain t r).1
  admin_created-FirstAdmin id t plain hash (err e, store) g o made h =
      absurd (created_err os plain t (err e, store) e refl h)
  admin_created-FirstAdmin id t plain hash (ok u, store) g o made h = created_ok os.write refl
    where
      created_ok :
          (w : WriteOutcome)
          → os.write ≡ w
          → FirstAdmin b os id (admin_created os plain t (ok u, store)).1
      created_ok written e = record {
        plain = plain;
        hash = hash;
        generated = g;
        opens = o;
        only = rw (created_written os plain t u store e) made;
        file = rw (created_written os plain t u store e);
      }
      created_ok (write_failed left) e = absurd (created_write_failed os plain t u store left e h)

  -- The table after an attempt that did not succeed, when every statement is executed.
  admin_created-empty :
      (t : BootState) (plain : String) (id now : ℕ) (hash : String) (u : User) (store : Storage)
      → IsHealthy store
      → store.users ≡ first_row id now hash ∷ []
      → (admin_created os plain t (ok u, store)).0 ≢ ok tt
      → (admin_created os plain t (ok u, store)).1.store.users ≡ []
  admin_created-empty t plain id now hash u store healthy made bad = outcome os.write refl
    where
      outcome :
          (w : WriteOutcome)
          → os.write ≡ w
          → (admin_created os plain t (ok u, store)).1.store.users ≡ []
      outcome written e = absurd (bad (rw (created_written os plain t u store e)))
      outcome (write_failed left) e =
          rw (created_failed os plain t u store left e)
            (delete_user-first id now hash store (healthy store.statements) made)

  hashed_admin-FirstAdmin :
      (t : BootState) (plain : String) (h : Option String)
      → hash_password b plain cost ≡ h
      → os.generated ≡ some plain
      → t.store.users ≡ []
      → (hashed_admin b cost os t plain h).0 ≡ ok tt
      → FirstAdmin b os t.store.next_user_id (hashed_admin b cost os t plain h).1
  unfolding hashed_admin
  hashed_admin-FirstAdmin t plain none k g empty h = absurd (result_differs hash_failed _ refl h)
  hashed_admin-FirstAdmin t plain (some hash) k g empty h =
      elim (create_user-empty os.now hash t.store empty) [
        | inl (e, failed, left, down) ↦ absurd (created_err os plain t _ e failed h)
        | inr (made, row, same) ↦
            admin_created-FirstAdmin t.store.next_user_id t plain hash _ g
              (compare-hash_password b plain hash cost k) row h
      ]

  pub create_admin-FirstAdmin :
      (t : BootState) (g : Option String)
      → os.generated ≡ g
      → t.store.users ≡ []
      → (create_admin b cost os t g).0 ≡ ok tt
      → FirstAdmin b os t.store.next_user_id (create_admin b cost os t g).1
  unfolding create_admin
  create_admin-FirstAdmin t none e empty h = absurd (result_differs generate_failed _ refl h)
  create_admin-FirstAdmin t (some plain) e empty h =
      hashed_admin-FirstAdmin t plain (hash_password b plain cost) refl e empty h

  hashed_admin-empty :
      (t : BootState) (plain : String) (h : Option String)
      → IsHealthy t.store
      → t.store.users ≡ []
      → (hashed_admin b cost os t plain h).0 ≢ ok tt
      → (hashed_admin b cost os t plain h).1.store.users ≡ []
  unfolding hashed_admin
  hashed_admin-empty t plain none healthy empty bad = empty
  hashed_admin-empty t plain (some hash) healthy empty bad =
      inserted _ (create_user-empty os.now hash t.store empty) bad
    where
      inserted :
          (r : Result DbError User × Storage)
          → ((e : DbError) × (r.0 ≡ err e)
              × (r.1.users ≡ [])
              × (t.store.fails t.store.statements ≡ true))
            ⊎ ((r.0 ≡ ok (first_row t.store.next_user_id os.now hash))
                × (r.1.users ≡ first_row t.store.next_user_id os.now hash ∷ [])
                × (r.1.fails ≡ t.store.fails))
          → (admin_created os plain t r).0 ≢ ok tt
          → (admin_created os plain t r).1.store.users ≡ []
      inserted r (inl (e, failed, left, down)) b =
          absurd (true-false down (healthy t.store.statements))
      inserted (err e, store) (inr (made, row, same)) b = absurd (made_err e _ made)
      inserted (ok u, store) (inr (made, row, same)) b =
          admin_created-empty t plain t.store.next_user_id os.now hash u store
            (IsHealthy_of_fails t.store store same healthy) row b

  pub create_admin-empty :
      (t : BootState) (g : Option String)
      → IsHealthy t.store
      → t.store.users ≡ []
      → (create_admin b cost os t g).0 ≢ ok tt
      → (create_admin b cost os t g).1.store.users ≡ []
  unfolding create_admin
  create_admin-empty t none healthy empty bad = empty
  create_admin-empty t (some plain) healthy empty bad =
      hashed_admin-empty t plain (hash_password b plain cost) healthy empty bad
