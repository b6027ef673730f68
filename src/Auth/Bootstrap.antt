-- ===== src/Auth/Bootstrap.antt =====
-- The first account (internal/auth/bootstrap.go) and the file with its password
-- (internal/auth/initial_password_file.go).
pub mod FirstStart
use Prim.Native.String
use etcdmonitor.Prelude.{
  ℕ, zero, suc, ◌+◌, String, Bool, true, false, List, [], ◌∷◌, Option, none, some, Result, ok, err,
  ltb, leb, ◌==◌, nat_eq, string_eq, if◌then◌else◌, ℤ, pos, negsuc, ◌≡◌, refl,
}
use etcdmonitor.Storage.Users.{User, Storage, DbError, count_users, create_user, delete_user}
use etcdmonitor.Auth.Password.{Bcrypt, hash_password}

abbrev pub default_admin_username : String
default_admin_username = "admin"

-- What the calls into the operating system will do: `GenerateInitialPassword`'s result, and the
-- write of the file, which may fail and leave some content behind.
pub data WriteOutcome : Type 0 where
  written : WriteOutcome
  write_failed : Option String → WriteOutcome

pub record Os : Type 0 where
  pub now : ℕ
  pub generated : Option String
  pub write : WriteOutcome

-- The database, and the content of `<dataDir>/initial-admin-password`.
pub record BootState : Type 0 where
  pub store : Storage
  pub password_file : Option String

pub data BootError : Type 0 where
  count_failed generate_failed hash_failed create_failed write_file_failed : BootError

-- Content is the password and a newline.
unfoldable pub write_initial_password_file :
    WriteOutcome → String → BootState → Result BootError (Unit {0}) × BootState
write_initial_password_file written password s =
    (ok tt, record s { password_file = some (String.◌++◌ password "\n") })
write_initial_password_file (write_failed left) password s =
    (err write_file_failed, record s { password_file = left })

-- The row that `EnsureDefaultAdmin` asks for.
abbrev pub new_admin : String → User
new_admin hash = record {
  id = 0;
  username = default_admin_username;
  password_hash = hash;
  role = "admin";
  must_change_password = true;
  failed_attempts = 0;
  locked_until = 0;
  last_login_at = 0;
  created_at = 0;
  updated_at = 0;
}

-- A failed write takes the new account back, so that there is none whose password nobody knows.
finish_admin : Result BootError (Unit {0}) × BootState → Result BootError (Unit {0}) × BootState
finish_admin (ok _, s) = (ok tt, s)
finish_admin (err e, s) =
    (err e, record s { store = (delete_user default_admin_username s.store).1 })

admin_created :
    Os
    → String
    → BootState
    → Result DbError User × Storage
    → Result BootError (Unit {0}) × BootState
unfolding finish_admin
admin_created os plain s (err e, store) = (err create_failed, record s { store = store })
admin_created os plain s (ok _, store) =
    finish_admin (write_initial_password_file os.write plain (record s { store = store }))

module _ (b : Bcrypt) (cost : ℤ) (os : Os) where
  -- What follows `HashPassword` and `GenerateInitialPassword`, each on the call's result.
  hashed_admin : BootState → String → Option String → Result BootError (Unit {0}) × BootState
  unfolding admin_created
  hashed_admin s plain none = (err hash_failed, s)
  hashed_admin s plain (some hash) =
      admin_created os plain s (create_user os.now (new_admin hash) s.store)

  pub create_admin : BootState → Option String → Result BootError (Unit {0}) × BootState
  unfolding hashed_admin
  create_admin s none = (err generate_failed, s)
  create_admin s (some plain) = hashed_admin s plain (hash_password b plain cost)

  counted : BootState → Result DbError ℕ × Storage → Result BootError (Unit {0}) × BootState
  unfolding create_admin
  counted s (err e, store) = (err count_failed, record s { store = store })
  counted s (ok n, store) =
      let s1 : BootState = record s { store = store } in
      if ltb 0 n then (ok tt, s1) else create_admin s1 os.generated

  unfoldable pub ensure_default_admin : BootState → Result BootError (Unit {0}) × BootState
  unfolding counted
  ensure_default_admin s = counted s (count_users s.store)
