-- ===== src/Storage/Users.antt =====
-- The `users` table (internal/storage/user_repo.go) and the audit log that handlers append to
-- (`StoreAuditLog` of internal/storage/storage.go). `now` is `time.Now().Unix()`.
pub mod Lookup
pub mod Invariant
pub mod Calls
pub mod Trail
use etcdmonitor.Prelude.{
  ℕ, suc, ◌+◌, String, Bool, true, false, List, [], ◌∷◌, ◌++◌, Option, none, some, ◌&&◌, Result, ok,
  err, or_fail, ltb, ◌==◌, string_eq, nat_eq, if◌then◌else◌, ◌≡◌, refl,
}
use etcdmonitor.Storage.Table.{query_row, count, update, delete}

pub record User : Type 0 where
  pub id : ℕ
  pub username : String
  pub password_hash : String
  pub role : String
  pub must_change_password : Bool
  pub failed_attempts : ℕ
  pub locked_until : ℕ
  pub last_login_at : ℕ
  pub created_at : ℕ
  pub updated_at : ℕ

-- `LockedUntil > 0 && LockedUntil > now.Unix()`
unfoldable pub is_locked : User → ℕ → Bool
is_locked u now = ltb 0 u.locked_until && ltb now u.locked_until

-- The text of an audit result; the one that tells the minutes left of a lock keeps the number.
pub data Message : Type 0 where
  text : String → Message
  locked_for : ℕ → Message

pub record AuditEntry : Type 0 where
  pub timestamp : ℕ
  pub username : String
  pub operation : String
  pub target : String
  pub params : String
  pub result : Message
  pub duration_ms : ℕ
  pub success : Bool

-- The database. `fails n` says whether the n-th statement returns an error of the driver, and
-- `statements` counts those run so far; ids are `AUTOINCREMENT`.
pub record Storage : Type 0 where
  pub users : List User
  pub next_user_id : ℕ
  pub audit_log : List AuditEntry
  pub fails : ℕ → Bool
  pub statements : ℕ

pub data DbError : Type 0 where
  user_not_found database : DbError

-- Runs one statement: an error of the driver changes nothing.
unfoldable pub exec :
    {A : Type 0} → Storage → (Storage → Result DbError A × Storage) → Result DbError A × Storage
exec s k =
    let s' = record s { statements = s.statements + 1 } in
    if s.fails s.statements then (err database, s') else k s'

-- `WHERE username = ?`
abbrev pub named : String → User → Bool
named username u = u.username == username

unfoldable pub count_users : Storage → Result DbError ℕ × Storage
count_users s = exec s λ s'. (ok (count (λ _. true) s'.users), s')

-- `username` is UNIQUE: the INSERT fails where it is taken. The new row is the result.
unfoldable pub create_user : ℕ → User → Storage → Result DbError User × Storage
create_user now u s = exec s λ s'.
    let row : User = record u {
      id = s'.next_user_id;
      failed_attempts = 0;
      locked_until = 0;
      last_login_at = 0;
      created_at = now;
      updated_at = now;
    } in
    elim (query_row (named u.username) s'.users) [
      | some _ ↦ (err database, s')
      | none ↦
          (ok row, record s' { users = s'.users ++ row ∷ []; next_user_id = s'.next_user_id + 1 })
    ]

unfoldable pub delete_user : String → Storage → Result DbError (Unit {0}) × Storage
delete_user username s =
    exec s λ s'. (ok tt, record s' { users = delete (named username) s'.users })

unfoldable pub get_user_by_username : String → Storage → Result DbError User × Storage
get_user_by_username username s =
    exec s λ s'. (or_fail (query_row (named username) s'.users) user_not_found, s')

-- `UPDATE users SET … WHERE username = ?`, and ErrUserNotFound where no row is affected.
abbrev pub update_user : String → (User → User) → Storage → Result DbError (Unit {0}) × Storage
update_user username f s = exec s λ s'. (
  (if count (named username) s'.users == 0 then err user_not_found else ok tt),
  record s' { users = update (named username) f s'.users },
)

unfoldable pub update_password :
    ℕ → String → String → Bool → Storage → Result DbError (Unit {0}) × Storage
update_password now username new_hash must_change = update_user username λ u. record u {
  password_hash = new_hash;
  must_change_password = must_change;
  failed_attempts = 0;
  locked_until = 0;
  updated_at = now;
}

-- The new count is read by a second statement.
read_failed_attempts : String → Result DbError (Unit {0}) × Storage → Result DbError ℕ × Storage
read_failed_attempts username (err e, s) = (err e, s)
read_failed_attempts username (ok _, s) = exec s λ s'. elim (query_row (named username) s'.users) [
  | none ↦ (err database, s')
  | some u ↦ (ok u.failed_attempts, s')
]

unfoldable pub increment_failed_attempts : ℕ → String → Storage → Result DbError ℕ × Storage
unfolding read_failed_attempts
increment_failed_attempts now username s = read_failed_attempts username (
    update_user username
      (λ u. record u { failed_attempts = u.failed_attempts + 1; updated_at = now }) s)

unfoldable pub set_locked : ℕ → String → ℕ → Storage → Result DbError (Unit {0}) × Storage
set_locked now username until =
    update_user username λ u. record u { locked_until = until; updated_at = now }

unfoldable pub reset_login_state : ℕ → String → Storage → Result DbError (Unit {0}) × Storage
reset_login_state now username =
    update_user username λ u. record u { failed_attempts = 0; locked_until = 0; updated_at = now }

unfoldable pub update_last_login : ℕ → String → Storage → Result DbError (Unit {0}) × Storage
update_last_login now username =
    update_user username λ u. record u { last_login_at = now; updated_at = now }

unfoldable pub store_audit_log : AuditEntry → Storage → Result DbError (Unit {0}) × Storage
store_audit_log entry s = exec s λ s'. (ok tt, record s' { audit_log = s'.audit_log ++ entry ∷ [] })
