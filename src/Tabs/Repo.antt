-- ===== src/Tabs/Repo.antt =====
-- The table of tabs: `SQLiteRepo` and the rows it keeps (internal/kvmanager/tabs/repo.go).
pub mod Reads
pub mod Creation
pub mod Order
pub mod Sorting
pub mod Isolation
pub mod Moves
use etcdmonitor.Prelude.{
  ℕ, zero, suc, ◌+◌, ◌≡◌, refl, String, Bool, true, false, ◌&&◌, List, [], ◌∷◌, ◌++◌, Option, none,
  some, Result, ok, err, leb, ltb, or_fail, ◌==◌, nat_eq, string_eq, if◌then◌else◌, length,
}
use etcdmonitor.Storage.Table.{select, query_row, count, update, delete}

-- A row of `kv_cluster_tabs`; the cipher is a sequence of bytes. No number in it is negative:
-- times are Unix seconds, orders start at 0.
pub record Tab : Type 0 where
  pub id : String
  pub created_by_user_id : ℕ
  pub name : String
  pub endpoint : String
  pub username : String
  pub password_cipher : List ℕ
  pub sort_order : ℕ
  pub last_status : String
  pub last_error : String
  pub last_checked_at : ℕ
  pub created_at : ℕ
  pub updated_at : ℕ

-- `none` is the nil pointer: the field is not updated.
pub record PatchFields : Type 0 where
  pub name : Option String
  pub endpoint : Option String
  pub username : Option String
  pub password_cipher : Option (List ℕ)
  pub updated_at : Option ℕ

pub data RepoError : Type 0 where
  tab_not_found user_id_required order_mismatch uuid_failed repo_database : RepoError

-- The rows in the order of their insertion, and the driver: statement n fails when `fails n`.
pub record TabDb : Type 0 where
  pub tabs : List Tab
  pub fails : ℕ → Bool
  pub statements : ℕ

-- No statement fails.
abbrev pub Healthy : TabDb → Type 0
Healthy s = (n : ℕ) → s.fails n ≡ false

unfoldable pub run_sql :
    {A : Type 0} → TabDb → (TabDb → Result RepoError A × TabDb) → Result RepoError A × TabDb
run_sql s k =
    let s' = record s { statements = s.statements + 1 } in
    if s.fails s.statements then (err repo_database, s') else k s'

-- `WHERE created_by_user_id = ?`, `WHERE id = ?` and both
abbrev pub owned : ℕ → Tab → Bool
owned user t = t.created_by_user_id == user

abbrev pub with_id : String → Tab → Bool
with_id id t = t.id == id

abbrev pub owned_id : String → ℕ → Tab → Bool
owned_id id user t = if t.id == id then t.created_by_user_id == user else false

-- `ORDER BY sort_order ASC`, with rows of the same order as they were inserted
place : Tab → List Tab → List Tab
place t [] = t ∷ []
place t (u ∷ us) =
    let rest = place t us in if leb t.sort_order u.sort_order then t ∷ u ∷ us else u ∷ rest

unfoldable pub by_order : List Tab → List Tab
unfolding place
by_order [] = []
by_order (t ∷ ts) = place t (by_order ts)

unfoldable pub list_by_user : ℕ → TabDb → Result RepoError (List Tab) × TabDb
unfolding by_order
list_by_user user s = run_sql s λ s'. (ok (by_order (select (owned user) s'.tabs)), s')

unfoldable pub get : String → ℕ → TabDb → Result RepoError Tab × TabDb
get id user s = run_sql s λ s'. (or_fail (query_row (owned_id id user) s'.tabs) tab_not_found, s')

-- `COALESCE(MAX(sort_order), -1) + 1`
unfoldable pub next_order : List Tab → ℕ
next_order [] = 0
next_order (t ∷ ts) = let n = next_order ts in if leb n t.sort_order then t.sort_order + 1 else n

-- Unset fields of the row that `Create` inserts.
abbrev time_or : ℕ → ℕ → ℕ
time_or t now = if t == 0 then now else t

-- The row that `Create` inserts among the rows it finds.
abbrev pub new_row : ℕ → String → Tab → List Tab → Tab
new_row now id t tabs = record t {
  id = id;
  sort_order = next_order (select (owned t.created_by_user_id) tabs);
  created_at = time_or t.created_at now;
  updated_at = time_or t.updated_at now;
  last_status = if t.last_status == "" then "unknown" else t.last_status;
}

-- `id` is the primary key: the INSERT fails where it is taken.
unfoldable pub insert_tab : Tab → TabDb → Result RepoError Tab × TabDb
insert_tab row s = run_sql s λ s'.
    if count (with_id row.id) s'.tabs == 0
    then (ok row, record s' { tabs = s'.tabs ++ row ∷ [] })
    else (err repo_database, s')

-- The tab that the caller's struct holds after the call is the result.
unfoldable pub create : ℕ → Option String → Tab → TabDb → Result RepoError Tab × TabDb
unfolding next_order insert_tab
create now uuid t s = if t.created_by_user_id == 0 then (err user_id_required, s) else elim uuid [
  | none ↦ (err uuid_failed, s)
  | some id ↦ run_sql s λ s1. insert_tab (new_row now id t s1.tabs) s1
]

unfoldable pub or_kept {ℓ} : {A : Type ℓ} → Option A → A → A
or_kept none kept = kept
or_kept (some a) kept = a

-- The `SET` list: the fields that are given, and `updated_at` always.
unfoldable pub patched : ℕ → PatchFields → Tab → Tab
unfolding or_kept
patched now fields t = record t {
  name = or_kept fields.name t.name;
  endpoint = or_kept fields.endpoint t.endpoint;
  username = or_kept fields.username t.username;
  password_cipher = or_kept fields.password_cipher t.password_cipher;
  updated_at = or_kept fields.updated_at now;
}

-- A statement that has to affect a row.
abbrev affecting : (Tab → Bool) → List Tab → TabDb → Result RepoError (Unit {0}) × TabDb
affecting p changed s =
    ((if count p s.tabs == 0 then err tab_not_found else ok tt), record s { tabs = changed })

unfoldable pub update_by_user :
    ℕ → String → ℕ → PatchFields → TabDb → Result RepoError (Unit {0}) × TabDb
unfolding patched
update_by_user now id user fields s =
    run_sql s
      λ s'. affecting (owned_id id user) (update (owned_id id user) (patched now fields) s'.tabs) s'

abbrev pub moved : ℕ → ℕ → Tab → Tab
moved i now t = record t { sort_order = i; updated_at = now }

-- The loop over the ordered IDs, from position i; it stops at the first error.
unfoldable pub place_all : ℕ → ℕ → ℕ → List String → TabDb → Result RepoError (Unit {0}) × TabDb
place_all user now i [] s = (ok tt, s)
place_all user now i (id ∷ ids) s =
    let one : Result RepoError (Unit {0}) × TabDb =
      run_sql s
        λ s'. affecting (owned_id id user) (update (owned_id id user) (moved i now) s'.tabs) s' in
    elim one.0 [ ok _ ↦ place_all user now (i + 1) ids one.1 | err e ↦ (err e, one.1) ]

-- `tx.Commit()`, and the deferred `tx.Rollback()`, which undoes the writes of a transaction that
-- was not committed.
commit : List Tab → Result RepoError (Unit {0}) × TabDb → Result RepoError (Unit {0}) × TabDb
commit before (err e, s) = (err e, record s { tabs = before })
commit before (ok _, s) =
    let s' = record s { statements = s.statements + 1 } in
    if s.fails s.statements then (err repo_database, record s' { tabs = before }) else (ok tt, s')

-- The transaction: the count, `Prepare`, and one statement for an ID.
unfoldable pub reorder : ℕ → ℕ → List String → TabDb → Result RepoError (Unit {0}) × TabDb
unfolding place_all
reorder now user ordered_ids s = run_sql s λ s'.
    if count (owned user) s'.tabs == length ordered_ids
    then run_sql s' (place_all user now 0 ordered_ids)
    else (err order_mismatch, s')

-- `Begin` and `Commit` are statements too.
unfoldable pub update_order_by_user :
    ℕ → ℕ → List String → TabDb → Result RepoError (Unit {0}) × TabDb
unfolding commit reorder
update_order_by_user now user ordered_ids s =
    run_sql s λ s'. commit s'.tabs (reorder now user ordered_ids s')

-- No error where no row is affected: the tab may just have been deleted.
unfoldable pub update_status :
    String → String → String → ℕ → TabDb → Result RepoError (Unit {0}) × TabDb
update_status id status err_msg checked_at s = run_sql s λ s'. (
  ok tt,
  record s' {
    tabs =
        update (with_id id)
          (λ t. record t {
            last_status = status;
            last_error = err_msg;
            last_checked_at = checked_at;
          })
          s'.tabs;
  },
)

unfoldable pub delete_by_user : String → ℕ → TabDb → Result RepoError (Unit {0}) × TabDb
delete_by_user id user s =
    run_sql s λ s'. affecting (owned_id id user) (delete (owned_id id user) s'.tabs) s'

unfoldable pub count_by_user : ℕ → TabDb → Result RepoError ℕ × TabDb
count_by_user user s = run_sql s λ s'. (ok (count (owned user) s'.tabs), s')

unfoldable pub list_all : TabDb → Result RepoError (List Tab) × TabDb
list_all s = run_sql s λ s'. (ok s'.tabs, s')
