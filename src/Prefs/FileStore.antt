-- ===== src/Prefs/FileStore.antt =====
-- `FileStore`: one file for a user, named after the cleaned username (internal/prefs/prefs.go).
pub mod Safety
use Prim.Native.Char.{code, Char}
use Prim.Native.String
use etcdmonitor.Prelude.{
  ℕ, String, Bool, true, false, ◌&&◌, ◌||◌, List, [], ◌∷◌, Option, none, some, Result, ok, err, leb,
  ◌==◌, nat_eq, string_eq, if◌then◌else◌, lookup, insert,
}
use etcdmonitor.Prefs.Panels.{PanelConfig, default_config, merge_with_defaults}

abbrev between : ℕ → ℕ → ℕ → Bool
between lo hi n = if leb lo n then leb n hi else false

-- Letters, digits, `_`, `-` and `.`
unfoldable pub is_safe : Char → Bool
is_safe c =
    between 97 122 (code c)
    || between 65 90 (code c)
    || between 48 57 (code c)
    || (code c == 95)
    || (code c == 45)
    || (code c == 46)

unfoldable pub safe_part : String → String
unfolding is_safe
safe_part String.[] = String.[]
safe_part (String.◌∷◌ c s) = let rest = safe_part s in if is_safe c then String.◌∷◌ c rest else rest

unfoldable pub sanitize_username : String → String
unfolding safe_part
sanitize_username username =
    let result = safe_part username in if result == "" then "_anonymous" else result

-- The name inside `baseDir`
unfoldable pub user_file_path : String → String
user_file_path username = String.◌++◌ (sanitize_username username) ".json"

-- What a file decodes to.
pub data Content : Type 0 where
  stored : PanelConfig → Content
  corrupt : Content

-- How the calls into the file system end; a failed write may leave some content.
pub data ReadOutcome : Type 0 where
  read_done read_failed : ReadOutcome

pub data SaveOutcome : Type 0 where
  saved : SaveOutcome
  mkdir_failed : SaveOutcome
  save_failed : Content → SaveOutcome

pub data PrefsError : Type 0 where
  read_error mkdir_error write_error : PrefsError

pub record FileStore : Type 0 where
  pub files : List (String × Content)

loaded : Option Content → PanelConfig
loaded none = default_config
loaded (some corrupt) = default_config
loaded (some (stored cfg)) = record cfg { panels = merge_with_defaults cfg.panels }

-- A file that does not exist, or is not JSON, stands for the default.
unfoldable pub load : String → ReadOutcome → FileStore → Result PrefsError PanelConfig
unfolding loaded user_file_path
load username read_done s = ok (loaded (lookup (user_file_path username) s.files))
load username read_failed s = err read_error

unfoldable pub save :
    String → PanelConfig → SaveOutcome → FileStore → Result PrefsError (Unit {0}) × FileStore
unfolding user_file_path
save username cfg saved s =
    (ok tt, record s { files = insert (user_file_path username) (stored cfg) s.files })
save username cfg mkdir_failed s = (err mkdir_error, s)
save username cfg (save_failed left) s =
    (err write_error, record s { files = insert (user_file_path username) left s.files })
