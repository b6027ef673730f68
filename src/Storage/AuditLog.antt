-- ===== src/Storage/AuditLog.antt =====
-- Reading the audit log (internal/storage/storage.go, `QueryAuditLogs`). The rows stand in the order
-- of their ids, and each can be scanned.
pub mod Pages
use etcdmonitor.Prelude.{
  ℕ, zero, suc, ◌+◌, ◌-◌, ◌*◌, String, Bool, true, false, List, [], ◌∷◌, Result, ok, err, ltb, leb,
  ◌==◌, string_eq, if◌then◌else◌, take, drop, ℤ, pos, negsuc, positive_or,
}
use etcdmonitor.Storage.Table.{select, count, delete}
use etcdmonitor.Storage.Users.{Storage, AuditEntry, DbError, exec}

pub record AuditFilter : Type 0 where
  pub operation : String
  pub page : ℤ
  pub page_size : ℤ

-- `WHERE operation = ?`, or no condition
abbrev pub matches : String → AuditEntry → Bool
matches operation e = if operation == "" then true else e.operation == operation

-- `ORDER BY timestamp DESC, id DESC`: an entry goes after the later ones that are not older.
unfoldable pub insert_older : AuditEntry → List AuditEntry → List AuditEntry
insert_older e [] = e ∷ []
insert_older e (f ∷ fs) =
    let later = insert_older e fs in if leb e.timestamp f.timestamp then f ∷ later else e ∷ f ∷ fs

unfoldable pub newest_first : List AuditEntry → List AuditEntry
unfolding insert_older
newest_first [] = []
newest_first (e ∷ es) = insert_older e (newest_first es)

-- `LIMIT ? OFFSET ?`
abbrev pub page_rows : ℕ → ℕ → List AuditEntry → List AuditEntry
page_rows page size rows = take size (drop ((page - 1) * size) rows)

paged : AuditFilter → Result DbError ℕ → Storage → Result DbError (List AuditEntry × ℕ) × Storage
unfolding exec newest_first
paged filter (err e) s = (err e, s)
paged filter (ok total) s = exec s λ s'. (
  ok (
    page_rows (positive_or 1 filter.page) (positive_or 20 filter.page_size)
        (newest_first (select (matches filter.operation) s'.audit_log)),
    total,
  ),
  s',
)

-- The rows of a page, and the number of rows on all pages
unfoldable pub query_audit_logs :
    AuditFilter → Storage → Result DbError (List AuditEntry × ℕ) × Storage
unfolding exec paged
query_audit_logs filter s =
    let r = exec s (λ s'. (ok (count (matches filter.operation) s'.audit_log), s')) in
    paged filter r.0 r.1
