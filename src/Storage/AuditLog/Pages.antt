-- ===== src/Storage/AuditLog/Pages.antt =====
-- The pages of the audit log, put together.
use etcdmonitor.Prelude.{
  ℕ, zero, suc, ◌+◌, ◌-◌, ◌*◌, ◌≤◌, ◌≡◌, refl, sym, ap, ◌∙◌, String, Bool, false, List, [], ◌∷◌,
  ◌++◌, Result, ok, err, leb, if◌then◌else◌, Bool-cases, inl, inr, take, drop, length, pos, arith,
}
use etcdmonitor.Storage.Table.{select, count}
use etcdmonitor.Storage.Users.{Storage, AuditEntry, DbError, exec}
use etcdmonitor.Storage.AuditLog.{matches, insert_older, newest_first, paged, query_audit_logs}

abbrev rows_of : Result DbError (List AuditEntry × ℕ) → List AuditEntry
rows_of (err e) = []
rows_of (ok r) = r.0

-- The rows of a page, by a query that may fail
unfoldable pub page_of : String → ℕ → ℕ → Storage → List AuditEntry
unfolding query_audit_logs
page_of op size page s =
    rows_of
      (query_audit_logs (record { operation = op; page = pos page; page_size = pos size }) s).0

-- The first pages, one after the other
unfoldable pub first_pages : String → ℕ → ℕ → Storage → List AuditEntry
first_pages op size zero s = []
first_pages op size (suc n) s = first_pages op size n s ++ page_of op size (suc n) s

-- The entries that a query asks for, in its order
abbrev pub wanted : String → Storage → List AuditEntry
wanted op s = newest_first (select (matches op) s.audit_log)

before_it : (n : ℕ) → suc n - 1 ≡ n
before_it n = omega arith

query_rows :
    (op : String) (size n : ℕ) (s : Storage)
    → ((i : ℕ) → s.fails i ≡ false)
    → page_of op (suc size) (suc n) s ≡ take (suc size) (drop (n * suc size) (wanted op s))
unfolding page_of query_audit_logs paged exec
query_rows op size n s works = rw (works s.statements) (
    rw (works (s.statements + 1))
      (ap (λ k. take (suc size) (drop (k * suc size) (wanted op s))) (before_it n)))

take_nil : (n : ℕ) → take {A = AuditEntry} n [] ≡ []
take_nil zero = refl
take_nil (suc n) = refl

suc_out : (a b : ℕ) → suc (a + b) ≡ suc a + b
suc_out a b = omega arith

zero_out : (b : ℕ) → b ≡ 0 + b
zero_out b = omega arith

take_more : (a b : ℕ) (xs : List AuditEntry) → take a xs ++ take b (drop a xs) ≡ take (a + b) xs
take_more zero b xs = ap (λ k. take k xs) (zero_out b)
take_more (suc a) b [] = take_nil b ∙ sym (take_nil (suc a + b))
take_more (suc a) b (x ∷ xs) =
    ap (λ l. x ∷ l) (take_more a b xs) ∙ ap (λ k. take k (x ∷ xs)) (suc_out a b)

no_pages : (size : ℕ) → 0 ≡ 0 * suc size
no_pages size = omega arith

one_page_more : (n size : ℕ) → n * suc size + suc size ≡ suc n * suc size
one_page_more n size = omega arith

first_pages-take :
    (op : String) (size n : ℕ) (s : Storage)
    → ((i : ℕ) → s.fails i ≡ false)
    → first_pages op (suc size) n s ≡ take (n * suc size) (wanted op s)
unfolding first_pages
first_pages-take op size zero s works = ap (λ k. take k (wanted op s)) (no_pages size)
first_pages-take op size (suc n) s works =
    ap (λ l. l ++ page_of op (suc size) (suc n) s) (first_pages-take op size n s works)
    ∙ ap (λ l. take (n * suc size) (wanted op s) ++ l) (query_rows op size n s works)
    ∙ take_more (n * suc size) (suc size) (wanted op s)
    ∙ ap (λ k. take k (wanted op s)) (one_page_more n size)

take_all : (n : ℕ) (xs : List AuditEntry) → length xs ≤ n → take n xs ≡ xs
take_all zero [] h = refl
take_all zero (x ∷ xs) h = absurd (omega (arith, h))
take_all (suc n) [] h = refl
take_all (suc n) (x ∷ xs) h = ap (λ l. x ∷ l) (take_all n xs (omega (arith, h)))

-- No entry stands before a newer one.
abbrev pub NewestFirst : List AuditEntry → Type 0
NewestFirst [] = Unit
NewestFirst (e ∷ []) = Unit
NewestFirst (e ∷ f ∷ rest) = (f.timestamp ≤ e.timestamp) × NewestFirst (f ∷ rest)

abbrev NotNewer : List AuditEntry → AuditEntry → Type 0
NotNewer [] f = Unit
NotNewer (e ∷ rest) f = e.timestamp ≤ f.timestamp

cons_NewestFirst :
    (f : AuditEntry) (rest : List AuditEntry)
    → NotNewer rest f
    → NewestFirst rest
    → NewestFirst (f ∷ rest)
cons_NewestFirst f [] h n = tt
cons_NewestFirst f (e ∷ rest) h n = (h, n)

uncons_NewestFirst :
    (f : AuditEntry) (rest : List AuditEntry)
    → NewestFirst (f ∷ rest)
    → NotNewer rest f × NewestFirst rest
uncons_NewestFirst f [] n = (tt, tt)
uncons_NewestFirst f (e ∷ rest) n = (n.0, n.1)

insert_older-NotNewer :
    (e f : AuditEntry) (rest : List AuditEntry)
    → e.timestamp ≤ f.timestamp
    → NotNewer rest f
    → NotNewer (insert_older e rest) f
unfolding insert_older
insert_older-NotNewer e f [] h n = h
insert_older-NotNewer e f (g ∷ rest) h n = elim (Bool-cases (leb e.timestamp g.timestamp)) [
  | inl b ↦ rw b n
  | inr b ↦ rw b h
]

insert_older-NewestFirst :
    (e : AuditEntry) (es : List AuditEntry) → NewestFirst es → NewestFirst (insert_older e es)
unfolding insert_older
insert_older-NewestFirst e [] n = tt
insert_older-NewestFirst e (f ∷ rest) n =
    let parts = uncons_NewestFirst f rest n in
    elim (Bool-cases (leb e.timestamp f.timestamp)) [
      | inl b ↦ rw b (
          cons_NewestFirst f (insert_older e rest)
            (insert_older-NotNewer e f rest (ground (arith, b)) parts.0)
            (insert_older-NewestFirst e rest parts.1))
      | inr b ↦ rw b (ground (arith, b), n)
    ]

newest_first-NewestFirst : (es : List AuditEntry) → NewestFirst (newest_first es)
unfolding newest_first
newest_first-NewestFirst [] = tt
newest_first-NewestFirst (e ∷ es) =
    insert_older-NewestFirst e (newest_first es) (newest_first-NewestFirst es)

count-insert_older :
    (p : AuditEntry → Bool) (e : AuditEntry) (es : List AuditEntry)
    → count p (insert_older e es) ≡ count p (e ∷ es)
unfolding insert_older count
count-insert_older p e [] = refl
count-insert_older p e (f ∷ es) = ground (arith, count-insert_older p e es)

count-newest_first :
    (p : AuditEntry → Bool) (es : List AuditEntry) → count p (newest_first es) ≡ count p es
unfolding newest_first count
count-newest_first p [] = refl
count-newest_first p (e ∷ es) =
    count-insert_older p e (newest_first es)
    ∙ ap (λ n. (if p e then 1 else 0) + n) (count-newest_first p es)

-- When every statement is executed and the pages are enough for all the entries that a query asks
-- for, the pages one after the other are these entries, newest first, each as often as the log has
-- it, and a page does not have an entry of another.
pub pages_complete :
    (op : String) (size n : ℕ) (s : Storage)
    → ((i : ℕ) → s.fails i ≡ false)
    → length (wanted op s) ≤ n * suc size
    → (first_pages op (suc size) n s ≡ wanted op s)
      × NewestFirst (wanted op s)
      × ((p : AuditEntry → Bool)
          → count p (wanted op s) ≡ count p (select (matches op) s.audit_log))
pages_complete op size n s works enough = (
  first_pages-take op size n s works ∙ take_all (n * suc size) (wanted op s) enough,
  newest_first-NewestFirst (select (matches op) s.audit_log),
  λ p. count-newest_first p (select (matches op) s.audit_log),
)
