-- ===== src/Tabs/Manager/Watch.antt =====
-- Probes as a small state machine: the failures in a row, and the row that the user sees.
pub mod Flaky
use Prim.Native.String
use etcdmonitor.Prelude.{
  ℕ, zero, suc, ◌+◌, ◌≡◌, ◌≢◌, refl, ap, ◌∙◌, sym, String, Bool, true, false, List, [], ◌∷◌, Option,
  none, some, Result, ok, err, ltb, arith, All, eq_iff, ◌==◌, nat_eq, string_eq, if◌then◌else◌,
  lookup, insert, erase, lookup-insert, lookup-erase, ==_refl, Bool-cases, inl, inr,
}
use etcdmonitor.Storage.Table.{query_row, update, query_row-update_self, query_row-test}
use etcdmonitor.Tabs.Repo.{Tab, TabDb, Healthy, run_sql, list_all, update_status, with_id}
use etcdmonitor.Tabs.Manager.Conn.{ConnectionConfig}
use etcdmonitor.Tabs.Manager.{
  TabManager, failures, count_or_zero, reset_failure_count, bump_failure_count, store_status,
  keep_answer, ping_row, ping_listed, ping_tab, ping, tab_connection,
}

-- The row with a status written.
abbrev pub marked : ℕ → String → String → Tab → Tab
marked now status err_msg t = record t {
  last_status = status;
  last_error = err_msg;
  last_checked_at = now;
}

-- The number of failures in a row and the row, after an answer; with threshold 2.
abbrev pub watched : ℕ → String × String → ℕ × Tab → ℕ × Tab
watched now (status, err_msg) (n, t) =
    if status == "ok"
    then (0, marked now "ok" "" t)
    else if ltb (n + 1) 2
    then (n + 1, marked now t.last_status t.last_error t)
    else (n + 1, marked now "error" (String.◌++◌ status (String.◌++◌ ": " err_msg)) t)

-- A manager whose table holds the tab, with its count of failures, and whose driver works.
pub record Watching (id : String) (m : TabManager) (v : ℕ × Tab) : Type 0 where
  pub works : Healthy m.db
  pub threshold : m.failure_threshold ≡ 2
  pub number : failures id m ≡ v.0
  pub row : query_row (with_id id) m.db.tabs ≡ some v.1

module _ (id : String) where
  store_status-row :
      (now : ℕ) (status err_msg : String) (m : TabManager) (t : Tab)
      → Healthy m.db
      → query_row (with_id id) m.db.tabs ≡ some t
      → (query_row (with_id id) (store_status now id status err_msg m).db.tabs
          ≡ some (marked now status err_msg t))
        × (Healthy (store_status now id status err_msg m).db)
  unfolding store_status update_status run_sql
  store_status-row now status err_msg m t works row = (
    rw (works m.db.statements) (
        query_row-update_self (with_id id) (marked now status err_msg) m.db.tabs t (λ u. refl) row),
    λ n. rw (works m.db.statements) (works n),
  )

  reset-failures : (m : TabManager) → failures id (reset_failure_count id m) ≡ 0
  unfolding failures reset_failure_count
  reset-failures m =
      ap count_or_zero (lookup-erase id id m.failure_count)
      ∙ ap (λ b. count_or_zero (if b then none else lookup id m.failure_count)) (==_refl id)

  bump-failures : (m : TabManager) → failures id (bump_failure_count id m).1 ≡ failures id m + 1
  unfolding failures bump_failure_count
  bump-failures m =
      let n = failures id m + 1 in
      ap count_or_zero (lookup-insert id id n m.failure_count)
      ∙ ap (λ b. count_or_zero (if b then some n else lookup id m.failure_count)) (==_refl id)

  store_status-Watching :
      (now : ℕ) (status err_msg : String) (m : TabManager) (v : ℕ × Tab)
      → Watching id m v
      → Watching id (store_status now id status err_msg m) (v.0, marked now status err_msg v.1)
  unfolding failures store_status
  store_status-Watching now status err_msg m v w =
      let (row, works) = store_status-row now status err_msg m v.1 w.works w.row in
      record { works = works; threshold = w.threshold; number = w.number; row = row }

  module _ (now : ℕ) (status err_msg : String) (m : TabManager) (t : Tab) where
    keep_answer-ok :
        (status == "ok") ≡ true
        → keep_answer now id t (status, err_msg) m
          ≡ store_status now id "ok" "" (reset_failure_count id m)
    unfolding keep_answer
    keep_answer-ok e = rw e refl

    keep_answer-low :
        (status == "ok") ≡ false
        → ltb (failures id m + 1) m.failure_threshold ≡ true
        → keep_answer now id t (status, err_msg) m
          ≡ store_status now id t.last_status t.last_error (bump_failure_count id m).1
    unfolding keep_answer bump_failure_count
    keep_answer-low e l = rw (e, l) refl

    keep_answer-high :
        (status == "ok") ≡ false
        → ltb (failures id m + 1) m.failure_threshold ≡ false
        → keep_answer now id t (status, err_msg) m
          ≡ store_status now id "error"
              (String.◌++◌ status (String.◌++◌ ": " err_msg))
              (bump_failure_count id m).1
    unfolding keep_answer bump_failure_count
    keep_answer-high e l = rw (e, l) refl

  reset-Watching :
      (m : TabManager) (v : ℕ × Tab)
      → Watching id m v
      → Watching id (reset_failure_count id m) (0, v.1)
  unfolding reset_failure_count
  reset-Watching m v w = record {
    works = w.works;
    threshold = w.threshold;
    number = reset-failures m;
    row = w.row;
  }

  bump-Watching :
      (m : TabManager) (v : ℕ × Tab)
      → Watching id m v
      → Watching id (bump_failure_count id m).1 (v.0 + 1, v.1)
  unfolding bump_failure_count
  bump-Watching m v w = record {
    works = w.works;
    threshold = w.threshold;
    number = bump-failures m ∙ ap (λ n. n + 1) w.number;
    row = w.row;
  }

  -- What is kept of an answer is what the small machine does with it.
  keep_answer-Watching :
      (now : ℕ) (answer : String × String) (m : TabManager) (v : ℕ × Tab)
      → Watching id m v
      → Watching id (keep_answer now id v.1 answer m) (watched now answer v)
  keep_answer-Watching now (status, err_msg) m v w =
      by_status (status == "ok") refl (ltb (v.0 + 1) 2) refl
    where
      same : ltb (failures id m + 1) m.failure_threshold ≡ ltb (v.0 + 1) 2
      same = ap (λ n. ltb (n + 1) m.failure_threshold) w.number ∙ ap (ltb (v.0 + 1)) w.threshold

      by_status :
          (good : Bool)
          → (status == "ok") ≡ good
          → (low : Bool) → ltb (v.0 + 1) 2 ≡ low
          → Watching id
              (keep_answer now id v.1 (status, err_msg) m)
              (watched now (status, err_msg) v)
      by_status true e low l =
          rw (keep_answer-ok now status err_msg m v.1 e, e)
            (store_status-Watching now "ok" "" _ _ (reset-Watching m v w))
      by_status false e true l =
          rw (keep_answer-low now status err_msg m v.1 e (same ∙ l), e, l)
            (store_status-Watching now v.1.last_status v.1.last_error _ _ (bump-Watching m v w))
      by_status false e false l =
          rw (keep_answer-high now status err_msg m v.1 e (same ∙ l), e, l)
            (store_status-Watching now "error" _ _ _ (bump-Watching m v w))

-- A run of probes with their answers, in time.
unfoldable pub run_pings :
    (List ℕ → Result String String)
    → String
    → List (ℕ × (String × String))
    → TabManager
    → TabManager
run_pings decrypt id [] m = m
run_pings decrypt id ((now, answer) ∷ answers) m =
    run_pings decrypt id answers (ping decrypt (λ _. answer) now id m).1

abbrev pub watch : List (ℕ × (String × String)) → ℕ × Tab → ℕ × Tab
watch [] v = v
watch ((now, answer) ∷ answers) v = watch answers (watched now answer v)

module _ (decrypt : List ℕ → Result String String) (id : String) where
  abbrev listed_db : TabManager → TabManager
  listed_db m = record m { db = record m.db { statements = m.db.statements + 1 } }

  listed-Watching : (m : TabManager) (v : ℕ × Tab) → Watching id m v → Watching id (listed_db m) v
  unfolding failures
  listed-Watching m v w = record {
    works = w.works;
    threshold = w.threshold;
    number = w.number;
    row = w.row;
  }

  list_all-works :
      (s : TabDb) → Healthy s → list_all s ≡ (ok s.tabs, record s { statements = s.statements + 1 })
  unfolding list_all run_sql
  list_all-works s works = rw (works s.statements) refl

  ping_answer :
      (now : ℕ) (answer : String × String) (password : String) (m : TabManager) (v : ℕ × Tab)
      → Watching id m v
      → decrypt v.1.password_cipher ≡ ok password
      → (ping decrypt (λ _. answer) now id m).1 ≡ keep_answer now id v.1 answer (listed_db m)
  unfolding ping ping_listed ping_row ping_tab
  ping_answer now answer password m v w key =
      let test : ConnectionConfig → String × String = λ _. answer in
      ap (λ r. (ping_listed decrypt test now id m r).1) (list_all-works m.db w.works)
      ∙ ap (λ o. (ping_row decrypt test now id o (listed_db m)).1) w.row
      ∙ ap (λ r. (ping_tab decrypt test now id v.1 r (listed_db m)).1) key

  kept_cipher :
      (now : ℕ) (answer : String × String) (v : ℕ × Tab)
      → (watched now answer v).1.password_cipher ≡ v.1.password_cipher
  kept_cipher now (status, err_msg) v = ground arith

  -- While the driver works and the tab's password can be decrypted, a run of probes does to the
  -- tab's row and its count of failures what the small machine does with the answers.
  pub pings_watch :
      (answers : List (ℕ × (String × String))) (password : String) (m : TabManager) (v : ℕ × Tab)
      → Watching id m v
      → decrypt v.1.password_cipher ≡ ok password
      → Watching id (run_pings decrypt id answers m) (watch answers v)
  unfolding run_pings
  pings_watch [] password m v w key = w
  pings_watch ((now, answer) ∷ answers) password m v w key =
      pings_watch answers password (ping decrypt (λ _. answer) now id m).1 (watched now answer v)
        (rw (ping_answer now answer password m v w key)
          (keep_answer-Watching id now answer (listed_db m) v (listed-Watching m v w)))
        (ap decrypt (kept_cipher now answer v) ∙ key)
