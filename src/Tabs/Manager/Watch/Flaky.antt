-- ===== src/Tabs/Manager/Watch/Flaky.antt =====
-- When a user sees a tab as broken.
use Prim.Native.String
use etcdmonitor.Prelude.{
  ℕ, ◌≡◌, ◌≢◌, String, Bool, true, false, List, [], ◌∷◌, some, Result, ok, arith, eq_iff, ◌==◌,
  nat_eq, string_eq, if◌then◌else◌,
}
use etcdmonitor.Storage.Table.{query_row}
use etcdmonitor.Tabs.Repo.{Tab, with_id}
use etcdmonitor.Tabs.Manager.{TabManager}
use etcdmonitor.Tabs.Manager.Watch.{Watching, watched, watch, run_pings, pings_watch}

-- No two answers in a row are failures; the flag tells whether the answer before was one.
abbrev pub spaced : Bool → List (ℕ × (String × String)) → Bool
spaced before [] = true
spaced before ((now, (status, err_msg)) ∷ answers) =
    let good = spaced false answers in
    let bad = spaced true answers in if status == "ok" then good else if before then false else bad

once :
    (c : ℕ × (String × String))
    → c.1.0 ≡ "ok"
    → (v : ℕ × Tab)
    → ((watched c.0 c.1 v).1.last_status ≡ "ok") × ((watched c.0 c.1 v).1.last_error ≡ "")
once (n, (status, err_msg)) e v = ground (arith, eq_iff status "ok", e)

twice :
    (a b : ℕ × (String × String))
    → a.1.0 ≢ "ok"
    → b.1.0 ≢ "ok"
    → (v : ℕ × Tab)
    → ((watched b.0 b.1 (watched a.0 a.1 v)).1.last_status ≡ "error")
      × ((watched b.0 b.1 (watched a.0 a.1 v)).1.last_error
          ≡ String.◌++◌ b.1.0 (String.◌++◌ ": " b.1.1))
twice (n, (status, err_msg)) (k, (status2, err_msg2)) e f v =
    ground (arith, eq_iff status "ok", eq_iff status2 "ok", e, f)

module _ (decrypt : List ℕ → Result String String) (id password : String) (m : TabManager)
    (v : ℕ × Tab) where
  -- Two failures in a row show the tab as broken with the last failure's class and message, and
  -- one success after them shows it as working.
  pub two_failures_shown :
      (a b c : ℕ × (String × String))
      → Watching id m v
      → decrypt v.1.password_cipher ≡ ok password
      → a.1.0 ≢ "ok"
      → b.1.0 ≢ "ok"
      → c.1.0 ≡ "ok"
      → ((t : Tab) × (query_row (with_id id) (run_pings decrypt id (a ∷ b ∷ []) m).db.tabs ≡ some t)
          × (t.last_status ≡ "error")
          × (t.last_error ≡ String.◌++◌ b.1.0 (String.◌++◌ ": " b.1.1)))
        × ((t : Tab) × (query_row (with_id id) (run_pings decrypt id (a ∷ b ∷ c ∷ []) m).db.tabs
              ≡ some t)
            × (t.last_status ≡ "ok")
            × (t.last_error ≡ ""))
  two_failures_shown a b c w key bad1 bad2 good = (
    (
      (watch (a ∷ b ∷ []) v).1,
      (pings_watch decrypt id (a ∷ b ∷ []) password m v w key).row,
      (twice a b bad1 bad2 v).0,
      (twice a b bad1 bad2 v).1,
    ),
    (
      (watch (a ∷ b ∷ c ∷ []) v).1,
      (pings_watch decrypt id (a ∷ b ∷ c ∷ []) password m v w key).row,
      (once c good (watch (a ∷ b ∷ []) v)).0,
      (once c good (watch (a ∷ b ∷ []) v)).1,
    ),
  )
