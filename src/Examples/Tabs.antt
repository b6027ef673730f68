-- ===== src/Examples/Tabs.antt =====
-- Tabs of two users.
use etcdmonitor.Prelude.{
  ℕ, ◌≡◌, ◌≢◌, refl, String, false, List, [], ◌∷◌, none, some, ok, err, arith, map, Result, ◌==◌,
  nat_eq, string_eq, eq_iff, lookup,
}
use etcdmonitor.Storage.Table.{query_row, count, update}
use etcdmonitor.Tabs.Repo.{Tab, PatchFields, TabDb, update_order_by_user, list_by_user, run_sql}
use etcdmonitor.Tabs.Repo.Sorting.{tab_id}
use etcdmonitor.Tabs.Repo.Order.{reordered, reorder_undone}
use etcdmonitor.Tabs.Manager.{TabManager, failures}
use etcdmonitor.Tabs.Manager.Watch.{Watching, run_pings, watch, pings_watch}

abbrev pub tab : String → ℕ → ℕ → Tab
tab id user order = record {
  id = id;
  created_by_user_id = user;
  name = "n";
  endpoint = "https://e1:2379";
  username = "root";
  password_cipher = 1 ∷ 2 ∷ [];
  sort_order = order;
  last_status = "ok";
  last_error = "";
  last_checked_at = 0;
  created_at = 1;
  updated_at = 1;
}

abbrev db : TabDb
db = record {
  tabs = tab "a" 1 0 ∷ tab "x" 2 0 ∷ tab "b" 1 1 ∷ [];
  fails = λ _. false;
  statements = 0;
}

abbrev renamed : PatchFields
renamed = record {
  name = some "m";
  endpoint = none;
  username = none;
  password_cipher = none;
  updated_at = none;
}

differ : (a b : String) → (a == b) ≡ false → a ≢ b
differ a b h e = ground (arith, eq_iff a b, h, e)

failure : {A E : Type 0} {e : E} {a : A} (r : Result E A) → r ≡ err e → r ≢ ok a
failure r p q = cc

reordered_example :
    ((update_order_by_user 9 1 ("b" ∷ "a" ∷ []) db).0 ≡ ok tt)
    × ((ts : List Tab) × ((list_by_user 1 (update_order_by_user 9 1 ("b" ∷ "a" ∷ []) db).1).0
          ≡ ok ts)
        × (map tab_id ts ≡ "b" ∷ "a" ∷ []))
unfolding count
reordered_example =
    reordered 1 9 ("b" ∷ "a" ∷ []) db (λ n. refl) ((differ "b" "a" refl, tt), (tt, tt)) refl
      (omega arith, (omega arith, tt))

-- One ID given twice, and the other left out
repeated_id_accepted : (update_order_by_user 9 1 ("a" ∷ "a" ∷ []) db).0 ≡ ok tt
unfolding update_order_by_user run_sql count update
repeated_id_accepted = refl

reorder_undone_example : (update_order_by_user 9 1 ("b" ∷ "x" ∷ []) db).1.tabs ≡ db.tabs
unfolding update_order_by_user run_sql count update
reorder_undone_example = reorder_undone 1 9 ("b" ∷ "x" ∷ []) db (failure _ refl)

abbrev manager : TabManager
manager = record { db = db; failure_count = []; failure_threshold = 2 }

abbrev decrypt : List ℕ → Result String String
decrypt _ = ok "secret"

watching : Watching "a" manager (0, tab "a" 1 0)
unfolding failures query_row lookup
watching = record { works = λ n. refl; threshold = refl; number = refl; row = refl }

abbrev answers : List (ℕ × (String × String))
answers = (10, ("unreachable", "e")) ∷ (20, ("ok", "")) ∷ []

pings_watch_example :
    Watching "a" (run_pings decrypt "a" answers manager) (watch answers (0, tab "a" 1 0))
pings_watch_example =
    pings_watch decrypt "a" answers "secret" manager (0, tab "a" 1 0) watching refl
