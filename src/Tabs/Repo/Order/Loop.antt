-- ===== src/Tabs/Repo/Order/Loop.antt =====
-- The loop of `UpdateOrderByUser` over the ordered IDs.
use etcdmonitor.Prelude.{
  ℕ, ◌+◌, ◌≤◌, ◌≡◌, ◌≢◌, refl, sym, ap, ◌∙◌, String, false, List, [], ◌∷◌, arith, All, ok, nat_eq,
  nat_beq_iff, string_eq, eq_iff,
}
use etcdmonitor.Storage.Table.{count, update, count-update}
use etcdmonitor.Tabs.Repo.{Tab, TabDb, Healthy, run_sql, owned, owned_id, moved, place_all}
use etcdmonitor.Tabs.Repo.Sorting.{placed_at, AllPlaced}

-- No ID occurs twice.
abbrev pub NoRepeat : List String → Type 0
NoRepeat [] = Unit
NoRepeat (x ∷ xs) = All (λ (y : String). x ≢ y) xs × NoRepeat xs

-- Every ID is one of the user's tabs.
abbrev pub AllOwned : ℕ → List String → List Tab → Type 0
AllOwned user [] ts = Unit
AllOwned user (id ∷ ids) ts = (1 ≤ count (owned_id id user) ts) × AllOwned user ids ts

AllOwned-moved :
    (user i now : ℕ) (id : String) (ids : List String) (ts : List Tab)
    → AllOwned user ids ts
    → AllOwned user ids (update (owned_id id user) (moved i now) ts)
AllOwned-moved user i now id [] ts h = tt
AllOwned-moved user i now id (k ∷ ids) ts h = (
  rw (count-update (owned_id id user) (owned_id k user) (moved i now) ts (λ t. refl)) h.0,
  AllOwned-moved user i now id ids ts h.1,
)

-- Moving a row gives it its position, and takes no other row from its own.
moved-placed :
    (user i now : ℕ) (id : String) (ts : List Tab)
    → count (placed_at user i id) (update (owned_id id user) (moved i now) ts)
      ≡ count (owned_id id user) ts
unfolding count update
moved-placed user i now id [] = refl
moved-placed user i now id (t ∷ ts) = ground (arith, moved-placed user i now id ts, nat_beq_iff i i)

moved-kept :
    (user i j now : ℕ) (id k : String) (ts : List Tab)
    → id ≢ k
    → count (placed_at user j k) (update (owned_id id user) (moved i now) ts)
      ≡ count (placed_at user j k) ts
unfolding count update
moved-kept user i j now id k [] ne = refl
moved-kept user i j now id k (t ∷ ts) ne =
    ground (arith, moved-kept user i j now id k ts ne, eq_iff t.id id, eq_iff t.id k)

module _ (user now : ℕ) where
  step : ℕ → String → TabDb → TabDb
  step i id s = record s {
    tabs = update (owned_id id user) (moved i now) s.tabs;
    statements = s.statements + 1;
  }

  -- One turn of the loop.
  place_all-step :
      (i : ℕ) (id : String) (ids : List String) (s : TabDb)
      → s.fails s.statements ≡ false
      → 1 ≤ count (owned_id id user) s.tabs
      → place_all user now i (id ∷ ids) s ≡ place_all user now (i + 1) ids (step i id s)
  unfolding place_all run_sql step
  place_all-step i id ids s fine h = ground arith

  place_all-kept :
      (i j : ℕ) (k : String) (ids : List String) (s : TabDb)
      → All (λ (y : String). k ≢ y) ids
      → Healthy s
      → AllOwned user ids s.tabs
      → count (placed_at user j k) (place_all user now i ids s).1.tabs
        ≡ count (placed_at user j k) s.tabs
  unfolding place_all step
  place_all-kept i j k [] s ne healthy h = refl
  place_all-kept i j k (id ∷ ids) s ne healthy h =
      ap (λ r. count (placed_at user j k) r.1.tabs)
        (place_all-step i id ids s (healthy s.statements) h.0)
      ∙ place_all-kept (i + 1) j k ids (step i id s) ne.1 healthy
          (AllOwned-moved user i now id ids s.tabs h.1)
      ∙ moved-kept user i j now id k s.tabs (λ e. ne.0 (sym e))

  pub place_all-AllPlaced :
      (i : ℕ) (ids : List String) (s : TabDb)
      → NoRepeat ids
      → Healthy s
      → AllOwned user ids s.tabs
      → ((place_all user now i ids s).0 ≡ ok tt)
        × ((place_all user now i ids s).1.fails ≡ s.fails)
        × (count (owned user) (place_all user now i ids s).1.tabs ≡ count (owned user) s.tabs)
        × AllPlaced user i ids (place_all user now i ids s).1.tabs
  unfolding place_all step
  place_all-AllPlaced i [] s once healthy h = (refl, refl, refl, tt)
  place_all-AllPlaced i (id ∷ ids) s once healthy h =
      let turn = place_all-step i id ids s (healthy s.statements) h.0 in
      let owned' = AllOwned-moved user i now id ids s.tabs h.1 in
      let rest = place_all-AllPlaced (i + 1) ids (step i id s) once.1 healthy owned' in
      rw turn (
        rest.0,
        rest.1,
        rest.2 ∙ count-update (owned_id id user) (owned user) (moved i now) s.tabs (λ t. refl),
        (
          omega (
            arith,
            place_all-kept (i + 1) i id ids (step i id s) once.0 healthy owned',
            moved-placed user i now id s.tabs,
            h.0,
          ),
          rest.3,
        ),
      )
