-- ===== src/Tabs/Repo/Sorting.antt =====
-- Rows that carry the orders i, i + 1, …, one each, are sorted into that sequence.
use etcdmonitor.Prelude.{
  ℕ, suc, ◌+◌, ◌≤◌, ◌<◌, ◌≡◌, refl, String, Bool, true, false, List, [], ◌∷◌, leb, arith, All, ◌==◌,
  nat_eq, nat_beq_iff, string_eq, if◌then◌else◌, length, eq_iff, map,
}
use etcdmonitor.Storage.Table.{count}
use etcdmonitor.Tabs.Repo.{Tab, owned_id, by_order, place}

abbrev pub tab_id : Tab → String
tab_id t = t.id

-- The user's row `id`, at position i
abbrev pub placed_at : ℕ → ℕ → String → Tab → Bool
placed_at user i id t = if owned_id id user t then t.sort_order == i else false

placed-order :
    (user i : ℕ) (id : String) (t : Tab) → placed_at user i id t ≡ true → t.sort_order ≡ i
placed-order user i id t h = ground (arith, nat_beq_iff t.sort_order i)

placed-id : (user i : ℕ) (id : String) (t : Tab) → placed_at user i id t ≡ true → t.id ≡ id
placed-id user i id t h = ground (arith, eq_iff t.id id)

-- Each of the IDs has a row at its position, counted from i.
abbrev pub AllPlaced : ℕ → ℕ → List String → List Tab → Type 0
AllPlaced user i [] ts = Unit
AllPlaced user i (id ∷ ids) ts =
    (1 ≤ count (placed_at user i id) ts) × AllPlaced user (i + 1) ids ts

-- The list is those rows, in that sequence.
abbrev pub Sequence : ℕ → List String → List Tab → Type 0
Sequence i [] [] = Unit
Sequence i [] (t ∷ ts) = ⊥
Sequence i (id ∷ ids) [] = ⊥
Sequence i (id ∷ ids) (t ∷ ts) = (t.id ≡ id) × (t.sort_order ≡ i) × Sequence (i + 1) ids ts

pub Sequence-ids :
    (i : ℕ) (ids : List String) (ts : List Tab) → Sequence i ids ts → map tab_id ts ≡ ids
Sequence-ids i [] [] h = refl
Sequence-ids i [] (t ∷ ts) h = absurd h
Sequence-ids i (id ∷ ids) [] h = absurd h
Sequence-ids i (id ∷ ids) (t ∷ ts) h = rw (h.0, Sequence-ids (i + 1) ids ts h.2) refl

abbrev After : ℕ → List Tab → Type 0
After i ts = All (λ (t : Tab). i < t.sort_order) ts

Sequence-After :
    (i j : ℕ) (ids : List String) (ts : List Tab) → i < j → Sequence j ids ts → After i ts
Sequence-After i j [] [] l h = tt
Sequence-After i j [] (t ∷ ts) l h = absurd h
Sequence-After i j (id ∷ ids) [] l h = absurd h
Sequence-After i j (id ∷ ids) (t ∷ ts) l h =
    (omega (arith, h.1), Sequence-After i (j + 1) ids ts (omega arith) h.2)

-- The list without the first row that passes a test
take_out : (Tab → Bool) → List Tab → List Tab
take_out p [] = []
take_out p (t ∷ ts) = let rest = take_out p ts in if p t then ts else t ∷ rest

length-take_out :
    (p : Tab → Bool) (ts : List Tab) → 1 ≤ count p ts → suc (length (take_out p ts)) ≡ length ts
unfolding take_out count
length-take_out p [] h = absurd (omega arith)
length-take_out p (t ∷ ts) h = ground (arith, length-take_out p ts)

count-take_out :
    (p q : Tab → Bool) (ts : List Tab)
    → ((t : Tab) → p t ≡ true → q t ≡ false)
    → count q (take_out p ts) ≡ count q ts
unfolding take_out count
count-take_out p q [] h = refl
count-take_out p q (t ∷ ts) h = ground (arith, h t, count-take_out p q ts h)

AllPlaced-take_out :
    (user i j : ℕ) (id : String) (ids : List String) (ts : List Tab)
    → i < j
    → AllPlaced user j ids ts
    → AllPlaced user j ids (take_out (placed_at user i id) ts)
AllPlaced-take_out user i j id [] ts l h = tt
AllPlaced-take_out user i j id (k ∷ ids) ts l h = (
  rw (count-take_out (placed_at user i id) (placed_at user j k) ts other) h.0,
  AllPlaced-take_out user i (j + 1) id ids ts (omega arith) h.1,
)
  where
    other : (t : Tab) → placed_at user i id t ≡ true → placed_at user j k t ≡ false
    other t h = ground (arith, nat_beq_iff t.sort_order i, nat_beq_iff t.sort_order j)

After-place :
    (i : ℕ) (t : Tab) (ts : List Tab) → After i (place t ts) → (i < t.sort_order) × After i ts
unfolding place
After-place i t [] h = (h.0, tt)
After-place i t (u ∷ us) h = split (leb t.sort_order u.sort_order) (After-place i t us) h
  where
    split :
        (b : Bool)
        → (After i (place t us) → (i < t.sort_order) × After i us)
        → After i (if b then t ∷ u ∷ us else u ∷ place t us)
        → (i < t.sort_order) × After i (u ∷ us)
    split true rest h = (h.0, h.1)
    split false rest h = let r = rest h.1 in (r.0, (h.0, r.1))

-- A row before all others comes first.
place_first : (t : Tab) (ts : List Tab) → After t.sort_order ts → place t ts ≡ t ∷ ts
unfolding place
place_first t [] h = refl
place_first t (u ∷ us) h = ground (arith, h.0)

place_later :
    (t u : Tab) (us : List Tab) → u.sort_order < t.sort_order → place t (u ∷ us) ≡ u ∷ place t us
unfolding place
place_later t u us h = ground arith

-- Sorting brings the row that a test finds to the front, when all others come later.
by_order-take_out :
    (i : ℕ) (p : Tab → Bool) (ts : List Tab)
    → ((t : Tab) → p t ≡ true → t.sort_order ≡ i)
    → 1 ≤ count p ts
    → After i (by_order (take_out p ts))
    → (x : Tab) × (p x ≡ true) × (by_order ts ≡ x ∷ by_order (take_out p ts))
unfolding by_order take_out count
by_order-take_out i p [] at h after = absurd (omega arith)
by_order-take_out i p (t ∷ ts) at h after = split (p t) refl (by_order-take_out i p ts at) h after
  where
    Found : List Tab → List Tab → Type 0
    Found us rest = (x : Tab) × (p x ≡ true) × (by_order us ≡ x ∷ by_order rest)

    split :
        (b : Bool)
        → p t ≡ b
        → (1 ≤ count p ts → After i (by_order (take_out p ts)) → Found ts (take_out p ts))
        → 1 ≤ (if b then 1 else 0) + count p ts
        → After i (by_order (if b then ts else t ∷ take_out p ts))
        → Found (t ∷ ts) (if b then ts else t ∷ take_out p ts)
    split true e rest h after = (t, e, place_first t (by_order ts) (rw (at t e) after))
    split false e rest h after =
        let after' = After-place i t (by_order (take_out p ts)) after in
        let (x, px, e') = rest (omega (arith, h)) after'.1 in
        (
          x,
          px,
          rw e' (place_later t x (by_order (take_out p ts)) (omega (arith, at x px, after'.0))),
        )

pub by_order-Sequence :
    (user i : ℕ) (ids : List String) (ts : List Tab)
    → length ts ≡ length ids
    → AllPlaced user i ids ts
    → Sequence i ids (by_order ts)
unfolding by_order
by_order-Sequence user i [] [] e h = tt
by_order-Sequence user i [] (t ∷ ts) e h = absurd (omega (arith, e))
by_order-Sequence user i (id ∷ ids) ts e h =
    let p : Tab → Bool = placed_at user i id in
    let later : Sequence (i + 1) ids (by_order (take_out p ts)) =
      by_order-Sequence user (i + 1) ids (take_out p ts)
        (omega (arith, length-take_out p ts h.0, e))
        (AllPlaced-take_out user i (i + 1) id ids ts (omega arith) h.1) in
    let (x, px, sorted) =
      by_order-take_out i p ts (λ t at. placed-order user i id t at) h.0
        (Sequence-After i (i + 1) ids (by_order (take_out p ts)) (omega arith) later) in
    rw sorted (placed-id user i id x px, placed-order user i id x px, later)
