-- ===== src/Storage/Table/Distinct.antt =====
-- A UNIQUE column: no two rows have the same key.
use etcdmonitor.Prelude.{
  ◌≤◌, ◌≡◌, refl, Bool, true, false, List, [], ◌∷◌, ◌++◌, arith, if◌then◌else◌, Eq, ◌==◌,
}
use etcdmonitor.Storage.Table.{count, update, delete, count-update, count-delete_le, count-append}

module _ {ℓ κ} {A : Type ℓ} {K : Type κ} ⦃e : Eq K⦄ (key : A → K) where
  -- `WHERE key = k`
  abbrev pub keyed : K → A → Bool
  keyed k x = key x == k

  abbrev pub Distinct : List A → Type 0
  Distinct [] = Unit
  Distinct (x ∷ xs) = (count (keyed (key x)) xs ≡ 0) × Distinct xs

  count-eq_key : (j k : K) (xs : List A) → j ≡ k → count (keyed j) xs ≡ count (keyed k) xs
  count-eq_key j k xs h = rw h

  pub Distinct-count : (k : K) (xs : List A) → Distinct xs → count (keyed k) xs ≤ 1
  unfolding count
  Distinct-count k [] d = omega arith
  Distinct-count k (x ∷ xs) d =
      ground
        (arith, Distinct-count k xs d.1, (e.equal_iff (key x) k), count-eq_key (key x) k xs, d.0)

  pub Distinct-update :
      (p : A → Bool) (f : A → A) (xs : List A)
      → ((x : A) → key (f x) ≡ key x)
      → Distinct xs
      → Distinct (update p f xs)
  unfolding update
  Distinct-update p f [] h d = tt
  Distinct-update p f (x ∷ xs) h d = (head (p x), Distinct-update p f xs h d.1)
    where
      same : count (keyed (key x)) (update p f xs) ≡ 0
      same = rw (count-update p (keyed (key x)) f xs (λ y. rw (h y))) d.0

      head : (b : Bool) → count (keyed (key (if b then f x else x))) (update p f xs) ≡ 0
      head true = rw (h x) same
      head false = same

  pub Distinct-delete : (p : A → Bool) (xs : List A) → Distinct xs → Distinct (delete p xs)
  unfolding delete
  Distinct-delete p [] d = tt
  Distinct-delete p (x ∷ xs) d = keep (p x) (Distinct-delete p xs d.1)
    where
      keep :
          (b : Bool)
          → Distinct (delete p xs)
          → Distinct (if b then delete p xs else x ∷ delete p xs)
      keep true rest = rest
      keep false rest = (omega (arith, count-delete_le p (keyed (key x)) xs, d.0), rest)

  pub Distinct-insert :
      (x : A) (xs : List A) → count (keyed (key x)) xs ≡ 0 → Distinct xs → Distinct (xs ++ x ∷ [])
  unfolding count
  Distinct-insert x [] h d = (refl, tt)
  Distinct-insert x (y ∷ xs) h d = (
    ground (
      arith,
      count-append (keyed (key y)) xs (x ∷ []),
      (e.equal_iff (key x) (key y)),
      (e.equal_iff (key y) (key x)),
      d.0,
      h,
    ),
    Distinct-insert x xs (ground (arith, h)) d.1,
  )
