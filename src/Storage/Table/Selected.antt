-- ===== src/Storage/Table/Selected.antt =====
-- What a SELECT returns after the other statements.
use etcdmonitor.Prelude.{
  ◌≡◌, refl, Bool, true, false, List, [], ◌∷◌, ◌++◌, arith, if◌then◌else◌, length,
}
use etcdmonitor.Storage.Table.{select, count, update, delete}

module _ {ℓ} {A : Type ℓ} where
  pub select-update_ne :
      (p q : A → Bool) (f : A → A) (xs : List A)
      → ((x : A) → p x ≡ true → (q x ≡ false) × (q (f x) ≡ false))
      → select q (update p f xs) ≡ select q xs
  unfolding select update
  select-update_ne p q f [] h = refl
  select-update_ne p q f (x ∷ xs) h = ground (arith, h x, select-update_ne p q f xs h)

  -- An update that keeps the test of the SELECT is an update of what it returns.
  pub select-update :
      (p q : A → Bool) (f : A → A) (xs : List A)
      → ((x : A) → q (f x) ≡ q x)
      → select q (update p f xs) ≡ update p f (select q xs)
  unfolding select update
  select-update p q f [] h = refl
  select-update p q f (x ∷ xs) h = ground (arith, h x, select-update p q f xs h)

  pub select-delete_ne :
      (p q : A → Bool) (xs : List A)
      → ((x : A) → p x ≡ true → q x ≡ false)
      → select q (delete p xs) ≡ select q xs
  unfolding select delete
  select-delete_ne p q [] h = refl
  select-delete_ne p q (x ∷ xs) h = ground (arith, h x, select-delete_ne p q xs h)

  -- A row at the end is selected last, or not at all.
  pub select-insert :
      (q : A → Bool) (y : A) (xs : List A)
      → select q (xs ++ y ∷ []) ≡ (if q y then select q xs ++ y ∷ [] else select q xs)
  unfolding select
  select-insert q y [] = ground arith
  select-insert q y (x ∷ xs) = ground (arith, select-insert q y xs)

  pub count-select : (q : A → Bool) (xs : List A) → count q xs ≡ length (select q xs)
  unfolding count select
  count-select q [] = refl
  count-select q (x ∷ xs) = ground (arith, count-select q xs)
