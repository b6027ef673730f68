-- ===== src/Storage/Table.antt =====
-- SQL tables as lists of rows in the order of their rowids, and the statements that the program
-- runs on them. A `WHERE` clause is a Boolean test of a row.
pub mod Distinct
pub mod Selected
use etcdmonitor.Prelude.{
  ℕ, suc, ◌+◌, ◌≤◌, ◌≡◌, refl, ap, Bool, true, false, List, [], ◌∷◌, ◌++◌, Option, none, some,
  arith, if◌then◌else◌, Bool-cases, inl, inr, length, All,
}

module _ {ℓ} {A : Type ℓ} where
  -- SELECT * … WHERE p
  unfoldable pub select : (A → Bool) → List A → List A
  select p [] = []
  select p (x ∷ xs) = let rest = select p xs in if p x then x ∷ rest else rest

  -- SELECT * … WHERE p, read by `QueryRow`: the first row, if there is one
  unfoldable pub query_row : (A → Bool) → List A → Option A
  query_row p [] = none
  query_row p (x ∷ xs) = if p x then some x else query_row p xs

  -- SELECT COUNT(*) … WHERE p, also the number of rows that an UPDATE or DELETE affects
  unfoldable pub count : (A → Bool) → List A → ℕ
  count p [] = 0
  count p (x ∷ xs) = (if p x then 1 else 0) + count p xs

  unfoldable pub update : (A → Bool) → (A → A) → List A → List A
  update p f [] = []
  update p f (x ∷ xs) = (if p x then f x else x) ∷ update p f xs

  unfoldable pub delete : (A → Bool) → List A → List A
  delete p [] = []
  delete p (x ∷ xs) = let rest = delete p xs in if p x then rest else x ∷ rest

  pub query_row-none : (p : A → Bool) (xs : List A) → count p xs ≡ 0 → query_row p xs ≡ none
  unfolding query_row count
  query_row-none p [] h = refl
  query_row-none p (x ∷ xs) h = ground (arith, query_row-none p xs)

  pub count-none : (p : A → Bool) (xs : List A) → query_row p xs ≡ none → count p xs ≡ 0
  unfolding query_row count
  count-none p [] h = refl
  count-none p (x ∷ xs) h = ground (arith, count-none p xs)

  pub count-some : (p : A → Bool) (xs : List A) (a : A) → query_row p xs ≡ some a → 1 ≤ count p xs
  unfolding query_row count
  count-some p [] a h = ground arith
  count-some p (x ∷ xs) a h = ground (arith, count-some p xs a)

  -- The row that is found passes the test.
  pub query_row-test : (p : A → Bool) (xs : List A) (a : A) → query_row p xs ≡ some a → p a ≡ true
  unfolding query_row
  query_row-test p [] a h = ground arith
  query_row-test p (x ∷ xs) a h = ground (arith, query_row-test p xs a)

  -- What holds of every row holds of the row that is found.
  pub query_row-All {κ} :
      (P : A → Type κ) (p : A → Bool) (xs : List A) (a : A)
      → All P xs
      → query_row p xs ≡ some a
      → P a
  unfolding query_row
  query_row-All P p [] a h e = absurd (ground arith)
  query_row-All P p (x ∷ xs) a h e = elim (Bool-cases (p x)) [
    | inl t ↦ subst_some (rw t at e)
    | inr t ↦ query_row-All P p xs a h.1 (rw t at e)
  ]
    where
      subst_some : some x ≡ some a → P a
      subst_some q = let q' : x ≡ a = cc in rw (← q') h.0

  -- An update of the rows that pass a test leaves what the other tests select.
  pub query_row-update_ne :
      (p q : A → Bool) (f : A → A) (xs : List A)
      → ((x : A) → p x ≡ true → (q x ≡ false) × (q (f x) ≡ false))
      → query_row q (update p f xs) ≡ query_row q xs
  unfolding query_row update
  query_row-update_ne p q f [] h = refl
  query_row-update_ne p q f (x ∷ xs) h = ground (arith, h x, query_row-update_ne p q f xs h)

  -- An update that keeps its own test changes the row that the test finds.
  pub query_row-update_self :
      (p : A → Bool) (f : A → A) (xs : List A) (a : A)
      → ((x : A) → p (f x) ≡ p x)
      → query_row p xs ≡ some a
      → query_row p (update p f xs) ≡ some (f a)
  unfolding query_row update
  query_row-update_self p f [] a h e = absurd (ground arith)
  query_row-update_self p f (x ∷ xs) a h e = ground (arith, h x, query_row-update_self p f xs a h)

  pub count-update :
      (p q : A → Bool) (f : A → A) (xs : List A)
      → ((x : A) → q (f x) ≡ q x)
      → count q (update p f xs) ≡ count q xs
  unfolding count update
  count-update p q f [] h = refl
  count-update p q f (x ∷ xs) h = ground (arith, h x, count-update p q f xs h)

  pub length-update : (p : A → Bool) (f : A → A) (xs : List A) → length (update p f xs) ≡ length xs
  unfolding update
  length-update p f [] = refl
  length-update p f (x ∷ xs) = ap suc (length-update p f xs)

  pub All-update {κ} :
      (P : A → Type κ) (p : A → Bool) (f : A → A) (xs : List A)
      → ((x : A) → P x → P (f x))
      → All P xs
      → All P (update p f xs)
  unfolding update
  All-update P p f [] h a = tt
  All-update P p f (x ∷ xs) h a = (one (p x), All-update P p f xs h a.1)
    where
      one : (b : Bool) → P (if b then f x else x)
      one true = h x a.0
      one false = a.0

  pub All-delete {κ} :
      (P : A → Type κ) (p : A → Bool) (xs : List A) → All P xs → All P (delete p xs)
  unfolding delete
  All-delete P p [] a = tt
  All-delete P p (x ∷ xs) a = keep (p x) (All-delete P p xs a.1)
    where
      keep : (b : Bool) → All P (delete p xs) → All P (if b then delete p xs else x ∷ delete p xs)
      keep true rest = rest
      keep false rest = (a.0, rest)

  -- A delete of the rows that pass a test leaves what the other tests select.
  pub query_row-delete_ne :
      (p q : A → Bool) (xs : List A)
      → ((x : A) → p x ≡ true → q x ≡ false)
      → query_row q (delete p xs) ≡ query_row q xs
  unfolding query_row delete
  query_row-delete_ne p q [] h = refl
  query_row-delete_ne p q (x ∷ xs) h = ground (arith, h x, query_row-delete_ne p q xs h)

  pub count-delete_self : (p : A → Bool) (xs : List A) → count p (delete p xs) ≡ 0
  unfolding count delete
  count-delete_self p [] = refl
  count-delete_self p (x ∷ xs) = ground (arith, count-delete_self p xs)

  pub count-delete_le : (p q : A → Bool) (xs : List A) → count q (delete p xs) ≤ count q xs
  unfolding count delete
  count-delete_le p q [] = omega arith
  count-delete_le p q (x ∷ xs) = ground (arith, count-delete_le p q xs)

  pub count-append : (q : A → Bool) (xs ys : List A) → count q (xs ++ ys) ≡ count q xs + count q ys
  unfolding count
  count-append q [] ys = omega arith
  count-append q (x ∷ xs) ys = ground (arith, count-append q xs ys)

  pub query_row-append :
      (q : A → Bool) (xs ys : List A)
      → query_row q xs ≡ none
      → query_row q (xs ++ ys) ≡ query_row q ys
  unfolding query_row
  query_row-append q [] ys h = refl
  query_row-append q (x ∷ xs) ys h = ground (arith, query_row-append q xs ys)

  -- A delete by a test that no row passes changes nothing.
  pub delete-none : (p : A → Bool) (xs : List A) → count p xs ≡ 0 → delete p xs ≡ xs
  unfolding count delete
  delete-none p [] h = refl
  delete-none p (x ∷ xs) h = ground (arith, delete-none p xs)

  pub update-none : (p : A → Bool) (f : A → A) (xs : List A) → count p xs ≡ 0 → update p f xs ≡ xs
  unfolding count update
  update-none p f [] h = refl
  update-none p f (x ∷ xs) h = ground (arith, update-none p f xs)
