-- ===== src/Auth/Password.antt =====
-- Password hashing (internal/auth/password.go). bcrypt is a library: the hashing functions that
-- the code calls are a parameter, with the law that the hash of a password matches it.
use etcdmonitor.Prelude.{
  ℕ, ◌≤◌, String, ◌≡◌, Bool, true, Option, some, arith, ltb, if◌then◌else◌, ◌||◌, ℤ, pos, negsuc,
}

pub record Bcrypt : Type 0 where
  -- bcrypt.GenerateFromPassword, `none` where it returns an error
  pub generate : String → ℕ → Option String
  -- bcrypt.CompareHashAndPassword returns nil
  pub matches : String → String → Bool
  pub matches-generate :
      (plain hash : String) (cost : ℕ) → generate plain cost ≡ some hash → matches hash plain ≡ true

abbrev pub bcrypt_min_cost : ℕ
bcrypt_min_cost = 8

abbrev pub bcrypt_max_cost : ℕ
bcrypt_max_cost = 14

abbrev pub bcrypt_default_cost : ℕ
bcrypt_default_cost = 10

unfoldable pub resolve_bcrypt_cost : ℤ → ℕ
resolve_bcrypt_cost (negsuc n) = bcrypt_default_cost
resolve_bcrypt_cost (pos cost) =
    if ltb cost bcrypt_min_cost || ltb bcrypt_max_cost cost then bcrypt_default_cost else cost

unfoldable pub hash_password : Bcrypt → String → ℤ → Option String
hash_password b plain cost = b.generate plain (resolve_bcrypt_cost cost)

unfoldable pub compare_password : Bcrypt → String → String → Bool
compare_password b hash plain = b.matches hash plain

-- Whatever the configured cost is, bcrypt runs with one between 8 and 14.
pub resolve_bcrypt_cost_bounds :
    (cost : ℤ)
    → (bcrypt_min_cost ≤ resolve_bcrypt_cost cost) × (resolve_bcrypt_cost cost ≤ bcrypt_max_cost)
unfolding resolve_bcrypt_cost
resolve_bcrypt_cost_bounds (negsuc n) = omega arith
resolve_bcrypt_cost_bounds (pos cost) = ground arith

pub compare-hash_password :
    (b : Bcrypt) (plain hash : String) (cost : ℤ)
    → hash_password b plain cost ≡ some hash
    → compare_password b hash plain ≡ true
unfolding hash_password compare_password
compare-hash_password b plain hash cost h =
    b.matches-generate plain hash (resolve_bcrypt_cost cost) h
