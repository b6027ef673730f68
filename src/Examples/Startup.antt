-- ===== src/Examples/Startup.antt =====
-- The first start, and the password it makes.
use etcdmonitor.Auth.Password.{hash_password}
use etcdmonitor.Prelude.{
  ℕ, ◌≡◌, ◌≢◌, ◌≤◌, refl, List, [], ◌∷◌, none, some, ok, err, arith, pos, map, length, All, Result,
}
use etcdmonitor.Storage.Table.{count, query_row}
use etcdmonitor.Storage.Users.{exec, count_users, create_user}
use etcdmonitor.Storage.Users.Invariant.{IsValid}
use etcdmonitor.Storage.Users.Calls.{create_call, delete_call, run_user_calls, run_calls-IsValid}
use etcdmonitor.Auth.RandomPassword.{generate_initial_password, IsLetter, initial_password_length}
use etcdmonitor.Auth.RandomPassword.Length.{
  accepted_total, accepted, generate_initial_password_total,
}
use etcdmonitor.Auth.Bootstrap.{
  BootState, Os, written, write_failed, ensure_default_admin, write_initial_password_file,
}
use etcdmonitor.Auth.Bootstrap.FirstStart.{first_start}
use etcdmonitor.Auth.Bootstrap.FirstStart.Creation.{FirstAdmin}
use etcdmonitor.Examples.Fixtures.{plain_bcrypt, alice, account, storage}

abbrev sixteen : List ℕ
sixteen = 0 ∷ 1 ∷ 2 ∷ 3 ∷ 4 ∷ 5 ∷ 6 ∷ 7 ∷ 8 ∷ 9 ∷ 10 ∷ 11 ∷ 12 ∷ 13 ∷ 14 ∷ 15 ∷ []

abbrev sixteen_letters : List ℕ
sixteen_letters = 50 ∷ 51 ∷ 52 ∷ 53 ∷ 54 ∷ 55 ∷ 56 ∷ 57 ∷ 65 ∷ 66 ∷ 67 ∷ 68 ∷ 69 ∷ 70 ∷ 71 ∷ 72 ∷ []

abbrev empty : BootState
empty = record { store = storage []; password_file = none }

abbrev used : BootState
used = record { store = storage (alice ∷ []); password_file = some "kept" }

abbrev fine_os : Os
fine_os = record { now = 7; generated = some "Pw-1"; write = written }

abbrev full_disk : Os
full_disk = record { now = 7; generated = some "Pw-1"; write = write_failed none }

first_start_example :
    FirstAdmin plain_bcrypt fine_os 3 (ensure_default_admin plain_bcrypt (pos 10) fine_os empty).1
unfolding ensure_default_admin count_users exec count hash_password create_user query_row
    write_initial_password_file
first_start_example = first_start plain_bcrypt (pos 10) fine_os empty refl refl

some_user : used.store.users ≢ []
some_user e = cc

failure : {A E : Type 0} {e : E} {a : A} (r : Result E A) → r ≡ err e → r ≢ ok a
failure r p q = cc

enough : initial_password_length ≤ accepted_total (sixteen ∷ [])
unfolding accepted_total accepted
enough = omega arith

generate_initial_password_total_example :
    (pw : List ℕ) × (generate_initial_password (map some (sixteen ∷ [])) ≡ some pw)
    × (length pw ≡ initial_password_length)
    × All IsLetter pw
generate_initial_password_total_example = generate_initial_password_total (sixteen ∷ []) enough

run_calls-IsValid_example : IsValid (
    run_user_calls
      (create_call 5 (account 0 "carol" "open3") ∷ delete_call "alice" ∷ [])
      (storage (alice ∷ [])))
unfolding count
run_calls-IsValid_example =
    run_calls-IsValid (create_call 5 (account 0 "carol" "open3") ∷ delete_call "alice" ∷ [])
      (storage (alice ∷ []))
      (record { names = (refl, tt); ids = (refl, tt); below = (omega arith, tt) })
