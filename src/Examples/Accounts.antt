-- ===== src/Examples/Accounts.antt =====
-- Logins and password changes.
use etcdmonitor.Auth.Password.{compare_password, hash_password}
use etcdmonitor.Auth.Sessions.{create}
use etcdmonitor.Prelude.{
  ℕ, ◌≡◌, ◌≢◌, refl, String, List, [], ◌∷◌, some, arith, map, string_eq, byte_len,
}
use etcdmonitor.Storage.Table.{query_row, count}
use etcdmonitor.Storage.Users.{
  is_locked, exec, get_user_by_username, store_audit_log, update_password,
}
use etcdmonitor.Storage.Users.Lookup.{find_user}
use etcdmonitor.Storage.Users.Trail.{identity}
use etcdmonitor.Auth.Handler.{Context, LoginRequest, logged_in, log_audit}
use etcdmonitor.Auth.Handler.Login.{handle_login, issue_session}
use etcdmonitor.Auth.Handler.Login.Safety.{Authenticated, login-Authenticated}
use etcdmonitor.Auth.Handler.Login.Frame.{login_frame}
use etcdmonitor.Auth.Handler.ChangePassword.{handle_change_password}
use etcdmonitor.Auth.Handler.ChangePassword.Change.{Changed, change-Changed}
use etcdmonitor.Auth.Handler.ChangePassword.Frame.{change_refused}
use etcdmonitor.Auth.Handler.RoundTrip.{login-change}
use etcdmonitor.Examples.Fixtures.{plain_bcrypt, config, at, alice, state, login_as, change_to}

-- The first wrong password; the second reaches the threshold of the configuration.
abbrev one_guess : List (Context × LoginRequest)
one_guess = (at 15, login_as "wrong1") ∷ []

login-Authenticated_example :
    Authenticated plain_bcrypt
      (at 10)
      (login_as "open1")
      (state alice)
      "t1"
      (handle_login plain_bcrypt config (at 10) (some (login_as "open1")) (state alice)).1
unfolding handle_login get_user_by_username exec query_row is_locked compare_password issue_session
    create
login-Authenticated_example =
    login-Authenticated plain_bcrypt config (at 10) (login_as "open1") (state alice) "alice" "t1"
      3610 refl

login_frame_example :
    let final =
      (handle_login plain_bcrypt config (at 10) (some (login_as "wrong")) (state alice)).1 in
    (map identity final.store.users ≡ map identity (state alice).store.users)
    × ((other : String)
        → other ≢ "alice"
        → find_user other final.store ≡ find_user other (state alice).store)
login_frame_example = login_frame plain_bcrypt config (at 10) (login_as "wrong") (state alice)

change-Changed_example :
    Changed plain_bcrypt config
      (at 10)
      (change_to "open9")
      (state alice)
      (handle_change_password plain_bcrypt config
        (at 10)
        (some (change_to "open9"))
        (state alice)).1
unfolding handle_change_password get_user_by_username exec query_row is_locked compare_password
    hash_password update_password count byte_len
change-Changed_example =
    change-Changed plain_bcrypt config (at 10) (change_to "open9") (state alice) refl

not_200 : (n : ℕ) → n ≡ 400 → n ≢ 200
not_200 n e h = omega (arith, e, h)

change_refused_example :
    let final =
      (handle_change_password plain_bcrypt config
        (at 10)
        (some (change_to "open1"))
        (state alice)).1 in
    (map identity final.store.users ≡ map identity (state alice).store.users)
    × ((other : String)
        → other ≢ "alice"
        → find_user other final.store ≡ find_user other (state alice).store)
unfolding handle_change_password get_user_by_username exec query_row is_locked compare_password
    byte_len
change_refused_example =
    change_refused plain_bcrypt config (at 10) (change_to "open1") (state alice) (not_200 _ refl)

login-change_example :
    (end : ℕ) × ((handle_login plain_bcrypt config
        (at 12)
        (some (login_as "open9"))
        (handle_change_password plain_bcrypt config
          (at 10)
          (some (change_to "open9"))
          (state alice)).1).0.body
      ≡ logged_in "alice" end "t1")
unfolding handle_change_password get_user_by_username exec query_row is_locked compare_password
    hash_password update_password count log_audit store_audit_log byte_len
login-change_example =
    login-change plain_bcrypt config (at 10) (at 12) (change_to "open9") (state alice) "t1" refl
      (λ n. refl) refl
