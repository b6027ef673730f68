-- ===== src/Tabs/Handler/Rows.antt =====
-- A request that the repository refuses changes no tab.
use etcdmonitor.Prelude.{◌≡◌, refl, String, Bool-cases, inl, inr}
use etcdmonitor.Tabs.Repo.{RepoError}
use etcdmonitor.Tabs.Handler.{Env, TabState, rows, repo_refusal, is_not_found, log_audit}

pub repo_refusal-rows :
    (env : Env) (username id : String) (e : RepoError) (s : TabState)
    → rows (repo_refusal env username id e s).1 ≡ rows s
unfolding repo_refusal log_audit
repo_refusal-rows env username id e s = elim (Bool-cases (is_not_found e)) [
  | inl b ↦ rw b refl
  | inr b ↦ rw b refl
]
