-- ===== src/Examples/Members.antt =====
-- Members that were listed at second 10 and are asked for again at second 39, when the cluster is
-- away.
use etcdmonitor.Prelude.{ℕ, String, ◌≡◌, refl, true, false, List, [], ◌∷◌, none, some}
use etcdmonitor.Tabs.Members.{
  MemberReply, list_failed, listed, is_default_cluster_member, normalize_for_member_match,
}
use etcdmonitor.Config.Endpoints.{trim_space, is_space}
use etcdmonitor.Tabs.Members.Answers.{after_calls, Sourced, Match, member_check_origin}

abbrev log : List (ℕ × MemberReply)
log = (10, listed ("http://a:1" ∷ "HTTP://b:1/" ∷ [])) ∷ []

member_check_origin_example :
    let r =
      (is_default_cluster_member
        ("http://a:1" ∷ [])
        "http://b:1"
        39
        list_failed
        (after_calls ("http://a:1" ∷ []) log)).0 in
    (members : List String) × Sourced
      ("http://a:1" ∷ [])
      ((39, list_failed) ∷ log)
      39
      (members, r.1)
    × Match (normalize_for_member_match "http://b:1") members r.0
member_check_origin_example =
    member_check_origin ("http://a:1" ∷ []) log 39 list_failed "http://b:1"

still_known :
    (is_default_cluster_member
      ("http://a:1" ∷ [])
      "http://b:1"
      39
      list_failed
      (after_calls ("http://a:1" ∷ []) log)).0
    ≡ (some "HTTP://b:1/", false)
unfolding is_default_cluster_member after_calls trim_space is_space
still_known = refl

-- One second later the list is too old, and only the configured endpoint is known.
forgotten :
    (is_default_cluster_member
      ("http://a:1" ∷ [])
      "http://b:1"
      40
      list_failed
      (after_calls ("http://a:1" ∷ []) log)).0
    ≡ (none, true)
unfolding is_default_cluster_member after_calls trim_space is_space
forgotten = refl
