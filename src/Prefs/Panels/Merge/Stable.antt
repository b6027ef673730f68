-- ===== src/Prefs/Panels/Merge/Stable.antt =====
-- A repaired configuration needs no repair.
use etcdmonitor.Prelude.{
  ℕ, ◌≤◌, ◌≡◌, refl, ap, ◌∙◌, String, Bool, true, false, List, [], ◌∷◌, ◌++◌, arith, All, nat_eq,
  string_eq, if◌then◌else◌, length, eq_iff, ==_refl,
}
use mathlib.Core.List.{append-nil}
use etcdmonitor.Storage.Table.{count}
use etcdmonitor.Prefs.Panels.{
  PanelItem, has_id, default_panels, is_valid_panel, is_seen, keep_known, missing,
  merge_with_defaults,
}
use etcdmonitor.Prefs.Panels.Merge.{kept_in, seen_in, kept-seen, no_repeats, merged_complete}

-- A test of the IDs holds of a list when it holds of every ID that the list has.
All-of_count :
    (q : String → Bool) (b : Bool) (ps : List PanelItem)
    → ((id : String) → 1 ≤ count (has_id id) ps → q id ≡ b)
    → All (λ (p : PanelItem). q p.id ≡ b) ps
unfolding count
All-of_count q b [] h = tt
All-of_count q b (p ∷ ps) h =
    (h p.id (ground (arith, ==_refl p.id)), All-of_count q b ps (λ id l. h id (ground (arith, l))))

no_repeats-of_count :
    (ps : List PanelItem) → ((id : String) → count (has_id id) ps ≤ 1) → no_repeats ps ≡ true
unfolding count no_repeats
no_repeats-of_count [] h = refl
no_repeats-of_count (p ∷ ps) h =
    ground (arith, ==_refl p.id, h p.id, (no_repeats-of_count ps (λ id. ground (arith, h id))))

fresh-cons :
    (x : String) (seen : List String) (ps : List PanelItem)
    → count (has_id x) ps ≡ 0
    → All (λ (p : PanelItem). is_seen p.id seen ≡ false) ps
    → All (λ (p : PanelItem). is_seen p.id (x ∷ seen) ≡ false) ps
unfolding count is_seen
fresh-cons x seen [] h fresh = tt
fresh-cons x seen (p ∷ ps) h fresh = (
  ground (arith, fresh.0, eq_iff p.id x, eq_iff x p.id, h),
  fresh-cons x seen ps (ground (arith, h)) fresh.1,
)

-- Items of valid IDs, none repeated and none seen before, are all kept.
keep_known-All :
    (seen : List String) (ps : List PanelItem)
    → no_repeats ps ≡ true
    → All (λ (p : PanelItem). is_valid_panel p.id ≡ true) ps
    → All (λ (p : PanelItem). is_seen p.id seen ≡ false) ps
    → kept_in seen ps ≡ ps
unfolding keep_known no_repeats
keep_known-All seen [] once valid fresh = refl
keep_known-All seen (p ∷ ps) once valid fresh = ground (
  arith,
  valid.0,
  fresh.0,
  keep_known-All (p.id ∷ seen) ps (ground (arith, once)) valid.1
      (fresh-cons p.id seen ps (ground (arith, once)) fresh.1),
)

missing-none :
    (seen : List String) (n : ℕ) (ps : List PanelItem)
    → All (λ (p : PanelItem). is_seen p.id seen ≡ true) ps
    → missing seen n ps ≡ []
unfolding missing
missing-none seen n [] h = refl
missing-none seen n (p ∷ ps) h = rw h.0 (missing-none seen n ps h.1)

not_seen : (id : String) → is_seen id [] ≡ false
unfolding is_seen
not_seen id = refl

valid-of_count :
    (qs : List PanelItem)
    → ((id : String) → count (has_id id) qs ≡ (if is_valid_panel id then 1 else 0))
    → (kept_in [] qs ≡ qs) × ((n : ℕ) → missing (seen_in [] qs) n default_panels ≡ [])
unfolding is_valid_panel
valid-of_count qs complete = (
  keep_known-All [] qs (no_repeats-of_count qs (λ id. ground (arith, complete id)))
      (All-of_count is_valid_panel true qs (λ id h. ground (arith, complete id, h)))
      (All-of_count (λ id. is_seen id []) false qs (λ id h. not_seen id)),
  λ n. missing-none (seen_in [] qs) n default_panels (
      All-of_count (λ id. is_seen id (seen_in [] qs)) true default_panels
        (λ id h. ground (arith, kept-seen id [] qs (not_seen id), complete id, h))),
)

stable :
    (qs : List PanelItem)
    → ((id : String) → count (has_id id) qs ≡ (if is_valid_panel id then 1 else 0))
    → merge_with_defaults qs ≡ qs
unfolding merge_with_defaults
stable qs complete =
    let (kept, none_missing) = valid-of_count qs complete in
    ap (λ rest. kept_in [] qs ++ rest) (none_missing (length (kept_in [] qs)))
    ∙ append-nil (kept_in [] qs)
    ∙ kept

-- Repairing a repaired list of panels changes nothing, orders included.
pub merged_stable :
    (ps : List PanelItem) → merge_with_defaults (merge_with_defaults ps) ≡ merge_with_defaults ps
merged_stable ps = stable (merge_with_defaults ps) (λ id. merged_complete id ps)
