-- ===== src/Prefs/Panels/Merge.antt =====
-- What the repair of a stored configuration gives.
pub mod Stable
use etcdmonitor.Prelude.{
  ℕ, zero, suc, ◌+◌, ◌≤◌, ◌<◌, ◌≡◌, ◌≢◌, refl, ap, ◌∙◌, sym, String, Bool, true, false, not, ◌&&◌,
  List, [], ◌∷◌, ◌++◌, Option, none, some, leb, ltb, arith, All, ◌==◌, nat_eq, string_eq,
  if◌then◌else◌, length, pos, eq_iff, Bool-cases, Option-cases, inl, inr, ==_refl,
}
use etcdmonitor.Storage.Table.{query_row, count, count-append, query_row-append, count-none}
use etcdmonitor.Prefs.Panels.{
  PanelItem, has_id, default_panels, is_valid_panel, is_seen, keep_known, missing,
  merge_with_defaults,
}

-- 1 for true
abbrev number : Bool → ℕ
number b = if b then 1 else 0

abbrev pub seen_in : List String → List PanelItem → List String
seen_in seen ps = (keep_known seen ps).0

abbrev pub kept_in : List String → List PanelItem → List PanelItem
kept_in seen ps = (keep_known seen ps).1

count-eq_id :
    (i j : String) (ps : List PanelItem) → i ≡ j → count (has_id i) ps ≡ count (has_id j) ps
count-eq_id i j ps e = rw e refl

seen-eq_id : (i j : String) (seen : List String) → i ≡ j → is_seen i seen ≡ is_seen j seen
seen-eq_id i j seen e = rw e refl

valid-eq_id : (i j : String) → i ≡ j → is_valid_panel i ≡ is_valid_panel j
valid-eq_id i j e = rw e refl

kept-count_seen :
    (id : String) (seen : List String) (ps : List PanelItem)
    → is_seen id seen ≡ true
    → (count (has_id id) (kept_in seen ps) ≡ 0) × (is_seen id (seen_in seen ps) ≡ true)
unfolding keep_known count is_seen
kept-count_seen id seen [] h = (refl, h)
kept-count_seen id seen (p ∷ ps) h =
    ground
      (arith, eq_iff p.id id, kept-count_seen id (p.id ∷ seen) ps, kept-count_seen id seen ps h)

-- What is kept of an ID that is not seen yet is one item, if there is one and it is valid, and
-- then the ID is seen.
kept-count :
    (id : String) (seen : List String) (ps : List PanelItem)
    → is_seen id seen ≡ false
    → count (has_id id) (kept_in seen ps)
      ≡ (if is_valid_panel id then number (ltb 0 (count (has_id id) ps)) else 0)
unfolding keep_known count is_seen
kept-count id seen [] h = ground (arith, h)
kept-count id seen (p ∷ ps) h = ground (
  arith,
  h,
  eq_iff p.id id,
  seen-eq_id p.id id seen,
  valid-eq_id p.id id,
  kept-count id (p.id ∷ seen) ps,
  kept-count id seen ps h,
  (kept-count_seen id (p.id ∷ seen) ps),
)

pub kept-seen :
    (id : String) (seen : List String) (ps : List PanelItem)
    → is_seen id seen ≡ false
    → is_seen id (seen_in seen ps)
      ≡ (if is_valid_panel id then ltb 0 (count (has_id id) ps) else false)
unfolding keep_known count is_seen
kept-seen id seen [] h = ground (arith, h)
kept-seen id seen (p ∷ ps) h = ground (
  arith,
  h,
  eq_iff p.id id,
  seen-eq_id p.id id seen,
  valid-eq_id p.id id,
  kept-seen id (p.id ∷ seen) ps,
  kept-seen id seen ps h,
  (kept-count_seen id (p.id ∷ seen) ps),
)

kept-find :
    (id : String) (seen : List String) (ps : List PanelItem)
    → is_seen id seen ≡ false
    → is_valid_panel id ≡ true
    → query_row (has_id id) (kept_in seen ps) ≡ query_row (has_id id) ps
unfolding keep_known query_row is_seen
kept-find id seen [] h v = refl
kept-find id seen (p ∷ ps) h v = ground (
  arith,
  h,
  v,
  eq_iff p.id id,
  seen-eq_id p.id id seen,
  valid-eq_id p.id id,
  kept-find id (p.id ∷ seen) ps,
  kept-find id seen ps h v,
)

missing-count :
    (id : String) (seen : List String) (n : ℕ) (ps : List PanelItem)
    → count (has_id id) (missing seen n ps) ≡ (if is_seen id seen then 0 else count (has_id id) ps)
unfolding missing count
missing-count id seen n [] = ground arith
missing-count id seen n (p ∷ ps) = ground (
  arith,
  eq_iff p.id id,
  seen-eq_id p.id id seen,
  missing-count id seen n ps,
  missing-count id seen (n + 1) ps,
)

abbrev pub visible_of : Option PanelItem → Option Bool
visible_of none = none
visible_of (some p) = some p.visible

missing-find :
    (id : String) (seen : List String) (n : ℕ) (ps : List PanelItem)
    → is_seen id seen ≡ false
    → visible_of (query_row (has_id id) (missing seen n ps)) ≡ visible_of (query_row (has_id id) ps)
unfolding missing query_row
missing-find id seen n [] h = refl
missing-find id seen n (p ∷ ps) h = ground (
  arith,
  h,
  eq_iff p.id id,
  seen-eq_id p.id id seen,
  missing-find id seen n ps h,
  missing-find id seen (n + 1) ps h,
)

-- A list that no item repeats
unfoldable pub no_repeats : List PanelItem → Bool
no_repeats [] = true
no_repeats (p ∷ ps) =
    let rest = no_repeats ps in if count (has_id p.id) ps == 0 then rest else false

no_repeats-count :
    (id : String) (ps : List PanelItem) → no_repeats ps ≡ true → count (has_id id) ps ≤ 1
unfolding no_repeats count
no_repeats-count id [] h = omega arith
no_repeats-count id (p ∷ ps) h =
    ground (arith, eq_iff p.id id, count-eq_id p.id id ps, no_repeats-count id ps)

default_panels-no_repeats : no_repeats default_panels ≡ true
unfolding no_repeats default_panels count
default_panels-no_repeats = refl

default-count : (id : String) → count (has_id id) default_panels ≡ number (is_valid_panel id)
unfolding is_valid_panel
default-count id = ground (arith, no_repeats-count id default_panels default_panels-no_repeats)

append-find :
    (id : String) (ps qs : List PanelItem) (p : PanelItem)
    → query_row (has_id id) ps ≡ some p
    → query_row (has_id id) (ps ++ qs) ≡ some p
unfolding query_row
append-find id [] qs p h = absurd (ground arith)
append-find id (x ∷ ps) qs p h = ground (arith, append-find id ps qs p)

-- A repaired list has every panel of the program once, and no other.
pub merged_complete :
    (id : String) (ps : List PanelItem)
    → count (has_id id) (merge_with_defaults ps) ≡ (if is_valid_panel id then 1 else 0)
unfolding merge_with_defaults
merged_complete id ps =
    let seen = seen_in [] ps in
    let kept = kept_in [] ps in
    let added = missing seen (length kept) default_panels in
    ground (
      arith,
      count-append (has_id id) kept added,
      kept-count id [] ps refl,
      kept-seen id [] ps refl,
      missing-count id seen (length kept) default_panels,
      default-count id,
    )

-- In a repaired list a panel of the program is as the user's first item for it, and where the
-- user has no item for it, it is shown or hidden as by default.
pub merged_settings :
    (id : String) (ps : List PanelItem)
    → is_valid_panel id ≡ true
    → ((p : PanelItem)
        → query_row (has_id id) ps ≡ some p
        → query_row (has_id id) (merge_with_defaults ps) ≡ some p)
      × (query_row (has_id id) ps ≡ none
          → visible_of (query_row (has_id id) (merge_with_defaults ps))
            ≡ visible_of (query_row (has_id id) default_panels))
unfolding merge_with_defaults
merged_settings id ps v =
    let seen = seen_in [] ps in
    let kept = kept_in [] ps in
    let added = missing seen (length kept) default_panels in
    (
      λ p e. append-find id kept added p (kept-find id [] ps refl v ∙ e),
      λ e.
          ap visible_of (query_row-append (has_id id) kept added (kept-find id [] ps refl v ∙ e))
          ∙ missing-find id seen (length kept) default_panels
              (ground (arith, kept-seen id [] ps refl, v, count-none (has_id id) ps e)),
    )
