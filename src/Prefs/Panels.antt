-- ===== src/Prefs/Panels.antt =====
-- `PanelConfig`, its default, and the repair of a stored one (internal/prefs/prefs.go).
pub mod Merge
use etcdmonitor.Prelude.{
  ℕ, zero, suc, ◌+◌, String, Bool, true, false, not, ◌&&◌, List, [], ◌∷◌, ◌++◌, Option, none, some,
  Result, ok, err, leb, ltb, ◌==◌, nat_eq, string_eq, if◌then◌else◌, length, ℤ, pos,
}
use etcdmonitor.Storage.Table.{query_row, count}

pub record PanelItem : Type 0 where
  pub id : String
  pub visible : Bool
  pub order : ℤ

pub record CardPref : Type 0 where
  pub id : String
  pub visible : Bool
  pub order : ℤ

pub record PanelConfig : Type 0 where
  pub panels : List PanelItem
  pub cards : List CardPref

abbrev pub has_id : String → PanelItem → Bool
has_id id p = p.id == id

abbrev panel : String → Bool → ℕ → PanelItem
panel id visible order = record { id = id; visible = visible; order = pos order }

unfoldable pub default_panels : List PanelItem
default_panels =
    panel "chartRaftProposals" true 0
    ∷ panel "chartLeaderChanges" false 1
    ∷ panel "chartSlowOps" true 2
    ∷ panel "chartProposalLag" true 3
    ∷ panel "chartProposalFailedRate" true 4
    ∷ panel "chartWALFsync" true 5
    ∷ panel "chartBackendCommit" true 6
    ∷ panel "chartDBSize" true 7
    ∷ panel "chartMVCCOps" true 8
    ∷ panel "chartPeerTraffic" true 9
    ∷ panel "chartPeerRTT" true 10
    ∷ panel "chartGRPC" true 11
    ∷ panel "chartGRPCTraffic" true 12
    ∷ panel "chartCPU" true 13
    ∷ panel "chartMemory" true 14
    ∷ panel "chartGoroutines" true 15
    ∷ panel "chartGC" true 16
    ∷ panel "chartFDs" true 17
    ∷ panel "chartMemSys" true 18
    ∷ panel "chartServerHealth" false 19
    ∷ panel "chartSnapshotDefrag" false 20
    ∷ panel "chartBackendBreakdown" false 21
    ∷ panel "chartMVCCCompaction" true 22
    ∷ panel "chartWatcherEvents" false 23
    ∷ panel "chartLeaseActivity" false 24
    ∷ panel "chartActivePeersGRPC" false 25
    ∷ panel "chartFragmentationRatio" true 26
    ∷ []

-- `validPanelIDs[id]`
unfoldable pub is_valid_panel : String → Bool
is_valid_panel id = ltb 0 (count (has_id id) default_panels)

abbrev pub default_config : PanelConfig
default_config = record { panels = default_panels; cards = [] }

-- `seen[id]`, with the IDs that were marked
unfoldable pub is_seen : String → List String → Bool
is_seen id [] = false
is_seen id (x ∷ xs) = if x == id then true else is_seen id xs

-- The user's panels with a valid ID, the first of each; the result holds the marked IDs too.
unfoldable pub keep_known : List String → List PanelItem → List String × List PanelItem
unfolding is_valid_panel is_seen
keep_known seen [] = (seen, [])
keep_known seen (p ∷ ps) =
    let (all, kept) = keep_known (p.id ∷ seen) ps in
    let rest = keep_known seen ps in
    if is_valid_panel p.id && not (is_seen p.id seen) then (all, p ∷ kept) else rest

unfoldable pub missing : List String → ℕ → List PanelItem → List PanelItem
unfolding is_seen
missing seen next_order [] = []
missing seen next_order (dp ∷ dps) =
    let added : PanelItem = record dp { order = pos next_order } in
    let more = missing seen (next_order + 1) dps in
    let rest = missing seen next_order dps in if is_seen dp.id seen then rest else added ∷ more

unfoldable pub merge_with_defaults : List PanelItem → List PanelItem
unfolding keep_known missing
merge_with_defaults panels =
    let (seen, kept) = keep_known [] panels in kept ++ missing seen (length kept) default_panels

abbrev pub max_visible_cards : ℕ
max_visible_cards = 7

pub data PanelError : Type 0 where
  too_many_visible_cards : ℕ → PanelError

unfoldable pub visible_cards : List CardPref → ℕ
visible_cards [] = 0
visible_cards (c ∷ cs) = let n = visible_cards cs in if c.visible then n + 1 else n

-- `none` is the nil configuration.
unfoldable pub validate_panel_config : Option PanelConfig → Result PanelError (Unit {0})
unfolding visible_cards
validate_panel_config none = ok tt
validate_panel_config (some cfg) =
    let n = visible_cards cfg.cards in
    if ltb max_visible_cards n then err (too_many_visible_cards n) else ok tt
