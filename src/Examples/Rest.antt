-- ===== src/Examples/Rest.antt =====
-- Panels, preference files and health checks.
use mathlib.Core.List.{Permᴰ}
use etcdmonitor.Prelude.{
  ℕ, ◌≡◌, ◌≢◌, refl, String, Bool, true, false, List, [], ◌∷◌, some, ok, err, Result, ◌==◌, nat_eq,
  string_eq, if◌then◌else◌, pos,
}
use etcdmonitor.Storage.Table.{select, query_row, count}
use etcdmonitor.Prefs.Panels.{
  PanelItem, PanelConfig, has_id, is_valid_panel, default_panels, merge_with_defaults,
}
use etcdmonitor.Prefs.Panels.Merge.{merged_complete}
use etcdmonitor.Prefs.Panels.Merge.Stable.{merged_stable}
use etcdmonitor.Prefs.FileStore.{FileStore, user_file_path, load, save, saved, read_done}
use etcdmonitor.Prefs.FileStore.Safety.{load-save}
use etcdmonitor.Health.{Manager, contains, probe_all, status_from_healthy}
use etcdmonitor.Health.Probe.{probe_all-select}
use etcdmonitor.Health.Status.{answered, status_available}

-- The user hid the CPU panel and keeps one that the program does not have any more.
abbrev chosen : List PanelItem
chosen =
    record { id = "chartCPU"; visible = false; order = pos 100 }
    ∷ record { id = "chartGone"; visible = true; order = pos 1 }
    ∷ []

merged_complete_example :
    count (has_id "chartGone") (merge_with_defaults chosen)
    ≡ (if is_valid_panel "chartGone" then 1 else 0)
merged_complete_example = merged_complete "chartGone" chosen

merged_stable_example :
    merge_with_defaults (merge_with_defaults chosen) ≡ merge_with_defaults chosen
merged_stable_example = merged_stable chosen

-- A panel that was missing gets an order below that of the user's panel.
appended_before :
    query_row (has_id "chartRaftProposals") (merge_with_defaults chosen)
    ≡ some (record { id = "chartRaftProposals"; visible = true; order = pos 1 })
unfolding merge_with_defaults query_row count default_panels
appended_before = refl

abbrev files : FileStore
files = record { files = [] }

abbrev choice : PanelConfig
choice = record { panels = chosen; cards = [] }

load-save_example :
    (load "alice" read_done (save "alice" choice saved files).1
      ≡ ok (record choice { panels = merge_with_defaults chosen }))
    × (user_file_path "alice" ≢ user_file_path "bob"
        → load "bob" read_done (save "alice" choice saved files).1 ≡ load "bob" read_done files)
load-save_example = load-save "alice" "bob" choice files

abbrev up : String → Bool
up ep = ep == "e2"

probe_all-select_example :
    probe_all
      ("e1" ∷ "e2" ∷ [])
      (record { index = 1; healthy = true } ∷ record { index = 0; healthy = false } ∷ [])
    ≡ select up ("e1" ∷ "e2" ∷ [])
probe_all-select_example =
    probe_all-select up ("e1" ∷ "e2" ∷ [])
      (record { index = 1; healthy = true } ∷ record { index = 0; healthy = false } ∷ [])
      (Permᴰ.swap refl refl)

abbrev status : String → Result String ℕ
status ep = if ep == "e2" then ok 7 else err "down"

abbrev checked : Manager
checked = record { all_endpoints = "e1" ∷ "e2" ∷ []; healthy = "e1" ∷ []; stopped = false }

status_available_example : answered (status_from_healthy status checked) ≡ true
unfolding contains
status_available_example = status_available status checked "e2" refl refl
