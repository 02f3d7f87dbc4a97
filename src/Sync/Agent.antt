-- ===== src/Sync/Agent.antt =====
-- What an agent reports: inventorySnapshot, syncFullRecordingInventory and syncRecordingChanges of
-- cmd/agent/main.go. A recording on the agent has no id and no source yet.
use cloud_nvr.Base.{
  ℕ, zero, suc, String, Bool, true, false, not, ◌&&◌, ◌||◌, Option, none, some, List, [], ◌∷◌, ◌++◌,
  ◌==◌, nat_eq, string_eq, if◌then◌else◌, length, take, drop,
}
use cloud_nvr.Base.Dict.{Dict, lookup, insert}
use cloud_nvr.Domain.{mode_local, mode_hybrid, mode_manual, mode_beq}
use cloud_nvr.Store.Cameras.{Camera}
use cloud_nvr.Store.Recordings.{Recording}
use cloud_nvr.Sync.{Report}

-- recordsLocally
unfoldable pub records_locally : Camera → Bool
records_locally c =
    mode_beq c.recording_mode mode_local
    || mode_beq c.recording_mode mode_hybrid
    || mode_beq c.recording_mode mode_manual && c.manual_recording

-- sameTime
abbrev pub same_time : Option ℕ → Option ℕ → Bool
same_time none none = true
same_time (some a) (some b) = a == b
same_time _ _ = false

-- inventorySnapshot
unfoldable pub snapshot_from : Dict String Recording → List Recording → Dict String Recording
snapshot_from d [] = d
snapshot_from d (r ∷ rs) = snapshot_from (insert r.storage_key r d) rs

abbrev pub inventory_snapshot : List Recording → Dict String Recording
inventory_snapshot = snapshot_from []

abbrev pub page_size : ℕ
page_size = 200

-- The loop of syncFullRecordingInventory over `recordings[start:end]`, on fuel.
unfoldable pub pages : ℕ → List Recording → List (List Recording)
pages zero rs = []
pages (suc n) [] = []
pages (suc n) (r ∷ rs) = take page_size (r ∷ rs) ∷ pages n (drop page_size (r ∷ rs))

abbrev pub page_report : String → List Recording → Report
page_report sync_id page = record {
  recordings = page;
  deleted_recordings = [];
  sync_id = sync_id;
  complete = false;
}

abbrev pub last_report : String → Report
last_report sync_id = record {
  recordings = [];
  deleted_recordings = [];
  sync_id = sync_id;
  complete = true;
}

abbrev pub page_reports : String → List (List Recording) → List Report
page_reports sync_id [] = []
page_reports sync_id (p ∷ ps) = page_report sync_id p ∷ page_reports sync_id ps

-- The reports of syncFullRecordingInventory, if none fails. The fuel is the number of recordings.
unfoldable pub full_reports : String → List Recording → List Report
full_reports sync_id rs = page_reports sync_id (pages (length rs) rs) ++ last_report sync_id ∷ []

-- Is the recording new, or not the one of the last inventory?
abbrev pub is_changed : Option Recording → Recording → Bool
is_changed none r = true
is_changed (some old) r =
    not (old.size_bytes == r.size_bytes)
    || not (old.started_at == r.started_at)
    || not (same_time old.ended_at r.ended_at)

-- The two loops of syncRecordingChanges that compare the inventories.
unfoldable pub changed : Dict String Recording → Dict String Recording → List Recording
changed previous [] = []
changed previous ((k, r) ∷ next) =
    let rest = changed previous next in if is_changed (lookup k previous) r then r ∷ rest else rest

abbrev pub is_gone : Option Recording → Bool
is_gone none = true
is_gone (some _) = false

-- What is reported of a recording that is gone.
abbrev pub deletion : Recording → Recording
deletion r = record {
  id = "";
  camera_id = r.camera_id;
  source = "";
  storage_key = r.storage_key;
  checksum = "";
  started_at = 0;
  ended_at = none;
  size_bytes = 0;
  event_type = "";
}

unfoldable pub gone : Dict String Recording → Dict String Recording → List Recording
gone [] next = []
gone ((k, r) ∷ previous) next =
    let rest = gone previous next in if is_gone (lookup k next) then deletion r ∷ rest else rest

-- The loop of syncRecordingChanges that sends both lists in pages, on fuel.
unfoldable pub change_reports : ℕ → List Recording → List Recording → List Report
change_reports zero changes deletions = []
change_reports (suc n) [] [] = []
change_reports (suc n) changes deletions =
    record {
      recordings = take page_size changes;
      deleted_recordings = take page_size deletions;
      sync_id = "";
      complete = false;
    }
    ∷ change_reports n (drop page_size changes) (drop page_size deletions)
