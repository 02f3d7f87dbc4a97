-- ===== src/Sync/Examples.antt =====
-- One recording that an agent reports: cmd/agent/main.go.
use cloud_nvr.Base.{
  String, ◌≡◌, refl, true, false, none, some, [], ◌∷◌, map, All, arith, eq_iff, string_eq,
}
use cloud_nvr.Domain.{access_agent, mode_local, transfer_none}
use cloud_nvr.Store.Cameras.{Camera}
use cloud_nvr.Store.Recordings.{Recording, contains}
use cloud_nvr.Store.Recordings.Inventory.{Indexed}
use cloud_nvr.Store.Recordings.Reconciled.{reported}
use cloud_nvr.Sync.{acceptable, stamped, ids_of, valid_recording_checksum}
use cloud_nvr.Sync.Agent.{full_reports}
use cloud_nvr.Sync.Full.{sync_all, full_lem}

abbrev camera : Camera
camera = record {
  id = "cam";
  site_id = "north";
  name = "Door";
  stream_url = "";
  access_mode = access_agent;
  recording_mode = mode_local;
  local_days = 0;
  cloud_days = 30;
  transfer_policy = transfer_none;
  enabled = true;
  manual_recording = false;
  ptz_enabled = false;
  ptz_endpoint = "";
  ptz_username = "";
  ptz_password = none;
}

abbrev clip : Recording
clip = record {
  id = "r1";
  camera_id = "cam";
  source = "";
  storage_key = "a.mp4";
  checksum = "";
  started_at = 1;
  ended_at = some 2;
  size_bytes = 10;
  event_type = "";
}

abbrev token : String
token = "00000000-0000-4000-8000-000000000000"

clip_run : acceptable (ids_of (camera ∷ [])) clip ≡ true
unfolding acceptable contains valid_recording_checksum
clip_run = refl

full_lem_example :
    let after = sync_all 50 (camera ∷ []) (full_reports token (clip ∷ [])) [] in
    All (Indexed token after) (map stamped (clip ∷ []))
    × All
        (λ x.
          x.source ≡ "agent"
          → contains (ids_of (camera ∷ [])) x.camera_id ≡ true
          → reported (map stamped (clip ∷ [])) x.source x.storage_key ≡ true)
        after
full_lem_example =
    full_lem 50 (camera ∷ []) token (clip ∷ []) [] (refl, tt) (ground (arith, eq_iff token "")) refl
      (clip_run, tt) tt
